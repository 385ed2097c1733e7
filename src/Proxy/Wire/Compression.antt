-- ===== src/Proxy/Wire/Compression.antt =====
-- Compressed messages of internal/proxy/mongodb/wire.go are read back as what was compressed.
use dbbat.Prelude.{
  ℕ, ◌+◌, ◌^◌, ◌≤◌, ◌<◌, ◌≡◌, refl, sym, ap, ◌∙◌, subst, true, false, some, List, ◌∷◌, ◌++◌, arith,
  ltb, ◌==◌, length, length-append, drop, drop-append, ok, err, Option-cases, Result-cases, inl,
  inr,
}
use dbbat.Prelude.Bytes.{put_le, get_le-put_le}
use dbbat.Proxy.Wire.{
  Message, WireError, Zlib, read_message, write_header, word_at, max_wire_message_size, decompress,
  compress, unwrapped, decompress_body, decompress_message, compress_message, op_code_compressed,
}
use dbbat.Proxy.Wire.Messages.{write_header-Words, length-write_header, built, read_message-built}

-- What inflates the bytes that `compress` gives.
abbrev pub Inflates : Zlib → Type 0
Inflates lib =
    (bytes deflated : List ℕ)
    → lib.deflate bytes ≡ some deflated
    → lib.inflate (length bytes + 1) deflated ≡ some bytes

decompress-compress :
    (lib : Zlib) (id : ℕ) (bytes compressed : List ℕ)
    → Inflates lib
    → compress lib id bytes ≡ ok compressed
    → decompress lib id compressed (length bytes) ≡ ok bytes
unfolding compress decompress
decompress-compress lib id bytes compressed inflates h = elim (Option-cases (lib.deflate bytes)) [
  | inl e ↦ ground (arith, e)
  | inr (z, e) ↦ ground (arith, e, inflates bytes z e)
]

-- What `compressMessage` writes after the header.
abbrev envelope : ℕ → List ℕ → ℕ → List ℕ → List ℕ
envelope op_code body id compressed =
    put_le 4 op_code ++ (put_le 4 (length body) ++ (id ∷ compressed))

compress_message_lem :
    (lib : Zlib) (b c d id : ℕ) (body compressed : List ℕ)
    → b < 2 ^ 32
    → c < 2 ^ 32
    → d < 2 ^ 32
    → length body + 16 < 2 ^ 32
    → compress lib id body ≡ ok compressed
    → compress_message lib (write_header (16 + length body) b c d ++ body) id
      ≡ ok (
          write_header (16 + (9 + length compressed)) b c op_code_compressed
          ++ envelope d body id compressed)
unfolding compress_message
compress_message_lem lib b c d id body compressed hb hc hd small h =
    let size = 16 + length body in
    let hdr = write_header size b c d in
    let long : ltb (length (hdr ++ body)) 16 ≡ false =
      ground (arith, length-append hdr body, length-write_header size b c d) in
    let (_, wb, wc, wd) = write_header-Words size b c d body (omega arith) hb hc hd in
    let cut : drop 16 (hdr ++ body) ≡ body =
      subst (λ n. drop n (hdr ++ body) ≡ body) (length-write_header size b c d)
        (drop-append hdr body) in
    rw (long, wb, wc, wd, cut, h) refl

length-envelope :
    (op_code id : ℕ) (body compressed : List ℕ)
    → length (envelope op_code body id compressed) ≡ 9 + length compressed
unfolding put_le
length-envelope op_code id body compressed = omega arith

decompress_message-envelope :
    (lib : Zlib) (size b c d id : ℕ) (body compressed : List ℕ)
    → d < 2 ^ 32
    → length body ≤ max_wire_message_size
    → decompress lib id compressed (length body) ≡ ok body
    → decompress_message lib (built size b c op_code_compressed (envelope d body id compressed))
      ≡ ok (built (16 + length body) b c d body, id)
unfolding decompress_message decompress_body unwrapped put_le
decompress_message-envelope lib size b c d id body compressed hd small h =
    let wl : word_at 4 (envelope d body id compressed) ≡ length body =
      get_le-put_le 4 (length body) (omega arith) in
    let wd : word_at 0 (envelope d body id compressed) ≡ d = get_le-put_le 4 d (omega arith) in
    let fits : ltb max_wire_message_size (length body) ≡ false = ground arith in
    let same : (length body == length body) ≡ true = ground arith in
    rw (wl, wd, fits, h, unwrapped, same) refl

compress_message_err :
    (lib : Zlib) (hdr body : List ℕ) (id : ℕ) (e : WireError)
    → length hdr ≡ 16
    → compress lib id body ≡ err e
    → compress_message lib (hdr ++ body) id ≡ err e
unfolding compress_message
compress_message_err lib hdr body id e long f =
    let enough : ltb (length (hdr ++ body)) 16 ≡ false = ground (arith, length-append hdr body) in
    let cut : drop 16 (hdr ++ body) ≡ body =
      subst (λ n. drop n (hdr ++ body) ≡ body) long (drop-append hdr body) in
    rw (enough, cut, f) refl

compress_message_inv :
    (lib : Zlib) (b c d id : ℕ) (body wrapped : List ℕ)
    → b < 2 ^ 32
    → c < 2 ^ 32
    → d < 2 ^ 32
    → length body + 16 < 2 ^ 32
    → compress_message lib (write_header (16 + length body) b c d ++ body) id ≡ ok wrapped
    → (compressed : List ℕ) × (compress lib id body ≡ ok compressed)
      × (wrapped
          ≡ write_header (16 + (9 + length compressed)) b c op_code_compressed
            ++ envelope d body id compressed)
compress_message_inv lib b c d id body wrapped hb hc hd small h =
    elim (Result-cases (compress lib id body)) [
      | inr (e, f) ↦
          let size = 16 + length body in
          absurd (
            ground (
              arith,
              compress_message_err lib (write_header size b c d) body id e
                  (length-write_header size b c d) f,
            ))
      | inl (compressed, k) ↦
          let made = compress_message_lem lib b c d id body compressed hb hc hd small k in
          (compressed, k, ground (arith, made))
    ]

-- A message with fields of 32 bits is compressed, by either compressor, and has at most the maximal size
-- before and after; zlib inflates what it deflates. Then the compressed message is read whole from a
-- stream, has the opcode of compressed messages, and is decompressed to the message that was compressed,
-- raw bytes included, with the compressor that was used.
pub decompress_message-compress_message :
    (lib : Zlib) (b c d id : ℕ) (body wrapped rest : List ℕ)
    → Inflates lib
    → b < 2 ^ 32
    → c < 2 ^ 32
    → d < 2 ^ 32
    → length body + 16 ≤ max_wire_message_size
    → length wrapped ≤ max_wire_message_size
    → compress_message lib (write_header (16 + length body) b c d ++ body) id ≡ ok wrapped
    → (m : Message) × (read_message (wrapped ++ rest) ≡ ok (m, rest))
      × (m.op_code ≡ op_code_compressed)
      × (decompress_message lib m ≡ ok (built (16 + length body) b c d body, id))
decompress_message-compress_message lib b c d id body wrapped rest inflates hb hc hd small small'
      h =
    let (compressed, k, w) =
      compress_message_inv lib b c d id body wrapped hb hc hd (omega arith) h in
    let inner = envelope d body id compressed in
    let long = length-envelope d id body compressed in
    let size : length inner + 16 ≤ max_wire_message_size = omega (
      arith,
      ap length w,
      small',
      length-append (write_header (16 + (9 + length compressed)) b c op_code_compressed) inner,
      length-write_header (16 + (9 + length compressed)) b c op_code_compressed,
    ) in
    let m = built (16 + length inner) b c op_code_compressed inner in
    (
      m,
      ap (λ t. read_message (t ++ rest))
            (w ∙ ap (λ n. write_header (16 + n) b c op_code_compressed ++ inner) (sym long))
          ∙ read_message-built b c op_code_compressed inner rest size hb hc (omega arith),
      refl,
      decompress_message-envelope lib (16 + length inner) b c d id body compressed hd (omega arith)
          (decompress-compress lib id body compressed inflates k),
    )
