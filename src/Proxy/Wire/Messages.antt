-- ===== src/Proxy/Wire/Messages.antt =====
-- Framing and compression of internal/proxy/mongodb/wire.go.
use dbbat.Prelude.{
  ℕ, zero, suc, ◌+◌, ◌-◌, ◌^◌, ◌≤◌, ◌<◌, ◌≡◌, refl, sym, ap, ◌∙◌, subst, false, some, List, [], ◌∷◌,
  ◌++◌, arith, ltb, leb, length, length-append, append_assoc, take, drop, take-append, drop-append,
  ok, Option-cases, inl, inr,
}
use mathlib.Core.List.{append-nil}
use dbbat.Prelude.Bytes.{
  put_le, get_le, read_full, length-put_le, get_le-put_le, read_full-append, read_full_lem,
}
use dbbat.Proxy.Wire.{
  Message, read_message, read_body, message_of, write_header, word_at, header_len,
  max_wire_message_size,
}

abbrev InBounds : ℕ → Type 0
InBounds size = (header_len ≤ size) × (size ≤ max_wire_message_size)

read_body_lem :
    (hdr : List ℕ) (size : ℕ) (rest : List ℕ) (m : Message) (rest' : List ℕ)
    → read_body hdr size rest ≡ ok (m, rest')
    → InBounds size
      × ((body : List ℕ) × (read_full (size - header_len) rest ≡ some (body, rest'))
          × (m ≡ message_of hdr body))
unfolding read_body
read_body_lem hdr size rest m rest' h = elim (Option-cases (read_full (size - header_len) rest)) [
  | inl e ↦ absurd (ground (arith, e))
  | inr ((body, rest''), e) ↦
      ((ground (arith, e), ground (arith, e)), (body, ground (arith, e), ground (arith, e)))
]

-- The four words of a header, each in four bytes with the lowest first, are the message's.
abbrev SaysHeader : List ℕ → Message → Type 0
SaysHeader raw m =
    (m.size ≡ get_le (take 4 raw))
    × (m.request_id ≡ get_le (take 4 (drop 4 raw)))
    × (m.response_to ≡ get_le (take 4 (drop 8 raw)))
    × (m.op_code ≡ get_le (take 4 (drop 12 raw)))

-- What stands in a list before its end stands there with more behind it.
take-drop_append :
    (n : ℕ) (xs ys : List ℕ) → n + 4 ≤ length xs → take 4 (drop n (xs ++ ys)) ≡ take 4 (drop n xs)
take-drop_append zero (a ∷ b ∷ c ∷ d ∷ xs) ys h = refl
take-drop_append zero (a ∷ b ∷ c ∷ []) ys h = absurd (omega arith)
take-drop_append zero (a ∷ b ∷ []) ys h = absurd (omega arith)
take-drop_append zero (a ∷ []) ys h = absurd (omega arith)
take-drop_append zero [] ys h = absurd (omega arith)
take-drop_append (suc n) [] ys h = absurd (omega arith)
take-drop_append (suc n) (x ∷ xs) ys h = take-drop_append n xs ys (omega arith)

message_of-SaysHeader :
    (hdr body : List ℕ) → length hdr ≡ 16 → SaysHeader (hdr ++ body) (message_of hdr body)
message_of-SaysHeader hdr body h = (
  ap get_le (sym (take-drop_append 0 hdr body (omega arith))),
  ap get_le (sym (take-drop_append 4 hdr body (omega arith))),
  ap get_le (sym (take-drop_append 8 hdr body (omega arith))),
  ap get_le (sym (take-drop_append 12 hdr body (omega arith))),
)

abbrev Relayed : List ℕ → List ℕ → Message → Type 0
Relayed stream rest m =
    (stream ≡ m.raw ++ rest)
    × (length m.raw ≡ m.size)
    × (header_len ≤ m.size)
    × (m.size ≤ max_wire_message_size)
    × (m.body ≡ drop header_len m.raw)
    × SaysHeader m.raw m

message_of-Relayed :
    (stream hdr rest0 body rest : List ℕ)
    → read_full header_len stream ≡ some (hdr, rest0)
    → read_full (word_at 0 hdr - header_len) rest0 ≡ some (body, rest)
    → InBounds (word_at 0 hdr)
    → Relayed stream rest (message_of hdr body)
message_of-Relayed stream hdr rest0 body rest e e' (lo, hi) =
    let (start, long) = read_full_lem header_len stream (hdr, rest0) e in
    let (next, long') = read_full_lem (word_at 0 hdr - header_len) rest0 (body, rest) e' in
    (
      start ∙ ap (λ t. hdr ++ t) next ∙ sym (append_assoc hdr body rest),
      omega (arith, length-append hdr body),
      lo,
      hi,
      subst (λ n. body ≡ drop n (hdr ++ body)) long (sym (drop-append hdr body)),
      message_of-SaysHeader hdr body long,
    )

-- What is relayed is what was read: the raw bytes of a message are the start of the stream, as many as
-- their first four bytes say, lowest first, from 16 to 48,000,000; the identifiers and the opcode are
-- what the next three words of four bytes say; and the body is what follows the sixteen bytes.
pub read_message-raw :
    (stream : List ℕ) (m : Message) (rest : List ℕ)
    → read_message stream ≡ ok (m, rest)
    → (stream ≡ m.raw ++ rest)
      × (length m.raw ≡ m.size)
      × (header_len ≤ m.size)
      × (m.size ≤ max_wire_message_size)
      × (m.body ≡ drop header_len m.raw)
      × ((m.size ≡ get_le (take 4 m.raw))
          × (m.request_id ≡ get_le (take 4 (drop 4 m.raw)))
          × (m.response_to ≡ get_le (take 4 (drop 8 m.raw)))
          × (m.op_code ≡ get_le (take 4 (drop 12 m.raw))))
unfolding read_message
read_message-raw stream m rest h = elim (Option-cases (read_full header_len stream)) [
  | inl e ↦ absurd (ground (arith, e))
  | inr ((hdr, rest0), e) ↦
      let (size, (body, e', same)) =
        read_body_lem hdr (word_at 0 hdr) rest0 m rest (ground (arith, e)) in
      subst (Relayed stream rest) (sym same)
        (message_of-Relayed stream hdr rest0 body rest e e' size)
]

-- Words at their places.
pub word_at-append :
    (before : List ℕ) (n : ℕ) (after : List ℕ)
    → n < 2 ^ 32
    → word_at (length before) (before ++ (put_le 4 n ++ after)) ≡ n
word_at-append before n after h = rw (drop-append before (put_le 4 n ++ after)) (
    subst (λ k. get_le (take k (put_le 4 n ++ after)) ≡ n) (length-put_le 4 n)
      (rw (take-append (put_le 4 n) after) (get_le-put_le 4 n (omega arith))))

-- The words of a header, with what follows it.
header_tail :
    (a b c d : ℕ) (tail : List ℕ)
    → write_header a b c d ++ tail
      ≡ put_le 4 a ++ (put_le 4 b ++ (put_le 4 c ++ (put_le 4 d ++ tail)))
unfolding write_header
header_tail a b c d tail =
    append_assoc (put_le 4 a) (put_le 4 b ++ (put_le 4 c ++ put_le 4 d)) tail
    ∙ ap (λ t. put_le 4 a ++ t)
        (append_assoc (put_le 4 b) (put_le 4 c ++ put_le 4 d) tail
          ∙ ap (λ t. put_le 4 b ++ t) (append_assoc (put_le 4 c) (put_le 4 d) tail))

pub length-write_header : (a b c d : ℕ) → length (write_header a b c d) ≡ 16
unfolding write_header
length-write_header a b c d = ground (
  arith,
  length-append (put_le 4 a) (put_le 4 b ++ (put_le 4 c ++ put_le 4 d)),
  length-append (put_le 4 b) (put_le 4 c ++ put_le 4 d),
  length-append (put_le 4 c) (put_le 4 d),
  length-put_le 4 a,
  length-put_le 4 b,
  length-put_le 4 c,
  length-put_le 4 d,
)

abbrev pub Words : List ℕ → ℕ → ℕ → ℕ → ℕ → Type 0
Words bytes a b c d =
    (word_at 0 bytes ≡ a) × (word_at 4 bytes ≡ b) × (word_at 8 bytes ≡ c) × (word_at 12 bytes ≡ d)

pub write_header-Words :
    (a b c d : ℕ) (tail : List ℕ)
    → a < 2 ^ 32
    → b < 2 ^ 32
    → c < 2 ^ 32
    → d < 2 ^ 32
    → Words (write_header a b c d ++ tail) a b c d
unfolding put_le
write_header-Words a b c d tail ha hb hc hd =
    subst (λ t. Words t a b c d) (sym (header_tail a b c d tail))
      (
        get_le-put_le 4 a (omega arith),
        get_le-put_le 4 b (omega arith),
        get_le-put_le 4 c (omega arith),
        get_le-put_le 4 d (omega arith),
      )

-- A message whose header says its size is read back from what follows it.
abbrev pub built : ℕ → ℕ → ℕ → ℕ → List ℕ → Message
built size request_id response_to op_code body = record {
  size = size;
  request_id = request_id;
  response_to = response_to;
  op_code = op_code;
  body = body;
  raw = write_header size request_id response_to op_code ++ body;
}

message_of-write_header :
    (a b c d : ℕ) (body : List ℕ)
    → a < 2 ^ 32
    → b < 2 ^ 32
    → c < 2 ^ 32
    → d < 2 ^ 32
    → message_of (write_header a b c d) body ≡ built a b c d body
message_of-write_header a b c d body ha hb hc hd =
    let (wa, wb, wc, wd) =
      subst (λ t. Words t a b c d) (append-nil (write_header a b c d))
        (write_header-Words a b c d [] ha hb hc hd) in
    rw (wa, wb, wc, wd) refl

read_body_built :
    (hdr body rest : List ℕ)
    → length body + 16 ≤ max_wire_message_size
    → read_body hdr (16 + length body) (body ++ rest) ≡ ok (message_of hdr body, rest)
unfolding read_body
read_body_built hdr body rest small =
    let a : leb (2 ^ 31) (16 + length body) ≡ false = ground arith in
    let b : ltb (16 + length body) 16 ≡ false = ground arith in
    let c : ltb 48000000 (16 + length body) ≡ false = ground arith in
    let n : 16 + length body - 16 ≡ length body = omega arith in
    rw (a, b, c, n, read_full-append (length body) body rest refl) refl

pub read_message-built :
    (b c d : ℕ) (body rest : List ℕ)
    → length body + 16 ≤ max_wire_message_size
    → b < 2 ^ 32
    → c < 2 ^ 32
    → d < 2 ^ 32
    → read_message ((write_header (16 + length body) b c d ++ body) ++ rest)
      ≡ ok (built (16 + length body) b c d body, rest)
unfolding read_message
read_message-built b c d body rest small hb hc hd =
    let size = 16 + length body in
    let hdr = write_header size b c d in
    let (wa, _, _, _) =
      subst (λ t. Words t size b c d) (append-nil hdr)
        (write_header-Words size b c d [] (omega arith) hb hc hd) in
    ap read_message (append_assoc hdr body rest)
    ∙ rw (read_full-append 16 hdr (body ++ rest) (length-write_header size b c d)) (
        ap (λ n. read_body hdr n (body ++ rest)) wa
        ∙ read_body_built hdr body rest small
        ∙ ap (λ m. ok (m, rest)) (message_of-write_header size b c d body (omega arith) hb hc hd))
