-- ===== src/Dump/Frames.antt =====
-- What a reader of internal/dump makes of the frames that a writer leaves.
use dbbat.Prelude.{
  ℕ, ◌<◌, ◌^◌, ◌≡◌, ◌≢◌, refl, sym, ap, ◌∙◌, false, List, [], ◌∷◌, ◌++◌, arith, ◌==◌, length,
  length-append, append_assoc, ok, err,
}
use dbbat.Prelude.Bytes.{put_be, length-put_be, get_be-put_be, read_full-append}
use dbbat.Dump.{Packet, eof, eof_marker, frame, read_payload, read_packet}

-- The fields fit the widths of a frame, and the direction is not the mark of the end.
pub record Fits (p : Packet) : Type 0 where
  pub time : p.relative_ns < 2 ^ 64
  pub direction : p.direction ≢ eof_marker
  pub size : length p.bytes < 2 ^ 32

abbrev pub frame_of : Packet → List ℕ
frame_of p = frame p.relative_ns p.direction p.bytes

-- A frame read with what follows it.
read_head :
    (time tail rest bytes : List ℕ) (direction : ℕ)
    → length time ≡ 8
    → length tail ≡ 4
    → read_packet ((time ++ (direction ∷ tail)) ++ rest) ≡ read_payload time (direction ∷ tail) rest
unfolding read_packet
read_head time tail rest bytes direction a b =
    let whole : length (time ++ (direction ∷ tail)) ≡ 13 =
      omega (arith, length-append time (direction ∷ tail)) in
    rw
      (
        read_full-append 13 (time ++ (direction ∷ tail)) rest whole,
        read_full-append 8 time (direction ∷ tail) a,
      )
      refl

regroup :
    (relative_ns direction : ℕ) (bytes rest : List ℕ)
    → frame relative_ns direction bytes ++ rest
      ≡ (put_be 8 relative_ns ++ (direction ∷ put_be 4 (length bytes))) ++ (bytes ++ rest)
unfolding frame
regroup relative_ns direction bytes rest =
    let time = put_be 8 relative_ns in
    let size = put_be 4 (length bytes) in
    append_assoc time (direction ∷ (size ++ bytes)) rest
    ∙ ap (λ t. time ++ (direction ∷ t)) (append_assoc size bytes rest)
    ∙ sym (append_assoc time (direction ∷ size) (bytes ++ rest))

read_packet-frame :
    (relative_ns direction : ℕ) (bytes rest : List ℕ)
    → read_packet (frame relative_ns direction bytes ++ rest)
      ≡ read_payload (put_be 8 relative_ns) (direction ∷ put_be 4 (length bytes)) (bytes ++ rest)
read_packet-frame relative_ns direction bytes rest =
    ap read_packet (regroup relative_ns direction bytes rest)
    ∙ read_head (put_be 8 relative_ns) (put_be 4 (length bytes)) (bytes ++ rest) bytes direction
        (length-put_be 8 relative_ns) (length-put_be 4 (length bytes))

pub read_packet-frame_of :
    (p : Packet) (rest : List ℕ) → Fits p → read_packet (frame_of p ++ rest) ≡ ok (p, rest)
read_packet-frame_of p rest f = read_packet-frame p.relative_ns p.direction p.bytes rest ∙ payload
  where
    other : (p.direction == eof_marker) ≡ false
    other = ground (arith, f.direction)

    payload :
        read_payload
          (put_be 8 p.relative_ns)
          (p.direction ∷ put_be 4 (length p.bytes))
          (p.bytes ++ rest)
        ≡ ok (p, rest)
    payload =
        unfold read_payload in
        rw
          (
            other,
            get_be-put_be 4 (length p.bytes) (omega (arith, f.size)),
            read_full-append (length p.bytes) p.bytes rest refl,
            get_be-put_be 8 p.relative_ns (omega (arith, f.time)),
          )
          refl

pub read_packet-end :
    (relative_ns : ℕ) (rest : List ℕ)
    → read_packet (frame relative_ns eof_marker [] ++ rest) ≡ err eof
read_packet-end relative_ns rest =
    read_packet-frame relative_ns eof_marker [] rest ∙ (unfold read_payload in refl)
