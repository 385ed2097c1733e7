-- ===== src/Dump/Copies.antt =====
-- What `Anonymise` of internal/dump keeps of a file, and that it ends.
use dbbat.Prelude.{
  ℕ, zero, suc, ◌≤◌, ◌<◌, ◌≡◌, ◌≢◌, none, some, List, [], ◌∷◌, arith, length, length-append, Result,
  ok, err, inl, inr, Result-cases, Option-cases, Bool-cases, ◌==◌,
}
use dbbat.Prelude.Bytes.{get_be, read_full, read_full_lem}
use dbbat.Dump.{
  Packet, DumpError, JsonLib, Writer, Reader, eof_marker, header_bytes, new_writer,
  write_packet_raw, read_packet, read_payload, read_version, open_reader, copy_loop, copy_to,
  stripped, anonymise_open, anonymise,
}

-- The writer after the packets.
unfoldable pub raw_all : List Packet → Writer → Writer
raw_all [] w = w
raw_all (p ∷ packets) w = raw_all packets (write_packet_raw p.relative_ns p.direction p.bytes w)

-- A packet takes bytes off the file.
read_payload-length :
    (time tail rest : List ℕ) (p : Packet) (rest' : List ℕ)
    → read_payload time tail rest ≡ ok (p, rest')
    → length rest' ≤ length rest
unfolding read_payload
read_payload-length time [] rest p rest' h = absurd (ground arith)
read_payload-length time (d ∷ size) rest p rest' h = elim (Bool-cases (d == eof_marker)) [
  | inl e ↦ absurd (ground (arith, e))
  | inr other ↦ elim (Option-cases (read_full (get_be size) rest)) [
    | inl e ↦ absurd (ground (arith, e, other))
    | inr (r, e) ↦
        let (eq, _) = read_full_lem (get_be size) rest r e in
        ground (arith, e, other, eq, length-append r.0 r.1)
  ]
]

read_packet-length :
    (rest : List ℕ) (p : Packet) (rest' : List ℕ)
    → read_packet rest ≡ ok (p, rest')
    → length rest' < length rest
unfolding read_packet
read_packet-length rest p rest' h = elim (Option-cases (read_full 13 rest)) [
  | inl e ↦ absurd (ground (arith, e))
  | inr (r, e) ↦
      let (eq, long) = read_full_lem 13 rest r e in
      let shorter : length r.1 < length rest = ground (arith, eq, long, length-append r.0 r.1) in
      elim (Option-cases (read_full 8 r.0)) [
        | inl e' ↦ absurd (ground (arith, e, e'))
        | inr (t, e') ↦
            let le = read_payload-length t.0 t.1 r.1 p rest' (ground (arith, e, e')) in
            omega (arith, le, shorter)
      ]
]

copy_loop-ne-none :
    (fuel : ℕ) (rest : List ℕ) (w : Writer) → length rest < fuel → copy_loop fuel rest w ≢ none
unfolding copy_loop
copy_loop-ne-none zero rest w h = absurd (omega arith)
copy_loop-ne-none (suc fuel) rest w h = elim (Result-cases (read_packet rest)) [
  | inr (e, r) ↦ rw (r, copy_loop) (λ eq. absurd (ground (arith, eq)))
  | inl ((p, rest'), r) ↦
      rw (r, copy_loop)
        (copy_loop-ne-none fuel rest' (write_packet_raw p.relative_ns p.direction p.bytes w)
          (omega (arith, read_packet-length rest p rest' r)))
]

read_full-length :
    (n : ℕ) (stream : List ℕ) (r : List ℕ × List ℕ)
    → read_full n stream ≡ some r
    → length r.1 ≤ length stream
read_full-length n stream r e =
    let (eq, _) = read_full_lem n stream r e in ground (arith, eq, length-append r.0 r.1)

read_version-length :
    (lib : JsonLib) (ver file : List ℕ) (r : Reader)
    → read_version lib ver file ≡ ok r
    → length r.rest ≤ length file
unfolding read_version
read_version-length lib ver file r h = elim (Option-cases (read_full 4 file)) [
  | inl e ↦ absurd (ground (arith, e))
  | inr (s, e) ↦ elim (Option-cases (read_full (get_be s.0) s.1)) [
    | inl e' ↦ absurd (ground (arith, e, e'))
    | inr (j, e') ↦
        ground (arith, e, e', read_full-length 4 file s e, read_full-length (get_be s.0) s.1 j e')
  ]
]

open_reader-length :
    (lib : JsonLib) (file : List ℕ) (r : Reader)
    → open_reader lib file ≡ ok r
    → length r.rest ≤ length file
unfolding open_reader
open_reader-length lib file r h = elim (Option-cases (read_full 16 file)) [
  | inl e ↦ absurd (ground (arith, e))
  | inr (s, e) ↦ elim (Option-cases (read_full 2 s.1)) [
    | inl e' ↦ absurd (ground (arith, e, e'))
    | inr (v, e') ↦ ground (
      arith,
      e,
      e',
      read_full-length 16 file s e,
      read_full-length 2 s.1 v e',
      read_version-length lib v.0 v.1 r,
    )
  ]
]

copy_to-ne-none :
    (now fuel : ℕ) (r : Reader) (w : Result DumpError Writer)
    → length r.rest < fuel
    → copy_to now fuel r w ≢ none
unfolding copy_to
copy_to-ne-none now fuel r (err e) h = λ eq. absurd (ground (arith, eq))
copy_to-ne-none now fuel r (ok w) h = elim (Option-cases (copy_loop fuel r.rest w)) [
  | inl e ↦ absurd (copy_loop-ne-none fuel r.rest w h e)
  | inr (x, e) ↦ rw (e, copy_to) (λ eq. absurd (ground (arith, eq)))
]

-- `Anonymise` on fuel above the length of its input: its loop over the packets ends, with an error or
-- with none, whatever the bytes of the input are.
pub anonymise-ne-none :
    (lib : JsonLib) (now fuel : ℕ) (input : List ℕ)
    → length input < fuel
    → anonymise lib now fuel input ≢ none
unfolding anonymise anonymise_open
anonymise-ne-none lib now fuel input h = elim (Result-cases (open_reader lib input)) [
  | inr (e, eq) ↦ rw (eq, anonymise_open) (λ x. absurd (ground (arith, x)))
  | inl (r, eq) ↦
      rw (eq, anonymise_open)
        (copy_to-ne-none now fuel r (new_writer lib (stripped r.header) 0)
          (omega (arith, open_reader-length lib input r eq)))
]

-- The writer for a header whose JSON is known, and what `Anonymise` does with it.
abbrev started : ℕ → List ℕ → Writer
started at json = record {
  file = header_bytes json;
  start_time = at;
  max_size = 0;
  written = length (header_bytes json);
}
