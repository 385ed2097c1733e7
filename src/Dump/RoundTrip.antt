-- ===== src/Dump/RoundTrip.antt =====
-- What is captured by internal/dump is what is read back, and a file stays within its size.
use dbbat.Prelude.{
  ℕ, ◌+◌, ◌-◌, ◌≤◌, ◌<◌, ◌^◌, ◌≡◌, ◌≢◌, refl, sym, ap, ◌∙◌, subst, true, false, ◌&&◌, some, List,
  [], ◌∷◌, ◌++◌, arith, ltb, ◌==◌, if◌then◌else◌, length, append_assoc, All, ok, err, Bool-cases,
  inl, inr,
}
use mathlib.Core.List.{append-nil}
use dbbat.Prelude.Texts.{has_prefix}
use dbbat.Prelude.Bytes.{put_be, get_be, length-put_be, get_be-put_be, read_full-append}
use dbbat.Dump.{
  Header, Packet, JsonLib, Writer, Reader, eof, eof_marker, since, magic, version, frame,
  header_bytes, new_writer, append_frame, write_packet, close, read_packet, read_version,
  open_reader,
}
use dbbat.Dump.Frames.{Fits, frame_of, read_packet-frame_of, read_packet-end}

-- A reader at `rest` gets these packets, one after another, and then the end of the file.
abbrev pub Reads : List ℕ → List Packet → Type 0
Reads rest [] = read_packet rest ≡ err eof
Reads rest (p ∷ packets) =
    (rest' : List ℕ) × (read_packet rest ≡ ok (p, rest')) × Reads rest' packets

unfoldable pub frames : List Packet → List ℕ
frames [] = []
frames (p ∷ packets) = frame_of p ++ frames packets

pub frames-Reads :
    (packets : List Packet) (relative_ns : ℕ)
    → All Fits packets
    → Reads (frames packets ++ frame relative_ns eof_marker []) packets
unfolding frames
frames-Reads [] relative_ns f =
    ap read_packet (sym (append-nil (frame relative_ns eof_marker [])))
    ∙ read_packet-end relative_ns []
frames-Reads (p ∷ packets) relative_ns (f, fs) =
    let tail = frames packets ++ frame relative_ns eof_marker [] in
    (
      tail,
      ap read_packet (append_assoc (frame_of p) (frames packets) (frame relative_ns eof_marker []))
          ∙ read_packet-frame_of p tail f,
      frames-Reads packets relative_ns fs,
    )

read_version-header :
    (lib : JsonLib) (json rest : List ℕ) (header : Header)
    → lib.unmarshal json ≡ some header
    → length json < 2 ^ 32
    → read_version lib (put_be 2 version) (put_be 4 (length json) ++ (json ++ rest))
      ≡ ok (record { rest = rest; header = header })
unfolding read_version
read_version-header lib json rest header back small =
    let ver : (get_be (put_be 2 version) == version) ≡ true =
      ap (λ n. n == version) (get_be-put_be 2 version (omega arith)) in
    rw
      (
        ver,
        read_full-append 4 (put_be 4 (length json)) (json ++ rest) (length-put_be 4 (length json)),
        get_be-put_be 4 (length json) (omega arith),
        read_full-append (length json) json rest refl,
        back,
      )
      refl

open_reader-magic :
    (lib : JsonLib) (rest : List ℕ)
    → open_reader lib (magic ++ (put_be 2 version ++ rest))
      ≡ read_version lib (put_be 2 version) rest
unfolding open_reader has_prefix
open_reader-magic lib rest =
    rw
      (
        read_full-append 16 magic (put_be 2 version ++ rest) refl,
        read_full-append 2 (put_be 2 version) rest (length-put_be 2 version),
      )
      refl

header_tail :
    (json rest : List ℕ)
    → header_bytes json ++ rest
      ≡ magic ++ (put_be 2 version ++ (put_be 4 (length json) ++ (json ++ rest)))
unfolding header_bytes
header_tail json rest =
    ap (λ t. magic ++ t)
      (append_assoc (put_be 2 version) (put_be 4 (length json) ++ json) rest
        ∙ ap (λ t. put_be 2 version ++ t) (append_assoc (put_be 4 (length json)) json rest))

pub open_reader-header :
    (lib : JsonLib) (json rest : List ℕ) (header : Header)
    → lib.unmarshal json ≡ some header
    → length json < 2 ^ 32
    → open_reader lib (header_bytes json ++ rest) ≡ ok (record { rest = rest; header = header })
open_reader-header lib json rest header back small =
    ap (open_reader lib) (header_tail json rest)
    ∙ open_reader-magic lib (put_be 4 (length json) ++ (json ++ rest))
    ∙ read_version-header lib json rest header back small

-- A packet that comes at an instant.
pub record Capture : Type 0 where
  pub now : ℕ
  pub direction : ℕ
  pub bytes : List ℕ

-- The packet comes at the start or later, by less than 2^63 nanoseconds, about 292 years.
abbrev pub InTime : ℕ → Capture → Type 0
InTime start c = (start ≤ c.now) × (c.now < start + 2 ^ 63)

unfoldable pub capture_all : List Capture → Writer → Writer
capture_all [] w = w
capture_all (c ∷ captures) w = capture_all captures (write_packet c.now c.direction c.bytes w)

-- The packets that fit, in plain arithmetic: those for which there is room behind the `used` bytes,
-- where `size` is the limit, or 0 for none, each with the nanoseconds from the start to it.
unfoldable pub kept : ℕ → ℕ → ℕ → List Capture → List Packet
kept start size used [] = []
kept start size used (c ∷ captures) =
    let total = used + (13 + length c.bytes) in
    let skipped = kept start size used captures in
    let rest = kept start size total captures in
    if ltb 0 size && ltb size total
    then skipped
    else record { relative_ns = c.now - start; direction = c.direction; bytes = c.bytes } ∷ rest

-- One capture that is skipped, and one that is written.
write_packet_full :
    (c : Capture) (w : Writer)
    → (ltb 0 w.max_size && ltb w.max_size (w.written + (13 + length c.bytes))) ≡ true
    → write_packet c.now c.direction c.bytes w ≡ w
unfolding write_packet
write_packet_full c w full = rw full refl

since_lem : (start : ℕ) (c : Capture) → InTime start c → since start c.now ≡ c.now - start
unfolding since
since_lem start c (late, near) = ground arith

write_packet_room :
    (c : Capture) (w : Writer)
    → InTime w.start_time c
    → (ltb 0 w.max_size && ltb w.max_size (w.written + (13 + length c.bytes))) ≡ false
    → write_packet c.now c.direction c.bytes w
      ≡ append_frame (frame (c.now - w.start_time) c.direction c.bytes) (13 + length c.bytes) w
unfolding write_packet
write_packet_room c w time room = rw (room, since_lem w.start_time c time) refl

capture_all-frames :
    (captures : List Capture) (w : Writer)
    → All (InTime w.start_time) captures
    → (capture_all captures w).file
      ≡ w.file ++ frames (kept w.start_time w.max_size w.written captures)
unfolding capture_all kept frames
capture_all-frames [] w h = sym (append-nil w.file)
capture_all-frames (c ∷ captures) w (time, times) =
    elim (Bool-cases (ltb 0 w.max_size && ltb w.max_size (w.written + (13 + length c.bytes)))) [
      | inl full ↦ rw full (
          ap (λ v. (capture_all captures v).file) (write_packet_full c w full)
          ∙ capture_all-frames captures w times)
      | inr room ↦
          let bytes = frame (c.now - w.start_time) c.direction c.bytes in
          let w' = append_frame bytes (13 + length c.bytes) w in
          rw room (
            ap (λ v. (capture_all captures v).file) (write_packet_room c w time room)
            ∙ capture_all-frames captures w' (unfold append_frame in times)
            ∙ (unfold append_frame in
                append_assoc w.file bytes (
                  frames
                    (kept w.start_time w.max_size (w.written + (13 + length c.bytes)) captures))))
    ]

kept-Fits :
    (start size used : ℕ) (captures : List Capture)
    → All (λ c. (c.direction ≢ eof_marker) × (length c.bytes < 2 ^ 32)) captures
    → All (InTime start) captures
    → All Fits (kept start size used captures)
unfolding kept
kept-Fits start size used [] h k = tt
kept-Fits start size used (c ∷ captures) ((d, l), h) (time, k) =
    elim (Bool-cases (ltb 0 size && ltb size (used + (13 + length c.bytes)))) [
      | inl full ↦ rw full (kept-Fits start size used captures h k)
      | inr room ↦ rw room (
        record { time = omega arith; direction = d; size = l },
        kept-Fits start size (used + (13 + length c.bytes)) captures h k,
      )
    ]

abbrev pub Made : JsonLib → Header → ℕ → List ℕ → Writer → Type 0
Made lib header size json w =
    (w.file ≡ header_bytes json)
    × (w.start_time ≡ header.start_time)
    × (w.max_size ≡ size)
    × (w.written ≡ length w.file)

pub new_writer_lem :
    (lib : JsonLib) (header : Header) (size : ℕ) (json : List ℕ) (w : Writer)
    → lib.marshal header ≡ some json
    → new_writer lib header size ≡ ok w
    → Made lib header size json w
unfolding new_writer
new_writer_lem lib header size json w m h = ground (arith, m)

pub closing :
    (now : ℕ) (packets : List Packet) (w : Writer) (json : List ℕ) (file : List ℕ)
    → w.file ≡ file ++ frames packets
    → close now w ≡ file ++ (frames packets ++ frame (since w.start_time now) eof_marker [])
unfolding close
closing now packets w json file h =
    ap (λ f. f ++ frame (since w.start_time now) eof_marker []) h
    ∙ append_assoc file (frames packets) (frame (since w.start_time now) eof_marker [])

-- A writer is made, captures packets and is closed; no direction is the mark of the end, no packet has
-- 2^32 bytes or more, each comes at the start of the header or later, by less than 2^63 nanoseconds,
-- and the JSON of the header reads back as `header'`. Then the file opens with that header and gives
-- the packets that fit into its size, in order, each with the nanoseconds from the start to it, and
-- after them the end.
pub captured-Reads :
    (lib : JsonLib) (header header' : Header) (size now : ℕ) (json : List ℕ) (w : Writer)
    (captures : List Capture)
    → lib.marshal header ≡ some json
    → lib.unmarshal json ≡ some header'
    → length json < 2 ^ 32
    → new_writer lib header size ≡ ok w
    → All (λ c. (c.direction ≢ eof_marker) × (length c.bytes < 2 ^ 32)) captures
    → All (InTime header.start_time) captures
    → (r : Reader) × (open_reader lib (close now (capture_all captures w)) ≡ ok r)
      × (r.header ≡ header')
      × Reads r.rest (kept header.start_time size w.written captures)
captured-Reads lib header header' size now json w captures m back small make fits in_time =
    let (file, start, max_size, _) = new_writer_lem lib header size json w m make in
    let times = subst (λ st. All (InTime st) captures) (sym start) in_time in
    let packets = kept w.start_time w.max_size w.written captures in
    let w' = capture_all captures w in
    let tail = frames packets ++ frame (since w'.start_time now) eof_marker [] in
    (
      record { rest = tail; header = header' },
      ap (open_reader lib) (
            closing now packets w' json w.file (capture_all-frames captures w times)
            ∙ ap (λ f. f ++ tail) file)
          ∙ open_reader-header lib json tail header' back small,
      refl,
      subst (λ st. Reads tail (kept st size w.written captures)) start
          (subst (λ sz. Reads tail (kept w.start_time sz w.written captures)) max_size
            (frames-Reads packets (since w'.start_time now)
              (kept-Fits w.start_time w.max_size w.written captures fits times))),
    )
