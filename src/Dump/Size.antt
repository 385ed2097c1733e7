-- ===== src/Dump/Size.antt =====
-- How long a file of internal/dump can become.
use dbbat.Prelude.{ℕ, ◌+◌, ◌≤◌, ◌<◌, ◌≡◌, List, [], ◌∷◌, ◌++◌, arith, length, length-append}
use dbbat.Prelude.Bytes.{put_be, length-put_be}
use dbbat.Dump.{Writer, since, frame, append_frame, write_packet}
use dbbat.Dump.RoundTrip.{Capture, capture_all}

length-frame :
    (relative_ns direction : ℕ) (bytes : List ℕ)
    → length (frame relative_ns direction bytes) ≡ 13 + length bytes
unfolding frame
length-frame relative_ns direction bytes = omega (
  arith,
  length-append (put_be 8 relative_ns) (direction ∷ (put_be 4 (length bytes) ++ bytes)),
  length-append (put_be 4 (length bytes)) bytes,
  length-put_be 8 relative_ns,
  length-put_be 4 (length bytes),
)

write_packet-Counted :
    (now direction : ℕ) (bytes : List ℕ) (w : Writer) (m : ℕ)
    → w.written ≡ length w.file
    → 0 < w.max_size
    → length w.file ≤ m
    → w.max_size ≤ m
    → let w' = write_packet now direction bytes w in
      (w'.written ≡ length w'.file) × (w'.max_size ≡ w.max_size) × (length w'.file ≤ m)
unfolding write_packet append_frame
write_packet-Counted now direction bytes w m count pos small le = ground (
  arith,
  length-frame (since w.start_time now) direction bytes,
  length-append w.file (frame (since w.start_time now) direction bytes),
)

-- Captures never make a file longer than its maximal size, if it has one, or than it was.
pub length-captured-le :
    (captures : List Capture) (w : Writer) (m : ℕ)
    → w.written ≡ length w.file
    → 0 < w.max_size
    → length w.file ≤ m
    → w.max_size ≤ m
    → length (capture_all captures w).file ≤ m
unfolding capture_all
length-captured-le [] w m count pos small le = small
length-captured-le (c ∷ captures) w m count pos small le =
    let (count', same, small') =
      write_packet-Counted c.now c.direction c.bytes w m count pos small le in
    length-captured-le captures (write_packet c.now c.direction c.bytes w) m count' (omega arith)
      small' (omega arith)
