-- ===== src/Dump/Tests.antt =====
-- Small files of internal/dump: tests, and the theorems at concrete inputs.
use dbbat.Prelude.{
  ℕ, zero, suc, ◌+◌, ◌≤◌, ◌<◌, ◌^◌, ◌≡◌, ◌≢◌, refl, Bool, true, false, Option, none, some, List, [],
  ◌∷◌, ◌++◌, arith, length, All, Result, ok, err,
}
use dbbat.Dump.{
  Header, Packet, JsonLib, Writer, Reader, truncated, open_reader, new_writer, close, anonymise,
  cleanup_old_files, write_packet, header_bytes,
}
use dbbat.Dump.RoundTrip.{Capture, capture_all, kept, Reads, captured-Reads}
use dbbat.Dump.Copies.{anonymise-ne-none}

-- A codec for headers that keeps the instant.
unfoldable read_header : List ℕ → Option Header
read_header [] = none
read_header (t ∷ _) =
    some (record { session_id = "s"; protocol = "oracle"; start_time = t; connection = [] })

abbrev codec : JsonLib
codec = record { marshal = λ h. some (h.start_time ∷ []); unmarshal = read_header }

abbrev header : Header
header = record {
  session_id = "s";
  protocol = "oracle";
  start_time = 5;
  connection = ("user", 1 ∷ []) ∷ [];
}

abbrev bare : ℕ → Header
bare t = record { session_id = "s"; protocol = "oracle"; start_time = t; connection = [] }

abbrev writer : Writer
writer = record { file = header_bytes (5 ∷ []); start_time = 5; max_size = 40; written = 23 }

abbrev captures : List Capture
captures =
    record { now = 6; direction = 0; bytes = 1 ∷ 2 ∷ [] }
    ∷ record { now = 7; direction = 1; bytes = 3 ∷ 4 ∷ 5 ∷ 6 ∷ 7 ∷ [] }
    ∷ []

abbrev packets : List Packet
packets = record { relative_ns = 1; direction = 0; bytes = 1 ∷ 2 ∷ [] } ∷ []

new_writer_test : new_writer codec header 40 ≡ ok writer
unfolding new_writer header_bytes dbbat.Prelude.Bytes.put_be
new_writer_test = refl

captured-Reads_example :
    (r : Reader) × (open_reader codec (close 9 (capture_all captures writer)) ≡ ok r)
    × (r.header ≡ bare 5)
    × Reads r.rest (kept 5 40 23 captures)
captured-Reads_example =
    captured-Reads codec header (bare 5) 40 9 (5 ∷ []) writer captures refl
      (unfold read_header in refl) (omega arith) new_writer_test
      ((omega arith, omega arith), ((omega arith, omega arith), tt))
      ((omega arith, omega arith), ((omega arith, omega arith), tt))

-- The second packet does not fit.
kept_test : kept 5 40 23 captures ≡ packets
unfolding kept
kept_test = refl

open_reader-short_test : open_reader codec (1 ∷ 2 ∷ []) ≡ err truncated
unfolding open_reader dbbat.Prelude.Bytes.read_full
open_reader-short_test = refl

anonymise-ne-none_example : anonymise codec 9 3 (1 ∷ 2 ∷ []) ≢ none
anonymise-ne-none_example = anonymise-ne-none codec 9 3 (1 ∷ 2 ∷ []) (omega arith)

abbrev input : List ℕ
input = close 9 (write_packet 6 0 (1 ∷ 2 ∷ []) writer)

abbrev at_packets : Reader
at_packets = record {
  rest =
      0 ∷ 0 ∷ 0 ∷ 0 ∷ 0 ∷ 0 ∷ 0 ∷ 1 ∷ 0 ∷ 0 ∷ 0 ∷ 0 ∷ 2 ∷ 1 ∷ 2 ∷ 0 ∷ 0 ∷ 0 ∷ 0 ∷ 0 ∷ 0 ∷ 0 ∷ 4
      ∷ 255 ∷ 0 ∷ 0 ∷ 0 ∷ 0 ∷ [];
  header = bare 5;
}

cleanup_old_files_test :
    cleanup_old_files 100 10 (
      record { is_dir = false; has_dump_ext = true; mod_time = 89 }
      ∷ record { is_dir = false; has_dump_ext = true; mod_time = 90 }
      ∷ record { is_dir = false; has_dump_ext = false; mod_time = 1 }
      ∷ [])
    ≡ (
      record { is_dir = false; has_dump_ext = true; mod_time = 90 }
          ∷ record { is_dir = false; has_dump_ext = false; mod_time = 1 }
          ∷ [],
      1,
    )
unfolding cleanup_old_files dbbat.Prelude.keep
cleanup_old_files_test = refl
