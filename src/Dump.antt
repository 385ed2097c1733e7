-- ===== src/Dump.antt =====
-- internal/dump: the capture of a session's packets in a file. A file is the list of its bytes, and a
-- reader stands at what is left of it. Failures of the file system on a write are left out; what
-- `io.ReadFull` does not get is an error. The JSON of a header is a parameter.
pub mod Frames
pub mod RoundTrip
pub mod Size
pub mod Copies
mod Tests
use dbbat.Prelude.{
  ℕ, zero, suc, ◌+◌, ◌-◌, ◌%◌, ◌^◌, Bool, true, false, not, ◌&&◌, ◌||◌, Option, none, some, List,
  [], ◌∷◌, ◌++◌, String, ltb, leb, min, ◌==◌, if◌then◌else◌, length, take, keep, Result, ok, err,
  ◌>>=◌,
}
use dbbat.Prelude.Texts.{has_prefix}
use dbbat.Prelude.Bytes.{put_be, get_be, read_full}

-- `DBBAT_DUMP` and six zeros
abbrev pub magic : List ℕ
magic =
    b'D' ∷ b'B' ∷ b'B' ∷ b'A' ∷ b'T' ∷ b'_' ∷ b'D' ∷ b'U' ∷ b'M' ∷ b'P' ∷ 0 ∷ 0 ∷ 0 ∷ 0 ∷ 0 ∷ 0 ∷ []

abbrev pub magic_size : ℕ
magic_size = 16

abbrev pub min_magic : ℕ
min_magic = 10

abbrev pub version : ℕ
version = 2

abbrev pub eof_marker : ℕ
eof_marker = 255

abbrev pub packet_frame_size : ℕ
packet_frame_size = 13

-- The values of the connection's metadata are their JSON texts.
pub record Header : Type 0 where
  pub session_id : String
  pub protocol : String
  pub start_time : ℕ
  pub connection : List (String × List ℕ)

-- `relative_ns` is the bit pattern of an `int64`.
pub record Packet : Type 0 where
  pub relative_ns : ℕ
  pub direction : ℕ
  pub bytes : List ℕ

-- `eof` is `io.EOF` itself, `cut` an `io.EOF` that is wrapped, `truncated` an `io.ErrUnexpectedEOF`.
pub data DumpError : Type 0 where
  truncated cut eof : DumpError
  invalid_magic unsupported_version bad_header marshal_failed : DumpError

-- `json.Marshal` and `json.Unmarshal` of a header
pub record JsonLib : Type 0 where
  pub marshal : Header → Option (List ℕ)
  pub unmarshal : List ℕ → Option Header

-- What `io.ReadFull` says of a stream that is too short depends on whether anything is left of it.
abbrev pub reading {ℓ} : {A : Type ℓ} → List ℕ → Option A → Result DumpError A
reading [] none = err cut
reading (b ∷ stream) none = err truncated
reading stream (some a) = ok a

pub record Writer : Type 0 where
  pub file : List ℕ
  pub start_time : ℕ
  pub max_size : ℕ
  pub written : ℕ

-- `writeHeader`: the bytes that it writes.
pub header_bytes : List ℕ → List ℕ
header_bytes json = magic ++ (put_be 2 version ++ (put_be 4 (length json) ++ json))

writer_with : Header → ℕ → Option (List ℕ) → Result DumpError Writer
unfolding header_bytes
writer_with header max_size none = err marshal_failed
writer_with header max_size (some json) = ok (record {
  file = header_bytes json;
  start_time = header.start_time;
  max_size = max_size;
  written = length (header_bytes json);
})

-- `NewWriter`; a `maxSize` that is not positive is 0.
pub new_writer : JsonLib → Header → ℕ → Result DumpError Writer
unfolding writer_with
new_writer lib header max_size = writer_with header max_size (lib.marshal header)

-- The thirteen bytes before the data, and the data.
pub frame : ℕ → ℕ → List ℕ → List ℕ
frame relative_ns direction bytes =
    put_be 8 relative_ns ++ (direction ∷ (put_be 4 (length bytes) ++ bytes))

-- `time.Since(w.startTime).Nanoseconds()` as a bit pattern: a difference beyond what a `Duration` can
-- hold is the greatest or the least of them. Instants count from Go's zero time, which is 0.
pub since : ℕ → ℕ → ℕ
since start now =
    if leb start now then min (now - start) (2 ^ 63 - 1) else 2 ^ 64 - min (start - now) (2 ^ 63)

pub append_frame : List ℕ → ℕ → Writer → Writer
append_frame bytes total w = record w { file = w.file ++ bytes; written = w.written + total }

-- `WritePacket` at the instant `now`
pub write_packet : ℕ → ℕ → List ℕ → Writer → Writer
unfolding frame append_frame
write_packet now direction bytes w =
    let frame_total = packet_frame_size + length bytes in
    if ltb 0 w.max_size && ltb w.max_size (w.written + frame_total)
    then w
    else append_frame (frame (since w.start_time now) direction bytes) frame_total w

-- `writePacketRaw`
pub write_packet_raw : ℕ → ℕ → List ℕ → Writer → Writer
unfolding frame append_frame
write_packet_raw relative_ns direction bytes w =
    append_frame (frame relative_ns direction bytes) (packet_frame_size + length bytes) w

-- `Writer.Close`: the file that it leaves.
pub close : ℕ → Writer → List ℕ
unfolding frame
close now w = w.file ++ frame (since w.start_time now) eof_marker []

pub record Reader : Type 0 where
  pub rest : List ℕ
  pub header : Header

read_json : List ℕ → Option Header → Result DumpError Reader
read_json rest none = err bad_header
read_json rest (some header) = ok (record { rest = rest; header = header })

read_version : JsonLib → List ℕ → List ℕ → Result DumpError Reader
unfolding read_json
read_version lib ver file =
    if get_be ver == version
    then (reading file (read_full 4 file) >>= λ (size, rest).
        reading rest (read_full (get_be size) rest) >>= λ (json, rest').
        read_json rest' (lib.unmarshal json))
    else err unsupported_version

-- `OpenReader`, `readHeader`; the prefix has its full length, so the test is equality.
pub open_reader : JsonLib → List ℕ → Result DumpError Reader
unfolding read_version
open_reader lib file = reading file (read_full magic_size file) >>= λ (start, rest).
    if has_prefix (take min_magic start) (take min_magic magic)
    then (reading rest (read_full 2 rest) >>= λ (ver, rest'). read_version lib ver rest')
    else err invalid_magic

-- What `ReadPacket` makes of the time, the rest of the frame, and what follows.
read_payload : List ℕ → List ℕ → List ℕ → Result DumpError (Packet × List ℕ)
read_payload time [] rest = err truncated
read_payload time (direction ∷ size) rest =
    if direction == eof_marker
    then err eof
    else reading rest (read_full (get_be size) rest) >>= λ (bytes, rest').
        ok (record { relative_ns = get_be time; direction = direction; bytes = bytes }, rest')

-- `ReadPacket`: the packet and what is left of the file.
pub read_packet : List ℕ → Result DumpError (Packet × List ℕ)
unfolding read_payload
read_packet file = reading file (read_full packet_frame_size file) >>= λ (head, rest).
    reading head (read_full 8 head) >>= λ (time, tail). read_payload time tail rest

-- `errors.Is(err, io.EOF)`: the end of the file is no error, with a mark of the end or without.
abbrev ending : DumpError → Option DumpError
ending eof = none
ending cut = none
ending e = some e

-- The loop of `Anonymise`, on fuel; `none` means that the fuel ran out. The inner value is the error
-- that ends the loop, none at the end of the file.
pub copy_loop : ℕ → List ℕ → Writer → Option (Option DumpError × Writer)
unfolding write_packet_raw
copy_loop zero rest w = none
copy_loop (suc fuel) rest w = elim (read_packet rest) [
  | err e ↦ some (ending e, w)
  | ok (p, rest') ↦ copy_loop fuel rest' (write_packet_raw p.relative_ns p.direction p.bytes w)
]

abbrev pub stripped : Header → Header
stripped header = record {
  session_id = header.session_id;
  protocol = header.protocol;
  start_time = 0;
  connection = [];
}

abbrev closed : ℕ → Option DumpError × Writer → Option DumpError × List ℕ
closed now (e, w) = (e, close now w)

copy_to : ℕ → ℕ → Reader → Result DumpError Writer → Option (Option DumpError × List ℕ)
unfolding copy_loop
copy_to now fuel r (err e) = some (some e, [])
copy_to now fuel r (ok w) = elim (copy_loop fuel r.rest w) [
  | none ↦ none
  | some x ↦ some (closed now x)
]

anonymise_open : JsonLib → ℕ → ℕ → Result DumpError Reader → Option (Option DumpError × List ℕ)
unfolding copy_to
anonymise_open lib now fuel (err e) = some (some e, [])
anonymise_open lib now fuel (ok r) = copy_to now fuel r (new_writer lib (stripped r.header) 0)

-- `Anonymise`: its error and the file that it writes.
pub anonymise : JsonLib → ℕ → ℕ → List ℕ → Option (Option DumpError × List ℕ)
unfolding anonymise_open
anonymise lib now fuel input = anonymise_open lib now fuel (open_reader lib input)

-- `CleanupOldFiles`, over the entries of a directory: the files that stay, and how many it deletes.
-- A removal that fails is left out.
pub record Entry : Type 0 where
  pub is_dir : Bool
  pub has_dump_ext : Bool
  pub mod_time : ℕ

abbrev pub is_old : ℕ → ℕ → Entry → Bool
is_old now retention e = (not e.is_dir && e.has_dump_ext) && ltb (e.mod_time + retention) now

pub cleanup_old_files : ℕ → ℕ → List Entry → List Entry × ℕ
cleanup_old_files now retention entries =
    (keep (λ e. not (is_old now retention e)) entries, length (keep (is_old now retention) entries))

-- `TapConn.Read` and `TapConn.Write` on the `n` bytes that passed.
pub tap : ℕ → ℕ → List ℕ → Writer → Writer
unfolding write_packet
tap now direction bytes w = if ltb 0 (length bytes) then write_packet now direction bytes w else w
