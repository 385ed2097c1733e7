-- ===== src/Proxy/Wire.antt =====
-- internal/proxy/mongodb/wire.go: the messages of the MongoDB wire protocol. An `int32` of a header
-- is kept as its bit pattern. BSON's marshalling and zlib are parameters.
pub mod Bodies
pub mod Messages
pub mod Compression
pub mod Sections
pub mod Replies
pub mod Fuel
mod Tests
use dbbat.Prelude.{
  ℕ, zero, suc, ◌+◌, ◌-◌, ◌%◌, ◌^◌, Bool, true, false, ◌&&◌, ◌||◌, Option, none, some, List, [],
  ◌∷◌, ◌++◌, ltb, leb, ◌==◌, if◌then◌else◌, length, take, drop, Result, ok, err, ◌>>=◌,
}
use dbbat.Prelude.Keys.{◌=?◌, nats_eq}
use dbbat.Prelude.Bytes.{put_le, get_le, read_full}

abbrev pub op_code_reply : ℕ
op_code_reply = 1

abbrev pub op_code_compressed : ℕ
op_code_compressed = 2012

abbrev pub op_code_msg : ℕ
op_code_msg = 2013

abbrev pub compressor_noop : ℕ
compressor_noop = 0

abbrev pub compressor_zlib : ℕ
compressor_zlib = 2

abbrev pub header_len : ℕ
header_len = 16

abbrev pub max_wire_message_size : ℕ
max_wire_message_size = 48000000

abbrev pub op_reply_await_capable : ℕ
op_reply_await_capable = 8

-- `end_of_stream` is what `io.ReadFull` says, `library` what zlib or BSON says; `no_fuel` says that a
-- loop ran out of fuel.
pub data WireError : Type 0 where
  short_message message_too_large unsupported_compress compressed_size_mismatch bad_section :
      WireError
  end_of_stream library no_fuel : WireError

pub record Message : Type 0 where
  pub size : ℕ
  pub request_id : ℕ
  pub response_to : ℕ
  pub op_code : ℕ
  pub body : List ℕ
  pub raw : List ℕ

-- `inflate n` is `io.ReadAll(io.LimitReader(zr, n))`.
pub record Zlib : Type 0 where
  pub deflate : List ℕ → Option (List ℕ)
  pub inflate : ℕ → List ℕ → Option (List ℕ)

abbrev pub or_err : WireError → Option (List ℕ) → Result WireError (List ℕ)
or_err e none = err e
or_err e (some bytes) = ok bytes

abbrev pub reading : Option (List ℕ × List ℕ) → Result WireError (List ℕ × List ℕ)
reading none = err end_of_stream
reading (some r) = ok r

-- `binary.LittleEndian.Uint32(b[at:at+4])`
abbrev pub word_at : ℕ → List ℕ → ℕ
word_at at bytes = get_le (take 4 (drop at bytes))

-- The message of a header and a body.
abbrev pub message_of : List ℕ → List ℕ → Message
message_of hdr body = record {
  size = word_at 0 hdr;
  request_id = word_at 4 hdr;
  response_to = word_at 8 hdr;
  op_code = word_at 12 hdr;
  body = body;
  raw = hdr ++ body;
}

read_body : List ℕ → ℕ → List ℕ → Result WireError (Message × List ℕ)
read_body hdr size rest =
    if leb (2 ^ 31) size || ltb size header_len
    then err short_message
    else if ltb max_wire_message_size size
    then err message_too_large
    else (reading (read_full (size - header_len) rest) >>= λ (body, rest').
        ok (message_of hdr body, rest'))

-- `readMessage`: the message and what is left of the stream. An `int32` with its highest bit is
-- negative.
pub read_message : List ℕ → Result WireError (Message × List ℕ)
unfolding read_body
read_message stream =
    reading (read_full header_len stream) >>= λ (hdr, rest). read_body hdr (word_at 0 hdr) rest

-- `writeHeader`: the sixteen bytes.
pub write_header : ℕ → ℕ → ℕ → ℕ → List ℕ
write_header size request_id response_to op_code =
    put_le 4 size ++ (put_le 4 request_id ++ (put_le 4 response_to ++ put_le 4 op_code))

pub decompress : Zlib → ℕ → List ℕ → ℕ → Result WireError (List ℕ)
decompress lib compressor_id bytes uncompressed_size =
    if compressor_id == compressor_noop
    then ok bytes
    else if compressor_id == compressor_zlib
    then or_err library (lib.inflate (uncompressed_size + 1) bytes)
    else err unsupported_compress

pub compress : Zlib → ℕ → List ℕ → Result WireError (List ℕ)
compress lib compressor_id bytes =
    if compressor_id == compressor_noop
    then ok bytes
    else if compressor_id == compressor_zlib
    then or_err library (lib.deflate bytes)
    else err unsupported_compress

-- What `decompressMessage` makes of the bytes that it inflated.
unwrapped : Message → ℕ → ℕ → ℕ → List ℕ → Result WireError (Message × ℕ)
unfolding write_header
unwrapped m original_opcode uncompressed_size compressor_id inner_body =
    let total = header_len + length inner_body in
    if length inner_body == uncompressed_size
    then ok (
      record {
        size = total;
        request_id = m.request_id;
        response_to = m.response_to;
        op_code = original_opcode;
        body = inner_body;
        raw = write_header total m.request_id m.response_to original_opcode ++ inner_body;
      },
      compressor_id,
    )
    else err compressed_size_mismatch

-- `decompressMessage`, of a body that is long enough to have a byte with the compressor.
decompress_body : Zlib → Message → List ℕ → Result WireError (Message × ℕ)
unfolding decompress unwrapped
decompress_body lib m [] = err short_message
decompress_body lib m (compressor_id ∷ compressed) =
    let uncompressed_size = word_at 4 m.body in
    if ltb max_wire_message_size uncompressed_size
    then err message_too_large
    else (decompress lib compressor_id compressed uncompressed_size >>= λ inner_body.
        unwrapped m (word_at 0 m.body) uncompressed_size compressor_id inner_body)

pub decompress_message : Zlib → Message → Result WireError (Message × ℕ)
unfolding decompress_body
decompress_message lib m = decompress_body lib m (drop 8 m.body)

-- `compressMessage`
pub compress_message : Zlib → List ℕ → ℕ → Result WireError (List ℕ)
unfolding compress write_header
compress_message lib raw compressor_id =
    if ltb (length raw) header_len
    then err short_message
    else let inner_body = drop header_len raw in
      (compress lib compressor_id inner_body >>= λ compressed.
      let total = header_len + (9 + length compressed) in
      ok (
        write_header total (word_at 4 raw) (word_at 8 raw) op_code_compressed
        ++ (put_le 4 (word_at 12 raw)
            ++ (put_le 4 (length inner_body) ++ (compressor_id ∷ compressed)))))

-- `buildOpMsgReply` and `buildOpReply`, from what `bson.Marshal` gives.
pub build_op_msg_reply : ℕ → ℕ → Option (List ℕ) → Result WireError (List ℕ)
unfolding write_header
build_op_msg_reply request_id response_to marshalled = or_err library marshalled >>= λ doc_bytes.
    ok (
      write_header (header_len + (5 + length doc_bytes)) request_id response_to op_code_msg
      ++ (put_le 4 0 ++ (0 ∷ doc_bytes)))

pub build_op_reply : ℕ → ℕ → Option (List ℕ) → Result WireError (List ℕ)
unfolding write_header
build_op_reply request_id response_to marshalled = or_err library marshalled >>= λ doc_bytes. ok (
    write_header (header_len + (20 + length doc_bytes)) request_id response_to op_code_reply
    ++ (put_le 4 op_reply_await_capable
        ++ (put_le 8 0 ++ (put_le 4 0 ++ (put_le 4 1 ++ doc_bytes)))))
