-- ===== src/Proxy/Wire/Tests.antt =====
-- Small messages of internal/proxy/mongodb/wire.go: tests, and the theorems at concrete inputs.
use dbbat.Prelude.{
  ℕ, zero, suc, ◌+◌, ◌≤◌, ◌<◌, ◌^◌, ◌≡◌, ◌≢◌, refl, Option, none, some, List, [], ◌∷◌, ◌++◌, map,
  arith, length, take, drop, Result, ok, err,
}
use dbbat.Prelude.Bytes.{put_le, get_le}
use dbbat.Proxy.Wire.{
  Message, WireError, no_fuel, short_message, bad_section, Zlib, header_len, max_wire_message_size,
  op_code_msg, op_code_compressed, read_message, write_header, decompress_message, compress_message,
  build_op_msg_reply,
}
use dbbat.Proxy.Wire.Bodies.{Section, OpMsg, parse_op_msg, parse_op_query, command_body, sequence}
use dbbat.Proxy.Wire.Messages.{built, read_message-raw}
use dbbat.Proxy.Wire.Compression.{Inflates, decompress_message-compress_message}
use dbbat.Proxy.Wire.Fuel.{parse_op_msg-ne-no_fuel}
use dbbat.Proxy.Wire.Sections.{
  Part, command, documents, IsPart, parts_bytes, section_of, parse_op_msg-parts_bytes,
}
use dbbat.Proxy.Wire.Replies.{build_op_msg_reply-read_message}

-- The empty document of BSON.
abbrev doc : List ℕ
doc = 5 ∷ 0 ∷ 0 ∷ 0 ∷ 0 ∷ []

abbrev raw : List ℕ
raw = 18 ∷ 0 ∷ 0 ∷ 0 ∷ 1 ∷ 0 ∷ 0 ∷ 0 ∷ 2 ∷ 0 ∷ 0 ∷ 0 ∷ 221 ∷ 7 ∷ 0 ∷ 0 ∷ 9 ∷ 8 ∷ []

abbrev two_bytes : Message
two_bytes = record {
  size = 18;
  request_id = 1;
  response_to = 2;
  op_code = 2013;
  body = 9 ∷ 8 ∷ [];
  raw = raw;
}

read_message_test : read_message (raw ++ (7 ∷ [])) ≡ ok (two_bytes, 7 ∷ [])
unfolding read_message dbbat.Prelude.Bytes.read_full dbbat.Prelude.Bytes.get_le
read_message_test = refl

read_message-raw_example :
    (raw ++ (7 ∷ []) ≡ two_bytes.raw ++ (7 ∷ []))
    × (length two_bytes.raw ≡ two_bytes.size)
    × (header_len ≤ two_bytes.size)
    × (two_bytes.size ≤ max_wire_message_size)
    × (two_bytes.body ≡ drop header_len two_bytes.raw)
    × ((two_bytes.size ≡ get_le (take 4 two_bytes.raw))
        × (two_bytes.request_id ≡ get_le (take 4 (drop 4 two_bytes.raw)))
        × (two_bytes.response_to ≡ get_le (take 4 (drop 8 two_bytes.raw)))
        × (two_bytes.op_code ≡ get_le (take 4 (drop 12 two_bytes.raw))))
read_message-raw_example = read_message-raw (raw ++ (7 ∷ [])) two_bytes (7 ∷ []) read_message_test

-- A codec that puts one byte before the data.
unfoldable unpack : ℕ → List ℕ → Option (List ℕ)
unpack n [] = none
unpack n (b ∷ bytes) = some bytes

abbrev toy : Zlib
toy = record { deflate = λ bytes. some (120 ∷ bytes); inflate = unpack }

toy-Inflates : Inflates toy
unfolding unpack
toy-Inflates bytes deflated h = ground (arith, h)

abbrev wrapped : List ℕ
wrapped =
    28 ∷ 0 ∷ 0 ∷ 0 ∷ 1 ∷ 0 ∷ 0 ∷ 0 ∷ 2 ∷ 0 ∷ 0 ∷ 0 ∷ 220 ∷ 7 ∷ 0 ∷ 0 ∷ 221 ∷ 7 ∷ 0 ∷ 0 ∷ 2 ∷ 0 ∷ 0
    ∷ 0 ∷ 2 ∷ 120 ∷ 9 ∷ 8 ∷ []

compress_message_test :
    compress_message toy (write_header 18 1 2 2013 ++ (9 ∷ 8 ∷ [])) 2 ≡ ok wrapped
unfolding compress_message dbbat.Prelude.Bytes.get_le put_le
compress_message_test = refl

decompress_message-compress_message_example :
    (m : Message) × (read_message (wrapped ++ (7 ∷ [])) ≡ ok (m, 7 ∷ []))
    × (m.op_code ≡ op_code_compressed)
    × (decompress_message toy m ≡ ok (built 18 1 2 2013 (9 ∷ 8 ∷ []), 2))
decompress_message-compress_message_example =
    decompress_message-compress_message toy 1 2 2013 2 (9 ∷ 8 ∷ []) wrapped (7 ∷ []) toy-Inflates
      (omega arith) (omega arith) (omega arith) (omega arith) (omega arith) compress_message_test

abbrev parts : List Part
parts = command doc ∷ documents (97 ∷ []) (doc ∷ doc ∷ []) ∷ []

parse_op_msg-parts_bytes_example :
    parse_op_msg (put_le 4 1 ++ (parts_bytes parts ++ (1 ∷ 2 ∷ 3 ∷ 4 ∷ [])))
    ≡ ok (record { flags = 1; sections = map section_of parts })
parse_op_msg-parts_bytes_example =
    parse_op_msg-parts_bytes 1 parts (1 ∷ 2 ∷ 3 ∷ 4 ∷ []) (omega arith)
      (
        (unfold dbbat.Prelude.Bytes.get_le in refl, omega arith),
        (
          (
            (omega arith, tt),
            (
              (unfold dbbat.Prelude.Bytes.get_le in refl, omega arith),
              ((unfold dbbat.Prelude.Bytes.get_le in refl, omega arith), tt),
            ),
            (unfold dbbat.Proxy.Wire.Sections.flat in omega arith),
          ),
          tt,
        ),
      )
      (omega arith)

sequence_test : sequence (97 ∷ []) (map section_of parts) ≡ some (doc ∷ doc ∷ [])
unfolding sequence
sequence_test = refl

parse_op_msg-ne-no_fuel_example : parse_op_msg (0 ∷ 0 ∷ 0 ∷ 0 ∷ 3 ∷ []) ≢ err no_fuel
parse_op_msg-ne-no_fuel_example = parse_op_msg-ne-no_fuel (0 ∷ 0 ∷ 0 ∷ 0 ∷ 3 ∷ [])

parse_op_msg-kind_test : parse_op_msg (0 ∷ 0 ∷ 0 ∷ 0 ∷ 3 ∷ []) ≡ err bad_section
unfolding parse_op_msg dbbat.Prelude.Bytes.get_le
parse_op_msg-kind_test = refl

parse_op_query_test :
    parse_op_query (0 ∷ 0 ∷ 0 ∷ 0 ∷ 97 ∷ 98 ∷ 0 ∷ 0 ∷ 0 ∷ 0 ∷ 0 ∷ 1 ∷ 0 ∷ 0 ∷ 0 ∷ doc)
    ≡ ok (97 ∷ 98 ∷ [], doc)
unfolding parse_op_query dbbat.Prelude.Bytes.get_le dbbat.Proxy.Wire.Bodies.index_byte
parse_op_query_test = refl

abbrev reply : List ℕ
reply = write_header 26 1 2 op_code_msg ++ (put_le 4 0 ++ (0 ∷ doc))

reply_test : build_op_msg_reply 1 2 (some doc) ≡ ok reply
unfolding build_op_msg_reply
reply_test = refl

build_op_msg_reply-read_message_example :
    (m : Message) × (msg : OpMsg) × (read_message (reply ++ (7 ∷ [])) ≡ ok (m, 7 ∷ []))
    × (m.op_code ≡ op_code_msg)
    × (m.request_id ≡ 1)
    × (m.response_to ≡ 2)
    × (parse_op_msg m.body ≡ ok msg)
    × (msg.flags ≡ 0)
    × (command_body msg.sections ≡ some doc)
build_op_msg_reply-read_message_example =
    build_op_msg_reply-read_message 1 2 doc reply (7 ∷ [])
      (unfold dbbat.Prelude.Bytes.get_le in refl, omega arith) (omega arith) (omega arith)
      (omega arith) reply_test
