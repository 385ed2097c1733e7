-- ===== src/Proxy/Wire/Replies.antt =====
-- The replies that internal/proxy/mongodb/wire.go builds.
use dbbat.Prelude.{
  ℕ, ◌+◌, ◌^◌, ◌≤◌, ◌<◌, ◌≡◌, refl, sym, ap, ◌∙◌, some, List, [], ◌∷◌, ◌++◌, arith, length,
  length-append, ok,
}
use mathlib.Core.List.{append-nil}
use dbbat.Prelude.Bytes.{put_le, length-put_le}
use dbbat.Proxy.Wire.{Message, build_op_msg_reply, read_message}
use dbbat.Proxy.Wire.Bodies.{OpMsg, parse_op_msg, command_body}
use dbbat.Proxy.Wire.{op_code_msg, write_header, max_wire_message_size}
use dbbat.Proxy.Wire.Messages.{built, read_message-built}
use dbbat.Proxy.Wire.Sections.{IsDoc, command, parts_bytes, section_of, parse_op_msg-parts_bytes}

-- What follows the header of a reply is a message of one part.
reply_lem :
    (request_id response_to : ℕ) (doc : List ℕ)
    → build_op_msg_reply request_id response_to (some doc)
      ≡ ok (
          write_header (16 + (5 + length doc)) request_id response_to op_code_msg
          ++ (put_le 4 0 ++ (0 ∷ doc)))
unfolding build_op_msg_reply
reply_lem request_id response_to doc = refl

-- A reply to a request, from a document that BSON marshals and that begins with its length, within the
-- size of a message, and identifiers of 32 bits. It is read whole from a stream, as a message of the
-- kind `OP_MSG` with these identifiers; it parses, with no flags set; and the body of its command is the
-- document.
pub build_op_msg_reply-read_message :
    (request_id response_to : ℕ) (doc bytes rest : List ℕ)
    → IsDoc doc
    → length doc + 21 ≤ max_wire_message_size
    → request_id < 2 ^ 32
    → response_to < 2 ^ 32
    → build_op_msg_reply request_id response_to (some doc) ≡ ok bytes
    → (m : Message) × (msg : OpMsg) × (read_message (bytes ++ rest) ≡ ok (m, rest))
      × (m.op_code ≡ op_code_msg)
      × (m.request_id ≡ request_id)
      × (m.response_to ≡ response_to)
      × (parse_op_msg m.body ≡ ok msg)
      × (msg.flags ≡ 0)
      × (command_body msg.sections ≡ some doc)
unfolding command_body
build_op_msg_reply-read_message request_id response_to doc bytes rest d small hb hc h =
    let body = put_le 4 0 ++ (0 ∷ doc) in
    let size : length body ≡ 5 + length doc =
      omega (arith, length-append (put_le 4 0) (0 ∷ doc), length-put_le 4 0) in
    let same : bytes ≡ write_header (16 + length body) request_id response_to op_code_msg ++ body =
      rw size (ground (arith, h, reply_lem request_id response_to doc)) in
    let one : parts_bytes (command doc ∷ []) ++ [] ≡ 0 ∷ doc =
      append-nil (parts_bytes (command doc ∷ [])) ∙ (unfold parts_bytes in append-nil (0 ∷ doc)) in
    (
      built (16 + length body) request_id response_to op_code_msg body,
      record { flags = 0; sections = section_of (command doc) ∷ [] },
      ap (λ t. read_message (t ++ rest)) same
          ∙ read_message-built request_id response_to op_code_msg body rest (omega arith) hb hc
              (omega arith),
      refl,
      refl,
      refl,
      ap (λ t. parse_op_msg (put_le 4 0 ++ t)) (sym one)
          ∙ parse_op_msg-parts_bytes 0 (command doc ∷ []) [] (omega arith) (d, tt) (omega arith),
      refl,
      refl,
    )
