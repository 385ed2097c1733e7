-- ===== src/Proxy/Wire/Bodies.antt =====
-- The bodies of the messages of internal/proxy/mongodb/wire.go: sections, sequences and queries.
use dbbat.Prelude.{
  ℕ, zero, suc, ◌+◌, ◌-◌, ◌%◌, ◌&&◌, ◌||◌, Option, none, some, List, [], ◌∷◌, ltb, ◌==◌,
  if◌then◌else◌, length, take, drop, Result, ok, err, ◌>>=◌,
}
use dbbat.Prelude.Keys.{◌=?◌, nats_eq}
use dbbat.Prelude.Bytes.{get_le}
use dbbat.Proxy.Wire.{WireError, short_message, bad_section, no_fuel}

-- A section with a kind: one document, or the documents of a named sequence.
pub record Section : Type 0 where
  pub kind : ℕ
  pub identifier : List ℕ
  pub documents : List (List ℕ)

pub record OpMsg : Type 0 where
  pub flags : ℕ
  pub sections : List Section

-- `readBSONDoc`
unfoldable pub read_bson_doc : List ℕ → Result WireError (List ℕ)
read_bson_doc b =
    if ltb (length b) 4
    then err short_message
    else let size = get_le (take 4 b) in
      if ltb size 5 || ltb (length b) size then err short_message else ok (take size b)

-- `indexByte`, none for -1.
unfoldable pub index_byte : List ℕ → ℕ → Option ℕ
index_byte [] c = none
index_byte (v ∷ b) c =
    if v == c then some 0 else elim (index_byte b c) [ none ↦ none | some i ↦ some (suc i) ]

-- The loop of `parseDocumentSequence`; its fuel is the number of bytes.
unfoldable pub read_docs : ℕ → List ℕ → Result WireError (List (List ℕ))
read_docs fuel [] = ok []
read_docs zero (b ∷ bytes) = err no_fuel
read_docs (suc fuel) (b ∷ bytes) = read_bson_doc (b ∷ bytes) >>= λ doc.
    read_docs fuel (drop (length doc) (b ∷ bytes)) >>= λ docs. ok (doc ∷ docs)

unfoldable pub read_named : List ℕ → Option ℕ → Result WireError Section
unfolding read_docs
read_named inner none = err short_message
read_named inner (some id_end) =
    let docs_bytes = drop (suc id_end) inner in
    read_docs (length docs_bytes) docs_bytes >>= λ docs.
    ok (record { kind = 1; identifier = take id_end inner; documents = docs })

-- `parseDocumentSequence`: the section and the number of bytes that it takes.
unfoldable pub parse_document_sequence : List ℕ → Result WireError (Section × ℕ)
unfolding read_named
parse_document_sequence rest =
    if ltb (length rest) 4
    then err short_message
    else let size = get_le (take 4 rest) in
      let inner = drop 4 (take size rest) in
      if ltb size 5 || ltb (length rest) size
      then err short_message
      else (read_named inner (index_byte inner 0) >>= λ section. ok (section, size))

-- The loop of `parseOpMsg`; its fuel is the number of bytes.
unfoldable pub read_sections : ℕ → List ℕ → Result WireError (List Section)
unfolding read_bson_doc parse_document_sequence
read_sections fuel [] = ok []
read_sections zero (kind ∷ rest) = err no_fuel
read_sections (suc fuel) (kind ∷ rest) =
    if kind == 0
    then (read_bson_doc rest >>= λ doc. read_sections fuel (drop (length doc) rest) >>= λ sections.
        ok (record { kind = 0; identifier = []; documents = doc ∷ [] } ∷ sections))
    else if kind == 1
    then (parse_document_sequence rest >>= λ (section, consumed).
        read_sections fuel (drop consumed rest) >>= λ sections. ok (section ∷ sections))
    else err bad_section

unfoldable pub op_msg_of : ℕ → List ℕ → Result WireError OpMsg
unfolding read_sections
op_msg_of flags rest = read_sections (length rest) rest >>= λ sections.
    ok (record { flags = flags; sections = sections })

-- `parseOpMsg`; the lowest bit of the flags says that a checksum of four bytes follows.
unfoldable pub parse_op_msg : List ℕ → Result WireError OpMsg
unfolding op_msg_of
parse_op_msg body =
    if ltb (length body) 4
    then err short_message
    else let flags = get_le (take 4 body) in
      let rest = drop 4 body in
      if flags % 2 == 1
      then if ltb (length rest) 4
        then err short_message
        else op_msg_of flags (take (length rest - 4) rest)
      else op_msg_of flags rest

-- The document of a section that is a command body.
abbrev pub body_of : Section → Option (List ℕ)
body_of s = if s.kind == 0 then elim s.documents [ doc ∷ [] ↦ some doc | _ ↦ none ] else none

-- `commandBody` and `sequence`, over the sections.
unfoldable pub command_body : List Section → Option (List ℕ)
command_body [] = none
command_body (s ∷ sections) = elim (body_of s) [
  | some doc ↦ some doc
  | none ↦ command_body sections
]

unfoldable pub sequence : List ℕ → List Section → Option (List (List ℕ))
sequence identifier [] = none
sequence identifier (s ∷ sections) =
    let rest = sequence identifier sections in
    if s.kind == 1 && (s.identifier =? identifier) then some s.documents else rest

-- `parseOpQuery`: the name of the collection and the query.
unfoldable pub parse_op_query : List ℕ → Result WireError (List ℕ × List ℕ)
unfolding read_bson_doc
parse_op_query body =
    if ltb (length body) 4 then err short_message else elim (index_byte (drop 4 body) 0) [
      | none ↦ err short_message
      | some name_end ↦
          let pos = 4 + (name_end + 9) in
          if ltb (length body) pos
          then err short_message
          else (read_bson_doc (drop pos body) >>= λ q. ok (take name_end (drop 4 body), q))
    ]
