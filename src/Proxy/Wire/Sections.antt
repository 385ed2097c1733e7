-- ===== src/Proxy/Wire/Sections.antt =====
-- What internal/proxy/mongodb/wire.go parses of a message that is laid out as its comments describe.
use dbbat.Prelude.{
  ℕ, zero, suc, ◌+◌, ◌-◌, ◌*◌, ◌%◌, ◌^◌, ◌≤◌, ◌<◌, ◌≡◌, ◌≢◌, refl, ap, subst, true, false, some,
  List, [], ◌∷◌, ◌++◌, map, arith, ltb, ◌==◌, length, length-append, take, drop, take-append,
  drop-append, All, ok, Bool-cases, inl, inr,
}
use mathlib.Core.List.{append-nil}
use dbbat.Prelude.Bytes.{put_le, get_le, length-put_le, get_le-put_le}
use dbbat.Proxy.Wire.Bodies.{
  Section, read_bson_doc, index_byte, read_docs, read_named, parse_document_sequence, read_sections,
  op_msg_of, parse_op_msg,
}

-- A document begins with its own length.
abbrev pub IsDoc : List ℕ → Type 0
IsDoc doc = (get_le (take 4 doc) ≡ length doc) × (5 ≤ length doc)

-- A section as the protocol describes it.
pub data Part : Type 0 where
  command : List ℕ → Part
  documents : List ℕ → List (List ℕ) → Part

unfoldable pub flat : List (List ℕ) → List ℕ
flat [] = []
flat (doc ∷ docs) = doc ++ flat docs

abbrev pub named : List ℕ → List (List ℕ) → List ℕ
named identifier docs = identifier ++ (0 ∷ flat docs)

abbrev pub bytes_of : Part → List ℕ
bytes_of (command doc) = 0 ∷ doc
bytes_of (documents identifier docs) =
    1 ∷ (put_le 4 (4 + length (named identifier docs)) ++ named identifier docs)

abbrev pub section_of : Part → Section
section_of (command doc) = record { kind = 0; identifier = []; documents = doc ∷ [] }
section_of (documents identifier docs) = record {
  kind = 1;
  identifier = identifier;
  documents = docs;
}

abbrev pub IsPart : Part → Type 0
IsPart (command doc) = IsDoc doc
IsPart (documents identifier docs) =
    All (λ c. c ≢ 0) identifier × All IsDoc docs × (4 + length (named identifier docs) < 2 ^ 32)

unfoldable pub parts_bytes : List Part → List ℕ
parts_bytes [] = []
parts_bytes (p ∷ parts) = bytes_of p ++ parts_bytes parts

take_front : (n : ℕ) (xs ys : List ℕ) → n ≤ length xs → take n (xs ++ ys) ≡ take n xs
take_front zero xs ys le = refl
take_front (suc n) [] ys le = absurd (omega arith)
take_front (suc n) (x ∷ xs) ys le = ap (λ l. x ∷ l) (take_front n xs ys (omega arith))

read_bson_doc-append : (doc rest : List ℕ) → IsDoc doc → read_bson_doc (doc ++ rest) ≡ ok doc
unfolding read_bson_doc
read_bson_doc-append doc rest (size, long) =
    let a : ltb (length (doc ++ rest)) 4 ≡ false = ground (arith, length-append doc rest) in
    let b : ltb (length doc) 5 ≡ false = ground arith in
    let c : ltb (length (doc ++ rest)) (length doc) ≡ false =
      ground (arith, length-append doc rest) in
    rw (a, take_front 4 doc rest (omega arith), size, b, c, take-append doc rest) refl

read_docs-flat :
    (fuel : ℕ) (docs : List (List ℕ))
    → All IsDoc docs
    → length (flat docs) ≤ fuel
    → read_docs fuel (flat docs) ≡ ok docs
unfolding read_docs flat
read_docs-flat fuel [] a le = refl
read_docs-flat fuel ([] ∷ docs) ((_, long), a) le = absurd (omega arith)
read_docs-flat zero ((b ∷ bytes) ∷ docs) (d, a) le = absurd (omega arith)
read_docs-flat (suc fuel) ((b ∷ bytes) ∷ docs) (d, a) le =
    rw
      (
        read_bson_doc-append (b ∷ bytes) (flat docs) d,
        drop-append (b ∷ bytes) (flat docs),
        read_docs-flat fuel docs a (omega (arith, length-append (b ∷ bytes) (flat docs))),
      )
      refl

index_byte-append :
    (identifier rest : List ℕ)
    → All (λ c. c ≢ 0) identifier
    → index_byte (identifier ++ (0 ∷ rest)) 0 ≡ some (length identifier)
unfolding index_byte
index_byte-append [] rest a = refl
index_byte-append (c ∷ identifier) rest (ne, a) =
    let other : (c == 0) ≡ false = ground (arith, ne) in
    rw (other, index_byte-append identifier rest a) refl

drop_after : (xs : List ℕ) (y : ℕ) (ys : List ℕ) → drop (suc (length xs)) (xs ++ (y ∷ ys)) ≡ ys
drop_after [] y ys = refl
drop_after (x ∷ xs) y ys = drop_after xs y ys

read_named_lem :
    (identifier : List ℕ) (docs : List (List ℕ))
    → All IsDoc docs
    → read_named (named identifier docs) (some (length identifier))
      ≡ ok (section_of (documents identifier docs))
unfolding read_named
read_named_lem identifier docs a =
    rw
      (
        drop_after identifier 0 (flat docs),
        read_docs-flat (length (flat docs)) docs a (omega arith),
        take-append identifier (0 ∷ flat docs),
      )
      refl

length-part :
    (size : ℕ) (inner : List ℕ) → size ≡ 4 + length inner → length (put_le 4 size ++ inner) ≡ size
length-part size inner h =
    omega (arith, h, length-append (put_le 4 size) inner, length-put_le 4 size)

parse_document_sequence-append :
    (identifier : List ℕ) (docs : List (List ℕ)) (rest : List ℕ)
    → IsPart (documents identifier docs)
    → let size = 4 + length (named identifier docs) in
      parse_document_sequence ((put_le 4 size ++ named identifier docs) ++ rest)
      ≡ ok (section_of (documents identifier docs), size)
unfolding parse_document_sequence put_le
parse_document_sequence-append identifier docs rest (nonzero, docs_ok, small) =
    let inner = named identifier docs in
    let size = 4 + length inner in
    let all = put_le 4 size ++ inner in
    let some_inner : 1 ≤ length inner = omega (arith, length-append identifier (0 ∷ flat docs)) in
    let a : ltb (length (all ++ rest)) 4 ≡ false = ground arith in
    let word : get_le (take 4 (all ++ rest)) ≡ size = get_le-put_le 4 size small in
    let b : ltb size 5 ≡ false = ground arith in
    let c : ltb (length (all ++ rest)) size ≡ false = ground (arith, length-append inner rest) in
    let cut : take size (all ++ rest) ≡ all =
      subst (λ n. take n (all ++ rest) ≡ all) (length-part size inner refl)
        (take-append all rest) in
    rw
      (
        a,
        word,
        b,
        c,
        cut,
        index_byte-append identifier (flat docs) nonzero,
        read_named_lem identifier docs docs_ok,
      )
      refl

read_sections-parts_bytes :
    (fuel : ℕ) (parts : List Part)
    → All IsPart parts
    → length (parts_bytes parts) ≤ fuel
    → read_sections fuel (parts_bytes parts) ≡ ok (map section_of parts)
unfolding read_sections parts_bytes
read_sections-parts_bytes fuel [] a le = refl
read_sections-parts_bytes zero (command doc ∷ parts) (p, a) le = absurd (omega arith)
read_sections-parts_bytes zero (documents identifier docs ∷ parts) (p, a) le = absurd (omega arith)
read_sections-parts_bytes (suc fuel) (command doc ∷ parts) (p, a) le =
    rw
      (
        read_bson_doc-append doc (parts_bytes parts) p,
        drop-append doc (parts_bytes parts),
        read_sections-parts_bytes fuel parts a
            (omega (arith, length-append doc (parts_bytes parts))),
      )
      refl
read_sections-parts_bytes (suc fuel) (documents identifier docs ∷ parts) (p, a) le =
    let inner = named identifier docs in
    let all = put_le 4 (4 + length inner) ++ inner in
    let rest : drop (4 + length inner) (all ++ parts_bytes parts) ≡ parts_bytes parts =
      subst (λ n. drop n (all ++ parts_bytes parts) ≡ parts_bytes parts)
        (length-part (4 + length inner) inner refl) (drop-append all (parts_bytes parts)) in
    let ih =
      read_sections-parts_bytes fuel parts a
        (omega (arith, length-append all (parts_bytes parts))) in
    rw (parse_document_sequence-append identifier docs (parts_bytes parts) p, rest, ih) refl

no_more : (bytes more : List ℕ) → length more ≡ 0 → bytes ++ more ≡ bytes
no_more bytes [] h = append-nil bytes
no_more bytes (b ∷ more) h = absurd (omega arith)

no_checksum : (flags n : ℕ) → (flags % 2 == 1) ≡ false → n ≡ 4 * (flags % 2) → n ≡ 0
no_checksum flags n even h = ground arith

with_checksum :
    (flags n k total : ℕ)
    → (flags % 2 == 1) ≡ true
    → k ≡ 4 * (flags % 2)
    → total ≡ n + k
    → (ltb total 4 ≡ false) × (total - 4 ≡ n)
with_checksum flags n k total odd h sum = (ground arith, ground arith)

-- Parts laid out one after another, behind flags and, where the flags say so, before a checksum: each
-- document begins with its length, no identifier has a zero byte, and sizes fit four bytes. The parser
-- gives the flags and the sections of the parts, in order, and leaves the checksum out.
pub parse_op_msg-parts_bytes :
    (flags : ℕ) (parts : List Part) (checksum : List ℕ)
    → flags < 2 ^ 32
    → All IsPart parts
    → length checksum ≡ 4 * (flags % 2)
    → parse_op_msg (put_le 4 flags ++ (parts_bytes parts ++ checksum))
      ≡ ok (record { flags = flags; sections = map section_of parts })
unfolding parse_op_msg op_msg_of put_le
parse_op_msg-parts_bytes flags parts checksum small a sum =
    let bytes = parts_bytes parts in
    let body = put_le 4 flags ++ (bytes ++ checksum) in
    let long : ltb (length body) 4 ≡ false = ground arith in
    let word : get_le (take 4 body) ≡ flags = get_le-put_le 4 flags small in
    let parsed = read_sections-parts_bytes (length bytes) parts a (omega arith) in
    elim (Bool-cases (flags % 2 == 1)) [
      | inl odd ↦
          let (enough, cut) =
            with_checksum flags (length bytes) (length checksum) (length (bytes ++ checksum)) odd
              sum (length-append bytes checksum) in
          rw (long, word, odd, enough, cut, take-append bytes checksum, op_msg_of, parsed) refl
      | inr even ↦
          let empty : bytes ++ checksum ≡ bytes =
            no_more bytes checksum (no_checksum flags (length checksum) even sum) in
          rw (long, word, even, empty, op_msg_of, parsed) refl
    ]
