-- ===== src/Proxy/Wire/Fuel.antt =====
-- Parsing the messages of internal/proxy/mongodb/wire.go needs no more rounds than there are bytes.
use dbbat.Prelude.{
  ℕ, zero, suc, ◌-◌, ◌%◌, ◌≤◌, ◌<◌, ◌≡◌, ◌≢◌, refl, Bool, true, false, Option, none, some, List, [],
  ◌∷◌, arith, ltb, ◌==◌, if◌then◌else◌, length, length-take, length-drop, take, drop, Result, ok,
  err, ◌>>=◌, Result-cases, inl, inr,
}
use dbbat.Prelude.Bytes.{get_le}
use dbbat.Proxy.Wire.{WireError, no_fuel}
use dbbat.Proxy.Wire.Bodies.{
  Section, read_bson_doc, index_byte, read_docs, read_named, parse_document_sequence, read_sections,
  op_msg_of, parse_op_msg,
}

-- A document takes bytes off, and reading one has no loop.
read_bson_doc-length :
    (b doc : List ℕ) → read_bson_doc b ≡ ok doc → (0 < length doc) × (length doc ≤ length b)
unfolding read_bson_doc
read_bson_doc-length b doc h = ground (arith, length-take (get_le (take 4 b)) b)

read_bson_doc-ne-no_fuel : (b : List ℕ) → read_bson_doc b ≢ err no_fuel
unfolding read_bson_doc
read_bson_doc-ne-no_fuel b = λ h. ground (arith, h)

-- Where an error of a chain of calls, or of a branch, may come from.
bind-ne {ℓ κ} :
    {A : Type ℓ} {B : Type κ} (m : Result WireError A) (f : A → Result WireError B) (e : WireError)
    → m ≢ err e
    → ((a : A) → m ≡ ok a → f a ≢ err e)
    → (m >>= f) ≢ err e
bind-ne (ok a) f e first next = next a refl
bind-ne (err x) f e first next = λ h. ground (arith, h, first)

if-ne {ℓ} : {A : Type ℓ} (b : Bool) (x y e : A) → x ≢ e → y ≢ e → (if b then x else y) ≢ e
if-ne true x y e p q = p
if-ne false x y e p q = q

ok-ne {ℓ} : {A : Type ℓ} (a : A) (e : WireError) → Result.ok a ≢ err e
ok-ne a e = λ h. ground (arith, h)

read_docs-ne-no_fuel : (fuel : ℕ) (b : List ℕ) → length b ≤ fuel → read_docs fuel b ≢ err no_fuel
unfolding read_docs
read_docs-ne-no_fuel fuel [] le = λ h. ground (arith, h)
read_docs-ne-no_fuel zero (x ∷ b) le = absurd (omega arith)
read_docs-ne-no_fuel (suc fuel) (x ∷ b) le = elim (Result-cases (read_bson_doc (x ∷ b))) [
  | inr (e, eq) ↦ λ h. ground (arith, h, eq, read_bson_doc-ne-no_fuel (x ∷ b))
  | inl (doc, eq) ↦
      let (pos, _) = read_bson_doc-length (x ∷ b) doc eq in
      let rest = drop (length doc) (x ∷ b) in
      let ih = read_docs-ne-no_fuel fuel rest (omega (arith, length-drop (length doc) (x ∷ b))) in
      elim (Result-cases (read_docs fuel rest)) [
        | inr (e, eq') ↦ λ h. ground (arith, h, eq, eq', ih)
        | inl (docs, eq') ↦ λ h. ground (arith, h, eq, eq')
      ]
]

read_named-ne-no_fuel : (inner : List ℕ) (at : Option ℕ) → read_named inner at ≢ err no_fuel
unfolding read_named
read_named-ne-no_fuel inner none = λ h. ground (arith, h)
read_named-ne-no_fuel inner (some at) =
    let bytes = drop (suc at) inner in
    let ends = read_docs-ne-no_fuel (length bytes) bytes (omega arith) in
    elim (Result-cases (read_docs (length bytes) bytes)) [
      | inr (e, eq) ↦ λ h. ground (arith, h, eq, ends)
      | inl (docs, eq) ↦ λ h. ground (arith, h, eq)
    ]

parse_document_sequence-ne-no_fuel : (rest : List ℕ) → parse_document_sequence rest ≢ err no_fuel
unfolding parse_document_sequence
parse_document_sequence-ne-no_fuel rest =
    let inner = drop 4 (take (get_le (take 4 rest)) rest) in
    let ends = read_named-ne-no_fuel inner (index_byte inner 0) in
    elim (Result-cases (read_named inner (index_byte inner 0))) [
      | inr (e, eq) ↦ λ h. ground (arith, h, eq, ends)
      | inl (s, eq) ↦ λ h. ground (arith, h, eq)
    ]

-- What the code does with the sections after one that takes bytes.
onward :
    (fuel n : ℕ) (b : List ℕ) (s : Section)
    → read_sections fuel (drop n b) ≢ err no_fuel
    → (read_sections fuel (drop n b) >>= λ sections. ok (s ∷ sections)) ≢ err no_fuel
onward fuel n b s ends =
    bind-ne (read_sections fuel (drop n b)) _ no_fuel ends
      (λ sections eq. ok-ne (s ∷ sections) no_fuel)

read_sections-ne-no_fuel :
    (fuel : ℕ) (b : List ℕ) → length b ≤ fuel → read_sections fuel b ≢ err no_fuel
unfolding read_sections
read_sections-ne-no_fuel fuel [] le = ok-ne [] no_fuel
read_sections-ne-no_fuel zero (x ∷ b) le = absurd (omega arith)
read_sections-ne-no_fuel (suc fuel) (kind ∷ b) le =
    if-ne (kind == 0) _ _ _
      (bind-ne (read_bson_doc b) _ no_fuel (read_bson_doc-ne-no_fuel b) λ doc eq.
        onward fuel (length doc) b _ (
          read_sections-ne-no_fuel fuel (drop (length doc) b)
            (omega (arith, length-drop (length doc) b))))
      (if-ne (kind == 1) _ _ _
        (bind-ne (parse_document_sequence b) _ no_fuel (parse_document_sequence-ne-no_fuel b)
          λ r eq.
            onward fuel r.1 b r.0
              (read_sections-ne-no_fuel fuel (drop r.1 b) (omega (arith, length-drop r.1 b))))
        (λ h. ground (arith, h)))

op_msg_of-ne-no_fuel : (flags : ℕ) (rest : List ℕ) → op_msg_of flags rest ≢ err no_fuel
unfolding op_msg_of
op_msg_of-ne-no_fuel flags rest =
    bind-ne (read_sections (length rest) rest) _ no_fuel
      (read_sections-ne-no_fuel (length rest) rest (omega arith)) (λ sections eq. ok-ne _ no_fuel)

-- `parseOpMsg` on any body: its loops, over the sections and over the documents of a sequence, end
-- within as many rounds as there are bytes.
pub parse_op_msg-ne-no_fuel : (body : List ℕ) → parse_op_msg body ≢ err no_fuel
unfolding parse_op_msg
parse_op_msg-ne-no_fuel body =
    let flags = get_le (take 4 body) in
    let rest = drop 4 body in
    if-ne (ltb (length body) 4) _ _ _ (λ h. ground (arith, h))
      (if-ne (flags % 2 == 1) _ _ _
        (if-ne (ltb (length rest) 4) _ _ _ (λ h. ground (arith, h))
          (op_msg_of-ne-no_fuel flags (take (length rest - 4) rest)))
        (op_msg_of-ne-no_fuel flags rest))
