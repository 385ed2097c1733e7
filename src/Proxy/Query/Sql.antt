-- ===== src/Proxy/Query/Sql.antt =====
-- What passes the keyword tests of internal/proxy/shared/validation.go.
use dbbat.Prelude.{
  ℕ, ◌+◌, ◌≡◌, ◌⊎◌, refl, ap, ◌∙◌, true, false, ◌&&◌, none, List, [], ◌∷◌, ◌++◌, map, arith, leb,
  if◌then◌else◌, All, Bool-cases, inl, inr, String,
}
use mathlib.Core.Path.{ap₂}
use dbbat.Prelude.Texts.{
  has_prefix, is_space, trim_left, trim_right, trim_space, to_upper_rune, to_upper, cons_trimmed,
}
use dbbat.Proxy.Query.{
  has_control, starts_with_any, normalized, is_write_query, is_ddl_query, is_password_change_query,
  validate_query,
}

abbrev pub Blank : List ℕ → Type 0
Blank = All (λ c. is_space c ≡ true)

trim_left-append : (pad s : List ℕ) → Blank pad → trim_left (pad ++ s) ≡ trim_left s
unfolding trim_left
trim_left-append [] s h = refl
trim_left-append (c ∷ pad) s (h, hs) = rw h (trim_left-append pad s hs)

trim_right-Blank : (pad : List ℕ) → Blank pad → trim_right pad ≡ []
unfolding trim_right
trim_right-Blank [] h = refl
trim_right-Blank (c ∷ pad) (h, hs) = rw (trim_right-Blank pad hs, h)

trim_right-append : (s pad : List ℕ) → Blank pad → trim_right (s ++ pad) ≡ trim_right s
trim_right-append [] pad h = trim_right-Blank pad h ∙ (unfold trim_right in refl)
trim_right-append (c ∷ s) pad h = unfold_cons (trim_right-append s pad h)
  where
    unfold_cons :
        trim_right (s ++ pad) ≡ trim_right s → trim_right ((c ∷ s) ++ pad) ≡ trim_right (c ∷ s)
    unfold_cons e = unfold trim_right in ap (cons_trimmed c) e

trim_left-Blank : (pad : List ℕ) → Blank pad → trim_left pad ≡ []
unfolding trim_left
trim_left-Blank [] h = refl
trim_left-Blank (c ∷ pad) (h, hs) = rw h (trim_left-Blank pad hs)

trim_space-append_right : (s pad : List ℕ) → Blank pad → trim_space (s ++ pad) ≡ trim_space s
unfolding trim_space trim_left
trim_space-append_right [] pad h = ap trim_right (trim_left-Blank pad h)
trim_space-append_right (c ∷ s) pad h = elim (Bool-cases (is_space c)) [
  | inl e ↦ rw e (trim_space-append_right s pad h)
  | inr e ↦ rw e (trim_right-append (c ∷ s) pad h)
]

-- The small ASCII letter of a capital one.
abbrev pub lower_ascii : ℕ → ℕ
lower_ascii c = if leb b'A' c && leb c b'Z' then c + 32 else c

is_space-lower_ascii : (c : ℕ) → is_space (lower_ascii c) ≡ is_space c
unfolding is_space
is_space-lower_ascii c = ground arith

trim_left-lower : (s : List ℕ) → trim_left (map lower_ascii s) ≡ map lower_ascii (trim_left s)
unfolding trim_left
trim_left-lower [] = refl
trim_left-lower (c ∷ s) = ground (arith, is_space-lower_ascii c, trim_left-lower s)

trim_right-lower : (s : List ℕ) → trim_right (map lower_ascii s) ≡ map lower_ascii (trim_right s)
unfolding trim_right
trim_right-lower [] = refl
trim_right-lower (c ∷ s) =
    ap (cons_trimmed (lower_ascii c)) (trim_right-lower s) ∙ cons_lower (trim_right s)
  where
    cons_lower :
        (t : List ℕ)
        → cons_trimmed (lower_ascii c) (map lower_ascii t) ≡ map lower_ascii (cons_trimmed c t)
    cons_lower [] = ground (arith, is_space-lower_ascii c)
    cons_lower (d ∷ t) = refl

trim_space-lower : (s : List ℕ) → trim_space (map lower_ascii s) ≡ map lower_ascii (trim_space s)
unfolding trim_space
trim_space-lower s = ap trim_right (trim_left-lower s) ∙ trim_right-lower (trim_left s)

trim_space-append : (pad s : List ℕ) → Blank pad → trim_space (pad ++ s) ≡ trim_space s
unfolding trim_space
trim_space-append pad s h = ap trim_right (trim_left-append pad s h)

trim_space_lem :
    (pad sql pad' : List ℕ)
    → Blank pad
    → Blank pad'
    → trim_space (pad ++ (map lower_ascii sql ++ pad')) ≡ map lower_ascii (trim_space sql)
trim_space_lem pad sql pad' h h' =
    trim_space-append pad (map lower_ascii sql ++ pad') h
    ∙ (trim_space-append_right (map lower_ascii sql) pad' h' ∙ trim_space-lower sql)

module _ (upper_other : ℕ → ℕ) where
  to_upper_rune-lower :
      (c : ℕ) → to_upper_rune upper_other (lower_ascii c) ≡ to_upper_rune upper_other c
  unfolding to_upper_rune
  to_upper_rune-lower c = ground arith

  to_upper-lower : (s : List ℕ) → to_upper upper_other (map lower_ascii s) ≡ to_upper upper_other s
  unfolding to_upper
  to_upper-lower [] = refl
  to_upper-lower (c ∷ s) = ap₂ ◌∷◌ (to_upper_rune-lower c) (to_upper-lower s)

  -- Blanks around a statement and the case of its ASCII letters change nothing.
  normalized_lem :
      (pad sql pad' : List ℕ)
      → Blank pad
      → Blank pad'
      → normalized upper_other (pad ++ (map lower_ascii sql ++ pad')) ≡ normalized upper_other sql
  unfolding normalized
  normalized_lem pad sql pad' h h' =
      ap (to_upper upper_other) (trim_space_lem pad sql pad' h h') ∙ to_upper-lower (trim_space sql)

  -- A statement gets the verdict of the same statement with blanks before and behind it and its
  -- ASCII letters in lower case, under every grant.
  pub validate_query-normalized :
      (pad sql pad' : List ℕ) (controls : List String)
      → Blank pad
      → Blank pad'
      → validate_query upper_other (pad ++ (map lower_ascii sql ++ pad')) controls
        ≡ validate_query upper_other sql controls
  unfolding validate_query is_write_query is_ddl_query is_password_change_query
  validate_query-normalized pad sql pad' controls h h' = rw (normalized_lem pad sql pad' h h')

  ddl_is_write :
      (sql : List ℕ) → is_ddl_query upper_other sql ≡ true → is_write_query upper_other sql ≡ true
  unfolding is_write_query is_ddl_query starts_with_any
  ddl_is_write sql h = ground arith

  -- A statement that passes under a read-only grant, whatever its other controls, starts with no
  -- keyword of writing and with none of the schema, and changes no password.
  pub validate_query_read_only :
      (sql : List ℕ) (controls : List String)
      → has_control controls "read_only" ≡ true
      → validate_query upper_other sql controls ≡ none
      → (is_write_query upper_other sql ≡ false)
        × (is_ddl_query upper_other sql ≡ false)
        × (is_password_change_query upper_other sql ≡ false)
  unfolding validate_query
  validate_query_read_only sql controls ro h = ground (arith, ddl_is_write sql)

  trim_right_head :
      (c : ℕ) (s : List ℕ) → is_space c ≡ false → (r : List ℕ) × (trim_right (c ∷ s) ≡ c ∷ r)
  unfolding trim_right
  trim_right_head c s h = head_of (trim_right s)
    where
      head_of : (t : List ℕ) → (r : List ℕ) × (cons_trimmed c t ≡ c ∷ r)
      head_of [] = ([], rw h)
      head_of (d ∷ t) = (d ∷ t, refl)

  normalized_head :
      (c : ℕ) (s : List ℕ)
      → is_space c ≡ false
      → (r : List ℕ) × (normalized upper_other (c ∷ s) ≡ to_upper_rune upper_other c ∷ r)
  unfolding normalized trim_space trim_left to_upper
  normalized_head c s h =
      let (r, e) = trim_right_head c s h in (map (to_upper_rune upper_other) r, rw (h, e))

  no_keyword :
      (c : ℕ) (r sql : List ℕ)
      → (c ≡ b'/') ⊎ ((c ≡ b'-') ⊎ (c ≡ b'('))
      → normalized upper_other sql ≡ c ∷ r
      → (is_write_query upper_other sql ≡ false)
        × (is_ddl_query upper_other sql ≡ false)
        × (is_password_change_query upper_other sql ≡ false)
  unfolding is_write_query is_ddl_query is_password_change_query starts_with_any has_prefix
  no_keyword c r sql p e = elim p [
    | inl slash ↦ rw (e, slash) (refl, refl, refl)
    | inr (inl dash) ↦ rw (e, dash) (refl, refl, refl)
    | inr (inr paren) ↦ rw (e, paren) (refl, refl, refl)
  ]

  -- A statement that starts with a slash, a dash or a parenthesis, as one behind a comment does,
  -- passes under every grant, read-only ones included, whatever the rest of it is.
  pub validate_query_comment :
      (c : ℕ) (sql : List ℕ) (controls : List String)
      → (c ≡ b'/') ⊎ ((c ≡ b'-') ⊎ (c ≡ b'('))
      → validate_query upper_other (c ∷ sql) controls ≡ none
  unfolding validate_query
  validate_query_comment c sql controls p =
      let same : to_upper_rune upper_other c ≡ c = unfold to_upper_rune in ground arith in
      let (r, e) = normalized_head c sql (unfold is_space in ground arith) in
      let (w, d, pw) = no_keyword c r (c ∷ sql) p (rw same at e) in rw (w, d, pw) (ground arith)
