-- ===== src/Proxy/Query/Patterns.antt =====
-- The blocked patterns of internal/proxy/shared/validation.go for Oracle and MySQL: the regular
-- expressions as data, and Go's `MatchString` on them as a backtracking matcher. The matcher gives
-- the same answer as Go's automaton, since the patterns capture nothing.
use dbbat.Prelude.{
  ℕ, ◌+◌, Bool, true, false, not, ◌&&◌, ◌||◌, Option, none, some, List, [], ◌∷◌, String, leb, ◌==◌,
}
use dbbat.Prelude.Texts.{codes}
use dbbat.Proxy.Query.{
  ValidationError, oracle_pattern_blocked, mysql_pattern_blocked, validate_query,
}

-- `(?i)` stands before every pattern, so `chr` matches without regard to case; its letter is in
-- upper case. `spaces` is `\s+` and `bound` is `\b`.
pub data Regexp : Type 0 where
  empty spaces bound : Regexp
  chr : ℕ → Regexp
  seq alt : Regexp → Regexp → Regexp
  opt : Regexp → Regexp

-- A letter matches both of its cases; `S` also matches the long s, and `K` the sign of the kelvin.
unfoldable pub folds_to : ℕ → ℕ → Bool
folds_to c x =
    c == x
    || ((leb b'A' c && (leb c b'Z' && x == c + 32))
        || ((c == b'S' && x == 0x17f) || (c == b'K' && x == 0x212a)))

-- `\s`
unfoldable pub is_blank : ℕ → Bool
is_blank c = c == 9 || (c == 10 || (c == 12 || (c == 13 || c == 32)))

unfoldable pub is_word : ℕ → Bool
is_word c =
    (leb b'0' c && leb c b'9')
    || ((leb b'A' c && leb c b'Z') || (c == b'_' || (leb b'a' c && leb c b'z')))

abbrev word_at : Option ℕ → Bool
word_at none = false
word_at (some c) = is_word c

abbrev head_of : List ℕ → Option ℕ
head_of [] = none
head_of (c ∷ s) = some c

abbrev differ : Bool → Bool → Bool
differ true b = not b
differ false b = b

-- `\s+` and then what follows.
unfoldable pub match_spaces : List ℕ → (Option ℕ → List ℕ → Bool) → Bool
unfolding is_blank
match_spaces [] k = false
match_spaces (c ∷ s) k = is_blank c && (k (some c) s || match_spaces s k)

abbrev match_chr : ℕ → List ℕ → (Option ℕ → List ℕ → Bool) → Bool
match_chr c [] k = false
match_chr c (x ∷ s) k = folds_to c x && k (some x) s

-- The pattern matches at the start of the text, with `prev` before it, and `k` accepts the rest.
unfoldable pub match_here : Regexp → Option ℕ → List ℕ → (Option ℕ → List ℕ → Bool) → Bool
unfolding match_spaces folds_to is_word
match_here empty prev s k = k prev s
match_here spaces prev s k = match_spaces s k
match_here bound prev s k = differ (word_at prev) (word_at (head_of s)) && k prev s
match_here (chr c) prev s k = match_chr c s k
match_here (seq a b) prev s k = match_here a prev s (λ p r. match_here b p r k)
match_here (alt a b) prev s k = match_here a prev s k || match_here b prev s k
match_here (opt a) prev s k = match_here a prev s k || k prev s

unfoldable pub match_from : Regexp → Option ℕ → List ℕ → Bool
unfolding match_here
match_from re prev [] = match_here re prev [] (λ p r. true)
match_from re prev (c ∷ s) = match_here re prev (c ∷ s) (λ p r. true) || match_from re (some c) s

-- `MatchString`
unfoldable pub match_string : Regexp → List ℕ → Bool
unfolding match_from
match_string re s = match_from re none s

abbrev pub literal : List ℕ → Regexp
literal [] = empty
literal (c ∷ cs) = seq (chr c) (literal cs)

abbrev pub word : String → Regexp
word w = literal (codes w)

abbrev pub oracle_blocked_patterns : List Regexp
oracle_blocked_patterns =
    seq (word "ALTER") (seq spaces (word "SYSTEM"))
    ∷ seq (word "CREATE") (seq spaces (seq (word "DATABASE") (seq spaces (word "LINK"))))
    ∷ word "DBMS_SCHEDULER"
    ∷ word "DBMS_JOB"
    ∷ word "UTL_HTTP"
    ∷ word "UTL_TCP"
    ∷ word "UTL_FILE"
    ∷ word "DBMS_PIPE"
    ∷ []

abbrev pub mysql_blocked_patterns : List Regexp
mysql_blocked_patterns =
    seq bound (
      seq (word "LOAD") (
        seq spaces (
          seq (word "DATA")
            (seq spaces (seq (opt (seq (word "LOCAL") spaces)) (seq (word "INFILE") bound))))))
    ∷ seq bound (
        seq (word "INTO")
          (seq spaces (seq (alt (word "OUT") (word "DUMP")) (seq (word "FILE") bound))))
    ∷ seq bound (seq (word "SET") (seq spaces (seq (word "GLOBAL") bound)))
    ∷ seq bound (seq (word "SET") (seq spaces (seq (word "PASSWORD") bound)))
    ∷ []

-- The loop over the patterns.
unfoldable pub matches_any : List Regexp → List ℕ → Bool
unfolding match_string
matches_any [] sql = false
matches_any (re ∷ res) sql = match_string re sql || matches_any res sql

-- The first error, or the pattern's.
abbrev pub then_patterns : Option ValidationError → Bool → ValidationError → Option ValidationError
then_patterns (some e) hit error = some e
then_patterns none true error = some error
then_patterns none false error = none

module _ (upper_other : ℕ → ℕ) where
  -- `ValidateOracleQuery`
  unfoldable pub validate_oracle_query : List ℕ → List String → Option ValidationError
  validate_oracle_query sql controls =
      then_patterns (validate_query upper_other sql controls)
        (matches_any oracle_blocked_patterns sql) oracle_pattern_blocked

  -- `ValidateMySQLQuery`
  unfoldable pub validate_mysql_query : List ℕ → List String → Option ValidationError
  validate_mysql_query sql controls =
      then_patterns (validate_query upper_other sql controls)
        (matches_any mysql_blocked_patterns sql) mysql_pattern_blocked
