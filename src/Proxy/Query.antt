-- ===== src/Proxy/Query.antt =====
-- What internal/proxy/shared/validation.go lets a client run under its grant: SQL texts, and the
-- commands of MongoDB. A SQL text is a list of code points.
pub mod Patterns
pub mod Sql
pub mod Mongo
mod Tests
use dbbat.Prelude.{
  ℕ, String, Bool, true, false, ◌&&◌, ◌||◌, Option, none, some, List, [], ◌∷◌, if◌then◌else◌,
}
use dbbat.Prelude.Keys.{string_eq, ◌=?◌}
use dbbat.Prelude.Texts.{codes, has_prefix, contains, trim_space, to_upper}

-- The controls of a grant, and `HasControl` of internal/store/models.go.
abbrev pub control_read_only : String
control_read_only = "read_only"

abbrev pub control_block_copy : String
control_block_copy = "block_copy"

abbrev pub control_block_ddl : String
control_block_ddl = "block_ddl"

unfoldable pub has_control : List String → String → Bool
has_control [] control = false
has_control (c ∷ controls) control = c =? control || has_control controls control

abbrev pub is_read_only : List String → Bool
is_read_only controls = has_control controls control_read_only

abbrev pub should_block_ddl : List String → Bool
should_block_ddl controls = has_control controls control_block_ddl

pub data ValidationError : Type 0 where
  read_only_violation ddl_blocked password_change_blocked : ValidationError
  oracle_pattern_blocked mysql_pattern_blocked : ValidationError

abbrev pub write_keywords : List (List ℕ)
write_keywords =
    codes "INSERT"
    ∷ codes "UPDATE"
    ∷ codes "DELETE"
    ∷ codes "DROP"
    ∷ codes "TRUNCATE"
    ∷ codes "CREATE"
    ∷ codes "ALTER"
    ∷ codes "GRANT"
    ∷ codes "REVOKE"
    ∷ codes "MERGE"
    ∷ codes "REPLACE"
    ∷ []

abbrev pub ddl_keywords : List (List ℕ)
ddl_keywords = codes "CREATE" ∷ codes "ALTER" ∷ codes "DROP" ∷ codes "TRUNCATE" ∷ []

-- The loop over the keywords.
unfoldable pub starts_with_any : List ℕ → List (List ℕ) → Bool
starts_with_any upper [] = false
starts_with_any upper (keyword ∷ keywords) =
    has_prefix upper keyword || starts_with_any upper keywords

module _ (upper_other : ℕ → ℕ) where
  -- `strings.ToUpper(strings.TrimSpace(sql))`
  unfoldable pub normalized : List ℕ → List ℕ
  normalized sql = to_upper upper_other (trim_space sql)

  unfoldable pub is_write_query : List ℕ → Bool
  is_write_query sql = starts_with_any (normalized sql) write_keywords

  unfoldable pub is_ddl_query : List ℕ → Bool
  is_ddl_query sql = starts_with_any (normalized sql) ddl_keywords

  unfoldable pub is_password_change_query : List ℕ → Bool
  is_password_change_query sql =
      let upper = normalized sql in
      (has_prefix upper (codes "ALTER USER") || has_prefix upper (codes "ALTER ROLE"))
      && contains upper (codes "PASSWORD")

  -- `ValidateQuery`; `none` is the nil error.
  unfoldable pub validate_query : List ℕ → List String → Option ValidationError
  validate_query sql controls =
      if is_password_change_query sql
      then some password_change_blocked
      else if is_read_only controls && is_write_query sql
      then some read_only_violation
      else if should_block_ddl controls && is_ddl_query sql
      then some ddl_blocked
      else none
