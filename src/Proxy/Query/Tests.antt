-- ===== src/Proxy/Query/Tests.antt =====
-- Runs of internal/proxy/shared/validation.go.
use dbbat.Prelude.{ℕ, ◌≡◌, inl, refl, none, [], ◌∷◌}
use dbbat.Prelude.Keys.{string_eq}
use dbbat.Prelude.Texts.{codes}
use dbbat.Proxy.Query.{validate_query}
use dbbat.Proxy.Query.Sql.{validate_query_comment}

abbrev plain : ℕ → ℕ
plain c = c

validate_query_comment_example :
    validate_query plain (codes "/* x */ DROP TABLE t") ("read_only" ∷ []) ≡ none
validate_query_comment_example =
    validate_query_comment plain b'/' (codes "* x */ DROP TABLE t") ("read_only" ∷ []) (inl refl)
