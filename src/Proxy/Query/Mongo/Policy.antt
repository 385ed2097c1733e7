-- ===== src/Proxy/Query/Mongo/Policy.antt =====
-- What a MongoDB command that internal/proxy/shared/validation.go lets through can be.
use dbbat.Prelude.{
  ◌≡◌, ◌≢◌, ◌⊎◌, refl, Bool, true, false, Option, none, some, List, [], ◌∷◌, ◌++◌, String, arith,
  inl, inr, Bool-cases,
}
use dbbat.Prelude.Keys.{string_eq, ◌=?◌}
use dbbat.Proxy.Query.{is_read_only, should_block_ddl}
use dbbat.Proxy.Query.Mongo.{
  BsonLib, MongoCmdClass, class_unknown, class_read, class_write, class_ddl, class_diagnostic,
  class_blocked, class_list_databases, is_in, stage_keys_write, stage_document_writes, stage_writes,
  stages_write, array_writes, mongo_read_only, aggregate_pipeline_writes, classify_mongo_command,
  MongoServer, mongo_database_allowed, gate, after_gate, validate_mongo_command, names_server,
  is_diagnostic,
}

-- The databases that a command of the class may name.
abbrev pub AllowedDatabase : String → MongoCmdClass → Option MongoServer → Type 0
AllowedDatabase db_name class none =
    (db_name ≡ "") ⊎ ((db_name ≡ "admin") × (class ≡ class_diagnostic))
AllowedDatabase db_name class (some db) =
    (db_name ≡ "")
    ⊎ (((db_name ≡ "admin") × (class ≡ class_diagnostic))
        ⊎ ((db_name ≢ "admin")
            × (db_name ≢ "local")
            × (db_name ≢ "config")
            × (db_name ≢ "$external")
            × ((db_name ≡ db.database_name) ⊎ (db_name ≡ db.name))))

eq_of_test : (a b : String) → (a =? b) ≡ true → a ≡ b
eq_of_test a b h = (string_eq.beq_iff a b).0 h

ne_of_test : (a b : String) → (a =? b) ≡ false → a ≢ b
ne_of_test a b h = λ e. cc ((string_eq.beq_iff a b).1 e)

diagnostic_of_test : (class : MongoCmdClass) → is_diagnostic class ≡ true → class ≡ class_diagnostic
diagnostic_of_test class h = ground arith

named_of_test :
    (db_name : String) (db : MongoServer)
    → names_server db_name (some db) ≡ true
    → (db_name ≡ db.database_name) ⊎ (db_name ≡ db.name)
named_of_test db_name db h = elim (Bool-cases (db_name =? db.database_name)) [
  | inl e ↦ inl (eq_of_test db_name db.database_name e)
  | inr e ↦ inr (eq_of_test db_name db.name (ground arith))
]

-- The tests before the server's own names, each as a fact.
early_tests :
    (db_name : String) (class : MongoCmdClass) (db : Option MongoServer)
    → mongo_database_allowed db_name class db ≡ true
    → (db_name ≡ "")
      ⊎ (((db_name ≡ "admin") × (class ≡ class_diagnostic))
          ⊎ ((db_name ≢ "admin")
              × (db_name ≢ "local")
              × (db_name ≢ "config")
              × (db_name ≢ "$external")
              × (names_server db_name db ≡ true)))
unfolding mongo_database_allowed
early_tests db_name class db h = elim (Bool-cases (db_name =? "")) [
  | inl e ↦ inl (eq_of_test db_name "" e)
  | inr e₀ ↦ elim (Bool-cases (db_name =? "admin")) [
    | inl e ↦ inr (inl (eq_of_test db_name "admin" e, diagnostic_of_test class (ground arith)))
    | inr e₁ ↦ elim (Bool-cases (db_name =? "$external")) [
      | inl e ↦ absurd (ground arith)
      | inr e₂ ↦ inr (
          inr (
            ne_of_test db_name "admin" e₁,
            ne_of_test db_name "local" (ground arith),
            ne_of_test db_name "config" (ground arith),
            ne_of_test db_name "$external" e₂,
            ground arith,
          ))
    ]
  ]
]

mongo_database_allowed_lem :
    (db_name : String) (class : MongoCmdClass) (db : Option MongoServer)
    → mongo_database_allowed db_name class db ≡ true
    → AllowedDatabase db_name class db
mongo_database_allowed_lem db_name class none h = elim (early_tests db_name class none h) [
  | inl e ↦ inl e
  | inr (inl e) ↦ inr e
  | inr (inr e) ↦ absurd (cc (e.4))
]
mongo_database_allowed_lem db_name class (some db) h =
    elim (early_tests db_name class (some db) h) [
      | inl e ↦ inl e
      | inr (inl e) ↦ inr (inl e)
      | inr (inr (a, b, c, d, named)) ↦ inr (inr (a, b, c, d, named_of_test db_name db named))
    ]

-- What passes the controls.
abbrev pub Permitted : List String → MongoCmdClass → Type 0
Permitted controls class_unknown = ⊥
Permitted controls class_blocked = ⊥
Permitted controls class_write = is_read_only controls ≡ false
Permitted controls class_ddl = (is_read_only controls ≡ false) × (should_block_ddl controls ≡ false)
Permitted controls class = Unit

passed :
    (class : MongoCmdClass) (controls : List String) (allowed : Bool)
    → after_gate (gate class controls) allowed ≡ none
    → Permitted controls class × ((class ≡ class_list_databases) ⊎ (allowed ≡ true))
unfolding after_gate gate
passed class_unknown controls allowed h = absurd (ground arith)
passed class_blocked controls allowed h = absurd (ground arith)
passed class_write controls allowed h = ground arith
passed class_ddl controls allowed h = ground arith
passed class_read controls allowed h = (tt, inr (ground arith))
passed class_diagnostic controls allowed h = (tt, inr (ground arith))
passed class_list_databases controls allowed h = (tt, inl refl)

-- A command that is let through is of a known class, writes and changes of the schema need a grant
-- without `read_only`, the latter also one without `block_ddl`, and it names no database, its
-- server's own, or, for a diagnostic command, `admin`; only `listDatabases` names what it likes.
pub validate_mongo_command-Permitted :
    (lib : BsonLib) (cmd db_name : String) (body : lib.Raw) (db : Option MongoServer)
    (controls : List String)
    → validate_mongo_command lib cmd db_name body db controls ≡ none
    → let class = classify_mongo_command lib cmd body in
      Permitted controls class × ((class ≡ class_list_databases) ⊎ AllowedDatabase db_name class db)
unfolding validate_mongo_command
validate_mongo_command-Permitted lib cmd db_name body db controls h =
    let class = classify_mongo_command lib cmd body in
    let (permitted, place) = passed class controls (mongo_database_allowed db_name class db) h in
    (
      permitted,
      elim place [
        | inl listed ↦ inl listed
        | inr allowed ↦ inr (mongo_database_allowed_lem db_name class db allowed)
      ],
    )

-- A key among the keys, a stage among the stages.
stage_keys_write-append :
    (before : List String) (k : String) (after : List String)
    → (k ≡ "$out") ⊎ (k ≡ "$merge")
    → stage_keys_write (before ++ (k ∷ after)) ≡ true
unfolding stage_keys_write
stage_keys_write-append [] k after (inl e) = rw e refl
stage_keys_write-append [] k after (inr e) = rw e refl
stage_keys_write-append (b ∷ before) k after e =
    ground (arith, stage_keys_write-append before k after e)

stages_write-append :
    (lib : BsonLib) (before : List lib.RawValue) (v : lib.RawValue) (after : List lib.RawValue)
    → stage_writes lib v ≡ true
    → stages_write lib (before ++ (v ∷ after)) ≡ true
unfolding stages_write
stages_write-append lib [] v after e = rw e refl
stages_write-append lib (b ∷ before) v after e =
    ground (arith, stages_write-append lib before v after e)

aggregate_class :
    (lib : BsonLib) (cmd : String) (body : lib.Raw)
    → cmd ≡ "aggregate"
    → aggregate_pipeline_writes lib body ≡ true
    → classify_mongo_command lib cmd body ≡ class_write
unfolding classify_mongo_command is_in
aggregate_class lib cmd body name writes = rw (name, writes)

-- An aggregation whose pipeline has, among its stages, a document with a key `$out` or `$merge` among
-- its keys is refused under a read-only grant, as a write, whatever database it names.
pub validate_mongo_command-aggregate :
    (lib : BsonLib) (db_name : String) (body : lib.Raw) (db : Option MongoServer)
    (controls : List String) (pipeline : lib.RawArray) (before after : List lib.RawValue)
    (v : lib.RawValue) (stage : lib.Raw) (keys keys' : List String) (k : String)
    → lib.lookup_array body "pipeline" ≡ some pipeline
    → lib.values pipeline ≡ some (before ++ (v ∷ after))
    → lib.as_document v ≡ some stage
    → lib.element_keys stage ≡ some (keys ++ (k ∷ keys'))
    → (k ≡ "$out") ⊎ (k ≡ "$merge")
    → is_read_only controls ≡ true
    → validate_mongo_command lib "aggregate" db_name body db controls ≡ some mongo_read_only
unfolding validate_mongo_command gate
validate_mongo_command-aggregate lib db_name body db controls pipeline before after v stage keys
      keys' k found listed doc named writes ro =
    let one : stage_writes lib v ≡ true =
      unfold stage_writes stage_document_writes in
      rw (doc, named) (stage_keys_write-append keys k keys' writes) in
    let all : aggregate_pipeline_writes lib body ≡ true =
      unfold aggregate_pipeline_writes array_writes in
      rw (found, listed) (stages_write-append lib before v after one) in
    rw (aggregate_class lib "aggregate" body refl all, ro) refl
