-- ===== src/Proxy/Query/Mongo/Tests.antt =====
-- Runs of the command checks of internal/proxy/shared/validation.go.
use dbbat.Prelude.{◌≡◌, ◌⊎◌, inl, refl, String, some, none, List, [], ◌∷◌}
use dbbat.Prelude.Keys.{string_eq}
use dbbat.Proxy.Query.{has_control}
use dbbat.Proxy.Query.Mongo.{
  BsonLib, MongoServer, class_list_databases, classify_mongo_command, validate_mongo_command,
  mongo_read_only, is_in, mongo_database_allowed, gate, after_gate,
}
use dbbat.Proxy.Query.Mongo.Policy.{
  Permitted, AllowedDatabase, validate_mongo_command-Permitted, validate_mongo_command-aggregate,
}

-- The body of a command is the list of the stages of its pipeline, and a stage the list of its keys.
abbrev toy_bson : BsonLib
toy_bson = record {
  Raw = List (List String);
  RawArray = List (List String);
  RawValue = List String;
  lookup_array = λ body key. some body;
  values = λ stages. some stages;
  as_document = λ stage. some (stage ∷ []);
  element_keys = λ document. elim document [ [] ↦ none | stage ∷ rest ↦ some stage ];
}

abbrev shop : MongoServer
shop = record { name = "mongo"; database_name = "shop" }

validate_mongo_command-Permitted_example :
    Permitted ("read_only" ∷ []) (classify_mongo_command toy_bson "find" [])
    × ((classify_mongo_command toy_bson "find" [] ≡ class_list_databases)
        ⊎ AllowedDatabase "shop" (classify_mongo_command toy_bson "find" []) (some shop))
validate_mongo_command-Permitted_example =
    validate_mongo_command-Permitted toy_bson "find" "shop" [] (some shop) ("read_only" ∷ []) (
      unfold validate_mongo_command classify_mongo_command is_in mongo_database_allowed gate
        after_gate has_control in
      refl)

validate_mongo_command-aggregate_example :
    validate_mongo_command toy_bson "aggregate" "shop"
      (("$match" ∷ []) ∷ ("comment" ∷ "$out" ∷ []) ∷ [])
      (some shop)
      ("read_only" ∷ [])
    ≡ some mongo_read_only
validate_mongo_command-aggregate_example =
    validate_mongo_command-aggregate toy_bson "shop"
      (("$match" ∷ []) ∷ ("comment" ∷ "$out" ∷ []) ∷ []) (some shop) ("read_only" ∷ [])
      (("$match" ∷ []) ∷ ("comment" ∷ "$out" ∷ []) ∷ []) (("$match" ∷ []) ∷ []) []
      ("comment" ∷ "$out" ∷ []) (("comment" ∷ "$out" ∷ []) ∷ []) ("comment" ∷ []) [] "$out" refl
      refl refl refl (inl refl) (unfold has_control in refl)
