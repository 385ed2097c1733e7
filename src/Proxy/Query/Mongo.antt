-- ===== src/Proxy/Query/Mongo.antt =====
-- The MongoDB commands of internal/proxy/shared/validation.go: their classes, and what a grant
-- permits. A BSON document is the library's; what the code reads of one is a record of functions.
pub mod Policy
mod Tests
use dbbat.Prelude.{
  Bool, true, false, ◌&&◌, ◌||◌, Option, none, some, List, [], ◌∷◌, String, if◌then◌else◌,
}
use dbbat.Prelude.Keys.{string_eq, ◌=?◌}
use dbbat.Proxy.Query.{is_read_only, should_block_ddl}

-- What the code uses of `go.mongodb.org/mongo-driver/v2/bson`: the array under a key of a document,
-- its values, the document that a value is, and the keys of a document. `none` is a failure.
pub record BsonLib : Type 1 where
  pub Raw : Type 0
  pub RawArray : Type 0
  pub RawValue : Type 0
  pub lookup_array : Raw → String → Option RawArray
  pub values : RawArray → Option (List RawValue)
  pub as_document : RawValue → Option Raw
  pub element_keys : Raw → Option (List String)

pub data MongoCmdClass : Type 0 where
  class_unknown class_read class_write class_ddl : MongoCmdClass
  class_diagnostic class_blocked class_list_databases : MongoCmdClass

pub data MongoError : Type 0 where
  mongo_read_only mongo_ddl_blocked mongo_command_blocked : MongoError
  mongo_unknown_command mongo_database_blocked : MongoError

abbrev pub mongo_read_commands : List String
mongo_read_commands =
    "find" ∷ "aggregate" ∷ "count" ∷ "distinct" ∷ "getMore" ∷ "killCursors" ∷ "listCollections"
    ∷ "listIndexes" ∷ "explain" ∷ "dbStats" ∷ "collStats" ∷ []

abbrev pub mongo_write_commands : List String
mongo_write_commands =
    "insert" ∷ "update" ∷ "delete" ∷ "findAndModify" ∷ "findandmodify" ∷ "bulkWrite" ∷ []

abbrev pub mongo_ddl_commands : List String
mongo_ddl_commands =
    "create" ∷ "drop" ∷ "dropDatabase" ∷ "createIndexes" ∷ "dropIndexes" ∷ "collMod"
    ∷ "renameCollection" ∷ "convertToCapped" ∷ []

abbrev pub mongo_diagnostic_commands : List String
mongo_diagnostic_commands =
    "hello" ∷ "isMaster" ∷ "ismaster" ∷ "ping" ∷ "buildInfo" ∷ "buildinfo" ∷ "whatsmyuri"
    ∷ "connectionStatus" ∷ "getParameter" ∷ "getLog" ∷ "hostInfo" ∷ "atlasVersion" ∷ "endSessions"
    ∷ "saslStart" ∷ "saslContinue" ∷ []

abbrev pub mongo_blocked_commands : List String
mongo_blocked_commands =
    "createUser" ∷ "updateUser" ∷ "dropUser" ∷ "dropAllUsersFromDatabase" ∷ "grantRolesToUser"
    ∷ "revokeRolesFromUser" ∷ "createRole" ∷ "updateRole" ∷ "dropRole" ∷ "shutdown"
    ∷ "replSetReconfig" ∷ "replSetStepDown" ∷ "setParameter" ∷ "setFeatureCompatibilityVersion"
    ∷ "eval" ∷ "fsync" ∷ "compact" ∷ []

-- A map from names to `true` is the list of its names.
unfoldable pub is_in : List String → String → Bool
is_in [] cmd = false
is_in (c ∷ cs) cmd = c =? cmd || is_in cs cmd

-- The loop over the keys of a stage.
unfoldable pub stage_keys_write : List String → Bool
stage_keys_write [] = false
stage_keys_write (k ∷ ks) = (k =? "$out" || k =? "$merge") || stage_keys_write ks

abbrev or_none {ℓ} : {A : Type ℓ} → (A → Bool) → Option A → Bool
or_none f none = false
or_none f (some a) = f a

module _ (lib : BsonLib) where
  open lib use {Raw, RawArray, RawValue, lookup_array, values, as_document, element_keys}

  stage_document_writes : Raw → Bool
  unfolding stage_keys_write
  stage_document_writes stage = or_none stage_keys_write (element_keys stage)

  stage_writes : RawValue → Bool
  unfolding stage_document_writes
  stage_writes v = or_none stage_document_writes (as_document v)

  -- The loop over the stages.
  stages_write : List RawValue → Bool
  unfolding stage_writes
  stages_write [] = false
  stages_write (v ∷ vs) = stage_writes v || stages_write vs

  array_writes : RawArray → Bool
  unfolding stages_write
  array_writes pipeline = or_none stages_write (values pipeline)

  -- `aggregatePipelineWrites`
  pub aggregate_pipeline_writes : Raw → Bool
  unfolding array_writes
  aggregate_pipeline_writes body = or_none array_writes (lookup_array body "pipeline")

  -- `classifyMongoCommand`
  pub classify_mongo_command : String → Raw → MongoCmdClass
  classify_mongo_command cmd body =
      if is_in mongo_blocked_commands cmd
      then class_blocked
      else (if cmd =? "listDatabases"
          then class_list_databases
          else (if is_in mongo_diagnostic_commands cmd
              then class_diagnostic
              else (if is_in mongo_ddl_commands cmd
                  then class_ddl
                  else (if is_in mongo_write_commands cmd
                      then class_write
                      else (if is_in mongo_read_commands cmd
                          then (if cmd =? "aggregate" && aggregate_pipeline_writes body
                              then class_write
                              else class_read)
                          else class_unknown)))))

-- The names of the server that the session is for.
pub record MongoServer : Type 0 where
  pub name : String
  pub database_name : String

abbrev pub is_diagnostic : MongoCmdClass → Bool
is_diagnostic class_diagnostic = true
is_diagnostic class = false

abbrev names_server : String → Option MongoServer → Bool
names_server db_name none = false
names_server db_name (some db) = db_name =? db.database_name || db_name =? db.name

-- `mongoDatabaseAllowed`
pub mongo_database_allowed : String → MongoCmdClass → Option MongoServer → Bool
mongo_database_allowed db_name class db =
    if db_name =? ""
    then true
    else (if db_name =? "admin"
        then is_diagnostic class
        else (if db_name =? "$external"
            then false
            else (if db_name =? "local" || db_name =? "config"
                then false
                else names_server db_name db)))

-- The `switch` of `ValidateMongoCommand`: an answer at once, or on to the database check.
pub data Gate : Type 0 where
  refuse : MongoError → Gate
  allow go_on : Gate

pub gate : MongoCmdClass → List String → Gate
gate class_blocked controls = refuse mongo_command_blocked
gate class_list_databases controls = allow
gate class_unknown controls = refuse mongo_unknown_command
gate class_ddl controls =
    if is_read_only controls
    then refuse mongo_read_only
    else if should_block_ddl controls
    then refuse mongo_ddl_blocked
    else go_on
gate class_write controls = if is_read_only controls then refuse mongo_read_only else go_on
gate class_read controls = go_on
gate class_diagnostic controls = go_on

pub after_gate : Gate → Bool → Option MongoError
after_gate (refuse e) database_allowed = some e
after_gate allow database_allowed = none
after_gate go_on database_allowed = if database_allowed then none else some mongo_database_blocked

-- `ValidateMongoCommand`; `none` is the nil error.
pub validate_mongo_command :
    (lib : BsonLib)
    → String
    → String
    → lib.Raw
    → Option MongoServer
    → List String
    → Option MongoError
unfolding gate after_gate
validate_mongo_command lib cmd db_name body db controls =
    let class = classify_mongo_command lib cmd body in
    after_gate (gate class controls) (mongo_database_allowed db_name class db)
