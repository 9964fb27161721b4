-- ===== src/StorageAdapters/Bucket.antt =====
-- lib/storage/s3Storage.ts, and S3StorageAdapter of lib/storage/storageAdapter.ts: the adapter over
-- a bucket. `S3Client` stands for the commands that are sent, with the configuration bound.
use mirai_app.Prelude.{
  ℕ, String, Bool, true, false, ◌||◌, Option, none, some, List, [], map, nat_eq, str_eq,
  if◌then◌else◌,
}
use mirai_app.Prelude.Js.{Outcome, done, failed, Thrown, concat, or_text, truthy?}
use mirai_app.StorageAdapters.{Adapter, json_only}

-- A HEAD request: the object, or an error with its name and the status of its metadata.
pub data HeadResult : Type 0 where
  found : HeadResult
  refused : String → Option ℕ → Thrown → HeadResult

-- `T` is the type of the texts in the bucket.
pub record S3Client (S T : Type 0) : Type 0 where
  pub get_object : String → S → Outcome T
  pub put_object : String → T → S → Outcome (Unit {0}) × S
  pub list_objects : String → S → Outcome (Option (List (Option String)))
  pub delete_object : String → S → Outcome (Unit {0}) × S
  pub head_object : String → S → HeadResult

-- The variables of the environment, and what the constructor keeps of them.
pub record Environment : Type 0 where
  pub endpoint : Option String
  pub region : Option String
  pub bucket : Option String
  pub base_path : Option String
  pub access_key : Option String
  pub secret_key : Option String

pub record S3Config : Type 0 where
  pub endpoint : String
  pub region : String
  pub bucket : String
  pub base_path : String

-- `constructor`.
unfoldable pub s3_storage : Environment → Outcome S3Config
s3_storage env =
    if truthy? env.access_key
    then if truthy? env.secret_key
      then done (record {
        endpoint = or_text env.endpoint "http://192.168.1.226:9768";
        region = or_text env.region "us-east-1";
        bucket = or_text env.bucket "mirai";
        base_path = or_text env.base_path "data";
      })
      else failed missing_keys
    else failed missing_keys
  where
    missing_keys : Thrown
    missing_keys =
        Thrown.plain
          "S3_ACCESS_KEY and S3_SECRET_KEY environment variables are required. Never hardcode credentials in source code!"

-- `item.Key || ''`.
abbrev key_of : Option String → String
key_of k = or_text k ""

module _ {S T J : Type 0} (client : S3Config → S3Client S T) (stringify : J → T)
    (parse : T → Outcome J) (basename : String → String) (env : Environment) where
  unfoldable pub object_key : S3Config → String → String
  unfolding concat
  object_key config key = concat config.base_path (concat "/" key)

  unfoldable pub read_json : String → S → Outcome J
  unfolding s3_storage object_key
  read_json key s = elim (s3_storage env) [
    | failed e ↦ failed e
    | done config ↦ elim ((client config).get_object (object_key config key) s) [
      | failed e ↦ failed e
      | done str ↦ parse str
    ]
  ]

  unfoldable pub write_json : String → J → S → Outcome (Unit {0}) × S
  unfolding s3_storage object_key
  write_json key data_value s = elim (s3_storage env) [
    | failed e ↦ (failed e, s)
    | done config ↦ (client config).put_object (object_key config key) (stringify data_value) s
  ]

  -- `listFiles` of the storage, and of the adapter.
  abbrev listed : Option (List (Option String)) → List String
  listed none = []
  listed (some items) = json_only (map key_of items)

  unfoldable pub list_files : String → S → Outcome (List String)
  unfolding s3_storage object_key json_only
  list_files prefix s = elim (s3_storage env) [
    | failed e ↦ failed e
    | done config ↦ elim ((client config).list_objects (object_key config prefix) s) [
      | failed e ↦ failed e
      | done contents ↦ done (map basename (listed contents))
    ]
  ]

  unfoldable pub delete_object : String → S → Outcome (Unit {0}) × S
  unfolding s3_storage object_key
  delete_object key s = elim (s3_storage env) [
    | failed e ↦ (failed e, s)
    | done config ↦ (client config).delete_object (object_key config key) s
  ]

  abbrev is_missing : String → Option ℕ → Bool
  is_missing name none = str_eq name "NotFound"
  is_missing name (some status) = str_eq name "NotFound" || nat_eq status 404

  unfoldable pub object_exists : String → S → Outcome Bool
  unfolding s3_storage object_key
  object_exists key s = elim (s3_storage env) [
    | failed e ↦ failed e
    | done config ↦ elim ((client config).head_object (object_key config key) s) [
      | found ↦ done true
      | refused name status e ↦ if is_missing name status then done false else failed e
    ]
  ]

  -- `S3StorageAdapter`: there are no directories to ensure.
  abbrev pub s3_adapter : Adapter S J
  s3_adapter = record {
    read_json = read_json;
    write_json = write_json;
    list_files = list_files;
    ensure_directory = λ directory s. (done tt, s);
    delete_file = delete_object;
    exists = object_exists;
  }
