-- ===== src/StorageAdapters/Local.antt =====
-- lib/storage/storageAdapter.ts, LocalStorageAdapter: the adapter over the file system. `join` and
-- `dirname` stand for Node's path module, `FileSystem` for fs/promises.
use mirai_app.Prelude.{String, Bool, true, false, List, []}
use mirai_app.Prelude.Js.{Outcome, done, failed}
use mirai_app.StorageAdapters.{Adapter, json_only}

-- `T` is the type of the texts in the files.
pub record FileSystem (F T : Type 0) : Type 0 where
  pub read_file : String → F → Outcome T
  pub write_file : String → T → F → Outcome (Unit {0}) × F
  pub readdir : String → F → Outcome (List String)
  pub make_directory : String → F → Outcome (Unit {0}) × F
  pub unlink : String → F → Outcome (Unit {0}) × F
  pub access : String → F → Outcome (Unit {0})

module _ {F T J : Type 0} (fs : FileSystem F T) (path_join : String → String → String)
    (dirname : String → String) (stringify : J → T) (parse : T → Outcome J)
    (base_path : String) where
  unfoldable pub read_json : String → F → Outcome J
  read_json file_path s = elim (fs.read_file (path_join base_path file_path) s) [
    | failed e ↦ failed e
    | done content ↦ parse content
  ]

  unfoldable pub ensure_directory : String → F → Outcome (Unit {0}) × F
  ensure_directory directory s = fs.make_directory (path_join base_path directory) s

  -- The directory that is ensured is the full path's, below the base path once more.
  unfoldable pub write_json : String → J → F → Outcome (Unit {0}) × F
  unfolding ensure_directory
  write_json file_path data_value s =
      let full_path = path_join base_path file_path in
      let (made, s1) = ensure_directory (dirname full_path) s in
      elim made [
        | failed e ↦ (failed e, s1)
        | done u ↦ fs.write_file full_path (stringify data_value) s1
      ]

  unfoldable pub list_files : String → F → Outcome (List String)
  unfolding json_only
  list_files directory s = elim (fs.readdir (path_join base_path directory) s) [
    | failed e ↦ done []
    | done files ↦ done (json_only files)
  ]

  unfoldable pub delete_file : String → F → Outcome (Unit {0}) × F
  delete_file file_path s = fs.unlink (path_join base_path file_path) s

  unfoldable pub exists : String → F → Outcome Bool
  exists file_path s = elim (fs.access (path_join base_path file_path) s) [
    | failed e ↦ done false
    | done u ↦ done true
  ]

  abbrev pub local_adapter : Adapter F J
  local_adapter = record {
    read_json = read_json;
    write_json = write_json;
    list_files = list_files;
    ensure_directory = ensure_directory;
    delete_file = delete_file;
    exists = exists;
  }
