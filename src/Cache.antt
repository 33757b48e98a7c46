-- ===== src/Cache.antt =====
-- superstructure/file_cache_backend.rs, `DefaultFileCacheManager`: files under a directory, found by a
-- tag and described by records that are saved in a store. The storage is the one of Storage; the
-- store (rkv) is a map, and the new file names (uuid) are given. A record whose lock is taken is a
-- call that finds `locked`. A call holds the lock of its record to the end.
pub mod AutoSave
pub mod Channel
pub mod Factory
pub mod Fetching
pub mod Saving
use Prim.Native.String.{◌++◌ as ◌<>◌}
use strawberry_background.Prelude.{
  ℕ, String, String-eq, Bool, true, false, not, ◌==◌, Option, none, some, List, [], ◌∷◌, Result, ok,
  err, if◌then◌else◌, length, is_none, map_err,
}
use strawberry_background.Prelude.Map.{HashMap, values}
use strawberry_background.Storage.{
  StorageError, Weather, WriteFile, ReadFile, cover, one_minute, read_path, read, write,
}

pub record CacheRecord : Type 0 where
  pub tag : String
  pub filename : String
  pub size : ℕ
  pub sentence : String

pub record CacheChannel : Type 0 where
  pub name : String
  pub extension : Option String
  pub records : List CacheRecord

-- The errors that carry the text of another error keep it.
pub data CacheError : Type 0 where
  io file_not_exist tag_not_exist manager_not_exist serialization timed_out : String → CacheError
  lock : CacheError
  of_storage : StorageError → CacheError
  of_store : String → CacheError

pub record Tables : Type 1 where
  pub files : HashMap String (List ℕ) String-eq
  pub records : HashMap String CacheRecord String-eq
  pub channels : HashMap String CacheChannel String-eq

module _ (T : Tables) where
  open T use {files as FM, records as RM}

  pub record DefaultFileCacheManager : Type 0 where
    pub name : String
    pub path : String
    pub extension : Option String
    pub dirty : Bool
    pub map : RM.Map

  abbrev pub extended : Option String → String → String
  extended none text = text
  extended (some e) text = text <> ("." <> e)

  unfoldable pub build_path : DefaultFileCacheManager → String → String
  build_path self filename = extended self.extension (self.path <> ("/" <> filename))

  abbrev io_step : Option String → Result (Unit {0}) CacheError
  io_step none = ok tt
  io_step (some e) = err (io e)

  -- `try_exists`, and then whether a file is there.
  abbrev exists_after : Option String → Bool → Result Bool CacheError
  exists_after none present = ok present
  exists_after (some e) present = err (io e)

  abbrev exists : Weather → String → FM.Map → Result Bool CacheError
  exists w path files = exists_after w.exists_fault (not (is_none (FM.get path files)))

  -- `create_new` and `sync_all`; the file is there even if the latter fails.
  created : Option String → Weather → String → FM.Map → FM.Map × Result (Unit {0}) CacheError
  created (some e) w path files = (files, err (io e))
  created none w path files = (FM.insert path [] files, io_step w.sync_fault)

  ensure_present :
      Result Bool CacheError → Weather → String → FM.Map → FM.Map × Result (Unit {0}) CacheError
  unfolding created
  ensure_present (err e) w path files = (files, err e)
  ensure_present (ok true) w path files = (files, ok tt)
  ensure_present (ok false) w path files = created w.create_fault w path files

  ensure_file_exist : Weather → String → FM.Map → FM.Map × Result (Unit {0}) CacheError
  unfolding ensure_present
  ensure_file_exist w path files = ensure_present (exists w path files) w path files

  abbrev request : String → List ℕ → WriteFile
  request path bytes = record {
    path = path;
    mode = cover;
    timeout = one_minute;
    ensure_mode = none;
    data' = bytes;
  }

  write_bytes :
      Weather
      → String
      → List ℕ
      → FM.Map × Result (Unit {0}) CacheError
      → FM.Map × Result (Unit {0}) CacheError
  write_bytes w path bytes (files, err e) = (files, err e)
  write_bytes w path bytes (files, ok _) =
      let d = write FM (request path bytes) w files in (d.files, map_err of_storage d.result)

  store_after :
      Option String → Weather → String → List ℕ → FM.Map → FM.Map × Result (Unit {0}) CacheError
  unfolding ensure_file_exist write_bytes
  store_after none w path bytes files = write_bytes w path bytes (ensure_file_exist w path files)
  store_after (some e) w path bytes files = (files, err (io e))

  -- The part that both branches of `cache` share.
  unfoldable pub store_bytes :
      Weather → String → List ℕ → FM.Map → FM.Map × Result (Unit {0}) CacheError
  unfolding store_after
  store_bytes w path bytes files = store_after w.directory_fault w path bytes files

  -- The state after a call of `cache`, and its result.
  pub record Cached : Type 0 where
    pub files : FM.Map
    pub manager : DefaultFileCacheManager
    pub result : Result (Unit {0}) CacheError

  cached :
      DefaultFileCacheManager
      → String
      → CacheRecord
      → FM.Map × Result (Unit {0}) CacheError
      → Cached
  cached self tag entry (files, err e) = record { files = files; manager = self; result = err e }
  cached self tag entry (files, ok _) = record {
    files = files;
    manager = record self { map = RM.insert tag entry self.map; dirty = true };
    result = ok tt;
  }

  cache_in :
      Option CacheRecord
      → String
      → String
      → List ℕ
      → String
      → Bool
      → Weather
      → FM.Map
      → DefaultFileCacheManager
      → Cached
  unfolding cached
  cache_in (some entry) tag sentence bytes uuid locked w files self =
      if locked
      then record { files = files; manager = self; result = err lock }
      else cached self tag (record entry { sentence = sentence; size = length bytes })
          (store_bytes w (build_path self entry.filename) bytes files)
  cache_in none tag sentence bytes uuid locked w files self =
      cached self tag
        (record { tag = tag; filename = uuid; size = length bytes; sentence = sentence })
        (store_bytes w (build_path self uuid) bytes files)

  unfoldable pub cache :
      String → String → List ℕ → String → Bool → Weather → FM.Map → DefaultFileCacheManager → Cached
  unfolding cache_in
  cache tag sentence bytes uuid locked w files self =
      cache_in (RM.get tag self.map) tag sentence bytes uuid locked w files self

  -- The record of a tag, under its lock.
  abbrev entry_of : Option CacheRecord → String → Bool → Result CacheRecord CacheError
  entry_of none tag locked = err (tag_not_exist tag)
  entry_of (some entry) tag locked = if locked then err lock else ok entry

  unfoldable pub record_of : String → Bool → DefaultFileCacheManager → Result CacheRecord CacheError
  record_of tag locked self = entry_of (RM.get tag self.map) tag locked

  compare_sentence : String → Result Bool CacheError → CacheRecord → Result Bool CacheError
  compare_sentence sentence (err e) entry = err e
  compare_sentence sentence (ok present) entry =
      if present then ok (not (entry.sentence == sentence)) else ok true

  update_entry :
      String
      → Weather
      → FM.Map
      → DefaultFileCacheManager
      → Result CacheRecord CacheError
      → Result Bool CacheError
  unfolding compare_sentence
  update_entry sentence w files self (err e) = err e
  update_entry sentence w files self (ok entry) =
      compare_sentence sentence (exists w (build_path self entry.filename) files) entry

  unfoldable pub should_update :
      String → String → Bool → Weather → FM.Map → DefaultFileCacheManager → Result Bool CacheError
  unfolding record_of update_entry
  should_update tag sentence locked w files self =
      update_entry sentence w files self (record_of tag locked self)

  present_path : String → Result Bool CacheError → Result String CacheError
  present_path path (err e) = err e
  present_path path (ok present) = if present then ok path else err (file_not_exist path)

  path_entry :
      Weather
      → FM.Map
      → DefaultFileCacheManager
      → Result CacheRecord CacheError
      → Result String CacheError
  unfolding present_path
  path_entry w files self (err e) = err e
  path_entry w files self (ok entry) =
      present_path (build_path self entry.filename)
        (exists w (build_path self entry.filename) files)

  unfoldable pub path_of :
      String → Bool → Weather → FM.Map → DefaultFileCacheManager → Result String CacheError
  unfolding record_of path_entry
  path_of tag locked w files self = path_entry w files self (record_of tag locked self)

  read_at : Weather → FM.Map → Result String CacheError → Result (List ℕ) CacheError
  read_at w files (err e) = err e
  read_at w files (ok path) = map_err of_storage (read FM (read_path path) w files).result

  -- `fetch` makes the tests of `path`; the storage asks for the file's existence again (`later`).
  unfoldable pub fetch :
      String
      → Bool
      → Weather
      → Weather
      → FM.Map
      → DefaultFileCacheManager
      → Result (List ℕ) CacheError
  unfolding path_of read_at
  fetch tag locked w later files self = read_at later files (path_of tag locked w files self)

  -- `flush` does nothing.
  pub flush :
      String → DefaultFileCacheManager → DefaultFileCacheManager × Result (Unit {0}) CacheError
  flush tag self = (self, ok tt)
