-- ===== src/Cookie/File.antt =====
-- Saving the cookies to a file and loading them: `persist`, `load`, `new` and `start_auto_save` of
-- infrastructure/http/cookie_backend.rs.
pub mod Changes
pub mod Reload
use strawberry_background.Prelude.{
  ℕ, String, String-eq, Bool, true, false, not, Option, none, some, List, [], ◌∷◌, Result, ok, err,
  ltb, is_none, if◌then◌else◌, filter, unwrap_or,
}
use strawberry_background.Prelude.Text.{Text}
use strawberry_background.Prelude.Map.{HashMap, values}
use strawberry_background.Prelude.Map.Collect.{collect}
use strawberry_background.Storage.{Ending, complete, broken, late}
use strawberry_background.Cookie.{
  Cookie, CookieKey, CookieKey-eq, CookieError, CookieConfig, SerializableStore, Json,
  serialization, io, timeout, FileBackedCookieStore,
}

abbrev pub key_of : Cookie → CookieKey
key_of cookie = cookie.key

-- The cookies that a load keeps.
abbrev pub later_than : ℕ → Option ℕ → Bool
later_than now none = true
later_than now (some expires) = ltb now expires

abbrev pub is_kept : ℕ → Cookie → Bool
is_kept now cookie = later_than now cookie.expires

-- `Elapsed`, as tokio prints it.
abbrev elapsed : String
elapsed = "deadline has elapsed"

module _ (C : HashMap CookieKey Cookie CookieKey-eq) (F : HashMap String Text String-eq)
    (J : Json) where
  abbrev Store : Type 0
  Store = FileBackedCookieStore C

  -- What a write that was interrupted leaves: nothing new, if the file could not be opened.
  left_behind : Option Text → String → F.Map → F.Map
  left_behind none path files = files
  left_behind (some text) path files = F.insert path text files

  -- `tokio::fs::write` empties the file first.
  write_json :
      Ending (Option Text)
      → String
      → Result Text String
      → F.Map
      → F.Map × Result (Unit {0}) CookieError
  unfolding left_behind
  write_json w path (err e) files = (files, err (serialization e))
  write_json complete path (ok json) files = (F.insert path json files, ok tt)
  write_json (broken e left) path (ok json) files = (left_behind left path files, err (io e))
  write_json (late left) path (ok json) files = (left_behind left path files, err (timeout elapsed))

  persist_at :
      Option String
      → ℕ
      → Ending (Option Text)
      → Store
      → F.Map
      → F.Map × Result (Unit {0}) CookieError
  unfolding write_json
  persist_at none now w self files = (files, ok tt)
  persist_at (some path) now w self files =
      write_json w path
        (J.to_string_pretty (record { cookies = values C self.cookies; saved_at = now })) files

  unfoldable pub persist :
      ℕ → Ending (Option Text) → Store → F.Map → F.Map × Result (Unit {0}) CookieError
  unfolding persist_at
  persist now w self files = persist_at self.storage_path now w self files

  load_parsed : ℕ → Result SerializableStore String → Store → Store × Result (Unit {0}) CookieError
  load_parsed now (err e) self = (self, err (serialization e))
  load_parsed now (ok serializable) self = (
    record self { cookies = collect C key_of (filter (is_kept now) serializable.cookies) C.empty },
    ok tt,
  )

  load_contents : ℕ → Option String → Option Text → Store → Store × Result (Unit {0}) CookieError
  unfolding load_parsed
  load_contents now fault none self = (self, ok tt)
  load_contents now (some e) (some json) self = (self, err (io e))
  load_contents now none (some json) self = load_parsed now (J.from_str json) self

  load_at :
      Option String → ℕ → Option String → F.Map → Store → Store × Result (Unit {0}) CookieError
  unfolding load_contents
  load_at none now fault files self = (self, ok tt)
  load_at (some path) now fault files self = load_contents now fault (F.get path files) self

  -- A fault is one of `read_to_string`.
  unfoldable pub load : ℕ → Option String → F.Map → Store → Store × Result (Unit {0}) CookieError
  unfolding load_at
  load now fault files self = load_at self.storage_path now fault files self

  loaded : Store × Result (Unit {0}) CookieError → Result Store CookieError
  loaded (store, ok _) = ok store
  loaded (store, err e) = err e

  unfoldable pub new_store : CookieConfig → Store
  new_store config = record {
    cookies = collect C key_of (unwrap_or config.initial_cookies []) C.empty;
    session_cookies = C.empty;
    config = config;
    storage_path = config.cookie_path;
    dirty = false;
  }

  unfoldable pub new : ℕ → Option String → F.Map → CookieConfig → Result Store CookieError
  unfolding loaded
  new now fault files config = loaded (load now fault files (new_store config))

  -- One tick of the task that `start_auto_save` spawns, which only prints an error.
  unfoldable pub auto_save : ℕ → Ending (Option Text) → Store → F.Map → F.Map
  auto_save now w self files = if self.dirty then (persist now w self files).0 else files
