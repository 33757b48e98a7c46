-- ===== src/Tests/Stores.antt =====
-- The store of the channels, and saving at intervals.
use strawberry_background.Prelude.{
  ℕ, String, String-eq, true, false, ◌≡◌, refl, ◌==◌, none, some, List, [], ◌∷◌, Result, ok, err,
  if◌then◌else◌, inl, inr,
}
use strawberry_background.Prelude.Map.Assoc.{assoc}
use strawberry_background.Cache.{CacheChannel, DefaultFileCacheManager}
use strawberry_background.Cache.Channel.{persist}
use strawberry_background.Cache.AutoSave.{start_auto_save, start_auto_save-saves, saved_of}
use strawberry_background.Rkv.{RkvService, initialize_rkv, init_db, done}
use strawberry_background.Rkv.Keeping.{calm, empty-Represents}
use strawberry_background.Rkv.Channels.{
  persist_bytes, create_channel_bytes, PersistMeans, persist_bytes-PersistMeans,
  create_channel_bytes-persist_bytes,
}
use strawberry_background.Tests.Libraries.{tables}

abbrev noted : DefaultFileCacheManager tables
noted = record {
  name = "notes";
  path = "cache/notes";
  extension = none;
  dirty = true;
  map =
      assoc.insert "n" (record { tag = "n"; filename = "f"; size = 2; sentence = "v" }) assoc.empty;
}

-- The code of one channel.
abbrev to_bytes : CacheChannel → Result (List ℕ) String
to_bytes c = if c.name == "notes" then ok (1 ∷ []) else err "unknown"

abbrev from_bytes : List ℕ → Result CacheChannel String
from_bytes [] = err "empty"
from_bytes (_ ∷ _) = ok (saved_of tables noted)

abbrev service : RkvService
service = record { main_path = "store"; env = some 3 }

initialize_rkv_twice :
    initialize_rkv false "other" (initialize_rkv false "store" none)
    ≡ some (record { main_path = "store"; env = none })
unfolding initialize_rkv
initialize_rkv_twice = refl

init_db_opens :
    init_db "file_cache"
      (record {
        directory = none;
        manager = none;
        created = some 3;
        poisoned = false;
        opened = none;
      })
      (record { main_path = "store"; env = none })
    ≡ (service, done "file_cache")
unfolding init_db
init_db_opens = refl

-- The bytes of `noted` are read back.
back :
    (bytes : List ℕ)
    → to_bytes (saved_of tables noted) ≡ ok bytes
    → from_bytes bytes ≡ ok (saved_of tables noted)
back [] e = absurd (cc e)
back (_ ∷ _) e = refl

persist_bytes-PersistMeans_example :
    PersistMeans tables assoc to_bytes from_bytes
      (λ fault. persist tables fault assoc.empty noted)
      assoc.empty
      noted
      (persist_bytes tables assoc to_bytes from_bytes calm (some service) assoc.empty noted)
persist_bytes-PersistMeans_example =
    persist_bytes-PersistMeans tables assoc to_bytes from_bytes calm (some service) assoc.empty
      assoc.empty noted back (empty-Represents assoc assoc to_bytes from_bytes)

create_channel_bytes-persist_bytes_example :
    create_channel_bytes tables assoc to_bytes from_bytes "notes" none calm
      (some service)
      (persist_bytes tables assoc to_bytes from_bytes calm (some service) assoc.empty noted).0
    ≡ done (ok (saved_of tables noted))
create_channel_bytes-persist_bytes_example =
    create_channel_bytes-persist_bytes tables assoc to_bytes from_bytes none 3 service (1 ∷ [])
      assoc.empty noted refl refl refl refl

start_auto_save-saves_example :
    start_auto_save tables (some "busy" ∷ none ∷ none ∷ []) assoc.empty noted
    ≡ (assoc.insert "notes" (saved_of tables noted) assoc.empty, record noted { dirty = false })
start_auto_save-saves_example =
    start_auto_save-saves tables (some "busy" ∷ none ∷ none ∷ []) assoc.empty noted refl
      (inr (inl refl))
