-- ===== src/Tests/Cached.antt =====
-- The file cache.
use strawberry_background.Prelude.{
  String, String-eq, ◌≡◌, ◌≢◌, refl, true, false, none, [], ◌∷◌, ◌++◌, drop, ok,
}
use strawberry_background.Prelude.Map.Assoc.{assoc}
use strawberry_background.Storage.{Weather, complete, write}
use strawberry_background.Cache.Saving.{IsTagged, insert-IsTagged, create_channel-persist}
use strawberry_background.Cache.{
  CacheChannel, Tables, CacheRecord, DefaultFileCacheManager, cache, fetch, build_path, store_bytes,
}
use strawberry_background.Cache.Channel.{create_channel, persist, new}
use strawberry_background.Cache.Factory.{create_with_name}
use strawberry_background.Cache.Factory.Singleton.{IsNamed}
use strawberry_background.Cache.Fetching.{fetch-cache, contents}

abbrev tables : Tables
tables = record { files = assoc; records = assoc; channels = assoc }

abbrev calm : Weather
calm = record {
  exists_fault = none;
  directory_fault = none;
  create_fault = none;
  sync_fault = none;
  open_fault = none;
  reading = complete;
  writing = complete;
  arrived = none;
  ensuring = complete;
}

abbrev note : CacheRecord
note = record { tag = "note"; filename = "n1"; size = 3; sentence = "v1" }

abbrev manager : DefaultFileCacheManager tables
manager = record {
  name = "notes";
  path = "cache";
  extension = none;
  dirty = false;
  map = tables.records.insert "note" note tables.records.empty;
}

abbrev files : tables.files.Map
files = tables.files.insert "cache/n1" (1 ∷ 2 ∷ 3 ∷ []) tables.files.empty

shorter : (cache tables "note" "v2" (9 ∷ []) "unused" false calm files manager).result ≡ ok tt
unfolding cache store_bytes build_path write
shorter = refl

-- One byte is cached over three, and three are fetched.
fetch-cache_example :
    fetch tables "note" false calm calm
      (cache tables "note" "v2" (9 ∷ []) "unused" false calm files manager).files
      (cache tables "note" "v2" (9 ∷ []) "unused" false calm files manager).manager
    ≡ ok ((9 ∷ []) ++ drop 1 (contents tables (build_path tables manager "n1") files))
fetch-cache_example =
    fetch-cache tables "note" "v2" (9 ∷ []) "unused" false calm calm calm files manager refl shorter
      refl refl refl

locked_out : (cache tables "note" "v2" (9 ∷ []) "unused" true calm files manager).result ≢ ok tt
unfolding cache
locked_out = λ e. cc e

manager-IsTagged : IsTagged tables manager.map
manager-IsTagged = insert-IsTagged tables "note" note tables.records.empty refl (λ k r e. cc e)

abbrev unsaved : DefaultFileCacheManager tables
unsaved = record manager { dirty = true }

create_channel-persist_example :
    (c : CacheChannel) × (create_channel tables none "notes" none
        (persist tables none tables.channels.empty unsaved).0
      ≡ ok c)
    × ((new tables "cache" c).name ≡ "notes")
    × ((new tables "cache" c).extension ≡ none)
    × ((t : String)
        → tables.records.get t (new tables "cache" c).map ≡ tables.records.get t unsaved.map)
create_channel-persist_example =
    create_channel-persist tables tables.channels.empty unsaved "cache" none refl manager-IsTagged

IsNamed-nothing : IsNamed tables assoc (λ c. 7) tables.channels.empty
IsNamed-nothing name c e = cc e

first_made :
    (create_with_name tables assoc (λ c. 7) none "notes" none tables.channels.empty assoc.empty).1
    ≡ ok 7
unfolding create_with_name create_channel
first_made = refl
