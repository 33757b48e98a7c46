-- ===== src/Cache/Channel.antt =====
-- file_cache_backend.rs: the channel in which a manager saves its records, and the manager that is
-- made from one.
use strawberry_background.Prelude.{
  String, String-eq, false, Option, none, some, List, [], ◌∷◌, Result, ok, err, if◌then◌else◌,
}
use strawberry_background.Prelude.Map.{values}
use strawberry_background.Cache.{
  Tables, CacheRecord, CacheChannel, CacheError, of_store, DefaultFileCacheManager,
}

module _ (T : Tables) where
  open T use {records as RM, channels as SM}

  unfoldable pub insert_records : List CacheRecord → RM.Map → RM.Map
  insert_records [] m = m
  insert_records (r ∷ rs) m = insert_records rs (RM.insert r.tag r m)

  -- Opening the store, which can panic, is `store_opened` of Runtime.
  unfoldable pub new : String → CacheChannel → DefaultFileCacheManager T
  unfolding insert_records
  new path channel = record {
    name = channel.name;
    path = path;
    extension = channel.extension;
    dirty = false;
    map = insert_records channel.records RM.empty;
  }

  -- `persist`, and what the store answers to the write.
  unfoldable pub persisted :
      Option String
      → SM.Map
      → DefaultFileCacheManager T
      → SM.Map × DefaultFileCacheManager T × Result (Unit {0}) CacheError
  persisted (some e) store self = (store, self, err (of_store e))
  persisted none store self = (
    SM.insert self.name
        (record { name = self.name; extension = self.extension; records = values RM self.map })
        store,
    record self { dirty = false },
    ok tt,
  )

  unfoldable pub persist :
      Option String
      → SM.Map
      → DefaultFileCacheManager T
      → SM.Map × DefaultFileCacheManager T × Result (Unit {0}) CacheError
  unfolding persisted
  persist fault store self = if self.dirty then persisted fault store self else (store, self, ok tt)

  -- The factory's `create_channel`, and what the store answers to the read.
  abbrev pub channel_or_new : Option CacheChannel → String → Option String → CacheChannel
  channel_or_new (some channel) name extension = channel
  channel_or_new none name extension = record { name = name; extension = extension; records = [] }

  unfoldable pub create_channel :
      Option String → String → Option String → SM.Map → Result CacheChannel CacheError
  create_channel (some e) name extension store = err (of_store e)
  create_channel none name extension store = ok (channel_or_new (SM.get name store) name extension)
