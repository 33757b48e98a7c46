-- ===== src/Rkv/Channels.antt =====
-- file_cache_backend.rs, `persist` and `create_channel`, on the store of bytes: they do what Cache says
-- on a map of channels.
use strawberry_background.Prelude.{
  ℕ, String, String-eq, ◌≡◌, refl, ap, ◌∙◌, ==_refl, Bool, true, false, Option, none, some, List,
  Result, ok, err, if◌then◌else◌,
}
use strawberry_background.Prelude.Map.{HashMap, values}
use strawberry_background.Cache.{
  Tables, CacheChannel, CacheError, of_store, DefaultFileCacheManager,
}
use strawberry_background.Cache.Channel.{persist, persisted, channel_or_new}
use strawberry_background.Rkv.{
  Answer, done, failed, panicked, Value, RkvService, Faults, write_rkyv_cache_channel_data,
  read_rkyv_cache_channel_data,
}
use strawberry_background.Rkv.Keeping.{
  Represents, WriteMeans, written, refused, stopped, write_rkyv_cache_channel_data-WriteMeans, calm,
  read-write_rkyv_cache_channel_data,
}

module _ (T : Tables) (V : HashMap String Value String-eq)
    (to_bytes : CacheChannel → Result (List ℕ) String)
    (from_bytes : List ℕ → Result CacheChannel String) where
  open T use {records as RM, channels as SM}

  abbrev Manager : Type 0
  Manager = DefaultFileCacheManager T

  abbrev pub channel_of : Manager → CacheChannel
  channel_of self = record {
    name = self.name;
    extension = self.extension;
    records = values RM self.map;
  }

  pub kept :
      V.Map × Answer (Unit {0}) → Manager → V.Map × Manager × Answer (Result (Unit {0}) CacheError)
  kept (store, failed e) self = (store, self, done (err (of_store e)))
  kept (store, panicked) self = (store, self, panicked)
  kept (store, done _) self = (store, record self { dirty = false }, done (ok tt))

  -- The write by the service in `RKV_SERVICE`; without one that can be used the call panics.
  pub written_by : Option RkvService → Faults → V.Map → Manager → V.Map × Answer (Unit {0})
  written_by none w store self = (store, panicked)
  written_by (some service) w store self =
      write_rkyv_cache_channel_data V to_bytes from_bytes self.name (channel_of self) w service
        store

  unfoldable pub persist_bytes :
      Faults
      → Option RkvService
      → V.Map
      → Manager
      → V.Map × Manager × Answer (Result (Unit {0}) CacheError)
  unfolding kept written_by
  persist_bytes w service store self =
      if self.dirty
      then kept (written_by service w store self) self
      else (store, self, done (ok tt))

  pub channel_read :
      String
      → Option String
      → Answer (Option CacheChannel)
      → Answer (Result CacheChannel CacheError)
  channel_read name extension (failed e) = done (err (of_store e))
  channel_read name extension panicked = panicked
  channel_read name extension (done found) = done (ok (channel_or_new T found name extension))

  pub read_by : Option RkvService → String → Faults → V.Map → Answer (Option CacheChannel)
  read_by none name w store = panicked
  read_by (some service) name w store =
      read_rkyv_cache_channel_data V to_bytes from_bytes name w service store

  unfoldable pub create_channel_bytes :
      String
      → Option String
      → Faults
      → Option RkvService
      → V.Map
      → Answer (Result CacheChannel CacheError)
  unfolding channel_read read_by
  create_channel_bytes name extension w service store =
      channel_read name extension (read_by service name w store)

  -- What is done on the bytes is what is done on the map, for one of the answers of the store, or
  -- it is a panic that changes nothing.
  pub data PersistMeans (abstract : Option String → SM.Map × Manager × Result (Unit {0}) CacheError)
      (store : V.Map) (self : Manager)
      : V.Map × Manager × Answer (Result (Unit {0}) CacheError) → Type 0 where
    agreed :
        (fault : Option String) (next : V.Map)
        → Represents V SM to_bytes from_bytes next (abstract fault).0
        → PersistMeans abstract store self (next, (abstract fault).1, done (abstract fault).2)
    halted : PersistMeans abstract store self (store, self, panicked)

  kept-PersistMeans :
      (store : V.Map) (m : SM.Map) (self : Manager) (p : V.Map × Answer (Unit {0}))
      → Represents V SM to_bytes from_bytes store m
      → WriteMeans V SM to_bytes from_bytes self.name (channel_of self) store m p
      → PersistMeans (λ fault. persisted T fault m self) store self (kept p self)
  unfolding kept persisted
  kept-PersistMeans store m self _ rep (written next rep') = agreed none next rep'
  kept-PersistMeans store m self _ rep (refused e) = agreed (some e) store rep
  kept-PersistMeans store m self _ rep stopped = halted

  written_by-WriteMeans :
      (w : Faults) (service : Option RkvService) (store : V.Map) (m : SM.Map) (self : Manager)
      → ((bytes : List ℕ)
          → to_bytes (channel_of self) ≡ ok bytes
          → from_bytes bytes ≡ ok (channel_of self))
      → Represents V SM to_bytes from_bytes store m
      → WriteMeans V SM to_bytes from_bytes self.name
          (channel_of self)
          store
          m
          (written_by service w store self)
  unfolding written_by
  written_by-WriteMeans w none store m self back rep = stopped
  written_by-WriteMeans w (some service) store m self back rep =
      write_rkyv_cache_channel_data-WriteMeans V SM to_bytes from_bytes self.name (channel_of self)
        w service store m back rep

  -- On a store that represents a map of channels, `persist` leaves a store that represents the map
  -- which `persist` leaves on the map for one of its answers, with the same manager and the same
  -- result, or it panics and changes nothing, if the saved channel is read back from its bytes.
  pub persist_bytes-PersistMeans :
      (w : Faults) (service : Option RkvService) (store : V.Map) (m : SM.Map) (self : Manager)
      → ((bytes : List ℕ)
          → to_bytes (channel_of self) ≡ ok bytes
          → from_bytes bytes ≡ ok (channel_of self))
      → Represents V SM to_bytes from_bytes store m
      → PersistMeans
          (λ fault. persist T fault m self)
          store
          self
          (persist_bytes w service store self)
  unfolding persist persist_bytes
  persist_bytes-PersistMeans w service store m self back rep = go self.dirty
    where
      next : V.Map × Answer (Unit {0})
      next = written_by service w store self

      go :
          (b : Bool)
          → PersistMeans
              (λ fault. if b then persisted T fault m self else (m, self, ok tt))
              store
              self
              (if b then kept next self else (store, self, done (ok tt)))
      go true =
          kept-PersistMeans store m self next rep
            (written_by-WriteMeans w service store m self back rep)
      go false = agreed none store rep

  kept-store : (p : V.Map × Answer (Unit {0})) (self : Manager) → (kept p self).0 ≡ p.0
  unfolding kept
  kept-store (store, failed e) self = refl
  kept-store (store, panicked) self = refl
  kept-store (store, done _) self = refl

  -- After a changed manager is saved on an open service that refuses nothing, the channel that is made
  -- under its name is the one that was saved, if the channel has bytes that are read back.
  pub create_channel_bytes-persist_bytes :
      (extension : Option String) (env : ℕ) (service : RkvService) (bytes : List ℕ) (store : V.Map)
      (self : Manager)
      → self.dirty ≡ true
      → service.env ≡ some env
      → to_bytes (channel_of self) ≡ ok bytes
      → from_bytes bytes ≡ ok (channel_of self)
      → create_channel_bytes self.name extension calm
          (some service)
          (persist_bytes calm (some service) store self).0
        ≡ done (ok (channel_of self))
  unfolding persist_bytes create_channel_bytes written_by read_by
  create_channel_bytes-persist_bytes extension env service bytes store self changed opened encoded
        back =
      rw (changed, kept-store)
        (ap (channel_read self.name extension) (
          read-write_rkyv_cache_channel_data V SM to_bytes from_bytes self.name (channel_of self)
            env service bytes store self.name opened encoded back
          ∙ ap
              (λ b.
                if b
                then done (some (channel_of self))
                else read_rkyv_cache_channel_data V to_bytes from_bytes self.name calm service
                    store)
              (==_refl self.name)))
