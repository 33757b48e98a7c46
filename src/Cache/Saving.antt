-- ===== src/Cache/Saving.antt =====
-- file_cache_backend.rs: a manager that is made from the channel which another one saved.
use strawberry_background.Prelude.{
  ℕ, String, String-eq, ◌≡◌, refl, ap, ◌∙◌, subst, Bool, true, false, Option, none, some, List, [],
  ◌∷◌, Result, ok, err, if◌then◌else◌, ==_refl,
}
use strawberry_background.Prelude.Map.{values}
use strawberry_background.Prelude.Map.Collect.{IsKeyed, collect, collect-values, insert-IsKeyed}
use strawberry_background.Storage.{Weather}
use strawberry_background.Cache.{
  Tables, CacheError, CacheRecord, CacheChannel, DefaultFileCacheManager, cache, cache_in, cached,
  store_bytes, build_path,
}
use strawberry_background.Cache.Channel.{
  insert_records, new, persist, persisted, create_channel, channel_or_new,
}

module _ (T : Tables) where
  open T use {files as FM, records as RM, channels as SM}

  abbrev tag_of : CacheRecord → String
  tag_of r = r.tag

  -- Every record stands under its own tag.
  abbrev pub IsTagged : RM.Map → Type 0
  IsTagged m = IsKeyed RM tag_of m

  insert_records-collect :
      (rs : List CacheRecord) (m : RM.Map) → insert_records T rs m ≡ collect RM tag_of rs m
  unfolding insert_records
  insert_records-collect [] m = refl
  insert_records-collect (r ∷ rs) m = insert_records-collect rs (RM.insert r.tag r m)

  -- A map is found again from the records that it holds.
  insert_records-values :
      (m : RM.Map) (t : String)
      → IsTagged m
      → RM.get t (insert_records T (values RM m) RM.empty) ≡ RM.get t m
  insert_records-values m t tagged =
      ap (RM.get t) (insert_records-collect (values RM m) RM.empty)
      ∙ collect-values RM tag_of m t tagged

  abbrev saved : DefaultFileCacheManager T → CacheChannel
  saved self = record { name = self.name; extension = self.extension; records = values RM self.map }

  -- When a manager with unsaved changes persists and the store answers, the factory's channel for
  -- its name carries its name and extension, and a manager that is made from the channel finds under
  -- every tag the record that the saved one has, if each record of that one stands under its own tag.
  pub create_channel-persist :
      (store : SM.Map) (self : DefaultFileCacheManager T) (path : String)
      (extension : Option String)
      → self.dirty ≡ true
      → IsTagged self.map
      → (c : CacheChannel) × (create_channel T none self.name extension
            (persist T none store self).0
          ≡ ok c)
        × ((new T path c).name ≡ self.name)
        × ((new T path c).extension ≡ self.extension)
        × ((t : String) → RM.get t (new T path c).map ≡ RM.get t self.map)
  unfolding create_channel persist persisted new
  create_channel-persist store self path extension dirty tagged = (
    saved self,
    ap
          (λ b. ok (
            channel_or_new T
              (SM.get self.name (if b then persisted T none store self else (store, self, ok tt)).0)
              self.name extension))
          dirty
        ∙ ap (λ o. ok (channel_or_new T o self.name extension))
            (SM.get-insert self.name self.name _ store
              ∙ ap (λ b. if b then some (saved self) else SM.get self.name store)
                  (==_refl self.name)),
    refl,
    refl,
    λ t. insert_records-values self.map t tagged,
  )

  pub insert-IsTagged :
      (k : String) (r : CacheRecord) (m : RM.Map)
      → r.tag ≡ k
      → IsTagged m
      → IsTagged (RM.insert k r m)
  insert-IsTagged k r m same tagged =
      subst (λ t. IsTagged (RM.insert t r m)) same (insert-IsKeyed RM tag_of r m tagged)

  cached-IsTagged :
      (self : DefaultFileCacheManager T) (tag : String) (entry : CacheRecord)
      (p : FM.Map × Result (Unit {0}) CacheError)
      → entry.tag ≡ tag
      → IsTagged self.map
      → IsTagged (cached T self tag entry p).manager.map
  unfolding cached
  cached-IsTagged self tag entry (files, err e) same tagged = tagged
  cached-IsTagged self tag entry (files, ok _) same tagged =
      insert-IsTagged tag entry self.map same tagged

  cache_in-IsTagged :
      (o : Option CacheRecord) (tag sentence : String) (bytes : List ℕ) (uuid : String)
      (locked : Bool) (w : Weather) (files : FM.Map) (self : DefaultFileCacheManager T)
      → RM.get tag self.map ≡ o
      → IsTagged self.map
      → IsTagged (cache_in T o tag sentence bytes uuid locked w files self).manager.map
  unfolding cache_in
  cache_in-IsTagged none tag sentence bytes uuid locked w files self e tagged =
      cached-IsTagged self tag _ (store_bytes T w (build_path T self uuid) bytes files) refl tagged
  cache_in-IsTagged (some entry) tag sentence bytes uuid true w files self e tagged = tagged
  cache_in-IsTagged (some entry) tag sentence bytes uuid false w files self e tagged =
      cached-IsTagged self tag _ (store_bytes T w (build_path T self entry.filename) bytes files)
        (tagged tag entry e) tagged

  -- Whatever `cache` answers, every record still stands under its own tag if each one did.
  pub cache-IsTagged :
      (tag sentence : String) (bytes : List ℕ) (uuid : String) (locked : Bool) (w : Weather)
      (files : FM.Map) (self : DefaultFileCacheManager T)
      → IsTagged self.map
      → IsTagged (cache T tag sentence bytes uuid locked w files self).manager.map
  unfolding cache
  cache-IsTagged tag sentence bytes uuid locked w files self tagged =
      cache_in-IsTagged (RM.get tag self.map) tag sentence bytes uuid locked w files self refl
        tagged
