-- ===== src/Runtime/Services/Caching.antt =====
-- What the cache of the runtime gives back.
use strawberry_background.Prelude.{
  ok-injective, ℕ, String, Bool, false, ◌≡◌, refl, ap, sym, ◌∙◌, subst, Option, none, some, List,
  ◌++◌, length, drop, Result, ok, err, if◌then◌else◌, nat_eq_iff,
}
use strawberry_background.Storage.{Weather, complete}
use strawberry_background.Cache.{CacheError, cache, fetch, build_path}
use strawberry_background.Cache.Factory.{get_with_name}
use strawberry_background.Cache.Fetching.{fetch-cache, contents, name_of}
use strawberry_background.Runtime.{
  Libraries, ServiceRuntime, ServiceError, Factory, Manager, updated,
}
use strawberry_background.Runtime.Services.{
  manager_of, managed, manager_for, asked, placed, changed, called, file_cache_cache,
  file_cache_fetch,
}

module _ (G : Libraries) where
  open G use {tables as T, handles as N}
  open T use {files as FM}

  manager_of-placed :
      (factory : Factory G) (r : Result ℕ CacheError) (handle : ℕ) (before after : Manager G)
      → manager_of G factory r ≡ ok (handle, before)
      → manager_of G (record factory { objects = updated G handle after factory.objects }) r
        ≡ ok (handle, after)
  unfolding manager_of
  manager_of-placed factory (err e) handle before after h = cc h
  manager_of-placed factory (ok other) handle before after h =
      let same : other ≡ handle = ap (λ (p : ℕ × Manager G). p.0) (ok-injective h) in
      subst
        (λ i.
          ◌≡◌ {A = Result (ℕ × Manager G) CacheError}
            (ok (i, updated G handle after factory.objects i)) (ok (handle, after)))
        (sym same)
        (ap (λ b. ok (handle, if b then after else factory.objects handle))
          ((nat_eq_iff handle handle).1 refl))

  managed-placed :
      (o : Option (Factory G)) (channel : String) (handle : ℕ) (before after : Manager G)
      → managed G o channel ≡ ok (ok (handle, before))
      → managed G (placed G handle after o) channel ≡ ok (ok (handle, after))
  unfolding managed placed
  managed-placed none channel handle before after h = cc h
  managed-placed (some factory) channel handle before after h = ap ok (
      manager_of-placed factory (get_with_name T N (λ c. 0) channel factory.managers) handle before
        after (ok-injective h))

  -- What a fetch returns after bytes are cached under a tag by the manager: the bytes, followed by what
  -- the tag's file held beyond their length.
  abbrev pub fetched : String → String → List ℕ → FM.Map → Manager G → List ℕ
  fetched tag uuid bytes files manager =
      bytes
      ++ drop (length bytes)
          (contents T (build_path T manager (name_of T (T.records.get tag manager.map) uuid)) files)

  -- When `file_cache_cache` succeeds for a channel and all its bytes have arrived in the file, then
  -- there is a manager for the channel, and `file_cache_fetch` for the channel and the tag, whose record
  -- is not locked and whose calls of the file system succeed, returns the bytes, followed by what the
  -- manager's file for the tag held beyond their length before.
  pub file_cache_fetch-file_cache_cache :
      (channel tag sentence : String) (bytes : List ℕ) (uuid : String) (locked : Bool)
      (w v later : Weather) (files : FM.Map) (self : ServiceRuntime G)
      → w.arrived ≡ none
      → (file_cache_cache G channel tag sentence bytes uuid locked w files self).result ≡ ok (ok tt)
      → v.exists_fault ≡ none
      → later.exists_fault ≡ none
      → later.reading ≡ complete
      → (handle : ℕ) × (manager : Manager G) × (manager_for G channel self
          ≡ ok (ok (handle, manager)))
        × (file_cache_fetch G channel tag false v later
              (file_cache_cache G channel tag sentence bytes uuid locked w files self).outside
              (file_cache_cache G channel tag sentence bytes uuid locked w files self).runtime
            ≡ ok (ok (fetched tag uuid bytes files manager)))
  unfolding file_cache_cache file_cache_fetch called asked manager_for changed
  file_cache_fetch-file_cache_cache channel tag sentence bytes uuid locked w v later files self n h
        x y z =
      go (manager_for G channel self) refl h
    where
      call : FM.Map → Manager G → FM.Map × Manager G × Result (Unit {0}) CacheError
      call outside manager =
          let c = cache T tag sentence bytes uuid locked w outside manager in
          (c.files, c.manager, c.result)

      go :
          (r : Result (Result (ℕ × Manager G) CacheError) ServiceError)
          → manager_for G channel self ≡ r
          → (called G call files self r).result ≡ ok (ok tt)
          → (handle : ℕ) × (manager : Manager G) × (r ≡ ok (ok (handle, manager)))
            × (file_cache_fetch G channel tag false v later
                  (called G call files self r).outside
                  (called G call files self r).runtime
                ≡ ok (ok (fetched tag uuid bytes files manager)))
      go (err e) found h = absurd (cc h)
      go (ok (err e)) found h = absurd (cc h)
      go (ok (ok (handle, manager))) found h =
          let c = cache T tag sentence bytes uuid locked w files manager in
          (
            handle,
            manager,
            refl,
            ap (asked G (fetch T tag false v later c.files)) (
                  managed-placed self.file_cache_manager_factory channel handle manager c.manager
                    found)
                ∙ ap ok (
                    fetch-cache T tag sentence bytes uuid locked w v later files manager n
                      (ok-injective h) x y z),
          )
