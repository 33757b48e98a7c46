-- ===== src/Cache/Fetching.antt =====
-- file_cache_backend.rs: what `fetch` returns after `cache`, and what a failing `cache` changes.
use strawberry_background.Prelude.{
  ℕ, String, String-eq, ◌≡◌, ◌≢◌, refl, sym, ap, ◌∙◌, Bool, true, false, not, Option, none, some,
  List, [], ◌++◌, length, drop, Result, ok, err, if◌then◌else◌, is_none, map_err, unwrap_or,
  ==_refl, arith,
}
use strawberry_background.Storage.{Weather, overwrite, part_of, complete, written, read_path}
use strawberry_background.Storage.Contents.{overwrite-append, write-leaves, read_calm}
use strawberry_background.Cache.{
  Tables, CacheRecord, CacheError, DefaultFileCacheManager, build_path, ensure_file_exist, created,
  exists, write_bytes, store_bytes, cached, cache_in, cache, record_of, path_of, path_entry,
  present_path, read_at, fetch, request, of_storage, ensure_present, exists_after, store_after,
  entry_of,
}

map_err-ok : {A E G : Type 0} (f : E → G) (r : Result A E) (a : A) → map_err f r ≡ ok a → r ≡ ok a
map_err-ok f (ok b) a h = ground (arith, h)
map_err-ok f (err e) a h = cc h

module _ (T : Tables) where
  open T use {files as FM, records as RM}

  -- The contents of a file, none if it is missing.
  abbrev pub contents : String → FM.Map → List ℕ
  contents path files = unwrap_or (FM.get path files) []

  created-keeps :
      (o : Option String) (w : Weather) (path : String) (files : FM.Map)
      → FM.get path files ≡ none
      → contents path (created T o w path files).0 ≡ contents path files
  unfolding created
  created-keeps (some e) w path files h = refl
  created-keeps none w path files h =
      ap (λ o. unwrap_or o []) (FM.get-insert path path [] files)
      ∙ ap (λ b. unwrap_or (if b then some [] else FM.get path files) []) (==_refl path)
      ∙ sym (ap (λ o. unwrap_or o []) h)

  ensure_present-keeps :
      (r : Result Bool CacheError) (w : Weather) (path : String) (files : FM.Map)
      → (r ≡ ok false → FM.get path files ≡ none)
      → contents path (ensure_present T r w path files).0 ≡ contents path files
  unfolding ensure_present
  ensure_present-keeps (err e) w path files h = refl
  ensure_present-keeps (ok true) w path files h = refl
  ensure_present-keeps (ok false) w path files h =
      created-keeps w.create_fault w path files (h refl)

  exists-absent :
      (o : Option String) (c : Option (List ℕ))
      → exists_after T o (not (is_none c)) ≡ ok false
      → c ≡ none
  exists-absent none none h = refl
  exists-absent none (some c) h = cc h
  exists-absent (some e) c h = cc h

  ensure-keeps :
      (w : Weather) (path : String) (files : FM.Map)
      → contents path (ensure_file_exist T w path files).0 ≡ contents path files
  unfolding ensure_file_exist
  ensure-keeps w path files =
      ensure_present-keeps (exists T w path files) w path files
        (exists-absent w.exists_fault (FM.get path files))

  -- A file after bytes are written to it, from what it held.
  abbrev pub Holds : String → List ℕ → List ℕ → FM.Map → Type 0
  Holds path bytes old files = FM.get path files ≡ some (bytes ++ drop (length bytes) old)

  write_bytes-Holds :
      (w : Weather) (path : String) (bytes : List ℕ) (p : FM.Map × Result (Unit {0}) CacheError)
      → w.arrived ≡ none
      → (write_bytes T w path bytes p).1 ≡ ok tt
      → Holds path bytes (contents path p.0) (write_bytes T w path bytes p).0
  unfolding write_bytes written
  write_bytes-Holds w path bytes (files, err e) n h = cc h
  write_bytes-Holds w path bytes (files, ok _) n h =
      write-leaves FM (request T path bytes) w files (map_err-ok of_storage _ tt h)
      ∙ ap (λ a. some (overwrite (part_of a bytes) (contents path files))) n
      ∙ ap some (overwrite-append bytes (contents path files))

  store_after-Holds :
      (o : Option String) (w : Weather) (path : String) (bytes : List ℕ) (files : FM.Map)
      → w.arrived ≡ none
      → (store_after T o w path bytes files).1 ≡ ok tt
      → Holds path bytes (contents path files) (store_after T o w path bytes files).0
  unfolding store_after
  store_after-Holds (some e) w path bytes files n h = cc h
  store_after-Holds none w path bytes files n h =
      write_bytes-Holds w path bytes (ensure_file_exist T w path files) n h
      ∙ ap (λ old. some (bytes ++ drop (length bytes) old)) (ensure-keeps w path files)

  store_bytes-Holds :
      (w : Weather) (path : String) (bytes : List ℕ) (files : FM.Map)
      → w.arrived ≡ none
      → (store_bytes T w path bytes files).1 ≡ ok tt
      → Holds path bytes (contents path files) (store_bytes T w path bytes files).0
  unfolding store_bytes
  store_bytes-Holds w path bytes files n h =
      store_after-Holds w.directory_fault w path bytes files n h

  -- `fetch` at a record that is there and a file that is there, with no fault.
  fetch_calm :
      (tag : String) (entry : CacheRecord) (w later : Weather) (files : FM.Map)
      (self : DefaultFileCacheManager T) (c : List ℕ)
      → RM.get tag self.map ≡ some entry
      → FM.get (build_path T self entry.filename) files ≡ some c
      → w.exists_fault ≡ none
      → later.exists_fault ≡ none
      → later.reading ≡ complete
      → fetch T tag false w later files self ≡ ok c
  unfolding fetch path_of record_of path_entry present_path read_at
  fetch_calm tag entry w later files self c e f g h k =
      ap (λ o. read_at T later files (path_entry T w files self (entry_of T o tag false))) e
      ∙ ap
          (λ o.
            read_at T later files
              (present_path T path (exists_after T o (not (is_none (FM.get path files))))))
          g
      ∙ ap (λ o. read_at T later files (present_path T path (ok (not (is_none o))))) f
      ∙ ap (map_err of_storage) (read_calm FM (read_path path) later files c f h k)
    where
      path : String
      path = build_path T self entry.filename

  -- The file name that a call uses: that of the tag's record, or the new one.
  abbrev pub name_of : Option CacheRecord → String → String
  name_of none uuid = uuid
  name_of (some entry) uuid = entry.filename

  cached-fetch :
      (self : DefaultFileCacheManager T) (tag : String) (entry : CacheRecord)
      (p : FM.Map × Result (Unit {0}) CacheError) (v later : Weather) (c : List ℕ)
      → (cached T self tag entry p).result ≡ ok tt
      → (p.1 ≡ ok tt → FM.get (build_path T self entry.filename) p.0 ≡ some c)
      → v.exists_fault ≡ none
      → later.exists_fault ≡ none
      → later.reading ≡ complete
      → fetch T tag false v later
          (cached T self tag entry p).files
          (cached T self tag entry p).manager
        ≡ ok c
  unfolding cached build_path
  cached-fetch self tag entry (files, err e) v later c h g x y z = cc h
  cached-fetch self tag entry (files, ok _) v later c h g x y z =
      fetch_calm tag entry v later files
        (record self { map = RM.insert tag entry self.map; dirty = true }) c
        (RM.get-insert tag tag entry self.map
          ∙ ap (λ b. if b then some entry else RM.get tag self.map) (==_refl tag))
        (g refl) x y z

  cache_in-fetch :
      (o : Option CacheRecord) (tag sentence : String) (bytes : List ℕ) (uuid : String)
      (locked : Bool) (w v later : Weather) (files : FM.Map) (self : DefaultFileCacheManager T)
      → w.arrived ≡ none
      → (cache_in T o tag sentence bytes uuid locked w files self).result ≡ ok tt
      → v.exists_fault ≡ none
      → later.exists_fault ≡ none
      → later.reading ≡ complete
      → fetch T tag false v later
          (cache_in T o tag sentence bytes uuid locked w files self).files
          (cache_in T o tag sentence bytes uuid locked w files self).manager
        ≡ ok (bytes ++ drop (length bytes) (contents (build_path T self (name_of o uuid)) files))
  unfolding cache_in
  cache_in-fetch none tag sentence bytes uuid locked w v later files self n h x y z =
      cached-fetch self tag _ (store_bytes T w (build_path T self uuid) bytes files) v later _ h
        (store_bytes-Holds w (build_path T self uuid) bytes files n) x y z
  cache_in-fetch (some entry) tag sentence bytes uuid true w v later files self n h x y z = cc h
  cache_in-fetch (some entry) tag sentence bytes uuid false w v later files self n h x y z =
      cached-fetch self tag _ (store_bytes T w (build_path T self entry.filename) bytes files) v
        later _ h (store_bytes-Holds w (build_path T self entry.filename) bytes files n) x y z

  -- After a `cache` that succeeds, once all its bytes have arrived in the file, a `fetch` whose record
  -- is not locked and whose calls of the file system succeed returns the bytes, followed by what the
  -- file held beyond their length before.
  pub fetch-cache :
      (tag sentence : String) (bytes : List ℕ) (uuid : String) (locked : Bool) (w v later : Weather)
      (files : FM.Map) (self : DefaultFileCacheManager T)
      → w.arrived ≡ none
      → (cache T tag sentence bytes uuid locked w files self).result ≡ ok tt
      → v.exists_fault ≡ none
      → later.exists_fault ≡ none
      → later.reading ≡ complete
      → fetch T tag false v later
          (cache T tag sentence bytes uuid locked w files self).files
          (cache T tag sentence bytes uuid locked w files self).manager
        ≡ ok (
            bytes
            ++ drop
                (length bytes)
                (contents (build_path T self (name_of (RM.get tag self.map) uuid)) files))
  unfolding cache
  fetch-cache tag sentence bytes uuid locked w v later files self =
      cache_in-fetch (RM.get tag self.map) tag sentence bytes uuid locked w v later files self

  cached-keeps :
      (self : DefaultFileCacheManager T) (tag : String) (entry : CacheRecord)
      (p : FM.Map × Result (Unit {0}) CacheError)
      → (cached T self tag entry p).result ≢ ok tt
      → (cached T self tag entry p).manager ≡ self
  unfolding cached
  cached-keeps self tag entry (files, err e) h = refl
  cached-keeps self tag entry (files, ok _) h = absurd (h refl)

  cache_in-keeps :
      (o : Option CacheRecord) (tag sentence : String) (bytes : List ℕ) (uuid : String)
      (locked : Bool) (w : Weather) (files : FM.Map) (self : DefaultFileCacheManager T)
      → (cache_in T o tag sentence bytes uuid locked w files self).result ≢ ok tt
      → (cache_in T o tag sentence bytes uuid locked w files self).manager ≡ self
  unfolding cache_in
  cache_in-keeps none tag sentence bytes uuid locked w files self h =
      cached-keeps self tag _ (store_bytes T w (build_path T self uuid) bytes files) h
  cache_in-keeps (some entry) tag sentence bytes uuid true w files self h = refl
  cache_in-keeps (some entry) tag sentence bytes uuid false w files self h =
      cached-keeps self tag _ (store_bytes T w (build_path T self entry.filename) bytes files) h

  -- A `cache` that does not succeed leaves the records and the mark for saving as they were.
  pub cache_keeps :
      (tag sentence : String) (bytes : List ℕ) (uuid : String) (locked : Bool) (w : Weather)
      (files : FM.Map) (self : DefaultFileCacheManager T)
      → (cache T tag sentence bytes uuid locked w files self).result ≢ ok tt
      → (cache T tag sentence bytes uuid locked w files self).manager ≡ self
  unfolding cache
  cache_keeps tag sentence bytes uuid locked w files self =
      cache_in-keeps (RM.get tag self.map) tag sentence bytes uuid locked w files self
