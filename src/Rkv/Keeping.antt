-- ===== src/Rkv/Keeping.antt =====
-- rkv/rkv_impl.rs: a store of bytes keeps a map of channels.
use strawberry_background.Prelude.{
  ℕ, String, String-eq, ◌≡◌, refl, ap, ◌∙◌, sym, Bool, true, false, Option, none, some, List,
  Result, ok, err, if◌then◌else◌, ◌==◌,
}
use strawberry_background.Prelude.Map.{HashMap}
use strawberry_background.Cache.{CacheChannel}
use strawberry_background.Rkv.{
  Answer, done, failed, panicked, Value, blob, RkvService, Faults, write_rkyv_cache_channel_data,
  write_bytes, write_in, transaction, read_value, parsed, read_rkyv_cache_channel_data, read_in,
  read_at,
}

-- A lock that is not poisoned, and a transaction that refuses nothing.
abbrev pub calm : Faults
calm = record { poisoned = false; begun = none; accessed = none; committed = none }

module _ (V : HashMap String Value String-eq) (M : HashMap String CacheChannel String-eq)
    (to_bytes : CacheChannel → Result (List ℕ) String)
    (from_bytes : List ℕ → Result CacheChannel String) where
  -- Every key reads as the map says.
  abbrev pub Represents : V.Map → M.Map → Type 0
  Represents store m =
      (k : String) → read_value V to_bytes from_bytes (V.get k store) ≡ done (M.get k m)

  -- A write puts the channel under its key, or leaves the store as it was.
  pub data WriteMeans (key : String) (data' : CacheChannel) (store : V.Map) (m : M.Map)
      : V.Map × Answer (Unit {0}) → Type 0 where
    written :
        (next : V.Map)
        → Represents next (M.insert key data' m)
        → WriteMeans key data' store m (next, done tt)
    refused : (e : String) → WriteMeans key data' store m (store, failed e)
    stopped : WriteMeans key data' store m (store, panicked)

  -- An empty store represents the empty map.
  pub empty-Represents : Represents V.empty M.empty
  unfolding read_value
  empty-Represents k = rw (V.get-empty k, M.get-empty k) refl

  blob-read :
      (bytes : List ℕ) (data' : CacheChannel)
      → from_bytes bytes ≡ ok data'
      → read_value V to_bytes from_bytes (some (blob bytes)) ≡ done (some data')
  unfolding read_value
  blob-read bytes data' back = ap (parsed V to_bytes from_bytes) back

  insert-Represents :
      (key : String) (data' : CacheChannel) (bytes : List ℕ) (store : V.Map) (m : M.Map)
      → from_bytes bytes ≡ ok data'
      → Represents store m
      → Represents (V.insert key (blob bytes) store) (M.insert key data' m)
  insert-Represents key data' bytes store m back rep k =
      ap (read_value V to_bytes from_bytes) (V.get-insert key k (blob bytes) store)
      ∙ (go (key == k) ∙ sym (ap done (M.get-insert key k data' m)))
    where
      go :
          (b : Bool)
          → read_value V to_bytes from_bytes (if b then some (blob bytes) else V.get k store)
            ≡ done (if b then some data' else M.get k m)
      go true = blob-read bytes data' back
      go false = rep k

  transaction-WriteMeans :
      (begun put commit : Option String) (key : String) (data' : CacheChannel) (next store : V.Map)
      (m : M.Map)
      → Represents next (M.insert key data' m)
      → WriteMeans key data' store m (transaction V to_bytes from_bytes begun put commit next store)
  unfolding transaction
  transaction-WriteMeans (some e) put commit key data' next store m rep = refused e
  transaction-WriteMeans none (some e) commit key data' next store m rep = refused e
  transaction-WriteMeans none none (some e) key data' next store m rep = refused e
  transaction-WriteMeans none none none key data' next store m rep = written next rep

  write_in-WriteMeans :
      (env : Option ℕ) (poisoned : Bool) (w : Faults) (key : String) (data' : CacheChannel)
      (next store : V.Map) (m : M.Map)
      → Represents next (M.insert key data' m)
      → WriteMeans key data' store m (write_in V to_bytes from_bytes env poisoned w next store)
  unfolding write_in
  write_in-WriteMeans none poisoned w key data' next store m rep = stopped
  write_in-WriteMeans (some env) true w key data' next store m rep = stopped
  write_in-WriteMeans (some env) false w key data' next store m rep =
      transaction-WriteMeans w.begun w.accessed w.committed key data' next store m rep

  write_bytes-WriteMeans :
      (encoded : Result (List ℕ) String) (key : String) (data' : CacheChannel) (w : Faults)
      (self : RkvService) (store : V.Map) (m : M.Map)
      → ((bytes : List ℕ) → encoded ≡ ok bytes → from_bytes bytes ≡ ok data')
      → Represents store m
      → WriteMeans key data' store m (write_bytes V to_bytes from_bytes encoded key w self store)
  unfolding write_bytes
  write_bytes-WriteMeans (err e) key data' w self store m back rep = refused _
  write_bytes-WriteMeans (ok bytes) key data' w self store m back rep =
      write_in-WriteMeans self.env w.poisoned w key data' (V.insert key (blob bytes) store) store m
        (insert-Represents key data' bytes store m (back bytes refl) rep)

  -- In a store that represents a map of channels, a write either makes it represent the map with the
  -- channel put under the key, or leaves the store as it was and reports an error or panics, if the
  -- channel is read back from its bytes.
  pub write_rkyv_cache_channel_data-WriteMeans :
      (key : String) (data' : CacheChannel) (w : Faults) (self : RkvService) (store : V.Map)
      (m : M.Map)
      → ((bytes : List ℕ) → to_bytes data' ≡ ok bytes → from_bytes bytes ≡ ok data')
      → Represents store m
      → WriteMeans key data' store m
          (write_rkyv_cache_channel_data V to_bytes from_bytes key data' w self store)
  unfolding write_rkyv_cache_channel_data
  write_rkyv_cache_channel_data-WriteMeans key data' w self store m back rep =
      write_bytes-WriteMeans (to_bytes data') key data' w self store m back rep

  -- On an open service that refuses nothing, what is written under a key is read under it, and every
  -- other key reads as before, if the channel has bytes that are read back.
  pub read-write_rkyv_cache_channel_data :
      (key : String) (data' : CacheChannel) (env : ℕ) (self : RkvService) (bytes : List ℕ)
      (store : V.Map) (k : String)
      → self.env ≡ some env
      → to_bytes data' ≡ ok bytes
      → from_bytes bytes ≡ ok data'
      → read_rkyv_cache_channel_data V to_bytes from_bytes k calm self
          (write_rkyv_cache_channel_data V to_bytes from_bytes key data' calm self store).0
        ≡ (if key == k
            then done (some data')
            else read_rkyv_cache_channel_data V to_bytes from_bytes k calm self store)
  unfolding write_rkyv_cache_channel_data read_rkyv_cache_channel_data write_bytes write_in
      transaction read_in read_at
  read-write_rkyv_cache_channel_data key data' env self bytes store k opened encoded back =
      rw (encoded, opened)
        (ap (read_value V to_bytes from_bytes) (V.get-insert key k (blob bytes) store)
          ∙ go (key == k))
    where
      go :
          (b : Bool)
          → read_value V to_bytes from_bytes (if b then some (blob bytes) else V.get k store)
            ≡ (if b then done (some data') else read_value V to_bytes from_bytes (V.get k store))
      go true = blob-read bytes data' back
      go false = refl
