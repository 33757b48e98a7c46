-- ===== src/KeyedLock.antt =====
-- utils/keyed_rw_lock.rs: a value under a lock for each key. Calls are taken one at a time, so a lock
-- is never waited for; `holders` is the strong count of the `Arc` of a lock.
pub mod Cleanup
use strawberry_background.Prelude.{
  ℕ, ◌+◌, ◌%◌, ◌^◌, String, String-eq, Bool, true, false, Option, none, some, List, [], ◌∷◌, leb,
  ltb, if◌then◌else◌, nat_eq,
}
use strawberry_background.Prelude.Map.{HashMap}

pub record Lock (T : Type 0) : Type 0 where
  pub value : T
  pub holders : ℕ

module _ {T : Type 0} (default : T) (L : HashMap String (Lock T) String-eq) where
  pub record KeyedRwLock : Type 0 where
    pub cumulative_cleanup : ℕ
    pub locks : L.Map

  unfoldable pub new : KeyedRwLock
  new = record { cumulative_cleanup = 0; locks = L.empty }

  -- `retain` goes through the entries and removes those that fail the test.
  retain : (Lock T → Bool) → List (String × Lock T) → L.Map → L.Map
  retain test [] m = m
  retain test ((k, lock) ∷ es) m =
      let next = (if test lock then m else L.remove k m) in retain test es next

  unfoldable pub cleanup : KeyedRwLock → KeyedRwLock
  unfolding retain
  cleanup self = record {
    cumulative_cleanup = 0;
    locks = retain (λ lock. ltb 1 lock.holders) (L.entries self.locks) self.locks;
  }

  unfoldable pub cumulate_cleanup : KeyedRwLock → KeyedRwLock
  unfolding cleanup
  cumulate_cleanup self =
      let target = self.cumulative_cleanup + 1 in
      let counted : KeyedRwLock = record self { cumulative_cleanup = target } in
      if leb 32 target then cleanup counted else counted

  abbrev fresh : Lock T
  fresh = record { value = default; holders = 1 }

  -- `or_insert_with`
  abbrev pub or_fresh : Option (Lock T) → Lock T
  or_fresh none = fresh
  or_fresh (some lock) = lock

  unfoldable pub write : {R : Type 0} → String → (T → R × T) → KeyedRwLock → R × KeyedRwLock
  unfolding cumulate_cleanup
  write id operation self =
      let ready = cumulate_cleanup self in
      let lock = or_fresh (L.get id ready.locks) in
      let (result, after) = operation lock.value in
      (result, record ready { locks = L.insert id (record lock { value = after }) ready.locks })

  unfoldable pub read : {R : Type 0} → String → (T → R) → KeyedRwLock → R × KeyedRwLock
  unfolding cumulate_cleanup
  read id operation self =
      let ready = cumulate_cleanup self in
      let lock = or_fresh (L.get id ready.locks) in
      (operation lock.value, record ready { locks = L.insert id lock ready.locks })

  -- A lock that is held elsewhere leaves the table too, and its value is not given.
  free_found : String → Option (Lock T) → KeyedRwLock → Option (String × T) × KeyedRwLock
  free_found id none self = (none, self)
  free_found id (some lock) self =
      let after : KeyedRwLock = record self { locks = L.remove id self.locks } in
      (if nat_eq lock.holders 1 then some (id, lock.value) else none, after)

  unfoldable pub free : String → KeyedRwLock → Option (String × T) × KeyedRwLock
  unfolding free_found
  free id self = free_found id (L.get id self.locks) self
