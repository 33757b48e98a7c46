-- ===== src/KeyedLock/Cleanup.antt =====
-- What the cleanup of the keyed locks keeps.
use strawberry_background.Prelude.{
  ◌+◌, ◌≡◌, inl, inr, refl, ap, sym, ◌∙◌, String, String-eq, Bool, true, false, Option, none, some,
  List, [], ◌∷◌, In, leb, ltb, if◌then◌else◌, Bool-cases, ==_refl, ◌==◌, subst, Option-cases,
}
use strawberry_background.Prelude.Map.{HashMap}
use strawberry_background.Prelude.Map.Collect.{insert-get_same}
use strawberry_background.Prelude.Map.Laws.{entry_iff}
use strawberry_background.KeyedLock.{
  Lock, KeyedRwLock, retain, cleanup, cumulate_cleanup, or_fresh, write, read,
}

module _ {T : Type 0} (default : T) (L : HashMap String (Lock T) String-eq) where
  -- No lock is held by anyone but the table.
  abbrev pub IsUnshared : KeyedRwLock default L → Type 0
  IsUnshared self = (k : String) (lock : Lock T) → L.get k self.locks ≡ some lock → lock.holders ≡ 1

  abbrev test : Lock T → Bool
  test lock = ltb 1 lock.holders

  remove-none : (k j : String) (m : L.Map) → L.get j m ≡ none → L.get j (L.remove k m) ≡ none
  remove-none k j m e = L.get-remove k j m ∙ ap (λ o. if k == j then none else o) e ∙ same (k == j)
    where
      same : (b : Bool) → ◌≡◌ {A = Option (Lock T)} (if b then none else none) none
      same true = refl
      same false = refl

  retain-none :
      (es : List (String × Lock T)) (k : String) (m : L.Map)
      → L.get k m ≡ none
      → L.get k (retain default L test es m) ≡ none
  unfolding retain
  retain-none [] k m e = e
  retain-none ((j, lock) ∷ es) k m e =
      retain-none es k (if test lock then m else L.remove j m) (chosen (test lock))
    where
      chosen : (b : Bool) → L.get k (if b then m else L.remove j m) ≡ none
      chosen true = e
      chosen false = remove-none j k m e

  retain-gone :
      (es : List (String × Lock T)) (k : String) (lock : Lock T) (m : L.Map)
      → In {A = String × Lock T} (k, lock) es
      → test lock ≡ false
      → L.get k (retain default L test es m) ≡ none
  unfolding retain
  retain-gone [] k lock m n t = absurd n
  retain-gone ((j, other) ∷ es) k lock m (inl p) t =
      retain-none es k (if test other then m else L.remove j m) (
        ap (λ b. L.get k (if b then m else L.remove j m))
          (subst (λ (q : String × Lock T). test q.1 ≡ false) p t)
        ∙ subst (λ i. L.get k (L.remove i m) ≡ none) (ap (λ (q : String × Lock T). q.0) p)
            (L.get-remove k k m ∙ ap (λ b. if b then none else L.get k m) (==_refl k)))
  retain-gone ((j, other) ∷ es) k lock m (inr n) t =
      retain-gone es k lock (if test other then m else L.remove j m) n t

  cleanup-gone :
      (self : KeyedRwLock default L) (k : String)
      → IsUnshared self
      → L.get k (cleanup default L self).locks ≡ none
  unfolding cleanup
  cleanup-gone self k h = elim (Option-cases (L.get k self.locks)) [
    | inl e ↦ retain-none (L.entries self.locks) k self.locks e
    | inr (lock, e) ↦
        retain-gone (L.entries self.locks) k lock self.locks ((entry_iff L k lock self.locks).1 e)
          (ap (λ n. ltb 1 n) (h k lock e))
  ]

  cleanup-IsUnshared :
      (self : KeyedRwLock default L) → IsUnshared self → IsUnshared (cleanup default L self)
  cleanup-IsUnshared self h k lock e = cc (cleanup-gone self k h, e)

  cumulate_cleanup-IsUnshared :
      (self : KeyedRwLock default L)
      → IsUnshared self
      → IsUnshared (cumulate_cleanup default L self)
  unfolding cumulate_cleanup
  cumulate_cleanup-IsUnshared self h =
      go (record self { cumulative_cleanup = self.cumulative_cleanup + 1 }) h
        (leb 32 (self.cumulative_cleanup + 1))
    where
      go :
          (s : KeyedRwLock default L)
          → IsUnshared s
          → (b : Bool) → IsUnshared (if b then cleanup default L s else s)
      go s i true = cleanup-IsUnshared s i
      go s i false = i

  or_fresh-unshared :
      (o : Option (Lock T))
      → ((lock : Lock T) → o ≡ some lock → lock.holders ≡ 1)
      → (or_fresh default L o).holders ≡ 1
  or_fresh-unshared none h = refl
  or_fresh-unshared (some lock) h = h lock refl

  insert-IsUnshared :
      (id : String) (lock : Lock T) (self : KeyedRwLock default L)
      → lock.holders ≡ 1
      → IsUnshared self
      → IsUnshared (record self { locks = L.insert id lock self.locks })
  insert-IsUnshared id lock self one h k other e = elim (Bool-cases (id == k)) [
    | inl same ↦
        let it : lock ≡ other = cc (
          sym (
            L.get-insert id k lock self.locks
            ∙ ap (λ b. if b then some lock else L.get k self.locks) same)
          ∙ e) in
        ap (λ (l : Lock T). l.holders) (sym it) ∙ one
    | inr differ ↦ h k other (
        sym (
          L.get-insert id k lock self.locks
          ∙ ap (λ b. if b then some lock else L.get k self.locks) differ)
        ∙ e)
  ]

  -- From a table whose locks no one else holds, a write leaves such a table.
  pub write-IsUnshared :
      {R : Type 0} (id : String) (operation : T → R × T) (self : KeyedRwLock default L)
      → IsUnshared self
      → IsUnshared (write default L id operation self).1
  unfolding write
  write-IsUnshared id operation self h =
      let ready = cumulate_cleanup default L self in
      let calm = cumulate_cleanup-IsUnshared self h in
      insert-IsUnshared id
        (record (or_fresh default L (L.get id ready.locks)) {
          value = (operation (or_fresh default L (L.get id ready.locks)).value).1;
        })
        ready (or_fresh-unshared (L.get id ready.locks) (calm id)) calm

  -- What an operation of the next call under a key is given.
  abbrev pub current : String → KeyedRwLock default L → T
  current id self = (or_fresh default L (L.get id (cumulate_cleanup default L self).locks)).value

  current-after :
      (s : KeyedRwLock default L) (id : String)
      → IsUnshared s
      → current id s ≡ (
          if leb 32 (s.cumulative_cleanup + 1)
          then default
          else (or_fresh default L (L.get id s.locks)).value)
  unfolding cumulate_cleanup
  current-after s id h =
      go (record s { cumulative_cleanup = s.cumulative_cleanup + 1 }) h
        (leb 32 (s.cumulative_cleanup + 1))
    where
      go :
          (r : KeyedRwLock default L)
          → IsUnshared r
          → (b : Bool)
          → (or_fresh default L (L.get id (if b then cleanup default L r else r).locks)).value
            ≡ (if b then default else (or_fresh default L (L.get id r.locks)).value)
      go r i true = ap (λ o. (or_fresh default L o).value) (cleanup-gone r id i)
      go r i false = refl

  written :
      {R : Type 0} (id : String) (operation : T → R × T) (self : KeyedRwLock default L)
      → (or_fresh default L (L.get id (write default L id operation self).1.locks)).value
        ≡ (operation (current id self)).1
  unfolding write
  written id operation self =
      ap (λ o. (or_fresh default L o).value)
        (insert-get_same L (λ l. id) id
          (record (or_fresh default L (L.get id (cumulate_cleanup default L self).locks)) {
            value = (operation (current id self)).1;
          })
          (cumulate_cleanup default L self).locks)

  -- A read after a write under the same key sees what was written, unless its own call is the 32nd
  -- since the last cleanup: the locks that only the table holds are then dropped, and it sees the
  -- default. No one but the table holds a lock before the write.
  pub read-write :
      {R Q : Type 0} (id : String) (operation : T → R × T) (look : T → Q)
      (self : KeyedRwLock default L)
      → IsUnshared self
      → (read default L id look (write default L id operation self).1).0
        ≡ look (
            if leb 32 ((write default L id operation self).1.cumulative_cleanup + 1)
            then default
            else (operation (current id self)).1)
  unfolding read
  read-write id operation look self h = ap look (
      current-after (write default L id operation self).1 id (write-IsUnshared id operation self h)
      ∙ ap
          (λ v.
            if leb 32 ((write default L id operation self).1.cumulative_cleanup + 1)
            then default
            else v)
          (written id operation self))
