-- ===== src/Cache/AutoSave.antt =====
-- file_cache_backend.rs, `start_auto_save`: the task that saves a manager whenever it has changed, one
-- tick after the other.
use strawberry_background.Prelude.{
  String, ◌≡◌, refl, Bool, true, false, Option, none, some, List, [], ◌∷◌, if◌then◌else◌, In, inl,
  inr,
}
use strawberry_background.Prelude.Map.{values}
use strawberry_background.Cache.{Tables, CacheChannel, DefaultFileCacheManager}
use strawberry_background.Cache.Channel.{persist, persisted}

module _ (T : Tables) where
  open T use {records as RM, channels as SM}

  abbrev Manager : Type 0
  Manager = DefaultFileCacheManager T

  -- One tick, and what the store answers to a write. An error is only printed.
  unfoldable pub tick : Option String → SM.Map → Manager → SM.Map × Manager
  tick fault store self =
      if self.dirty then (let p = persist T fault store self in (p.0, p.1)) else (store, self)

  pub start_auto_save : List (Option String) → SM.Map → Manager → SM.Map × Manager
  unfolding tick
  start_auto_save [] store self = (store, self)
  start_auto_save (fault ∷ ticks) store self =
      let next = tick fault store self in start_auto_save ticks next.0 next.1

  abbrev pub saved_of : Manager → CacheChannel
  saved_of self = record {
    name = self.name;
    extension = self.extension;
    records = values RM self.map;
  }

  -- A tick leaves alone what has not changed.
  tick-clean :
      (fault : Option String) (store : SM.Map) (self : Manager)
      → self.dirty ≡ false
      → tick fault store self ≡ (store, self)
  unfolding tick
  tick-clean fault store self clean = rw clean

  tick-broken :
      (e : String) (store : SM.Map) (self : Manager) → tick (some e) store self ≡ (store, self)
  unfolding tick persist persisted
  tick-broken e store self = go self.dirty refl
    where
      go : (b : Bool) → self.dirty ≡ b → tick (some e) store self ≡ (store, self)
      go true h = rw h
      go false h = tick-clean (some e) store self h

  tick-saves :
      (store : SM.Map) (self : Manager)
      → self.dirty ≡ true
      → tick none store self
        ≡ (SM.insert self.name (saved_of self) store, record self { dirty = false })
  unfolding tick persist persisted
  tick-saves store self changed = rw changed

  clean_stays :
      (ticks : List (Option String)) (store : SM.Map) (self : Manager)
      → self.dirty ≡ false
      → start_auto_save ticks store self ≡ (store, self)
  unfolding start_auto_save
  clean_stays [] store self clean = refl
  clean_stays (fault ∷ ticks) store self clean =
      rw (tick-clean fault store self clean) (clean_stays ticks store self clean)

  later : (e : String) (ticks : List (Option String)) → In none (some e ∷ ticks) → In none ticks
  later e ticks (inl same) = absurd (cc same)
  later e ticks (inr found) = found

  -- Once the store takes one write, whatever it refuses before, the task has saved a changed manager
  -- exactly once: the channel of its records stands under its name, and the manager counts as saved.
  pub start_auto_save-saves :
      (ticks : List (Option String)) (store : SM.Map) (self : Manager)
      → self.dirty ≡ true
      → In none ticks
      → start_auto_save ticks store self
        ≡ (SM.insert self.name (saved_of self) store, record self { dirty = false })
  unfolding start_auto_save
  start_auto_save-saves [] store self changed found = absurd found
  start_auto_save-saves (none ∷ ticks) store self changed found =
      rw (tick-saves store self changed) (
        clean_stays ticks (SM.insert self.name (saved_of self) store)
          (record self { dirty = false }) refl)
  start_auto_save-saves (some e ∷ ticks) store self changed found =
      rw (tick-broken e store self)
        (start_auto_save-saves ticks store self changed (later e ticks found))
