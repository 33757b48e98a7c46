-- ===== src/Discover.antt =====
-- superstructure/coordinator/coordinator.rs, `DefaultRunnerDiscover`: which runner takes a request.
-- The waiters are shared (`Arc<BoolWaiter>`), so the channels hold handles and the values stand in a
-- store; a handle is the number of waiters that were made before its own.
pub mod Searching
pub mod Selecting
pub mod Availability
pub mod Flags
pub mod Registering
pub mod Waiters
pub mod Missed
use strawberry_background.Prelude.{
  ℕ, suc, zero, ◌==◌, Nat-eq, String, Bool, true, false, ◌||◌, ◌&&◌, not, Option, none, some, List,
  [], ◌∷◌, ◌++◌, Result, ok, err, if◌then◌else◌, length, String-eq, is_none, compare, Ordering,
  is_empty,
}
use strawberry_background.Prelude.Map.{HashMap, keys, values}
use strawberry_background.Request.{
  Identifier, Identifier-eq, RunnerStatus, idle, working, busy, RunnerSnapshot, RunnerError,
  RegistryError, TimeoutError,
}
use strawberry_background.Registry.{
  Maps, Runner, RunnerRegistry, all_runners, find_runner_by_identifier, contains,
}
use strawberry_background.Runner.Status.{status_eq}
use strawberry_background.Waiter.{Turn, Waited, waiting, over}
use strawberry_background.Waiter.OptionWaiter
use strawberry_background.Waiter.BoolWaiter

-- The errors that carry the text of another error keep it.
pub data DiscoverError : Type 0 where
  category_not_exists : String → DiscoverError
  no_available_runners_discovered : DiscoverError
  of_registry : RegistryError → DiscoverError
  of_timeout : TimeoutError → DiscoverError

-- `CycleSnapshot`
abbrev pub CycleSnapshot : Type 0
CycleSnapshot = List (Result RunnerSnapshot RunnerError)

abbrev pub omnipotence : String
omnipotence = "omnipotence"

abbrev pub is_available : RunnerStatus → Bool
is_available status = status_eq status idle || status_eq status working

-- The store of waiters.
abbrev pub read : ℕ → List Bool → Bool
read h [] = false
read zero (b ∷ bs) = b
read (suc h) (b ∷ bs) = read h bs

abbrev pub update : ℕ → (Bool → Bool) → List Bool → List Bool
update h f [] = []
update zero f (b ∷ bs) = f b ∷ bs
update (suc h) f (b ∷ bs) = b ∷ update h f bs

-- The maps of `dashmap` and of the standard library that the discover uses.
pub record ChannelMaps : Type 1 where
  pub by_identifier : HashMap Identifier ℕ Identifier-eq
  pub by_category : HashMap String ℕ String-eq
  pub flags : HashMap String Bool String-eq

module _ (M : Maps) (C : ChannelMaps) where
  open C use {by_identifier as IM, by_category as CM, flags as FM}

  pub record DefaultRunnerDiscover : Type 0 where
    pub snapshot_waiter : Option CycleSnapshot
    pub runner_notification_channels : IM.Map
    pub category_notification_channels : CM.Map
    pub cached_runners_hash : ℕ
    pub waiters : List Bool

  unfoldable pub new : DefaultRunnerDiscover
  new = record {
    snapshot_waiter = none;
    runner_notification_channels = IM.empty;
    category_notification_channels = CM.empty;
    cached_runners_hash = 0;
    waiters = [];
  }

  -- The channel of a category that has none yet.
  add_channel : ℕ → String → CM.Map → CM.Map
  add_channel waiter category m = elim (CM.get category m) [
    | none ↦ CM.insert category waiter m
    | some _ ↦ m
  ]

  add_channels : ℕ → List String → CM.Map → CM.Map
  unfolding add_channel
  add_channels waiter [] m = m
  add_channels waiter (category ∷ rest) m = add_channels waiter rest (add_channel waiter category m)

  -- The end of a round of the loop over the runners, once the runner has a waiter.
  add_categories : Option (List String) → ℕ → DefaultRunnerDiscover → DefaultRunnerDiscover
  unfolding add_channels
  add_categories none waiter self = record self {
    category_notification_channels =
        add_channel waiter omnipotence self.category_notification_channels;
  }
  add_categories (some categories) waiter self = record self {
    category_notification_channels =
        add_channels waiter categories self.category_notification_channels;
  }

  add_runner : Runner → DefaultRunnerDiscover → DefaultRunnerDiscover
  unfolding add_categories
  add_runner runner self =
      elim (IM.get runner.configuration.identifier self.runner_notification_channels) [
        | none ↦
            add_categories runner.configuration.accepted_categories (length self.waiters)
              (record self {
                runner_notification_channels =
                    IM.insert runner.configuration.identifier (length self.waiters)
                      self.runner_notification_channels;
                waiters = self.waiters ++ false ∷ [];
              })
        | some waiter ↦ add_categories runner.configuration.accepted_categories waiter self
      ]

  add_runners : List Runner → DefaultRunnerDiscover → DefaultRunnerDiscover
  unfolding add_runner
  add_runners [] self = self
  add_runners (runner ∷ runners) self = add_runners runners (add_runner runner self)

  -- The two variables of the loop over the snapshots.
  pub record Seen : Type 0 where
    pub force_has_available : Bool
    pub all_is_available_map : FM.Map

  note_category : Bool → String → FM.Map → FM.Map
  note_category available category m = elim (FM.get category m) [
    | none ↦ FM.insert category available m
    | some current ↦ if not current && available then FM.insert category available m else m
  ]

  pub note_categories : Bool → List String → FM.Map → FM.Map
  unfolding note_category
  note_categories available [] m = m
  note_categories available (category ∷ rest) m =
      note_categories available rest (note_category available category m)

  note_runner : Bool → Option (List String) → Seen → Seen
  unfolding note_categories
  note_runner available none seen =
      if available then record seen { force_has_available = true } else seen
  note_runner available (some categories) seen = record seen {
    all_is_available_map = note_categories available categories seen.all_is_available_map;
  }

  note_found : Bool → Result Runner RegistryError → Seen → Seen
  unfolding note_runner
  note_found available (err e) seen = seen
  note_found available (ok runner) seen =
      note_runner available runner.configuration.accepted_categories seen

  note_snapshot : RunnerRegistry M → Result RunnerSnapshot RunnerError → Seen → Seen
  unfolding note_found
  note_snapshot registry (err e) seen = seen
  note_snapshot registry (ok s) seen =
      if seen.force_has_available
      then seen
      else note_found (is_available s.status) (find_runner_by_identifier M s.identifier registry)
          seen

  pub note_snapshots : RunnerRegistry M → CycleSnapshot → Seen → Seen
  unfolding note_snapshot
  note_snapshots registry [] seen = seen
  note_snapshots registry (s ∷ rest) seen =
      note_snapshots registry rest (note_snapshot registry s seen)

  -- The loops that set the waiters.
  pub set_all : List ℕ → List Bool → List Bool
  set_all [] waiters = waiters
  set_all (h ∷ hs) waiters = set_all hs (update h (BoolWaiter.set true) waiters)

  pub set_channel : Bool → Option ℕ → List Bool → List Bool
  set_channel available none waiters = waiters
  set_channel available (some h) waiters = update h (BoolWaiter.set available) waiters

  pub set_flags : CM.Map → List (String × Bool) → List Bool → List Bool
  unfolding set_channel
  set_flags channels [] waiters = waiters
  set_flags channels ((category, available) ∷ rest) waiters =
      set_flags channels rest (set_channel available (CM.get category channels) waiters)

  pub notify : Seen → DefaultRunnerDiscover → DefaultRunnerDiscover
  unfolding set_all set_flags
  notify seen self = record self {
    waiters =
        if seen.force_has_available
        then set_all (values CM self.category_notification_channels) self.waiters
        else set_flags self.category_notification_channels (FM.entries seen.all_is_available_map)
            self.waiters;
  }

  pub refresh : RunnerRegistry M → DefaultRunnerDiscover → DefaultRunnerDiscover
  unfolding add_runners
  refresh registry self =
      if registry.cached_runners_hash == self.cached_runners_hash
      then self
      else record (add_runners (all_runners M registry) self) {
        cached_runners_hash = registry.cached_runners_hash;
      }

  abbrev pub nothing_seen : Seen
  nothing_seen = record { force_has_available = false; all_is_available_map = FM.empty }

  -- `cycle_once`, which always succeeds.
  unfoldable pub cycle_once :
      RunnerRegistry M → CycleSnapshot → DefaultRunnerDiscover → DefaultRunnerDiscover
  unfolding refresh notify note_snapshots
  cycle_once registry snapshot self =
      record (notify (note_snapshots registry snapshot nothing_seen) (refresh registry self)) {
        snapshot_waiter = OptionWaiter.set snapshot self.snapshot_waiter;
      }
