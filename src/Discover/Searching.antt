-- ===== src/Discover/Searching.antt =====
-- coordinator.rs, `discover_runner_by_category`: the wait for the waiter of a category, the wait for
-- a snapshot, and the search in it. The waiter is reset at once when its wait is over.
use strawberry_background.Prelude.{
  ℕ, ◌==◌, Nat-eq, String, Bool, true, false, Option, none, some, List, [], ◌∷◌, Result, ok, err,
  if◌then◌else◌, String-eq,
}
use strawberry_background.Request.{Identifier, Identifier-eq, RegistryError}
use strawberry_background.Registry.{
  Maps, Runner, RunnerRegistry, find_runner_by_identifier, contains,
}
use strawberry_background.Waiter.{Turn, Waited, waiting, over}
use strawberry_background.Waiter.OptionWaiter
use strawberry_background.Waiter.BoolWaiter
use strawberry_background.Discover.{
  DefaultRunnerDiscover, DiscoverError, category_not_exists, no_available_runners_discovered,
  of_registry, of_timeout, CycleSnapshot, omnipotence, is_available, read, update, ChannelMaps,
}

module _ (M : Maps) (C : ChannelMaps) where
  open C use {by_category as CM}

  -- The loop of `discover_runner_by_category` over the snapshot.
  abbrev pub accepted_by : Option (List String) → String → Bool
  accepted_by none category = true
  accepted_by (some categories) category = contains categories category

  unfoldable pub select_found :
      Result Runner RegistryError
      → Identifier
      → String
      → Result Identifier DiscoverError
      → Result Identifier DiscoverError
  select_found (err e) identifier category otherwise = err (of_registry e)
  select_found (ok runner) identifier category otherwise =
      if accepted_by runner.configuration.accepted_categories category
      then ok identifier
      else otherwise

  unfoldable pub select :
      RunnerRegistry M → String → CycleSnapshot → Result Identifier DiscoverError
  unfolding select_found
  select registry category [] = err no_available_runners_discovered
  select registry category (err e ∷ rest) = select registry category rest
  select registry category (ok s ∷ rest) =
      let otherwise = select registry category rest in
      if is_available s.status
      then select_found (find_runner_by_identifier M s.identifier registry) s.identifier category
          otherwise
      else otherwise

  or_else : Option ℕ → Option ℕ → Option ℕ
  or_else none b = b
  or_else (some a) b = some a

  -- The waiter on which a request of the category waits.
  pub channel_of : String → CM.Map → Option ℕ
  unfolding or_else
  channel_of category channels =
      or_else (if category == "" then CM.get omnipotence channels else CM.get category channels)
        (CM.get omnipotence channels)

  pub data Discovered : Type 0 where
    still_waiting : Discovered
    discovered : DefaultRunnerDiscover M C → Result Identifier DiscoverError → Discovered

  select_in :
      RunnerRegistry M
      → String
      → DefaultRunnerDiscover M C
      → Waited (Option CycleSnapshot) CycleSnapshot
      → Discovered
  unfolding select
  select_in registry category self waiting = still_waiting
  select_in registry category self (over v (err e)) =
      discovered (record self { snapshot_waiter = v }) (err (of_timeout e))
  select_in registry category self (over v (ok snapshot)) =
      discovered (record self { snapshot_waiter = OptionWaiter.clear v })
        (select registry category snapshot)

  -- What other threads do to the discover while this call waits for the waiter, the turns of that
  -- wait, and the turns of the wait for the snapshot.
  pub record Meanwhile : Type 0 where
    pub others : DefaultRunnerDiscover M C → DefaultRunnerDiscover M C
    pub waiter_turns : List (Turn Bool)
    pub snapshot_turns : List (Turn (Option CycleSnapshot))

  await_snapshot :
      RunnerRegistry M
      → String
      → ℕ
      → ℕ
      → Meanwhile
      → DefaultRunnerDiscover M C
      → Waited Bool Bool
      → Discovered
  unfolding select_in
  await_snapshot registry category timeout h m self waiting = still_waiting
  await_snapshot registry category timeout h m self (over v (err e)) =
      discovered (record self { waiters = update h (λ _. v) self.waiters }) (err (of_timeout e))
  await_snapshot registry category timeout h m self (over v (ok _)) =
      select_in registry category
        (record self { waiters = update h (λ _. BoolWaiter.reset false v) self.waiters })
        (OptionWaiter.wait_timeout timeout self.snapshot_waiter m.snapshot_turns)

  await_waiter :
      RunnerRegistry M → String → ℕ → Option ℕ → Meanwhile → DefaultRunnerDiscover M C → Discovered
  unfolding await_snapshot
  await_waiter registry category timeout none m self =
      discovered self (err (category_not_exists category))
  await_waiter registry category timeout (some h) m self =
      await_snapshot registry category timeout h m (m.others self)
        (BoolWaiter.wait_timeout true timeout (read h self.waiters) m.waiter_turns)

  unfoldable pub discover_runner_by_category :
      RunnerRegistry M → String → ℕ → Meanwhile → DefaultRunnerDiscover M C → Discovered
  unfolding channel_of await_waiter
  discover_runner_by_category registry category timeout m self =
      await_waiter registry category timeout
        (channel_of category self.category_notification_channels) m self
