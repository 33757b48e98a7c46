-- ===== src/Coordinator.antt =====
-- coordinator.rs, `DefaultCoordinator`: one cycle asks every runner for its status and passes the
-- snapshot on to the discover; a request is put into the queue.
pub mod Assigning
pub mod Threads
use strawberry_background.Prelude.{ℕ, Option, none, some, List, [], ◌∷◌, Result, ok, err, map}
use strawberry_background.Request.{
  Request, RunnerSnapshot, RunnerError, CoordinatorConfiguration, request_cmp,
}
use strawberry_background.BlockingHeap.{BinaryHeap, Wakeup}
use strawberry_background.Registry.{Maps, Runner, RunnerRegistry, all_runners}
use strawberry_background.Discover.{ChannelMaps, CycleSnapshot, DefaultRunnerDiscover}
use strawberry_background.Discover
use strawberry_background.Queue.{DefaultQueuer, Put}
use strawberry_background.Queue

module _ (H : BinaryHeap request_cmp) (M : Maps) (C : ChannelMaps)
    (runner_cycle_once : Runner → Result RunnerSnapshot RunnerError) where
  pub record DefaultCoordinator : Type 0 where
    pub configuration : CoordinatorConfiguration
    pub snapshot : Option CycleSnapshot
    pub runner_discover : DefaultRunnerDiscover M C
    pub queuer : DefaultQueuer H

  pub new : CoordinatorConfiguration → DefaultCoordinator
  new configuration = record {
    configuration = configuration;
    snapshot = none;
    runner_discover = Discover.new M C;
    queuer = Queue.new H configuration.queue_configuration;
  }

  unfoldable pub cycle_snapshot : RunnerRegistry M → CycleSnapshot
  cycle_snapshot registry = map runner_cycle_once (all_runners M registry)

  -- The discover's cycle always succeeds, so this one does.
  pub cycle_once : RunnerRegistry M → DefaultCoordinator → DefaultCoordinator × CycleSnapshot
  unfolding cycle_snapshot
  cycle_once registry self =
      let snapshot = cycle_snapshot registry in
      (
        record self {
          snapshot = some snapshot;
          runner_discover = Discover.cycle_once M C registry snapshot self.runner_discover;
        },
        snapshot,
      )

  pub put : Request → (ℕ → List (Wakeup H)) → DefaultCoordinator → Put H
  put request wakeups self = Queue.put H request wakeups self.queuer
