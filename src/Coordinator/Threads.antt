-- ===== src/Coordinator/Threads.antt =====
-- coordinator.rs, the loops of the two threads: a cycle for each turn until the token is cancelled. A
-- turn carries what it finds; turns that are used up leave the loop running.
use strawberry_background.Prelude.{
  ℕ, Bool, true, false, ◌≡◌, refl, ap, Option, none, some, List, [], ◌∷◌, ◌++◌, Result, ok, err,
  unwrap_or, String,
}
use strawberry_background.Request.{
  Request, RunnerSnapshot, RunnerError, QueueConfiguration, request_cmp,
}
use strawberry_background.BlockingHeap.{BinaryHeap, Wakeup}
use strawberry_background.Registry.{Maps, Runner, RunnerRegistry}
use strawberry_background.Discover.{ChannelMaps, DefaultRunnerDiscover}
use strawberry_background.Discover.Searching.{Meanwhile}
use strawberry_background.Queue.{
  DefaultQueuer, QueuerError, Cycled, waiting_for_request, waiting_for_runner, cycled,
}
use strawberry_background.Queue
use strawberry_background.Coordinator.{DefaultCoordinator, cycle_once}

-- 100 ms
abbrev hundred_millis : ℕ
hundred_millis = 100000000

abbrev queuer_interval : Option QueueConfiguration → ℕ
queuer_interval none = hundred_millis
queuer_interval (some c) = unwrap_or c.cycle_interval hundred_millis

module _ (H : BinaryHeap request_cmp) (M : Maps) (C : ChannelMaps)
    (runner_cycle_once : Runner → Result RunnerSnapshot RunnerError) where
  abbrev Coordinator : Type 0
  Coordinator = DefaultCoordinator H M C runner_cycle_once

  -- The state after the turns, how long it has slept, and whether the loop has ended.
  pub record CyclerRun : Type 0 where
    pub coordinator : Coordinator
    pub sleeps : List ℕ
    pub ended : Bool

  -- A turn: whether the token is cancelled, and the registry. A cycle never fails, so `on_err` is not called.
  unfoldable pub cycler_thread_entrypoint : List (Bool × RunnerRegistry M) → Coordinator → CyclerRun
  cycler_thread_entrypoint [] self = record { coordinator = self; sleeps = []; ended = false }
  cycler_thread_entrypoint ((true, registry) ∷ turns) self = record {
    coordinator = self;
    sleeps = [];
    ended = true;
  }
  cycler_thread_entrypoint ((false, registry) ∷ turns) self =
      let next = (cycle_once H M C runner_cycle_once registry self).0 in
      let rest = cycler_thread_entrypoint turns next in
      record rest {
        sleeps = unwrap_or self.configuration.cycle_interval hundred_millis ∷ rest.sleeps;
      }

  -- After the turn that finds the token cancelled, the cycler does nothing, whatever would come.
  pub cycler_thread_entrypoint-append :
      (before later : List (Bool × RunnerRegistry M)) (registry : RunnerRegistry M)
      (self : Coordinator)
      → cycler_thread_entrypoint (before ++ (true, registry) ∷ later) self
        ≡ cycler_thread_entrypoint (before ++ (true, registry) ∷ []) self
  unfolding cycler_thread_entrypoint
  cycler_thread_entrypoint-append [] later registry self = refl
  cycler_thread_entrypoint-append ((true, r) ∷ before) later registry self = refl
  cycler_thread_entrypoint-append ((false, r) ∷ before) later registry self =
      ap
        (λ (rest : CyclerRun). record rest {
          sleeps = unwrap_or self.configuration.cycle_interval hundred_millis ∷ rest.sleeps;
        })
        (cycler_thread_entrypoint-append before later registry
          (cycle_once H M C runner_cycle_once r self).0)

module _ (H : BinaryHeap request_cmp) (M : Maps) (C : ChannelMaps)
    (categorize : Request → Result String String)
    (runner_submit : Runner → Request → Result (Unit {0}) RunnerError) where
  -- What a turn of the queuer finds.
  pub record QueuerTurn : Type 0 where
    pub cancelled : Bool
    pub registry : RunnerRegistry M
    pub wakeups : ℕ → List (Wakeup H)
    pub meanwhile : Meanwhile M C

  -- What the turns submit to whom, the errors that `on_err` is told, and whether the loop has ended; it
  -- has not when the turns are used up, or a turn still waits.
  pub record QueuerRun : Type 0 where
    pub submitted : List (Runner × Request)
    pub errors : List QueuerError
    pub sleeps : List ℕ
    pub ended : Bool

  abbrev error_of : Result (Unit {0}) QueuerError → List QueuerError
  error_of (ok _) = []
  error_of (err e) = e ∷ []

  after_turn : List (Runner × Request) → List QueuerError → ℕ → QueuerRun → QueuerRun
  after_turn submitted errors interval rest = record {
    submitted = submitted ++ rest.submitted;
    errors = errors ++ rest.errors;
    sleeps = interval ∷ rest.sleeps;
    ended = rest.ended;
  }

  abbrev halted : Bool → QueuerRun
  halted ended = record { submitted = []; errors = []; sleeps = []; ended = ended }

  -- The queuer shares its discover with the coordinator; here no other cycle comes between the turns.
  unfoldable pub queuer_thread_entrypoint :
      List QueuerTurn → DefaultRunnerDiscover M C → DefaultQueuer H → QueuerRun
  unfolding after_turn
  queuer_thread_entrypoint [] discover self = halted false
  queuer_thread_entrypoint (turn ∷ turns) discover self = elim turn.cancelled [
    | true ↦ halted true
    | false ↦
        elim (Queue.cycle_once H M C categorize runner_submit turn.registry turn.wakeups
          turn.meanwhile discover self) [
            | waiting_for_request ↦ halted false
            | waiting_for_runner heap request ↦ halted false
            | cycled heap after submitted result ↦
                after_turn submitted (error_of result) (queuer_interval self.configuration) (
                  queuer_thread_entrypoint turns after
                    (record self { queue = record self.queue { inner = heap } }))
          ]
  ]
