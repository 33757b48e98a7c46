-- ===== src/Queue.antt =====
-- coordinator.rs, `DefaultQueuer`: requests enter a bounded priority queue and leave it for a runner.
-- The categorizer and the runners are trait objects of the caller, so they are parameters; the runner
-- that receives a request is recorded. A time is a number of nanoseconds, and what other threads do
-- in a wait of the queue is given for the timeout that the call passes on.
pub mod Putting
pub mod Cycling
use strawberry_background.Prelude.{
  ℕ, String, Bool, true, false, ◌&&◌, Option, none, some, List, [], ◌∷◌, Result, ok, err,
  if◌then◌else◌, leb, unwrap_or,
}
use strawberry_background.Request.{
  Identifier, Request, request_cmp, QueueConfiguration, RejectStrategy, discard, wait, RunnerError,
  RegistryError,
}
use strawberry_background.BlockingHeap.{
  BinaryHeap, BlockingHeap, Wakeup, Pushed, pushed, rejected, Popped, popped, gave_up, push, pop,
  with_capacity, len,
}
use strawberry_background.Registry.{Maps, Runner, RunnerRegistry, find_runner_by_identifier}
use strawberry_background.Discover.{ChannelMaps, DefaultRunnerDiscover, DiscoverError}
use strawberry_background.Discover.Searching.{
  Discovered, still_waiting, discovered, discover_runner_by_category, Meanwhile,
}

-- The errors that carry the text of another error keep it.
pub data QueuerError : Type 0 where
  request_discarded wait_timeout : QueuerError
  of_categorizer : String → QueuerError
  of_discover : DiscoverError → QueuerError
  of_registry : RegistryError → QueuerError
  of_runner : RunnerError → QueuerError

-- 1 s and 30 s
abbrev pub one_second : ℕ
one_second = 1000000000

abbrev pub thirty_seconds : ℕ
thirty_seconds = 30000000000

abbrev pub strategy_eq : RejectStrategy → RejectStrategy → Bool
strategy_eq discard discard = true
strategy_eq wait wait = true
strategy_eq _ _ = false

abbrev pub reject_strategy_of : Option QueueConfiguration → RejectStrategy
reject_strategy_of none = wait
reject_strategy_of (some c) = unwrap_or c.reject_strategy wait

abbrev pub not_full_timeout : Option QueueConfiguration → ℕ
not_full_timeout none = thirty_seconds
not_full_timeout (some c) = unwrap_or c.wait_for_queue_not_full_timeout thirty_seconds

abbrev pub not_empty_timeout : Option QueueConfiguration → ℕ
not_empty_timeout none = one_second
not_empty_timeout (some c) = unwrap_or c.wait_for_queue_not_empty_timeout one_second

abbrev pub runner_timeout : Option QueueConfiguration → ℕ
runner_timeout none = one_second
runner_timeout (some c) = unwrap_or c.wait_for_runner_timeout one_second

abbrev pub queue_capacity : Option QueueConfiguration → ℕ
queue_capacity none = 128
queue_capacity (some c) = unwrap_or c.max_request_count 128

module _ (H : BinaryHeap request_cmp) where
  pub record DefaultQueuer : Type 0 where
    pub configuration : Option QueueConfiguration
    pub queue : BlockingHeap H

  pub new : Option QueueConfiguration → DefaultQueuer
  new configuration = record {
    configuration = configuration;
    queue = with_capacity H (queue_capacity configuration);
  }

  -- A call that is over leaves a heap.
  pub data Put : Type 0 where
    putting : Put
    put_over : H.Heap → Result (Unit {0}) QueuerError → Put

  put_result : Pushed H → Put
  put_result Pushed.blocked = putting
  put_result (pushed heap) = put_over heap (ok tt)
  put_result (rejected _ heap) = put_over heap (err wait_timeout)

  unfoldable pub put : Request → (ℕ → List (Wakeup H)) → DefaultQueuer → Put
  unfolding put_result
  put request wakeups self =
      let timeout = not_full_timeout self.configuration in
      if leb self.queue.capacity (len H self.queue.inner)
        && strategy_eq (reject_strategy_of self.configuration) discard
      then put_result (push H self.queue request (wakeups timeout))
      else put_result (push H self.queue request (wakeups timeout))

  module _ (M : Maps) (C : ChannelMaps) (categorize : Request → Result String String)
      (runner_submit : Runner → Request → Result (Unit {0}) RunnerError) where
    -- How a cycle ends: the heap and the discover that it leaves, what it has submitted to whom, and
    -- its result; or where it still waits, with what it has taken from the queue.
    pub data Cycled : Type 0 where
      waiting_for_request : Cycled
      waiting_for_runner : H.Heap → Request → Cycled
      cycled :
          H.Heap
          → DefaultRunnerDiscover M C
          → List (Runner × Request)
          → Result (Unit {0}) QueuerError
          → Cycled

    pub submitted_result : Result (Unit {0}) RunnerError → Result (Unit {0}) QueuerError
    submitted_result (ok _) = ok tt
    submitted_result (err e) = err (of_runner e)

    submit_to : H.Heap → DefaultRunnerDiscover M C → Request → Result Runner RegistryError → Cycled
    unfolding submitted_result
    submit_to heap discover request (err e) = cycled heap discover [] (err (of_registry e))
    submit_to heap discover request (ok runner) =
        cycled heap discover ((runner, request) ∷ [])
          (submitted_result (runner_submit runner request))

    dispatch : RunnerRegistry M → H.Heap → Request → Discovered M C → Cycled
    unfolding submit_to
    dispatch registry heap request still_waiting = waiting_for_runner heap request
    dispatch registry heap request (discovered discover (err e)) =
        cycled heap discover [] (err (of_discover e))
    dispatch registry heap request (discovered discover (ok identifier)) =
        submit_to heap discover request (find_runner_by_identifier M identifier registry)

    assign :
        RunnerRegistry M
        → ℕ
        → Meanwhile M C
        → DefaultRunnerDiscover M C
        → H.Heap
        → Request
        → Result String String
        → Cycled
    unfolding dispatch
    assign registry timeout meanwhile discover heap request (err e) =
        cycled heap discover [] (err (of_categorizer e))
    assign registry timeout meanwhile discover heap request (ok category) =
        dispatch registry heap request
          (discover_runner_by_category M C registry category timeout meanwhile discover)

    take_request :
        RunnerRegistry M → ℕ → Meanwhile M C → DefaultRunnerDiscover M C → Popped H → Cycled
    unfolding assign
    take_request registry timeout meanwhile discover Popped.blocked = waiting_for_request
    take_request registry timeout meanwhile discover (gave_up heap) =
        cycled heap discover [] (ok tt)
    take_request registry timeout meanwhile discover (popped request heap) =
        assign registry timeout meanwhile discover heap request (categorize request)

    unfoldable pub cycle_once :
        RunnerRegistry M
        → (ℕ → List (Wakeup H))
        → Meanwhile M C
        → DefaultRunnerDiscover M C
        → DefaultQueuer
        → Cycled
    unfolding take_request
    cycle_once registry wakeups meanwhile discover self =
        take_request registry (runner_timeout self.configuration) meanwhile discover
          (pop H self.queue (wakeups (not_empty_timeout self.configuration)))
