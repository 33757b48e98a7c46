-- ===== src/Runner/Status.antt =====
-- base.rs, `StatusManager` and `BaseRunner`: how many requests a runner works on, and when it
-- accepts one more. The counter is an `AtomicUsize`, so it wraps around.
pub mod Counting
pub mod Limit
use strawberry_background.Prelude.{
  ℕ, zero, suc, ◌+◌, ◌-◌, ◌%◌, ◌≡◌, Bool, true, false, ◌&&◌, ◌||◌, Option, none, some, List, [],
  ◌∷◌, Result, ok, err, if◌then◌else◌, ltb, leb, String,
}
use strawberry_background.Request.{
  Identifier, Request, RunnerStatus, idle, working, busy, RunnerConfiguration, RunnerSnapshot,
  RunnerError, error_forward,
}

-- 2 ^ 64
abbrev pub usize_mod : ℕ
usize_mod = 18446744073709551616

pub record StatusManager : Type 0 where
  pub max_concurrency_count : ℕ
  pub status : RunnerStatus
  pub ongoing_request_count : ℕ

pub new_manager : ℕ → StatusManager
new_manager max_concurrency_count = record {
  max_concurrency_count = max_concurrency_count;
  status = idle;
  ongoing_request_count = 0;
}

abbrev pub status_eq : RunnerStatus → RunnerStatus → Bool
status_eq idle idle = true
status_eq working working = true
status_eq busy busy = true
status_eq _ _ = false

pub acquire_status : StatusManager → RunnerStatus
acquire_status self = self.status

unfoldable pub allow_submission : StatusManager → Bool
unfolding acquire_status
allow_submission self =
    status_eq (acquire_status self) idle || status_eq (acquire_status self) working

pub increase_count : StatusManager → StatusManager
increase_count self = record self {
  ongoing_request_count = (self.ongoing_request_count + 1) % usize_mod;
}

pub decrease_count : StatusManager → StatusManager
decrease_count self = record self {
  ongoing_request_count = (self.ongoing_request_count + usize_mod - 1) % usize_mod;
}

pub change_status : RunnerStatus → StatusManager → StatusManager
change_status target self =
    if status_eq self.status target then self else record self { status = target }

-- The three tests of `update_status`, on the one count that it loads.
unfoldable pub update_status : StatusManager → StatusManager
unfolding change_status
update_status self =
    let count = self.ongoing_request_count in
    let max = self.max_concurrency_count in
    if leb count 0
    then change_status idle self
    else (let second = if ltb 0 count && ltb count max then change_status working self else self in
        if leb max count then change_status busy second else second)

-- A runner, with the requests for which it has spawned a task.
pub record BaseRunner : Type 0 where
  pub identifier : Identifier
  pub configuration : RunnerConfiguration
  pub status_manager : StatusManager
  pub spawned : List Request

unfoldable pub new_runner : Identifier → RunnerConfiguration → ℕ → BaseRunner
unfolding new_manager
new_runner identifier configuration max_concurrency_count = record {
  identifier = identifier;
  configuration = configuration;
  status_manager = new_manager max_concurrency_count;
  spawned = [];
}

unfoldable pub cycle_once : BaseRunner → Result RunnerSnapshot RunnerError
unfolding acquire_status
cycle_once self =
    ok (record { identifier = self.identifier; status = acquire_status self.status_manager })

unfoldable pub submit : Request → BaseRunner → BaseRunner × Result (Unit {0}) RunnerError
unfolding allow_submission increase_count update_status
submit request self =
    if allow_submission self.status_manager
    then (
      record self {
        status_manager = update_status (increase_count self.status_manager);
        spawned = request ∷ self.spawned;
      },
      ok tt,
    )
    else (self, err (error_forward "Concurrency Limitation"))

-- The callback `on_finished`, which `RunnerTracker::on_result` and `on_error` call.
unfoldable pub on_finished : BaseRunner → BaseRunner
unfolding decrease_count update_status
on_finished self = record self {
  status_manager = update_status (decrease_count self.status_manager);
}
