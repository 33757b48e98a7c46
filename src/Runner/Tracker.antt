-- ===== src/Runner/Tracker.antt =====
-- base.rs, `RunnerTracker`: what a runner's own code says of a request is passed on to the watcher,
-- and an outcome ends the request for the runner. `on_finished` is the callback that
-- `BaseRunner::submit` gives it.
use strawberry_background.Prelude.{ℕ, suc, ◌<◌, Option, List}
use strawberry_background.Prelude.Map.{HashMap}
use strawberry_background.Request.{Identifier, Identifier-eq, Request, RunnerError}
use strawberry_background.Registry.{Maps, RunnerRegistry}
use strawberry_background.Listening.{DefaultRunnerWatcher, Told}
use strawberry_background.Listening as Listening
use strawberry_background.Runner.Status.{BaseRunner, on_finished, usize_mod}
use strawberry_background.Runner.Status.Counting.{Inv, submitted, submitted-Inv, on_finished-Inv}

module _ (L : HashMap Identifier ℕ Identifier-eq) (M : Maps) where
  pub record RunnerTracker : Type 0 where
    pub watcher : DefaultRunnerWatcher L

  pub new_tracker : DefaultRunnerWatcher L → RunnerTracker
  new_tracker watcher = record { watcher = watcher }

  pub on_result :
      Option (List ℕ) → RunnerRegistry M → BaseRunner → RunnerTracker → BaseRunner × Told
  on_result bytes registry runner self =
      (on_finished runner, Listening.on_result L M bytes registry self.watcher)

  pub on_error : RunnerError → RunnerRegistry M → BaseRunner → RunnerTracker → BaseRunner × Told
  on_error e registry runner self =
      (on_finished runner, Listening.on_error L M e registry self.watcher)

  pub on_progress : ℕ → Option ℕ → RunnerRegistry M → RunnerTracker → Told
  on_progress value total registry self =
      Listening.on_progress_of L M value total registry self.watcher

  -- A request that was accepted and then reports its outcome leaves the count of the runner, and the
  -- status that belongs to it, as they were, below 2 ^ 64 requests at a time.
  on_result-Inv :
      (n : ℕ) (request : Request) (bytes : Option (List ℕ)) (registry : RunnerRegistry M)
      (runner : BaseRunner) (self : RunnerTracker)
      → Inv n runner
      → suc n < usize_mod
      → Inv n (on_result bytes registry (submitted request runner) self).0
  unfolding on_result
  on_result-Inv n request bytes registry runner self v small =
      on_finished-Inv n (submitted request runner) (submitted-Inv n request runner v small) small
