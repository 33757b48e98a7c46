-- ===== src/Tests/Running.antt =====
-- The runner, the retries and the waiters.
use strawberry_background.Prelude.{
  ℕ, zero, suc, ◌≡◌, refl, ◌^◌, ◌/◌, Bool, true, false, Option, none, some, List, [], ◌∷◌, Result,
  ok, err, arith, if◌then◌else◌, nat_eq,
}
use strawberry_background.Request.{
  Request, RunnerStatus, RunnerError, error_forward, RunnerConfiguration,
}
use strawberry_background.Runner.Status.{StatusManager, new_runner, submit}
use strawberry_background.Runner.Status.Limit.{
  starts, accepts, Counted, Reach-Counted, submit_all, count_ok, submit_all-count,
}
use strawberry_background.Runner.Retry.{start, new_retryer, panicked}
use strawberry_background.Runner.Retry.Ending.{Ends, start-Ends}
use strawberry_background.Runner.Retry.Panicking.{start-panics}
use strawberry_background.Waiter.{Turn, wait_loop}
use strawberry_background.Waiter.Answers.{Answers, wait_loop-Answers}
use strawberry_background.Waiter.BoolWaiter.{meets}
use strawberry_background.Tests.{named, urgent, plain, backing_off}

abbrev configuration : RunnerConfiguration
configuration = record { identifier = named "worker"; accepted_categories = none }

-- A manager after its third request, before it updates its status.
abbrev three_of_three : StatusManager
three_of_three = record {
  max_concurrency_count = 3;
  status = RunnerStatus.working;
  ongoing_request_count = 3;
}

one_accepted : (submit urgent (new_runner (named "worker") configuration 2)).1 ≡ ok tt
unfolding submit new_runner
one_accepted = refl

Reach-Counted_example : Counted 2 1 (submit urgent (new_runner (named "worker") configuration 2)).0
Reach-Counted_example =
    Reach-Counted (named "worker") configuration 2 1
      (submit urgent (new_runner (named "worker") configuration 2)).0 (omega arith)
      (accepts 0 (new_runner (named "worker") configuration 2) urgent starts one_accepted)

submit_all-count_example :
    count_ok
      (submit_all
        (urgent ∷ plain ∷ backing_off ∷ [])
        (new_runner (named "worker") configuration 2)).1
    ≡ 2
submit_all-count_example =
    submit_all-count (named "worker") configuration 2 (urgent ∷ plain ∷ backing_off ∷ [])
      (omega arith)

-- Code that fails twice and then succeeds.
abbrev third_time : ℕ → Request → Result (Unit {0}) RunnerError
third_time zero q = err (error_forward "again")
third_time (suc zero) q = err (error_forward "again")
third_time (suc (suc n)) q = ok tt

-- Powers of 2, and a jitter of a quarter with its sign: a negative one is refused.
abbrev powers : ℕ → ℕ → ℕ
powers base n = 2 ^ n

abbrev scale : ℕ → Bool → Option ℕ
scale duration true = some (duration / 4)
scale duration false = if nat_eq duration 0 then some 0 else none

abbrev positive : ℕ → Bool
positive n = true

abbrev negative : ℕ → Bool
negative n = false

start-Ends_example :
    Ends powers scale positive third_time urgent 0
      (start powers scale positive third_time 3 (new_retryer urgent))
start-Ends_example =
    start-Ends powers scale positive third_time 3 urgent (omega arith) (omega arith)

start-panics_example :
    start powers scale negative third_time 1 (new_retryer backing_off)
    ≡ record { ended = panicked; attempts = 1; sleeps = [] }
start-panics_example =
    start-panics powers scale negative third_time 0 2 100 1073741824 1000 backing_off refl refl
      (ground arith) (omega arith) (λ d h. ground (arith, h))

-- The first wait ends without a change, and the value changes during the second.
abbrev turns : List (Turn Bool)
turns =
    record { elapsed = 3; value = false; wait_timed_out = false }
    ∷ record { elapsed = 5; value = true; wait_timed_out = false }
    ∷ []

wait_loop-Answers_example :
    Answers (meets true) 10 false turns (wait_loop (meets true) 10 false turns)
wait_loop-Answers_example = wait_loop-Answers (meets true) 10 false turns
