-- ===== src/Runner/Retry.antt =====
-- base.rs, `RequestRetryer`: the task that submits a request to the runner's own code and retries.
-- That code, the random jitter and the two operations on floats are parameters. A `Duration` is a
-- number of nanoseconds. `retry_count` wraps around, as a release build of the crate does.
pub mod Rounds
pub mod Ending
pub mod Panicking
use strawberry_background.Prelude.{
  ℕ, zero, suc, ◌+◌, ◌*◌, ◌%◌, Bool, true, false, Option, none, some, List, [], ◌∷◌, Result, ok,
  err, is_ok, if◌then◌else◌, leb, List,
}
use strawberry_background.Request.{
  Request, RunnerError, RetryStrategy, retry_immediately, retry_fixed, retry_exponential_backoff,
}
use strawberry_background.Runner.Status.{usize_mod}

-- `Duration::MAX`
abbrev pub duration_max : ℕ
duration_max = 18446744073709551615999999999

pub record RequestRetryer : Type 0 where
  pub request : Request
  pub retry_count : ℕ

pub new_retryer : Request → RequestRetryer
new_retryer request = record { request = request; retry_count = 0 }

pub data Ended : Type 0 where
  returned panicked running : Ended

-- How a run of `start` ended, the submissions it made, and how long it slept between them.
pub record Run : Type 0 where
  pub ended : Ended
  pub attempts : ℕ
  pub sleeps : List ℕ

abbrev pub strategy_max_retry : Option RetryStrategy → Option ℕ
strategy_max_retry none = none
strategy_max_retry (some (retry_immediately max_retry)) = max_retry
strategy_max_retry (some (retry_fixed max_retry _)) = max_retry
strategy_max_retry (some (retry_exponential_backoff max_retry _ _ _)) = max_retry

unfoldable pub max_retry : RequestRetryer → Option ℕ
max_retry self = strategy_max_retry self.request.retry_strategy

abbrev count_retry : Option ℕ → RequestRetryer → RequestRetryer × Bool
count_retry none self = (self, false)
count_retry (some max_retry) self =
    let count = (self.retry_count + 1) % usize_mod in
    (record self { retry_count = count }, leb count max_retry)

pub should_retry : RequestRetryer → RequestRetryer × Bool
unfolding max_retry
should_retry self = count_retry (max_retry self) self

-- `Duration * u32`, which panics when the product is too long.
abbrev pub mul_u32 : ℕ → ℕ → Option ℕ
mul_u32 duration factor =
    if leb (duration * factor) duration_max then some (duration * factor) else none

-- `powi base n` is `base.powi(n as i32) as u32`, `jitter n` the number that is drawn at the n-th
-- retry, and `mul_f64` has no result where it panics. `inner n` answers the n-th submission, from 0.
module _ {F : Type 0} (powi : ℕ → ℕ → ℕ) (mul_f64 : ℕ → F → Option ℕ) (jitter : ℕ → F)
    (inner : ℕ → Request → Result (Unit {0}) RunnerError) where
  pub shorter : ℕ → ℕ → ℕ
  shorter a b = if leb a b then a else b

  abbrev one_sleep : Option ℕ → Option (List ℕ)
  one_sleep none = none
  one_sleep (some duration) = some (duration ∷ [])

  pub jittered : Option ℕ → ℕ → F → Option (List ℕ)
  unfolding shorter
  jittered none max_delay j = none
  jittered (some product) max_delay j = one_sleep (mul_f64 (shorter product max_delay) j)

  -- The sleeps that one call makes, or none if it panics.
  strategy_sleep : Option RetryStrategy → ℕ → Option (List ℕ)
  unfolding jittered
  strategy_sleep none n = some []
  strategy_sleep (some (retry_immediately _)) n = some []
  strategy_sleep (some (retry_fixed _ delay)) n = some (delay ∷ [])
  strategy_sleep (some (retry_exponential_backoff _ initial base max_delay)) n =
      jittered (mul_u32 initial (powi base n)) max_delay (jitter n)

  unfoldable pub sleep : RequestRetryer → Option (List ℕ)
  unfolding strategy_sleep
  sleep self = strategy_sleep self.request.retry_strategy self.retry_count

  pub slept : Option (List ℕ) → ℕ → Run → Run
  slept none attempts rest = record { ended = panicked; attempts = attempts; sleeps = [] }
  slept (some []) attempts rest = rest
  slept (some (d ∷ _)) attempts rest = record rest { sleeps = d ∷ rest.sleeps }

  -- The loop of `start`, of which `attempts` rounds are over.
  pub retry_loop : ℕ → ℕ → RequestRetryer → Run
  unfolding should_retry sleep slept
  retry_loop zero attempts self = record { ended = running; attempts = attempts; sleeps = [] }
  retry_loop (suc fuel) attempts self =
      let next = should_retry self in
      let rest = retry_loop fuel (suc attempts) next.0 in
      if is_ok (inner attempts self.request)
      then record { ended = returned; attempts = suc attempts; sleeps = [] }
      else if next.1
      then slept (sleep next.0) (suc attempts) rest
      else record { ended = returned; attempts = suc attempts; sleeps = [] }

  unfoldable pub start : ℕ → RequestRetryer → Run
  unfolding retry_loop
  start fuel self = retry_loop fuel 0 self
