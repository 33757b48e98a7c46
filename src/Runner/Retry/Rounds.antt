-- ===== src/Runner/Retry/Rounds.antt =====
-- One round of the loop of `start` (base.rs).
use strawberry_background.Prelude.{
  ℕ, suc, ◌+◌, ◌%◌, ◌≡◌, ◌<◌, refl, ap, arith, true, false, Option, none, some, [], Result, is_ok,
  leb, unwrap_or,
}
use strawberry_background.Request.{Request, RunnerError}
use strawberry_background.Runner.Status.{usize_mod}
use strawberry_background.Runner.Retry.{
  RequestRetryer, returned, max_retry, strategy_max_retry, should_retry, sleep, retry_loop, slept,
  count_retry,
}

-- How many retries a request asks for: none without a strategy or without a bound.
abbrev pub retries : Request → ℕ
retries request = unwrap_or (strategy_max_retry request.retry_strategy) 0

count_retry-leb :
    (o : Option ℕ) (self : RequestRetryer)
    → suc (self.retry_count) < usize_mod
    → (count_retry o self).1 ≡ leb (suc self.retry_count) (unwrap_or o 0)
count_retry-leb none self h = ground arith
count_retry-leb (some m) self h = ap (λ c. leb c m) (counted self.retry_count h)
  where
    counted : (c : ℕ) → suc c < usize_mod → (c + 1) % usize_mod ≡ suc c
    counted c k = omega arith

-- The retryer after a test that allowed one more round.
count_retry-next :
    (o : Option ℕ) (self : RequestRetryer)
    → suc (self.retry_count) < usize_mod
    → (count_retry o self).1 ≡ true
    → (count_retry o self).0 ≡ record self { retry_count = suc self.retry_count }
count_retry-next none self h e = cc e
count_retry-next (some m) self h e = λ i. record self { retry_count = counted self.retry_count h i }
  where
    counted : (c : ℕ) → suc c < usize_mod → (c + 1) % usize_mod ≡ suc c
    counted c k = omega arith

pub should_retry-leb :
    (self : RequestRetryer)
    → suc self.retry_count < usize_mod
    → (should_retry self).1 ≡ leb (suc self.retry_count) (retries self.request)
unfolding should_retry max_retry
should_retry-leb self h = count_retry-leb (max_retry self) self h

pub should_retry-next :
    (self : RequestRetryer)
    → suc self.retry_count < usize_mod
    → (should_retry self).1 ≡ true
    → (should_retry self).0 ≡ record self { retry_count = suc self.retry_count }
unfolding should_retry
should_retry-next self h e = count_retry-next (max_retry self) self h e

module _ {F : Type 0} (powi : ℕ → ℕ → ℕ) (mul_f64 : ℕ → F → Option ℕ) (jitter : ℕ → F)
    (inner : ℕ → Request → Result (Unit {0}) RunnerError) where
  -- One round, on the values that the tests of the loop take.
  pub retry_loop-ok :
      (fuel k : ℕ) (self : RequestRetryer)
      → is_ok (inner k self.request) ≡ true
      → retry_loop powi mul_f64 jitter inner (suc fuel) k self
        ≡ record { ended = returned; attempts = suc k; sleeps = [] }
  unfolding retry_loop
  retry_loop-ok fuel k self e = rw e refl

  pub retry_loop-stop :
      (fuel k : ℕ) (self : RequestRetryer)
      → is_ok (inner k self.request) ≡ false
      → (should_retry self).1 ≡ false
      → retry_loop powi mul_f64 jitter inner (suc fuel) k self
        ≡ record { ended = returned; attempts = suc k; sleeps = [] }
  unfolding retry_loop
  retry_loop-stop fuel k self e f = rw (e, f) refl

  pub retry_loop-again :
      (fuel k : ℕ) (self : RequestRetryer)
      → is_ok (inner k self.request) ≡ false
      → (should_retry self).1 ≡ true
      → retry_loop powi mul_f64 jitter inner (suc fuel) k self
        ≡ slept powi mul_f64 jitter inner
            (sleep powi mul_f64 jitter inner (should_retry self).0)
            (suc k)
            (retry_loop powi mul_f64 jitter inner fuel (suc k) (should_retry self).0)
  unfolding retry_loop
  retry_loop-again fuel k self e f = rw (e, f) refl
