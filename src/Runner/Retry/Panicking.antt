-- ===== src/Runner/Retry/Panicking.antt =====
-- How an exponential backoff can end (base.rs, `sleep`).
use strawberry_background.Prelude.{
  ℕ, suc, ◌*◌, ◌<◌, ◌⊎◌, inl, inr, Bool-cases, ◌≡◌, ◌∙◌, refl, ap, arith, true, false, Option, none,
  some, [], Result, is_ok, leb, unwrap_or,
}
use strawberry_background.Request.{Request, RunnerError, retry_exponential_backoff}
use strawberry_background.Runner.Retry.{
  panicked, strategy_max_retry, should_retry, sleep, start, retry_loop, slept, strategy_sleep,
  jittered, new_retryer, shorter, mul_u32, duration_max,
}
use strawberry_background.Runner.Retry.Rounds.{
  should_retry-leb, should_retry-next, retry_loop-again,
}

module _ {F : Type 0} (powi : ℕ → ℕ → ℕ) (mul_f64 : ℕ → F → Option ℕ) (jitter : ℕ → F)
    (inner : ℕ → Request → Result (Unit {0}) RunnerError) where
  shorter_positive : (a b : ℕ) → 0 < a → 0 < b → 0 < shorter powi mul_f64 jitter inner a b
  unfolding shorter
  shorter_positive a b h g = ground (arith, h, g)

  jittered-none :
      (product max_delay : ℕ) (j : F)
      → 0 < product
      → 0 < max_delay
      → ((d : ℕ) → 0 < d → mul_f64 d j ≡ none)
      → (o : Option ℕ) → (o ≡ none) ⊎ (o ≡ some product)
      → jittered powi mul_f64 jitter inner o max_delay j ≡ none
  unfolding jittered
  jittered-none product max_delay j h g negative o (inl e) = rw e refl
  jittered-none product max_delay j h g negative o (inr e) =
      rw (e, negative _ (shorter_positive product max_delay h g)) refl

  mul_u32-cases : (a b : ℕ) → (mul_u32 a b ≡ none) ⊎ (mul_u32 a b ≡ some (a * b))
  mul_u32-cases a b = elim (Bool-cases (leb (a * b) duration_max)) [
    | inl fits ↦ inr (rw fits refl)
    | inr long ↦ inl (rw long refl)
  ]

  -- An exponential backoff whose delay at the first retry is not zero, and whose jitter there is one
  -- that `mul_f64` refuses for every duration but zero, as it does the negative ones, panics at its
  -- first retry: after one failed submission, without having slept.
  pub start-panics :
      (fuel m initial base max_delay : ℕ) (request : Request)
      → request.retry_strategy
        ≡ some (retry_exponential_backoff (some (suc m)) initial base max_delay)
      → is_ok (inner 0 request) ≡ false
      → 0 < initial * powi base 1
      → 0 < max_delay
      → ((d : ℕ) → 0 < d → mul_f64 d (jitter 1) ≡ none)
      → start powi mul_f64 jitter inner (suc fuel) (new_retryer request)
        ≡ record { ended = panicked; attempts = 1; sleeps = [] }
  unfolding start new_retryer slept sleep strategy_sleep
  start-panics fuel m initial base max_delay request e bad positive delayed negative =
      retry_loop-again powi mul_f64 jitter inner fuel 0 (new_retryer request) bad (allowed e)
      ∙ ap
          (λ o.
            slept powi mul_f64 jitter inner o 1
              (retry_loop powi mul_f64 jitter inner fuel 1 (should_retry (new_retryer request)).0))
          (asleep e negative)
    where
      allowed :
          request.retry_strategy
            ≡ some (retry_exponential_backoff (some (suc m)) initial base max_delay)
          → (should_retry (new_retryer request)).1 ≡ true
      allowed e =
          should_retry-leb (new_retryer request) (omega arith)
          ∙ ap (λ o. leb 1 (unwrap_or (strategy_max_retry o) 0)) e
          ∙ ground arith

      asleep :
          request.retry_strategy
            ≡ some (retry_exponential_backoff (some (suc m)) initial base max_delay)
          → ((d : ℕ) → 0 < d → mul_f64 d (jitter 1) ≡ none)
          → sleep powi mul_f64 jitter inner (should_retry (new_retryer request)).0 ≡ none
      asleep e negative =
          ap (λ s. sleep powi mul_f64 jitter inner s)
            (should_retry-next (new_retryer request) (omega arith) (allowed e))
          ∙ ap (λ o. strategy_sleep powi mul_f64 jitter inner o 1) e
          ∙ jittered-none (initial * powi base 1) max_delay (jitter 1) positive delayed negative _
              (mul_u32-cases initial (powi base 1))
