-- ===== src/Runner/Retry/Ending.antt =====
-- How a run of `start` (base.rs) ends, for every strategy.
use strawberry_background.Prelude.{
  ℕ, zero, suc, ◌+◌, ◌-◌, ◌≡◌, ◌≢◌, ◌≤◌, ◌<◌, ◌∙◌, refl, ap, sym, subst, ◌⊎◌, inl, inr, arith, true,
  false, Option, none, some, List, [], ◌∷◌, Result, is_ok, leb, Bool-cases,
}
use strawberry_background.Request.{
  Request, RunnerError, RetryStrategy, retry_immediately, retry_fixed, retry_exponential_backoff,
}
use strawberry_background.Runner.Status.{usize_mod}
use strawberry_background.Runner.Retry.{
  RequestRetryer, Run, returned, panicked, running, should_retry, sleep, start, retry_loop, slept,
  strategy_sleep, new_retryer,
}
use strawberry_background.Runner.Retry.Rounds.{
  retries, should_retry-leb, should_retry-next, retry_loop-ok, retry_loop-stop, retry_loop-again,
}

abbrev pub IsExponential : Option RetryStrategy → Type 0
IsExponential (some (retry_exponential_backoff _ _ _ _)) = Unit {0}
IsExponential _ = ⊥

module _ {F : Type 0} (powi : ℕ → ℕ → ℕ) (mul_f64 : ℕ → F → Option ℕ) (jitter : ℕ → F)
    (inner : ℕ → Request → Result (Unit {0}) RunnerError) where
  -- What a run shows that began when `from` rounds were over.
  pub record Ends (request : Request) (from : ℕ) (run : Run) : Type 0 where
    pub terminates : run.ended ≢ running
    pub attempted : from < run.attempts
    pub bounded : run.attempts ≤ suc (retries request)
    pub failed : (j : ℕ) → from ≤ j → suc j < run.attempts → is_ok (inner j request) ≡ false
    pub returns :
        run.ended ≡ returned
        → is_ok (inner (run.attempts - 1) request) ≡ true ⊎ run.attempts ≡ suc (retries request)
    pub panics : run.ended ≡ panicked → IsExponential request.retry_strategy

  sleep-panics :
      (o : Option RetryStrategy) (n : ℕ)
      → strategy_sleep powi mul_f64 jitter inner o n ≡ none
      → IsExponential o
  unfolding strategy_sleep
  sleep-panics none n e = cc e
  sleep-panics (some (retry_immediately _)) n e = cc e
  sleep-panics (some (retry_fixed _ _)) n e = cc e
  sleep-panics (some (retry_exponential_backoff _ _ _ _)) n e = tt

  stopped-Ends :
      (request : Request) (k : ℕ) (run : Run)
      → run.ended ≡ returned
      → run.attempts ≡ suc k
      → k ≤ retries request
      → is_ok (inner k request) ≡ true ⊎ k ≡ retries request
      → Ends request k run
  stopped-Ends request k run e a h l = record {
    terminates = λ q. cc (e, q);
    attempted = omega arith;
    bounded = omega arith;
    failed = λ j f g. absurd j f g;
    returns = λ _. last l;
    panics = λ q. cc (e, q);
  }
    where
      absurd : (j : ℕ) → k ≤ j → suc j < run.attempts → is_ok (inner j request) ≡ false
      absurd j f g = ground arith

      last :
          is_ok (inner k request) ≡ true ⊎ k ≡ retries request
          → is_ok (inner (run.attempts - 1) request) ≡ true ⊎ run.attempts ≡ suc (retries request)
      last (inl q) = inl (subst (λ n. is_ok (inner n request) ≡ true) (minus_one) q)
        where
          minus_one : k ≡ run.attempts - 1
          minus_one = omega arith
      last (inr q) = inr (a ∙ ap suc q)

  panicked-Ends :
      (request : Request) (k : ℕ) (run : Run)
      → run.ended ≡ panicked
      → run.attempts ≡ suc k
      → k ≤ retries request
      → IsExponential request.retry_strategy
      → Ends request k run
  panicked-Ends request k run e a h x = record {
    terminates = λ q. cc (e, q);
    attempted = omega arith;
    bounded = omega arith;
    failed = λ j f g. absurd j f g;
    returns = λ q. cc (e, q);
    panics = λ _. x;
  }
    where
      absurd : (j : ℕ) → k ≤ j → suc j < run.attempts → is_ok (inner j request) ≡ false
      absurd j f g = ground arith

  later-Ends :
      (request : Request) (k : ℕ) (run run' : Run)
      → is_ok (inner k request) ≡ false
      → Ends request (suc k) run
      → run'.ended ≡ run.ended
      → run'.attempts ≡ run.attempts
      → Ends request k run'
  later-Ends request k run run' bad v e a = record {
    terminates = λ q. v.terminates (sym e ∙ q);
    attempted = subst (λ n. k < n) (sym a) (weaken v.attempted);
    bounded = subst (λ n. n ≤ suc (retries request)) (sym a) v.bounded;
    failed = λ j f g. elim (Bool-cases (leb (suc k) j)) [
      | inl later ↦ v.failed j (ground arith) (subst (λ n. suc j < n) a g)
      | inr now ↦ subst (λ n. is_ok (inner n request) ≡ false) (same j f now) bad
    ];
    returns = λ q.
        subst (λ n. is_ok (inner (n - 1) request) ≡ true ⊎ n ≡ suc (retries request)) (sym a)
          (v.returns (sym e ∙ q));
    panics = λ q. v.panics (sym e ∙ q);
  }
    where
      weaken : suc k < run.attempts → k < run.attempts
      weaken h = omega arith

      same : (j : ℕ) → k ≤ j → leb (suc k) j ≡ false → k ≡ j
      same j f now = ground arith

  slept-Ends :
      (request : Request) (k n : ℕ) (rest : Run)
      → is_ok (inner k request) ≡ false
      → k ≤ retries request
      → Ends request (suc k) rest
      → (o : Option (List ℕ)) → (o ≡ none → IsExponential request.retry_strategy)
      → Ends request k (slept powi mul_f64 jitter inner o (suc k) rest)
  unfolding slept
  slept-Ends request k n rest bad h v none x = panicked-Ends request k _ refl refl h (x refl)
  slept-Ends request k n rest bad h v (some []) x = later-Ends request k rest _ bad v refl refl
  slept-Ends request k n rest bad h v (some (_ ∷ _)) x = later-Ends request k rest _ bad v refl refl

  round-Ends :
      (fuel k : ℕ) (self : RequestRetryer)
      → is_ok (inner k self.request) ≡ false
      → k ≤ retries self.request
      → (should_retry self).1 ≡ true
      → (should_retry self).0 ≡ record self { retry_count = suc self.retry_count }
      → Ends self.request (suc k) (
          retry_loop powi mul_f64 jitter inner fuel
            (suc k)
            (record self { retry_count = suc self.retry_count }))
      → Ends self.request k (retry_loop powi mul_f64 jitter inner (suc fuel) k self)
  unfolding sleep
  round-Ends fuel k self bad h again next v =
      rw (retry_loop-again powi mul_f64 jitter inner fuel k self bad again) (
        rw next (
          slept-Ends self.request k k _ bad h v
            (strategy_sleep powi mul_f64 jitter inner self.request.retry_strategy
              (suc self.retry_count))
            (sleep-panics self.request.retry_strategy (suc self.retry_count))))

  retry_loop-Ends :
      (fuel k : ℕ) (self : RequestRetryer)
      → suc (retries self.request) < usize_mod
      → self.retry_count ≡ k
      → k ≤ retries self.request
      → retries self.request < k + fuel
      → Ends self.request k (retry_loop powi mul_f64 jitter inner fuel k self)
  retry_loop-Ends zero k self word c h f = ground arith
  retry_loop-Ends (suc fuel) k self word c h f = elim (Bool-cases (is_ok (inner k self.request))) [
    | inl good ↦
        rw (retry_loop-ok powi mul_f64 jitter inner fuel k self good)
          (stopped-Ends self.request k _ refl refl h (inl good))
    | inr bad ↦ elim (Bool-cases (should_retry self).1) [
      | inl again ↦ round-Ends fuel k self bad h again (should_retry-next self small again) (
          retry_loop-Ends fuel (suc k) (record self { retry_count = suc self.retry_count }) word
            (ap suc c) (more again) (omega arith))
      | inr stop ↦
          rw (retry_loop-stop powi mul_f64 jitter inner fuel k self bad stop)
            (stopped-Ends self.request k _ refl refl h (inr (last stop)))
    ]
  ]
    where
      small : suc self.retry_count < usize_mod
      small = smaller c h word
        where
          smaller :
              self.retry_count ≡ k
              → k ≤ retries self.request
              → suc (retries self.request) < usize_mod
              → suc self.retry_count < usize_mod
          smaller a b d = omega arith

      more : (should_retry self).1 ≡ true → suc k ≤ retries self.request
      more again = ground (arith, should_retry-leb self small)

      last : (should_retry self).1 ≡ false → k ≡ retries self.request
      last stop = ground (arith, should_retry-leb self small)

  -- With fuel for one round more than the retries that the request asks for, a run ends. It makes
  -- at least one and at most one more submission than the retries, each but the last one failed;
  -- if it returns, the last one succeeded or the retries are used up; it panics only in the sleep
  -- of an exponential backoff.
  pub start-Ends :
      (fuel : ℕ) (request : Request)
      → suc (retries request) < usize_mod
      → retries request < fuel
      → Ends request 0 (start powi mul_f64 jitter inner fuel (new_retryer request))
  unfolding start new_retryer
  start-Ends fuel request word enough =
      retry_loop-Ends fuel 0 (record { request = request; retry_count = 0 }) word refl (omega arith)
        (omega arith)
