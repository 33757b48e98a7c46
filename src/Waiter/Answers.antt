-- ===== src/Waiter/Answers.antt =====
-- What the two waiters (utils/waiter.rs) answer.
use strawberry_background.Prelude.{
  ℕ, ◌≡◌, ◌≤◌, ◌<◌, ◌⊎◌, refl, true, false, Option, none, some, List, [], ◌∷◌, ok, err,
  if◌then◌else◌, leb, arith, Bool-cases, inl, inr,
}
use strawberry_background.Request.{timed_out}
use strawberry_background.Waiter.{Turn, Waited, waiting, over, wait_loop, answer}

module _ {V R : Type 0} (ready : V → Option R) (timeout : ℕ) where
  -- The values that the call looks at, in order, and the first of them that is ready.
  abbrev pub FirstReady : V → List (Turn V) → V → R → Type 0
  FirstReady v [] u r = (u ≡ v) × (ready v ≡ some r)
  FirstReady v (t ∷ ts) u r =
      ((u ≡ v) × (ready v ≡ some r)) ⊎ ((ready v ≡ none) × FirstReady t.value ts u r)

  -- The first turn that reaches the timeout, by the clock before its wait or by what the wait says,
  -- and the value that the call leaves then; no value before is ready.
  abbrev pub ExpiresAt : V → List (Turn V) → V → Type 0
  ExpiresAt v [] u = ⊥
  ExpiresAt v (t ∷ ts) u =
      (ready v ≡ none)
      × (((timeout ≤ t.elapsed) × (u ≡ v))
          ⊎ (((t.elapsed < timeout)
                × (t.wait_timed_out ≡ true)
                × (u ≡ t.value)
                × (ready t.value ≡ none))
              ⊎ ((t.elapsed < timeout) × (t.wait_timed_out ≡ false) × ExpiresAt t.value ts u)))

  -- No value is ready, and no turn reaches the timeout.
  abbrev pub Waits : V → List (Turn V) → Type 0
  Waits v [] = ready v ≡ none
  Waits v (t ∷ ts) =
      (ready v ≡ none) × (t.elapsed < timeout) × (t.wait_timed_out ≡ false) × Waits t.value ts

  abbrev pub Answers : V → List (Turn V) → Waited V R → Type 0
  Answers v ts waiting = Waits v ts
  Answers v ts (over u (ok r)) = FirstReady v ts u r
  Answers v ts (over u (err e)) = ExpiresAt v ts u

  answer-Answers :
      (v : V) (ts : List (Turn V)) (o : Option R) (w : Waited V R)
      → ready v ≡ o
      → (o ≡ none → Answers v ts w)
      → Answers v ts (answer ready timeout v o w)
  answer-Answers v ts none w e h = h refl
  answer-Answers v [] (some r) w e h = (refl, e)
  answer-Answers v (t ∷ ts) (some r) w e h = inl (refl, e)

  longer :
      (v : V) (t : Turn V) (ts : List (Turn V)) (w : Waited V R)
      → ready v ≡ none
      → t.elapsed < timeout
      → t.wait_timed_out ≡ false
      → Answers t.value ts w
      → Answers v (t ∷ ts) w
  longer v t ts waiting n e f h = (n, e, f, h)
  longer v t ts (over u (ok r)) n e f h = inr (n, h)
  longer v t ts (over u (err _)) n e f h = (n, inr (inr (e, f, h)))

  -- A wait that says that the time is up: the value is tested once more.
  last_test :
      (v : V) (t : Turn V) (ts : List (Turn V)) (o : Option R)
      → ready v ≡ none
      → t.elapsed < timeout
      → t.wait_timed_out ≡ true
      → ready t.value ≡ o
      → Answers v (t ∷ ts) (answer ready timeout t.value o (over t.value (err timed_out)))
  last_test v t ts none n e f g = (n, inr (inl (e, f, refl, g)))
  last_test v t [] (some r) n e f g = inr (n, (refl, g))
  last_test v t (x ∷ xs) (some r) n e f g = inr (n, inl (refl, g))

  -- A call that succeeds leaves the first ready value of those it looks at, and returns what it stands
  -- for. A call that fails met no ready value before the first turn that reaches the timeout, and
  -- leaves the value of that turn, so a wake-up before the timeout ends no call that finds nothing
  -- ready. A call that goes on waiting met no ready value and no turn that reaches the timeout.
  pub wait_loop-Answers : (v : V) (ts : List (Turn V)) → Answers v ts (wait_loop ready timeout v ts)
  unfolding wait_loop
  wait_loop-Answers v [] = answer-Answers v [] (ready v) _ refl (λ n. n)
  wait_loop-Answers v (t ∷ ts) =
      answer-Answers v (t ∷ ts) (ready v) _ refl
        (λ none_now. rest none_now (wait_loop-Answers t.value ts))
    where
      rest :
          ready v ≡ none
          → Answers t.value ts (wait_loop ready timeout t.value ts)
          → Answers v (t ∷ ts) (
              if leb timeout t.elapsed
              then over v (err timed_out)
              else if t.wait_timed_out
              then answer ready timeout t.value (ready t.value) (over t.value (err timed_out))
              else wait_loop ready timeout t.value ts)
      rest none_now h = elim (Bool-cases (leb timeout t.elapsed)) [
        | inl late ↦ rw late (none_now, inl (ground (arith, late), refl))
        | inr early ↦ elim (Bool-cases t.wait_timed_out) [
          | inl out ↦
              simp (early, out)
                (last_test v t ts (ready t.value) none_now (ground (arith, early)) out refl)
          | inr woken ↦
              simp (early, woken) (longer v t ts _ none_now (ground (arith, early)) woken h)
        ]
      ]
