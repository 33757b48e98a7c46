-- ===== src/Runner/Status/Limit.antt =====
-- How many requests a `BaseRunner` (base.rs) works on at a time, and how many it takes in its life.
use strawberry_background.Prelude.{
  ℕ, zero, suc, ◌+◌, ◌-◌, ◌≡◌, refl, ◌≤◌, ◌<◌, true, false, List, [], ◌∷◌, Result, ok, err, is_ok,
  arith, if◌then◌else◌, ltb, leb, length, ◌||◌, ap, subst, sym, ◌∙◌, ◌⊎◌, inl, inr, Bool-cases,
}
use strawberry_background.Request.{
  Request, RunnerError, error_forward, Identifier, RunnerConfiguration,
}
use strawberry_background.Runner.Status.{
  BaseRunner, usize_mod, allow_submission, submit, on_finished, increase_count, decrease_count,
  new_runner,
}
use strawberry_background.Runner.Status.Counting.{
  update_status-status_of, Inv, new_runner-Inv, allow_submission_iff, submitted, submit-accepts,
  submit-refuses, submitted-Inv, on_finished-Inv,
}

-- The most requests that a runner works on: a maximum of 0 still lets the first one in.
abbrev pub limit : ℕ → ℕ
limit zero = 1
limit (suc max) = suc max

-- Calls that do not overlap: submissions, and the callback of a request that is unfinished.
pub data Reach (identifier : Identifier) (configuration : RunnerConfiguration) (max : ℕ)
    : ℕ → BaseRunner → Type 0 where
  starts : Reach identifier configuration max 0 (new_runner identifier configuration max)
  accepts :
      (n : ℕ) (self : BaseRunner) (request : Request)
      → Reach identifier configuration max n self
      → (submit request self).1 ≡ ok tt
      → Reach identifier configuration max (suc n) (submit request self).0
  refuses :
      (n : ℕ) (self : BaseRunner) (request : Request)
      → Reach identifier configuration max n self
      → is_ok (submit request self).1 ≡ false
      → Reach identifier configuration max n (submit request self).0
  finishes :
      (n : ℕ) (self : BaseRunner)
      → Reach identifier configuration max (suc n) self
      → Reach identifier configuration max n (on_finished self)

pub record Counted (max n : ℕ) (self : BaseRunner) : Type 0 where
  pub inv : Inv n self
  pub bounded : n ≤ limit max
  pub max_kept : self.status_manager.max_concurrency_count ≡ max

limit_test : (max n : ℕ) → (leb n 0 || ltb n max) ≡ ltb n (limit max)
limit_test zero zero = refl
limit_test zero (suc n) = ground arith
limit_test (suc max) zero = ground arith
limit_test (suc max) (suc n) = ground arith

below :
    (max n : ℕ) (self : BaseRunner)
    → Counted max n self
    → allow_submission self.status_manager ≡ ltb n (limit max)
below max n self c =
    allow_submission_iff n self c.inv ∙ ap (λ m. leb n 0 || ltb n m) c.max_kept ∙ limit_test max n

submit-max :
    (request : Request) (self : BaseRunner)
    → (submitted request self).status_manager.max_concurrency_count
      ≡ self.status_manager.max_concurrency_count
unfolding submitted increase_count
submit-max request self =
    ap (λ m. m.max_concurrency_count) (update_status-status_of (increase_count self.status_manager))

new-max :
    (i : Identifier) (c : RunnerConfiguration) (max : ℕ)
    → (new_runner i c max).status_manager.max_concurrency_count ≡ max
unfolding new_runner
new-max i c max = refl

finish-max :
    (self : BaseRunner)
    → (on_finished self).status_manager.max_concurrency_count
      ≡ self.status_manager.max_concurrency_count
unfolding on_finished decrease_count
finish-max self =
    ap (λ m. m.max_concurrency_count) (update_status-status_of (decrease_count self.status_manager))

ltb-true : {m n : ℕ} → ltb m n ≡ true → m < n
ltb-true e = ground arith

limit-word : (max : ℕ) → max < usize_mod → limit max < usize_mod
limit-word zero h = omega arith
limit-word (suc max) h = h

submitted-Counted :
    (max n : ℕ) (request : Request) (self : BaseRunner)
    → max < usize_mod
    → Counted max n self
    → n < limit max
    → Counted max (suc n) (submitted request self)
submitted-Counted max n request self word c room = record {
  inv = submitted-Inv n request self c.inv (omega (arith, limit-word max word));
  bounded = omega arith;
  max_kept = submit-max request self ∙ c.max_kept;
}

finished-Counted :
    (max n : ℕ) (self : BaseRunner)
    → max < usize_mod
    → Counted max (suc n) self
    → Counted max n (on_finished self)
finished-Counted max n self word c = record {
  inv = on_finished-Inv n self c.inv (word_below c.bounded (limit-word max word));
  bounded = omega arith;
  max_kept = finish-max self ∙ c.max_kept;
}
  where
    word_below : suc n ≤ limit max → limit max < usize_mod → suc n < usize_mod
    word_below h k = omega arith

-- In every state, a submission is accepted below the limit, and refused without effect from there.
pub submit-cases :
    (max n : ℕ) (self : BaseRunner) (request : Request)
    → Counted max n self
    → (n < limit max × submit request self ≡ (submitted request self, ok tt))
      ⊎ (limit max ≤ n × submit request self ≡ (self, err (error_forward "Concurrency Limitation")))
submit-cases max n self request c = elim (Bool-cases (ltb n (limit max))) [
  | inl e ↦ inl (ltb-true e, submit-accepts request self (below max n self c ∙ e))
  | inr e ↦ inr (ground arith, submit-refuses request self (below max n self c ∙ e))
]

-- Calls that do not overlap keep the count equal to the number of unfinished requests, keep that
-- number within the limit (which is the configured maximum, or 1 when that is 0), and keep the
-- status the one that the count stands for.
pub Reach-Counted :
    (identifier : Identifier) (configuration : RunnerConfiguration) (max n : ℕ) (self : BaseRunner)
    → max < usize_mod
    → Reach identifier configuration max n self
    → Counted max n self
Reach-Counted i c max _ _ word starts = record {
  inv = new_runner-Inv i c max;
  bounded = omega arith;
  max_kept = new-max i c max;
}
Reach-Counted i c max _ _ word (accepts n self request r e) =
    elim (submit-cases max n self request (Reach-Counted i c max n self word r)) [
      | inl h ↦
          subst (λ s. Counted max (suc n) s.0) (sym h.1)
            (submitted-Counted max n request self word (Reach-Counted i c max n self word r) h.0)
      | inr h ↦ cc (e, h.1)
    ]
Reach-Counted i c max _ _ word (refuses n self request r e) =
    elim (submit-cases max n self request (Reach-Counted i c max n self word r)) [
      | inl h ↦ cc (e, ap (λ s. is_ok s.1) h.1)
      | inr h ↦ subst (λ s. Counted max n s.0) (sym h.1) (Reach-Counted i c max n self word r)
    ]
Reach-Counted i c max _ _ word (finishes n self r) =
    finished-Counted max n self word (Reach-Counted i c max (suc n) self word r)

-- One submission after another, with no callback between them.
pub submit_all : List Request → BaseRunner → BaseRunner × List (Result (Unit {0}) RunnerError)
submit_all [] self = (self, [])
submit_all (request ∷ requests) self =
    let first = submit request self in
    let rest = submit_all requests first.0 in (rest.0, first.1 ∷ rest.1)

pub count_ok : {A E : Type 0} → List (Result A E) → ℕ
count_ok [] = 0
count_ok (r ∷ rs) = (if is_ok r then 1 else 0) + count_ok rs

abbrev pub min : ℕ → ℕ → ℕ
min m n = if leb m n then m else n

submit_all-from :
    (max n : ℕ) (requests : List Request) (self : BaseRunner)
    → max < usize_mod
    → Counted max n self
    → count_ok (submit_all requests self).1 ≡ min (length requests) (limit max - n)
unfolding submit_all count_ok
submit_all-from max n [] self word c = ground arith
submit_all-from max n (q ∷ qs) self word c = elim (submit-cases max n self q c) [
  | inl h ↦ rw h.1 (
      step_in _ (length qs) (limit max)
        (submit_all-from max (suc n) qs (submitted q self) word
          (submitted-Counted max n q self word c h.0))
        h.0)
  | inr h ↦ rw h.1 (step_out _ (length qs) (limit max) (submit_all-from max n qs self word c) h.0)
]
  where
    step_in : (a l k : ℕ) → a ≡ min l (k - suc n) → n < k → 1 + a ≡ min (suc l) (k - n)
    step_in a l k e h = ground arith

    step_out : (a l k : ℕ) → a ≡ min l (k - n) → k ≤ n → 0 + a ≡ min (suc l) (k - n)
    step_out a l k e h = ground arith

minus_zero : (n : ℕ) → n - 0 ≡ n
minus_zero n = omega arith

-- Without a callback that ends a request, a new runner accepts of any requests, one after another,
-- exactly as many as its limit (its configured maximum, or 1 when that is 0), or all if they are
-- fewer.
pub submit_all-count :
    (identifier : Identifier) (configuration : RunnerConfiguration) (max : ℕ)
    (requests : List Request)
    → max < usize_mod
    → count_ok (submit_all requests (new_runner identifier configuration max)).1
      ≡ min (length requests) (limit max)
submit_all-count i c max requests word =
    submit_all-from max 0 requests (new_runner i c max) word (Reach-Counted i c max 0 _ word starts)
    ∙ ap (min (length requests)) (minus_zero (limit max))
