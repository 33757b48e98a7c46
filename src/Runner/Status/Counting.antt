-- ===== src/Runner/Status/Counting.antt =====
-- base.rs: the status that belongs to a count of requests.
use strawberry_background.Prelude.{
  ℕ, zero, suc, ◌≡◌, refl, ◌<◌, true, false, ◌∷◌, ok, err, arith, if◌then◌else◌, ltb, leb, ◌||◌, ap,
  subst, sym,
}
use strawberry_background.Request.{
  Request, RunnerStatus, idle, working, busy, error_forward, Identifier, RunnerConfiguration,
}
use strawberry_background.Runner.Status.{
  StatusManager, BaseRunner, usize_mod, update_status, allow_submission, submit, on_finished,
  change_status, increase_count, decrease_count, new_runner,
}

-- The status that a count stands for.
abbrev pub status_of : ℕ → ℕ → RunnerStatus
status_of max zero = idle
status_of max (suc n) = if ltb (suc n) max then working else busy

change_status-sets :
    (t : RunnerStatus) (m : StatusManager) → change_status t m ≡ record m { status = t }
unfolding change_status
change_status-sets t m = ground arith

-- `update_status` by the parts of the manager.
update_parts :
    (max : ℕ) (s : RunnerStatus) (count : ℕ)
    → update_status
        (record { max_concurrency_count = max; status = s; ongoing_request_count = count })
      ≡ record {
        max_concurrency_count = max;
        status = status_of max count;
        ongoing_request_count = count;
      }
unfolding update_status
update_parts max idle zero = ground arith
update_parts max s (suc n) = ground arith
update_parts max s zero = ground arith

-- `update_status` changes the status alone, to idle at count 0, to working at a positive count below
-- the maximum, and to busy at any other.
pub update_status-status_of :
    (m : StatusManager)
    → update_status m
      ≡ record m { status = status_of m.max_concurrency_count m.ongoing_request_count }
update_status-status_of m = update_parts m.max_concurrency_count m.status m.ongoing_request_count

-- The status says what the count says, and the count is that of the tasks which have not finished.
pub record Inv (unfinished : ℕ) (self : BaseRunner) : Type 0 where
  pub counted : self.status_manager.ongoing_request_count ≡ unfinished
  pub current :
      self.status_manager.status ≡ status_of self.status_manager.max_concurrency_count unfinished

pub new_runner-Inv :
    (i : Identifier) (c : RunnerConfiguration) (max : ℕ) → Inv 0 (new_runner i c max)
unfolding new_runner
new_runner-Inv i c max = record { counted = refl; current = refl }

pub allow_submission_iff :
    (n : ℕ) (self : BaseRunner)
    → Inv n self
    → allow_submission self.status_manager
      ≡ (leb n 0 || ltb n self.status_manager.max_concurrency_count)
unfolding allow_submission
allow_submission_iff zero self v = ground arith
allow_submission_iff (suc n) self v = ground arith

-- A manager that has just been updated.
updated-Inv :
    (n : ℕ) (m : StatusManager) (self : BaseRunner)
    → m.ongoing_request_count ≡ n
    → Inv n (record self { status_manager = update_status m })
updated-Inv n m self e =
    subst (λ u. Inv n (record self { status_manager = u })) (sym (update_status-status_of m))
      (record { counted = e; current = ap (status_of m.max_concurrency_count) e })

increased :
    (n : ℕ) (m : StatusManager)
    → m.ongoing_request_count ≡ n
    → suc n < usize_mod
    → (increase_count m).ongoing_request_count ≡ suc n
unfolding increase_count
increased n m e small = omega arith

decreased :
    (n : ℕ) (m : StatusManager)
    → m.ongoing_request_count ≡ suc n
    → suc n < usize_mod
    → (decrease_count m).ongoing_request_count ≡ n
unfolding decrease_count
decreased n m e small = omega arith

unfoldable pub submitted : Request → BaseRunner → BaseRunner
submitted request self = record self {
  status_manager = update_status (increase_count self.status_manager);
  spawned = request ∷ self.spawned;
}

pub submit-accepts :
    (request : Request) (self : BaseRunner)
    → allow_submission self.status_manager ≡ true
    → submit request self ≡ (submitted request self, ok tt)
unfolding submit submitted
submit-accepts request self allowed = rw allowed refl

pub submit-refuses :
    (request : Request) (self : BaseRunner)
    → allow_submission self.status_manager ≡ false
    → submit request self ≡ (self, err (error_forward "Concurrency Limitation"))
unfolding submit
submit-refuses request self refused = rw refused refl

pub submitted-Inv :
    (n : ℕ) (request : Request) (self : BaseRunner)
    → Inv n self
    → suc n < usize_mod
    → Inv (suc n) (submitted request self)
unfolding submitted
submitted-Inv n request self v small =
    updated-Inv (suc n) (increase_count self.status_manager)
      (record self { spawned = request ∷ self.spawned })
      (increased n self.status_manager v.counted small)

pub on_finished-Inv :
    (n : ℕ) (self : BaseRunner) → Inv (suc n) self → suc n < usize_mod → Inv n (on_finished self)
unfolding on_finished
on_finished-Inv n self v small =
    updated-Inv n (decrease_count self.status_manager) self
      (decreased n self.status_manager v.counted small)
