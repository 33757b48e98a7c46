-- ===== src/Waiter.antt =====
-- utils/waiter.rs: a value under a mutex with a condition variable, of which a thread waits for an
-- optional value to be there (`OptionWaiter`) or for a Boolean to be the one it wants (`BoolWaiter`).
-- A call holds the mutex but for its waits. Each turn of the loop that waits reads the clock, and
-- finds, when `wait_for` returns, the value that other threads left and whether the wait timed out.
pub mod Answers
pub mod OptionWaiter
pub mod BoolWaiter
use strawberry_background.Prelude.{
  ℕ, Bool, Option, none, some, List, [], ◌∷◌, Result, ok, err, if◌then◌else◌, leb,
}
use strawberry_background.Request.{TimeoutError, timed_out}

pub record Turn (V : Type 0) : Type 0 where
  pub elapsed : ℕ
  pub value : V
  pub wait_timed_out : Bool

-- A call with no turn left is still waiting; one that is over leaves the value of its last turn.
pub data Waited (V R : Type 0) : Type 0 where
  waiting : Waited V R
  over : V → Result R TimeoutError → Waited V R

module _ {V R : Type 0} (ready : V → Option R) (timeout : ℕ) where
  abbrev answer : V → Option R → Waited V R → Waited V R
  answer v none otherwise = otherwise
  answer v (some r) otherwise = over v (ok r)

  -- The loop of both waiters: `ready` is the test on the guarded value.
  pub wait_loop : V → List (Turn V) → Waited V R
  wait_loop v [] = answer v (ready v) waiting
  wait_loop v (t ∷ ts) =
      let again = wait_loop t.value ts in
      answer v (ready v) (
        if leb timeout t.elapsed
        then over v (err timed_out)
        else if t.wait_timed_out
        then answer t.value (ready t.value) (over t.value (err timed_out))
        else again)
