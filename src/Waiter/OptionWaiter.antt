-- ===== src/Waiter/OptionWaiter.antt =====
-- `OptionWaiter` of utils/waiter.rs.
use strawberry_background.Prelude.{ℕ, Option, none, some, List}
use strawberry_background.Waiter.{Turn, Waited, wait_loop}

module _ {T : Type 0} where
  pub new : Option T
  new = none

  unfoldable pub wait_timeout : ℕ → Option T → List (Turn (Option T)) → Waited (Option T) T
  wait_timeout timeout value turns = wait_loop (λ v. v) timeout value turns

  pub clear : Option T → Option T
  clear value = none

  pub set : T → Option T → Option T
  set val value = some val

  -- Between the two locks, other threads may act: `relocked` is what they leave.
  unfoldable pub clear_and_wait_timeout :
      ℕ → Option T → (Option T → Option T) → List (Turn (Option T)) → Waited (Option T) T
  unfolding clear wait_timeout
  clear_and_wait_timeout timeout value relocked turns =
      wait_timeout timeout (relocked (clear value)) turns
