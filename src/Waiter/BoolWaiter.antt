-- ===== src/Waiter/BoolWaiter.antt =====
-- `BoolWaiter` of utils/waiter.rs.
use strawberry_background.Prelude.{
  ℕ, Bool, true, false, Option, none, some, List, if◌then◌else◌, not,
}
use strawberry_background.Waiter.{Turn, Waited, wait_loop}

abbrev pub same : Bool → Bool → Bool
same true b = b
same false b = not b

-- `guard.deref() == &target`, and the value that is returned then.
abbrev pub meets : Bool → Bool → Option Bool
meets target value = if same value target then some target else none

unfoldable pub wait_timeout : Bool → ℕ → Bool → List (Turn Bool) → Waited Bool Bool
wait_timeout target timeout value turns = wait_loop (meets target) timeout value turns

unfoldable pub reset : Bool → Bool → Bool
reset val value = if same value val then value else val

-- `set` notifies one of the threads that wait.
unfoldable pub set : Bool → Bool → Bool
unfolding reset
set val value = reset val value

-- Between the two locks, other threads may act: `relocked` is what they leave.
unfoldable pub reset_and_wait_timeout :
    Bool → Bool → ℕ → Bool → (Bool → Bool) → List (Turn Bool) → Waited Bool Bool
unfolding wait_timeout
reset_and_wait_timeout to target timeout value relocked turns =
    wait_timeout target timeout (relocked to) turns
