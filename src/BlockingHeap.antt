-- ===== src/BlockingHeap.antt =====
-- utils/blocking_heap.rs: a bounded priority queue under a mutex with two condition variables.
-- The heap itself is the standard library's, given by what its documentation says of it. A call
-- holds the mutex but for its waits; what other threads did during a wait, and whether the wait
-- timed out, is the next entry of a list of wake-ups. A call with no wake-up left is still waiting.
pub mod Bounds
pub mod Threads
pub mod Selection
use mathlib.Core.List.{Permᴰ}
use strawberry_background.Prelude.{
  ℕ, ◌+◌, ◌≡◌, ◌≢◌, ◌↔◌, Bool, true, false, Option, none, some, List, [], ◌∷◌, Ordering, leb,
  length, if◌then◌else◌, All,
}

-- `std::collections::BinaryHeap` over an order: which of several greatest items `pop` takes is open.
pub record BinaryHeap {A : Type 0} (cmp : A → A → Ordering) : Type 1 where
  pub Heap : Type 0
  pub empty : Heap
  pub push : A → Heap → Heap
  pub pop : Heap → Option (A × Heap)
  pub items : Heap → List A
  pub items-empty : items empty ≡ []
  pub items-push : (a : A) (h : Heap) → Permᴰ (items (push a h)) (a ∷ items h)
  pub pop-eq-none : (h : Heap) → pop h ≡ none → items h ≡ []
  pub pop-eq-some :
      (h h' : Heap) (a : A)
      → pop h ≡ some (a, h')
      → Permᴰ (items h) (a ∷ items h') × All (λ b. cmp b a ≢ Ordering.gt) (items h')

module _ {A : Type 0} {cmp : A → A → Ordering} (H : BinaryHeap cmp) where
  -- `len`, of the heap; `inner` and `capacity` are the fields of `BlockingHeap`.
  pub record BlockingHeap : Type 0 where
    pub inner : H.Heap
    pub capacity : ℕ

  -- `with_capacity`
  pub with_capacity : ℕ → BlockingHeap
  with_capacity capacity = record { inner = H.empty; capacity = capacity }

  abbrev pub len : H.Heap → ℕ
  len h = length (H.items h)

  -- What a thread finds when `wait_for` returns.
  pub record Wakeup : Type 0 where
    pub heap : H.Heap
    pub timed_out : Bool

  pub data Pushed : Type 0 where
    blocked : Pushed
    pushed : H.Heap → Pushed
    rejected : A → H.Heap → Pushed

  pub data Popped : Type 0 where
    blocked : Popped
    popped : A → H.Heap → Popped
    gave_up : H.Heap → Popped

  push_loop : ℕ → A → H.Heap → List Wakeup → Pushed
  push_loop capacity item heap [] =
      if leb capacity (len heap) then Pushed.blocked else pushed (H.push item heap)
  push_loop capacity item heap (w ∷ ws) =
      let again = push_loop capacity item w.heap ws in
      if leb capacity (len heap)
      then (if w.timed_out then rejected item w.heap else again)
      else pushed (H.push item heap)

  unfoldable pub push : BlockingHeap → A → List Wakeup → Pushed
  unfolding push_loop
  push self item ws = push_loop self.capacity item self.inner ws

  pop_wait : Option (A × H.Heap) → H.Heap → Popped → Popped
  pop_wait none heap waited = waited
  pop_wait (some (item, rest)) heap waited = popped item rest

  pop_loop : H.Heap → List Wakeup → Popped
  unfolding pop_wait
  pop_loop heap [] = pop_wait (H.pop heap) heap Popped.blocked
  pop_loop heap (w ∷ ws) =
      let again = pop_loop w.heap ws in
      pop_wait (H.pop heap) heap (if w.timed_out then gave_up w.heap else again)

  unfoldable pub pop : BlockingHeap → List Wakeup → Popped
  unfolding pop_loop
  pop self ws = pop_loop self.inner ws
