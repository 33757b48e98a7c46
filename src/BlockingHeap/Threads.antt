-- ===== src/BlockingHeap/Threads.antt =====
-- Threads that share one heap: every critical section of `push` or `pop` is a step, and a wait lets
-- any number of steps of the others happen.
use mathlib.Core.List.{Permᴰ, ◌++◌}
use mathlib.Core.List.Permᴰ
use strawberry_background.Prelude.{
  ℕ, ◌≤◌, ◌<◌, ◌≡◌, refl, inl, inr, some, List, [], ◌∷◌, Ordering, leb, arith, Option-cases,
  Bool-cases, length-perm, ◌⊎◌, sym, subst,
}
use strawberry_background.BlockingHeap.{
  BinaryHeap, BlockingHeap, Wakeup, pushed, popped, push, pop, push_loop, pop_loop, pop_wait, len,
}

module _ {A : Type 0} {cmp : A → A → Ordering} (H : BinaryHeap cmp) where
  -- The heap, with the items that went in and that came out so far.
  pub record Shared : Type 0 where
    pub heap : H.Heap
    pub accepted : List A
    pub served : List A

  abbrev pub store : A → H.Heap → Shared → Shared
  store a h s = record { heap = h; accepted = a ∷ s.accepted; served = s.served }

  abbrev pub serve : A → H.Heap → Shared → Shared
  serve a h s = record { heap = h; accepted = s.accepted; served = a ∷ s.served }

  abbrev pub at : ℕ → H.Heap → BlockingHeap H
  at capacity h = record { inner = h; capacity = capacity }

  -- A critical section is a call that does not wait.
  pub data Step (capacity : ℕ) (s : Shared) : Shared → Type 0 where
    stores :
        (a : A) (h : H.Heap)
        → push H (at capacity s.heap) a [] ≡ pushed h
        → Step capacity s (store a h s)
    serves :
        (a : A) (h : H.Heap)
        → pop H (at capacity s.heap) [] ≡ popped a h
        → Step capacity s (serve a h s)

  pub data Reach (capacity : ℕ) (s : Shared) : Shared → Type 0 where
    here : Reach capacity s s
    next : {t u : Shared} → Reach capacity s t → Step capacity t u → Reach capacity s u

  -- The heap never holds more than its capacity, and no item is lost or made up.
  pub record Inv (capacity : ℕ) (s : Shared) : Type 0 where
    pub bounded : len H s.heap ≤ capacity
    pub conserved : Permᴰ s.accepted (s.served ++ H.items s.heap)

  -- A `push` that does not wait finds room, and pushes.
  push-now :
      (capacity : ℕ) (a : A) (h h' : H.Heap)
      → push_loop H capacity a h [] ≡ pushed h'
      → (len H h < capacity) × (h' ≡ H.push a h)
  unfolding push_loop
  push-now capacity a h h' e = elim (Bool-cases (leb capacity (len H h))) [
    | inl full ↦ absurd (ground (arith, e, full))
    | inr room ↦ (ground (arith, room), ground (arith, e, room))
  ]

  pop-now : (a : A) (h h' : H.Heap) → pop_loop H h [] ≡ popped a h' → H.pop h ≡ some (a, h')
  unfolding pop_loop pop_wait
  pop-now a h h' e = ground (arith, e)

  stored-Inv :
      {capacity : ℕ} (s : Shared) (a : A)
      → len H s.heap < capacity
      → Inv capacity s
      → Inv capacity (store a (H.push a s.heap) s)
  stored-Inv s a room v = record {
    bounded = omega (arith, length-perm (H.items-push a s.heap));
    conserved = Permᴰ.trans (Permᴰ.cons refl v.conserved) (
        Permᴰ.trans (Permᴰ.symm (Permᴰ.middle a s.served (H.items s.heap)))
          (Permᴰ.append_left s.served (Permᴰ.symm (H.items-push a s.heap))));
  }

  served-Inv :
      {capacity : ℕ} (s : Shared) (a : A) (h : H.Heap)
      → H.pop s.heap ≡ some (a, h)
      → Inv capacity s
      → Inv capacity (serve a h s)
  served-Inv s a h e v = record {
    bounded = omega (arith, length-perm (H.pop-eq-some s.heap h a e).0, v.bounded);
    conserved = Permᴰ.trans v.conserved (
        Permᴰ.trans (Permᴰ.append_left s.served (H.pop-eq-some s.heap h a e).0)
          (Permᴰ.middle a s.served (H.items h)));
  }

  Step-Inv : {capacity : ℕ} {s t : Shared} → Step capacity s t → Inv capacity s → Inv capacity t
  unfolding push pop
  Step-Inv {capacity} {s} (stores a h e) v =
      let (room, same) = push-now capacity a s.heap h e in
      subst (λ x. Inv capacity (store a x s)) (sym same) (stored-Inv s a room v)
  Step-Inv {s} (serves a h e) v = served-Inv s a h (pop-now a s.heap h e) v

  abbrev pub start : Shared
  start = record { heap = H.empty; accepted = []; served = [] }

  start-Inv : (capacity : ℕ) → Inv capacity start
  start-Inv capacity = record {
    bounded = rw H.items-empty (omega arith);
    conserved = rw H.items-empty Permᴰ.nil;
  }

  Reach-keeps-Inv :
      {capacity : ℕ} {s t : Shared} → Reach capacity s t → Inv capacity s → Inv capacity t
  Reach-keeps-Inv here v = v
  Reach-keeps-Inv (next r st) v = Step-Inv st (Reach-keeps-Inv r v)

  -- After any history of calls of `push` and `pop` that do not wait, on a new heap, it holds at most
  -- `capacity` items, and what went in is what came out together with what the heap still holds.
  pub Reach-Inv : (capacity : ℕ) (t : Shared) → Reach capacity start t → Inv capacity t
  Reach-Inv capacity t r = Reach-keeps-Inv r (start-Inv capacity)

  pub Reach_trans :
      {capacity : ℕ} {s t u : Shared} → Reach capacity s t → Reach capacity t u → Reach capacity s u
  Reach_trans r here = r
  Reach_trans r (next q st) = next (Reach_trans r q) st

  -- What the other threads do during the waits of a call are steps of theirs.
  abbrev pub Waits : ℕ → Shared → List (Wakeup H) → Type 0
  Waits capacity s [] = Unit
  Waits capacity s (w ∷ ws) =
      (t : Shared) × Reach capacity s t × (t.heap ≡ w.heap) × Waits capacity t ws

  -- The states that the call itself finds: the first, and the one after each wait.
  abbrev pub Finds :
      (capacity : ℕ) (s : Shared) (ws : List (Wakeup H)) → Waits capacity s ws → Shared → Type 0
  Finds capacity s [] others u = u ≡ s
  Finds capacity s (w ∷ ws) (t, r, same, others) u = (u ≡ s) ⊎ Finds capacity t ws others u

  -- Such a state is reached by steps of the others alone.
  Finds-Reach :
      (capacity : ℕ) (s : Shared) (ws : List (Wakeup H)) (others : Waits capacity s ws) (u : Shared)
      → Finds capacity s ws others u
      → Reach capacity s u
  Finds-Reach capacity s [] others u e = subst (λ x. Reach capacity s x) (sym e) here
  Finds-Reach capacity s (w ∷ ws) (t, r, same, others) u (inl e) =
      subst (λ x. Reach capacity s x) (sym e) here
  Finds-Reach capacity s (w ∷ ws) (t, r, same, others) u (inr f) =
      Reach_trans r (Finds-Reach capacity t ws others u f)

  push_loop-Finds :
      (capacity : ℕ) (item : A) (s : Shared) (ws : List (Wakeup H)) (h' : H.Heap)
      (others : Waits capacity s ws)
      → push_loop H capacity item s.heap ws ≡ pushed h'
      → (t : Shared) × Finds capacity s ws others t
        × (len H t.heap < capacity)
        × (h' ≡ H.push item t.heap)
  unfolding push_loop
  push_loop-Finds capacity item s [] h' others e =
      let (room, same) = push-now capacity item s.heap h' e in (s, refl, room, same)
  push_loop-Finds capacity item s (w ∷ ws) h' (t, r, same, others) e =
      elim (Bool-cases (leb capacity (len H s.heap))) [
        | inr room ↦ (s, inl refl, ground (arith, room), ground (arith, e, room))
        | inl full ↦
            let (u, f, room, stored) =
              push_loop-Finds capacity item t ws h' others (rw same (ground (arith, e, full))) in
            (u, inr f, room, stored)
      ]

  pop_loop-Finds :
      (capacity : ℕ) (s : Shared) (ws : List (Wakeup H)) (a : A) (h' : H.Heap)
      (others : Waits capacity s ws)
      → pop_loop H s.heap ws ≡ popped a h'
      → (t : Shared) × Finds capacity s ws others t × (H.pop t.heap ≡ some (a, h'))
  unfolding pop_loop pop_wait
  pop_loop-Finds capacity s [] a h' others e = (s, refl, pop-now a s.heap h' e)
  pop_loop-Finds capacity s (w ∷ ws) a h' (t, r, same, others) e =
      elim (Option-cases (H.pop s.heap)) [
        | inr ((b, rest), got) ↦ (s, inl refl, ground (arith, e, got))
        | inl empty ↦
            let (u, f, taken) =
              pop_loop-Finds capacity t ws a h' others (rw same (ground (arith, e, empty))) in
            (u, inr f, taken)
      ]

  -- A call of `push` that stores its item, with any steps of other threads during its waits, is one
  -- more step of their history: in a state that the call finds and that has room, it pushes its item
  -- onto the heap and changes nothing else, and this is the critical section that stores the item.
  pub push-Reach :
      (self : BlockingHeap H) (item : A) (s : Shared) (ws : List (Wakeup H)) (h' : H.Heap)
      (others : Waits self.capacity s ws)
      → s.heap ≡ self.inner
      → push H self item ws ≡ pushed h'
      → (t : Shared) × Finds self.capacity s ws others t
        × (len H t.heap < self.capacity)
        × (h' ≡ H.push item t.heap)
        × Reach self.capacity s (store item h' t)
  unfolding push push_loop
  push-Reach self item s ws h' others same e =
      let (t, f, room, stored) = push_loop-Finds self.capacity item s ws h' others (rw same e) in
      (
        t,
        f,
        room,
        stored,
        next (Finds-Reach self.capacity s ws others t f)
            (stores item h' (ground (arith, room, stored))),
      )

  -- A call of `pop` that takes an item, with any steps of other threads during its waits, is one more
  -- step of their history: in a state that the call finds, it takes the one item that the heap gives
  -- and changes nothing else, and this is the critical section that serves the item.
  pub pop-Reach :
      (self : BlockingHeap H) (s : Shared) (ws : List (Wakeup H)) (a : A) (h' : H.Heap)
      (others : Waits self.capacity s ws)
      → s.heap ≡ self.inner
      → pop H self ws ≡ popped a h'
      → (t : Shared) × Finds self.capacity s ws others t
        × (H.pop t.heap ≡ some (a, h'))
        × Reach self.capacity s (serve a h' t)
  unfolding pop pop_loop pop_wait
  pop-Reach self s ws a h' others same e =
      let (t, f, taken) = pop_loop-Finds self.capacity s ws a h' others (rw same e) in
      (t, f, taken, next (Finds-Reach self.capacity s ws others t f) (serves a h' (rw taken refl)))
