-- ===== src/BlockingHeap/Bounds.antt =====
-- What a call of `push` or `pop` does, whatever the other threads do during its waits.
use mathlib.Core.List.{Permᴰ}
use strawberry_background.Prelude.{
  ℕ, ◌≤◌, ◌<◌, ◌≡◌, refl, ◌≢◌, inl, inr, true, false, List, [], ◌∷◌, map, Ordering, leb, All, In,
  arith, Option-cases, Bool-cases,
}
use strawberry_background.BlockingHeap.{
  BinaryHeap, BlockingHeap, Wakeup, Pushed, pushed, rejected, Popped, popped, gave_up, push, pop,
  push_loop, pop_loop, pop_wait, len,
}

module _ {A : Type 0} {cmp : A → A → Ordering} (H : BinaryHeap cmp) where
  -- The heaps that a call sees: at its start, and after each wait.
  abbrev pub seen : H.Heap → List (Wakeup H) → List H.Heap
  seen heap ws = heap ∷ map (λ w. w.heap) ws

  abbrev pub TimesOut : List (Wakeup H) → H.Heap → Type 0
  TimesOut ws h = (w : Wakeup H) × In w ws × (w.timed_out ≡ true) × (w.heap ≡ h)

  -- What each result of `push` says.
  abbrev pub PushMeans : ℕ → A → H.Heap → List (Wakeup H) → Pushed H → Type 0
  PushMeans capacity item heap ws Pushed.blocked =
      All (λ h. capacity ≤ len H h) (seen heap ws) × All (λ w. w.timed_out ≡ false) ws
  PushMeans capacity item heap ws (pushed h') =
      (h : H.Heap) × In h (seen heap ws) × (len H h < capacity) × (h' ≡ H.push item h)
  PushMeans capacity item heap ws (rejected item' h') =
      (item' ≡ item) × (capacity ≤ len H heap) × TimesOut ws h'

  -- One more wait, which did not time out, at a full heap.
  PushMeans-wait :
      (capacity : ℕ) (item : A) (heap : H.Heap) (w : Wakeup H) (ws : List (Wakeup H)) (r : Pushed H)
      → capacity ≤ len H heap
      → w.timed_out ≡ false
      → PushMeans capacity item w.heap ws r
      → PushMeans capacity item heap (w ∷ ws) r
  PushMeans-wait capacity item heap w ws Pushed.blocked full e h = ((full, h.0), (e, h.1))
  PushMeans-wait capacity item heap w ws (pushed h') full e (h, m, room, same) =
      (h, inr m, room, same)
  PushMeans-wait capacity item heap w ws (rejected a h') full e (same, _, (v, m, t, at)) =
      (same, full, (v, inr m, t, at))

  push_loop-PushMeans :
      (capacity : ℕ) (item : A) (heap : H.Heap) (ws : List (Wakeup H))
      → PushMeans capacity item heap ws (push_loop H capacity item heap ws)
  unfolding push_loop
  push_loop-PushMeans capacity item heap [] = elim (Bool-cases (leb capacity (len H heap))) [
    | inl full ↦ rw full ((ground arith, tt), tt)
    | inr room ↦ rw room (heap, inl refl, ground arith, refl)
  ]
  push_loop-PushMeans capacity item heap (w ∷ ws) = elim (Bool-cases (leb capacity (len H heap))) [
    | inr room ↦ rw room (heap, inl refl, ground arith, refl)
    | inl full ↦ elim (Bool-cases w.timed_out) [
      | inl late ↦ rw full (simp late (refl, ground arith, (w, inl refl, late, refl)))
      | inr woken ↦ rw full (
          simp woken (
            PushMeans-wait capacity item heap w ws _ (ground arith) woken
              (push_loop-PushMeans capacity item w.heap ws)))
    ]
  ]

  -- `push` waits on exactly while every heap that it sees is full and no wait times out. It stores
  -- the item in a heap that it saw with room to spare, and hands the item back unchanged only at a
  -- wait that timed out.
  pub push-PushMeans :
      (self : BlockingHeap H) (item : A) (ws : List (Wakeup H))
      → PushMeans self.capacity item self.inner ws (push H self item ws)
  unfolding push
  push-PushMeans self item ws = push_loop-PushMeans self.capacity item self.inner ws

  -- What each result of `pop` says.
  abbrev pub PopMeans : H.Heap → List (Wakeup H) → Popped H → Type 0
  PopMeans heap ws Popped.blocked =
      All (λ h. H.items h ≡ []) (seen heap ws) × All (λ w. w.timed_out ≡ false) ws
  PopMeans heap ws (popped a h') =
      (h : H.Heap) × In h (seen heap ws)
      × Permᴰ (H.items h) (a ∷ H.items h')
      × All (λ b. cmp b a ≢ Ordering.gt) (H.items h')
  PopMeans heap ws (gave_up h') = (H.items heap ≡ []) × TimesOut ws h'

  PopMeans-wait :
      (heap : H.Heap) (w : Wakeup H) (ws : List (Wakeup H)) (r : Popped H)
      → H.items heap ≡ []
      → w.timed_out ≡ false
      → PopMeans w.heap ws r
      → PopMeans heap (w ∷ ws) r
  PopMeans-wait heap w ws Popped.blocked none_left e h = ((none_left, h.0), (e, h.1))
  PopMeans-wait heap w ws (popped a h') none_left e (h, m, p, most) = (h, inr m, p, most)
  PopMeans-wait heap w ws (gave_up h') none_left e (_, (v, m, t, at)) =
      (none_left, (v, inr m, t, at))

  pop_loop-PopMeans : (heap : H.Heap) (ws : List (Wakeup H)) → PopMeans heap ws (pop_loop H heap ws)
  unfolding pop_loop pop_wait
  pop_loop-PopMeans heap [] = elim (Option-cases (H.pop heap)) [
    | inl e ↦ rw (e, pop_wait) ((H.pop-eq-none heap e, tt), tt)
    | inr ((a, rest), e) ↦
        let (p, most) = H.pop-eq-some heap rest a e in rw (e, pop_wait) (heap, inl refl, p, most)
  ]
  pop_loop-PopMeans heap (w ∷ ws) = elim (Option-cases (H.pop heap)) [
    | inr ((a, rest), e) ↦
        let (p, most) = H.pop-eq-some heap rest a e in rw (e, pop_wait) (heap, inl refl, p, most)
    | inl e ↦ elim (Bool-cases w.timed_out) [
      | inl late ↦ rw (e, pop_wait) (simp late (H.pop-eq-none heap e, (w, inl refl, late, refl)))
      | inr woken ↦
          rw (e, pop_wait)
            (simp woken (
              PopMeans-wait heap w ws _ (H.pop-eq-none heap e) woken (pop_loop-PopMeans w.heap ws)))
    ]
  ]

  -- `pop` waits on exactly while every heap that it sees is empty and no wait times out. The item
  -- that it takes is one of a heap that it saw, no other item of that heap is greater, and the rest
  -- stays.
  pub pop-PopMeans :
      (self : BlockingHeap H) (ws : List (Wakeup H)) → PopMeans self.inner ws (pop H self ws)
  unfolding pop
  pop-PopMeans self ws = pop_loop-PopMeans self.inner ws
