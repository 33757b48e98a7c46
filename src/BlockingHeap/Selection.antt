-- ===== src/BlockingHeap/Selection.antt =====
-- A heap as a plain list: `BinaryHeap`'s description can be met for every total, transitive order.
use mathlib.Core.List.{Permᴰ}
use mathlib.Core.List.Permᴰ
use strawberry_background.Prelude.{
  ◌≡◌, refl, ◌≢◌, Option, none, some, List, [], ◌∷◌, Ordering, reverse, All, arith, inl, inr,
  Ordering-cases, subst,
}
use strawberry_background.BlockingHeap.{BinaryHeap}

module _ {A : Type 0} (cmp : A → A → Ordering)
    (cmp-reverse : (a b : A) → cmp b a ≡ reverse (cmp a b))
    (cmp_trans : (a b c : A)
      → cmp a b ≢ Ordering.gt
      → cmp b c ≢ Ordering.gt
      → cmp a c ≢ Ordering.gt) where
  -- The greater of the head and the best of the tail.
  choose : A → Option (A × List A) → Option (A × List A)
  choose x none = some (x, [])
  choose x (some (m, rest)) = elim (cmp m x) [
    | Ordering.gt ↦ some (m, x ∷ rest)
    | _ ↦ some (x, m ∷ rest)
  ]

  unfoldable pub take_greatest : List A → Option (A × List A)
  unfolding choose
  take_greatest [] = none
  take_greatest (x ∷ xs) = choose x (take_greatest xs)

  abbrev pub Takes : List A → Option (A × List A) → Type 0
  Takes xs none = xs ≡ []
  Takes xs (some (a, rest)) = Permᴰ xs (a ∷ rest) × All (λ b. cmp b a ≢ Ordering.gt) rest

  All-le :
      (a c : A) (xs : List A)
      → cmp a c ≢ Ordering.gt
      → All (λ b. cmp b a ≢ Ordering.gt) xs
      → All (λ b. cmp b c ≢ Ordering.gt) xs
  All-le a c [] h k = tt
  All-le a c (x ∷ xs) h k = (cmp_trans x a c k.0 h, All-le a c xs h k.1)

  choose_greater :
      (x m : A) (rest : List A)
      → cmp m x ≡ Ordering.gt
      → choose x (some (m, rest)) ≡ some (m, x ∷ rest)
  unfolding choose
  choose_greater x m rest e = ground arith

  choose_head :
      (x m : A) (rest : List A)
      → cmp m x ≢ Ordering.gt
      → choose x (some (m, rest)) ≡ some (x, m ∷ rest)
  unfolding choose
  choose_head x m rest e = ground arith

  choose-Takes :
      (x : A) (xs : List A) (r : Option (A × List A)) → Takes xs r → Takes (x ∷ xs) (choose x r)
  unfolding choose
  choose-Takes x xs none h = (rw h (Permᴰ.refl _), tt)
  choose-Takes x xs (some (m, rest)) h = elim (Ordering-cases (cmp m x)) [
    | inl e ↦ rw (choose_greater x m rest e) (
      Permᴰ.trans (Permᴰ.cons refl h.0) (Permᴰ.swap refl refl),
      (ground (arith, cmp-reverse m x), h.1),
    )
    | inr e ↦ rw (choose_head x m rest e) (Permᴰ.cons refl h.0, (e, All-le m x rest e h.1))
  ]

  pub take_greatest-Takes : (xs : List A) → Takes xs (take_greatest xs)
  unfolding take_greatest
  take_greatest-Takes [] = refl
  take_greatest-Takes (x ∷ xs) = choose-Takes x xs (take_greatest xs) (take_greatest-Takes xs)

  abbrev pub list_heap : BinaryHeap cmp
  list_heap = record {
    Heap = List A;
    empty = [];
    push = λ a h. a ∷ h;
    pop = take_greatest;
    items = λ h. h;
    items-empty = refl;
    items-push = λ a h. Permᴰ.refl _;
    pop-eq-none = λ h e. subst (Takes h) e (take_greatest-Takes h);
    pop-eq-some = λ h h' a e. subst (Takes h) e (take_greatest-Takes h);
  }
