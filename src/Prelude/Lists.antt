-- ===== src/Prelude/Lists.antt =====
-- Lists over the native numbers, Boolean membership, and predicates by recursion.
use Prim.Native.Nat.{ℕ, zero, suc, ◌+◌}
use mathlib.Core.Path.{◌≡◌, refl, ap, ◌∙◌, sym, subst}
use mathlib.Core.Logic.{◌⊎◌, ◌↔◌, inl, inr}
use mathlib.Core.Bool.{Bool, true, false}
use mathlib.Core.List.{Permᴰ, List, [], ◌∷◌, ◌++◌}
use native.Mathlib.Omega.{arith}
use strawberry_background.Prelude.Tests.{if◌then◌else◌}

module _ {ℓ} {A : Type ℓ} where
  abbrev pub length : List A → ℕ
  length [] = 0
  length (x ∷ xs) = suc (length xs)

  abbrev pub concat : List (List A) → List A
  concat [] = []
  concat (xs ∷ xss) = xs ++ concat xss

  abbrev pub take : ℕ → List A → List A
  take zero xs = []
  take (suc n) [] = []
  take (suc n) (x ∷ xs) = x ∷ take n xs

  abbrev pub drop : ℕ → List A → List A
  drop zero xs = xs
  drop (suc n) [] = []
  drop (suc n) (x ∷ xs) = drop n xs

  abbrev pub is_empty : List A → Bool
  is_empty [] = true
  is_empty (x ∷ xs) = false

  pub List-cases : (xs : List A) → (xs ≡ []) ⊎ ((a : A) × (rest : List A) × (xs ≡ a ∷ rest))
  List-cases [] = inl refl
  List-cases (x ∷ xs) = inr (x, xs, refl)

  pub length-append : (xs ys : List A) → length (xs ++ ys) ≡ length xs + length ys
  length-append [] ys = omega arith
  length-append (x ∷ xs) ys = omega (arith, length-append xs ys)

-- Membership and ∀ by recursion: which of the entries it is, with the equation.
module _ {A : Type 0} where
  abbrev pub In : A → List A → Type 0
  In a [] = ⊥
  In a (x ∷ xs) = (a ≡ x) ⊎ In a xs

  abbrev pub All : (A → Type 0) → List A → Type 0
  All P [] = Unit
  All P (x ∷ xs) = P x × All P xs

  abbrev pub IsDistinct : List A → Type 0
  IsDistinct [] = Unit
  IsDistinct (x ∷ xs) = (¬ In x xs) × IsDistinct xs

  pub All-weaken : (P Q : A → Type 0) → ((a : A) → P a → Q a) → (xs : List A) → All P xs → All Q xs
  All-weaken P Q f [] h = tt
  All-weaken P Q f (x ∷ xs) h = (f x h.0, All-weaken P Q f xs h.1)

  pub All-In : (P : A → Type 0) (xs : List A) {a : A} → All P xs → In a xs → P a
  All-In P [] h m = absurd m
  All-In P (x ∷ xs) h (inl e) = subst P (sym e) h.0
  All-In P (x ∷ xs) h (inr m) = All-In P xs h.1 m

  pub In-append_split : (xs ys : List A) (a : A) → In a (xs ++ ys) → In a xs ⊎ In a ys
  In-append_split [] ys a m = inr m
  In-append_split (x ∷ xs) ys a (inl e) = inl (inl e)
  In-append_split (x ∷ xs) ys a (inr m) = elim (In-append_split xs ys a m) [
    | inl p ↦ inl (inr p)
    | inr q ↦ inr q
  ]

  pub In-append_left : (xs ys : List A) (a : A) → In a xs → In a (xs ++ ys)
  In-append_left [] ys a m = absurd m
  In-append_left (x ∷ xs) ys a (inl e) = inl e
  In-append_left (x ∷ xs) ys a (inr m) = inr (In-append_left xs ys a m)

  pub In-append_right : (xs ys : List A) (a : A) → In a ys → In a (xs ++ ys)
  In-append_right [] ys a m = m
  In-append_right (x ∷ xs) ys a m = inr (In-append_right xs ys a m)

  pub In-append : (xs ys : List A) (a : A) → In a (xs ++ ys) ↔ (In a xs ⊎ In a ys)
  In-append xs ys a = (
    In-append_split xs ys a,
    λ m. elim m [ inl p ↦ In-append_left xs ys a p | inr q ↦ In-append_right xs ys a q ],
  )

  -- Two lists with the same entries, whatever the order.
  abbrev pub SameEntries : List A → List A → Type 0
  SameEntries xs ys = (a : A) → In a xs ↔ In a ys

module _ {A : Type 0} where
  pub length-perm : {xs ys : List A} → Permᴰ xs ys → length xs ≡ length ys
  length-perm Permᴰ.nil = refl
  length-perm (Permᴰ.cons e p) = ap suc (length-perm p)
  length-perm (Permᴰ.swap e f) = refl
  length-perm (Permᴰ.trans p q) = length-perm p ∙ length-perm q

  -- A predicate that holds of all entries does so in any order.
  pub All-perm : (P : A → Type 0) {xs ys : List A} → Permᴰ xs ys → All P xs → All P ys
  All-perm P Permᴰ.nil h = tt
  All-perm P (Permᴰ.cons e p) h = (subst P e h.0, All-perm P p h.1)
  All-perm P (Permᴰ.swap e f) h = (subst P f h.1.0, (subst P e h.0, h.1.1))
  All-perm P (Permᴰ.trans p q) h = All-perm P q (All-perm P p h)

  pub In-perm : {xs ys : List A} → Permᴰ xs ys → (a : A) → In a xs → In a ys
  In-perm Permᴰ.nil a m = m
  In-perm (Permᴰ.cons e p) a (inl h) = inl (h ∙ e)
  In-perm (Permᴰ.cons e p) a (inr m) = inr (In-perm p a m)
  In-perm (Permᴰ.swap e f) a (inl h) = inr (inl (h ∙ e))
  In-perm (Permᴰ.swap e f) a (inr (inl h)) = inl (h ∙ f)
  In-perm (Permᴰ.swap e f) a (inr (inr m)) = inr (inr m)
  In-perm (Permᴰ.trans p q) a m = In-perm q a (In-perm p a m)

  pub In-concat :
      (xss : List (List A)) (a : A) → In a (concat xss) → (xs : List A) × In xs xss × In a xs
  In-concat [] a m = absurd m
  In-concat (xs ∷ xss) a m = elim (In-append_split xs (concat xss) a m) [
    | inl here ↦ (xs, inl refl, here)
    | inr later ↦ let (ys, n, k) = In-concat xss a later in (ys, inr n, k)
  ]

  pub concat-In :
      (xss : List (List A)) (xs : List A) (a : A) → In xs xss → In a xs → In a (concat xss)
  concat-In (ys ∷ xss) xs a (inl e) m =
      In-append_left ys (concat xss) a (subst (λ (z : List A). In a z) e m)
  concat-In (ys ∷ xss) xs a (inr n) m = In-append_right ys (concat xss) a (concat-In xss xs a n m)
  concat-In [] xs a n m = absurd n

module _ {A : Type 0} (p : A → Bool) where
  abbrev pub filter : List A → List A
  filter [] = []
  filter (x ∷ xs) = let rest = filter xs in if p x then x ∷ rest else rest

  kept_split :
      (b : Bool) (x : A) (rest : List A) (a : A)
      → In a (if b then x ∷ rest else rest)
      → ((a ≡ x) × (b ≡ true)) ⊎ In a rest
  kept_split true x rest a (inl e) = inl (e, refl)
  kept_split true x rest a (inr m) = inr m
  kept_split false x rest a m = inr m

  kept_later :
      (b : Bool) (x : A) (rest : List A) (a : A) → In a rest → In a (if b then x ∷ rest else rest)
  kept_later true x rest a m = inr m
  kept_later false x rest a m = m

  In-filter_to : (xs : List A) (a : A) → In a (filter xs) → In a xs × (p a ≡ true)
  In-filter_to [] a m = absurd m
  In-filter_to (x ∷ xs) a m = elim (kept_split (p x) x (filter xs) a m) [
    | inl (e, h) ↦ (inl e, ap p e ∙ h)
    | inr n ↦ let (k, h) = In-filter_to xs a n in (inr k, h)
  ]

  In-filter_from : (xs : List A) (a : A) → In a xs → p a ≡ true → In a (filter xs)
  In-filter_from [] a m h = absurd m
  In-filter_from (x ∷ xs) a (inl e) h =
      subst (λ b. In a (if b then x ∷ filter xs else filter xs)) (sym (ap p (sym e) ∙ h)) (inl e)
  In-filter_from (x ∷ xs) a (inr m) h = kept_later (p x) x (filter xs) a (In-filter_from xs a m h)

  pub In-filter : (xs : List A) (a : A) → In a (filter xs) ↔ (In a xs × (p a ≡ true))
  In-filter xs a = (In-filter_to xs a, λ m. In-filter_from xs a m.0 m.1)
