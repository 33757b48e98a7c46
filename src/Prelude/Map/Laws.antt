-- ===== src/Prelude/Map/Laws.antt =====
-- What follows from the interface of the hash maps alone.
use mathlib.Core.List.{Permᴰ, List, [], ◌∷◌}
use mathlib.Core.List
use mathlib.Core.List.Permᴰ
use mathlib.Core.Path.{◌≡◌, refl, sym, ap, subst}
use mathlib.Core.Option.{some}
use mathlib.Core.Logic.{◌↔◌, inl, inr}
use strawberry_background.Prelude.Tests.{Eq}
use strawberry_background.Prelude.Lists.{In, In-perm}
use strawberry_background.Prelude.Map.{HashMap, keys}

module _ {A B : Type 0} (f : A → B) where
  pub In-map : (xs : List A) (a : A) → In a xs → In (f a) (List.map f xs)
  In-map [] a m = m
  In-map (x ∷ xs) a (inl e) = inl (ap f e)
  In-map (x ∷ xs) a (inr m) = inr (In-map xs a m)

  pub In-map_inv : (xs : List A) (b : B) → In b (List.map f xs) → (a : A) × In a xs × (b ≡ f a)
  In-map_inv [] b m = absurd m
  In-map_inv (x ∷ xs) b (inl e) = (x, inl refl, e)
  In-map_inv (x ∷ xs) b (inr m) = let (a, n, e) = In-map_inv xs b m in (a, inr n, e)

module _ {K V : Type 0} {e : Eq K} (H : HashMap K V e) where
  -- The entries are the bindings.
  pub entry_iff : (k : K) (v : V) (m : H.Map) → In (k, v) (H.entries m) ↔ (H.get k m ≡ some v)
  entry_iff k v m = (
    H.get_of_entry k v m,
    λ h. In-perm (Permᴰ.symm (H.entries-present k v m h)) (k, v) (inl refl),
  )

  pub key_iff : (k : K) (m : H.Map) → In k (keys H m) ↔ ((v : V) × (H.get k m ≡ some v))
  key_iff k m = (
    λ h.
        let ((j, v), n, p) = In-map_inv (λ (q : K × V). q.0) (H.entries m) k h in
        (v, H.get_of_entry k v m (subst (λ x. In (x, v) (H.entries m)) (sym p) n)),
    λ h. In-map (λ (q : K × V). q.0) (H.entries m) (k, h.0) ((entry_iff k h.0 m).1 h.1),
  )
