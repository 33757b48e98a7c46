-- ===== src/Prelude/Map/Collect.antt =====
-- `collect` into a map, each value under its own key, and the maps where every value stands there.
use mathlib.Core.List.{List, [], ◌∷◌, map}
use mathlib.Core.Path.{◌≡◌, refl, sym, ap, ap₂, subst, ◌∙◌}
use mathlib.Core.Bool.{Bool, true, false}
use mathlib.Core.Option.{Option, none, some}
use mathlib.Core.Logic.{◌≢◌, inl, inr}
use strawberry_background.Prelude.Tests.{Eq, if◌then◌else◌, ==_ne, Bool-cases}
use strawberry_background.Prelude.Lists.{In, IsDistinct, All, filter, In-filter}
use strawberry_background.Prelude.Map.{HashMap, values}
use strawberry_background.Prelude.Map.Laws.{entry_iff, In-map, In-map_inv}

module _ {K V : Type 0} {e : Eq K} (H : HashMap K V e) (key : V → K) where
  -- The later of two values under one key stays.
  abbrev pub collect : List V → H.Map → H.Map
  collect [] m = m
  collect (v ∷ vs) m = collect vs (H.insert (key v) v m)

  -- Every value stands under its own key.
  abbrev pub IsKeyed : H.Map → Type 0
  IsKeyed m = (k : K) (v : V) → H.get k m ≡ some v → key v ≡ k

  pub insert-get_same : (k : K) (v : V) (m : H.Map) → H.get k (H.insert k v m) ≡ some v
  insert-get_same k v m =
      H.get-insert k k v m ∙ ap (λ b. if b then some v else H.get k m) ((e.beq_iff k k).1 refl)

  pub insert-get_other :
      (k j : K) (v : V) (m : H.Map) → k ≢ j → H.get j (H.insert k v m) ≡ H.get j m
  insert-get_other k j v m h =
      H.get-insert k j v m ∙ ap (λ b. if b then some v else H.get j m) (==_ne ⦃e = e⦄ k j h)

  pub empty-IsKeyed : IsKeyed H.empty
  empty-IsKeyed k v h = cc (sym (H.get-empty k) ∙ h)

  pub insert-IsKeyed : (v : V) (m : H.Map) → IsKeyed m → IsKeyed (H.insert (key v) v m)
  insert-IsKeyed v m keyed j w h = elim (Bool-cases (e.beq (key v) j)) [
    | inl same ↦
        let here : key v ≡ j = (e.beq_iff (key v) j).0 same in
        let it : v ≡ w =
          cc (
            sym (H.get-insert (key v) j v m ∙ ap (λ b. if b then some v else H.get j m) same)
            ∙ h) in
        ap key (sym it) ∙ here
    | inr other ↦
        keyed j w
          (sym (H.get-insert (key v) j v m ∙ ap (λ b. if b then some v else H.get j m) other) ∙ h)
  ]

  pub remove-IsKeyed : (k : K) (m : H.Map) → IsKeyed m → IsKeyed (H.remove k m)
  remove-IsKeyed k m keyed j w h = elim (Bool-cases (e.beq k j)) [
    | inl same ↦ cc (sym (H.get-remove k j m ∙ ap (λ b. if b then none else H.get j m) same) ∙ h)
    | inr other ↦
        keyed j w (sym (H.get-remove k j m ∙ ap (λ b. if b then none else H.get j m) other) ∙ h)
  ]

  pub collect-IsKeyed : (vs : List V) (m : H.Map) → IsKeyed m → IsKeyed (collect vs m)
  collect-IsKeyed [] m keyed = keyed
  collect-IsKeyed (v ∷ vs) m keyed =
      collect-IsKeyed vs (H.insert (key v) v m) (insert-IsKeyed v m keyed)

  pub collect-absent :
      (vs : List V) (m : H.Map) (k : K) → ¬ In k (map key vs) → H.get k (collect vs m) ≡ H.get k m
  collect-absent [] m k h = refl
  collect-absent (v ∷ vs) m k h =
      collect-absent vs (H.insert (key v) v m) k (λ n. h (inr n))
      ∙ insert-get_other (key v) k v m (λ p. h (inl (sym p)))

  pub collect-present :
      (vs : List V) (m : H.Map) (v : V)
      → IsDistinct (map key vs)
      → In v vs
      → H.get (key v) (collect vs m) ≡ some v
  collect-present [] m v d n = absurd n
  collect-present (w ∷ vs) m v d (inl p) =
      collect-absent vs (H.insert (key w) w m) (key v)
        (subst (λ x. ¬ In (key x) (map key vs)) (sym p) d.0)
      ∙ subst (λ x. H.get (key x) (H.insert (key w) w m) ≡ some x) (sym p)
          (insert-get_same (key w) w m)
  collect-present (w ∷ vs) m v d (inr n) = collect-present vs (H.insert (key w) w m) v d.1 n

  kept-IsDistinct :
      (p : V → Bool) (v : V) (vs : List V) (b : Bool)
      → ¬ In (key v) (map key vs)
      → IsDistinct (map key (filter p vs))
      → IsDistinct (map key (if b then v ∷ filter p vs else filter p vs))
  kept-IsDistinct p v vs true h d = (
    λ n.
        let (w, l, q) = In-map_inv key (filter p vs) (key v) n in
        h (subst (λ x. In x (map key vs)) (sym q) (In-map key vs w ((In-filter p vs w).0 l).0)),
    d,
  )
  kept-IsDistinct p v vs false h d = d

  filter-IsDistinct :
      (p : V → Bool) (vs : List V) → IsDistinct (map key vs) → IsDistinct (map key (filter p vs))
  filter-IsDistinct p [] d = tt
  filter-IsDistinct p (v ∷ vs) d = kept-IsDistinct p v vs (p v) d.0 (filter-IsDistinct p vs d.1)

  pub value-get : (m : H.Map) (v : V) → IsKeyed m → In v (values H m) → H.get (key v) m ≡ some v
  value-get m v keyed n =
      let ((j, w), l, q) = In-map_inv (λ (p : K × V). p.1) (H.entries m) v n in
      let found : H.get j m ≡ some w = H.get_of_entry j w m l in
      subst (λ x. H.get (key x) m ≡ some x) (sym q)
        (subst (λ i. H.get i m ≡ some w) (sym (keyed j w found)) found)

  pub get-value : (m : H.Map) (k : K) (v : V) → H.get k m ≡ some v → In v (values H m)
  get-value m k v h = In-map (λ (p : K × V). p.1) (H.entries m) (k, v) ((entry_iff H k v m).1 h)

  keys-values :
      (es : List (K × V))
      → All (λ p. key p.1 ≡ p.0) es
      → map key (map (λ (p : K × V). p.1) es) ≡ map (λ (p : K × V). p.0) es
  keys-values [] h = refl
  keys-values (p ∷ es) h = ap₂ (λ x xs. x ∷ xs) h.0 (keys-values es h.1)

  entries_keyed :
      (es : List (K × V))
      → ((k : K) (v : V) → In {A = K × V} (k, v) es → key v ≡ k)
      → All (λ p. key p.1 ≡ p.0) es
  entries_keyed [] h = tt
  entries_keyed ((k, v) ∷ es) h = (h k v (inl refl), entries_keyed es (λ j w n. h j w (inr n)))

  values-IsDistinct : (m : H.Map) → IsKeyed m → IsDistinct (map key (values H m))
  values-IsDistinct m keyed =
      subst IsDistinct
        (sym (
          keys-values (H.entries m)
            (entries_keyed (H.entries m) (λ k v n. keyed k v (H.get_of_entry k v m n)))))
        (H.keys_distinct m)

  abbrev pub keep : (V → Bool) → Option V → Option V
  keep p none = none
  keep p (some v) = if p v then some v else none

  -- A map is found again from its values, those that are filtered out aside.
  pub collect-filter :
      (p : V → Bool) (m : H.Map) (k : K)
      → IsKeyed m
      → H.get k (collect (filter p (values H m)) H.empty) ≡ keep p (H.get k m)
  collect-filter p m k keyed = go (H.get k m) refl
    where
      absent :
          ((v : V) → H.get k m ≡ some v → p v ≡ true → ⊥)
          → H.get k (collect (filter p (values H m)) H.empty) ≡ none
      absent h =
          collect-absent (filter p (values H m)) H.empty k (λ n.
            let (v, l, q) = In-map_inv key (filter p (values H m)) k n in
            let (i, t) = (In-filter p (values H m) v).0 l in
            h v (subst (λ x. H.get x m ≡ some v) (sym q) (value-get m v keyed i)) t)
          ∙ H.get-empty k

      tested :
          (v : V) (b : Bool)
          → H.get k m ≡ some v
          → p v ≡ b
          → H.get k (collect (filter p (values H m)) H.empty) ≡ (if b then some v else none)
      tested v true e t =
          subst (λ x. H.get x (collect (filter p (values H m)) H.empty) ≡ some v) (keyed k v e)
            (collect-present (filter p (values H m)) H.empty v
              (filter-IsDistinct p (values H m) (values-IsDistinct m keyed))
              ((In-filter p (values H m) v).1 (get-value m k v e, t)))
      tested v false e t = absent (λ w d h. cc (d, e, h, t))

      go :
          (o : Option V)
          → H.get k m ≡ o
          → H.get k (collect (filter p (values H m)) H.empty) ≡ keep p o
      go none e = absent (λ v d h. cc (d, e))
      go (some v) e = tested v (p v) e refl

  filter_all : (xs : List V) → filter (λ v. true) xs ≡ xs
  filter_all [] = refl
  filter_all (x ∷ xs) = ap (λ l. x ∷ l) (filter_all xs)

  keep_all : (o : Option V) → keep (λ v. true) o ≡ o
  keep_all none = refl
  keep_all (some v) = refl

  -- A map is found again from its values.
  pub collect-values :
      (m : H.Map) (k : K) → IsKeyed m → H.get k (collect (values H m) H.empty) ≡ H.get k m
  collect-values m k keyed =
      ap (λ vs. H.get k (collect vs H.empty)) (sym (filter_all (values H m)))
      ∙ collect-filter (λ v. true) m k keyed
      ∙ keep_all (H.get k m)
