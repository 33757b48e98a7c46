-- ===== src/Prelude/Map/Assoc.antt =====
-- A hash map as an association list with distinct keys: the interface can be met for every key type.
use mathlib.Core.List.{Permᴰ, List, [], ◌∷◌}
use mathlib.Core.List
use mathlib.Core.List.Permᴰ
use mathlib.Core.Path.{◌≡◌, refl, ap, subst}
use mathlib.Core.Option.{Option, none, some}
use mathlib.Core.Logic.{inl, inr}
use native.Mathlib.Omega.{arith}
use strawberry_background.Prelude.Tests.{Eq, ◌==◌, if◌then◌else◌, ==_refl, Bool-cases}
use strawberry_background.Prelude.Lists.{In, IsDistinct}
use strawberry_background.Prelude.Map.{HashMap}

module _ {K V : Type 0} ⦃e : Eq K⦄ where
  abbrev pub lookup : K → List (K × V) → Option V
  lookup k [] = none
  lookup k ((j, v) ∷ m) = if j == k then some v else lookup k m

  abbrev pub erase : K → List (K × V) → List (K × V)
  erase k [] = []
  erase k ((j, v) ∷ m) = if j == k then erase k m else (j, v) ∷ erase k m

  abbrev pub IsUnique : List (K × V) → Type 0
  IsUnique [] = Unit
  IsUnique ((j, v) ∷ m) = (lookup j m ≡ none) × IsUnique m

  pub lookup-erase :
      (k j : K) (m : List (K × V)) → lookup j (erase k m) ≡ (if k == j then none else lookup j m)
  lookup-erase k j [] = ground arith
  lookup-erase k j ((i, v) ∷ m) =
      ground (arith, lookup-erase k j m, e.beq_iff k j, e.beq_iff i j, e.beq_iff i k)

  pub erase-IsUnique : (k : K) (m : List (K × V)) → IsUnique m → IsUnique (erase k m)
  erase-IsUnique k [] h = tt
  erase-IsUnique k ((i, v) ∷ m) h = ground (arith, erase-IsUnique k m h.1, lookup-erase k i m)

  pub erase_absent : (k : K) (m : List (K × V)) → lookup k m ≡ none → erase k m ≡ m
  erase_absent k [] h = refl
  erase_absent k ((i, v) ∷ m) h = ground (arith, erase_absent k m)

  pub erase_present :
      (k : K) (v : V) (m : List (K × V))
      → IsUnique m
      → lookup k m ≡ some v
      → Permᴰ m ((k, v) ∷ erase k m)
  erase_present k v [] u h = cc
  erase_present k v ((i, w) ∷ m) u h = elim (Bool-cases (i == k)) [
    | inl same ↦
        let here : i ≡ k = (e.beq_iff i k).0 same in
        let gone : erase k m ≡ m = erase_absent k m (subst (λ x. lookup x m ≡ none) here u.0) in
        let value : w ≡ v = cc (rw same at h) in
        rw (same, gone) (Permᴰ.cons (λ t. (here t, value t)) (Permᴰ.refl m))
    | inr other ↦ rw other (
        Permᴰ.trans (Permᴰ.cons refl (erase_present k v m u.1 (rw other at h)))
          (Permᴰ.swap refl refl))
  ]

  pub lookup_of_In :
      (k : K) (v : V) (m : List (K × V)) → IsUnique m → In (k, v) m → lookup k m ≡ some v
  lookup_of_In k v [] u h = absurd h
  lookup_of_In k v ((i, w) ∷ m) u (inl p) =
      ground (arith, ap (λ (x : K × V). x.0) p, ap (λ (x : K × V). x.1) p, e.beq_iff i k)
  lookup_of_In k v ((i, w) ∷ m) u (inr p) = ground (arith, lookup_of_In k v m u.1 p, e.beq_iff i k)

module _ {K V : Type 0} ⦃e : Eq K⦄ where
  In-lookup :
      (k : K) (m : List (K × V)) → lookup k m ≡ none → ¬ In k (List.map (λ (p : K × V). p.0) m)
  In-lookup k [] h n = absurd n
  In-lookup k ((i, w) ∷ m) h (inl same) = ground (arith, e.beq_iff i k)
  In-lookup k ((i, w) ∷ m) h (inr n) =
      In-lookup k m
        (elim (Bool-cases (i == k)) [ inl same ↦ cc (rw same at h) | inr other ↦ rw other at h ]) n

  pub keys-IsDistinct :
      (m : List (K × V)) → IsUnique m → IsDistinct (List.map (λ (p : K × V). p.0) m)
  keys-IsDistinct [] u = tt
  keys-IsDistinct ((i, w) ∷ m) u = (In-lookup i m u.0, keys-IsDistinct m u.1)

-- The lists with distinct keys, and the map of the interface.
pub record Table (K V : Type 0) (e : Eq K) : Type 0 where
  pub pairs : List (K × V)
  pub unique : IsUnique ⦃e = e⦄ pairs

module _ {K V : Type 0} ⦃e : Eq K⦄ where
  abbrev pub erase_table : K → Table K V e → Table K V e
  erase_table k t = record { pairs = erase k t.pairs; unique = erase-IsUnique k t.pairs t.unique }

  pub lookup-erase_self : (k : K) (m : List (K × V)) → lookup k (erase k m) ≡ none
  lookup-erase_self k m = ground (arith, lookup-erase k k m, ==_refl k)

  abbrev pub insert_table : K → V → Table K V e → Table K V e
  insert_table k v t = record {
    pairs = (k, v) ∷ erase k t.pairs;
    unique = (lookup-erase_self k t.pairs, erase-IsUnique k t.pairs t.unique);
  }

  pub insert_table-lookup :
      (k j : K) (v : V) (t : Table K V e)
      → lookup j (insert_table k v t).pairs ≡ (if k == j then some v else lookup j t.pairs)
  insert_table-lookup k j v t = ground (arith, lookup-erase k j t.pairs)

  abbrev pub assoc : HashMap K V e
  assoc = record {
    Map = Table K V e;
    empty = record { pairs = []; unique = tt };
    get = λ k t. lookup k t.pairs;
    insert = insert_table;
    remove = erase_table;
    entries = λ t. t.pairs;
    entries-empty = refl;
    get-empty = λ k. refl;
    get-insert = insert_table-lookup;
    get-remove = λ k j t. lookup-erase k j t.pairs;
    entries-insert = λ k v t. Permᴰ.refl _;
    entries-present = λ k v t h. erase_present k v t.pairs t.unique h;
    entries-absent = λ k t h. rw (erase_absent k t.pairs h) (Permᴰ.refl _);
    keys_distinct = λ t. keys-IsDistinct t.pairs t.unique;
    get_of_entry = λ k v t h. lookup_of_In k v t.pairs t.unique h;
  }
