-- ===== src/Registry/Selecting/Exact.antt =====
-- The post runners that the searches by category return, exactly.
use mathlib.Core.Path.{fun_ext}
use strawberry_background.Prelude.{
  ◌≡◌, refl, sym, ap, or-eq-true, ◌≢◌, ◌⊎◌, ◌↔◌, inl, inr, Bool, true, Option, none, some, List, [],
  ◌∷◌, ◌==◌, In, Bool-cases, arith, String, subst, List-cases, String-eq,
}
use strawberry_background.Request.{Identifier-eq}
use strawberry_background.Registry.{
  Maps, PostRunner, RunnerRegistry, post_categories_of, contains, all_post_runners,
}
use strawberry_background.Registry.Listing.{all_post_runners-Lists}
use strawberry_background.Registry.Selecting.{
  any_accepted, accepts, filter_by, non_empty, mark, keep, find_post_runners_by_category,
  find_post_runners_by_categories,
}
use strawberry_background.Registry.Selecting.Passes.{keep-mark}

-- A post runner takes a result if it takes every category, or one of those given.
abbrev pub Accepts : List String → PostRunner → Type 0
Accepts categories r =
    (post_categories_of r ≡ []) ⊎ ((c : String) × In c categories × In c (post_categories_of r))

contains_iff : (xs : List String) (c : String) → (contains xs c ≡ true) ↔ In c xs
contains_iff [] c = (λ e. cc, λ n. absurd n)
contains_iff (x ∷ xs) c = (
  λ e. elim ((or-eq-true (x == c) (contains xs c)).0 e) [
    | inl here ↦ inl (sym ((String-eq.beq_iff x c).0 here))
    | inr later ↦ inr ((contains_iff xs c).0 later)
  ],
  λ n. (or-eq-true (x == c) (contains xs c)).1 (elim n [
    | inl here ↦ inl ((String-eq.beq_iff x c).1 (sym here))
    | inr later ↦ inr ((contains_iff xs c).1 later)
  ]),
)

any_accepted_iff :
    (accepted categories : List String)
    → (any_accepted accepted categories ≡ true) ↔ ((c : String) × In c categories × In c accepted)
unfolding any_accepted
any_accepted_iff accepted [] = (λ e. cc, λ (c, n, k). absurd n)
any_accepted_iff accepted (c ∷ cs) = elim (Bool-cases (contains accepted c)) [
  | inl here ↦ rw here (λ _. (c, inl refl, (contains_iff accepted c).0 here), λ _. refl)
  | inr other ↦
      let rest = any_accepted_iff accepted cs in
      rw other (
        λ e. let (d, m, k) = rest.0 e in (d, inr m, k),
        λ (d, m, k). elim m [
          | inl same ↦ cc (other, (contains_iff accepted c).1 (subst (λ x. In x accepted) same k))
          | inr later ↦ rest.1 (d, later, k)
        ],
      )
]

accepts_iff :
    (categories : List String) (r : PostRunner)
    → (accepts (λ accepted. any_accepted accepted categories) r ≡ true) ↔ Accepts categories r
unfolding accepts
accepts_iff categories r = elim (List-cases (post_categories_of r)) [
  | inl e ↦ rw e (λ _. inl refl, λ _. refl)
  | inr (c, cs, e) ↦
      let any = any_accepted_iff (c ∷ cs) categories in
      rw e (λ h. inr (any.0 h), λ a. elim a [ inl nothing ↦ cc | inr w ↦ any.1 w ])
]

In-filter_by :
    {A : Type 0} (p : A → Bool) (xs : List A) (a : A)
    → In a (filter_by p xs) ↔ (In a xs × (p a ≡ true))
In-filter_by p [] a = (λ n. absurd n, λ n. n.0)
In-filter_by p (x ∷ xs) a = elim (Bool-cases (p x)) [
  | inl yes_x ↦
      let rest = In-filter_by p xs a in
      rw yes_x (
        λ n. elim n [ inl e ↦ (inl e, rw e yes_x) | inr m ↦ (inr (rest.0 m).0, (rest.0 m).1) ],
        λ (n, q). elim n [ inl e ↦ inl e | inr m ↦ inr (rest.1 (m, q)) ],
      )
  | inr not_x ↦
      let rest = In-filter_by p xs a in
      rw not_x (
        λ m. (inr (rest.0 m).0, (rest.0 m).1),
        λ (n, q). elim n [ inl e ↦ cc (not_x, q, ap p e) | inr m ↦ rest.1 (m, q) ],
      )
]

one_category :
    (accepted : List String) (category : String)
    → contains accepted category ≡ any_accepted accepted (category ∷ [])
unfolding any_accepted
one_category accepted category = ground arith

module _ (M : Maps) where
  open M use {sets as SM}

  -- What each result of the selection says.
  abbrev pub Selects : List String → RunnerRegistry M → Option (List PostRunner) → Type 0
  Selects categories self none =
      (r : PostRunner) → In r (all_post_runners M self) → ¬ Accepts categories r
  Selects categories self (some out) =
      (out ≢ [])
      × ((r : PostRunner) → In r out ↔ (In r (all_post_runners M self) × Accepts categories r))

  non_empty-Selects :
      (categories : List String) (self : RunnerRegistry M) (out : List PostRunner)
      → ((r : PostRunner) → In r out ↔ (In r (all_post_runners M self) × Accepts categories r))
      → Selects categories self (non_empty out)
  non_empty-Selects categories self [] h = λ r n a. (h r).1 (n, a)
  non_empty-Selects categories self (x ∷ xs) h = (λ e. cc, h)

  find-filter :
      (categories : List String) (self : RunnerRegistry M)
      → find_post_runners_by_categories M categories self
        ≡ non_empty (
            filter_by
              (accepts (λ accepted. any_accepted accepted categories))
              (all_post_runners M self))
  unfolding find_post_runners_by_categories
  find-filter categories self = ap non_empty (
      keep-mark M _ (all_post_runners M self) SM.empty (all_post_runners-Lists M self).distinct
        (λ r _. SM.get-empty r.identifier))

  -- The two passes over identifiers select exactly the post runners that take every category or one
  -- of those given, and answer `None` exactly if there are none.
  pub find_post_runners_by_categories-Selects :
      (categories : List String) (self : RunnerRegistry M)
      → Selects categories self (find_post_runners_by_categories M categories self)
  find_post_runners_by_categories-Selects categories self = rw (find-filter categories self) (
      non_empty-Selects categories self _ (λ r.
        let filtered = In-filter_by (accepts _) (all_post_runners M self) r in
        let accepted = accepts_iff categories r in
        (
          λ n. ((filtered.0 n).0, accepted.0 (filtered.0 n).1),
          λ (n, a). filtered.1 (n, accepted.1 a),
        )))

  -- The search for one category gives what the search for a list of that one category gives.
  pub find_by_category-categories :
      (category : String) (self : RunnerRegistry M)
      → find_post_runners_by_category M category self
        ≡ find_post_runners_by_categories M (category ∷ []) self
  unfolding find_post_runners_by_category find_post_runners_by_categories
  find_by_category-categories category self =
      ap
        (λ (w : List String → Bool). non_empty (
          keep M (mark M (accepts w) (all_post_runners M self) SM.empty) (all_post_runners M self)))
        (fun_ext (λ accepted. one_category accepted category))
