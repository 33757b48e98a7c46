-- ===== src/Registry/Finding.antt =====
-- Which runners the registry finds, before and after a registration.
use strawberry_background.Prelude.{
  ◌≡◌, refl, sym, ap, ◌∙◌, ◌≢◌, ◌⊎◌, ◌↔◌, inl, inr, String, true, Option, none, some, List, [], ◌∷◌,
  ◌++◌, ◌==◌, Result, ok, err, is_ok, unwrap_or, concat, if◌then◌else◌, String-eq, In, All, All-In,
  In-append, In-append_left, In-append_right, In-concat, concat-In, Bool-cases, Option-cases, subst,
  ==_refl,
}
use strawberry_background.Prelude.Map.{values}
use strawberry_background.Prelude.Map.Laws.{entry_iff, In-map, In-map_inv}
use strawberry_background.Request.{
  Identifier, RegistryError, Identifier-eq, cannot_find_runner_by_identifier,
}
use strawberry_background.Registry.{
  ok_or, Maps, Runner, RunnerRegistry, registered, first, find_runner_by_identifier, push_runner,
  push_runners,
}

-- The first entry with an identifier, if any has it.
module _ {R : Type 0} (name : R → Identifier) where
  abbrev pub First : Identifier → List R → Option R → Type 0
  First i rs none = All (λ r. name r ≢ i) rs
  First i rs (some r) = In r rs × (name r ≡ i)

  First-cons :
      (i : Identifier) (r : R) (rs : List R) (o : Option R)
      → name r ≢ i
      → First i rs o
      → First i (r ∷ rs) o
  First-cons i r rs none other h = (other, h)
  First-cons i r rs (some q) other h = (inr h.0, h.1)

  pub first-First : (i : Identifier) (rs : List R) → First i rs (first name i rs)
  unfolding first
  first-First i [] = tt
  first-First i (r ∷ rs) = elim (Bool-cases (name r == i)) [
    | inl same ↦ simp same (inl refl, (Identifier-eq.beq_iff (name r) i).0 same)
    | inr other ↦ simp other (
        First-cons i r rs _ (λ e. cc (other, (Identifier-eq.beq_iff (name r) i).1 e))
          (first-First i rs))
  ]

module _ (M : Maps) where
  open M use {of_runners as RM, sets as SM}

  -- What each result of the search says.
  abbrev pub Found : Identifier → RunnerRegistry M → Result Runner RegistryError → Type 0
  Found i self (ok r) = In r (registered M self) × (r.identifier ≡ i)
  Found i self (err e) =
      (e ≡ cannot_find_runner_by_identifier i) × All (λ r. r.identifier ≢ i) (registered M self)

  Found-of_First :
      (i : Identifier) (self : RunnerRegistry M) (o : Option Runner)
      → First (λ (r : Runner). r.identifier) i (registered M self) o
      → Found i self (ok_or (cannot_find_runner_by_identifier i) o)
  Found-of_First i self none h = (refl, h)
  Found-of_First i self (some r) h = h

  -- A runner that is found is registered and has the identifier, and the search fails only if no
  -- registered runner has it.
  pub find_runner_by_identifier-Found :
      (i : Identifier) (self : RunnerRegistry M) → Found i self (find_runner_by_identifier M i self)
  unfolding find_runner_by_identifier
  find_runner_by_identifier-Found i self =
      Found-of_First i self _ (first-First (λ (r : Runner). r.identifier) i (registered M self))

  -- A runner is filed under some category.
  abbrev pub Filed : Runner → RM.Map → Type 0
  Filed r m = (k : String) × (v : List Runner) × (RM.get k m ≡ some v) × In r v

  pub Filed-iff : (r : Runner) (m : RM.Map) → In r (concat (values RM m)) ↔ Filed r m
  Filed-iff r m = (
    λ h.
        let (v, n, k) = In-concat (values RM m) r h in
        let ((c, w), p, e) = In-map_inv (λ (q : String × List Runner). q.1) (RM.entries m) v n in
        (c, w, RM.get_of_entry c w m p, subst (In r) e k),
    λ (c, v, e, k).
        concat-In (values RM m) v r
          (In-map (λ (q : String × List Runner). q.1) (RM.entries m) (c, v)
            ((entry_iff RM c v m).1 e))
          k,
  )

  abbrev old_runners : String → RM.Map → List Runner
  old_runners c m = unwrap_or (RM.get c m) []

  push_runner-insert :
      (r : Runner) (c : String) (m : RM.Map)
      → push_runner M r c m ≡ RM.insert c (old_runners c m ++ r ∷ []) m
  unfolding push_runner
  push_runner-insert r c m = elim (Option-cases (RM.get c m)) [
    | inl e ↦ rw (e, push_runner) refl
    | inr (vec, e) ↦ rw (e, push_runner) refl
  ]

  get-push_runner :
      (r : Runner) (c k : String) (m : RM.Map)
      → RM.get k (push_runner M r c m)
        ≡ (if c == k then some (old_runners c m ++ r ∷ []) else RM.get k m)
  get-push_runner r c k m =
      ap (RM.get k) (push_runner-insert r c m) ∙ RM.get-insert c k (old_runners c m ++ r ∷ []) m

  old-Filed : (x : Runner) (c : String) (m : RM.Map) → In x (old_runners c m) → Filed x m
  old-Filed x c m n = elim (Option-cases (RM.get c m)) [
    | inl e ↦ absurd (rw e at n)
    | inr (vec, e) ↦ (c, vec, e, rw e at n)
  ]

  push_runner-Filed :
      (r : Runner) (c : String) (m : RM.Map) (x : Runner)
      → Filed x (push_runner M r c m)
      → Filed x m ⊎ (x ≡ r)
  push_runner-Filed r c m x (k, v, e, n) = elim (Bool-cases (c == k)) [
    | inl same ↦
        let value : v ≡ old_runners c m ++ r ∷ [] = cc (rw same at (get-push_runner r c k m)) in
        elim ((In-append (old_runners c m) (r ∷ []) x).0 (subst (In x) value n)) [
          | inl before ↦ inl (old-Filed x c m before)
          | inr (inl new) ↦ inr new
          | inr (inr nothing) ↦ absurd nothing
        ]
    | inr other ↦ inl (k, v, sym (rw other at (get-push_runner r c k m)) ∙ e, n)
  ]

  Filed-push_runner :
      (r : Runner) (c : String) (m : RM.Map) (x : Runner)
      → Filed x m ⊎ (x ≡ r)
      → Filed x (push_runner M r c m)
  Filed-push_runner r c m x (inl (k, v, e, n)) = elim (Bool-cases (c == k)) [
    | inl same ↦
        let here : c ≡ k = (String-eq.beq_iff c k).0 same in
        let value : old_runners c m ≡ v = rw (here, e) refl in
        (
          k,
          old_runners c m ++ r ∷ [],
          rw same at (get-push_runner r c k m),
          In-append_left (old_runners c m) (r ∷ []) x (rw value n),
        )
    | inr other ↦ (k, v, rw other at (get-push_runner r c k m) ∙ e, n)
  ]
  Filed-push_runner r c m x (inr e) = (
    c,
    old_runners c m ++ r ∷ [],
    rw (==_refl c) at (get-push_runner r c c m),
    In-append_right (old_runners c m) (r ∷ []) x (inl e),
  )

  pub push_runners-Filed :
      (r : Runner) (cs : List String) (m : RM.Map) (x : Runner)
      → Filed x (push_runners M r cs m)
      → Filed x m ⊎ (x ≡ r)
  unfolding push_runners
  push_runners-Filed r [] m x h = inl h
  push_runners-Filed r (c ∷ cs) m x h = elim (push_runners-Filed r cs (push_runner M r c m) x h) [
    | inl before ↦ push_runner-Filed r c m x before
    | inr new ↦ inr new
  ]

  pub Filed-push_runners :
      (r : Runner) (c : String) (cs : List String) (m : RM.Map) (x : Runner)
      → Filed x m ⊎ (x ≡ r)
      → Filed x (push_runners M r (c ∷ cs) m)
  unfolding push_runners
  Filed-push_runners r c [] m x h = Filed-push_runner r c m x h
  Filed-push_runners r c (d ∷ cs) m x h =
      Filed-push_runners r d cs (push_runner M r c m) x (inl (Filed-push_runner r c m x h))

  -- Some registered runner has the identifier.
  abbrev pub IsKnown : Identifier → RunnerRegistry M → Type 0
  IsKnown i self = (x : Runner) × In x (registered M self) × (x.identifier ≡ i)

  Found-is_ok :
      (i : Identifier) (self : RunnerRegistry M) (res : Result Runner RegistryError)
      → Found i self res
      → (is_ok res ≡ true) ↔ IsKnown i self
  Found-is_ok i self (ok r) h = (λ _. (r, h.0, h.1), λ _. refl)
  Found-is_ok i self (err e) h = (
    λ p. cc,
    λ (x, n, p). absurd (All-In (λ (r : Runner). r.identifier ≢ i) (registered M self) h.1 n p),
  )

  pub find-is_ok_iff :
      (i : Identifier) (self : RunnerRegistry M)
      → (is_ok (find_runner_by_identifier M i self) ≡ true) ↔ IsKnown i self
  find-is_ok_iff i self = Found-is_ok i self _ (find_runner_by_identifier-Found i self)
