-- ===== src/Registry/Listing.antt =====
-- registry.rs, `all_runners` and `all_post_runners`.
use mathlib.Core.List
use strawberry_background.Prelude.{
  ◌≡◌, refl, sym, ap, ap₂, ◌∙◌, ◌≢◌, ◌⊎◌, ◌↔◌, inl, inr, Option, none, some, List, [], ◌∷◌, ◌==◌,
  Result, ok, In, All, All-In, IsDistinct, Bool-cases, arith,
}
use strawberry_background.Prelude.Map.{keys}
use strawberry_background.Prelude.Map.Laws.{key_iff}
use strawberry_background.Request.{
  Identifier, RegistryError, Identifier-eq, cannot_find_runner_by_identifier,
  cannot_find_post_runner_by_identifier,
}
use strawberry_background.Registry.{
  Maps, RunnerRegistry, registered, post_registered, first, find_runner_by_identifier,
  find_post_runner_by_identifier, all_runners, all_post_runners, collect, look_up, ok_or,
}
use strawberry_background.Registry.Finding.{First, first-First}

module _ (M : Maps) {R : Type 0} (name : R → Identifier) where
  open M use {sets as SM}

  abbrev pub Named : Identifier → List R → Type 0
  Named i rs = (x : R) × In x rs × (name x ≡ i)

  collect-get :
      (rs : List R) (s : SM.Map) (i : Identifier)
      → SM.get i (collect M name rs s) ≡ some tt
      → Named i rs ⊎ (SM.get i s ≡ some tt)
  unfolding collect
  collect-get [] s i h = inr h
  collect-get (r ∷ rs) s i h = elim (collect-get rs (SM.insert (name r) tt s) i h) [
    | inl (x, n, e) ↦ inl (x, inr n, e)
    | inr before ↦ elim (Bool-cases (name r == i)) [
      | inl same ↦ inl (r, inl refl, (Identifier-eq.beq_iff (name r) i).0 same)
      | inr other ↦ inr (sym (rw other at (SM.get-insert (name r) i tt s)) ∙ before)
    ]
  ]

  get-insert_some :
      (r : R) (s : SM.Map) (i : Identifier)
      → (name r ≡ i) ⊎ (SM.get i s ≡ some tt)
      → SM.get i (SM.insert (name r) tt s) ≡ some tt
  get-insert_some r s i h =
      ground (arith, SM.get-insert (name r) i tt s, Identifier-eq.beq_iff (name r) i)

  get-collect :
      (rs : List R) (s : SM.Map) (i : Identifier)
      → Named i rs ⊎ (SM.get i s ≡ some tt)
      → SM.get i (collect M name rs s) ≡ some tt
  unfolding collect
  get-collect [] s i (inl (x, n, e)) = absurd n
  get-collect [] s i (inr h) = h
  get-collect (r ∷ rs) s i (inl (x, inl p, e)) =
      get-collect rs _ i (inr (get-insert_some r s i (inl (ap name (sym p) ∙ e))))
  get-collect (r ∷ rs) s i (inl (x, inr n, e)) = get-collect rs _ i (inl (x, n, e))
  get-collect (r ∷ rs) s i (inr h) = get-collect rs _ i (inr (get-insert_some r s i (inr h)))

  -- The identifiers that `collect` gathers are those of the entries.
  keys-collect_iff :
      (rs : List R) (i : Identifier) → In i (keys SM (collect M name rs SM.empty)) ↔ Named i rs
  keys-collect_iff rs i = (
    λ h. elim (collect-get rs SM.empty i ((key_iff SM i _).0 h).1) [
      | inl n ↦ n
      | inr e ↦ cc (e, SM.get-empty i)
    ],
    λ n. (key_iff SM i _).1 (tt, get-collect rs SM.empty i (inl n)),
  )

  module _ (missing : Identifier → RegistryError) (rs : List R) where
    abbrev find : Identifier → Result R RegistryError
    find i = ok_or (missing i) (first name i rs)

    find-Named : (i : Identifier) → Named i rs → (r : R) × (find i ≡ ok r) × (name r ≡ i)
    find-Named i n = pick (first name i rs) (first-First name i rs)
      where
        pick :
            (o : Option R)
            → First name i rs o
            → (r : R) × (ok_or (missing i) o ≡ ok r) × (name r ≡ i)
        pick none h = absurd (All-In (λ (r : R). name r ≢ i) rs h n.1 n.2)
        pick (some r) h = (r, refl, h.1)

    look_up-names :
        (is : List Identifier)
        → ((i : Identifier) → In i is → Named i rs)
        → (List.map name (look_up find is) ≡ is) × All (λ r. find (name r) ≡ ok r) (look_up find is)
    unfolding look_up
    look_up-names [] h = (refl, tt)
    look_up-names (i ∷ is) h =
        let (r, e, same) = find-Named i (h i (inl refl)) in
        let (names, found) = look_up-names is (λ j n. h j (inr n)) in
        rw e (ap₂ ◌∷◌ same names, (rw same e, found))

    -- What a listing promises of the entries `rs` that it lists.
    pub record Lists (out : List R) : Type 0 where
      pub distinct : IsDistinct (List.map name out)
      pub complete : (i : Identifier) → In i (List.map name out) ↔ Named i rs
      pub found : All (λ r. ok_or (missing (name r)) (first name (name r) rs) ≡ ok r) out

    pub look_up-Lists : Lists (look_up find (keys SM (collect M name rs SM.empty)))
    look_up-Lists =
        let ids = keys SM (collect M name rs SM.empty) in
        let (names, found) = look_up-names ids (λ i. (keys-collect_iff rs i).0) in
        record {
          distinct = rw names (SM.keys_distinct (collect M name rs SM.empty));
          complete = λ i. rw names (keys-collect_iff rs i);
          found = found;
        }

module _ (M : Maps) where
  -- `all_runners` lists each identifier of a registered runner exactly once, and for each the
  -- runner that `find_runner_by_identifier` finds.
  pub all_runners-Lists :
      (self : RunnerRegistry M)
      → Lists M
          (λ r. r.identifier)
          cannot_find_runner_by_identifier
          (registered M self)
          (all_runners M self)
  unfolding all_runners find_runner_by_identifier
  all_runners-Lists self =
      look_up-Lists M (λ r. r.identifier) cannot_find_runner_by_identifier (registered M self)

  -- `all_post_runners` lists each identifier of a registered post runner exactly once, and for each
  -- the post runner that the search for its identifier finds.
  pub all_post_runners-Lists :
      (self : RunnerRegistry M)
      → Lists M
          (λ r. r.identifier)
          cannot_find_post_runner_by_identifier
          (post_registered M self)
          (all_post_runners M self)
  unfolding all_post_runners find_post_runner_by_identifier
  all_post_runners-Lists self =
      look_up-Lists M (λ r. r.identifier) cannot_find_post_runner_by_identifier
        (post_registered M self)
