-- ===== src/Discover/Selecting.antt =====
-- coordinator.rs, `discover_runner_by_category`: the loop over the snapshot.
use strawberry_background.Prelude.{
  ◌≡◌, refl, ap, ◌⊎◌, inl, inr, String, true, false, [], ◌∷◌, ◌++◌, Result, ok, err, In, All,
  Bool-cases,
}
use strawberry_background.Request.{Identifier, RunnerSnapshot, RunnerError, RegistryError}
use strawberry_background.Registry.{Maps, Runner, RunnerRegistry, find_runner_by_identifier}
use strawberry_background.Discover.{
  CycleSnapshot, DiscoverError, no_available_runners_discovered, of_registry, of_timeout,
  category_not_exists, is_available, ChannelMaps,
}
use strawberry_background.Discover.Searching.{select, select_found, accepted_by}

module _ (M : Maps) (C : ChannelMaps) (registry : RunnerRegistry M) (category : String) where
  -- A snapshot of a free runner that the registry knows and that accepts the category.
  abbrev pub Fits : RunnerSnapshot → Type 0
  Fits s =
      (is_available s.status ≡ true)
      × (runner : Runner) × (find_runner_by_identifier M s.identifier registry ≡ ok runner)
      × (accepted_by M C runner.configuration.accepted_categories category ≡ true)

  -- A snapshot that the loop passes over.
  abbrev pub Unfit : Result RunnerSnapshot RunnerError → Type 0
  Unfit (err e) = Unit {0}
  Unfit (ok s) =
      (is_available s.status ≡ false)
      ⊎ ((runner : Runner) × (find_runner_by_identifier M s.identifier registry ≡ ok runner)
          × (accepted_by M C runner.configuration.accepted_categories category ≡ false))

  -- What each result of the loop says of the snapshot.
  abbrev pub Selected : CycleSnapshot → Result Identifier DiscoverError → Type 0
  Selected snapshot (ok i) =
      (before : CycleSnapshot) × (s : RunnerSnapshot) × (after : CycleSnapshot) × (snapshot
        ≡ before ++ (ok s ∷ after))
      × All Unfit before
      × (s.identifier ≡ i)
      × Fits s
  Selected snapshot (err no_available_runners_discovered) = All Unfit snapshot
  Selected snapshot (err (of_registry e)) =
      (s : RunnerSnapshot) × In (ok s) snapshot
      × (is_available s.status ≡ true)
      × (find_runner_by_identifier M s.identifier registry ≡ err e)
  Selected snapshot (err _) = ⊥

  skip-Selected :
      (x : Result RunnerSnapshot RunnerError) (rest : CycleSnapshot)
      (r : Result Identifier DiscoverError)
      → Unfit x
      → Selected rest r
      → Selected (x ∷ rest) r
  skip-Selected x rest (ok i) u (before, s, after, e, h, n, k) =
      (x ∷ before, s, after, ap (λ l. x ∷ l) e, (u, h), n, k)
  skip-Selected x rest (err no_available_runners_discovered) u h = (u, h)
  skip-Selected x rest (err (of_registry e)) u (s, p, h, k) = (s, inr p, h, k)
  skip-Selected x rest (err (of_timeout e)) u h = h
  skip-Selected x rest (err (category_not_exists e)) u h = h

  found-Selected :
      (s : RunnerSnapshot) (rest : CycleSnapshot) (f : Result Runner RegistryError)
      → is_available s.status ≡ true
      → find_runner_by_identifier M s.identifier registry ≡ f
      → Selected rest (select M C registry category rest)
      → Selected
          (ok s ∷ rest)
          (select_found M C f s.identifier category (select M C registry category rest))
  unfolding select_found
  found-Selected s rest (err e) free f h = (s, inl refl, free, f)
  found-Selected s rest (ok r) free f h =
      elim (Bool-cases (accepted_by M C r.configuration.accepted_categories category)) [
        | inl accepted ↦ rw accepted ([], s, rest, refl, tt, refl, (free, r, f, accepted))
        | inr refused ↦ rw refused (skip-Selected (ok s) rest _ (inr (r, f, refused)) h)
      ]

  -- The runner that is selected is the first one in the snapshot that is free, registered and
  -- accepts the category (every runner without a list of categories does); there is none only if
  -- the snapshot holds no such runner; and a free runner that the registry does not know ends the
  -- search with the registry's error.
  pub select-Selected :
      (snapshot : CycleSnapshot) → Selected snapshot (select M C registry category snapshot)
  unfolding select
  select-Selected [] = tt
  select-Selected (err e ∷ rest) = skip-Selected (err e) rest _ tt (select-Selected rest)
  select-Selected (ok s ∷ rest) = elim (Bool-cases (is_available s.status)) [
    | inl free ↦ rw free (found-Selected s rest _ free refl (select-Selected rest))
    | inr busy_now ↦ rw busy_now (skip-Selected (ok s) rest _ (inl busy_now) (select-Selected rest))
  ]
