-- ===== src/Discover/Flags.antt =====
-- coordinator.rs, `cycle_once` of the discover: the two variables of its loop over the snapshots,
-- against a description of them by what the snapshot holds.
use strawberry_background.Prelude.{
  ◌≡◌, refl, ap, ◌∙◌, inl, inr, String, Bool, true, false, ◌||◌, ◌&&◌, Option, none, some, List, [],
  ◌∷◌, String-eq, Result, ok, err, if◌then◌else◌, Bool-cases, arith, is_none,
}
use strawberry_background.Request.{RunnerSnapshot, RunnerError, RegistryError}
use strawberry_background.Registry.{
  Maps, Runner, RunnerRegistry, find_runner_by_identifier, contains,
}
use strawberry_background.Discover.{
  CycleSnapshot, is_available, ChannelMaps, Seen, note_runner, note_found, note_snapshot,
  note_snapshots, nothing_seen,
}
use strawberry_background.Discover.Availability.{add_flag, note_categories-get}

abbrev pub any : {A : Type 0} → (A → Bool) → List A → Bool
any p [] = false
any p (x ∷ xs) = p x || any p xs

abbrev pub lists_in : Option (List String) → String → Bool
lists_in none c = false
lists_in (some categories) c = contains categories c

abbrev pub lists_found : Result Runner RegistryError → String → Bool
lists_found (err e) c = false
lists_found (ok r) c = lists_in r.configuration.accepted_categories c

abbrev pub forces_found : Result Runner RegistryError → Bool → Bool
forces_found (err e) available = false
forces_found (ok r) available = is_none r.configuration.accepted_categories && available

-- Whether a runner's snapshot is one of a free runner.
abbrev pub frees : Result RunnerSnapshot RunnerError → Bool
frees (err e) = false
frees (ok s) = is_available s.status

or_assoc : (a b c : Bool) → ((a || b) || c) ≡ (a || (b || c))
or_assoc a b c = ground arith

first_of : (a b : Bool) → (a || b) ≡ false → a ≡ false
first_of a b h = ground arith

module _ (M : Maps) (C : ChannelMaps) (registry : RunnerRegistry M) where
  open C use {flags as FM}

  -- It is one of a registered runner whose list of categories has `c`.
  abbrev pub lists : String → Result RunnerSnapshot RunnerError → Bool
  lists c (err e) = false
  lists c (ok s) = lists_found (find_runner_by_identifier M s.identifier registry) c

  -- It is one of a registered, free runner without a list of categories.
  abbrev pub forces : Result RunnerSnapshot RunnerError → Bool
  forces (err e) = false
  forces (ok s) =
      forces_found (find_runner_by_identifier M s.identifier registry) (is_available s.status)

  abbrev next_flag : Bool → Bool → Option Bool → Option Bool
  next_flag listed available o = if listed then add_flag available o else o

  note_runner-force :
      (o : Option (List String)) (available : Bool) (seen : Seen M C)
      → seen.force_has_available ≡ false
      → (note_runner M C available o seen).force_has_available ≡ (is_none o && available)
  unfolding note_runner
  note_runner-force none true seen h = refl
  note_runner-force none false seen h = h
  note_runner-force (some categories) available seen h = h

  note_runner-get :
      (o : Option (List String)) (available : Bool) (c : String) (seen : Seen M C)
      → FM.get c (note_runner M C available o seen).all_is_available_map
        ≡ next_flag (lists_in o c) available (FM.get c seen.all_is_available_map)
  unfolding note_runner
  note_runner-get none true c seen = refl
  note_runner-get none false c seen = refl
  note_runner-get (some categories) available c seen =
      note_categories-get M C available categories c seen.all_is_available_map

  note_found-force :
      (f : Result Runner RegistryError) (available : Bool) (seen : Seen M C)
      → seen.force_has_available ≡ false
      → (note_found M C available f seen).force_has_available ≡ forces_found f available
  unfolding note_found
  note_found-force (err e) available seen h = h
  note_found-force (ok r) available seen h =
      note_runner-force r.configuration.accepted_categories available seen h

  note_found-get :
      (f : Result Runner RegistryError) (available : Bool) (c : String) (seen : Seen M C)
      → FM.get c (note_found M C available f seen).all_is_available_map
        ≡ next_flag (lists_found f c) available (FM.get c seen.all_is_available_map)
  unfolding note_found
  note_found-get (err e) available c seen = refl
  note_found-get (ok r) available c seen =
      note_runner-get r.configuration.accepted_categories available c seen

  note_snapshot-force :
      (x : Result RunnerSnapshot RunnerError) (seen : Seen M C)
      → (note_snapshot M C registry x seen).force_has_available
        ≡ (seen.force_has_available || forces x)
  unfolding note_snapshot
  note_snapshot-force (err e) seen = ground arith
  note_snapshot-force (ok s) seen = elim (Bool-cases seen.force_has_available) [
    | inl forced ↦ simp forced refl
    | inr free ↦ simp free (
        note_found-force (find_runner_by_identifier M s.identifier registry) (is_available s.status)
          seen free)
  ]

  note_snapshot-get :
      (x : Result RunnerSnapshot RunnerError) (c : String) (seen : Seen M C)
      → seen.force_has_available ≡ false
      → FM.get c (note_snapshot M C registry x seen).all_is_available_map
        ≡ next_flag (lists c x) (frees x) (FM.get c seen.all_is_available_map)
  unfolding note_snapshot
  note_snapshot-get (err e) c seen h = refl
  note_snapshot-get (ok s) c seen h = simp h (
      note_found-get (find_runner_by_identifier M s.identifier registry) (is_available s.status) c
        seen)

  note_snapshots-force :
      (xs : CycleSnapshot) (seen : Seen M C)
      → (note_snapshots M C registry xs seen).force_has_available
        ≡ (seen.force_has_available || any forces xs)
  unfolding note_snapshots
  note_snapshots-force [] seen = ground arith
  note_snapshots-force (x ∷ xs) seen =
      note_snapshots-force xs (note_snapshot M C registry x seen)
      ∙ ap (λ b. b || any forces xs) (note_snapshot-force x seen)
      ∙ or_assoc seen.force_has_available (forces x) (any forces xs)

  -- The flag of a category after the snapshots, from the one before them.
  abbrev then_flag : Option Bool → Bool → Bool → Option Bool
  then_flag (some b) listed free = some (b || free)
  then_flag none listed free = if listed then some free else none

  then_flag-next :
      (o : Option Bool) (l f ls fs : Bool)
      → then_flag (next_flag l f o) ls fs ≡ then_flag o (l || ls) ((l && f) || fs)
  then_flag-next o l f ls fs = ground arith

  note_snapshots-get :
      (xs : CycleSnapshot) (c : String) (seen : Seen M C)
      → (seen.force_has_available || any forces xs) ≡ false
      → FM.get c (note_snapshots M C registry xs seen).all_is_available_map
        ≡ then_flag
            (FM.get c seen.all_is_available_map)
            (any (lists c) xs)
            (any (λ x. lists c x && frees x) xs)
  unfolding note_snapshots
  note_snapshots-get [] c seen h = ground arith
  note_snapshots-get (x ∷ xs) c seen h =
      note_snapshots-get xs c (note_snapshot M C registry x seen)
        (ap (λ b. b || any forces xs) (note_snapshot-force x seen) ∙ or_assoc _ (forces x) _ ∙ h)
      ∙ ap (λ o. then_flag o (any (lists c) xs) (any (λ y. lists c y && frees y) xs))
          (note_snapshot-get x c seen (first_of _ _ h))
      ∙ then_flag-next _ (lists c x) (frees x) _ _

  -- The flag that forces every category is set exactly if the snapshot holds a free, registered
  -- runner without a list of categories. If it is not set, a category has a flag exactly if a
  -- registered runner of the snapshot lists it, and the flag says whether one of these is free.
  pub note_snapshots-flags :
      (snapshot : CycleSnapshot)
      → ((note_snapshots M C registry snapshot (nothing_seen M C)).force_has_available
          ≡ any forces snapshot)
        × ((c : String)
            → any forces snapshot ≡ false
            → FM.get c
                (note_snapshots M C registry snapshot (nothing_seen M C)).all_is_available_map
              ≡ (if any (lists c) snapshot
                  then some (any (λ x. lists c x && frees x) snapshot)
                  else none))
  note_snapshots-flags snapshot = (
    note_snapshots-force snapshot (nothing_seen M C),
    λ c h.
        note_snapshots-get snapshot c (nothing_seen M C) h
        ∙ ap (λ o. then_flag o (any (lists c) snapshot) (any (λ x. lists c x && frees x) snapshot))
            (FM.get-empty c),
  )
