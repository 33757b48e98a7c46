-- ===== src/Coordinator/Assigning.antt =====
-- coordinator.rs: what the discover selects in the snapshot of a coordinator's cycle.
use mathlib.Core.List
use strawberry_background.Prelude.{
  ◌≡◌, refl, sym, ap, ◌∙◌, subst, inl, inr, String, true, ◌∷◌, Result, ok, err, In, All-In,
  In-append_right,
}
use strawberry_background.Prelude.Map.Laws.{In-map, In-map_inv}
use strawberry_background.Request.{
  Identifier, RunnerSnapshot, RunnerError, request_cmp, cannot_find_runner_by_identifier,
}
use strawberry_background.BlockingHeap.{BinaryHeap}
use strawberry_background.Registry.{
  Maps, Runner, RunnerRegistry, all_runners, find_runner_by_identifier, ok_or, first, registered,
}
use strawberry_background.Registry.Listing.{all_runners-Lists}
use strawberry_background.Discover.{
  ChannelMaps, DiscoverError, no_available_runners_discovered, of_registry, of_timeout,
  category_not_exists, is_available,
}
use strawberry_background.Discover.Searching.{select, accepted_by}
use strawberry_background.Discover.Selecting.{Fits, Unfit, Selected, select-Selected}
use strawberry_background.Coordinator.{cycle_snapshot}

module _ (H : BinaryHeap request_cmp) (M : Maps) (C : ChannelMaps)
    (runner_cycle_once : Runner → Result RunnerSnapshot RunnerError)
    (named : (r : Runner) (s : RunnerSnapshot)
      → runner_cycle_once r ≡ ok s
      → s.identifier ≡ r.identifier)
    (registry : RunnerRegistry M) (category : String) where
  -- A runner of the registry's list that says it is free, and that accepts the category.
  abbrev pub Ready : Runner → Type 0
  Ready r =
      In r (all_runners M registry)
      × (s : RunnerSnapshot) × (runner_cycle_once r ≡ ok s)
      × (is_available s.status ≡ true)
      × (accepted_by M C r.configuration.accepted_categories category ≡ true)

  find_listed :
      (r : Runner)
      → In r (all_runners M registry)
      → find_runner_by_identifier M r.identifier registry ≡ ok r
  unfolding find_runner_by_identifier
  find_listed r n =
      All-In
        (λ (q : Runner).
          ok_or (cannot_find_runner_by_identifier q.identifier)
            (first (λ (x : Runner). x.identifier) q.identifier (registered M registry))
          ≡ ok q)
        (all_runners M registry) (all_runners-Lists M registry).found n

  -- The runner behind a snapshot is the one that the registry finds.
  behind :
      (s : RunnerSnapshot)
      → In (ok s) (cycle_snapshot H M C runner_cycle_once registry)
      → (r : Runner) × In r (all_runners M registry)
        × (runner_cycle_once r ≡ ok s)
        × (find_runner_by_identifier M s.identifier registry ≡ ok r)
  unfolding cycle_snapshot
  behind s n =
      let (r, m, e) = In-map_inv runner_cycle_once (all_runners M registry) (ok s) n in
      (
        r,
        m,
        sym e,
        ap (λ i. find_runner_by_identifier M i registry) (named r s (sym e)) ∙ find_listed r m,
      )

  Ready-Fits : (r : Runner) (w : Ready r) → Fits M C registry category w.1
  Ready-Fits r (n, s, e, free, accepts) = (
    free,
    r,
    ap (λ i. find_runner_by_identifier M i registry) (named r s e) ∙ find_listed r n,
    accepts,
  )

  Ready-In :
      (r : Runner) (w : Ready r) → In (ok w.1) (cycle_snapshot H M C runner_cycle_once registry)
  unfolding cycle_snapshot
  Ready-In r (n, s, e, free, accepts) =
      subst (λ x. In x (List.map runner_cycle_once (all_runners M registry))) e
        (In-map runner_cycle_once (all_runners M registry) r n)

  Fits-Unfit :
      (s : RunnerSnapshot) → Fits M C registry category s → Unfit M C registry category (ok s) → ⊥
  Fits-Unfit s (free, r, f, a) (inl busy) = cc (free, busy)
  Fits-Unfit s (free, r, f, a) (inr (q, g, b)) = cc (a, b, f, g)

  result-Ready :
      (r : Runner) (o : Result Identifier DiscoverError)
      → Ready r
      → Selected M C registry category (cycle_snapshot H M C runner_cycle_once registry) o
      → (q : Runner) × Ready q × (o ≡ ok q.identifier)
  result-Ready r (ok i) w (before, s, after, e, _, same, (free, q, f, a)) =
      let n =
        subst (λ l. In (ok s) l) (sym e)
          (In-append_right before (ok s ∷ after) (ok s) (inl refl)) in
      let (p, m, c, g) = behind s n in
      let one : q ≡ p = cc (f, g) in
      (
        p,
        (
          m,
          s,
          c,
          free,
          subst
              (λ (x : Runner). accepted_by M C x.configuration.accepted_categories category ≡ true)
              one a,
        ),
        ap ok (sym same ∙ named p s c),
      )
  result-Ready r (err no_available_runners_discovered) w h = absurd (
      Fits-Unfit w.1 (Ready-Fits r w) (
        All-In (Unfit M C registry category) (cycle_snapshot H M C runner_cycle_once registry) h
          (Ready-In r w)))
  result-Ready r (err (of_registry e)) w (s, n, free, f) =
      let (q, m, c, g) = behind s n in cc (f, g)
  result-Ready r (err (of_timeout e)) w h = absurd h
  result-Ready r (err (category_not_exists e)) w h = absurd h

  -- If every runner answers a cycle with a snapshot under its own identifier, and some runner of the
  -- registry's list is free and accepts the category, then the search in the snapshot of that cycle
  -- names such a runner.
  pub select-Ready :
      (r : Runner)
      → Ready r
      → (q : Runner) × Ready q
        × (select M C registry category (cycle_snapshot H M C runner_cycle_once registry)
            ≡ ok q.identifier)
  select-Ready r w =
      result-Ready r _ w
        (select-Selected M C registry category (cycle_snapshot H M C runner_cycle_once registry))
