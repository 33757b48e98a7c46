-- ===== src/Discover/Registering.antt =====
-- coordinator.rs, `cycle_once` of the discover: the channels of the categories and their waiters.
use strawberry_background.Prelude.{
  ℕ, ◌≡◌, refl, sym, ap, ◌∙◌, inl, inr, String, Bool, false, ◌||◌, ◌&&◌, not, Option, none, some,
  List, [], ◌∷◌, ◌==◌, String-eq, Nat-eq, if◌then◌else◌, Bool-cases, Option-cases, arith, is_none,
}
use strawberry_background.Registry.{Maps, Runner, RunnerRegistry, contains, all_runners}
use strawberry_background.Discover.{
  ChannelMaps, DefaultRunnerDiscover, omnipotence, add_channel, add_channels, add_categories,
  add_runner, add_runners, refresh,
}

-- The categories whose channel a runner makes sure of.
abbrev pub channels_of : Option (List String) → List String
channels_of none = omnipotence ∷ []
channels_of (some categories) = categories

module _ (M : Maps) (C : ChannelMaps) where
  open C use {by_identifier as IM, by_category as CM}

  abbrev pub has : String → CM.Map → Bool
  has c m = not (is_none (CM.get c m))

  added : ℕ → String → CM.Map → Option ℕ → CM.Map
  added w x m none = CM.insert x w m
  added w x m (some _) = m

  added-has :
      (w : ℕ) (x c : String) (m : CM.Map) (o : Option ℕ)
      → CM.get x m ≡ o
      → has c (added w x m o) ≡ (x == c || has c m)
  unfolding added
  added-has w x c m none e =
      ap (λ o. not (is_none o)) (CM.get-insert x c w m) ∙ test (x == c) (CM.get c m)
    where
      test :
          (b : Bool) (o : Option ℕ)
          → not (is_none (if b then some w else o)) ≡ (b || not (is_none o))
      test b o = ground arith
  added-has w x c m (some v) e = elim (Bool-cases (x == c)) [
    | inl same ↦ rw same (
        ap (λ o. not (is_none o)) (ap (λ y. CM.get y m) (sym ((String-eq.beq_iff x c).0 same)) ∙ e))
    | inr other ↦ rw other refl
  ]

  add_channel-has :
      (w : ℕ) (x c : String) (m : CM.Map) → has c (add_channel M C w x m) ≡ (x == c || has c m)
  unfolding add_channel added
  add_channel-has w x c m = added-has w x c m (CM.get x m) refl

  add_channels-has :
      (w : ℕ) (xs : List String) (c : String) (m : CM.Map)
      → has c (add_channels M C w xs m) ≡ (contains xs c || has c m)
  unfolding add_channels
  add_channels-has w [] c m = ground arith
  add_channels-has w (x ∷ xs) c m =
      add_channels-has w xs c (add_channel M C w x m)
      ∙ ap (λ b. contains xs c || b) (add_channel-has w x c m)
      ∙ swap (contains xs c) (x == c) (has c m)
    where
      swap : (a b d : Bool) → (a || (b || d)) ≡ ((b || a) || d)
      swap a b d = ground arith

  add_categories-has :
      (o : Option (List String)) (w : ℕ) (c : String) (self : DefaultRunnerDiscover M C)
      → has c (add_categories M C o w self).category_notification_channels
        ≡ (contains (channels_of o) c || has c self.category_notification_channels)
  unfolding add_categories
  add_categories-has none w c self =
      add_channel-has w omnipotence c self.category_notification_channels
      ∙ ap (λ b. b || has c self.category_notification_channels) (or_false (omnipotence == c))
    where
      or_false : (b : Bool) → b ≡ (b || false)
      or_false b = ground arith
  add_categories-has (some xs) w c self =
      add_channels-has w xs c self.category_notification_channels

  add_runner-has :
      (r : Runner) (c : String) (self : DefaultRunnerDiscover M C)
      → has c (add_runner M C r self).category_notification_channels ≡ (
          contains (channels_of r.configuration.accepted_categories) c
          || has c self.category_notification_channels)
  unfolding add_runner
  add_runner-has r c self =
      elim (Option-cases (IM.get r.configuration.identifier self.runner_notification_channels)) [
        | inl e ↦ rw (e, add_runner) (add_categories-has r.configuration.accepted_categories _ c _)
        | inr (w, e) ↦
            rw (e, add_runner) (add_categories-has r.configuration.accepted_categories w c self)
      ]

  abbrev pub any_channel : String → List Runner → Bool
  any_channel c [] = false
  any_channel c (r ∷ rs) =
      contains (channels_of r.configuration.accepted_categories) c || any_channel c rs

  add_runners-has :
      (rs : List Runner) (c : String) (self : DefaultRunnerDiscover M C)
      → has c (add_runners M C rs self).category_notification_channels
        ≡ (any_channel c rs || has c self.category_notification_channels)
  unfolding add_runners
  add_runners-has [] c self = ground arith
  add_runners-has (r ∷ rs) c self =
      add_runners-has rs c (add_runner M C r self)
      ∙ ap (λ b. any_channel c rs || b) (add_runner-has r c self)
      ∙ swap (any_channel c rs) _ _
    where
      swap : (a b d : Bool) → (a || (b || d)) ≡ ((b || a) || d)
      swap a b d = ground arith

  -- After a cycle, the categories with a channel are those that had one and, if the registry's hash
  -- of the runners is not the one of the last cycle, those that its runners list (a runner without
  -- a list counts as one that lists "omnipotence"). If the hash is the same, nothing is added.
  pub refresh-channels :
      (registry : RunnerRegistry M) (c : String) (self : DefaultRunnerDiscover M C)
      → has c (refresh M C registry self).category_notification_channels ≡ (
          (not (registry.cached_runners_hash == self.cached_runners_hash)
            && any_channel c (all_runners M registry))
          || has c self.category_notification_channels)
  unfolding refresh
  refresh-channels registry c self =
      elim (Bool-cases (registry.cached_runners_hash == self.cached_runners_hash)) [
        | inl same ↦ simp same refl
        | inr other ↦ simp other (add_runners-has (all_runners M registry) c self)
      ]
