-- ===== src/Listening/Telling.antt =====
-- Who hears of the outcome of a request (coordinator.rs).
use mathlib.Core.List
use strawberry_background.Prelude.{
  ℕ, ◌≡◌, refl, sym, ap, ◌∙◌, ◌⊎◌, ◌↔◌, inl, inr, Option, none, some, List, [], ◌∷◌, map, In,
  unwrap_or, subst, String,
}
use strawberry_background.Prelude.Map.{HashMap, values}
use strawberry_background.Prelude.Map.Laws.{In-map, In-map_inv, entry_iff}
use strawberry_background.Request.{Identifier, Identifier-eq, RunnerError}
use strawberry_background.Registry.{
  Maps, PostRunner, RunnerRegistry, all_post_runners, categories_of,
}
use strawberry_background.Registry.Selecting.Exact.{
  Accepts, Selects, find_post_runners_by_categories-Selects,
}
use strawberry_background.Listening.{
  Notice, on_success, on_fail, Posted, post, post_err, Told, tell, DefaultRunnerWatcher, on_result,
  on_error, addressees, posts_to, notify_success, notify_fail,
}

-- The elements of a list that is the image of another.
module _ {A B : Type 0} (b : B) where
  In-map_pair :
      (xs : List A) (x : A) (c : B)
      → In {A = A × B} (x, c) (List.map (λ a. (a, b)) xs) ↔ (In x xs × (c ≡ b))
  In-map_pair xs x c = (
    λ n.
        let (a, m, e) = In-map_inv (λ (a : A). (a, b)) xs (x, c) n in
        (subst (λ y. In y xs) (sym (ap (λ (p : A × B). p.0) e)) m, ap (λ (p : A × B). p.1) e),
    λ (m, e).
        subst (λ d. In {A = A × B} (x, d) (List.map (λ a. (a, b)) xs)) (sym e)
          (In-map (λ (a : A). (a, b)) xs x m),
  )

module _ (L : HashMap Identifier ℕ Identifier-eq) where
  value_iff : (l : ℕ) (m : L.Map) → In l (values L m) ↔ ((i : Identifier) × (L.get i m ≡ some l))
  value_iff l m = (
    λ n.
        let ((i, v), k, e) = In-map_inv (λ (q : Identifier × ℕ). q.1) (L.entries m) l n in
        (i, (entry_iff L i v m).0 k ∙ ap some (sym e)),
    λ (i, e). In-map (λ (q : Identifier × ℕ). q.1) (L.entries m) (i, l) ((entry_iff L i l m).1 e),
  )

  tell_iff :
      (notice n : Notice) (l : ℕ) (m : L.Map)
      → In {A = ℕ × Notice} (l, n) (tell L notice m)
        ↔ (((i : Identifier) × (L.get i m ≡ some l)) × (n ≡ notice))
  tell_iff notice n l m = (
    λ k. let (v, e) = (In-map_pair notice (values L m) l n).0 k in ((value_iff l m).0 v, e),
    λ (v, e). (In-map_pair notice (values L m) l n).1 ((value_iff l m).1 v, e),
  )

  module _ (M : Maps) where
    -- A post runner hears of a runner without categories, or of one with a category that it takes.
    abbrev pub Hears : List String → PostRunner → Type 0
    Hears accepted r = (accepted ≡ []) ⊎ Accepts accepted r

    selected_iff :
        (accepted : List String) (registry : RunnerRegistry M) (o : Option (List PostRunner))
        (r : PostRunner)
        → Selects M accepted registry o
        → In r (unwrap_or o []) ↔ (In r (all_post_runners M registry) × Accepts accepted r)
    selected_iff accepted registry none r h = (λ n. absurd n, λ (n, a). h r n a)
    selected_iff accepted registry (some out) r h = h.1 r

    addressees_iff :
        (accepted : List String) (registry : RunnerRegistry M) (r : PostRunner)
        → In r (addressees L M accepted registry)
          ↔ (In r (all_post_runners M registry) × Hears accepted r)
    unfolding addressees
    addressees_iff [] registry r = (λ n. (n, inl refl), λ (n, a). n)
    addressees_iff (c ∷ cs) registry r =
        let s =
          selected_iff (c ∷ cs) registry _ r
            (find_post_runners_by_categories-Selects M (c ∷ cs) registry) in
        (λ n. ((s.0 n).0, inr (s.0 n).1), λ (n, a). elim a [ inl e ↦ cc e | inr k ↦ s.1 (n, k) ])

    -- What a call tells: each listener the notice, each post runner that hears of the runner the
    -- outcome, and nobody anything else.
    pub record Reports (self : DefaultRunnerWatcher L) (registry : RunnerRegistry M)
        (notice : Notice) (outcome : Posted) (told : Told) : Type 0 where
      pub to_listeners :
          (l : ℕ) (n : Notice)
          → In {A = ℕ × Notice} (l, n) told.notices
            ↔ (((i : Identifier) × (L.get i self.listeners ≡ some l)) × (n ≡ notice))
      pub to_post_runners :
          (r : PostRunner) (p : Posted)
          → In {A = PostRunner × Posted} (r, p) told.posts ↔ (
              (In r (all_post_runners M registry) × Hears (categories_of self.runner) r)
              × (p ≡ outcome))

    posts_iff :
        (outcome p : Posted) (accepted : List String) (registry : RunnerRegistry M) (r : PostRunner)
        → In {A = PostRunner × Posted}
            (r, p)
            (posts_to L M outcome (addressees L M accepted registry))
          ↔ ((In r (all_post_runners M registry) × Hears accepted r) × (p ≡ outcome))
    posts_iff outcome p accepted registry r = (
      λ n.
          let (k, e) = (In-map_pair outcome (addressees L M accepted registry) r p).0 n in
          ((addressees_iff accepted registry r).0 k, e),
      λ (k, e).
          (In-map_pair outcome (addressees L M accepted registry) r p).1
            ((addressees_iff accepted registry r).1 k, e),
    )

    -- A result with bytes tells every listener of the success, and posts the bytes to exactly the
    -- listed post runners that hear of the runner: all of them if it has no category, and otherwise
    -- those that take every category or one of its own.
    pub on_result-Reports :
        (bytes : List ℕ) (registry : RunnerRegistry M) (self : DefaultRunnerWatcher L)
        → Reports self registry
            (on_success self.identifier)
            (post bytes)
            (on_result L M (some bytes) registry self)
    unfolding on_result notify_success
    on_result-Reports bytes registry self = record {
      to_listeners = λ l n. tell_iff (on_success self.identifier) n l self.listeners;
      to_post_runners = λ r p. posts_iff (post bytes) p (categories_of self.runner) registry r;
    }

    -- An error tells every listener of the failure, and posts the error to the same post runners.
    pub on_error-Reports :
        (e : RunnerError) (registry : RunnerRegistry M) (self : DefaultRunnerWatcher L)
        → Reports self registry
            (on_fail self.identifier e)
            (post_err e)
            (on_error L M e registry self)
    unfolding on_error notify_fail
    on_error-Reports e registry self = record {
      to_listeners = λ l n. tell_iff (on_fail self.identifier e) n l self.listeners;
      to_post_runners = λ r p. posts_iff (post_err e) p (categories_of self.runner) registry r;
    }
