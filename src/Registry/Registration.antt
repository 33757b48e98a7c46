-- ===== src/Registry/Registration.antt =====
-- registry.rs, `put_runner`: the registered runners and the searches after a registration.
use strawberry_background.Prelude.{
  ℕ, ◌≡◌, refl, sym, ap, ◌∙◌, ◌⊎◌, ◌↔◌, inl, inr, String, ◌||◌, List, [], ◌∷◌, ◌++◌, ◌==◌, is_ok,
  concat, String-eq, In, List-cases, In-append, In-append_left, In-append_right, arith,
  Bool-eq_of_iff, or-eq-true,
}
use strawberry_background.Prelude.Map.{values}
use strawberry_background.Request.{Identifier, Identifier-eq}
use strawberry_background.Registry.Finding.{
  Filed-iff, push_runners-Filed, Filed-push_runners, IsKnown, find-is_ok_iff,
}
use strawberry_background.Registry.{
  Maps, Runner, RunnerRegistry, registered, find_runner_by_identifier, push_runners, put_runner,
  categories_of, update_runner_hash,
}

module _ (M : Maps) (hash : Identifier → ℕ) where
  open M use {of_runners as RM}

  module _ (r : Runner) (self : RunnerRegistry M) (x : Runner) where
    add_omnipotent :
        In x ((self.omnipotence_runners ++ r ∷ []) ++ concat (values RM self.runners))
        ↔ (In x (registered M self) ⊎ (x ≡ r))
    add_omnipotent = ground (
      arith,
      In-append (self.omnipotence_runners ++ r ∷ []) (concat (values RM self.runners)) x,
      In-append self.omnipotence_runners (r ∷ []) x,
      In-append self.omnipotence_runners (concat (values RM self.runners)) x,
    )

    add_filed :
        (c : String) (cs : List String)
        → In x (
            self.omnipotence_runners ++ concat (values RM (push_runners M r (c ∷ cs) self.runners)))
          ↔ (In x (registered M self) ⊎ (x ≡ r))
    add_filed c cs = (
      λ h. elim ((In-append self.omnipotence_runners _ x).0 h) [
        | inl here ↦ inl (In-append_left self.omnipotence_runners _ x here)
        | inr filed ↦
            elim (push_runners-Filed M r (c ∷ cs) self.runners x ((Filed-iff M x _).0 filed)) [
              | inl before ↦ inl (
                  In-append_right self.omnipotence_runners _ x
                    ((Filed-iff M x self.runners).1 before))
              | inr new ↦ inr new
            ]
      ],
      λ h. elim h [
        | inl before ↦ elim ((In-append self.omnipotence_runners _ x).0 before) [
          | inl here ↦ In-append_left self.omnipotence_runners _ x here
          | inr filed ↦ In-append_right self.omnipotence_runners _ x (
              (Filed-iff M x _).1 (
                Filed-push_runners M r c cs self.runners x
                  (inl ((Filed-iff M x self.runners).0 filed))))
        ]
        | inr new ↦
            In-append_right self.omnipotence_runners _ x
              ((Filed-iff M x _).1 (Filed-push_runners M r c cs self.runners x (inr new)))
      ],
    )

  -- A registration adds the runner to what the loops visit, and takes nothing away.
  pub In-put_runner :
      (r : Runner) (self : RunnerRegistry M) (x : Runner)
      → In x (registered M (put_runner M hash r self)) ↔ (In x (registered M self) ⊎ (x ≡ r))
  unfolding put_runner update_runner_hash
  In-put_runner r self x = elim (List-cases (categories_of r)) [
    | inl e ↦ rw e (add_omnipotent r self x)
    | inr (c, cs, e) ↦ rw e (add_filed r self x c cs)
  ]

  IsKnown-put_runner :
      (r : Runner) (self : RunnerRegistry M) (i : Identifier)
      → IsKnown M i (put_runner M hash r self) ↔ ((r.identifier ≡ i) ⊎ IsKnown M i self)
  IsKnown-put_runner r self i = (
    λ (x, n, p). elim ((In-put_runner r self x).0 n) [
      | inl before ↦ inr (x, before, p)
      | inr new ↦ inl (ap (λ (q : Runner). q.identifier) (sym new) ∙ p)
    ],
    λ h. elim h [
      | inl here ↦ (r, (In-put_runner r self r).1 (inr refl), here)
      | inr (x, n, p) ↦ (x, (In-put_runner r self x).1 (inl n), p)
    ],
  )

  -- After `put_runner` a search succeeds exactly if it is for the new runner's identifier or
  -- succeeded before, for any hasher, and whatever categories the runner accepts.
  pub is_ok-find-put_runner :
      (r : Runner) (self : RunnerRegistry M) (i : Identifier)
      → is_ok (find_runner_by_identifier M i (put_runner M hash r self))
        ≡ (r.identifier == i || is_ok (find_runner_by_identifier M i self))
  is_ok-find-put_runner r self i =
      let found = find-is_ok_iff M i (put_runner M hash r self) in
      let before = find-is_ok_iff M i self in
      let known = IsKnown-put_runner r self i in
      let same = Identifier-eq.beq_iff r.identifier i in
      let either = or-eq-true (r.identifier == i) (is_ok (find_runner_by_identifier M i self)) in
      Bool-eq_of_iff _ _ (
        λ h. either.1 (elim (known.0 (found.0 h)) [
          | inl here ↦ inl (same.1 here)
          | inr there ↦ inr (before.1 there)
        ]),
        λ h. found.1 (
            known.1 (elim (either.0 h) [
              | inl here ↦ inl (same.0 here)
              | inr there ↦ inr (before.0 there)
            ])),
      )
