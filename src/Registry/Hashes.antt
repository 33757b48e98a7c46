-- ===== src/Registry/Hashes.antt =====
-- registry.rs: the cached hash of the runners after a registration.
use mathlib.Core.List.{Permᴰ}
use mathlib.Core.List.Permᴰ
use mathlib.Core.List
use strawberry_background.Prelude.{
  ℕ, zero, suc, inl, inr, ◌*◌, ◌<◌, ◌≡◌, refl, sym, ap, ◌∙◌, String, List, [], ◌∷◌, ◌++◌, concat,
  arith, bit_xor, length, List-cases, Option-cases, ap₂,
}
use strawberry_background.Prelude.Xor.{xor_comm, xor_assoc, xor_self, zero-xor, xor-zero}
use strawberry_background.Prelude.Map.{values}
use strawberry_background.Request.{Identifier}
use strawberry_background.Registry.{
  Maps, Runner, RunnerRegistry, push_runner, push_runners, put_runner, categories_of,
  update_runner_hash, compute_runners_hash, combine_runners,
}

module _ (hash : Identifier → ℕ) where
  combine_start :
      (c : ℕ) (rs : List Runner) → combine_runners hash c rs ≡ bit_xor c (combine_runners hash 0 rs)
  unfolding combine_runners
  combine_start c [] = sym (xor-zero c)
  combine_start c (r ∷ rs) =
      combine_start (bit_xor c (hash r.identifier)) rs
      ∙ xor_assoc c (hash r.identifier) (combine_runners hash 0 rs)
      ∙ ap (bit_xor c) (
          sym (combine_start (hash r.identifier) rs)
          ∙ ap (λ (z : ℕ). combine_runners hash z rs) (sym (zero-xor (hash r.identifier))))

  combine_through :
      (c : ℕ) (xs ys : List Runner)
      → combine_runners hash c (xs ++ ys) ≡ combine_runners hash (combine_runners hash c xs) ys
  unfolding combine_runners
  combine_through c [] ys = refl
  combine_through c (x ∷ xs) ys = combine_through (bit_xor c (hash x.identifier)) xs ys

  combine-append :
      (xs ys : List Runner)
      → combine_runners hash 0 (xs ++ ys)
        ≡ bit_xor (combine_runners hash 0 xs) (combine_runners hash 0 ys)
  combine-append xs ys = combine_through 0 xs ys ∙ combine_start (combine_runners hash 0 xs) ys

  combine_one : (r : Runner) → combine_runners hash 0 (r ∷ []) ≡ hash r.identifier
  unfolding combine_runners
  combine_one r = zero-xor (hash r.identifier)

  total : List (String × List Runner) → ℕ
  total es = combine_runners hash 0 (concat (List.map (λ (p : String × List Runner). p.1) es))

  total-cons :
      (p : String × List Runner) (es : List (String × List Runner))
      → total (p ∷ es) ≡ bit_xor (combine_runners hash 0 p.1) (total es)
  unfolding total
  total-cons p es = combine-append p.1 _

  xor_left_comm : (a b c : ℕ) → bit_xor a (bit_xor b c) ≡ bit_xor b (bit_xor a c)
  xor_left_comm a b c =
      sym (xor_assoc a b c) ∙ ap (λ (z : ℕ). bit_xor z c) (xor_comm a b) ∙ xor_assoc b a c

  -- Exclusive or does not see the order in which a hash map is iterated.
  total-perm : {es fs : List (String × List Runner)} → Permᴰ es fs → total es ≡ total fs
  total-perm Permᴰ.nil = refl
  total-perm (Permᴰ.cons {a = p} {b = q} {l₁ = es} {l₂ = fs} e perm) =
      rw (total-cons p es, total-cons q fs, total-perm perm, e) refl
  total-perm (Permᴰ.swap {a = p} {b = q} {a' = p'} {b' = q'} {l = es} e f) =
      rw (total-cons p (q ∷ es), total-cons q es, total-cons p' (q' ∷ es), total-cons q' es, e, f)
        (xor_left_comm _ _ _)
  total-perm (Permᴰ.trans perm perm') = total-perm perm ∙ total-perm perm'

  repeat_xor : ℕ → ℕ → ℕ
  repeat_xor zero h = 0
  repeat_xor (suc n) h = bit_xor h (repeat_xor n h)

  repeat_xor-even : (k h : ℕ) → repeat_xor (2 * k) h ≡ 0
  unfolding repeat_xor
  repeat_xor-even zero h = refl
  repeat_xor-even (suc k) h =
      let two_more : 2 * suc k ≡ suc (suc (2 * k)) = omega arith in
      rw two_more (
        sym (xor_assoc h h (repeat_xor (2 * k) h))
        ∙ ap (λ (z : ℕ). bit_xor z (repeat_xor (2 * k) h)) (xor_self h)
        ∙ zero-xor (repeat_xor (2 * k) h)
        ∙ repeat_xor-even k h)

  module _ (M : Maps) where
    open M use {of_runners as RM}

    total-insert :
        (c : String) (vec : List Runner) (m : RM.Map)
        → total (RM.entries (RM.insert c vec m))
          ≡ bit_xor (combine_runners hash 0 vec) (total (RM.entries (RM.remove c m)))
    total-insert c vec m = total-perm (RM.entries-insert c vec m) ∙ total-cons (c, vec) _

    total-push_runner :
        (r : Runner) (c : String) (m : RM.Map)
        → total (RM.entries (push_runner M r c m))
          ≡ bit_xor (hash r.identifier) (total (RM.entries m))
    unfolding push_runner
    total-push_runner r c m = elim (Option-cases (RM.get c m)) [
      | inl e ↦
          rw (e, push_runner)
            (total-insert c (r ∷ []) m
              ∙ ap₂ bit_xor (combine_one r) (sym (total-perm (RM.entries-absent c m e))))
      | inr (vec, e) ↦
          rw (e, push_runner)
            (total-insert c (vec ++ r ∷ []) m
              ∙ ap (λ (z : ℕ). bit_xor z (total (RM.entries (RM.remove c m))))
                  (combine-append vec (r ∷ []) ∙ ap (bit_xor _) (combine_one r) ∙ xor_comm _ _)
              ∙ xor_assoc (hash r.identifier) (combine_runners hash 0 vec) _
              ∙ ap (bit_xor (hash r.identifier))
                  (sym (total-perm (RM.entries-present c vec m e) ∙ total-cons (c, vec) _)))
    ]

    total-push_runners :
        (r : Runner) (cs : List String) (m : RM.Map)
        → total (RM.entries (push_runners M r cs m))
          ≡ bit_xor (repeat_xor (length cs) (hash r.identifier)) (total (RM.entries m))
    unfolding push_runners repeat_xor
    total-push_runners r [] m = sym (zero-xor _)
    total-push_runners r (c ∷ cs) m =
        total-push_runners r cs (push_runner M r c m)
        ∙ ap (bit_xor (repeat_xor (length cs) (hash r.identifier))) (total-push_runner r c m)
        ∙ xor_left_comm (repeat_xor (length cs) (hash r.identifier)) (hash r.identifier) _
        ∙ sym (xor_assoc (hash r.identifier) (repeat_xor (length cs) (hash r.identifier)) _)

    compute-total :
        (m : RM.Map) (omni : List Runner)
        → compute_runners_hash M hash m omni
          ≡ bit_xor (combine_runners hash 0 omni) (total (RM.entries m))
    unfolding compute_runners_hash total
    compute-total m omni = combine_start (combine_runners hash 0 omni) (concat (values RM m))

    compute-push_runners :
        (r : Runner) (cs : List String) (m : RM.Map) (omni : List Runner)
        → compute_runners_hash M hash (push_runners M r cs m) omni
          ≡ bit_xor
              (repeat_xor (length cs) (hash r.identifier))
              (compute_runners_hash M hash m omni)
    compute-push_runners r cs m omni =
        compute-total (push_runners M r cs m) omni
        ∙ ap (bit_xor (combine_runners hash 0 omni)) (total-push_runners r cs m)
        ∙ xor_left_comm (combine_runners hash 0 omni) (repeat_xor (length cs) (hash r.identifier))
            (total (RM.entries m))
        ∙ ap (bit_xor (repeat_xor (length cs) (hash r.identifier))) (sym (compute-total m omni))

    put_runner-cached :
        (r : Runner) (self : RunnerRegistry M)
        → 0 < length (categories_of r)
        → (put_runner M hash r self).cached_runners_hash
          ≡ bit_xor
              (repeat_xor (length (categories_of r)) (hash r.identifier))
              (compute_runners_hash M hash self.runners self.omnipotence_runners)
    unfolding put_runner update_runner_hash
    put_runner-cached r self some_category = elim (List-cases (categories_of r)) [
      | inl e ↦ absurd (omega (arith, ap length e))
      | inr (c, cs, e) ↦
          rw e (compute-push_runners r (c ∷ cs) self.runners self.omnipotence_runners)
    ]

    -- A runner that accepts an even number of categories, two for instance, leaves the cached hash
    -- of the runners at the value for the registry without it, for any hasher.
    pub put_runner_even :
        (r : Runner) (self : RunnerRegistry M) (k : ℕ)
        → length (categories_of r) ≡ 2 * suc k
        → (put_runner M hash r self).cached_runners_hash
          ≡ compute_runners_hash M hash self.runners self.omnipotence_runners
    put_runner_even r self k e =
        put_runner-cached r self (omega arith)
        ∙ ap (λ (n : ℕ). bit_xor (repeat_xor n (hash r.identifier)) old) e
        ∙ ap (λ (z : ℕ). bit_xor z old) (repeat_xor-even (suc k) (hash r.identifier))
        ∙ zero-xor old
      where
        old : ℕ
        old = compute_runners_hash M hash self.runners self.omnipotence_runners
