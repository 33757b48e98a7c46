-- ===== src/Registry.antt =====
-- superstructure/coordinator/registry.rs: the runners and post runners by category.
-- A trait object `Arc<dyn Runner>` is its allocation with what `identifier` and `configuration`
-- return; the hasher of the standard library is a parameter.
pub mod Hashes
pub mod Finding
pub mod Registration
pub mod Listing
pub mod Selecting
use strawberry_background.Prelude.{
  ℕ, ◌≡◌, String, Bool, true, false, ◌||◌, Option, none, some, List, [], ◌∷◌, ◌++◌, ◌==◌, Result,
  ok, err, bit_xor, unwrap_or, is_empty, concat, if◌then◌else◌, String-eq,
}
use strawberry_background.Prelude.Map.{HashMap, keys, values}
use strawberry_background.Request.{
  Identifier, RunnerConfiguration, PostRunnerConfiguration, RegistryError, Identifier-eq,
  cannot_find_runner_by_identifier, cannot_find_post_runner_by_identifier,
}

pub record Runner : Type 0 where
  pub address : ℕ
  pub identifier : Identifier
  pub configuration : RunnerConfiguration

pub record PostRunner : Type 0 where
  pub address : ℕ
  pub identifier : Identifier
  pub configuration : PostRunnerConfiguration

abbrev pub contains : List String → String → Bool
contains [] c = false
contains (x ∷ xs) c = x == c || contains xs c

-- `accepted_categories.as_ref().unwrap_or(&empty_vec)`
abbrev pub categories_of : Runner → List String
categories_of r = unwrap_or r.configuration.accepted_categories []

abbrev pub post_categories_of : PostRunner → List String
post_categories_of r = unwrap_or r.configuration.accepted_categories []

-- The maps of the standard library that the registry uses; a `HashSet` is a map to `()`.
pub record Maps : Type 1 where
  pub of_runners : HashMap String (List Runner) String-eq
  pub of_post_runners : HashMap String (List PostRunner) String-eq
  pub sets : HashMap Identifier (Unit {0}) Identifier-eq

-- The search loops, which stop at the first entry with the identifier.
pub first : {R : Type 0} → (R → Identifier) → Identifier → List R → Option R
first name identifier [] = none
first name identifier (r ∷ rs) = if name r == identifier then some r else first name identifier rs

abbrev pub ok_or : {A : Type 0} → RegistryError → Option A → Result A RegistryError
ok_or e none = err e
ok_or e (some a) = ok a

abbrev pub push_ok : {A : Type 0} → Result A RegistryError → List A → List A
push_ok (ok a) rest = a ∷ rest
push_ok (err e) rest = rest

pub look_up : {R : Type 0} → (Identifier → Result R RegistryError) → List Identifier → List R
look_up find [] = []
look_up find (i ∷ is) = push_ok (find i) (look_up find is)

module _ (M : Maps) where
  open M use {of_runners as RM, of_post_runners as PM, sets as SM}

  pub record RunnerRegistry : Type 0 where
    pub runners : RM.Map
    pub omnipotence_runners : List Runner
    pub post_runners : PM.Map
    pub omnipotence_post_runners : List PostRunner
    pub cached_runners_hash : ℕ
    pub cached_post_runners_hash : ℕ

  unfoldable pub new : RunnerRegistry
  new = record {
    runners = RM.empty;
    omnipotence_runners = [];
    post_runners = PM.empty;
    omnipotence_post_runners = [];
    cached_runners_hash = 0;
    cached_post_runners_hash = 0;
  }

  -- One round of the loop over the accepted categories.
  push_runner : Runner → String → RM.Map → RM.Map
  push_runner runner category m = elim (RM.get category m) [
    | none ↦ RM.insert category (runner ∷ []) m
    | some vec ↦ RM.insert category (vec ++ runner ∷ []) m
  ]

  pub push_runners : Runner → List String → RM.Map → RM.Map
  push_runners runner [] m = m
  push_runners runner (category ∷ rest) m = push_runners runner rest (push_runner runner category m)

  push_post_runner : PostRunner → String → PM.Map → PM.Map
  push_post_runner post_runner category m = elim (PM.get category m) [
    | none ↦ PM.insert category (post_runner ∷ []) m
    | some vec ↦ PM.insert category (vec ++ post_runner ∷ []) m
  ]

  push_post_runners : PostRunner → List String → PM.Map → PM.Map
  push_post_runners post_runner [] m = m
  push_post_runners post_runner (category ∷ rest) m =
      push_post_runners post_runner rest (push_post_runner post_runner category m)

  -- Every registered runner, in the order in which the loops visit them.
  abbrev pub registered : RunnerRegistry → List Runner
  registered self = self.omnipotence_runners ++ concat (values RM self.runners)

  abbrev pub post_registered : RunnerRegistry → List PostRunner
  post_registered self = self.omnipotence_post_runners ++ concat (values PM self.post_runners)

  unfoldable pub find_runner_by_identifier :
      Identifier → RunnerRegistry → Result Runner RegistryError
  unfolding first
  find_runner_by_identifier identifier self =
      ok_or (cannot_find_runner_by_identifier identifier)
        (first (λ r. r.identifier) identifier (registered self))

  unfoldable pub find_post_runner_by_identifier :
      Identifier → RunnerRegistry → Result PostRunner RegistryError
  unfolding first
  find_post_runner_by_identifier identifier self =
      ok_or (cannot_find_post_runner_by_identifier identifier)
        (first (λ r. r.identifier) identifier (post_registered self))

  -- The loops that fill `identifiers`, and those that look each identifier up again.
  pub collect : {R : Type 0} → (R → Identifier) → List R → SM.Map → SM.Map
  collect name [] s = s
  collect name (r ∷ rs) s = collect name rs (SM.insert (name r) tt s)

  unfoldable pub all_runners : RunnerRegistry → List Runner
  unfolding collect look_up
  all_runners self =
      look_up (λ i. find_runner_by_identifier i self)
        (keys SM (collect (λ r. r.identifier) (registered self) SM.empty))

  unfoldable pub all_post_runners : RunnerRegistry → List PostRunner
  unfolding collect look_up
  all_post_runners self =
      look_up (λ i. find_post_runner_by_identifier i self)
        (keys SM (collect (λ r. r.identifier) (post_registered self) SM.empty))

  pub all_runner_categories : RunnerRegistry → List String
  all_runner_categories self = keys RM self.runners

  pub all_post_runner_categories : RunnerRegistry → List String
  all_post_runner_categories self = keys PM self.post_runners

module _ (hash : Identifier → ℕ) where
  -- The loops `combined ^= hash`.
  combine_runners : ℕ → List Runner → ℕ
  combine_runners combined [] = combined
  combine_runners combined (r ∷ rs) = combine_runners (bit_xor combined (hash r.identifier)) rs

  -- The omnipotent post runners are hashed by `identifier()`, the others by their configuration's.
  combine_post_runners : (PostRunner → Identifier) → ℕ → List PostRunner → ℕ
  combine_post_runners name combined [] = combined
  combine_post_runners name combined (r ∷ rs) =
      combine_post_runners name (bit_xor combined (hash (name r))) rs

module _ (M : Maps) (hash : Identifier → ℕ) where
  open M use {of_runners as RM, of_post_runners as PM}

  unfoldable pub compute_runners_hash : RM.Map → List Runner → ℕ
  unfolding combine_runners
  compute_runners_hash data' omnipotence =
      combine_runners hash (combine_runners hash 0 omnipotence) (concat (values RM data'))

  pub compute_post_runners_hash : PM.Map → List PostRunner → ℕ
  unfolding combine_post_runners
  compute_post_runners_hash data' omnipotence =
      combine_post_runners hash (λ r. r.configuration.identifier)
        (combine_post_runners hash (λ r. r.identifier) 0 omnipotence) (concat (values PM data'))

  pub update_runner_hash : RunnerRegistry M → RunnerRegistry M
  unfolding compute_runners_hash
  update_runner_hash self = record self {
    cached_runners_hash = compute_runners_hash self.runners self.omnipotence_runners;
  }

  pub update_post_runner_hash : RunnerRegistry M → RunnerRegistry M
  unfolding compute_post_runners_hash
  update_post_runner_hash self = record self {
    cached_post_runners_hash =
        compute_post_runners_hash self.post_runners self.omnipotence_post_runners;
  }

  unfoldable pub put_runner : Runner → RunnerRegistry M → RunnerRegistry M
  unfolding push_runner push_runners update_runner_hash
  put_runner runner self =
      if is_empty (categories_of runner)
      then update_runner_hash
          (record self { omnipotence_runners = self.omnipotence_runners ++ runner ∷ [] })
      else update_runner_hash
          (record self { runners = push_runners M runner (categories_of runner) self.runners })

  unfoldable pub put_post_runners : PostRunner → RunnerRegistry M → RunnerRegistry M
  unfolding push_post_runner push_post_runners update_post_runner_hash
  put_post_runners post_runner self =
      if is_empty (post_categories_of post_runner)
      then update_post_runner_hash (record self {
        omnipotence_post_runners = self.omnipotence_post_runners ++ post_runner ∷ [];
      })
      else update_post_runner_hash (record self {
        post_runners =
            push_post_runners M post_runner (post_categories_of post_runner) self.post_runners;
      })
