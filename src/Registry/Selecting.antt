-- ===== src/Registry/Selecting.antt =====
-- registry.rs, `find_post_runners_by_category` and `find_post_runners_by_categories`.
mod Passes
pub mod Exact
use mathlib.Core.List
use strawberry_background.Prelude.{
  ◌≡◌, refl, sym, ap, ap₂, ==_ne, or-eq-true, ◌∙◌, ◌≢◌, ◌⊎◌, ◌↔◌, inl, inr, Bool, true, false, ◌||◌,
  Option, none, some, List, [], ◌∷◌, ◌==◌, In, IsDistinct, Bool-cases, arith, if◌then◌else◌, String,
  is_empty, subst, List-cases, ==_refl, String-eq,
}
use strawberry_background.Prelude.Map.{HashMap}
use strawberry_background.Prelude.Map.Laws.{In-map}
use strawberry_background.Request.{Identifier, Identifier-eq}
use strawberry_background.Registry.{
  Maps, PostRunner, RunnerRegistry, post_categories_of, contains, all_post_runners,
}
use strawberry_background.Registry.Listing.{Lists, all_post_runners-Lists}

-- The loop `for category in categories` with its `continue` and `break`.
pub any_accepted : List String → List String → Bool
any_accepted accepted [] = false
any_accepted accepted (category ∷ categories) =
    if contains accepted category then true else any_accepted accepted categories

-- The verdict of the first loop on a post runner.
unfoldable pub accepts : (List String → Bool) → PostRunner → Bool
accepts wanted r = if is_empty (post_categories_of r) then true else wanted (post_categories_of r)

abbrev pub filter_by : {A : Type 0} → (A → Bool) → List A → List A
filter_by p [] = []
filter_by p (x ∷ xs) = if p x then x ∷ filter_by p xs else filter_by p xs

abbrev pub non_empty : {A : Type 0} → List A → Option (List A)
non_empty [] = none
non_empty (x ∷ xs) = some (x ∷ xs)

abbrev pub member_of : Option (Unit {0}) → Bool
member_of none = false
member_of (some _) = true

module _ (M : Maps) where
  open M use {sets as SM}

  abbrev pub is_member : Identifier → SM.Map → Bool
  is_member i s = member_of (SM.get i s)

  -- The first loop marks identifiers, the second keeps the post runners that are marked.
  pub mark : (PostRunner → Bool) → List PostRunner → SM.Map → SM.Map
  mark wanted [] s = s
  mark wanted (r ∷ rs) s = mark wanted rs (if wanted r then SM.insert r.identifier tt s else s)

  pub keep : SM.Map → List PostRunner → List PostRunner
  keep s rs = filter_by (λ r. is_member r.identifier s) rs

  unfoldable pub find_post_runners_by_category :
      String → RunnerRegistry M → Option (List PostRunner)
  unfolding accepts mark keep
  find_post_runners_by_category category self =
      let all = all_post_runners M self in
      non_empty (keep (mark (accepts (λ accepted. contains accepted category)) all SM.empty) all)

  unfoldable pub find_post_runners_by_categories :
      List String → RunnerRegistry M → Option (List PostRunner)
  unfolding accepts any_accepted mark keep
  find_post_runners_by_categories categories self =
      let all = all_post_runners M self in
      non_empty
        (keep (mark (accepts (λ accepted. any_accepted accepted categories)) all SM.empty) all)
