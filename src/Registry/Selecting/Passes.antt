-- ===== src/Registry/Selecting/Passes.antt =====
-- The first pass marks identifiers and the second keeps them: together they filter.
use mathlib.Core.List
use strawberry_background.Prelude.{
  ◌≡◌, refl, sym, ap, ap₂, ==_ne, ◌∙◌, ◌≢◌, inl, inr, Bool, none, List, [], ◌∷◌, In, IsDistinct,
  Bool-cases, if◌then◌else◌, ==_refl, String-eq,
}
use strawberry_background.Prelude.Map.Laws.{In-map}
use strawberry_background.Request.{Identifier, Identifier-eq}
use strawberry_background.Registry.{Maps, PostRunner}
use strawberry_background.Registry.Selecting.{filter_by, is_member, member_of, mark, keep}

module _ (M : Maps) where
  open M use {sets as SM}

  module _ (wanted : PostRunner → Bool) where
    abbrev pub ids : List PostRunner → List Identifier
    ids rs = List.map (λ (r : PostRunner). r.identifier) rs

    abbrev marked : PostRunner → SM.Map → SM.Map
    marked r s = if wanted r then SM.insert r.identifier tt s else s

    get-marked_other :
        (r : PostRunner) (s : SM.Map) (i : Identifier)
        → r.identifier ≢ i
        → SM.get i (marked r s) ≡ SM.get i s
    get-marked_other r s i h = elim (Bool-cases (wanted r)) [
      | inl take ↦ rw take (rw (==_ne r.identifier i h) at (SM.get-insert r.identifier i tt s))
      | inr leave ↦ rw leave refl
    ]

    -- Marking the rest does not touch an identifier that the rest does not have.
    mark_other :
        (rs : List PostRunner) (s : SM.Map) (i : Identifier)
        → ¬ In i (ids rs)
        → SM.get i (mark M wanted rs s) ≡ SM.get i s
    unfolding mark
    mark_other [] s i h = refl
    mark_other (r ∷ rs) s i h =
        mark_other rs (marked r s) i (λ n. h (inr n))
        ∙ get-marked_other r s i (λ e. h (inl (sym e)))

    is_member-marked :
        (r : PostRunner) (s : SM.Map)
        → SM.get r.identifier s ≡ none
        → is_member M r.identifier (marked r s) ≡ wanted r
    is_member-marked r s e = elim (Bool-cases (wanted r)) [
      | inl take ↦ rw take (
          ap member_of
            (rw (==_refl r.identifier) at (SM.get-insert r.identifier r.identifier tt s)))
      | inr leave ↦ rw leave (ap member_of e)
    ]

    pub keep-mark :
        (rs : List PostRunner) (s : SM.Map)
        → IsDistinct (ids rs)
        → ((r : PostRunner) → In r rs → SM.get r.identifier s ≡ none)
        → keep M (mark M wanted rs s) rs ≡ filter_by wanted rs
    unfolding mark keep
    keep-mark [] s d fresh = refl
    keep-mark (r ∷ rs) s d fresh =
        ap₂ (λ (b : Bool) (l : List PostRunner). if b then r ∷ l else l) head
          (keep-mark rs (marked r s) d.1
            (λ q n. get-marked_other r s q.identifier (other q n) ∙ fresh q (inr n)))
      where
        head : is_member M r.identifier (mark M wanted rs (marked r s)) ≡ wanted r
        head =
            ap member_of (mark_other rs (marked r s) r.identifier d.0)
            ∙ is_member-marked r s (fresh r (inl refl))

        other : (q : PostRunner) → In q rs → r.identifier ≢ q.identifier
        other q n e = d.0 (rw e (In-map (λ (x : PostRunner). x.identifier) rs q n))
