-- ===== src/Endpoint/Reading.antt =====
-- A query as a server reads it: cut at the delimiters, and decoded, with `+` for a space.
use strawberry_background.Prelude.{
  ℕ, ◌≡◌, refl, ap, ap₂, sym, if◌then◌else◌, ◌∙◌, inl, inr, true, false, List, [], ◌∷◌, ◌++◌, map,
  nat_eq, All, In, ==_ne, Nat-eq, nat_eq_iff,
}
use strawberry_background.Prelude.Text.{Text, join}
use strawberry_background.Url.Decoding.{decode}

onto_first : ℕ → List Text → List Text
onto_first b [] = (b ∷ []) ∷ []
onto_first b (t ∷ ts) = (b ∷ t) ∷ ts

-- The parts between the bytes that are equal to the first argument.
unfoldable pub split_on : ℕ → Text → List Text
unfolding onto_first
split_on c [] = [] ∷ []
split_on c (b ∷ t) = elim (nat_eq b c) [
  | true ↦ [] ∷ split_on c t
  | false ↦ onto_first b (split_on c t)
]

-- In a query, `+` stands for a space too.
abbrev pub plus_to_space : ℕ → ℕ
plus_to_space b = if nat_eq b b'+' then b' ' else b

unfoldable pub pair_of : List Text → Text × Text
pair_of (key ∷ value ∷ []) = (decode (map plus_to_space key), decode (map plus_to_space value))
pair_of other = ([], [])

unfoldable pub query_part : List Text → Text
query_part (path ∷ query ∷ []) = query
query_part other = []

-- The query of a URL: what follows `?`, cut at `&` and then at `=`, and decoded.
unfoldable pub query_of : Text → List (Text × Text)
unfolding pair_of query_part split_on
query_of url = map (λ t. pair_of (split_on b'=' t)) (split_on b'&' (query_part (split_on b'?' url)))

pub map-plus_to_space : (t : Text) → ¬ In b'+' t → map plus_to_space t ≡ t
map-plus_to_space [] h = refl
map-plus_to_space (b ∷ t) h =
    ap₂ (λ x y. x ∷ y)
      (ap (λ test. if test then b' ' else b) (==_ne ⦃e = Nat-eq⦄ b b'+' (λ e. h (inl (sym e)))))
      (map-plus_to_space t (λ m. h (inr m)))

pub split-plain : (c : ℕ) (t : Text) → ¬ In c t → split_on c t ≡ t ∷ []
unfolding split_on onto_first
split-plain c [] h = refl
split-plain c (b ∷ t) h =
    ap (λ e. elim e [ true ↦ [] ∷ split_on c t | false ↦ onto_first b (split_on c t) ])
      (==_ne ⦃e = Nat-eq⦄ b c (λ e. h (inl (sym e))))
    ∙ ap (onto_first b) (split-plain c t (λ m. h (inr m)))

pub split-at : (c : ℕ) (s t : Text) → ¬ In c s → split_on c (s ++ c ∷ t) ≡ s ∷ split_on c t
unfolding split_on onto_first
split-at c [] t h =
    ap (λ e. elim e [ true ↦ [] ∷ split_on c t | false ↦ onto_first c (split_on c t) ])
      ((nat_eq_iff c c).1 refl)
split-at c (b ∷ s) t h =
    ap
      (λ e. elim e [
        | true ↦ [] ∷ split_on c (s ++ c ∷ t)
        | false ↦ onto_first b (split_on c (s ++ c ∷ t))
      ])
      (==_ne ⦃e = Nat-eq⦄ b c (λ e. h (inl (sym e))))
    ∙ ap (onto_first b) (split-at c s t (λ m. h (inr m)))

pub split-join :
    (c : ℕ) (t : Text) (ts : List Text)
    → All (λ x. ¬ In c x) (t ∷ ts)
    → split_on c (join (c ∷ []) (t ∷ ts)) ≡ t ∷ ts
split-join c t [] h = split-plain c t h.0
split-join c t (u ∷ us) h =
    split-at c t (join (c ∷ []) (u ∷ us)) h.0 ∙ ap (λ x. t ∷ x) (split-join c u us h.1)
