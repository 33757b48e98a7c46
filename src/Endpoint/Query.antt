-- ===== src/Endpoint/Query.antt =====
-- The query of a built URL, read back as a server reads it.
use strawberry_background.Prelude.{
  ℕ, zero, suc, ◌-◌, ◌<◌, ◌≡◌, ◌≢◌, refl, ap, ◌∙◌, inl, inr, Bool, true, false, Option, none, some,
  List, [], ◌∷◌, ◌++◌, map, arith, All, In, Nat-eq, All-In, All-weaken, unwrap_or, length,
  In-append_split, ap₂,
}
use strawberry_background.Prelude.Text.{Text, ascii, join, replace, replace_from, starts_with}
use strawberry_background.Url.{PercentEncoding, reserved, encode_component, encode_query_component}
use strawberry_background.Url.Decoding.{
  decode, IsPlain, IsSafe, decode-encode_component, encode_component-IsSafe,
}
use strawberry_background.Endpoint.{
  HttpEndpoint, build_url, query_pair, combine_path_params_to_path, combine_query_params_to_path,
  replace_params,
}
use strawberry_background.Endpoint.Reading.{
  split_on, pair_of, query_part, query_of, plus_to_space, map-plus_to_space, split-plain, split-at,
  split-join,
}

not_in : (c : ℕ) (t : Text) → In c reserved → IsSafe t → ¬ In c t
not_in c t r h m = All-In (λ b. ¬ In b reserved) t h m r

-- The parameters whose keys and values are bytes without `%`.
abbrev pub ArePlain : List (Text × Text) → Type 0
ArePlain ps = All (λ p. IsPlain p.0 × IsPlain p.1) ps

bytes : (t : Text) → IsPlain t → All (λ b. b < 256) t
bytes t h = All-weaken (λ b. (b < 256) × (b ≢ b'%')) (λ b. b < 256) (λ b x. x.0) t h

module _ (E : PercentEncoding) where
  query_free : (c : ℕ) (t : Text) → In c reserved → IsPlain t → ¬ In c (encode_query_component E t)
  query_free c t r h =
      not_in c (encode_query_component E t) r (encode_component-IsSafe E t (bytes t h)).1

  part_back : (t : Text) → IsPlain t → decode (map plus_to_space (encode_query_component E t)) ≡ t
  part_back t h =
      ap decode
        (map-plus_to_space (encode_query_component E t) (query_free b'+' t (ground arith) h))
      ∙ (decode-encode_component E t h).1

  pair_back :
      (k v : Text) → IsPlain k → IsPlain v → pair_of (split_on b'=' (query_pair E (k, v))) ≡ (k, v)
  unfolding query_pair pair_of
  pair_back k v h g =
      ap pair_of (
        split-at b'=' (encode_query_component E k) (encode_query_component E v)
          (query_free b'=' k (ground arith) h)
        ∙ ap (λ x. encode_query_component E k ∷ x)
            (split-plain b'=' (encode_query_component E v) (query_free b'=' v (ground arith) g)))
      ∙ ap₂ (λ x y. (x, y)) (part_back k h) (part_back v g)

  pairs_back :
      (ps : List (Text × Text))
      → ArePlain ps
      → map (λ t. pair_of (split_on b'=' t)) (map (query_pair E) ps) ≡ ps
  pairs_back [] h = refl
  pairs_back (p ∷ ps) h = ap₂ (λ x y. x ∷ y) (pair_back p.0 p.1 h.0.0 h.0.1) (pairs_back ps h.1)

  -- A byte that delimits, but is neither the `=` of a pair nor in its two parts.
  pair_free :
      (c : ℕ) (k v : Text)
      → In c reserved
      → c ≢ b'='
      → IsPlain k
      → IsPlain v
      → ¬ In c (query_pair E (k, v))
  unfolding query_pair
  pair_free c k v r n h g m =
      elim (In-append_split (encode_query_component E k) (ascii "=" ++ encode_query_component E v) c
        m) [ inl a ↦ query_free c k r h a | inr (inl e) ↦ n e | inr (inr a) ↦ query_free c v r g a ]

  pairs_free :
      (c : ℕ) (ps : List (Text × Text))
      → In c reserved
      → c ≢ b'='
      → ArePlain ps
      → All (λ x. ¬ In c x) (map (query_pair E) ps)
  pairs_free c [] r n h = tt
  pairs_free c (p ∷ ps) r n h = (pair_free c p.0 p.1 r n h.0.0 h.0.1, pairs_free c ps r n h.1)

  join_free :
      (c d : ℕ) (ts : List Text) → c ≢ d → All (λ x. ¬ In c x) ts → ¬ In c (join (d ∷ []) ts)
  join_free c d [] n h m = absurd m
  join_free c d (t ∷ []) n h m = h.0 m
  join_free c d (t ∷ u ∷ us) n h m = elim (In-append_split t (d ∷ join (d ∷ []) (u ∷ us)) c m) [
    | inl a ↦ h.0 a
    | inr (inl e) ↦ n e
    | inr (inr a) ↦ join_free c d (u ∷ us) n h.1 a
  ]

-- A byte that is in neither of two texts is not in the one that is chosen.
chosen_free :
    (c : ℕ) (b : Bool) (x y : Text) → ¬ In c x → ¬ In c y → ¬ In c (elim b [ true ↦ x | false ↦ y ])
chosen_free c true x y h g = h
chosen_free c false x y h g = g

append_free : (c : ℕ) (s t : Text) → ¬ In c s → ¬ In c t → ¬ In c (s ++ t)
append_free c s t h g m = elim (In-append_split s t c m) [ inl a ↦ h a | inr a ↦ g a ]

replace_free :
    (c : ℕ) (p to : Text)
    → ¬ In c to
    → (n : ℕ) (t : Text) → ¬ In c t
    → ¬ In c (replace_from p to n t)
replace_free c p to h n [] g = g
replace_free c p to h (suc n) (b ∷ t) g = replace_free c p to h n t (λ m. g (inr m))
replace_free c p to h zero (b ∷ t) g =
    chosen_free c (starts_with p (b ∷ t)) (to ++ replace_from p to (length p - 1) t)
      (b ∷ replace_from p to 0 t)
      (append_free c to (replace_from p to (length p - 1) t) h
        (replace_free c p to h (length p - 1) t (λ m. g (inr m))))
      (λ m. elim m [ inl e ↦ g (inl e) | inr a ↦ replace_free c p to h zero t (λ k. g (inr k)) a ])

-- The parameters whose values are bytes.
abbrev pub HaveBytes : List (Text × Text) → Type 0
HaveBytes ps = All (λ p. All (λ b. b < 256) p.1) ps

module _ (E : PercentEncoding) where
  params_free :
      (c : ℕ) (params : List (Text × Text)) (path : Text)
      → In c reserved
      → HaveBytes params
      → ¬ In c path
      → ¬ In c (replace_params E params path)
  unfolding replace_params
  params_free c [] path r h g = g
  params_free c ((k, v) ∷ params) path r h g =
      params_free c params (replace (ascii ":" ++ k) (encode_component E v) path) r h.1 (
        replace_free c (ascii ":" ++ k) (encode_component E v)
          (not_in c (encode_component E v) r (encode_component-IsSafe E v h.0).0) zero path g)

  -- What the values of the path cannot add to it.
  pub path_free :
      (c : ℕ) (params : Option (List (Text × Text))) (path : Text)
      → In c reserved
      → HaveBytes (unwrap_or params [])
      → ¬ In c path
      → ¬ In c (combine_path_params_to_path E params path)
  unfolding combine_path_params_to_path
  path_free c none path r h g = g
  path_free c (some params) path r h g = params_free c params path r h g

  query_of-combine :
      (base : Text) (p : Text × Text) (ps : List (Text × Text))
      → ArePlain (p ∷ ps)
      → ¬ In b'?' base
      → query_of (combine_query_params_to_path E (some (p ∷ ps)) base) ≡ p ∷ ps
  unfolding query_of combine_query_params_to_path query_part
  query_of-combine base p ps h g =
      ap (λ x. map (λ t. pair_of (split_on b'=' t)) (split_on b'&' (query_part x)))
        (split-at b'?' base query g
          ∙ ap (λ x. base ∷ x)
              (split-plain b'?' query (
                join_free E b'?' b'&' parts (ground arith)
                  (pairs_free E b'?' (p ∷ ps) (ground arith) (ground arith) h))))
      ∙ ap (map (λ t. pair_of (split_on b'=' t))) (
          split-join b'&' (query_pair E p) (map (query_pair E) ps)
            (pairs_free E b'&' (p ∷ ps) (ground arith) (ground arith) h))
      ∙ pairs_back E (p ∷ ps) h
    where
      parts : List Text
      parts = map (query_pair E) (p ∷ ps)

      query : Text
      query = join (ascii "&") parts

  -- When the domain and the path of an endpoint have no `?`, the values for the path are bytes, and
  -- there are query parameters, all of bytes other than `%`, then a server that cuts the built URL at
  -- `?`, `&` and `=` and decodes the parts, with `+` for a space, finds these parameters, in their
  -- order. A space in a parameter stands in the URL as it is; the test of the repository for
  -- `encode_query_component` expects `+` there.
  pub query_of-build_url :
      (e : HttpEndpoint) (p : Text × Text) (ps : List (Text × Text))
      → e.query_params ≡ some (p ∷ ps)
      → ArePlain (p ∷ ps)
      → HaveBytes (unwrap_or e.path_params [])
      → ¬ In b'?' (e.domain ++ e.path)
      → query_of (build_url E e) ≡ p ∷ ps
  unfolding build_url
  query_of-build_url e p ps q h a g =
      ap
        (λ x. query_of (
          combine_query_params_to_path E x
            (combine_path_params_to_path E e.path_params (e.domain ++ e.path))))
        q
      ∙ query_of-combine (combine_path_params_to_path E e.path_params (e.domain ++ e.path)) p ps h
          (path_free b'?' e.path_params (e.domain ++ e.path) (ground arith) a g)
