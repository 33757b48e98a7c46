-- ===== src/Url/Keeping.antt =====
-- What the two encoders of utils/url_component.rs keep as it is.
use strawberry_background.Prelude.{
  ℕ, ◌<◌, ◌≡◌, refl, ap, ap₂, sym, ◌∙◌, ◌||◌, ◌&&◌, not, Bool, true, false, [], ◌∷◌, ◌++◌, ltb, leb,
  nat_eq, zero, suc, inl, inr, Bool-cases, if◌then◌else◌, arith, All, map, concat,
}
use strawberry_background.Prelude.Text.{Text, ascii}
use strawberry_background.Url.{
  PercentEncoding, escape, reserved, add_all, encode_component, encode_query_component,
}
use strawberry_background.Url.Decoding.{is_member, has-add_all}

abbrev between : ℕ → ℕ → ℕ → Bool
between low high b = leb low b && leb b high

-- Letters, digits and nine marks, of which `%` is one.
abbrev pub is_kept : ℕ → Bool
is_kept b =
    between b'a' b'z' b
    || between b'A' b'Z' b
    || between b'0' b'9' b
    || is_member b (ascii "!%'()*-._~")

abbrev pub is_kept_in_query : ℕ → Bool
is_kept_in_query b = is_kept b || nat_eq b b' '

-- Every byte that is not kept becomes `%` and two digits.
abbrev pub escaped_but : (ℕ → Bool) → Text → Text
escaped_but keeps t = concat (map (λ b. if keeps b then b ∷ [] else escape b) t)

abbrev same : Bool → Bool → Bool
same true b = b
same false b = not b

same-eq : (a b : Bool) → same a b ≡ true → a ≡ b
same-eq true b e = sym e
same-eq false true e = absurd (cc e)
same-eq false false e = refl

abbrev below : (ℕ → Bool) → ℕ → Bool
below test zero = true
below test (suc n) = test n && below test n

below-true : (test : ℕ → Bool) (n b : ℕ) → below test n ≡ true → b < n → test b ≡ true
below-true test zero b e h = absurd (omega (arith, h))
below-true test (suc n) b e h = elim (Bool-cases (nat_eq b n)) [
  | inl here ↦ ground (arith, e, here)
  | inr other ↦ below-true test n b (ground (arith, e)) (ground (arith, h, other))
]

-- The tests of the encoder, for one byte.
abbrev escapes : Text → ℕ → Bool
escapes added b = leb 128 b || (is_member b added || (ltb b 32 || nat_eq b 127))

-- Tried on all 256 bytes.
component-kept : (b : ℕ) → b < 256 → escapes (b' ' ∷ reserved) b ≡ not (is_kept b)
component-kept b h =
    same-eq _ _
      (below-true (λ b. same (escapes (b' ' ∷ reserved) b) (not (is_kept b))) 256 b refl h)

query-kept : (b : ℕ) → b < 256 → escapes reserved b ≡ not (is_kept_in_query b)
query-kept b h =
    same-eq _ _
      (below-true (λ b. same (escapes reserved b) (not (is_kept_in_query b))) 256 b refl h)

swapped : (k : Bool) (x y : Text) → (if not k then x else y) ≡ (if k then y else x)
swapped true x y = refl
swapped false x y = refl

module _ (E : PercentEncoding) where
  encode-escaped_but :
      (added : Text) (keeps : ℕ → Bool)
      → ((b : ℕ) → b < 256 → escapes added b ≡ not (keeps b))
      → (t : Text) → All (λ b. b < 256) t
      → E.utf8_percent_encode t (add_all E added E.controls) ≡ escaped_but keeps t
  encode-escaped_but added keeps k [] a = E.encode-nil (add_all E added E.controls)
  encode-escaped_but added keeps k (b ∷ t) a =
      E.encode-byte b t (add_all E added E.controls)
      ∙ ap₂ (λ x y. x ++ y)
          (ap (λ test. if leb 128 b || test then escape b else b ∷ [])
              (has-add_all E b added E.controls
                ∙ ap (λ x. is_member b added || x) (E.has-controls b))
            ∙ (ap (λ test. if test then escape b else b ∷ []) (k b a.0)
                ∙ swapped (keeps b) (escape b) (b ∷ [])))
          (encode-escaped_but added keeps k t a.1)

  -- For a text of bytes, `encode_component` keeps the letters, the digits and the marks !%'()*-._~, and
  -- escapes every other byte; `encode_query_component` does so too, but it also keeps the space, which
  -- the test of the repository expects as `+`.
  pub encode_component-escaped_but :
      (t : Text)
      → All (λ b. b < 256) t
      → (encode_component E t ≡ escaped_but is_kept t)
        × (encode_query_component E t ≡ escaped_but is_kept_in_query t)
  unfolding encode_component encode_query_component
  encode_component-escaped_but t a = (
    encode-escaped_but (b' ' ∷ reserved) is_kept component-kept t a,
    encode-escaped_but reserved is_kept_in_query query-kept t a,
  )
