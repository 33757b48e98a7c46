-- ===== src/Url/Decoding.antt =====
-- Percent decoding as a reference, and what the encoders of utils/url_component.rs are to it.
use strawberry_background.Prelude.{
  ℕ, ◌+◌, ◌-◌, ◌*◌, ◌/◌, ◌%◌, ◌<◌, ◌≡◌, ◌≢◌, refl, ap, sym, ◌∙◌, inl, inr, ◌||◌, Bool, true, false,
  [], ◌∷◌, ◌++◌, ltb, leb, nat_eq, if◌then◌else◌, subst, arith, ==_ne, Nat-eq, All, In,
}
use strawberry_background.Prelude.Text.{Text}
use strawberry_background.Url.{
  PercentEncoding, escape, hex, reserved, add_all, encode_component, encode_query_component,
  uri_component_encode_set, query_component_encode_set,
}

abbrev pub is_member : ℕ → Text → Bool
is_member c [] = false
is_member c (b ∷ bs) = nat_eq b c || is_member c bs

or_swap : (a b c : Bool) → (a || (b || c)) ≡ ((b || a) || c)
or_swap true b c = ground arith
or_swap false b c = ground arith

In-is_member : (c : ℕ) (bs : Text) → In c bs → is_member c bs ≡ true
In-is_member c [] m = absurd m
In-is_member c (b ∷ bs) (inl e) = ground arith
In-is_member c (b ∷ bs) (inr m) = ground (arith, In-is_member c bs m)

hex-safe : (d : ℕ) → d < 16 → ¬ In (hex d) reserved
hex-safe d h m = ground arith

abbrev pub digit : ℕ → ℕ
digit c = if ltb c 58 then c - 48 else c - 55

pub data Pending : Type 0 where
  plain first : Pending
  second : ℕ → Pending

-- `%` and two digits stand for a byte.
abbrev pub decode_in : Pending → Text → Text
decode_in p [] = []
decode_in plain (c ∷ t) = elim (nat_eq c b'%') [
  | true ↦ decode_in first t
  | false ↦ c ∷ decode_in plain t
]
decode_in first (a ∷ t) = decode_in (second (digit a)) t
decode_in (second high) (b ∷ t) = (high * 16 + digit b) ∷ decode_in plain t

abbrev pub decode : Text → Text
decode t = decode_in plain t

-- Bytes, and none of them `%`, which the encoders leave as it is.
abbrev pub IsPlain : Text → Type 0
IsPlain t = All (λ b. (b < 256) × (b ≢ b'%')) t

digit-hex : (d : ℕ) → d < 16 → digit (hex d) ≡ d
digit-hex d h = ground arith

escaped : (b : ℕ) → b < 256 → digit (hex (b / 16)) * 16 + digit (hex (b % 16)) ≡ b
escaped b h = rw (digit-hex (b / 16) (omega arith), digit-hex (b % 16) (omega arith)) (omega arith)

-- No byte that delimits the parts of a URL.
abbrev pub IsSafe : Text → Type 0
IsSafe t = All (λ b. ¬ In b reserved) t

module _ (E : PercentEncoding) where
  abbrev encode : Text → E.AsciiSet → Text
  encode t s = E.utf8_percent_encode t s

  encoded_byte : ℕ → Bool → Text
  encoded_byte b test = if test then escape b else b ∷ []

  decode-byte :
      (b : ℕ) (test : Bool) (t : Text)
      → b < 256
      → b ≢ b'%'
      → decode (encoded_byte b test ++ t) ≡ b ∷ decode t
  unfolding encoded_byte
  decode-byte b true t h n = ap (λ x. x ∷ decode t) (escaped b h)
  decode-byte b false t h n =
      ap (λ e. elim e [ true ↦ decode_in first t | false ↦ b ∷ decode t ])
        (==_ne ⦃e = Nat-eq⦄ b b'%' n)

  decode-encode : (t : Text) (s : E.AsciiSet) → IsPlain t → decode (encode t s) ≡ t
  unfolding encoded_byte
  decode-encode [] s h = ap decode (E.encode-nil s)
  decode-encode (b ∷ t) s h =
      ap decode (E.encode-byte b t s)
      ∙ decode-byte b (leb 128 b || E.has b s) (encode t s) h.0.0 h.0.1
      ∙ ap (λ x. b ∷ x) (decode-encode t s h.1)

  -- A text of bytes without `%` is read back from its percent encoding, by either encoder.
  pub decode-encode_component :
      (t : Text)
      → IsPlain t
      → (decode (encode_component E t) ≡ t) × (decode (encode_query_component E t) ≡ t)
  unfolding encode_component encode_query_component
  decode-encode_component t h = (
    decode-encode t (uri_component_encode_set E) h,
    decode-encode t (query_component_encode_set E) h,
  )

  pub has-add_all :
      (c : ℕ) (bs : Text) (s : E.AsciiSet)
      → E.has c (add_all E bs s) ≡ (is_member c bs || E.has c s)
  has-add_all c [] s = refl
  has-add_all c (b ∷ bs) s =
      has-add_all c bs (E.add b s)
      ∙ ap (λ x. is_member c bs || x) (E.has-add c b s)
      ∙ or_swap (is_member c bs) (nat_eq b c) (E.has c s)

  kept_byte :
      (P : ℕ → Type 0) (b : ℕ) (test : Bool) (t : Text)
      → All P (escape b)
      → (test ≡ false → P b)
      → All P t
      → All P (encoded_byte b test ++ t)
  unfolding encoded_byte
  kept_byte P b true t h k a = (h.0, (h.1.0, (h.1.1.0, a)))
  kept_byte P b false t h k a = (k refl, a)

  -- What an encoded text is made of.
  encode-All :
      (P : ℕ → Type 0) (s : E.AsciiSet)
      → ((b : ℕ) → b < 256 → All P (escape b))
      → ((b : ℕ) → (leb 128 b || E.has b s) ≡ false → P b)
      → (t : Text) → All (λ b. b < 256) t
      → All P (encode t s)
  unfolding encoded_byte
  encode-All P s h k [] a = subst (All P) (sym (E.encode-nil s)) tt
  encode-All P s h k (b ∷ t) a = subst (All P) (sym (E.encode-byte b t s)) (
      kept_byte P b (leb 128 b || E.has b s) (encode t s) (h b a.0) (k b)
        (encode-All P s h k t a.1))

  unreserved :
      (b : ℕ) (s : E.AsciiSet) (bs : Text)
      → ((c : ℕ) → In c reserved → In c bs)
      → (leb 128 b || E.has b (add_all E bs s)) ≡ false
      → ¬ In b reserved
  unreserved b s bs sub e m = ground (arith, has-add_all b bs s, In-is_member b bs (sub b m))

  -- An encoded text of bytes has no byte in it that delimits the parts of a URL, by either encoder.
  pub encode_component-IsSafe :
      (t : Text)
      → All (λ b. b < 256) t
      → IsSafe (encode_component E t) × IsSafe (encode_query_component E t)
  unfolding encode_component encode_query_component
  encode_component-IsSafe t a = (
    encode-All (λ b. ¬ In b reserved) (uri_component_encode_set E) escape-safe
        (λ b. unreserved b E.controls (b' ' ∷ reserved) (λ c m. inr m)) t a,
    encode-All (λ b. ¬ In b reserved) (query_component_encode_set E) escape-safe
        (λ b. unreserved b E.controls reserved (λ c m. m)) t a,
  )
    where
      escape-safe : (b : ℕ) → b < 256 → All (λ c. ¬ In c reserved) (escape b)
      escape-safe b h = (
        λ m. ground arith,
        (hex-safe (b / 16) (omega (arith, h)), (hex-safe (b % 16) (omega arith), tt)),
      )
