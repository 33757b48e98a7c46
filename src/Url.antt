-- ===== src/Url.antt =====
-- utils/url_component.rs: percent encoding and the domain of a URL. The crates `percent_encoding` and
-- `url`, and the reading of IP addresses, are parameters.
pub mod Decoding
pub mod Keeping
use strawberry_background.Prelude.{
  ℕ, ◌+◌, ◌-◌, ◌/◌, ◌%◌, zero, suc, Bool, true, false, ◌&&◌, ◌||◌, ◌==◌, Option, none, some, List,
  [], ◌∷◌, ◌++◌, Result, ok, err, ltb, leb, nat_eq, if◌then◌else◌, ◌≡◌, map, drop,
}
use strawberry_background.Prelude.Text.{Text, ascii, starts_with, contains_text}

pub data UrlParseError : Type 0 where
  invalid_url : Text → UrlParseError
  no_host parse_error : UrlParseError

-- A hexadecimal digit, in upper case.
abbrev pub hex : ℕ → ℕ
hex d = if ltb d 10 then 48 + d else 55 + d

abbrev pub escape : ℕ → Text
escape b = b'%' ∷ hex (b / 16) ∷ hex (b % 16) ∷ []

-- The crate `percent_encoding`: sets of ASCII bytes, and the encoding of a text, which escapes what
-- is in the set or not ASCII.
pub record PercentEncoding : Type 1 where
  pub AsciiSet : Type 0
  pub controls : AsciiSet
  pub add : ℕ → AsciiSet → AsciiSet
  pub has : ℕ → AsciiSet → Bool
  pub utf8_percent_encode : Text → AsciiSet → Text
  pub has-controls : (b : ℕ) → has b controls ≡ (ltb b 32 || nat_eq b 127)
  pub has-add : (b c : ℕ) (s : AsciiSet) → has b (add c s) ≡ (nat_eq c b || has b s)
  pub encode-nil : (s : AsciiSet) → utf8_percent_encode [] s ≡ []
  pub encode-byte :
      (b : ℕ) (t : Text) (s : AsciiSet)
      → utf8_percent_encode (b ∷ t) s
        ≡ (if leb 128 b || has b s then escape b else b ∷ []) ++ utf8_percent_encode t s

-- The arguments of `add` that the two sets share.
abbrev pub reserved : Text
reserved = ascii "\"#$&+,/:;<=>?@[\\]^`{|}"

module _ (E : PercentEncoding) where
  -- A chain of calls `.add(b)`.
  abbrev pub add_all : Text → E.AsciiSet → E.AsciiSet
  add_all [] s = s
  add_all (b ∷ bs) s = add_all bs (E.add b s)

  abbrev pub uri_component_encode_set : E.AsciiSet
  uri_component_encode_set = add_all (b' ' ∷ reserved) E.controls

  abbrev pub query_component_encode_set : E.AsciiSet
  query_component_encode_set = add_all reserved E.controls

  unfoldable pub encode_component : Text → Text
  encode_component s = E.utf8_percent_encode s uri_component_encode_set

  unfoldable pub encode_query_component : Text → Text
  encode_query_component s = E.utf8_percent_encode s query_component_encode_set

-- What the sources ask of an address that was read: its own printed form.
pub data IpAddr : Type 0 where
  v4 v6 : Text → IpAddr

-- The crate `url`, and `str::parse` for addresses.
pub record UrlCrate : Type 1 where
  pub Url : Type 0
  pub parse : Text → Option Url
  pub host_str : Url → Option Text
  pub path : Url → Text
  pub parse_ip : Text → Option IpAddr

-- `to_lowercase` on a host, which the crate `url` gives in ASCII.
abbrev pub lower : ℕ → ℕ
lower b = if leb b'A' b && leb b b'Z' then b + 32 else b

unfoldable pub normalize_domain : Text → Text
normalize_domain host =
    let host_lower = map lower host in
    if starts_with (ascii "www.") host_lower then drop 4 host_lower else host_lower

module _ (U : UrlCrate) where
  address_or_domain : Text → Option IpAddr → Text
  unfolding normalize_domain
  address_or_domain host (some (v4 printed)) = printed
  address_or_domain host (some (v6 printed)) = ascii "[" ++ printed ++ ascii "]"
  address_or_domain host none = normalize_domain host

  domain_of_host : Option Text → Result Text UrlParseError
  unfolding address_or_domain
  domain_of_host none = err no_host
  domain_of_host (some host) = ok (address_or_domain host (U.parse_ip host))

  domain_of_url : Option U.Url → Result Text UrlParseError
  unfolding domain_of_host
  domain_of_url none = err parse_error
  domain_of_url (some url) = domain_of_host (U.host_str url)

  unfoldable pub extract_domain : Text → Result Text UrlParseError
  unfolding domain_of_url
  extract_domain url_str = domain_of_url (
      U.parse (if contains_text (ascii "://") url_str then url_str else ascii "http://" ++ url_str))
