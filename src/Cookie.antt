-- ===== src/Cookie.antt =====
-- infrastructure/http/cookie_backend.rs with domain/models/cookie_models.rs and `CookieConfig` of
-- service/config.rs: the cookies of the http client, kept in two maps and saved to a file. The clock
-- is read once in a call, as a number. The JSON of serde and what the file system answers are given.
pub mod Store
pub mod Sent
pub mod File
use Prim.Native.String.{◌++◌ as ◌<>◌}
use strawberry_background.Prelude.{
  ℕ, String, Bool, true, false, ◌&&◌, ◌==◌, ◌≡◌, ◌↔◌, refl, ap, ap₂, sym, ◌∙◌, Option, none, some,
  List, [], ◌∷◌, ◌++◌, Result, ok, err, Eq, ltb, not, is_none, if◌then◌else◌, filter, arith,
  unwrap_or, Bool-cases, inl, inr, String-eq,
}
use strawberry_background.Prelude.Text.{Text, Text-eq, text_eq, text_eq_iff, contains_text}
use strawberry_background.Prelude.Map.{HashMap, values}
use strawberry_background.Url.{UrlCrate, extract_domain, UrlParseError}

pub record CookieKey : Type 0 where
  pub domain : Text
  pub path : Text
  pub name : Text

abbrev pub key_eq : CookieKey → CookieKey → Bool
key_eq j k = text_eq j.domain k.domain && (text_eq j.path k.path && text_eq j.name k.name)

pub key_eq_iff : (j k : CookieKey) → (key_eq j k ≡ true) ↔ (j ≡ k)
key_eq_iff j k = (
  λ h.
      fields j k ((text_eq_iff j.domain k.domain).0 (and_left _ _ h))
        ((text_eq_iff j.path k.path).0 (and_left _ _ (and_right _ _ h)))
        ((text_eq_iff j.name k.name).0 (and_right _ _ (and_right _ _ h))),
  λ e. ap (key_eq j) (sym e) ∙ same j,
)
  where
    and_left : (a b : Bool) → (a && b) ≡ true → a ≡ true
    and_left a b h = ground (arith, h)

    and_right : (a b : Bool) → (a && b) ≡ true → b ≡ true
    and_right a b h = ground (arith, h)

    fields : (j k : CookieKey) → j.domain ≡ k.domain → j.path ≡ k.path → j.name ≡ k.name → j ≡ k
    fields j k d p n =
        ap₂ (λ x y. record { domain = x; path = y; name = j.name }) d p
        ∙ ap (λ z. record { domain = k.domain; path = k.path; name = z }) n

    same : (j : CookieKey) → key_eq j j ≡ true
    same j = ground (
      arith,
      (text_eq_iff j.domain j.domain).1 refl,
      (text_eq_iff j.path j.path).1 refl,
      (text_eq_iff j.name j.name).1 refl,
    )

instance abbrev pub CookieKey-eq : Eq CookieKey
CookieKey-eq = record { beq = key_eq; beq_iff = key_eq_iff }

pub data SameSite : Type 0 where
  strict lax none' : SameSite

pub record Cookie : Type 0 where
  pub key : CookieKey
  pub value : Text
  pub expires : Option ℕ
  pub creation_time : ℕ
  pub last_access_time : ℕ
  pub secure : Bool
  pub http_only : Bool
  pub same_site : Option SameSite
  pub persistent : Bool

pub data CookieError : Type 0 where
  storage serialization io timeout : String → CookieError

-- Its printed form.
unfoldable pub cookie_error_text : CookieError → String
cookie_error_text (storage e) = "Storage error: " <> e
cookie_error_text (serialization e) = "Serialization error: " <> e
cookie_error_text (io e) = "IO error: " <> e
cookie_error_text (timeout e) = "Timeout error: " <> e

unfoldable pub new :
    ℕ → Text → Text → Text → Text → Option ℕ → Bool → Bool → Option SameSite → Cookie
new now domain path name value expires secure http_only same_site = record {
  key = record { domain = domain; path = path; name = name };
  value = value;
  expires = expires;
  creation_time = now;
  last_access_time = now;
  secure = secure;
  http_only = http_only;
  same_site = same_site;
  persistent = not (is_none expires);
}

pub new_without_expires : ℕ → Text → Text → Text → Text → Bool → Bool → Option SameSite → Cookie
new_without_expires now domain path name value secure http_only same_site = record {
  key = record { domain = domain; path = path; name = name };
  value = value;
  expires = none;
  creation_time = now;
  last_access_time = now;
  secure = secure;
  http_only = http_only;
  same_site = same_site;
  persistent = false;
}

abbrev pub passed : ℕ → Option ℕ → Bool
passed now none = false
passed now (some expires) = ltb expires now

unfoldable pub is_expired : ℕ → Cookie → Bool
is_expired now self = passed now self.expires

pub matches_url : Text → Cookie → Bool
matches_url url self = contains_text self.key.domain url

pub record CookieConfig : Type 0 where
  pub cookie_path : Option String
  pub debounce_delay : ℕ
  pub auto_save_interval : Option ℕ
  pub initial_cookies : Option (List Cookie)

pub record SerializableStore : Type 0 where
  pub cookies : List Cookie
  pub saved_at : ℕ

-- `serde_json` on stores, with the text of its error.
pub record Json : Type 0 where
  pub to_string_pretty : SerializableStore → Result Text String
  pub from_str : Text → Result SerializableStore String

-- The tests of the first loop and of the second.
abbrev pub is_sent : ℕ → Text → Cookie → Bool
is_sent now domain cookie = text_eq cookie.key.domain domain && not (passed now cookie.expires)

abbrev pub is_sent_in_session : Text → Cookie → Bool
is_sent_in_session domain cookie = text_eq cookie.key.domain domain

module _ (C : HashMap CookieKey Cookie CookieKey-eq) where
  pub record FileBackedCookieStore : Type 0 where
    pub cookies : C.Map
    pub session_cookies : C.Map
    pub config : CookieConfig
    pub storage_path : Option String
    pub dirty : Bool

  get_found : ℕ → Option Cookie → Option Cookie → Option Cookie
  unfolding is_expired
  get_found now none session = session
  get_found now (some cookie) session = if is_expired now cookie then session else some cookie

  unfoldable pub get : ℕ → CookieKey → FileBackedCookieStore → Option Cookie
  unfolding get_found
  get now key self = get_found now (C.get key self.cookies) (C.get key self.session_cookies)

  unfoldable pub set : Cookie → FileBackedCookieStore → FileBackedCookieStore
  set cookie self =
      if cookie.persistent
      then record self { cookies = C.insert cookie.key cookie self.cookies; dirty = true }
      else record self {
        session_cookies = C.insert cookie.key cookie self.session_cookies;
        dirty = true;
      }

  unfoldable pub remove : CookieKey → FileBackedCookieStore → FileBackedCookieStore
  remove key self = record self {
    cookies = C.remove key self.cookies;
    session_cookies = C.remove key self.session_cookies;
    dirty = true;
  }

  unfoldable pub get_for_domain : ℕ → Text → FileBackedCookieStore → List Cookie
  get_for_domain now domain self =
      filter (is_sent now domain) (values C self.cookies)
      ++ filter (is_sent_in_session domain) (values C self.session_cookies)

  unfoldable pub clear_all : FileBackedCookieStore → FileBackedCookieStore
  clear_all self = record self { cookies = C.empty; session_cookies = C.empty; dirty = true }

  module _ (U : UrlCrate) where
    cookies_of : ℕ → Result Text UrlParseError → FileBackedCookieStore → List Cookie
    unfolding get_for_domain
    cookies_of now (err e) self = []
    cookies_of now (ok domain) self = get_for_domain now domain self

    unfoldable pub get_for_url : ℕ → Text → FileBackedCookieStore → List Cookie
    unfolding cookies_of
    get_for_url now url self = cookies_of now (extract_domain U url) self
