-- ===== src/Client.antt =====
-- infrastructure/http/reqwest_backend.rs: the request that an endpoint becomes, with its cookies and
-- its encryption. The crate reqwest is a parameter: what it refuses, and what the network answers.
-- The clock is read once in a call.
pub mod Executing
pub mod Parameters
pub mod Session
use strawberry_background.Prelude.{
  ℕ, String, Bool, true, false, ◌&&◌, not, ◌==◌, Option, none, some, List, [], ◌∷◌, ◌++◌, map,
  Result, ok, err, if◌then◌else◌, is_none, unwrap_or,
}
use strawberry_background.Prelude.Text.{Text, ascii, join, text_eq}
use strawberry_background.Prelude.Map.{HashMap}
use strawberry_background.Url.{PercentEncoding, UrlCrate}
use strawberry_background.Endpoint.{
  HttpEndpoint, HttpMethod, get, post, put, delete, HttpClientError, configuration, invalid_header,
  network, timeout, build_url,
}
use strawberry_background.Cookie.{
  Cookie, CookieConfig, CookieKey, CookieKey-eq, SameSite, lax, strict, FileBackedCookieStore,
  get_for_url, set, new,
}
use strawberry_background.Progress.{Polled, Next}

-- `EncryptionProvider::encrypt` or `DecryptionProvider::decrypt`
abbrev pub Provider : Type 0
Provider = List ℕ → Result (List ℕ) HttpClientError

-- How a call ends: `unwrap` on `None` panics.
pub data Outcome (A : Type 0) : Type 0 where
  done : A → Outcome A
  refused : HttpClientError → Outcome A
  panicked : Outcome A

-- What a request builder has collected.
pub record Draft : Type 0 where
  pub method : Text
  pub url : Text
  pub headers : List (Text × Text)
  pub body : Option (List ℕ)
  pub timeout : Option ℕ

pub record ResponseCookie : Type 0 where
  pub name : Text
  pub value : Text
  pub expires : Option ℕ
  pub secure : Bool
  pub http_only : Bool
  pub same_site_lax : Bool
  pub same_site_strict : Bool

-- A response with the answers that its body gives: to the polls of a copy and to the copy or to
-- `bytes`, and to the polls of a stream.
pub record Response : Type 0 where
  pub host_str : Option Text
  pub path : Text
  pub status : ℕ
  pub headers : List (Text × Option Text)
  pub cookies : List ResponseCookie
  pub content_length : Option ℕ
  pub polls : List Polled
  pub received : Result (List ℕ) String
  pub stream : List (Next (Result (List ℕ) String))

pub data Answer : Type 0 where
  responded : Response → Answer
  timed_out : Answer
  unreachable : String → Answer

-- reqwest: what the client, `HeaderValue::from_str` and `build` refuse, with their errors, which texts
-- `Proxy::all` takes, and the network.
pub record Reqwest : Type 0 where
  pub client_fault : Option String
  pub is_proxy : Text → Bool
  pub header_fault : Text → Option String
  pub build_fault : Draft → Option String
  pub execute : Draft → Answer

unfoldable pub convert_method : HttpMethod → Text
convert_method get = ascii "GET"
convert_method post = ascii "POST"
convert_method put = ascii "PUT"
convert_method delete = ascii "DELETE"

-- The SameSite of a cookie that was received, from its two flags.
pub same_site_of : Bool → Bool → Option SameSite
same_site_of true true = none
same_site_of true false = some lax
same_site_of false true = some strict
same_site_of false false = none

unfoldable pub with_header : Text → Option Text → List (Text × Text)
with_header name none = []
with_header name (some value) = (name, value) ∷ []

cookie_pair : Cookie → Text
cookie_pair c = c.key.name ++ (ascii "=" ++ c.value)

module _ (U : UrlCrate) where
  -- The first entry for the host counts, even if its address is none.
  proxy_in : Text → List (Text × Text) → Option U.Url
  proxy_in host [] = none
  proxy_in host ((name, proxy) ∷ rest) =
      let otherwise = proxy_in host rest in if text_eq name host then U.parse proxy else otherwise

  proxy_of_host : List (Text × Text) → Option Text → Option U.Url
  unfolding proxy_in
  proxy_of_host host_proxy none = none
  proxy_of_host host_proxy (some host) = proxy_in host host_proxy

  -- The closure that `with_parameters` gives to `Proxy::custom`.
  pub custom_proxy : List (Text × Text) → U.Url → Option U.Url
  unfolding proxy_of_host
  custom_proxy host_proxy url = proxy_of_host host_proxy (U.host_str url)

pub record HttpConfig : Type 0 where
  pub connect_timeout : ℕ
  pub request_timeout : ℕ
  pub pool_idle_timeout : ℕ
  pub max_connections_per_host : ℕ
  pub cookie_config : Option CookieConfig
  pub encryption_provider : Option Provider
  pub decryption_provider : Option Provider
  pub all_proxy : Option Text
  pub host_proxy : Option (List (Text × Text))
  pub tls_danger_accept_invalid_hostnames : Bool
  pub tls_danger_accept_invalid_certs : Bool

module _ (E : PercentEncoding) (U : UrlCrate) (C : HashMap CookieKey Cookie CookieKey-eq)
    (Q : Reqwest) where
  pub record ReqwestBackend : Type 0 where
    pub encryption_provider : Option Provider
    pub decryption_provider : Option Provider
    pub cookie_store : Option (FileBackedCookieStore C)

  built : HttpConfig → Option (FileBackedCookieStore C) → Option String → Outcome ReqwestBackend
  built config cookie_store none = done (record {
    encryption_provider = config.encryption_provider;
    decryption_provider = config.decryption_provider;
    cookie_store = cookie_store;
  })
  built config cookie_store (some e) = refused (network e)

  proxied :
      Option Text
      → HttpConfig
      → Option (FileBackedCookieStore C)
      → Option String
      → Outcome ReqwestBackend
  unfolding built
  proxied none config cookie_store fault = built config cookie_store fault
  proxied (some proxy) config cookie_store fault =
      if Q.is_proxy proxy then built config cookie_store fault else panicked

  -- The options of the client are passed on to reqwest; the closure for `host_proxy` is `custom_proxy`.
  unfoldable pub with_parameters :
      HttpConfig → Option (FileBackedCookieStore C) → Outcome ReqwestBackend
  unfolding proxied
  with_parameters config cookie_store = proxied config.all_proxy config cookie_store Q.client_fault

  pub set_encryption_provider : Provider → ReqwestBackend → ReqwestBackend
  set_encryption_provider p self = record self { encryption_provider = some p }

  pub set_decryption_provider : Provider → ReqwestBackend → ReqwestBackend
  set_decryption_provider p self = record self { decryption_provider = some p }

  pub remove_encryption_provider : ReqwestBackend → Option Provider × ReqwestBackend
  remove_encryption_provider self =
      (self.encryption_provider, record self { encryption_provider = none })

  pub remove_decryption_provider : ReqwestBackend → Option Provider × ReqwestBackend
  remove_decryption_provider self =
      (self.decryption_provider, record self { decryption_provider = none })

  abbrev with_cookies : Option String → Text → Draft → Outcome Draft
  with_cookies none value draft =
      done (record draft { headers = draft.headers ++ (ascii "cookie", value) ∷ [] })
  with_cookies (some e) value draft = refused (invalid_header e)

  cookies_injected : List Cookie → Draft → Outcome Draft
  unfolding cookie_pair
  cookies_injected [] draft = done draft
  cookies_injected (c ∷ cs) draft =
      let header = join (ascii "; ") (map cookie_pair (c ∷ cs)) in
      with_cookies (Q.header_fault header) header draft

  -- `do_execute` calls it with a store only.
  pub inject_cookies : Option (FileBackedCookieStore C) → ℕ → Text → Draft → Outcome Draft
  unfolding cookies_injected
  inject_cookies none now url draft = refused (configuration "Cookie Store is not configured")
  inject_cookies (some store) now url draft = cookies_injected (get_for_url C U now url store) draft

  unfoldable pub received_cookie : ℕ → Text → Text → ResponseCookie → Cookie
  unfolding same_site_of
  received_cookie now host path c =
      new now host path c.name c.value c.expires c.secure c.http_only
        (same_site_of c.same_site_lax c.same_site_strict)

  store_cookies :
      ℕ → Text → Text → List ResponseCookie → FileBackedCookieStore C → FileBackedCookieStore C
  unfolding received_cookie
  store_cookies now host path [] store = store
  store_cookies now host path (c ∷ cs) store =
      store_cookies now host path cs (set C (received_cookie now host path c) store)

  extracted : Option Text → ℕ → Response → FileBackedCookieStore C → FileBackedCookieStore C
  unfolding store_cookies
  extracted none now response store = store
  extracted (some host) now response store =
      store_cookies now host response.path response.cookies store

  -- Its error is not looked at, so only what it does to the store counts.
  unfoldable pub extract_cookies :
      ℕ → Response → Option (FileBackedCookieStore C) → Option (FileBackedCookieStore C)
  unfolding extracted
  extract_cookies now response none = none
  extract_cookies now response (some store) = some (extracted response.host_str now response store)
