-- ===== src/Client/Parameters.antt =====
-- When the making of a client is refused.
use strawberry_background.Prelude.{
  String, Bool, true, false, ◌≡◌, ◌↔◌, refl, Option, none, some, if◌then◌else◌,
}
use strawberry_background.Prelude.Text.{Text}
use strawberry_background.Prelude.Map.{HashMap}
use strawberry_background.Url.{PercentEncoding, UrlCrate}
use strawberry_background.Endpoint.{HttpClientError, network}
use strawberry_background.Cookie.{Cookie, CookieKey, CookieKey-eq, FileBackedCookieStore}
use strawberry_background.Client.{
  Reqwest, ReqwestBackend, Outcome, HttpConfig, done, refused, panicked, built, proxied,
  with_parameters,
}

module _ (E : PercentEncoding) (U : UrlCrate) (C : HashMap CookieKey Cookie CookieKey-eq)
    (Q : Reqwest) where
  -- Is there no proxy for everything, or one that reqwest takes?
  abbrev pub has_good_proxy : Option Text → Bool
  has_good_proxy none = true
  has_good_proxy (some proxy) = Q.is_proxy proxy

  built-refused :
      (config : HttpConfig) (store : Option (FileBackedCookieStore C)) (fault : Option String)
      (e : HttpClientError)
      → (built E U C Q config store fault ≡ refused e)
        ↔ ((x : String) × (fault ≡ some x) × (e ≡ network x))
  unfolding built
  built-refused config store none e = (λ h. absurd (cc h), λ h. absurd (cc h.1))
  built-refused config store (some y) e = (λ h. (y, refl, cc h), λ h. cc (h.1, h.2))

  tested-refused :
      (b : Bool) (config : HttpConfig) (store : Option (FileBackedCookieStore C))
      (fault : Option String) (e : HttpClientError)
      → ((if b then built E U C Q config store fault else panicked) ≡ refused e)
        ↔ ((b ≡ true) × ((x : String) × (fault ≡ some x) × (e ≡ network x)))
  tested-refused true config store fault e = (
    λ h. (refl, (built-refused config store fault e).0 h),
    λ h. (built-refused config store fault e).1 h.1,
  )
  tested-refused false config store fault e = (λ h. absurd (cc h), λ h. absurd (cc h.0))

  proxied-refused :
      (proxy : Option Text) (config : HttpConfig) (store : Option (FileBackedCookieStore C))
      (fault : Option String) (e : HttpClientError)
      → (proxied E U C Q proxy config store fault ≡ refused e)
        ↔ ((has_good_proxy proxy ≡ true) × ((x : String) × (fault ≡ some x) × (e ≡ network x)))
  unfolding proxied
  proxied-refused none config store fault e = tested-refused true config store fault e
  proxied-refused (some proxy) config store fault e =
      tested-refused (Q.is_proxy proxy) config store fault e

  pub with_parameters-refused :
      (config : HttpConfig) (store : Option (FileBackedCookieStore C)) (e : HttpClientError)
      → (with_parameters E U C Q config store ≡ refused e) ↔ (
          (has_good_proxy config.all_proxy ≡ true)
          × ((x : String) × (Q.client_fault ≡ some x) × (e ≡ network x)))
  unfolding with_parameters
  with_parameters-refused config store e =
      proxied-refused config.all_proxy config store Q.client_fault e

  tested-panicked :
      (b : Bool) (config : HttpConfig) (store : Option (FileBackedCookieStore C))
      (fault : Option String)
      → ((if b then built E U C Q config store fault else panicked) ≡ panicked) ↔ (b ≡ false)
  unfolding built
  tested-panicked true config store none = (λ h. absurd (cc h), λ h. absurd (cc h))
  tested-panicked true config store (some x) = (λ h. absurd (cc h), λ h. absurd (cc h))
  tested-panicked false config store fault = (λ h. refl, λ h. refl)

  proxied-panicked :
      (proxy : Option Text) (config : HttpConfig) (store : Option (FileBackedCookieStore C))
      (fault : Option String)
      → (proxied E U C Q proxy config store fault ≡ panicked) ↔ (has_good_proxy proxy ≡ false)
  unfolding proxied
  proxied-panicked none config store fault = tested-panicked true config store fault
  proxied-panicked (some proxy) config store fault =
      tested-panicked (Q.is_proxy proxy) config store fault

  pub with_parameters-panicked :
      (config : HttpConfig) (store : Option (FileBackedCookieStore C))
      → (with_parameters E U C Q config store ≡ panicked)
        ↔ (has_good_proxy config.all_proxy ≡ false)
  unfolding with_parameters
  with_parameters-panicked config store =
      proxied-panicked config.all_proxy config store Q.client_fault

  IsMade : Outcome (ReqwestBackend E U C Q) → Type 0
  IsMade o = (client : ReqwestBackend E U C Q) × (o ≡ done client)

  tested-done :
      (b : Bool) (config : HttpConfig) (store : Option (FileBackedCookieStore C))
      (fault : Option String)
      → IsMade (if b then built E U C Q config store fault else panicked)
        ↔ ((b ≡ true) × (fault ≡ none))
  unfolding built IsMade
  tested-done true config store none = (λ h. (refl, refl), λ h. (_, refl))
  tested-done true config store (some x) = (λ h. absurd (cc h.1), λ h. absurd (cc h.1))
  tested-done false config store fault = (λ h. absurd (cc h.1), λ h. absurd (cc h.0))

  proxied-done :
      (proxy : Option Text) (config : HttpConfig) (store : Option (FileBackedCookieStore C))
      (fault : Option String)
      → IsMade (proxied E U C Q proxy config store fault)
        ↔ ((has_good_proxy proxy ≡ true) × (fault ≡ none))
  unfolding proxied
  proxied-done none config store fault = tested-done true config store fault
  proxied-done (some proxy) config store fault = tested-done (Q.is_proxy proxy) config store fault

  pub with_parameters-done :
      (config : HttpConfig) (store : Option (FileBackedCookieStore C))
      → ((client : ReqwestBackend E U C Q) × (with_parameters E U C Q config store ≡ done client))
        ↔ ((has_good_proxy config.all_proxy ≡ true) × (Q.client_fault ≡ none))
  unfolding with_parameters IsMade
  with_parameters-done config store = proxied-done config.all_proxy config store Q.client_fault
