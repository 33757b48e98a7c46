-- ===== src/Client/Executing/Safety.antt =====
-- Sending a request does not panic.
use strawberry_background.Prelude.{
  ℕ, String, Bool, true, false, ◌≡◌, ◌≢◌, refl, Option, none, some, List, [], ◌∷◌, Result, ok, err,
  if◌then◌else◌,
}
use strawberry_background.Prelude.Text.{Text}
use strawberry_background.Prelude.Map.{HashMap}
use strawberry_background.Url.{PercentEncoding, UrlCrate}
use strawberry_background.Endpoint.{HttpEndpoint, HttpClientError, build_url}
use strawberry_background.Cookie.{CookieKey, Cookie, CookieKey-eq, FileBackedCookieStore}
use strawberry_background.Client.{
  Provider, Outcome, done, refused, panicked, Draft, Answer, responded, timed_out, unreachable,
  Reqwest, ReqwestBackend, inject_cookies, cookies_injected, with_cookies,
}
use strawberry_background.Client.Executing.{
  and_then, lacks, refusal, of_result, encrypt_body, with_body, inject_some, build_after, build,
  prepared, request_of, answered, sent, do_execute,
}

and_then_safe :
    {A B : Type 0} (o : Outcome A) (f : A → Outcome B)
    → o ≢ panicked
    → ((a : A) → f a ≢ panicked)
    → and_then o f ≢ panicked
and_then_safe (done a) f h g = g a
and_then_safe (refused e) f h g = λ x. cc x
and_then_safe panicked f h g = absurd (h refl)

module _ (E : PercentEncoding) (U : UrlCrate) (C : HashMap CookieKey Cookie CookieKey-eq)
    (Q : Reqwest) where
  abbrev Backend : Type 0
  Backend = ReqwestBackend E U C Q

  pub of_result-safe : {A : Type 0} (r : Result A HttpClientError) → of_result E U C Q r ≢ panicked
  of_result-safe (ok a) = λ x. cc x
  of_result-safe (err e) = λ x. cc x

  with_body-safe :
      (body : Option (List ℕ)) (required : Bool) (provider : Option Provider) (draft : Draft)
      → lacks E U C Q body required provider ≡ false
      → with_body E U C Q body required provider draft ≢ panicked
  unfolding with_body encrypt_body
  with_body-safe none required provider draft h = λ x. cc x
  with_body-safe (some body) true none draft h = λ x. cc h
  with_body-safe (some body) true (some provider) draft h =
      and_then_safe (of_result E U C Q (provider body))
        (λ bytes. done (record draft { body = some bytes })) (of_result-safe (provider body))
        (λ bytes x. cc x)
  with_body-safe (some body) false provider draft h = λ x. cc x

  with_cookies-safe :
      (fault : Option String) (value : Text) (draft : Draft)
      → with_cookies E U C Q fault value draft ≢ panicked
  with_cookies-safe none value draft = λ x. cc x
  with_cookies-safe (some e) value draft = λ x. cc x

  cookies_injected-safe :
      (cs : List Cookie) (draft : Draft) → cookies_injected E U C Q cs draft ≢ panicked
  unfolding cookies_injected
  cookies_injected-safe [] draft = λ x. cc x
  cookies_injected-safe (c ∷ cs) draft = with_cookies-safe _ _ draft

  inject_some-safe :
      (store : Option (FileBackedCookieStore C)) (now : ℕ) (url : Text) (draft : Draft)
      → inject_some E U C Q store now url draft ≢ panicked
  unfolding inject_some inject_cookies
  inject_some-safe none now url draft = λ x. cc x
  inject_some-safe (some store) now url draft = cookies_injected-safe _ draft

  build_after-safe : (o : Option String) (draft : Draft) → build_after E U C Q o draft ≢ panicked
  unfolding build_after
  build_after-safe none draft = λ x. cc x
  build_after-safe (some e) draft = λ x. cc x

  build-safe : (limit : ℕ) (draft : Draft) → build E U C Q limit draft ≢ panicked
  unfolding build
  build-safe limit draft =
      build_after-safe (Q.build_fault (record draft { timeout = some limit }))
        (record draft { timeout = some limit })

  refusal-none :
      (endpoint : HttpEndpoint) (self : Backend)
      → refusal E U C Q endpoint self ≡ none
      → lacks E U C Q endpoint.body endpoint.requires_encryption self.encryption_provider ≡ false
  unfolding refusal
  refusal-none endpoint self h =
      go (lacks E U C Q endpoint.body endpoint.requires_encryption self.encryption_provider)
        (lacks E U C Q endpoint.body endpoint.requires_decryption self.decryption_provider) h
    where
      go :
          (b c : Bool)
          → ◌≡◌ {A = Option String}
              (if b
                then some "no encryption provider"
                else if c
                then some "no decryption provider"
                else none)
              none
          → b ≡ false
      go true c e = cc e
      go false c e = refl

  prepared-safe :
      (o : Option String) (now : ℕ) (endpoint : HttpEndpoint) (self : Backend)
      → refusal E U C Q endpoint self ≡ o
      → prepared E U C Q o now endpoint self ≢ panicked
  unfolding prepared
  prepared-safe (some e) now endpoint self h = λ x. cc x
  prepared-safe none now endpoint self h =
      and_then_safe _ _
        (with_body-safe endpoint.body endpoint.requires_encryption self.encryption_provider _
          (refusal-none endpoint self h))
        (λ draft.
          and_then_safe _ _ (inject_some-safe self.cookie_store now (build_url E endpoint) draft)
            (build-safe endpoint.timeout))

  answered-safe :
      (now limit : ℕ) (a : Answer) (self : Backend)
      → (answered E U C Q now limit a self).1 ≢ panicked
  unfolding answered
  answered-safe now limit (responded response) self = λ x. cc x
  answered-safe now limit timed_out self = λ x. cc x
  answered-safe now limit (unreachable e) self = λ x. cc x

  sent-safe :
      (now limit : ℕ) (o : Outcome Draft) (self : Backend)
      → o ≢ panicked
      → (sent E U C Q now limit o self).1 ≢ panicked
  unfolding sent
  sent-safe now limit (done request) self h = answered-safe now limit (Q.execute request) self
  sent-safe now limit (refused e) self h = λ x. cc x
  sent-safe now limit panicked self h = absurd (h refl)

  -- Sending a request never panics: a body that has to be encrypted without a provider is refused first.
  pub do_execute-safe :
      (now : ℕ) (endpoint : HttpEndpoint) (self : Backend)
      → (do_execute E U C Q now endpoint self).1 ≢ panicked
  unfolding do_execute request_of
  do_execute-safe now endpoint self =
      sent-safe now endpoint.timeout
        (prepared E U C Q (refusal E U C Q endpoint self) now endpoint self) self
        (prepared-safe (refusal E U C Q endpoint self) now endpoint self refl)
