-- ===== src/Client/Executing/Secrecy.antt =====
-- What the request that is sent carries.
use strawberry_background.Prelude.{
  ℕ, String, Bool, true, false, ◌≡◌, refl, ap, sym, ◌∙◌, subst, Option, none, some, List, [], ◌∷◌,
  Result, ok, err,
}
use strawberry_background.Prelude.Text.{Text}
use strawberry_background.Prelude.Map.{HashMap}
use strawberry_background.Url.{PercentEncoding, UrlCrate}
use strawberry_background.Endpoint.{HttpEndpoint, HttpClientError, build_url}
use strawberry_background.Cookie.{CookieKey, Cookie, CookieKey-eq, FileBackedCookieStore}
use strawberry_background.Client.{
  Provider, Outcome, done, refused, panicked, Draft, Reqwest, ReqwestBackend, inject_cookies,
  cookies_injected, with_cookies, convert_method,
}
use strawberry_background.Client.Executing.{
  and_then, refusal, drafted, of_result, encrypt_body, with_body, inject_some, build_after, build,
  prepared, request_of,
}

done-injective : {A : Type 0} {a b : A} → done a ≡ done b → a ≡ b
done-injective e = cc e

and_then-done :
    {A B : Type 0} (o : Outcome A) (f : A → Outcome B) (b : B)
    → and_then o f ≡ done b
    → (a : A) × (o ≡ done a) × (f a ≡ done b)
and_then-done (done a) f b e = (a, refl, e)
and_then-done (refused x) f b e = absurd (cc e)
and_then-done panicked f b e = absurd (cc e)

-- The body that is sent for a body: none for none, the body itself, or what the provider makes of it.
abbrev pub IsBodyOf : Option (List ℕ) → Bool → Option Provider → Option (List ℕ) → Type 0
IsBodyOf none required provider body = body ≡ none
IsBodyOf (some plain) false provider body = body ≡ some plain
IsBodyOf (some plain) true provider body =
    (p : Provider) × (secret : List ℕ) × (provider ≡ some p)
    × (p plain ≡ ok secret)
    × (body ≡ some secret)

-- The two drafts differ in their headers and the timeout at most.
abbrev IsLike : Draft → Draft → Type 0
IsLike d e = (e.method ≡ d.method) × (e.url ≡ d.url) × (e.body ≡ d.body)

IsLike-self : (d e : Draft) → d ≡ e → IsLike d e
IsLike-self d e h = (
  ap (λ (x : Draft). x.method) (sym h),
  ap (λ (x : Draft). x.url) (sym h),
  ap (λ (x : Draft). x.body) (sym h),
)

module _ (E : PercentEncoding) (U : UrlCrate) (C : HashMap CookieKey Cookie CookieKey-eq)
    (Q : Reqwest) where
  abbrev Backend : Type 0
  Backend = ReqwestBackend E U C Q

  of_result-done :
      {A : Type 0} (r : Result A HttpClientError) (a : A) → of_result E U C Q r ≡ done a → r ≡ ok a
  of_result-done (ok b) a e = ap ok (done-injective e)
  of_result-done (err x) a e = cc e

  -- The draft after the step that adds the body.
  IsWithBody : Option (List ℕ) → Bool → Option Provider → Draft → Draft → Type 0
  IsWithBody body required provider draft d =
      (d.method ≡ draft.method) × (d.url ≡ draft.url) × IsBodyOf body required provider d.body

  with_body-done :
      (body : Option (List ℕ)) (required : Bool) (provider : Option Provider) (draft d : Draft)
      → draft.body ≡ none
      → with_body E U C Q body required provider draft ≡ done d
      → IsWithBody body required provider draft d
  unfolding with_body encrypt_body IsWithBody
  with_body-done none required provider draft d empty e =
      let (m, u, b) = IsLike-self draft d (done-injective e) in (m, u, b ∙ empty)
  with_body-done (some plain) true none draft d empty e = absurd (cc e)
  with_body-done (some plain) true (some p) draft d empty e =
      let (secret, made, rest) =
        and_then-done (of_result E U C Q (p plain))
          (λ bytes. done (record draft { body = some bytes })) d e in
      let (m, u, b) = IsLike-self (record draft { body = some secret }) d (done-injective rest) in
      (m, u, (p, secret, refl, of_result-done (p plain) secret made, b))
  with_body-done (some plain) false provider draft d empty e =
      IsLike-self (record draft { body = some plain }) d (done-injective e)

  with_cookies-done :
      (fault : Option String) (value : Text) (draft d : Draft)
      → with_cookies E U C Q fault value draft ≡ done d
      → IsLike draft d
  with_cookies-done none value draft d e = IsLike-self _ d (done-injective e)
  with_cookies-done (some x) value draft d e = absurd (cc e)

  cookies_injected-done :
      (cs : List Cookie) (draft d : Draft)
      → cookies_injected E U C Q cs draft ≡ done d
      → IsLike draft d
  unfolding cookies_injected
  cookies_injected-done [] draft d e = IsLike-self draft d (done-injective e)
  cookies_injected-done (c ∷ cs) draft d e = with_cookies-done _ _ draft d e

  inject_some-done :
      (store : Option (FileBackedCookieStore C)) (now : ℕ) (url : Text) (draft d : Draft)
      → inject_some E U C Q store now url draft ≡ done d
      → IsLike draft d
  unfolding inject_some inject_cookies
  inject_some-done none now url draft d e = IsLike-self draft d (done-injective e)
  inject_some-done (some store) now url draft d e = cookies_injected-done _ draft d e

  build_after-done :
      (o : Option String) (draft d : Draft) → build_after E U C Q o draft ≡ done d → draft ≡ d
  unfolding build_after
  build_after-done none draft d e = done-injective e
  build_after-done (some x) draft d e = cc e

  build-done :
      (limit : ℕ) (draft d : Draft)
      → build E U C Q limit draft ≡ done d
      → IsLike draft d × (d.timeout ≡ some limit)
  unfolding build
  build-done limit draft d e =
      let timed : Draft = record draft { timeout = some limit } in
      let same = build_after-done (Q.build_fault timed) timed d e in
      (IsLike-self timed d same, ap (λ (x : Draft). x.timeout) (sym same))

  abbrev pub IsRequestOf : HttpEndpoint → Backend → Draft → Type 0
  IsRequestOf endpoint self d =
      (d.method ≡ convert_method endpoint.method)
      × (d.url ≡ build_url E endpoint)
      × (d.timeout ≡ some endpoint.timeout)
      × IsBodyOf endpoint.body endpoint.requires_encryption self.encryption_provider d.body

  prepared-done :
      (o : Option String) (now : ℕ) (endpoint : HttpEndpoint) (self : Backend) (d : Draft)
      → prepared E U C Q o now endpoint self ≡ done d
      → IsRequestOf endpoint self d
  unfolding prepared drafted IsWithBody
  prepared-done (some x) now endpoint self d e = absurd (cc e)
  prepared-done none now endpoint self d e =
      let (a, with_it, rest) = and_then-done _ _ d e in
      let (b, injected, built) = and_then-done _ _ d rest in
      let (m, u, body) =
        with_body-done endpoint.body endpoint.requires_encryption self.encryption_provider
          (drafted E U C Q endpoint) a refl with_it in
      let (im, iu, ib) =
        inject_some-done self.cookie_store now (build_url E endpoint) a b injected in
      let ((bm, bu, bb), limit) = build-done endpoint.timeout b d built in
      (
        bm ∙ im ∙ m,
        bu ∙ iu ∙ u,
        limit,
        subst (IsBodyOf endpoint.body endpoint.requires_encryption self.encryption_provider)
            (sym (bb ∙ ib)) body,
      )

  -- The request that is sent for an endpoint has its method, the URL that is built from it and its
  -- timeout, and as body nothing for none, the body as it is when no encryption is required, and else
  -- what the provider, which is then there, makes of it: a body to be encrypted is never sent plain.
  pub request_of-IsRequestOf :
      (now : ℕ) (endpoint : HttpEndpoint) (self : Backend) (d : Draft)
      → request_of E U C Q now endpoint self ≡ done d
      → IsRequestOf endpoint self d
  unfolding request_of
  request_of-IsRequestOf now endpoint self d e =
      prepared-done (refusal E U C Q endpoint self) now endpoint self d e
