-- ===== src/Client/Session.antt =====
-- Cookies that a response brings and a later request takes along.
use strawberry_background.Prelude.{
  ℕ, false, ◌≡◌, refl, ap, sym, ◌∙◌, subst, some, List, [], ◌∷◌, ◌++◌, In, ok,
}
use strawberry_background.Prelude.Text.{Text, Text-eq}
use strawberry_background.Prelude.Map.{HashMap}
use strawberry_background.Url.{PercentEncoding, UrlCrate, extract_domain}
use strawberry_background.Cookie.{
  Cookie, CookieKey, CookieKey-eq, FileBackedCookieStore, set, new, get_for_url, passed,
}
use strawberry_background.Cookie.Store.{IsKeyedStore, set-IsKeyed}
use strawberry_background.Cookie.Sent.{set-found, get_for_url-domain}
use strawberry_background.Client.{
  Reqwest, Response, ResponseCookie, received_cookie, store_cookies, extracted, extract_cookies,
}

module _ (E : PercentEncoding) (U : UrlCrate) (C : HashMap CookieKey Cookie CookieKey-eq)
    (Q : Reqwest) where
  abbrev Store : Type 0
  Store = FileBackedCookieStore C

  store_cookies-IsKeyed :
      (now : ℕ) (host path : Text) (cs : List ResponseCookie) (store : Store)
      → IsKeyedStore C store
      → IsKeyedStore C (store_cookies E U C Q now host path cs store)
  unfolding store_cookies
  store_cookies-IsKeyed now host path [] store h = h
  store_cookies-IsKeyed now host path (c ∷ cs) store h =
      store_cookies-IsKeyed now host path cs (set C (received_cookie E U C Q now host path c) store)
        (set-IsKeyed C (received_cookie E U C Q now host path c) store h)

  store_cookies-last :
      (now : ℕ) (host path : Text) (before : List ResponseCookie) (c : ResponseCookie)
      (store : Store)
      → store_cookies E U C Q now host path (before ++ c ∷ []) store
        ≡ set C
            (received_cookie E U C Q now host path c)
            (store_cookies E U C Q now host path before store)
  unfolding store_cookies
  store_cookies-last now host path [] c store = refl
  store_cookies-last now host path (b ∷ before) c store =
      store_cookies-last now host path before c
        (set C (received_cookie E U C Q now host path b) store)

  -- A response from a host stores its last cookie so that every request to a URL of that host takes
  -- it along until it expires: when the domain of the URL is that host, as the crate gave it, the cookie is
  -- among those that are looked up for the URL. Before, every cookie stood under its own key.
  pub extract_cookies-get_for_url :
      (now later : ℕ) (response : Response) (host url : Text) (before : List ResponseCookie)
      (c : ResponseCookie) (store : Store)
      → IsKeyedStore C store
      → response.host_str ≡ some host
      → response.cookies ≡ before ++ c ∷ []
      → extract_domain U url ≡ ok host
      → passed later c.expires ≡ false
      → (after : Store) × (extract_cookies E U C Q now response (some store) ≡ some after)
        × In (received_cookie E U C Q now host response.path c) (get_for_url C U later url after)
  unfolding extract_cookies extracted received_cookie new
  extract_cookies-get_for_url now later response host url before c store keyed from cookies domain
        fresh =
      let cookie : Cookie = received_cookie E U C Q now host response.path c in
      let earlier : Store = store_cookies E U C Q now host response.path before store in
      (
        set C cookie earlier,
        ap (λ o. some (extracted E U C Q o now response store)) from
            ∙ ap (λ cs. some (store_cookies E U C Q now host response.path cs store)) cookies
            ∙ ap some (store_cookies-last now host response.path before c store),
        subst (In cookie)
            (sym (get_for_url-domain C U later url host (set C cookie earlier) domain))
            (set-found C cookie earlier later
              (store_cookies-IsKeyed now host response.path before store keyed) fresh),
      )
