-- ===== src/Cookie/Sent.antt =====
-- The cookies of a domain and of a URL.
use strawberry_background.Prelude.{
  ℕ, Bool, true, false, not, ◌&&◌, ◌≡◌, ◌↔◌, ◌⊎◌, inl, inr, refl, ap, ◌∙◌, some, ok, List, In,
  filter, In-filter, In-append, arith,
}
use strawberry_background.Prelude.Text.{Text, text_eq_iff}
use strawberry_background.Prelude.Map.{HashMap, values}
use strawberry_background.Prelude.Map.Collect.{insert-get_same, get-value, value-get}
use strawberry_background.Cookie.{
  Cookie, CookieKey, CookieKey-eq, FileBackedCookieStore, set, get_for_url, cookies_of,
  get_for_domain, passed, is_sent, is_sent_in_session,
}
use strawberry_background.Url.{UrlCrate, extract_domain}
use strawberry_background.Cookie.File.{key_of}
use strawberry_background.Cookie.Store.{IsKeyedStore, set-IsKeyed, set_as}

module _ (C : HashMap CookieKey Cookie CookieKey-eq) where
  abbrev Store : Type 0
  Store = FileBackedCookieStore C

  both : (a b : Bool) → ((a && not b) ≡ true) ↔ ((a ≡ true) × (b ≡ false))
  both a b = ground arith

  -- When every cookie stands under its own key, the cookies for a domain are those that name it and
  -- stand in a map, without the persistent ones whose time has passed.
  pub In-get_for_domain :
      (now : ℕ) (domain : Text) (self : Store) (cookie : Cookie)
      → IsKeyedStore C self
      → In cookie (get_for_domain C now domain self) ↔ (
          (cookie.key.domain ≡ domain)
          × (((C.get cookie.key self.cookies ≡ some cookie) × (passed now cookie.expires ≡ false))
              ⊎ (C.get cookie.key self.session_cookies ≡ some cookie)))
  unfolding get_for_domain
  In-get_for_domain now domain self cookie h = (
    λ m. elim ((In-append persistent session cookie).0 m) [
      | inl a ↦
          let (i, t) = (In-filter (is_sent now domain) (values C self.cookies) cookie).0 a in
          let (d, p) = (both _ _).0 t in
          (
            (text_eq_iff cookie.key.domain domain).0 d,
            inl (value-get C key_of self.cookies cookie h.0 i, p),
          )
      | inr a ↦
          let (i, t) =
            (In-filter (is_sent_in_session domain) (values C self.session_cookies) cookie).0 a in
          (
            (text_eq_iff cookie.key.domain domain).0 t,
            inr (value-get C key_of self.session_cookies cookie h.1 i),
          )
    ],
    λ m. (In-append persistent session cookie).1 (elim m.1 [
      | inl a ↦ inl (
          (In-filter (is_sent now domain) (values C self.cookies) cookie).1 (
            get-value C key_of self.cookies cookie.key cookie a.0,
            (both _ _).1 ((text_eq_iff cookie.key.domain domain).1 m.0, a.1),
          ))
      | inr a ↦ inr (
          (In-filter (is_sent_in_session domain) (values C self.session_cookies) cookie).1 (
            get-value C key_of self.session_cookies cookie.key cookie a,
            (text_eq_iff cookie.key.domain domain).1 m.0,
          ))
    ]),
  )
    where
      persistent : List Cookie
      persistent = filter (is_sent now domain) (values C self.cookies)

      session : List Cookie
      session = filter (is_sent_in_session domain) (values C self.session_cookies)

  set_as-found :
      (persistent : Bool) (cookie : Cookie) (self : Store) (later : ℕ)
      → cookie.persistent ≡ persistent
      → passed later cookie.expires ≡ false
      → ((C.get cookie.key (set C cookie self).cookies ≡ some cookie)
          × (passed later cookie.expires ≡ false))
        ⊎ (C.get cookie.key (set C cookie self).session_cookies ≡ some cookie)
  unfolding set
  set_as-found true cookie self later e h = inl (
    ap (λ b. C.get cookie.key (set_as C b cookie self).cookies) e
        ∙ insert-get_same C key_of cookie.key cookie self.cookies,
    h,
  )
  set_as-found false cookie self later e h = inr (
      ap (λ b. C.get cookie.key (set_as C b cookie self).session_cookies) e
      ∙ insert-get_same C key_of cookie.key cookie self.session_cookies)

  -- A cookie that was set is sent to its domain until it expires.
  pub set-found :
      (cookie : Cookie) (self : Store) (later : ℕ)
      → IsKeyedStore C self
      → passed later cookie.expires ≡ false
      → In cookie (get_for_domain C later cookie.key.domain (set C cookie self))
  set-found cookie self later keyed h =
      (In-get_for_domain later cookie.key.domain (set C cookie self) cookie
          (set-IsKeyed C cookie self keyed)).1
        (refl, set_as-found cookie.persistent cookie self later refl h)

  pub get_for_url-domain :
      (U : UrlCrate) (now : ℕ) (url domain : Text) (self : Store)
      → extract_domain U url ≡ ok domain
      → get_for_url C U now url self ≡ get_for_domain C now domain self
  unfolding get_for_url cookies_of
  get_for_url-domain U now url domain self e = ap (λ r. cookies_of C U now r self) e
