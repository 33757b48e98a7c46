-- ===== src/Cookie/Store.antt =====
-- What the cookie store answers after a change: `get` after `set`, `remove` and `clear_all`, and the
-- cookies of a domain.
use strawberry_background.Prelude.{
  ℕ, Bool, true, false, ◌≡◌, ◌≢◌, inl, inr, refl, ap, ap₂, sym, ◌∙◌, Option, none, some, [], ◌++◌,
  filter, map, if◌then◌else◌, Bool-cases, ◌==◌, subst,
}
use strawberry_background.Prelude.Text.{Text}
use strawberry_background.Prelude.Map.{HashMap}
use strawberry_background.Prelude.Map.Collect.{
  IsKeyed, insert-get_same, insert-get_other, insert-IsKeyed, remove-IsKeyed, empty-IsKeyed,
}
use strawberry_background.Cookie.{
  Cookie, CookieKey, CookieKey-eq, FileBackedCookieStore, get, get_found, set, remove, clear_all,
  get_for_domain, is_expired, is_sent, is_sent_in_session,
}
use strawberry_background.Cookie.File.{key_of}

module _ (C : HashMap CookieKey Cookie CookieKey-eq) where
  abbrev Store : Type 0
  Store = FileBackedCookieStore C

  -- What the reader sees of a session cookie when a persistent one has the same key.
  abbrev pub behind : ℕ → Option Cookie → Cookie → Option Cookie
  behind now none cookie = some cookie
  behind now (some older) cookie = if is_expired now older then some cookie else some older

  -- What `get` answers for the key of a cookie that was set.
  abbrev pub after_set : ℕ → Cookie → Store → Option Cookie
  after_set now cookie self =
      if cookie.persistent
      then (if is_expired now cookie then C.get cookie.key self.session_cookies else some cookie)
      else behind now (C.get cookie.key self.cookies) cookie

  get_found-behind :
      (now : ℕ) (o : Option Cookie) (cookie : Cookie)
      → get_found C now o (some cookie) ≡ behind now o cookie
  unfolding get_found
  get_found-behind now none cookie = refl
  get_found-behind now (some older) cookie = refl

  abbrev pub set_as : Bool → Cookie → Store → Store
  set_as persistent cookie self =
      if persistent
      then record self { cookies = C.insert cookie.key cookie self.cookies; dirty = true }
      else record self {
        session_cookies = C.insert cookie.key cookie self.session_cookies;
        dirty = true;
      }

  get-set_as :
      (persistent : Bool) (now : ℕ) (cookie : Cookie) (self : Store)
      → get C now cookie.key (set_as persistent cookie self) ≡ (
          if persistent
          then (if is_expired now cookie
              then C.get cookie.key self.session_cookies
              else some cookie)
          else behind now (C.get cookie.key self.cookies) cookie)
  unfolding get get_found
  get-set_as true now cookie self =
      ap (λ o. get_found C now o (C.get cookie.key self.session_cookies))
        (insert-get_same C key_of cookie.key cookie self.cookies)
  get-set_as false now cookie self =
      ap (get_found C now (C.get cookie.key self.cookies))
        (insert-get_same C key_of cookie.key cookie self.session_cookies)
      ∙ get_found-behind now (C.get cookie.key self.cookies) cookie

  get-set_as_other :
      (persistent : Bool) (now : ℕ) (cookie : Cookie) (k : CookieKey) (self : Store)
      → cookie.key ≢ k
      → get C now k (set_as persistent cookie self) ≡ get C now k self
  unfolding get
  get-set_as_other true now cookie k self h =
      ap (λ o. get_found C now o (C.get k self.session_cookies))
        (insert-get_other C key_of cookie.key k cookie self.cookies h)
  get-set_as_other false now cookie k self h =
      ap (get_found C now (C.get k self.cookies))
        (insert-get_other C key_of cookie.key k cookie self.session_cookies h)

  -- After a cookie is set, `get` under its key answers: for a persistent cookie, the cookie while it
  -- has not expired, and then the session cookie of that key, if any; for a session cookie, the
  -- persistent cookie of that key that was there before, while it has not expired, and else the
  -- cookie. Under another key it answers as before.
  pub get-set :
      (now : ℕ) (cookie : Cookie) (self : Store) (k : CookieKey)
      → get C now k (set C cookie self)
        ≡ (if cookie.key == k then after_set now cookie self else get C now k self)
  unfolding set
  get-set now cookie self k = elim (Bool-cases (cookie.key == k)) [
    | inl same ↦
        subst (λ j. get C now j (set C cookie self) ≡ after_set now cookie self)
          ((CookieKey-eq.beq_iff cookie.key k).0 same)
          (get-set_as cookie.persistent now cookie self)
        ∙ ap (λ b. if b then after_set now cookie self else get C now k self) (sym same)
    | inr other ↦
        get-set_as_other cookie.persistent now cookie k self
          (λ e. cc (other, (CookieKey-eq.beq_iff cookie.key k).1 e))
        ∙ ap (λ b. if b then after_set now cookie self else get C now k self) (sym other)
  ]

  -- In both maps every cookie stands under its own key.
  abbrev pub IsKeyedStore : Store → Type 0
  IsKeyedStore self = IsKeyed C key_of self.cookies × IsKeyed C key_of self.session_cookies

  set_as-IsKeyed :
      (persistent : Bool) (cookie : Cookie) (self : Store)
      → IsKeyedStore self
      → IsKeyedStore (set_as persistent cookie self)
  set_as-IsKeyed true cookie self h = (insert-IsKeyed C key_of cookie self.cookies h.0, h.1)
  set_as-IsKeyed false cookie self h =
      (h.0, insert-IsKeyed C key_of cookie self.session_cookies h.1)

  pub set-IsKeyed :
      (cookie : Cookie) (self : Store) → IsKeyedStore self → IsKeyedStore (set C cookie self)
  unfolding set
  set-IsKeyed cookie self h = set_as-IsKeyed cookie.persistent cookie self h

  pub remove-IsKeyed_store :
      (k : CookieKey) (self : Store) → IsKeyedStore self → IsKeyedStore (remove C k self)
  unfolding remove
  remove-IsKeyed_store k self h = (
    remove-IsKeyed C key_of k self.cookies h.0,
    remove-IsKeyed C key_of k self.session_cookies h.1,
  )

  pub clear_all-IsKeyed : (self : Store) → IsKeyedStore (clear_all C self)
  unfolding clear_all
  clear_all-IsKeyed self = (empty-IsKeyed C key_of, empty-IsKeyed C key_of)

  -- After a removal nothing is found under the key, at any time, and other keys are as before; after
  -- `clear_all` nothing is found, under any key or for any domain.
  pub get-remove :
      (now : ℕ) (k j : CookieKey) (domain : Text) (self : Store)
      → (get C now j (remove C k self) ≡ (if k == j then none else get C now j self))
        × (get C now j (clear_all C self) ≡ none)
        × (get_for_domain C now domain (clear_all C self) ≡ [])
  unfolding get get_found remove clear_all get_for_domain
  get-remove now k j domain self = (
    ap₂ (get_found C now) (C.get-remove k j self.cookies) (C.get-remove k j self.session_cookies)
        ∙ both_gone (k == j),
    ap₂ (get_found C now) (C.get-empty j) (C.get-empty j),
    ap
        (λ es.
          let cookies = map (λ (p : CookieKey × Cookie). p.1) es in
          filter (is_sent now domain) cookies ++ filter (is_sent_in_session domain) cookies)
        C.entries-empty,
  )
    where
      both_gone :
          (b : Bool)
          → get_found C now
              (if b then none else C.get j self.cookies)
              (if b then none else C.get j self.session_cookies)
            ≡ (if b
                then none
                else get_found C now (C.get j self.cookies) (C.get j self.session_cookies))
      both_gone true = refl
      both_gone false = refl
