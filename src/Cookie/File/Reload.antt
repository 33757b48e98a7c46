-- ===== src/Cookie/File/Reload.antt =====
-- Cookies that are saved and loaded again, and the flag that asks the task for a save.
use strawberry_background.Prelude.{
  ℕ, String, String-eq, Bool, true, false, ◌≡◌, refl, ap, ap₂, ◌∙◌, Option, none, some, List,
  Result, ok, filter, if◌then◌else◌, arith, ==_refl,
}
use strawberry_background.Prelude.Text.{Text}
use strawberry_background.Prelude.Map.{HashMap, values}
use strawberry_background.Prelude.Map.Collect.{IsKeyed, collect, keep, collect-filter}
use strawberry_background.Storage.{complete}
use strawberry_background.Cookie.{
  Cookie, CookieKey, CookieKey-eq, CookieConfig, SerializableStore, Json, FileBackedCookieStore,
  get, get_found, is_expired, passed,
}
use strawberry_background.Cookie.File.{
  key_of, is_kept, later_than, persist, persist_at, write_json, load, load_at, load_contents,
  load_parsed, loaded, new, new_store,
}

-- Reading what was printed gives the store back.
abbrev pub IsFaithful : Json → Type 0
IsFaithful J =
    (s : SerializableStore) (json : Text) → J.to_string_pretty s ≡ ok json → J.from_str json ≡ ok s

module _ (C : HashMap CookieKey Cookie CookieKey-eq) (F : HashMap String Text String-eq)
    (J : Json) where
  abbrev Store : Type 0
  Store = FileBackedCookieStore C

  -- The file of a store that is saved without a fault.
  abbrev pub printed : ℕ → Store → Result Text String
  printed now self = J.to_string_pretty (record { cookies = values C self.cookies; saved_at = now })

  abbrev restored : ℕ → List Cookie → CookieConfig → Store
  restored later cookies config = record (new_store C F J config) {
    cookies = collect C key_of (filter (is_kept later) cookies) C.empty;
  }

  new-persist :
      (now later : ℕ) (self : Store) (path : String) (json : Text) (files : F.Map)
      (config : CookieConfig)
      → IsFaithful J
      → self.storage_path ≡ some path
      → config.cookie_path ≡ some path
      → printed now self ≡ ok json
      → new C F J later none (persist C F J now complete self files).0 config
        ≡ ok (restored later (values C self.cookies) config)
  unfolding new loaded load load_at load_contents load_parsed persist persist_at write_json
      new_store
  new-persist now later self path json files config faithful here there good =
      ap
        (λ o. loaded C F J (
          load_at C F J config.cookie_path later none (persist_at C F J o now complete self files).0
            (new_store C F J config)))
        here
      ∙ ap
          (λ o. loaded C F J (
            load_at C F J o later none (write_json C F J complete path (printed now self) files).0
              (new_store C F J config)))
          there
      ∙ ap
          (λ r. loaded C F J (
            load_contents C F J later none (F.get path (write_json C F J complete path r files).0)
              (new_store C F J config)))
          good
      ∙ ap (λ o. loaded C F J (load_contents C F J later none o (new_store C F J config)))
          (F.get-insert path path json files
            ∙ ap (λ b. if b then some json else F.get path files) (==_refl path))
      ∙ ap (λ r. loaded C F J (load_parsed C F J later r (new_store C F J config)))
          (faithful (record { cookies = values C self.cookies; saved_at = now }) json good)

  -- What is kept has not expired.
  kept-passed :
      (later : ℕ) (expires : Option ℕ)
      → later_than later expires ≡ true
      → passed later expires ≡ false
  kept-passed later none h = refl
  kept-passed later (some e) h = ground (arith, h)

  get_found-kept :
      (later : ℕ) (o : Option Cookie)
      → get_found C later (keep C key_of (is_kept later) o) none ≡ keep C key_of (is_kept later) o
  unfolding get_found is_expired
  get_found-kept later none = refl
  get_found-kept later (some cookie) = go (is_kept later cookie) refl
    where
      go :
          (b : Bool)
          → is_kept later cookie ≡ b
          → get_found C later (if b then some cookie else none) none
            ≡ (if b then some cookie else none)
      go true e = ap (λ b. if b then none else some cookie) (kept-passed later cookie.expires e)
      go false e = refl

  -- A store saves its cookies at `now` without a fault, and a new one is made at `later` over the
  -- same file. If each cookie stands under its own key, and reading what the JSON library printed gives it back,
  -- then the new store is made, and `get` at `later` finds in it the persistent cookies that expire
  -- after `later` or never, and nothing else; the configured initial cookies are not there.
  pub get-new-persist :
      (now later : ℕ) (self : Store) (path : String) (json : Text) (files : F.Map)
      (config : CookieConfig)
      → IsFaithful J
      → self.storage_path ≡ some path
      → config.cookie_path ≡ some path
      → printed now self ≡ ok json
      → IsKeyed C key_of self.cookies
      → (store : Store) × (new C F J later none (persist C F J now complete self files).0 config
          ≡ ok store)
        × ((k : CookieKey)
            → get C later k store ≡ keep C key_of (is_kept later) (C.get k self.cookies))
  unfolding get new_store
  get-new-persist now later self path json files config faithful here there good keyed = (
    restored later (values C self.cookies) config,
    new-persist now later self path json files config faithful here there good,
    λ k.
        ap₂ (get_found C later) (collect-filter C key_of (is_kept later) self.cookies k keyed)
          (C.get-empty k)
        ∙ get_found-kept later (C.get k self.cookies),
  )
