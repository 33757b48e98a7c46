-- ===== src/Cookie/File/Changes.antt =====
-- Sequences of calls on the cookie store: the flag that asks the task for a save, and the keys.
use strawberry_background.Prelude.{
  ℕ, String, String-eq, Bool, true, false, ◌≡◌, refl, ap, Option, none, some, List, [], ◌∷◌, Result,
  ok, err, filter, if◌then◌else◌, unwrap_or,
}
use strawberry_background.Prelude.Text.{Text}
use strawberry_background.Prelude.Map.{HashMap}
use strawberry_background.Prelude.Map.Collect.{collect, collect-IsKeyed, empty-IsKeyed}
use strawberry_background.Storage.{Ending}
use strawberry_background.Cookie.{
  Cookie, CookieKey, CookieKey-eq, CookieConfig, SerializableStore, Json, FileBackedCookieStore,
  set, remove, clear_all,
}
use strawberry_background.Cookie.File.{
  key_of, is_kept, persist, load, load_at, load_contents, load_parsed, new_store, auto_save,
}
use strawberry_background.Cookie.Store.{
  IsKeyedStore, set-IsKeyed, remove-IsKeyed_store, clear_all-IsKeyed,
}

module _ (C : HashMap CookieKey Cookie CookieKey-eq) (F : HashMap String Text String-eq)
    (J : Json) where
  abbrev Store : Type 0
  Store = FileBackedCookieStore C

  -- What other calls do to a store.
  pub data Change : Type 0 where
    setting : Cookie → Change
    removal : CookieKey → Change
    clearing : Change
    loading : ℕ → Option String → F.Map → Change

  abbrev pub change : Change → Store → Store
  change (setting cookie) self = set C cookie self
  change (removal key) self = remove C key self
  change clearing self = clear_all C self
  change (loading now fault files) self = (load C F J now fault files self).0

  abbrev pub changes : List Change → Store → Store
  changes [] self = self
  changes (c ∷ cs) self = changes cs (change c self)

  -- A fact about stores that every change keeps.
  pub changes-keep :
      (P : Store → Type 0)
      → ((c : Change) (self : Store) → P self → P (change c self))
      → (cs : List Change) (self : Store) → P self
      → P (changes cs self)
  changes-keep P f [] self h = h
  changes-keep P f (c ∷ cs) self h = changes-keep P f cs (change c self) (f c self h)

  load_parsed-keeps :
      (P : Store → Type 0) (now : ℕ) (r : Result SerializableStore String) (self : Store)
      → ((vs : List Cookie) → P (record self { cookies = collect C key_of vs C.empty }))
      → P self
      → P (load_parsed C F J now r self).0
  unfolding load_parsed
  load_parsed-keeps P now (err e) self f h = h
  load_parsed-keeps P now (ok s) self f h = f (filter (is_kept now) s.cookies)

  load_contents-keeps :
      (P : Store → Type 0) (now : ℕ) (fault : Option String) (o : Option Text) (self : Store)
      → ((vs : List Cookie) → P (record self { cookies = collect C key_of vs C.empty }))
      → P self
      → P (load_contents C F J now fault o self).0
  unfolding load_contents
  load_contents-keeps P now fault none self f h = h
  load_contents-keeps P now (some e) (some json) self f h = h
  load_contents-keeps P now none (some json) self f h =
      load_parsed-keeps P now (J.from_str json) self f h

  load_at-keeps :
      (P : Store → Type 0) (o : Option String) (now : ℕ) (fault : Option String) (files : F.Map)
      (self : Store)
      → ((vs : List Cookie) → P (record self { cookies = collect C key_of vs C.empty }))
      → P self
      → P (load_at C F J o now fault files self).0
  unfolding load_at
  load_at-keeps P none now fault files self f h = h
  load_at-keeps P (some path) now fault files self f h =
      load_contents-keeps P now fault (F.get path files) self f h

  -- A fact that holds of a store and of it with any cookies collected holds after a load.
  load-keeps :
      (P : Store → Type 0) (now : ℕ) (fault : Option String) (files : F.Map) (self : Store)
      → ((vs : List Cookie) → P (record self { cookies = collect C key_of vs C.empty }))
      → P self
      → P (load C F J now fault files self).0
  unfolding load
  load-keeps P now fault files self f h = load_at-keeps P self.storage_path now fault files self f h

  abbrev pub IsDirty : Store → Type 0
  IsDirty self = self.dirty ≡ true

  set-IsDirty : (cookie : Cookie) (self : Store) → IsDirty (set C cookie self)
  unfolding set
  set-IsDirty cookie self = go cookie.persistent
    where
      go :
          (b : Bool)
          → IsDirty (
              if b
              then record self { cookies = C.insert cookie.key cookie self.cookies; dirty = true }
              else record self {
                session_cookies = C.insert cookie.key cookie self.session_cookies;
                dirty = true;
              })
      go true = refl
      go false = refl

  change-IsDirty : (c : Change) (self : Store) → IsDirty self → IsDirty (change c self)
  unfolding remove clear_all
  change-IsDirty (setting cookie) self h = set-IsDirty cookie self
  change-IsDirty (removal key) self h = refl
  change-IsDirty clearing self h = refl
  change-IsDirty (loading now fault files) self h =
      load-keeps IsDirty now fault files self (λ vs. h) h

  -- Once a cookie is set, every tick of the saving task writes, whatever is called in between: no call
  -- resets the flag, a save that succeeds included.
  pub auto_save-changes :
      (now : ℕ) (w : Ending (Option Text)) (cookie : Cookie) (cs : List Change) (self : Store)
      (files : F.Map)
      → auto_save C F J now w (changes cs (set C cookie self)) files
        ≡ (persist C F J now w (changes cs (set C cookie self)) files).0
  unfolding auto_save
  auto_save-changes now w cookie cs self files =
      ap (λ b. if b then (persist C F J now w (changes cs (set C cookie self)) files).0 else files)
        (changes-keep IsDirty change-IsDirty cs (set C cookie self) (set-IsDirty cookie self))

  change-IsKeyed :
      (c : Change) (self : Store) → IsKeyedStore C self → IsKeyedStore C (change c self)
  change-IsKeyed (setting cookie) self h = set-IsKeyed C cookie self h
  change-IsKeyed (removal key) self h = remove-IsKeyed_store C key self h
  change-IsKeyed clearing self h = clear_all-IsKeyed C self
  change-IsKeyed (loading now fault files) self h =
      load-keeps (IsKeyedStore C) now fault files self
        (λ vs. (collect-IsKeyed C key_of vs C.empty (empty-IsKeyed C key_of), h.1)) h

  -- From a new store, whatever is set, removed, cleared and loaded, every cookie of both maps stands
  -- under its own key.
  pub changes-new_store-IsKeyed :
      (config : CookieConfig) (cs : List Change)
      → IsKeyedStore C (changes cs (new_store C F J config))
  unfolding new_store
  changes-new_store-IsKeyed config cs =
      changes-keep (IsKeyedStore C) change-IsKeyed cs (new_store C F J config) (
        collect-IsKeyed C key_of (unwrap_or config.initial_cookies []) C.empty
            (empty-IsKeyed C key_of),
        empty-IsKeyed C key_of,
      )
