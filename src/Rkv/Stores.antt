-- ===== src/Rkv/Stores.antt =====
-- When the store of rkv/rkv_impl.rs opens.
use strawberry_background.Prelude.{ℕ, String, Bool, true, false, ◌≡◌, ◌↔◌, refl, Option, none, some}
use strawberry_background.Rkv.{
  Answer, done, failed, panicked, RkvService, Opening, made, env_of, open_single, store_opened,
  init_db,
}

-- The service has an environment, or it can make its directory and one.
abbrev pub HasEnvironment : Option ℕ → Opening → Type 0
HasEnvironment (some env) w = Unit
HasEnvironment none w =
    (w.directory ≡ none) × (w.manager ≡ none) × ((env : ℕ) × (w.created ≡ some env))

-- What opening takes: an environment whose lock is not poisoned and which opens the store.
abbrev pub CanOpen : RkvService → Opening → Type 0
CanOpen self w = HasEnvironment self.env w × (w.poisoned ≡ false) × (w.opened ≡ none)

made-done :
    (directory manager : Option String) (created : Option ℕ)
    → ((env : ℕ) × (made directory manager created ≡ done env))
      ↔ ((directory ≡ none) × (manager ≡ none) × ((env : ℕ) × (created ≡ some env)))
unfolding made
made-done (some e) manager created = (λ h. absurd (cc h.1), λ h. absurd (cc h.0))
made-done none (some e) created = (λ h. absurd (cc h.1), λ h. absurd (cc h.1))
made-done none none none = (λ h. absurd (cc h.1), λ h. absurd (cc h.2.1))
made-done none none (some env) = (λ h. (refl, refl, (env, refl)), λ h. (env, refl))

env_of-done :
    (o : Option ℕ) (w : Opening) → ((env : ℕ) × (env_of o w ≡ done env)) ↔ HasEnvironment o w
unfolding env_of
env_of-done (some env) w = (λ h. tt, λ h. (env, refl))
env_of-done none w = made-done w.directory w.manager w.created

open_single-done :
    (poisoned : Bool) (fault : Option String) (name : String)
    → (open_single poisoned fault name ≡ done name) ↔ ((poisoned ≡ false) × (fault ≡ none))
unfolding open_single
open_single-done true fault name = (λ h. absurd (cc h), λ h. absurd (cc h.0))
open_single-done false (some e) name = (λ h. absurd (cc h), λ h. absurd (cc h.1))
open_single-done false none name = (λ h. (refl, refl), λ h. refl)

store_opened-done :
    (a : Answer ℕ) (name : String) (w : Opening) (self : RkvService)
    → ((store_opened a name w self).1 ≡ done name)
      ↔ (((env : ℕ) × (a ≡ done env)) × (w.poisoned ≡ false) × (w.opened ≡ none))
unfolding store_opened
store_opened-done (failed e) name w self = (λ h. absurd (cc h), λ h. absurd (cc h.0.1))
store_opened-done panicked name w self = (λ h. absurd (cc h), λ h. absurd (cc h.0.1))
store_opened-done (done env) name w self = (
  λ h.
      let (sound, opens) = (open_single-done w.poisoned w.opened name).0 h in
      ((env, refl), sound, opens),
  λ h. (open_single-done w.poisoned w.opened name).1 (h.1, h.2),
)

-- A store opens exactly if the service has or makes an environment whose lock is not poisoned and
-- which opens the store.
pub init_db-CanOpen :
    (name : String) (w : Opening) (self : RkvService)
    → ((init_db name w self).1 ≡ done name) ↔ CanOpen self w
unfolding init_db
init_db-CanOpen name w self = (
  λ h.
      let (env, sound, opens) = (store_opened-done (env_of self.env w) name w self).0 h in
      ((env_of-done self.env w).0 env, sound, opens),
  λ h.
      (store_opened-done (env_of self.env w) name w self).1
        ((env_of-done self.env w).1 h.0, h.1, h.2),
)

open_single-name :
    (poisoned : Bool) (fault : Option String) (name other : String)
    → open_single poisoned fault name ≡ done other
    → name ≡ other
unfolding open_single
open_single-name true fault name other h = absurd (cc h)
open_single-name false (some e) name other h = absurd (cc h)
open_single-name false none name other h = cc h

-- The store that is opened has the name that was asked for.
pub init_db-name :
    (name other : String) (w : Opening) (self : RkvService)
    → (init_db name w self).1 ≡ done other
    → name ≡ other
unfolding init_db store_opened
init_db-name name other w self h = go (env_of self.env w) h
  where
    go : (a : Answer ℕ) → (store_opened a name w self).1 ≡ done other → name ≡ other
    go (failed e) h = absurd (cc h)
    go panicked h = absurd (cc h)
    go (done env) h = open_single-name w.poisoned w.opened name other h
