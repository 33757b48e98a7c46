-- ===== src/Cache/Factory/Singleton.antt =====
-- file_cache_backend.rs: what the factory answers to later calls for a name.
use strawberry_background.Prelude.{
  ok-injective, ℕ, String, String-eq, ◌≡◌, ◌≢◌, refl, sym, ◌↔◌, ap, ◌∙◌, subst, ==_ne, ◌==◌,
  Bool-cases, inl, inr, Option, none, some, ok, if◌then◌else◌, ==_refl,
}
use strawberry_background.Prelude.Map.{HashMap}
use strawberry_background.Cache.{Tables, CacheChannel}
use strawberry_background.Cache.Channel.{create_channel, channel_or_new}
use strawberry_background.Cache.Factory.{
  made, create_with_channel, create_from, found_or_created, create_with_name, found, get_with_name,
}

module _ (T : Tables) (N : HashMap String ℕ String-eq) (creator : CacheChannel → ℕ) where
  open T use {channels as SM}

  -- Every channel of the store carries the name under which it is saved.
  abbrev pub IsNamed : SM.Map → Type 0
  IsNamed store = (name : String) (c : CacheChannel) → SM.get name store ≡ some c → c.name ≡ name

  made-get :
      (channel : CacheChannel) (o : Option ℕ) (managers : N.Map)
      → N.get channel.name managers ≡ o
      → N.get channel.name (made T N creator channel o managers).0
        ≡ some (made T N creator channel o managers).1
  unfolding made
  made-get channel (some manager) managers e = e
  made-get channel none managers e =
      N.get-insert channel.name channel.name (creator channel) managers
      ∙ ap (λ b. if b then some (creator channel) else N.get channel.name managers)
          (==_refl channel.name)

  channel-name :
      (o : Option CacheChannel) (name : String) (extension : Option String)
      → ((c : CacheChannel) → o ≡ some c → c.name ≡ name)
      → (channel_or_new T o name extension).name ≡ name
  channel-name none name extension h = refl
  channel-name (some c) name extension h = h c refl

  created-get :
      (fault : Option String) (name : String) (extension : Option String) (store : SM.Map)
      (managers : N.Map) (m : ℕ)
      → IsNamed store
      → (create_from T N creator (create_channel T fault name extension store) managers).1 ≡ ok m
      → N.get name
          (create_from T N creator (create_channel T fault name extension store) managers).0
        ≡ some m
  unfolding create_from create_channel create_with_channel
  created-get (some e) name extension store managers m named h = cc h
  created-get none name extension store managers m named h =
      subst
        (λ x.
          N.get x
            (create_with_channel T N creator (channel_or_new T (SM.get name store) name extension)
              managers).0
          ≡ some m)
        (channel-name (SM.get name store) name extension (named name))
        (made-get (channel_or_new T (SM.get name store) name extension) _ managers refl
          ∙ ap some (ok-injective h))

  found_or_created-get :
      (o : Option ℕ) (fault : Option String) (name : String) (extension : Option String)
      (store : SM.Map) (managers : N.Map) (m : ℕ)
      → N.get name managers ≡ o
      → IsNamed store
      → (found_or_created T N creator o fault name extension store managers).1 ≡ ok m
      → N.get name (found_or_created T N creator o fault name extension store managers).0 ≡ some m
  unfolding found_or_created
  found_or_created-get (some k) fault name extension store managers m e named h = e ∙ cc h
  found_or_created-get none fault name extension store managers m e named h =
      created-get fault name extension store managers m named h

  -- If every channel of the store carries the name under which it is saved, then after a call of
  -- `create_with_name` that succeeds, `get_with_name` returns the same manager, and so does every
  -- later `create_with_name` for the name, which changes nothing, whatever its extension and store.
  pub create_with_name-again :
      (fault : Option String) (name : String) (extension : Option String) (store : SM.Map)
      (managers : N.Map) (m : ℕ)
      → IsNamed store
      → (create_with_name T N creator fault name extension store managers).1 ≡ ok m
      → (get_with_name T N creator name
            (create_with_name T N creator fault name extension store managers).0
          ≡ ok m)
        × ((later : Option String) (other : Option String) (changed : SM.Map)
            → create_with_name T N creator later name other changed
                (create_with_name T N creator fault name extension store managers).0
              ≡ ((create_with_name T N creator fault name extension store managers).0, ok m))
  unfolding create_with_name get_with_name found found_or_created
  create_with_name-again fault name extension store managers m named h =
      let there =
        found_or_created-get (N.get name managers) fault name extension store managers m refl named
          h in
      (
        ap (found T N creator name) there,
        λ later other changed.
            ap
              (λ o.
                found_or_created T N creator o later name other changed
                  (found_or_created T N creator (N.get name managers) fault name extension store
                    managers).0)
              there,
      )

  pub create_with_name-get :
      (fault : Option String) (name : String) (extension : Option String) (store : SM.Map)
      (managers : N.Map) (m : ℕ)
      → IsNamed store
      → (create_with_name T N creator fault name extension store managers).1 ≡ ok m
      → N.get name (create_with_name T N creator fault name extension store managers).0 ≡ some m
  unfolding create_with_name
  create_with_name-get fault name extension store managers m named h =
      found_or_created-get (N.get name managers) fault name extension store managers m refl named h

  made-others :
      (channel : CacheChannel) (o : Option ℕ) (k : String) (managers : N.Map)
      → channel.name ≢ k
      → N.get k (made T N creator channel o managers).0 ≡ N.get k managers
  unfolding made
  made-others channel (some manager) k managers h = refl
  made-others channel none k managers h =
      N.get-insert channel.name k (creator channel) managers
      ∙ ap (λ b. if b then some (creator channel) else N.get k managers) (==_ne channel.name k h)

  created-others :
      (fault : Option String) (name : String) (extension : Option String) (store : SM.Map)
      (k : String) (managers : N.Map)
      → IsNamed store
      → name ≢ k
      → N.get k (create_from T N creator (create_channel T fault name extension store) managers).0
        ≡ N.get k managers
  unfolding create_from create_channel create_with_channel
  created-others (some e) name extension store k managers named h = refl
  created-others none name extension store k managers named h =
      made-others (channel_or_new T (SM.get name store) name extension) _ k managers
        (λ e. h (sym (channel-name (SM.get name store) name extension (named name)) ∙ e))

  found_or_created-others :
      (o : Option ℕ) (fault : Option String) (name : String) (extension : Option String)
      (store : SM.Map) (k : String) (managers : N.Map)
      → IsNamed store
      → name ≢ k
      → N.get k (found_or_created T N creator o fault name extension store managers).0
        ≡ N.get k managers
  unfolding found_or_created
  found_or_created-others (some m) fault name extension store k managers named h = refl
  found_or_created-others none fault name extension store k managers named h =
      created-others fault name extension store k managers named h

  pub create_with_name-others :
      (fault : Option String) (name : String) (extension : Option String) (store : SM.Map)
      (k : String) (managers : N.Map)
      → IsNamed store
      → name ≢ k
      → N.get k (create_with_name T N creator fault name extension store managers).0
        ≡ N.get k managers
  unfolding create_with_name
  create_with_name-others fault name extension store k managers named h =
      found_or_created-others (N.get name managers) fault name extension store k managers named h

  -- A manager that there is stays.
  pub create_with_name-kept :
      (fault : Option String) (name : String) (extension : Option String) (store : SM.Map)
      (k : String) (managers : N.Map) (m : ℕ)
      → IsNamed store
      → N.get k managers ≡ some m
      → N.get k (create_with_name T N creator fault name extension store managers).0 ≡ some m
  unfolding create_with_name found_or_created
  create_with_name-kept fault name extension store k managers m named h =
      elim (Bool-cases (name == k)) [
        | inl same ↦
            let here : name ≡ k = (String-eq.beq_iff name k).0 same in
            let there : N.get name managers ≡ some m = ap (λ x. N.get x managers) here ∙ h in
            ap (λ o. N.get k (found_or_created T N creator o fault name extension store managers).0)
              there
            ∙ h
        | inr other ↦
            create_with_name-others fault name extension store k managers named
              (λ e. cc (other, (String-eq.beq_iff name k).1 e))
            ∙ h
      ]

  pub get_with_name_iff :
      (name : String) (managers : N.Map)
      → ((m : ℕ) × (get_with_name T N creator name managers ≡ ok m))
        ↔ ((m : ℕ) × (N.get name managers ≡ some m))
  unfolding get_with_name found
  get_with_name_iff name managers = go (N.get name managers)
    where
      go : (o : Option ℕ) → ((m : ℕ) × (found T N creator name o ≡ ok m)) ↔ ((m : ℕ) × (o ≡ some m))
      go none = (λ h. absurd (cc h.1), λ h. absurd (cc h.1))
      go (some k) = (λ h. (k, refl), λ h. (k, refl))
