-- ===== src/Runtime/Starting.antt =====
-- What a runtime that was made has.
use strawberry_background.Prelude.{
  ℕ, String, String-eq, ◌≡◌, ◌↔◌, ◌⊎◌, inl, inr, refl, ap, sym, ◌∙◌, subst, Option, none, some,
  List, [], ◌∷◌, map, In, Result, ok, err, unwrap_or, Bool-cases, ◌==◌,
}
use strawberry_background.Cache.{CacheError}
use strawberry_background.Cache.Factory.{get_with_name, create_with_name}
use strawberry_background.Cache.Factory.Singleton.{
  IsNamed, create_with_name-get, create_with_name-others, create_with_name-kept, get_with_name_iff,
}
use strawberry_background.Rkv.{RkvService}
use strawberry_background.Runtime.{
  Libraries, World, FileCacheConfig, FileCacheChannelConfig, Start, ready, failed,
  panicked_at_start, Factory, Manager, turned, create_one, create_channels, empty_factory,
  new_factory, filled, create_file_cache_factory,
}

module _ (G : Libraries) where
  open G use {tables as T, handles as N}

  turn_ready :
      (s : Start (Factory G)) (rest : Factory G → Start (Factory G)) (f : Factory G)
      → elim s [
        | ready next ↦ rest next
        | failed e ↦ failed e
        | panicked_at_start ↦ panicked_at_start
      ]
        ≡ ready f
      → (next : Factory G) × (s ≡ ready next) × (rest next ≡ ready f)
  turn_ready (ready next) rest f h = (next, refl, h)
  turn_ready (failed e) rest f h = absurd (cc h)
  turn_ready panicked_at_start rest f h = absurd (cc h)

  managers_of : Start (Factory G) → N.Map
  managers_of (ready f) = f.managers
  managers_of _ = N.empty

  turned-ready :
      (o : Option (ℕ → Manager G)) (managers : N.Map) (made : Result ℕ CacheError) (f : Factory G)
      → turned G o managers made ≡ ready f
      → ((h : ℕ) × (made ≡ ok h)) × (f.managers ≡ managers)
  unfolding turned managers_of
  turned-ready none managers made f e = absurd (cc e)
  turned-ready (some objects) managers (err x) f e = absurd (cc e)
  turned-ready (some objects) managers (ok h) f e = ((h, refl), sym (ap managers_of e))

  module _ (w : World G) (config : FileCacheConfig)
      (named : IsNamed T N w.allocate w.channels) where
    -- What a turn does to the managers.
    abbrev made : FileCacheChannelConfig → Factory G → N.Map × Result ℕ CacheError
    made c before =
        create_with_name T N w.allocate (w.store_fault c.name) c.name c.extension w.channels
          before.managers

    one_ready :
        (c : FileCacheChannelConfig) (before next : Factory G)
        → create_one G w config c before ≡ ready next
        → ((h : ℕ) × ((made c before).1 ≡ ok h)) × (next.managers ≡ (made c before).0)
    unfolding create_one
    one_ready c before next e = turned-ready _ (made c before).0 (made c before).1 next e

    create_channels-kept :
        (cs : List FileCacheChannelConfig) (before after : Factory G) (k : String) (h : ℕ)
        → create_channels G w config cs before ≡ ready after
        → N.get k before.managers ≡ some h
        → N.get k after.managers ≡ some h
    unfolding create_channels managers_of
    create_channels-kept [] before after k h e there =
        ap (λ s. N.get k (managers_of s)) (sym e) ∙ there
    create_channels-kept (c ∷ cs) before after k h e there =
        let (next, one, rest) =
          turn_ready (create_one G w config c before) (create_channels G w config cs) after e in
        let (_, managers) = one_ready c before next one in
        create_channels-kept cs next after k h rest (
          ap (N.get k) managers
          ∙ create_with_name-kept T N w.allocate (w.store_fault c.name) c.name c.extension
              w.channels k before.managers h named there)

    create_channels-In :
        (cs : List FileCacheChannelConfig) (before after : Factory G) (k : String)
        → create_channels G w config cs before ≡ ready after
        → In k (map (λ (c : FileCacheChannelConfig). c.name) cs)
        → (h : ℕ) × (N.get k after.managers ≡ some h)
    unfolding create_channels
    create_channels-In [] before after k e n = absurd n
    create_channels-In (c ∷ cs) before after k e (inl here) =
        let (next, one, rest) =
          turn_ready (create_one G w config c before) (create_channels G w config cs) after e in
        let ((m, found), managers) = one_ready c before next one in
        (
          m,
          create_channels-kept cs next after k m rest (
              ap (N.get k) managers
              ∙ subst (λ x. N.get x (made c before).0 ≡ some m) (sym here)
                  (create_with_name-get T N w.allocate (w.store_fault c.name) c.name c.extension
                    w.channels before.managers m named found)),
        )
    create_channels-In (c ∷ cs) before after k e (inr later) =
        let (next, one, rest) =
          turn_ready (create_one G w config c before) (create_channels G w config cs) after e in
        create_channels-In cs next after k rest later

    create_channels-others :
        (cs : List FileCacheChannelConfig) (before after : Factory G) (k : String)
        → create_channels G w config cs before ≡ ready after
        → ¬ In k (map (λ (c : FileCacheChannelConfig). c.name) cs)
        → N.get k after.managers ≡ N.get k before.managers
    unfolding create_channels managers_of
    create_channels-others [] before after k e n = ap (λ s. N.get k (managers_of s)) (sym e)
    create_channels-others (c ∷ cs) before after k e n =
        let (next, one, rest) =
          turn_ready (create_one G w config c before) (create_channels G w config cs) after e in
        let (_, managers) = one_ready c before next one in
        create_channels-others cs next after k rest (λ x. n (inr x))
        ∙ (ap (N.get k) managers
            ∙ create_with_name-others T N w.allocate (w.store_fault c.name) c.name c.extension
                w.channels k before.managers named (λ x. n (inl (sym x))))

    -- A factory that is made comes from an empty one.
    filled-ready :
        (o : Option RkvService) (factory : Factory G)
        → filled G w config (new_factory G w o) ≡ ready factory
        → create_channels G w config (unwrap_or config.channels []) (empty_factory G w)
          ≡ ready factory
    unfolding filled new_factory
    filled-ready none factory e = absurd (cc e)
    filled-ready (some service) factory e = e

  In_or_not : (k : String) (ks : List String) → In k ks ⊎ (¬ In k ks)
  In_or_not k [] = inr (λ n. n)
  In_or_not k (j ∷ ks) = elim (Bool-cases (k == j)) [
    | inl same ↦ inl (inl ((String-eq.beq_iff k j).0 same))
    | inr other ↦ elim (In_or_not k ks) [
      | inl there ↦ inl (inr there)
      | inr nowhere ↦
          inr (λ n. elim n [ inl e ↦ cc (other, (String-eq.beq_iff k j).1 e) | inr m ↦ nowhere m ])
    ]
  ]

  -- When the factory for the file caches is made from a configuration, and every channel of the store
  -- carries the name under which it is saved, `get_with_name` finds a manager for exactly the names of
  -- the configured channels.
  pub create_file_cache_factory-get_with_name :
      (w : World G) (config : FileCacheConfig) (factory : Factory G) (name : String)
      → IsNamed T N w.allocate w.channels
      → create_file_cache_factory G w config ≡ ready factory
      → ((handle : ℕ) × (get_with_name T N w.allocate name factory.managers ≡ ok handle))
        ↔ In name (map (λ (c : FileCacheChannelConfig). c.name) (unwrap_or config.channels []))
  unfolding create_file_cache_factory
  create_file_cache_factory-get_with_name w config factory name named e = (
    λ h. elim (In_or_not name names) [
      | inl there ↦ there
      | inr nowhere ↦
          let (handle, found) = (get_with_name_iff T N w.allocate name factory.managers).0 h in
          absurd (
            none_found handle (
              sym (N.get-empty name)
              ∙ sym (
                  create_channels-others w config named (unwrap_or config.channels [])
                    (empty_factory G w) factory name all nowhere)
              ∙ found))
    ],
    λ n. (get_with_name_iff T N w.allocate name factory.managers).1 (
        create_channels-In w config named (unwrap_or config.channels []) (empty_factory G w) factory
          name all n),
  )
    where
      names : List String
      names = map (λ (c : FileCacheChannelConfig). c.name) (unwrap_or config.channels [])

      all :
          create_channels G w config (unwrap_or config.channels []) (empty_factory G w)
          ≡ ready factory
      all = filled-ready w config named _ factory e

      none_found : (handle : ℕ) → none ≡ some handle → ⊥
      none_found handle e = cc e
