-- ===== src/Monitor/Delivery.antt =====
-- Who is told of an event.
use mathlib.Core.List.{Permᴰ, Perm}
use mathlib.Core.List.Perm
use mathlib.Core.List.Permᴰ
use strawberry_background.Prelude.{
  ℕ, String, String-eq, Bool, true, false, ◌≡◌, refl, ap, sym, ◌∙◌, Option, none, some, List, [],
  ◌∷◌, map, Result, ok, err, if◌then◌else◌, subst, ==_refl,
}
use strawberry_background.Prelude.Map.{HashMap}
use strawberry_background.Monitor.{
  MonitorEvent, MonitorError, MpscMonitorSubscriber, MpscMonitorBackend, MonitorService, Call,
  new_backend, send, subscribe, cancel, cancel_subscriber, notify, monitoring, initialize_monitor,
  upgrade_reference,
}

module _ (S : HashMap String MpscMonitorSubscriber String-eq) where
  abbrev subscriber : String → ℕ → MpscMonitorSubscriber
  subscriber uuid callback = record { id = uuid; callback = callback }

  abbrev calls_of : MonitorEvent → List (String × MpscMonitorSubscriber) → List (Call S)
  calls_of event es = map (notify S event) (map (λ (p : String × MpscMonitorSubscriber). p.1) es)

  calls-perm :
      (event : MonitorEvent) {xs ys : List (String × MpscMonitorSubscriber)}
      → Permᴰ xs ys
      → Permᴰ (calls_of event xs) (calls_of event ys)
  calls-perm event p =
      Permᴰ.map (notify S event) (Permᴰ.map (λ (q : String × MpscMonitorSubscriber). q.1) p)

  subscribed_to : String → ℕ → MpscMonitorBackend S → MpscMonitorBackend S
  subscribed_to uuid callback m = record m {
    subscribers = S.insert uuid (subscriber uuid callback) m.subscribers;
  }

  subscribe_live :
      (uuid : String) (callback : ℕ) (m : MpscMonitorBackend S)
      → m.alive ≡ true
      → subscribe S uuid callback m ≡ (subscribed_to uuid callback m, ok (subscriber uuid callback))
  unfolding subscribe subscribed_to
  subscribe_live uuid callback m alive =
      ap
        (λ b.
          if b
          then (subscribed_to uuid callback m, ok (subscriber uuid callback))
          else (m, err (upgrade_reference "monitor must be alive")))
        alive

  module _ (uuid : String) (callback : ℕ) (m : S.Map) (fresh : S.get uuid m ≡ none) where
    abbrev inserted : S.Map
    inserted = S.insert uuid (subscriber uuid callback) m

    one_more : Permᴰ (S.entries inserted) ((uuid, subscriber uuid callback) ∷ S.entries m)
    one_more =
        Permᴰ.trans (S.entries-insert uuid (subscriber uuid callback) m)
          (Permᴰ.cons refl (Permᴰ.symm (S.entries-absent uuid m fresh)))

    found : S.get uuid inserted ≡ some (subscriber uuid callback)
    found =
        S.get-insert uuid uuid (subscriber uuid callback) m
        ∙ ap (λ b. if b then some (subscriber uuid callback) else S.get uuid m) (==_refl uuid)

    as_before : Perm (S.entries (S.remove uuid inserted)) (S.entries m)
    as_before =
        Perm.cons_inv
          ∣ Permᴰ.trans
            (Permᴰ.symm (S.entries-present uuid (subscriber uuid callback) inserted found))
            one_more ∣₁

  -- A subscription under a fresh identifier to a live monitor answers with the subscriber. An event is
  -- then sent to its callback and to those that were told before, each as often as before, in some
  -- order; and once it is cancelled, to the latter only.
  pub send-subscribe :
      (uuid : String) (callback : ℕ) (m : MpscMonitorBackend S) (event : MonitorEvent)
      → m.alive ≡ true
      → S.get uuid m.subscribers ≡ none
      → ((subscribe S uuid callback m).1 ≡ ok (subscriber uuid callback))
        × Permᴰ (send S event (subscribe S uuid callback m).0) ((callback, event) ∷ send S event m)
        × Perm
            (send S event (cancel S (subscriber uuid callback) (subscribe S uuid callback m).0))
            (send S event m)
  unfolding send notify cancel cancel_subscriber subscribed_to
  send-subscribe uuid callback m event alive fresh =
      subst
        (λ (p : MpscMonitorBackend S × Result MpscMonitorSubscriber MonitorError).
          (p.1 ≡ ok (subscriber uuid callback))
          × Permᴰ (send S event p.0) ((callback, event) ∷ send S event m)
          × Perm (send S event (cancel S (subscriber uuid callback) p.0)) (send S event m))
        (sym (subscribe_live uuid callback m alive))
        (
          refl,
          calls-perm event (one_more uuid callback m.subscribers fresh),
          Perm.map (notify S event) (
              Perm.map (λ (q : String × MpscMonitorSubscriber). q.1)
                (as_before uuid callback m.subscribers fresh)),
        )

  sends_nothing : (event : MonitorEvent) → send S event (new_backend S) ≡ []
  unfolding send new_backend
  sends_nothing event = ap (calls_of event) S.entries-empty

  -- Initializing the service twice is initializing it once, and whatever its state, it changes
  -- nothing in the calls that an event makes: subscribers that are there stay, and there are no new ones.
  pub initialize_monitor-again :
      (event : MonitorEvent) (self : MonitorService S)
      → (initialize_monitor S (initialize_monitor S self) ≡ initialize_monitor S self)
        × (monitoring S event (initialize_monitor S self) ≡ monitoring S event self)
  unfolding initialize_monitor monitoring
  initialize_monitor-again event self = go self.poisoned self.monitor
    where
      go :
          (poisoned : Bool) (o : Option (MpscMonitorBackend S))
          → let state : MonitorService S = record { poisoned = poisoned; monitor = o } in
            (initialize_monitor S (initialize_monitor S state) ≡ initialize_monitor S state)
            × (monitoring S event (initialize_monitor S state) ≡ monitoring S event state)
      go true o = (refl, refl)
      go false none = (refl, sends_nothing event)
      go false (some m) = (refl, refl)
