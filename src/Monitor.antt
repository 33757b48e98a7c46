-- ===== src/Monitor.antt =====
-- monitor/monitor_service.rs, infrastructure/monitor/mpsc_monitor_backend.rs and
-- domain/models/monitor_models.rs: events for subscribers. A callback is a name for the function that
-- was given, and sending answers with the calls that are made; the identifiers (uuid) are given.
pub mod Delivery
use strawberry_background.Prelude.{
  ℕ, String, String-eq, Bool, true, false, Option, none, some, List, [], ◌∷◌, ◌++◌, map, Result, ok,
  err, if◌then◌else◌,
}
use strawberry_background.Prelude.Map.{HashMap, values}
use strawberry_background.Prelude.Text.{Text}
use strawberry_background.Storage.{EventStage}

pub record Progress : Type 0 where
  pub value : ℕ
  pub total : ℕ
  pub delta : ℕ

pub data MonitorEvent : Type 0 where
  http storage : EventStage → Text → Option Progress → MonitorEvent

pub data MonitorError : Type 0 where
  upgrade_reference : String → MonitorError
  not_configured : MonitorError

pub record MpscMonitorSubscriber : Type 0 where
  pub id : String
  pub callback : ℕ

module _ (S : HashMap String MpscMonitorSubscriber String-eq) where
  -- `alive` tells whether the weak reference to itself can be upgraded.
  pub record MpscMonitorBackend : Type 0 where
    pub alive : Bool
    pub subscribers : S.Map

  -- A call of a callback.
  abbrev pub Call : Type 0
  Call = ℕ × MonitorEvent

  unfoldable pub new_backend : MpscMonitorBackend
  new_backend = record { alive = true; subscribers = S.empty }

  unfoldable pub cancel_subscriber : String → MpscMonitorBackend → MpscMonitorBackend
  cancel_subscriber id self = record self { subscribers = S.remove id self.subscribers }

  unfoldable pub cancel : MpscMonitorSubscriber → MpscMonitorBackend → MpscMonitorBackend
  cancel self monitor = cancel_subscriber self.id monitor

  pub notify : MonitorEvent → MpscMonitorSubscriber → Call
  notify event self = (self.callback, event)

  unfoldable pub send : MonitorEvent → MpscMonitorBackend → List Call
  unfolding notify
  send event self = map (notify event) (values S self.subscribers)

  unfoldable pub subscribe :
      String
      → ℕ
      → MpscMonitorBackend
      → MpscMonitorBackend × Result MpscMonitorSubscriber MonitorError
  subscribe uuid callback self =
      if self.alive
      then (
        record self {
          subscribers = S.insert uuid (record { id = uuid; callback = callback }) self.subscribers;
        },
        ok (record { id = uuid; callback = callback }),
      )
      else (self, err (upgrade_reference "monitor must be alive"))

  -- The static MONITOR_SERVICE: whether its lock is poisoned, and the service in it.
  pub record MonitorService : Type 0 where
    pub poisoned : Bool
    pub monitor : Option MpscMonitorBackend

  abbrev initialized : Option MpscMonitorBackend → MpscMonitorBackend
  initialized none = new_backend
  initialized (some monitor) = monitor

  unfoldable pub initialize_monitor : MonitorService → MonitorService
  initialize_monitor self =
      if self.poisoned then self else record self { monitor = some (initialized self.monitor) }

  abbrev sent_by : MonitorEvent → Option MpscMonitorBackend → List Call
  sent_by event none = []
  sent_by event (some monitor) = send event monitor

  -- `monitoring` with a closure that sends an event, as every caller does.
  unfoldable pub monitoring : MonitorEvent → MonitorService → List Call
  monitoring event self = if self.poisoned then [] else sent_by event self.monitor

  subscribed :
      String
      → ℕ
      → Option MpscMonitorBackend
      → MonitorService
      → MonitorService × Result MpscMonitorSubscriber MonitorError
  subscribed uuid callback none self = (self, err not_configured)
  subscribed uuid callback (some monitor) self =
      let next = subscribe uuid callback monitor in (record self { monitor = some next.0 }, next.1)

  unfoldable pub subscribe_service :
      String → ℕ → MonitorService → MonitorService × Result MpscMonitorSubscriber MonitorError
  unfolding subscribed
  subscribe_service uuid callback self =
      if self.poisoned
      then (self, err not_configured)
      else subscribed uuid callback self.monitor self
