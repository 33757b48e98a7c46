-- ===== src/Runtime/Services.antt =====
-- The calls of `ServiceRuntime` in service/service_runtime.rs that pass on to a service.
pub mod Caching
use strawberry_background.Prelude.{
  ℕ, String, Bool, true, false, Option, none, some, List, [], ◌∷◌, Result, ok, err, if◌then◌else◌,
}
use strawberry_background.Storage.{Weather, ReadFile, WriteFile, read, write}
use strawberry_background.Storage as Storage
use strawberry_background.Endpoint.{HttpEndpoint, HttpResponse}
use strawberry_background.Monitor.{MonitorEvent}
use strawberry_background.Cache.{CacheError, cache, fetch, should_update, path_of, flush}
use strawberry_background.Cache.Channel.{persist}
use strawberry_background.Cache.Factory.{get_with_name}
use strawberry_background.Client.{Outcome}
use strawberry_background.Client.Executing.{execute}
use strawberry_background.Client.Executing.Streaming.{execute_stream, HttpStreamResponse}
use strawberry_background.Runtime.{
  Libraries, World, ServiceRuntime, ServiceError, not_configured, Factory, Manager, Backend,
  updated,
}

module _ (G : Libraries) where
  open G use {tables as T, handles as N, cookies as C}
  open T use {files as FM, channels as SM}

  http_ran :
      Option (Backend G)
      → ℕ
      → HttpEndpoint
      → ServiceRuntime G
      → ServiceRuntime G × Result (List MonitorEvent × Outcome HttpResponse) ServiceError
  http_ran none now endpoint self = (self, err (not_configured "Http Client"))
  http_ran (some client) now endpoint self =
      let ran = execute G.encoding G.urls C G.reqwest now endpoint client in
      (record self { http_client = some ran.0 }, ok (ran.1, ran.2))

  -- The task that is spawned runs to its end.
  unfoldable pub execute_http :
      ℕ
      → HttpEndpoint
      → ServiceRuntime G
      → ServiceRuntime G × Result (List MonitorEvent × Outcome HttpResponse) ServiceError
  unfolding http_ran
  execute_http now endpoint self = http_ran self.http_client now endpoint self

  abbrev pub StreamResponse : Type 0
  StreamResponse = HttpStreamResponse G.encoding G.urls C G.reqwest

  stream_ran :
      Option (Backend G)
      → ℕ
      → HttpEndpoint
      → ServiceRuntime G
      → ServiceRuntime G × Result (List MonitorEvent × Outcome StreamResponse) ServiceError
  stream_ran none now endpoint self = (self, err (not_configured "Http Client"))
  stream_ran (some client) now endpoint self =
      let ran = execute_stream G.encoding G.urls C G.reqwest now endpoint client in
      (record self { http_client = some ran.0 }, ok (ran.1, ran.2))

  pub execute_stream_http :
      ℕ
      → HttpEndpoint
      → ServiceRuntime G
      → ServiceRuntime G × Result (List MonitorEvent × Outcome StreamResponse) ServiceError
  unfolding stream_ran
  execute_stream_http now endpoint self = stream_ran self.http_client now endpoint self

  unfoldable pub read_file :
      ReadFile
      → Weather
      → FM.Map
      → ServiceRuntime G
      → Result (Storage.Done FM (List ℕ)) ServiceError
  read_file request w files self =
      if self.storage_manager
      then ok (read FM request w files)
      else err (not_configured "Storage Manager")

  unfoldable pub write_file :
      WriteFile
      → Weather
      → FM.Map
      → ServiceRuntime G
      → Result (Storage.Done FM (Unit {0})) ServiceError
  write_file request w files self =
      if self.storage_manager
      then ok (write FM request w files)
      else err (not_configured "Storage Manager")

  manager_of : Factory G → Result ℕ CacheError → Result (ℕ × Manager G) CacheError
  manager_of factory (err e) = err e
  manager_of factory (ok handle) = ok (handle, factory.objects handle)

  managed : Option (Factory G) → String → Result (Result (ℕ × Manager G) CacheError) ServiceError
  unfolding manager_of
  managed none channel = err (not_configured "File Cache")
  managed (some factory) channel =
      ok (manager_of factory (get_with_name T N (λ c. 0) channel factory.managers))

  -- What every call of the cache begins with: the factory, and the manager of the channel.
  unfoldable pub manager_for :
      String → ServiceRuntime G → Result (Result (ℕ × Manager G) CacheError) ServiceError
  unfolding managed
  manager_for channel self = managed self.file_cache_manager_factory channel

  -- A call that only asks the manager.
  asked :
      {A : Type 0}
      → (Manager G → Result A CacheError)
      → Result (Result (ℕ × Manager G) CacheError) ServiceError
      → Result (Result A CacheError) ServiceError
  asked ask (err e) = err e
  asked ask (ok (err e)) = ok (err e)
  asked ask (ok (ok (handle, manager))) = ok (ask manager)

  unfoldable pub file_cache_fetch :
      String
      → String
      → Bool
      → Weather
      → Weather
      → FM.Map
      → ServiceRuntime G
      → Result (Result (List ℕ) CacheError) ServiceError
  unfolding asked
  file_cache_fetch channel tag locked w later files self =
      asked (fetch T tag locked w later files) (manager_for channel self)

  unfoldable pub file_cache_should_update :
      String
      → String
      → String
      → Bool
      → Weather
      → FM.Map
      → ServiceRuntime G
      → Result (Result Bool CacheError) ServiceError
  unfolding asked
  file_cache_should_update channel tag sentence locked w files self =
      asked (should_update T tag sentence locked w files) (manager_for channel self)

  unfoldable pub file_cache_path :
      String
      → String
      → Bool
      → Weather
      → FM.Map
      → ServiceRuntime G
      → Result (Result String CacheError) ServiceError
  unfolding asked
  file_cache_path channel tag locked w files self =
      asked (path_of T tag locked w files) (manager_for channel self)

  -- A manager that has changed, in its place.
  placed : ℕ → Manager G → Option (Factory G) → Option (Factory G)
  placed handle manager none = none
  placed handle manager (some factory) =
      some (record factory { objects = updated G handle manager factory.objects })

  unfoldable pub changed : ℕ → Manager G → ServiceRuntime G → ServiceRuntime G
  unfolding placed
  changed handle manager self = record self {
    file_cache_manager_factory = placed handle manager self.file_cache_manager_factory;
  }

  -- The state after a call, and its result.
  pub record Called (S : Type 0) : Type 0 where
    pub runtime : ServiceRuntime G
    pub outside : S
    pub result : Result (Result (Unit {0}) CacheError) ServiceError

  -- A call that changes the manager and what is outside of it.
  called :
      {S : Type 0}
      → (S → Manager G → S × Manager G × Result (Unit {0}) CacheError)
      → S
      → ServiceRuntime G
      → Result (Result (ℕ × Manager G) CacheError) ServiceError
      → Called S
  called call outside self (err e) = record { runtime = self; outside = outside; result = err e }
  called call outside self (ok (err e)) = record {
    runtime = self;
    outside = outside;
    result = ok (err e);
  }
  called call outside self (ok (ok (handle, manager))) =
      let (after, object, result) = call outside manager in
      record { runtime = changed handle object self; outside = after; result = ok result }

  unfoldable pub file_cache_cache :
      String
      → String
      → String
      → List ℕ
      → String
      → Bool
      → Weather
      → FM.Map
      → ServiceRuntime G
      → Called FM.Map
  unfolding called
  file_cache_cache channel tag sentence bytes uuid locked w files self =
      called
        (λ outside manager.
          let c = cache T tag sentence bytes uuid locked w outside manager in
          (c.files, c.manager, c.result))
        files self (manager_for channel self)

  unfoldable pub file_cache_persist :
      String → Option String → SM.Map → ServiceRuntime G → Called SM.Map
  unfolding called
  file_cache_persist channel fault store self =
      called (λ outside manager. persist T fault outside manager) store self
        (manager_for channel self)

  unfoldable pub file_cache_flush : String → String → ServiceRuntime G → Called (Unit {0})
  unfolding called
  file_cache_flush channel tag self =
      called (λ outside manager. let f = flush T tag manager in (outside, f.0, f.1)) tt self
        (manager_for channel self)
