-- ===== src/Runtime.antt =====
-- service/service_runtime.rs with service/config.rs and service/service_exporter.rs: the services that
-- are made from a configuration. The files of the cookies, of the storage and of the cache are one map.
pub mod Services
pub mod Starting
pub mod Failing
use Prim.Native.String.{◌++◌ as ◌<>◌}
use strawberry_background.Prelude.{
  ℕ, String, String-eq, Bool, true, false, Option, none, some, List, [], ◌∷◌, Result, ok, err,
  if◌then◌else◌, nat_eq, unwrap_or,
}
use strawberry_background.Prelude.Map.{HashMap}
use strawberry_background.Url.{PercentEncoding, UrlCrate}
use strawberry_background.Endpoint.{HttpClientError}
use strawberry_background.Cookie.{
  Cookie, CookieKey, CookieKey-eq, CookieConfig, CookieError, cookie_error_text, Json,
  FileBackedCookieStore,
}
use strawberry_background.Cookie.File as File
use strawberry_background.Cache.{Tables, CacheChannel, CacheError, DefaultFileCacheManager}
use strawberry_background.Cache.Channel as Channel
use strawberry_background.Cache.Factory.{create_with_name}
use strawberry_background.Client.{
  Reqwest, ReqwestBackend, HttpConfig, Outcome, refused, with_parameters,
}
use strawberry_background.Client as Client
use strawberry_background.Rkv.{RkvService, Opening, Answer, init_db}
use strawberry_background.Rkv as Rkv

pub record FileCacheChannelConfig : Type 0 where
  pub name : String
  pub extension : Option String

pub record FileCacheConfig : Type 0 where
  pub base_path : String
  pub auto_save_interval : ℕ
  pub channels : Option (List FileCacheChannelConfig)

pub record RuntimeConfig : Type 0 where
  pub http : Option HttpConfig
  pub cookie : Option CookieConfig
  pub file_cache_config : Option FileCacheConfig

unfoldable pub default_config : RuntimeConfig
default_config = record { http = none; cookie = none; file_cache_config = none }

-- The errors that carry the text of another error keep it.
pub data InitError : Type 0 where
  tokio_init configuration : String → InitError
  http_client_init : HttpClientError → InitError
  file_cache_init : CacheError → InitError

pub data ServiceError : Type 0 where
  not_configured : String → ServiceError

-- How the making of the services ends.
pub data Start (A : Type 0) : Type 0 where
  ready : A → Start A
  failed : InitError → Start A
  panicked_at_start : Start A

pub record Libraries : Type 1 where
  pub encoding : PercentEncoding
  pub urls : UrlCrate
  pub cookies : HashMap CookieKey Cookie CookieKey-eq
  pub reqwest : Reqwest
  pub tables : Tables
  pub handles : HashMap String ℕ String-eq
  pub json : Json

module _ (G : Libraries) where
  open G use {tables as T, handles as N, json as J, cookies as C}
  open T use {files as FM, channels as SM}

  abbrev pub Manager : Type 0
  Manager = DefaultFileCacheManager T

  abbrev pub Backend : Type 0
  Backend = ReqwestBackend G.encoding G.urls C G.reqwest

  abbrev pub Store : Type 0
  Store = FileBackedCookieStore C

  -- The factory: the handles of the managers by name, and the manager of each handle.
  pub record Factory : Type 0 where
    pub managers : N.Map
    pub objects : ℕ → Manager

  -- The storage manager has no state but its locks.
  pub record ServiceRuntime : Type 0 where
    pub http_client : Option Backend
    pub cookie_auto_save : Bool
    pub storage_manager : Bool
    pub file_cache_manager_factory : Option Factory

  -- What a start finds: the time, the files, the faults of the calls, the service in `RKV_SERVICE` if
  -- it is there and not poisoned, what opening the store finds for the factory and for the manager of
  -- each name, the allocation of a manager, and an object for the handles that are not given out.
  pub record World : Type 0 where
    pub now : ℕ
    pub files : FM.Map
    pub cookie_fault : Option String
    pub channels : SM.Map
    pub store_fault : String → Option String
    pub rkv_service : Option RkvService
    pub factory_opening : Opening
    pub manager_opening : String → Opening
    pub allocate : CacheChannel → ℕ
    pub unused : Manager

  cookie_store_made : Result Store CookieError → Result Store InitError
  cookie_store_made (ok store) = ok store
  cookie_store_made (err e) = err (configuration (cookie_error_text e))

  unfoldable pub create_cookie_store : World → CookieConfig → Result Store InitError
  unfolding cookie_store_made
  create_cookie_store w config =
      cookie_store_made (File.new C FM J w.now w.cookie_fault w.files config)

  unfoldable pub initialize_cookie_store : World → Option CookieConfig → Result Store InitError
  initialize_cookie_store w none = err (configuration "config is null")
  initialize_cookie_store w (some config) = create_cookie_store w config

  client_made : Outcome Backend → Start Backend
  client_made (Client.done backend) = ready backend
  client_made (refused e) = failed (http_client_init e)
  client_made Client.panicked = panicked_at_start

  unfoldable pub create_http_client : HttpConfig → Option Store → Start Backend
  unfolding client_made
  create_http_client config store =
      client_made (with_parameters G.encoding G.urls C G.reqwest config store)

  abbrev pub updated : ℕ → Manager → (ℕ → Manager) → ℕ → Manager
  updated handle manager objects j = if nat_eq handle j then manager else objects j

  -- `init_db` and its `unwrap`, on the service that is there: what it leaves, if it does not panic.
  opened : RkvService × Answer String → Option RkvService
  opened (after, Rkv.done name) = some after
  opened (after, Rkv.failed e) = none
  opened (after, Rkv.panicked) = none

  store_opened : Opening → Option RkvService → Option RkvService
  unfolding opened
  store_opened w none = none
  store_opened w (some service) = opened (init_db "file_cache" w service)

  -- `DefaultFileCacheManager::new` opens the store once more.
  manager_made : Option RkvService → ℕ → Manager → (ℕ → Manager) → Option (ℕ → Manager)
  manager_made none handle manager objects = none
  manager_made (some service) handle manager objects = some (updated handle manager objects)

  -- The closure makes a manager for a channel whose name has none.
  object_under :
      World → FileCacheConfig → Option ℕ → CacheChannel → (ℕ → Manager) → Option (ℕ → Manager)
  unfolding manager_made store_opened
  object_under w config (some handle) channel objects = some objects
  object_under w config none channel objects =
      manager_made
        (store_opened (w.manager_opening channel.name)
          (store_opened w.factory_opening w.rkv_service))
        (w.allocate channel) (Channel.new T (config.base_path <> ("/" <> channel.name)) channel)
        objects

  object_for :
      World
      → FileCacheConfig
      → Option ℕ
      → Result CacheChannel CacheError
      → Factory
      → Option (ℕ → Manager)
  unfolding object_under
  object_for w config (some handle) channel factory = some factory.objects
  object_for w config none (err e) factory = some factory.objects
  object_for w config none (ok channel) factory =
      object_under w config (N.get channel.name factory.managers) channel factory.objects

  -- How a turn ends, if the making of a manager does not panic.
  turned : Option (ℕ → Manager) → N.Map → Result ℕ CacheError → Start Factory
  turned none managers made = panicked_at_start
  turned (some objects) managers (err e) = failed (file_cache_init e)
  turned (some objects) managers (ok handle) =
      ready (record { managers = managers; objects = objects })

  -- A turn of the loop over the channels.
  create_one : World → FileCacheConfig → FileCacheChannelConfig → Factory → Start Factory
  unfolding object_for turned
  create_one w config c factory =
      let fault = w.store_fault c.name in
      let made =
        create_with_name T N w.allocate fault c.name c.extension w.channels factory.managers in
      turned
        (object_for w config (N.get c.name factory.managers)
          (Channel.create_channel T fault c.name c.extension w.channels) factory)
        made.0 made.1

  pub create_channels :
      World → FileCacheConfig → List FileCacheChannelConfig → Factory → Start Factory
  unfolding create_one
  create_channels w config [] factory = ready factory
  create_channels w config (c ∷ cs) factory = elim (create_one w config c factory) [
    | ready next ↦ create_channels w config cs next
    | failed e ↦ failed e
    | panicked_at_start ↦ panicked_at_start
  ]

  abbrev empty_factory : World → Factory
  empty_factory w = record { managers = N.empty; objects = λ handle. w.unused }

  -- `SingletonFileCacheManagerFactory::new` opens the store.
  new_factory : World → Option RkvService → Start Factory
  new_factory w none = panicked_at_start
  new_factory w (some service) = ready (empty_factory w)

  filled : World → FileCacheConfig → Start Factory → Start Factory
  unfolding create_channels
  filled w config (ready factory) = create_channels w config (unwrap_or config.channels []) factory
  filled w config (failed e) = failed e
  filled w config panicked_at_start = panicked_at_start

  unfoldable pub create_file_cache_factory : World → FileCacheConfig → Start Factory
  unfolding filled new_factory store_opened
  create_file_cache_factory w config =
      filled w config (new_factory w (store_opened w.factory_opening w.rkv_service))

  unfoldable pub initialize_file_cache : World → Option FileCacheConfig → Start Factory
  initialize_file_cache w none = failed (configuration "config is null")
  initialize_file_cache w (some config) = create_file_cache_factory w config

  -- An error of the cookies is not passed on.
  abbrev pub to_option : {A : Type 0} → Result A InitError → Option A
  to_option (ok a) = some a
  to_option (err e) = none

  abbrev is_some : {A : Type 0} → Option A → Bool
  is_some none = false
  is_some (some a) = true

  finished : Option Backend → Option Store → Option Factory → ServiceRuntime
  finished client store factory = record {
    http_client = client;
    cookie_auto_save = is_some store;
    storage_manager = true;
    file_cache_manager_factory = factory;
  }

  -- Neither is one of the file cache, but a panic is.
  with_factory : Option Backend → Option Store → Start Factory → Start ServiceRuntime
  unfolding finished
  with_factory client store (ready factory) = ready (finished client store (some factory))
  with_factory client store (failed e) = ready (finished client store none)
  with_factory client store panicked_at_start = panicked_at_start

  with_client : Start Backend → Option Store → Start Factory → Start ServiceRuntime
  unfolding with_factory
  with_client (ready client) store factory = with_factory (some client) store factory
  with_client (failed e) store factory = failed e
  with_client panicked_at_start store factory = panicked_at_start

  with_services : Option HttpConfig → Option Store → Start Factory → Start ServiceRuntime
  unfolding with_client with_factory
  with_services none store factory = with_factory none store factory
  with_services (some config) store factory =
      with_client (create_http_client config store) store factory

  unfoldable pub with_tokio_runtime : World → RuntimeConfig → Start ServiceRuntime
  unfolding with_services
  with_tokio_runtime w config =
      with_services config.http (to_option (initialize_cookie_store w config.cookie))
        (initialize_file_cache w config.file_cache_config)

  -- service_exporter.rs wraps the runtime.
  pub record ServiceExporter : Type 0 where
    pub runtime : ServiceRuntime

  exported : Start ServiceRuntime → Start ServiceExporter
  exported (ready runtime) = ready (record { runtime = runtime })
  exported (failed e) = failed e
  exported panicked_at_start = panicked_at_start

  pub create_service_exporter_with_tokio_runtime : World → RuntimeConfig → Start ServiceExporter
  unfolding exported
  create_service_exporter_with_tokio_runtime w config = exported (with_tokio_runtime w config)
