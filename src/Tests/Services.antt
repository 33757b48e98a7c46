-- ===== src/Tests/Services.antt =====
-- The services of a runtime.
use strawberry_background.Prelude.{
  ℕ, String, String-eq, true, false, ◌≡◌, ◌↔◌, refl, Option, none, some, [], ◌∷◌, ok, In, map,
  unwrap_or, if◌then◌else◌, nat_eq,
}
use strawberry_background.Prelude.Map.Assoc.{assoc}
use strawberry_background.Storage.{Weather, complete, write}
use strawberry_background.Cookie.{CookieKey-eq}
use strawberry_background.Cache.{DefaultFileCacheManager, cache, store_bytes, build_path}
use strawberry_background.Cache.Channel.{create_channel}
use strawberry_background.Cache.Channel as Channel
use strawberry_background.Cache.Factory.{get_with_name, create_with_name}
use strawberry_background.Cache.Factory.Singleton.{IsNamed}
use strawberry_background.Client.{HttpConfig, with_parameters}
use strawberry_background.Runtime.{
  Libraries, World, RuntimeConfig, FileCacheConfig, FileCacheChannelConfig, Factory, ServiceRuntime,
  create_file_cache_factory, create_http_client, with_tokio_runtime, ready, failed,
  http_client_init,
}
use strawberry_background.Endpoint.{network}
use strawberry_background.Runtime.Starting.{create_file_cache_factory-get_with_name}
use strawberry_background.Rkv.{Opening, init_db}
use strawberry_background.Runtime.Services.{file_cache_cache, file_cache_fetch, manager_for}
use strawberry_background.Runtime.Services.Caching.{fetched, file_cache_fetch-file_cache_cache}
use strawberry_background.Tests.Libraries.{encoding, urls, reqwest, tables, json}

abbrev libraries : Option String → Libraries
libraries fault = record {
  encoding = encoding;
  urls = urls;
  cookies = assoc;
  reqwest = reqwest fault;
  tables = tables;
  handles = assoc;
  json = json;
}

abbrev given : Libraries
given = libraries none

-- A store that opens.
abbrev opens : Opening
opens = record {
  directory = none;
  manager = none;
  created = some 3;
  poisoned = false;
  opened = none;
}

abbrev world : (fault : Option String) → World (libraries fault)
world fault = record {
  now = 3;
  files = assoc.empty;
  cookie_fault = none;
  channels = assoc.empty;
  store_fault = λ name. none;
  rkv_service = some (record { main_path = "store"; env = none });
  factory_opening = opens;
  manager_opening = λ name. opens;
  allocate = λ channel. 7;
  unused = record { name = ""; path = ""; extension = none; dirty = false; map = assoc.empty };
}

abbrev one_channel : FileCacheConfig
one_channel = record {
  base_path = "cache";
  auto_save_interval = 1;
  channels = some (record { name = "notes"; extension = none } ∷ []);
}

abbrev notes : DefaultFileCacheManager tables
notes = Channel.new tables "cache/notes" (record { name = "notes"; extension = none; records = [] })

abbrev factory : Factory given
factory = record {
  managers = assoc.insert "notes" 7 assoc.empty;
  objects = λ handle. if nat_eq 7 handle then notes else (world none).unused;
}

made : create_file_cache_factory given (world none) one_channel ≡ ready factory
unfolding create_file_cache_factory create_with_name create_channel init_db
made = refl

nothing-IsNamed : IsNamed tables assoc (world none).allocate (world none).channels
nothing-IsNamed name c e = cc e

create_file_cache_factory-get_with_name_example :
    ((handle : ℕ) × (get_with_name tables assoc (world none).allocate "notes" factory.managers
        ≡ ok handle))
    ↔ In "notes" (map (λ (c : FileCacheChannelConfig). c.name) (unwrap_or one_channel.channels []))
create_file_cache_factory-get_with_name_example =
    create_file_cache_factory-get_with_name given (world none) one_channel factory "notes"
      nothing-IsNamed made

abbrev runtime : ServiceRuntime given
runtime = record {
  http_client = none;
  cookie_auto_save = false;
  storage_manager = true;
  file_cache_manager_factory = some factory;
}

abbrev calm : Weather
calm = record {
  exists_fault = none;
  directory_fault = none;
  create_fault = none;
  sync_fault = none;
  open_fault = none;
  reading = complete;
  writing = complete;
  arrived = none;
  ensuring = complete;
}

cached_once :
    (file_cache_cache given "notes" "n" "v1"
      (4 ∷ 5 ∷ [])
      "u1"
      false
      calm
      assoc.empty
      runtime).result
    ≡ ok (ok tt)
unfolding file_cache_cache manager_for get_with_name cache store_bytes build_path write Channel.new
cached_once = refl

file_cache_fetch-file_cache_cache_example :
    (handle : ℕ) × (manager : DefaultFileCacheManager tables) × (manager_for given "notes" runtime
      ≡ ok (ok (handle, manager)))
    × (file_cache_fetch given "notes" "n" false calm calm
          (file_cache_cache given "notes" "n" "v1"
            (4 ∷ 5 ∷ [])
            "u1"
            false
            calm
            assoc.empty
            runtime).outside
          (file_cache_cache given "notes" "n" "v1"
            (4 ∷ 5 ∷ [])
            "u1"
            false
            calm
            assoc.empty
            runtime).runtime
        ≡ ok (ok (fetched given "n" "u1" (4 ∷ 5 ∷ []) assoc.empty manager)))
file_cache_fetch-file_cache_cache_example =
    file_cache_fetch-file_cache_cache given "notes" "n" "v1" (4 ∷ 5 ∷ []) "u1" false calm calm calm
      assoc.empty runtime refl cached_once refl refl refl

abbrev client : HttpConfig
client = record {
  connect_timeout = 1;
  request_timeout = 1;
  pool_idle_timeout = 1;
  max_connections_per_host = 1;
  cookie_config = none;
  encryption_provider = none;
  decryption_provider = none;
  all_proxy = none;
  host_proxy = none;
  tls_danger_accept_invalid_hostnames = false;
  tls_danger_accept_invalid_certs = false;
}

abbrev with_client_only : RuntimeConfig
with_client_only = record {
  http = some client;
  cookie = none;
  file_cache_config = some one_channel;
}

-- The client that is refused stops the start.
stopped :
    with_tokio_runtime (libraries (some "no TLS")) (world (some "no TLS")) with_client_only
    ≡ failed (http_client_init (network "no TLS"))
unfolding with_tokio_runtime create_http_client with_parameters
stopped = refl
