-- ===== src/Ffi/Calls.antt =====
-- adapters/ffi/service_ffi_adapter.rs: the calls that pass on to the runtime. An error keeps the
-- other error whose text it carries.
use strawberry_background.Prelude.{ℕ, String, Bool, Option, List, Result, ok, err}
use strawberry_background.Storage.{Weather, StorageError}
use strawberry_background.Storage as Storage
use strawberry_background.Endpoint.{HttpResponse, HttpClientError}
use strawberry_background.Monitor.{MonitorEvent}
use strawberry_background.Cache.{CacheError}
use strawberry_background.Client.{Outcome, done, refused, panicked}
use strawberry_background.Runtime.{Libraries, ServiceRuntime, ServiceError}
use strawberry_background.Runtime.Services as Services
use strawberry_background.Ffi.{
  FfiHttpEndpoint, FfiHttpResponse, FfiHttpStreamResponse, FfiReadFile, FfiWriteFile, into_endpoint,
  from_response, into_read_file, from_write_file,
}

-- What the text of an error says.
pub data FfiError : Type 0 where
  of_service : ServiceError → FfiError
  of_http : HttpClientError → FfiError
  of_storage : StorageError → FfiError
  of_cache : CacheError → FfiError
  task_failed : FfiError

-- Two `map_err` with `?`.
flattened : {A E : Type 0} → (E → FfiError) → Result (Result A E) ServiceError → Result A FfiError
flattened f (err e) = err (of_service e)
flattened f (ok (err e)) = err (f e)
flattened f (ok (ok a)) = ok a

-- A task that panics fails for the one who awaits it.
answered :
    Result (List MonitorEvent × Outcome HttpResponse) ServiceError → Result FfiHttpResponse FfiError
unfolding from_response
answered (err e) = err (of_service e)
answered (ok (events, done response)) = ok (from_response response)
answered (ok (events, refused e)) = err (of_http e)
answered (ok (events, panicked)) = err task_failed

module _ (G : Libraries) where
  open G use {tables as T}
  open T use {files as FM, channels as SM}

  pub execute_http_endpoint :
      ℕ → FfiHttpEndpoint → ServiceRuntime G → ServiceRuntime G × Result FfiHttpResponse FfiError
  unfolding answered into_endpoint
  execute_http_endpoint now endpoint self =
      let ran = Services.execute_http G now (into_endpoint endpoint) self in (ran.0, answered ran.1)

  from_stream : Services.StreamResponse G → FfiHttpStreamResponse
  from_stream value = record {
    status = value.status;
    headers = value.headers;
    stream = value.stream;
    events = value.events;
  }

  stream_answered :
      Result (List MonitorEvent × Outcome (Services.StreamResponse G)) ServiceError
      → Result FfiHttpStreamResponse FfiError
  unfolding from_stream
  stream_answered (err e) = err (of_service e)
  stream_answered (ok (events, done response)) = ok (from_stream response)
  stream_answered (ok (events, refused e)) = err (of_http e)
  stream_answered (ok (events, panicked)) = err task_failed

  pub execute_stream_http_endpoint :
      ℕ
      → FfiHttpEndpoint
      → ServiceRuntime G
      → ServiceRuntime G × Result FfiHttpStreamResponse FfiError
  unfolding stream_answered into_endpoint
  execute_stream_http_endpoint now endpoint self =
      let ran = Services.execute_stream_http G now (into_endpoint endpoint) self in
      (ran.0, stream_answered ran.1)

  storage_result : {A : Type 0} → Result (Storage.Done FM A) ServiceError → Result A FfiError
  storage_result (err e) = err (of_service e)
  storage_result (ok d) = flattened of_storage (ok d.result)

  pub read_file : FfiReadFile → Weather → FM.Map → ServiceRuntime G → Result (List ℕ) FfiError
  unfolding storage_result into_read_file
  read_file request w files self =
      storage_result (Services.read_file G (into_read_file request) w files self)

  pub write_file : FfiWriteFile → Weather → FM.Map → ServiceRuntime G → Result (Unit {0}) FfiError
  unfolding storage_result from_write_file
  write_file request w files self =
      storage_result (Services.write_file G (from_write_file request) w files self)

  pub file_cache_cache :
      String
      → String
      → String
      → List ℕ
      → String
      → Bool
      → Weather
      → FM.Map
      → ServiceRuntime G
      → Services.Called G FM.Map × Result (Unit {0}) FfiError
  unfolding flattened
  file_cache_cache channel tag sentence bytes uuid locked w files self =
      let c = Services.file_cache_cache G channel tag sentence bytes uuid locked w files self in
      (c, flattened of_cache c.result)

  pub file_cache_should_update :
      String → String → String → Bool → Weather → FM.Map → ServiceRuntime G → Result Bool FfiError
  unfolding flattened
  file_cache_should_update channel tag sentence locked w files self =
      flattened of_cache
        (Services.file_cache_should_update G channel tag sentence locked w files self)

  pub file_cache_fetch :
      String
      → String
      → Bool
      → Weather
      → Weather
      → FM.Map
      → ServiceRuntime G
      → Result (List ℕ) FfiError
  unfolding flattened
  file_cache_fetch channel tag locked w later files self =
      flattened of_cache (Services.file_cache_fetch G channel tag locked w later files self)

  pub file_cache_flush :
      String → String → ServiceRuntime G → Services.Called G (Unit {0}) × Result (Unit {0}) FfiError
  unfolding flattened
  file_cache_flush channel tag self =
      let c = Services.file_cache_flush G channel tag self in (c, flattened of_cache c.result)

  pub file_cache_persist :
      String
      → Option String
      → SM.Map
      → ServiceRuntime G
      → Services.Called G SM.Map × Result (Unit {0}) FfiError
  unfolding flattened
  file_cache_persist channel fault store self =
      let c = Services.file_cache_persist G channel fault store self in
      (c, flattened of_cache c.result)

  pub file_cache_path :
      String → String → Bool → Weather → FM.Map → ServiceRuntime G → Result String FfiError
  unfolding flattened
  file_cache_path channel tag locked w files self =
      flattened of_cache (Services.file_cache_path G channel tag locked w files self)
