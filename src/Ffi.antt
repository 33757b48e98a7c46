-- ===== src/Ffi.antt =====
-- adapters/ffi, models and errors: the types that the foreign side gives, with their conversions.
pub mod Calls
use Prim.Native.String.{◌++◌ as ◌<>◌}
use strawberry_background.Prelude.{ℕ, ◌*◌, String, Bool, Option, none, some, List, Result}
use strawberry_background.Prelude.Text.{Text}
use strawberry_background.Storage.{
  ReadFile, WriteFile, WriteMode, cover, append, EnsureMode, flush, sync_data, sync_all,
}
use strawberry_background.Endpoint.{HttpEndpoint, HttpMethod, HttpResponse, HttpClientError}
use strawberry_background.Endpoint as Endpoint
use strawberry_background.Progress.{Next}
use strawberry_background.Monitor.{MonitorEvent}

pub data FfiHttpMethod : Type 0 where
  get post put delete : FfiHttpMethod

pub record FfiHttpEndpoint : Type 0 where
  pub path : Text
  pub domain : Text
  pub body : Option (List ℕ)
  pub timeout_millis : ℕ
  pub headers : Option (List (Text × Text))
  pub path_params : Option (List (Text × Text))
  pub query_params : Option (List (Text × Text))
  pub method : FfiHttpMethod
  pub requires_encryption : Bool
  pub requires_decryption : Bool
  pub user_agent : Option Text
  pub content_type : Option Text

pub record FfiHttpResponse : Type 0 where
  pub status : ℕ
  pub headers : List (Text × Text)
  pub body : List ℕ

-- The stream is what its polls answer, with the events that they cause.
pub record FfiHttpStreamResponse : Type 0 where
  pub status : ℕ
  pub headers : List (Text × Text)
  pub stream : List (Next (Result (List ℕ) String))
  pub events : List MonitorEvent

pub data FfiWriteMode : Type 0 where
  cover' append' : FfiWriteMode

pub data FfiEnsureMode : Type 0 where
  flush' sync_data' sync_all' : FfiEnsureMode

pub record FfiReadFile : Type 0 where
  pub path : String
  pub timeout_millis : ℕ

pub record FfiWriteFile : Type 0 where
  pub path : String
  pub mode : FfiWriteMode
  pub timeout_millis : ℕ
  pub ensure_mode : Option FfiEnsureMode
  pub data' : List ℕ

-- `Duration::from_millis`, in nanoseconds
abbrev from_millis : ℕ → ℕ
from_millis millis = millis * 1000000

pub into_method : FfiHttpMethod → HttpMethod
into_method get = Endpoint.get
into_method post = Endpoint.post
into_method put = Endpoint.put
into_method delete = Endpoint.delete

pub into_endpoint : FfiHttpEndpoint → HttpEndpoint
unfolding into_method
into_endpoint self = record {
  path = self.path;
  domain = self.domain;
  body = self.body;
  timeout = from_millis self.timeout_millis;
  headers = self.headers;
  path_params = self.path_params;
  query_params = self.query_params;
  method = into_method self.method;
  requires_encryption = self.requires_encryption;
  requires_decryption = self.requires_decryption;
  user_agent = self.user_agent;
  content_type = self.content_type;
}

pub from_response : HttpResponse → FfiHttpResponse
from_response r = record { status = r.status; headers = r.headers; body = r.body }

pub into_mode : FfiWriteMode → WriteMode
into_mode cover' = cover
into_mode append' = append

pub into_ensure_mode : FfiEnsureMode → EnsureMode
into_ensure_mode flush' = flush
into_ensure_mode sync_data' = sync_data
into_ensure_mode sync_all' = sync_all

pub into_read_file : FfiReadFile → ReadFile
into_read_file self = record { path = self.path; timeout = from_millis self.timeout_millis }

ensure_option : Option FfiEnsureMode → Option EnsureMode
unfolding into_ensure_mode
ensure_option none = none
ensure_option (some mode) = some (into_ensure_mode mode)

pub from_write_file : FfiWriteFile → WriteFile
unfolding into_mode ensure_option
from_write_file value = record {
  path = value.path;
  mode = into_mode value.mode;
  timeout = from_millis value.timeout_millis;
  ensure_mode = ensure_option value.ensure_mode;
  data' = value.data';
}

-- The printed form of a `Duration` in an error is given.
pub data FfiAdapterError : Type 0 where
  invalid_parameter domain_error serialization configuration : String → FfiAdapterError

pub from_domain_error : (ℕ → String) → HttpClientError → FfiAdapterError
from_domain_error shown (Endpoint.network msg) = domain_error ("Network: " <> msg)
from_domain_error shown (Endpoint.timeout limit) = domain_error ("Timeout after " <> shown limit)
from_domain_error shown (Endpoint.invalid_url url) = domain_error ("Invalid URL: " <> url)
from_domain_error shown (Endpoint.serialization msg) = serialization msg
from_domain_error shown (Endpoint.configuration msg) = configuration msg
from_domain_error shown (Endpoint.invalid_header msg) = domain_error ("Invalid Header: " <> msg)
from_domain_error shown (Endpoint.crypto msg) = domain_error ("Crypto: " <> msg)
