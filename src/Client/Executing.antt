-- ===== src/Client/Executing.antt =====
-- `do_execute` and `execute` of infrastructure/http/reqwest_backend.rs, with the
-- events that the monitor is sent.
pub mod Secrecy
pub mod Streaming
pub mod Panics
pub mod Safety
use strawberry_background.Prelude.{
  ℕ, String, Bool, true, false, ◌&&◌, not, Option, none, some, List, [], ◌∷◌, ◌++◌, map, Result, ok,
  err, if◌then◌else◌, is_none, unwrap_or, length,
}
use strawberry_background.Prelude.Text.{Text, ascii}
use strawberry_background.Prelude.Map.{HashMap}
use strawberry_background.Url.{PercentEncoding, UrlCrate}
use strawberry_background.Endpoint.{
  HttpEndpoint, HttpResponse, HttpClientError, configuration, network, timeout, build_url,
}
use strawberry_background.Cookie.{CookieKey, Cookie, CookieKey-eq, FileBackedCookieStore}
use strawberry_background.Progress.{
  Polled, Next, item, end, waiting, Report, poll_all, StreamWithCallback, poll_next, new_stream,
}
use strawberry_background.Progress as Reader
use strawberry_background.Storage.{EventStage, started, running, finished, failed}
use strawberry_background.Monitor.{MonitorEvent, http}
use strawberry_background.Client.{
  Provider, Outcome, done, refused, panicked, Draft, Response, Answer, responded, timed_out,
  unreachable, Reqwest, ReqwestBackend, convert_method, with_header, inject_cookies,
  extract_cookies,
}

abbrev event : Text → EventStage → MonitorEvent
event url stage = http stage url none

-- What follows a step that can end a call.
abbrev pub and_then : {A B : Type 0} → Outcome A → (A → Outcome B) → Outcome B
and_then (done a) f = f a
and_then (refused e) f = refused e
and_then panicked f = panicked

header_value : Option Text → Text
header_value none = []
header_value (some text) = text

read_headers : List (Text × Option Text) → List (Text × Text)
unfolding header_value
read_headers headers = map (λ (p : Text × Option Text). (p.0, header_value p.1)) headers

running_event : Text → Report → MonitorEvent
running_event url (read, total, delta) =
    http running url (some (record { value = read; total = total; delta = delta }))

module _ (E : PercentEncoding) (U : UrlCrate) (C : HashMap CookieKey Cookie CookieKey-eq)
    (Q : Reqwest) where
  abbrev Backend : Type 0
  Backend = ReqwestBackend E U C Q

  -- The two tests at the start.
  abbrev lacks : Option (List ℕ) → Bool → Option Provider → Bool
  lacks body required provider = not (is_none body) && (required && is_none provider)

  unfoldable pub refusal : HttpEndpoint → Backend → Option String
  refusal endpoint self =
      if lacks endpoint.body endpoint.requires_encryption self.encryption_provider
      then some "no encryption provider"
      else if lacks endpoint.body endpoint.requires_decryption self.decryption_provider
      then some "no decryption provider"
      else none

  drafted : HttpEndpoint → Draft
  drafted endpoint = record {
    method = convert_method endpoint.method;
    url = build_url E endpoint;
    headers =
        unwrap_or endpoint.headers []
        ++ (with_header (ascii "user-agent") endpoint.user_agent
            ++ with_header (ascii "content-type") endpoint.content_type);
    body = none;
    timeout = none;
  }

  abbrev pub of_result : {A : Type 0} → Result A HttpClientError → Outcome A
  of_result (ok a) = done a
  of_result (err e) = refused e

  encrypt_body : List ℕ → Option Provider → Outcome (List ℕ)
  encrypt_body body none = panicked
  encrypt_body body (some provider) = of_result (provider body)

  with_body : Option (List ℕ) → Bool → Option Provider → Draft → Outcome Draft
  unfolding encrypt_body
  with_body none required provider draft = done draft
  with_body (some body) true provider draft =
      and_then (encrypt_body body provider) (λ bytes. done (record draft { body = some bytes }))
  with_body (some body) false provider draft = done (record draft { body = some body })

  inject_some : Option (FileBackedCookieStore C) → ℕ → Text → Draft → Outcome Draft
  inject_some none now url draft = done draft
  inject_some (some store) now url draft = inject_cookies E U C Q (some store) now url draft

  build_after : Option String → Draft → Outcome Draft
  build_after none draft = done draft
  build_after (some e) draft = refused (configuration e)

  build : ℕ → Draft → Outcome Draft
  unfolding build_after
  build limit draft =
      let timed = record draft { timeout = some limit } in build_after (Q.build_fault timed) timed

  prepared : Option String → ℕ → HttpEndpoint → Backend → Outcome Draft
  unfolding with_body inject_some build drafted
  prepared (some e) now endpoint self = refused (configuration e)
  prepared none now endpoint self =
      and_then
        (with_body endpoint.body endpoint.requires_encryption self.encryption_provider
          (drafted endpoint))
        (λ draft.
          and_then (inject_some self.cookie_store now (build_url E endpoint) draft)
            (build endpoint.timeout))

  -- The request that is sent, if one is.
  unfoldable pub request_of : ℕ → HttpEndpoint → Backend → Outcome Draft
  unfolding prepared
  request_of now endpoint self = prepared (refusal endpoint self) now endpoint self

  answered : ℕ → ℕ → Answer → Backend → Backend × Outcome Response
  answered now limit (responded response) self = (
    record self { cookie_store = extract_cookies E U C Q now response self.cookie_store },
    done response,
  )
  answered now limit timed_out self = (self, refused (timeout limit))
  answered now limit (unreachable e) self = (self, refused (network e))

  sent : ℕ → ℕ → Outcome Draft → Backend → Backend × Outcome Response
  unfolding answered
  sent now limit (done request) self = answered now limit (Q.execute request) self
  sent now limit (refused e) self = (self, refused e)
  sent now limit panicked self = (self, panicked)

  unfoldable pub do_execute : ℕ → HttpEndpoint → Backend → Backend × Outcome Response
  unfolding sent
  do_execute now endpoint self = sent now endpoint.timeout (request_of now endpoint self) self

  -- The bytes of a body, with the events that reading them makes: a fault of the stream is told by the
  -- stream and again by the copy.
  body_read :
      Text
      → Option ℕ
      → List Polled
      → Result (List ℕ) String
      → List MonitorEvent × Result (List ℕ) String
  unfolding running_event
  body_read url (some total) polls (ok body) =
      (map (running_event url) (poll_all polls (Reader.new total)).1, ok body)
  body_read url (some total) polls (err e) = (
    map (running_event url) (poll_all polls (Reader.new total)).1
        ++ event url failed ∷ event url failed ∷ [],
    err e,
  )
  body_read url none polls (ok body) = ([], ok body)
  body_read url none polls (err e) = (event url failed ∷ [], err e)

  decrypt_body : Bool → List ℕ → Option Provider → Outcome (List ℕ)
  decrypt_body false body provider = done body
  decrypt_body true body none = panicked
  decrypt_body true body (some provider) = of_result (provider body)

  completed :
      Text
      → Bool
      → Response
      → List MonitorEvent × Result (List ℕ) String
      → Backend
      → List MonitorEvent × Outcome HttpResponse
  unfolding decrypt_body read_headers
  completed url required response (events, err e) self = (events, refused (network e))
  completed url required response (events, ok body) self = (
    events ++ event url finished ∷ [],
    and_then (decrypt_body required body self.decryption_provider) (λ bytes. done (record {
      status = response.status;
      headers = read_headers response.headers;
      body = bytes;
    })),
  )

  responded_with :
      Text → Bool → Outcome Response → Backend → List MonitorEvent × Outcome HttpResponse
  unfolding completed body_read
  responded_with url required (refused e) self = (event url failed ∷ [], refused e)
  responded_with url required panicked self = ([], panicked)
  responded_with url required (done response) self =
      completed url required response
        (body_read url response.content_length response.polls response.received) self

  unfoldable pub execute :
      ℕ → HttpEndpoint → Backend → Backend × List MonitorEvent × Outcome HttpResponse
  unfolding responded_with
  execute now endpoint self =
      let next = do_execute now endpoint self in
      let url = build_url E endpoint in
      let answer = responded_with url endpoint.requires_decryption next.1 next.0 in
      (next.0, event url started ∷ answer.0, answer.1)
