-- ===== src/Client/Executing/Streaming.antt =====
-- `execute_stream` of infrastructure/http/reqwest_backend.rs, with the events of the polls of the stream.
pub mod Ends
use strawberry_background.Prelude.{
  ℕ, String, Bool, Option, none, some, List, [], ◌∷◌, ◌++◌, Result, ok, err, if◌then◌else◌, length,
}
use strawberry_background.Prelude.Text.{Text}
use strawberry_background.Prelude.Map.{HashMap}
use strawberry_background.Url.{PercentEncoding, UrlCrate}
use strawberry_background.Endpoint.{HttpEndpoint, build_url}
use strawberry_background.Cookie.{CookieKey, Cookie, CookieKey-eq}
use strawberry_background.Progress.{
  Next, item, end, waiting, StreamWithCallback, poll_next, new_stream,
}
use strawberry_background.Storage.{started, finished, failed}
use strawberry_background.Monitor.{MonitorEvent}
use strawberry_background.Client.{
  Outcome, done, refused, panicked, Response, Reqwest, ReqwestBackend,
}
use strawberry_background.Client.Executing.{event, running_event, read_headers, do_execute}

-- The second wrapper of a stream tells of each piece, if the length is known; the first, of the end.
piece_event : Text → Option ℕ → Result (List ℕ) String → List MonitorEvent
unfolding running_event
piece_event url none piece = []
piece_event url (some total) (err e) = []
piece_event url (some total) (ok bytes) = running_event url (0, total, length bytes) ∷ []

poll_events : Text → Option ℕ → Next (Result (List ℕ) String) → Bool → List MonitorEvent
unfolding piece_event
poll_events url total (item piece) called = piece_event url total piece
poll_events url total end called = if called then event url finished ∷ [] else []
poll_events url total waiting called = []

unfoldable pub stream_events :
    Text → Option ℕ → List (Next (Result (List ℕ) String)) → StreamWithCallback → List MonitorEvent
unfolding poll_events
stream_events url total [] self = []
stream_events url total (n ∷ ns) self =
    let next = poll_next n self in
    poll_events url total n next.1 ++ stream_events url total ns next.0

module _ (E : PercentEncoding) (U : UrlCrate) (C : HashMap CookieKey Cookie CookieKey-eq)
    (Q : Reqwest) where
  abbrev Backend : Type 0
  Backend = ReqwestBackend E U C Q

  -- A response whose body is streamed, with the events of the polls of the stream.
  pub record HttpStreamResponse : Type 0 where
    pub status : ℕ
    pub headers : List (Text × Text)
    pub stream : List (Next (Result (List ℕ) String))
    pub events : List MonitorEvent

  streamed : Text → Outcome Response → List MonitorEvent × Outcome HttpStreamResponse
  unfolding read_headers
  streamed url (refused e) = (event url failed ∷ [], refused e)
  streamed url panicked = ([], panicked)
  streamed url (done response) = (
    [],
    done (record {
      status = response.status;
      headers = read_headers response.headers;
      stream = response.stream;
      events = stream_events url response.content_length response.stream new_stream;
    }),
  )

  unfoldable pub execute_stream :
      ℕ → HttpEndpoint → Backend → Backend × List MonitorEvent × Outcome HttpStreamResponse
  unfolding streamed
  execute_stream now endpoint self =
      let next = do_execute E U C Q now endpoint self in
      let url = build_url E endpoint in
      let answer = streamed url next.1 in (next.0, event url started ∷ answer.0, answer.1)
