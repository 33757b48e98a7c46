-- ===== src/Client/Executing/Panics.antt =====
-- Which calls of the http client panic.
use strawberry_background.Prelude.{
  ℕ, String, Bool, true, false, ◌≡◌, ◌≢◌, ◌↔◌, refl, ap, sym, ◌∙◌, Option, none, some, List, Result,
  ok, err,
}
use strawberry_background.Prelude.Text.{Text}
use strawberry_background.Prelude.Map.{HashMap}
use strawberry_background.Url.{PercentEncoding, UrlCrate}
use strawberry_background.Endpoint.{HttpEndpoint, build_url, HttpResponse}
use strawberry_background.Cookie.{CookieKey, Cookie, CookieKey-eq}
use strawberry_background.Progress.{Polled}
use strawberry_background.Monitor.{MonitorEvent}
use strawberry_background.Client.{
  Provider, Outcome, done, refused, panicked, Draft, Response, Answer, responded, timed_out,
  unreachable, Reqwest, ReqwestBackend,
}
use strawberry_background.Client.Executing.{
  and_then, request_of, answered, sent, do_execute, body_read, decrypt_body, completed,
  responded_with, execute, read_headers,
}
use strawberry_background.Client.Executing.Safety.{of_result-safe, do_execute-safe}

module _ (E : PercentEncoding) (U : UrlCrate) (C : HashMap CookieKey Cookie CookieKey-eq)
    (Q : Reqwest) where
  abbrev Backend : Type 0
  Backend = ReqwestBackend E U C Q

  -- The body of a response came whole.
  abbrev pub IsReceived : Outcome Response → Type 0
  IsReceived o = (r : Response) × (body : List ℕ) × (o ≡ done r) × (r.received ≡ ok body)

  decrypt_body-panics :
      (required : Bool) (body : List ℕ) (provider : Option Provider)
      → (decrypt_body E U C Q required body provider ≡ panicked)
        ↔ ((required ≡ true) × (provider ≡ none))
  unfolding decrypt_body
  decrypt_body-panics false body provider = (λ e. cc e, λ e. cc e.0)
  decrypt_body-panics true body none = (λ e. (refl, refl), λ e. refl)
  decrypt_body-panics true body (some provider) =
      (λ e. absurd (of_result-safe E U C Q (provider body) e), λ e. cc e.1)

  response_of : Response → List ℕ → HttpResponse
  response_of response bytes = record {
    status = response.status;
    headers = read_headers response.headers;
    body = bytes;
  }

  and_then-panics :
      (response : Response) (o : Outcome (List ℕ))
      → (and_then o (λ bytes. done (response_of response bytes)) ≡ panicked) ↔ (o ≡ panicked)
  and_then-panics response (done a) = (λ e. cc e, λ e. cc e)
  and_then-panics response (refused x) = (λ e. cc e, λ e. cc e)
  and_then-panics response panicked = (λ e. refl, λ e. refl)

  completed-panics :
      (url : Text) (required : Bool) (response : Response) (events : List MonitorEvent)
      (r : Result (List ℕ) String) (self : Backend)
      → ((completed E U C Q url required response (events, r) self).1 ≡ panicked) ↔ (
          (required ≡ true) × (self.decryption_provider ≡ none) × ((body : List ℕ) × (r ≡ ok body)))
  unfolding completed response_of
  completed-panics url required response events (err x) self = (λ e. cc e, λ e. cc e.2.1)
  completed-panics url required response events (ok body) self = (
    λ e.
        let back = (decrypt_body-panics required body self.decryption_provider).0 (
          (and_then-panics response (decrypt_body E U C Q required body self.decryption_provider)).0
            e) in
        (back.0, back.1, (body, refl)),
    λ e.
        (and_then-panics response (decrypt_body E U C Q required body self.decryption_provider)).1
          ((decrypt_body-panics required body self.decryption_provider).1 (e.0, e.1)),
  )

  body_read-received :
      (url : Text) (total : Option ℕ) (polls : List Polled) (r : Result (List ℕ) String)
      → (body_read E U C Q url total polls r).1 ≡ r
  unfolding body_read
  body_read-received url none polls (ok body) = refl
  body_read-received url none polls (err e) = refl
  body_read-received url (some n) polls (ok body) = refl
  body_read-received url (some n) polls (err e) = refl

  abbrev received_of : Outcome Response → Result (List ℕ) String
  received_of (done r) = r.received
  received_of (refused e) = err "refused"
  received_of panicked = err "panicked"

  responded_with-panics :
      (url : Text) (required : Bool) (o : Outcome Response) (self : Backend)
      → o ≢ panicked
      → ((responded_with E U C Q url required o self).1 ≡ panicked)
        ↔ ((required ≡ true) × (self.decryption_provider ≡ none) × IsReceived o)
  unfolding responded_with
  responded_with-panics url required panicked self h = absurd (h refl)
  responded_with-panics url required (refused x) self h = (λ e. cc e, λ e. cc e.2.2)
  responded_with-panics url required (done response) self h = (
    λ e.
        let (q, p, (b, r)) =
          (whole (body_read E U C Q url response.content_length response.polls response.received)).0
            e in
        (
          q,
          p,
          (
            response,
            b,
            refl,
            sym (body_read-received url response.content_length response.polls response.received)
                ∙ r,
          ),
        ),
    λ e.
        let (q, p, (other, b, same, r)) = e in
        (whole (body_read E U C Q url response.content_length response.polls response.received)).1 (
          q,
          p,
          (
            b,
            body_read-received url response.content_length response.polls response.received
                ∙ moved response other b same r,
          ),
        ),
  )
    where
      whole :
          (p : List MonitorEvent × Result (List ℕ) String)
          → ((completed E U C Q url required response p self).1 ≡ panicked) ↔ (
              (required ≡ true)
              × (self.decryption_provider ≡ none)
              × ((body : List ℕ) × (p.1 ≡ ok body)))
      whole p = completed-panics url required response p.0 p.1 self

      moved :
          (response other : Response) (b : List ℕ)
          → done response ≡ done other
          → other.received ≡ ok b
          → response.received ≡ ok b
      moved response other b same r = ap received_of same ∙ r

  answered-provider :
      (now limit : ℕ) (a : Answer) (self : Backend)
      → (answered E U C Q now limit a self).0.decryption_provider ≡ self.decryption_provider
  unfolding answered
  answered-provider now limit (responded response) self = refl
  answered-provider now limit timed_out self = refl
  answered-provider now limit (unreachable e) self = refl

  sent-provider :
      (now limit : ℕ) (o : Outcome Draft) (self : Backend)
      → (sent E U C Q now limit o self).0.decryption_provider ≡ self.decryption_provider
  unfolding sent
  sent-provider now limit (done request) self = answered-provider now limit (Q.execute request) self
  sent-provider now limit (refused e) self = refl
  sent-provider now limit panicked self = refl

  -- `execute` panics in one case, and there it does: the endpoint requires decryption, there is no
  -- provider for it, and a response came with its whole body. The first test lets this pass for an
  -- endpoint without a body.
  pub execute-panics :
      (now : ℕ) (endpoint : HttpEndpoint) (self : Backend)
      → ((execute E U C Q now endpoint self).2 ≡ panicked) ↔ (
          (endpoint.requires_decryption ≡ true)
          × (self.decryption_provider ≡ none)
          × IsReceived (do_execute E U C Q now endpoint self).1)
  unfolding execute do_execute
  execute-panics now endpoint self =
      let next = do_execute E U C Q now endpoint self in
      let same = sent-provider now endpoint.timeout (request_of E U C Q now endpoint self) self in
      let (to, from) =
        responded_with-panics (build_url E endpoint) endpoint.requires_decryption next.1 next.0
          (do_execute-safe E U C Q now endpoint self) in
      (λ e. let (q, p, r) = to e in (q, sym same ∙ p, r), λ h. from (h.0, same ∙ h.1, h.2))
