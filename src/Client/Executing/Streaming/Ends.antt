-- ===== src/Client/Executing/Streaming/Ends.antt =====
-- What the monitor hears of a streamed response.
use strawberry_background.Prelude.{
  ℕ, ◌+◌, String, Bool, true, false, ◌≡◌, refl, ap₂, ◌∙◌, Option, none, some, List, [], ◌∷◌, ◌++◌,
  Result, ok, err, if◌then◌else◌, arith,
}
use strawberry_background.Prelude.Text.{Text}
use strawberry_background.Storage.{EventStage, started, running, finished, failed}
use strawberry_background.Monitor.{MonitorEvent, http, storage}
use strawberry_background.Progress.{
  Next, item, end, waiting, StreamWithCallback, poll_next, new_stream, calls,
}
use strawberry_background.Progress.Sums.{has_end, calls-new_stream}
use strawberry_background.Client.Executing.{running_event, event}
use strawberry_background.Client.Executing.Streaming.{stream_events, poll_events, piece_event}

abbrev is_finished : EventStage → ℕ
is_finished finished = 1
is_finished started = 0
is_finished running = 0
is_finished failed = 0

abbrev of_event : MonitorEvent → ℕ
of_event (http stage url data') = is_finished stage
of_event (storage stage path data') = 0

-- How often the end of a response was told.
abbrev pub finished_count : List MonitorEvent → ℕ
finished_count [] = 0
finished_count (e ∷ es) = of_event e + finished_count es

finished_count-append :
    (xs ys : List MonitorEvent) → finished_count (xs ++ ys) ≡ finished_count xs + finished_count ys
finished_count-append [] ys = omega arith
finished_count-append (x ∷ xs) ys = omega (arith, finished_count-append xs ys)

piece_event-finished :
    (url : Text) (total : Option ℕ) (piece : Result (List ℕ) String)
    → finished_count (piece_event url total piece) ≡ 0
unfolding piece_event running_event
piece_event-finished url none piece = refl
piece_event-finished url (some n) (err e) = refl
piece_event-finished url (some n) (ok bytes) = refl

poll_events-finished :
    (url : Text) (total : Option ℕ) (n : Next (Result (List ℕ) String)) (self : StreamWithCallback)
    → finished_count (poll_events url total n (poll_next n self).1)
      ≡ (if (poll_next n self).1 then 1 else 0)
unfolding poll_events poll_next
poll_events-finished url total (item piece) self = piece_event-finished url total piece
poll_events-finished url total end self = told (poll_next {A = Result (List ℕ) String} end self).1
  where
    told :
        (b : Bool)
        → finished_count (if b then event url finished ∷ [] else []) ≡ (if b then 1 else 0)
    told true = refl
    told false = refl
poll_events-finished url total waiting self = refl

stream_events-calls :
    (url : Text) (total : Option ℕ) (ns : List (Next (Result (List ℕ) String)))
    (self : StreamWithCallback)
    → finished_count (stream_events url total ns self) ≡ calls ns self
unfolding stream_events calls
stream_events-calls url total [] self = refl
stream_events-calls url total (n ∷ ns) self =
    finished_count-append (poll_events url total n (poll_next n self).1)
      (stream_events url total ns (poll_next n self).0)
    ∙ ap₂ (λ x y. x + y) (poll_events-finished url total n self)
        (stream_events-calls url total ns (poll_next n self).0)

-- However often a streamed response is polled, its end is told to the monitor once when the stream has
-- ended in one of the polls, and else not at all, errors in the pieces or not.
pub stream_events-finished :
    (url : Text) (total : Option ℕ) (ns : List (Next (Result (List ℕ) String)))
    → finished_count (stream_events url total ns new_stream) ≡ (if has_end ns then 1 else 0)
stream_events-finished url total ns =
    stream_events-calls url total ns new_stream ∙ calls-new_stream ns
