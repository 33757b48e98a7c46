-- ===== src/Progress.antt =====
-- utils/progress_reader.rs and utils/stream_with_callback.rs: wrappers that report what is read. What
-- the inner reader or stream answers to each poll is given; the calls of a callback are collected.
pub mod Sums
use strawberry_background.Prelude.{
  ℕ, ◌+◌, ◌%◌, ◌^◌, String, Bool, true, false, not, Option, none, some, List, [], ◌∷◌, ◌++◌, ltb,
  length, if◌then◌else◌, concat, Result, ok, err, is_none,
}

-- The arguments of one call of the callback: what is read so far, the total, and what is new.
abbrev pub Report : Type 0
Report = ℕ × ℕ × ℕ

-- A reader with its counters, `u64`; both wrappers have these.
pub record Counters : Type 0 where
  pub total : ℕ
  pub read : ℕ

abbrev counted : ℕ → Counters → Counters
counted delta self = record self { read = (self.read + delta) % 2 ^ 64 }

-- `AsyncProgressReader`: a poll that is ready with bytes, that fails, or that is pending.
pub data Polled : Type 0 where
  ready : List ℕ → Polled
  failed : String → Polled
  pending : Polled

unfoldable pub new : ℕ → Counters
new total = record { total = total; read = 0 }

unfoldable pub poll_read : Polled → Counters → Counters × List Report
poll_read (ready bytes) self =
    let after = counted (length bytes) self in
    (after, if ltb 0 self.total then (after.read, self.total, length bytes) ∷ [] else [])
poll_read (failed e) self = (self, [])
poll_read pending self = (self, [])

-- `ProgressReader` reports whatever the total is.
pub read_blocking :
    Result (List ℕ) String → Counters → Counters × List Report × Result (List ℕ) String
read_blocking (err e) self = (self, [], err e)
read_blocking (ok bytes) self =
    let after = counted (length bytes) self in
    (after, (after.read, self.total, length bytes) ∷ [], ok bytes)

-- The polls that a reader makes, one after another.
unfoldable pub poll_all : List Polled → Counters → Counters × List Report
poll_all [] self = (self, [])
poll_all (p ∷ polls) self =
    let next = poll_read p self in let rest = poll_all polls next.0 in (rest.0, next.1 ++ rest.1)

-- `StreamWithCallback`: whether its callback is still there, and whether it was called.
pub record StreamWithCallback : Type 0 where
  pub callback : Bool
  pub called : Bool

-- What the inner stream answers.
pub data Next (A : Type 0) : Type 0 where
  item : A → Next A
  end : Next A
  waiting : Next A

unfoldable pub new_stream : StreamWithCallback
new_stream = record { callback = true; called = false }

abbrev take_callback : StreamWithCallback → StreamWithCallback × Bool
take_callback self =
    if self.called
    then (self, false)
    else (record { callback = false; called = true }, self.callback)

-- The stream after a poll, and whether the callback is called in it.
unfoldable pub poll_next : {A : Type 0} → Next A → StreamWithCallback → StreamWithCallback × Bool
poll_next (item a) self = (self, false)
poll_next end self = take_callback self
poll_next waiting self = (self, false)

unfoldable pub calls : {A : Type 0} → List (Next A) → StreamWithCallback → ℕ
calls [] self = 0
calls (n ∷ ns) self = let next = poll_next n self in (if next.1 then 1 else 0) + calls ns next.0
