-- ===== src/Tests.antt =====
-- Concrete runners, requests and maps, and the theorems at them.
mod Ordered
mod Registered
mod Running
mod Served
mod Cached
mod Libraries
mod Web
mod Cookies
mod Services
mod Stores
use mathlib.Core.List.{Permᴰ}
use strawberry_background.Prelude.{
  ℕ, String, Bool, true, false, Option, none, some, List, [], ◌∷◌, Result, ok, err, String-eq,
}
use strawberry_background.Prelude.Map.{HashMap}
use strawberry_background.Prelude.Map.Assoc.{assoc}
use strawberry_background.Request.{
  Identifier, Identifier-eq, Request, Priority, top, normal, bottom, request_cmp,
  RunnerConfiguration, PostRunnerConfiguration, RunnerSnapshot, idle, working, busy, RunnerError,
  error_forward, RetryStrategy, retry_fixed, retry_exponential_backoff,
}
use strawberry_background.Request.Order.{request_cmp-reverse, request_cmp_trans}
use strawberry_background.BlockingHeap.{BinaryHeap, BlockingHeap}
use strawberry_background.BlockingHeap.Selection.{list_heap}
use strawberry_background.Registry.{Maps, Runner, PostRunner, RunnerRegistry}
use strawberry_background.Discover.{ChannelMaps, DefaultRunnerDiscover, CycleSnapshot}

abbrev pub maps : Maps
maps = record { of_runners = assoc; of_post_runners = assoc; sets = assoc }

abbrev pub channel_maps : ChannelMaps
channel_maps = record { by_identifier = assoc; by_category = assoc; flags = assoc }

abbrev pub listener_maps : HashMap Identifier ℕ Identifier-eq
listener_maps = assoc

abbrev pub heap : BinaryHeap request_cmp
heap = list_heap request_cmp request_cmp-reverse request_cmp_trans

abbrev pub named : String → Identifier
named text = record { id = text }

abbrev pub asks : String → Option Priority → Option RetryStrategy → Request
asks text priority strategy = record {
  identifier = named text;
  priority = priority;
  retry_strategy = strategy;
  post_retry_strategy = none;
  timeout = none;
  bytes = none;
}

abbrev pub urgent : Request
urgent = asks "urgent" (some (top (some 1))) (some (retry_fixed (some 2) 5))

abbrev pub plain : Request
plain = asks "plain" none none

abbrev pub backing_off : Request
backing_off =
    asks "backing off" (some (normal none))
      (some (retry_exponential_backoff (some 3) 100 1073741824 1000))

abbrev pub runner_of : ℕ → String → Option (List String) → Runner
runner_of address text categories = record {
  address = address;
  identifier = named text;
  configuration = record { identifier = named text; accepted_categories = categories };
}

abbrev pub post_runner_of : ℕ → String → Option (List String) → PostRunner
post_runner_of address text categories = record {
  address = address;
  identifier = named text;
  configuration = record { identifier = named text; accepted_categories = categories };
}

abbrev pub fetcher : Runner
fetcher = runner_of 1 "fetcher" (some ("image" ∷ "text" ∷ []))

abbrev pub worker : Runner
worker = runner_of 2 "worker" none

abbrev pub saver : PostRunner
saver = post_runner_of 3 "saver" (some ("image" ∷ []))

-- A hasher, by the length of nothing: every identifier has the hash 9.
abbrev pub nine : Identifier → ℕ
nine i = 9
