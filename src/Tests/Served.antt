-- ===== src/Tests/Served.antt =====
-- The queue, the coordinator and the watcher.
use strawberry_background.Prelude.{
  ℕ, String, ◌≡◌, refl, true, none, some, List, [], ◌∷◌, Result, ok, In, inl,
}
use strawberry_background.Request.{
  Request, RunnerSnapshot, idle, RunnerError, QueueConfiguration, wait,
}
use strawberry_background.BlockingHeap.{Wakeup}
use strawberry_background.Registry.{
  Runner, RunnerRegistry, new, put_runner, put_post_runners, all_runners, find_runner_by_identifier,
}
use strawberry_background.Discover.{DefaultRunnerDiscover}
use strawberry_background.Discover.Searching.{Meanwhile, select}
use strawberry_background.Queue.{DefaultQueuer, put, cycle_once}
use strawberry_background.Queue.Putting.{PutMeans, put-PutMeans}
use strawberry_background.Queue.Cycling.{CycleMeans, cycle_once-CycleMeans}
use strawberry_background.Coordinator.{cycle_snapshot}
use strawberry_background.Coordinator.Assigning.{Ready, select-Ready}
use strawberry_background.Listening.{DefaultRunnerWatcher, on_success, post, on_result}
use strawberry_background.Listening.Telling.{Reports, on_result-Reports}
use strawberry_background.Tests.{
  maps, channel_maps, listener_maps, heap, named, urgent, plain, fetcher, saver, nine,
}

abbrev registry : RunnerRegistry maps
registry = put_post_runners maps nine saver (put_runner maps nine fetcher (new maps))

abbrev queue_configuration : QueueConfiguration
queue_configuration = record {
  cycle_interval = none;
  max_request_count = some 1;
  reject_strategy = some wait;
  wait_for_runner_timeout = none;
  wait_for_queue_not_empty_timeout = none;
  wait_for_queue_not_full_timeout = some 7;
}

abbrev queuer : DefaultQueuer heap
queuer = record {
  configuration = some queue_configuration;
  queue = record { inner = plain ∷ []; capacity = 1 };
}

-- The wait for room times out, and the queue is as it was.
abbrev timing_out : ℕ → List (Wakeup heap)
timing_out timeout = record { heap = plain ∷ []; timed_out = true } ∷ []

put-PutMeans_example :
    PutMeans heap urgent queuer (timing_out 7) (put heap urgent timing_out queuer)
put-PutMeans_example = put-PutMeans heap urgent timing_out queuer

abbrev all_images : Request → Result String String
all_images request = ok "image"

abbrev takes_it : Runner → Request → Result (Unit {0}) RunnerError
takes_it runner request = ok tt

-- The discover of a registry whose runner is free.
abbrev quiet : Meanwhile maps channel_maps
quiet = record { others = λ d. d; waiter_turns = []; snapshot_turns = [] }

abbrev discover : DefaultRunnerDiscover maps channel_maps
discover = record {
  snapshot_waiter = some (ok (record { identifier = named "fetcher"; status = idle }) ∷ []);
  runner_notification_channels =
      channel_maps.by_identifier.insert (named "fetcher") 0 channel_maps.by_identifier.empty;
  category_notification_channels =
      channel_maps.by_category.insert "image" 0 channel_maps.by_category.empty;
  cached_runners_hash = 0;
  waiters = true ∷ [];
}

cycle_once-CycleMeans_example :
    CycleMeans heap maps channel_maps all_images takes_it registry quiet discover queuer
      (timing_out 1000000000)
      (cycle_once heap maps channel_maps all_images takes_it registry timing_out quiet discover
        queuer)
cycle_once-CycleMeans_example =
    cycle_once-CycleMeans heap maps channel_maps all_images takes_it registry timing_out quiet
      discover queuer

abbrev says_idle : Runner → Result RunnerSnapshot RunnerError
says_idle r = ok (record { identifier = r.identifier; status = idle })

says_own_name : (r : Runner) (s : RunnerSnapshot) → says_idle r ≡ ok s → s.identifier ≡ r.identifier
says_own_name r s e = cc e

fetcher_listed : In fetcher (all_runners maps registry)
unfolding all_runners new put_runner put_post_runners find_runner_by_identifier
fetcher_listed = inl refl

fetcher-Ready : Ready heap maps channel_maps says_idle says_own_name registry "image" fetcher
fetcher-Ready =
    (fetcher_listed, record { identifier = named "fetcher"; status = idle }, refl, refl, refl)

select-Ready_example :
    (q : Runner) × Ready heap maps channel_maps says_idle says_own_name registry "image" q
    × (select maps channel_maps registry "image"
          (cycle_snapshot heap maps channel_maps says_idle registry)
        ≡ ok q.identifier)
select-Ready_example =
    select-Ready heap maps channel_maps says_idle says_own_name registry "image" fetcher
      fetcher-Ready

abbrev watcher : DefaultRunnerWatcher listener_maps
watcher = record {
  runner = fetcher;
  identifier = named "urgent";
  listeners = listener_maps.insert (named "screen") 5 listener_maps.empty;
}

on_result-Reports_example :
    Reports listener_maps maps watcher registry
      (on_success (named "urgent"))
      (post (1 ∷ 2 ∷ []))
      (on_result listener_maps maps (some (1 ∷ 2 ∷ [])) registry watcher)
on_result-Reports_example = on_result-Reports listener_maps maps (1 ∷ 2 ∷ []) registry watcher
