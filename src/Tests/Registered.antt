-- ===== src/Tests/Registered.antt =====
-- The registry and the discover.
use strawberry_background.Prelude.{
  String, ◌≡◌, false, ◌||◌, ◌&&◌, none, some, [], ◌∷◌, ◌==◌, Nat-eq, ok, err, is_ok, if◌then◌else◌,
  String-eq,
}
use strawberry_background.Prelude.Map.Assoc.{assoc}
use strawberry_background.Request.{Identifier-eq, working, busy, error_forward}
use strawberry_background.Registry.{
  RunnerRegistry, new, put_runner, put_post_runners, find_runner_by_identifier,
}
use strawberry_background.Registry.Registration.{is_ok-find-put_runner}
use strawberry_background.Registry.Selecting.{find_post_runners_by_categories}
use strawberry_background.Registry.Selecting.Exact.{
  Selects, find_post_runners_by_categories-Selects,
}
use strawberry_background.Discover.{
  DefaultRunnerDiscover, CycleSnapshot, set_flags, set_all, read, note_snapshots, nothing_seen,
}
use strawberry_background.Discover.Searching.{select}
use strawberry_background.Discover
use strawberry_background.Discover.Selecting.{Selected, select-Selected}
use strawberry_background.Discover.Flags.{note_snapshots-flags, any, forces, lists, frees}
use strawberry_background.Tests.{maps, channel_maps, named, fetcher, worker, saver, nine}

-- A registry with the two runners and the post runner.
abbrev registry : RunnerRegistry maps
registry =
    put_post_runners maps nine saver
      (put_runner maps nine worker (put_runner maps nine fetcher (new maps)))

is_ok-find-put_runner_example :
    is_ok
      (find_runner_by_identifier maps (named "fetcher") (put_runner maps nine fetcher (new maps)))
    ≡ (fetcher.identifier == named "fetcher"
        || is_ok (find_runner_by_identifier maps (named "fetcher") (new maps)))
is_ok-find-put_runner_example = is_ok-find-put_runner maps nine fetcher (new maps) (named "fetcher")

find_post_runners_by_categories-Selects_example :
    Selects maps
      ("text" ∷ "image" ∷ [])
      registry
      (find_post_runners_by_categories maps ("text" ∷ "image" ∷ []) registry)
find_post_runners_by_categories-Selects_example =
    find_post_runners_by_categories-Selects maps ("text" ∷ "image" ∷ []) registry

abbrev snapshot : CycleSnapshot
snapshot =
    err (error_forward "lost")
    ∷ ok (record { identifier = named "worker"; status = busy })
    ∷ ok (record { identifier = named "fetcher"; status = working })
    ∷ []

select-Selected_example :
    Selected maps channel_maps registry "image" snapshot
      (select maps channel_maps registry "image" snapshot)
select-Selected_example = select-Selected maps channel_maps registry "image" snapshot

note_snapshots-flags_example :
    ((note_snapshots maps channel_maps registry snapshot
        (nothing_seen maps channel_maps)).force_has_available
      ≡ any (forces maps channel_maps registry) snapshot)
    × ((c : String)
        → any (forces maps channel_maps registry) snapshot ≡ false
        → assoc.get c
            (note_snapshots maps channel_maps registry snapshot
              (nothing_seen maps channel_maps)).all_is_available_map
          ≡ (if any (lists maps channel_maps registry c) snapshot
              then some (any (λ x. lists maps channel_maps registry c x && frees x) snapshot)
              else none))
note_snapshots-flags_example = note_snapshots-flags maps channel_maps registry snapshot

-- "text" and "image" share the waiter 0; another runner takes "image" and is free.
abbrev channels : channel_maps.by_category.Map
channels = assoc.insert "text" 0 (assoc.insert "image" 0 assoc.empty)
