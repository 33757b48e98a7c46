-- ===== src/Cache/Factory.antt =====
-- file_cache_backend.rs, `SingletonFileCacheManagerFactory`: one manager for each name. A manager is
-- its allocation; the function that makes one is the caller's.
pub mod Singleton
use strawberry_background.Prelude.{ℕ, String, String-eq, Option, none, some, Result, ok, err}
use strawberry_background.Prelude.Map.{HashMap}
use strawberry_background.Cache.{Tables, CacheChannel, CacheError, manager_not_exist}
use strawberry_background.Cache.Channel.{create_channel}

module _ (T : Tables) (N : HashMap String ℕ String-eq) (creator : CacheChannel → ℕ) where
  open T use {channels as SM}

  made : CacheChannel → Option ℕ → N.Map → N.Map × ℕ
  made channel (some manager) managers = (managers, manager)
  made channel none managers = (N.insert channel.name (creator channel) managers, creator channel)

  unfoldable pub create_with_channel : CacheChannel → N.Map → N.Map × ℕ
  unfolding made
  create_with_channel channel managers = made channel (N.get channel.name managers) managers

  create_from : Result CacheChannel CacheError → N.Map → N.Map × Result ℕ CacheError
  unfolding create_with_channel
  create_from (err e) managers = (managers, err e)
  create_from (ok channel) managers = let r = create_with_channel channel managers in (r.0, ok r.1)

  found_or_created :
      Option ℕ
      → Option String
      → String
      → Option String
      → SM.Map
      → N.Map
      → N.Map × Result ℕ CacheError
  unfolding create_from
  found_or_created (some manager) fault name extension store managers = (managers, ok manager)
  found_or_created none fault name extension store managers =
      create_from (create_channel T fault name extension store) managers

  -- `fault` is what the store answers to the read of the channel.
  unfoldable pub create_with_name :
      Option String → String → Option String → SM.Map → N.Map → N.Map × Result ℕ CacheError
  unfolding found_or_created
  create_with_name fault name extension store managers =
      found_or_created (N.get name managers) fault name extension store managers

  found : String → Option ℕ → Result ℕ CacheError
  found name none = err (manager_not_exist name)
  found name (some manager) = ok manager

  unfoldable pub get_with_name : String → N.Map → Result ℕ CacheError
  unfolding found
  get_with_name name managers = found name (N.get name managers)
