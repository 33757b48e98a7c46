-- ===== src/Listening.antt =====
-- coordinator.rs, `DefaultProgressListenerManager` and `DefaultRunnerWatcher`: who is told what
-- becomes of a request. A listener is its allocation; what a call tells whom, in
-- order, is its result.
pub mod Telling
use strawberry_background.Prelude.{
  ℕ, String, Bool, true, false, Option, none, some, List, [], ◌∷◌, map, is_empty, if◌then◌else◌,
  unwrap_or,
}
use strawberry_background.Prelude.Map.{HashMap, values}
use strawberry_background.Request.{Identifier, Identifier-eq, RunnerError}
use strawberry_background.Registry.{
  Maps, Runner, PostRunner, RunnerRegistry, all_post_runners, categories_of,
}
use strawberry_background.Registry.Selecting.{find_post_runners_by_categories}

-- The calls of `ProgressListener`.
pub data Notice : Type 0 where
  on_success : Identifier → Notice
  on_fail : Identifier → RunnerError → Notice
  on_progress : Identifier → ℕ → Option ℕ → Notice

-- The calls of `PostRunner`.
pub data Posted : Type 0 where
  post : List ℕ → Posted
  post_err : RunnerError → Posted

-- What one call tells the listeners, and then the post runners.
pub record Told : Type 0 where
  pub notices : List (ℕ × Notice)
  pub posts : List (PostRunner × Posted)

module _ (L : HashMap Identifier ℕ Identifier-eq) where
  pub new_manager : L.Map
  new_manager = L.empty

  pub add_listener : Identifier → ℕ → L.Map → L.Map
  add_listener identifier listener listeners = L.insert identifier listener listeners

  pub remove_listener : Identifier → L.Map → L.Map
  remove_listener identifier listeners = L.remove identifier listeners

  abbrev pub tell : Notice → L.Map → List (ℕ × Notice)
  tell notice listeners = map (λ listener. (listener, notice)) (values L listeners)

  unfoldable pub notify_success : Identifier → L.Map → List (ℕ × Notice)
  notify_success identifier listeners = tell (on_success identifier) listeners

  unfoldable pub notify_fail : Identifier → RunnerError → L.Map → List (ℕ × Notice)
  notify_fail identifier e listeners = tell (on_fail identifier e) listeners

  unfoldable pub notify_progress : Identifier → ℕ → Option ℕ → L.Map → List (ℕ × Notice)
  notify_progress identifier value total listeners =
      tell (on_progress identifier value total) listeners

  pub record DefaultRunnerWatcher : Type 0 where
    pub runner : Runner
    pub identifier : Identifier
    pub listeners : L.Map

  module _ (M : Maps) where
    -- The post runners that hear of the outcome of a request.
    pub addressees : List String → RunnerRegistry M → List PostRunner
    addressees accepted registry =
        if is_empty accepted
        then all_post_runners M registry
        else unwrap_or (find_post_runners_by_categories M accepted registry) []

    abbrev pub posts_to : Posted → List PostRunner → List (PostRunner × Posted)
    posts_to call rs = map (λ r. (r, call)) rs

    unfoldable pub on_result : Option (List ℕ) → RunnerRegistry M → DefaultRunnerWatcher → Told
    unfolding addressees notify_success
    on_result none registry self = record {
      notices = notify_success self.identifier self.listeners;
      posts = [];
    }
    on_result (some bytes) registry self = record {
      notices = notify_success self.identifier self.listeners;
      posts = posts_to (post bytes) (addressees (categories_of self.runner) registry);
    }

    unfoldable pub on_error : RunnerError → RunnerRegistry M → DefaultRunnerWatcher → Told
    unfolding addressees notify_fail
    on_error e registry self = record {
      notices = notify_fail self.identifier e self.listeners;
      posts = posts_to (post_err e) (addressees (categories_of self.runner) registry);
    }

    unfoldable pub on_progress_of : ℕ → Option ℕ → RunnerRegistry M → DefaultRunnerWatcher → Told
    unfolding notify_progress
    on_progress_of value total registry self = record {
      notices = notify_progress self.identifier value total self.listeners;
      posts = [];
    }
