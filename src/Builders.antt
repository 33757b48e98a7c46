-- ===== src/Builders.antt =====
-- superstructure/coordinator/builder.rs: what the builders of the coordinator make. A setter of the
-- macro fills a field, which `build` takes out.
use strawberry_background.Prelude.{ℕ, String, Option, none, some, List, unwrap_or}
use strawberry_background.Request.{
  Identifier, Priority, RetryStrategy, RejectStrategy, Request, RunnerConfiguration,
  QueueConfiguration, CoordinatorConfiguration,
}
use strawberry_background.Runner.Status.{BaseRunner, new_runner}

pub record QueueConfigurationBuilder : Type 0 where
  pub cycle_interval : Option ℕ
  pub max_request_count : Option ℕ
  pub reject_strategy : Option RejectStrategy
  pub wait_for_runner_timeout : Option ℕ
  pub wait_for_queue_not_empty_timeout : Option ℕ
  pub wait_for_queue_not_full_timeout : Option ℕ

pub record CoordinatorConfigurationBuilder : Type 0 where
  pub cycle_interval : Option ℕ
  pub queue_configuration_builder : Option QueueConfigurationBuilder

pub record RunnerConfigurationBuilder : Type 0 where
  pub identifier : Identifier
  pub accepted_categories : Option (List String)

pub record RequestBuilder : Type 0 where
  pub identifier : Identifier
  pub priority : Option Priority
  pub retry_strategy : Option RetryStrategy
  pub post_retry_strategy : Option RetryStrategy
  pub timeout : Option ℕ
  pub bytes : Option (List ℕ)

pub record BaseRunnerBuilder : Type 0 where
  pub identifier : Identifier
  pub configuration_builder : RunnerConfigurationBuilder
  pub max_concurrency_count : Option ℕ

pub build_queue_configuration : QueueConfigurationBuilder → QueueConfiguration
build_queue_configuration self = record {
  cycle_interval = self.cycle_interval;
  max_request_count = self.max_request_count;
  reject_strategy = self.reject_strategy;
  wait_for_runner_timeout = self.wait_for_runner_timeout;
  wait_for_queue_not_empty_timeout = self.wait_for_queue_not_empty_timeout;
  wait_for_queue_not_full_timeout = self.wait_for_queue_not_full_timeout;
}

into_configuration : Option QueueConfigurationBuilder → Option QueueConfiguration
into_configuration none = none
into_configuration (some builder) = some (build_queue_configuration builder)

pub build_coordinator_configuration : CoordinatorConfigurationBuilder → CoordinatorConfiguration
unfolding into_configuration
build_coordinator_configuration self = record {
  cycle_interval = self.cycle_interval;
  queue_configuration = into_configuration self.queue_configuration_builder;
}

pub build_runner_configuration : RunnerConfigurationBuilder → RunnerConfiguration
build_runner_configuration self = record {
  identifier = self.identifier;
  accepted_categories = self.accepted_categories;
}

pub build_request : RequestBuilder → Request
build_request self = record {
  identifier = self.identifier;
  priority = self.priority;
  retry_strategy = self.retry_strategy;
  post_retry_strategy = self.post_retry_strategy;
  timeout = self.timeout;
  bytes = self.bytes;
}

-- One request at a time, if nothing else is said.
unfoldable pub build_runner : BaseRunnerBuilder → BaseRunner
unfolding build_runner_configuration
build_runner self =
    new_runner self.identifier (build_runner_configuration self.configuration_builder)
      (unwrap_or self.max_concurrency_count 1)
