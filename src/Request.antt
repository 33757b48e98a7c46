-- ===== src/Request.antt =====
-- domain/models/coordinator_models.rs: identifiers, priorities, requests and their orders.
-- A `usize` is a natural number below 2 ^ 64, a `Duration` a number of nanoseconds, the text of an
-- error or of a payload is kept as it is. A float (`base`) is kept as its bits.
pub mod Order
use strawberry_background.Prelude.{
  ℕ, ◌≡◌, String, Bool, true, false, Option, none, some, List, compare, Ordering, Eq, ◌==◌, ◌↔◌, ap,
  String-eq, refl, is_none, ◌&&◌, if◌then◌else◌,
}

pub record Identifier : Type 0 where
  pub id : String

pub data Priority : Type 0 where
  top normal bottom : (order : Option ℕ) → Priority

-- `usize::MAX` on a 64-bit target.
abbrev pub usize_max : ℕ
usize_max = 18446744073709551615

pub variant_rank : Priority → ℕ
variant_rank (top _) = 2
variant_rank (normal _) = 1
variant_rank (bottom _) = 0

pub order : Priority → Option ℕ
order (top o) = o
order (normal o) = o
order (bottom o) = o

abbrev unwrap_or_max : Option ℕ → ℕ
unwrap_or_max none = usize_max
unwrap_or_max (some n) = n

unfoldable pub priority_cmp : Priority → Priority → Ordering
unfolding variant_rank order
priority_cmp self other = elim (compare (variant_rank self) (variant_rank other)) [
  | Ordering.eq ↦ compare (unwrap_or_max (order other)) (unwrap_or_max (order self))
  | other_ordering ↦ other_ordering
]

pub data RetryStrategy : Type 0 where
  retry_immediately : (max_retry : Option ℕ) → RetryStrategy
  retry_fixed : (max_retry : Option ℕ) (delay : ℕ) → RetryStrategy
  retry_exponential_backoff :
      (max_retry : Option ℕ) (initial : ℕ) (base : ℕ) (max_delay : ℕ) → RetryStrategy

pub data RejectStrategy : Type 0 where
  discard wait : RejectStrategy

pub data RunnerStatus : Type 0 where
  idle working busy : RunnerStatus

pub record Request : Type 0 where
  pub identifier : Identifier
  pub priority : Option Priority
  pub retry_strategy : Option RetryStrategy
  pub post_retry_strategy : Option RetryStrategy
  pub timeout : Option ℕ
  pub bytes : Option (List ℕ)

pub record RunnerConfiguration : Type 0 where
  pub identifier : Identifier
  pub accepted_categories : Option (List String)

pub record PostRunnerConfiguration : Type 0 where
  pub identifier : Identifier
  pub accepted_categories : Option (List String)

pub record QueueConfiguration : Type 0 where
  pub cycle_interval : Option ℕ
  pub max_request_count : Option ℕ
  pub reject_strategy : Option RejectStrategy
  pub wait_for_runner_timeout : Option ℕ
  pub wait_for_queue_not_empty_timeout : Option ℕ
  pub wait_for_queue_not_full_timeout : Option ℕ

pub record CoordinatorConfiguration : Type 0 where
  pub cycle_interval : Option ℕ
  pub queue_configuration : Option QueueConfiguration

pub record RunnerSnapshot : Type 0 where
  pub identifier : Identifier
  pub status : RunnerStatus

-- The errors that carry the text of another error keep it.
pub data RunnerError : Type 0 where
  error_forward : String → RunnerError

pub data RegistryError : Type 0 where
  cannot_find_runner_by_identifier cannot_find_post_runner_by_identifier :
      Identifier → RegistryError

pub data TimeoutError : Type 0 where
  timed_out : TimeoutError

-- `PartialEq for Identifier` is derived: the identifiers are compared as texts.
abbrev pub identifier_eq : Identifier → Identifier → Bool
identifier_eq a b = a.id == b.id

-- `PartialEq for Priority`
unfoldable pub priority_eq : Priority → Priority → Bool
unfolding priority_cmp
priority_eq self other = elim (priority_cmp self other) [ Ordering.eq ↦ true | _ ↦ false ]

-- `PartialEq for Request`
unfoldable pub request_eq : Request → Request → Bool
request_eq self other = identifier_eq self.identifier other.identifier

-- `Option`'s derived order, over that of the priorities.
unfoldable pub option_cmp : Option Priority → Option Priority → Ordering
unfolding priority_cmp
option_cmp none none = Ordering.eq
option_cmp none (some _) = Ordering.lt
option_cmp (some _) none = Ordering.gt
option_cmp (some a) (some b) = priority_cmp a b

-- `Ord for Request`
unfoldable pub request_cmp : Request → Request → Ordering
unfolding option_cmp
request_cmp self other =
    if is_none self.priority && is_none other.priority
    then Ordering.eq
    else if is_none self.priority
    then Ordering.lt
    else if is_none other.priority
    then Ordering.gt
    else option_cmp self.priority other.priority

pub identifier_eq_iff : (a b : Identifier) → (identifier_eq a b ≡ true) ↔ (a ≡ b)
identifier_eq_iff a b = (
  λ h. λ i. record { id = (String-eq.beq_iff a.id b.id).0 h i },
  λ e. (String-eq.beq_iff a.id b.id).1 (ap (λ (x : Identifier). x.id) e),
)

instance abbrev pub Identifier-eq : Eq Identifier
Identifier-eq = record { beq = identifier_eq; beq_iff = identifier_eq_iff }

-- `From<String>` and `Into<String>`
pub of_string : String → Identifier
of_string value = record { id = value }

pub into_string : Identifier → String
into_string self = self.id
