-- ===== src/Request/Order.antt =====
-- The order in which the queue serves requests, against a description by one number.
use strawberry_background.Prelude.{
  ℕ, ◌≡◌, refl, ◌≤◌, ◌+◌, ◌-◌, ◌≢◌, true, false, Option, none, some, Ordering, arith, compare, sym,
  ◌∙◌, reverse, ==_ne, ==_refl,
}
use strawberry_background.Request.{
  Priority, top, normal, bottom, Request, Identifier, priority_cmp, request_cmp, request_eq,
  usize_max, option_cmp, Identifier-eq,
}

-- The order number counts down from `usize::MAX`, a missing one is the least urgent.
abbrev countdown : Option ℕ → ℕ
countdown none = 0
countdown (some n) = usize_max - n

-- Bottom, Normal and Top occupy three bands of 2 ^ 64 numbers; no priority lies below them.
abbrev pub urgency : Option Priority → ℕ
urgency none = 0
urgency (some (bottom o)) = 1 + countdown o
urgency (some (normal o)) = 18446744073709551617 + countdown o
urgency (some (top o)) = 36893488147419103233 + countdown o

abbrev pub IsUsize : Option ℕ → Type 0
IsUsize none = Unit {0}
IsUsize (some n) = n ≤ usize_max

abbrev pub IsWord : Option Priority → Type 0
IsWord none = Unit {0}
IsWord (some (top o)) = IsUsize o
IsWord (some (normal o)) = IsUsize o
IsWord (some (bottom o)) = IsUsize o

priority_cmp-urgency :
    (a b : Priority)
    → IsWord (some a)
    → IsWord (some b)
    → priority_cmp a b ≡ compare (urgency (some a)) (urgency (some b))
unfolding priority_cmp
priority_cmp-urgency (top (some n)) (top none) p q = ground arith
priority_cmp-urgency (normal (some n)) (normal none) p q = ground arith
priority_cmp-urgency (bottom (some n)) (bottom none) p q = ground arith
priority_cmp-urgency (top (some n)) (normal (some m)) p q = ground arith
priority_cmp-urgency a b p q = ground arith

option_cmp-urgency :
    (a b : Option Priority) → IsWord a → IsWord b → option_cmp a b ≡ compare (urgency a) (urgency b)
unfolding option_cmp
option_cmp-urgency none none p q = refl
option_cmp-urgency none (some b) p q = ground arith
option_cmp-urgency (some a) none p q = ground arith
option_cmp-urgency (some a) (some b) p q = priority_cmp-urgency a b p q

-- The order of requests is the order of their urgencies, so a missing priority is served last, and
-- among equal variants the smaller order number is served first.
pub request_cmp-urgency :
    (a b : Request)
    → IsWord a.priority
    → IsWord b.priority
    → request_cmp a b ≡ compare (urgency a.priority) (urgency b.priority)
unfolding request_cmp
request_cmp-urgency a b p q = ground (arith, option_cmp-urgency a.priority b.priority p q)

-- The guards of `cmp` agree with `Option`'s own order.
request_cmp-option_cmp : (a b : Request) → request_cmp a b ≡ option_cmp a.priority b.priority
unfolding request_cmp option_cmp
request_cmp-option_cmp a b = ground arith

pub option_cmp-reverse : (a b : Option Priority) → option_cmp b a ≡ reverse (option_cmp a b)
unfolding option_cmp priority_cmp
option_cmp-reverse none none = refl
option_cmp-reverse none (some b) = refl
option_cmp-reverse (some a) none = refl
option_cmp-reverse (some a) (some b) = ground arith

-- Comparing two requests the other way round gives the reverse answer, whatever their numbers.
pub request_cmp-reverse : (a b : Request) → request_cmp b a ≡ reverse (request_cmp a b)
unfolding request_cmp
request_cmp-reverse a b = ground (arith, option_cmp-reverse a.priority b.priority)

-- A request that is not more urgent than a second, which is not more urgent than a third, is not
-- more urgent than the third.
pub request_cmp_trans :
    (a b c : Request)
    → request_cmp a b ≢ Ordering.gt
    → request_cmp b c ≢ Ordering.gt
    → request_cmp a c ≢ Ordering.gt
unfolding request_cmp option_cmp priority_cmp
request_cmp_trans a b c p q = ground arith

option_cmp_refl : (a : Option Priority) → option_cmp a a ≡ Ordering.eq
unfolding option_cmp priority_cmp
option_cmp_refl a = ground arith

-- `Eq` looks at identifiers and `Ord` at priorities, so neither determines the other: a copy under
-- another identifier compares as equal and is not `==`, and a copy under another priority is `==`
-- and compares as its priority does.
pub request_eq-cmp_disagree :
    (r : Request) (i : Identifier) (p : Option Priority)
    → i ≢ r.identifier
    → (request_eq r (record r { identifier = i }) ≡ false)
      × (request_cmp r (record r { identifier = i }) ≡ Ordering.eq)
      × (request_eq r (record r { priority = p }) ≡ true)
      × (request_cmp r (record r { priority = p }) ≡ option_cmp r.priority p)
unfolding request_eq request_cmp
request_eq-cmp_disagree r i p h = (
  ==_ne r.identifier i (λ e. h (sym e)),
  request_cmp-option_cmp r (record r { identifier = i }) ∙ option_cmp_refl r.priority,
  ==_refl r.identifier,
  request_cmp-option_cmp r (record r { priority = p }),
)
