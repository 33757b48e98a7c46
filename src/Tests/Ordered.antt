-- ===== src/Tests/Ordered.antt =====
-- The order of requests, and the queue.
use strawberry_background.Prelude.{
  ◌≡◌, ◌≢◌, refl, false, List, [], ◌∷◌, Ordering, compare, arith, some, ◌<◌,
}
use mathlib.Core.Bool.{false≢true}
use strawberry_background.Request.{Request, Identifier-eq, priority_cmp, request_cmp, option_cmp}
use strawberry_background.Request.Order.{request_cmp-urgency, urgency}
use strawberry_background.BlockingHeap.{
  BlockingHeap, Wakeup, push, pop, pushed, popped, with_capacity, len,
}
use strawberry_background.BlockingHeap.Bounds.{push-PushMeans, pop-PopMeans, PushMeans, PopMeans}
use strawberry_background.BlockingHeap.Threads.{
  Shared, Reach, here, next, stores, serves, start, store, serve, at, Inv, Reach-Inv, Waits, Finds,
  push-Reach, pop-Reach,
}
use strawberry_background.BlockingHeap.Selection.{take_greatest}
use strawberry_background.Tests.{heap, urgent, plain, backing_off, named}

request_cmp-urgency_example :
    request_cmp urgent plain ≡ compare (urgency urgent.priority) (urgency plain.priority)
request_cmp-urgency_example = request_cmp-urgency urgent plain (omega arith) tt

lt≢gt : Ordering.lt ≢ Ordering.gt
lt≢gt e = ground (arith, e)

plain-backing_off : request_cmp plain backing_off ≢ Ordering.gt
unfolding request_cmp option_cmp priority_cmp
plain-backing_off = lt≢gt

backing_off-urgent : request_cmp backing_off urgent ≢ Ordering.gt
unfolding request_cmp option_cmp priority_cmp
backing_off-urgent = lt≢gt

other_name : named "other" ≢ urgent.identifier
other_name e = false≢true ((Identifier-eq.beq_iff (named "other") urgent.identifier).1 e)

abbrev queue : BlockingHeap heap
queue = with_capacity heap 1

-- A full queue of one, from which another thread takes its request while the call waits.
abbrev full : BlockingHeap heap
full = record { inner = plain ∷ []; capacity = 1 }

abbrev freed : List (Wakeup heap)
freed = record { heap = []; timed_out = false } ∷ []

push_freed : push heap full urgent freed ≡ pushed (urgent ∷ [])
unfolding push
push_freed = refl

push-PushMeans_example : PushMeans heap 1 urgent (plain ∷ []) freed (push heap full urgent freed)
push-PushMeans_example = push-PushMeans heap full urgent freed

-- The most urgent of three is served first.
abbrev three : BlockingHeap heap
three = record { inner = plain ∷ urgent ∷ backing_off ∷ []; capacity = 4 }

pop_three : pop heap three [] ≡ popped urgent (plain ∷ backing_off ∷ [])
unfolding pop take_greatest request_cmp option_cmp priority_cmp
pop_three = refl

pop-PopMeans_example : PopMeans heap (plain ∷ urgent ∷ backing_off ∷ []) [] (pop heap three [])
pop-PopMeans_example = pop-PopMeans heap three []

abbrev waiting_state : Shared heap
waiting_state = store heap plain (plain ∷ []) (start heap)

push_plain : push heap (at heap 1 []) plain [] ≡ pushed (plain ∷ [])
unfolding push
push_plain = refl

pop_full : pop heap full [] ≡ popped plain []
unfolding pop take_greatest
pop_full = refl

waiting-Reach : Reach heap 1 (start heap) waiting_state
waiting-Reach = next here (stores plain (plain ∷ []) push_plain)

Reach-Inv_example : Inv heap 1 waiting_state
Reach-Inv_example = Reach-Inv heap 1 waiting_state waiting-Reach

-- While the call waits, another thread takes the request.
freed-Waits : Waits heap 1 waiting_state freed
freed-Waits = (serve heap plain [] waiting_state, next here (serves plain [] pop_full), refl, tt)

push-Reach_example :
    (t : Shared heap) × Finds heap 1 waiting_state freed freed-Waits t
    × (len heap t.heap < 1)
    × (◌≡◌ {A = List Request} (urgent ∷ []) (heap.push urgent t.heap))
    × Reach heap 1 waiting_state (store heap urgent (urgent ∷ []) t)
push-Reach_example =
    push-Reach heap full urgent waiting_state freed (urgent ∷ []) freed-Waits refl push_freed

pop-Reach_example :
    (t : Shared heap) × Finds heap 1 waiting_state [] tt t
    × (heap.pop t.heap ≡ some (plain, []))
    × Reach heap 1 waiting_state (serve heap plain [] t)
pop-Reach_example = pop-Reach heap full waiting_state [] plain [] tt refl pop_full
