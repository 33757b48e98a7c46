-- ===== src/Queue/Putting.antt =====
-- coordinator.rs, `DefaultQueuer::put`.
use strawberry_background.Prelude.{
  ℕ, ◌≡◌, refl, sym, ◌∙◌, ◌≤◌, ◌<◌, inl, inr, false, ◌&&◌, Option, some, List, ok, err, leb, In,
  All, Bool-cases,
}
use strawberry_background.Request.{
  Request, request_cmp, QueueConfiguration, RejectStrategy, discard,
}
use strawberry_background.BlockingHeap.{
  BinaryHeap, BlockingHeap, Wakeup, Pushed, pushed, rejected, push, len,
}
use strawberry_background.BlockingHeap.Bounds.{PushMeans, push-PushMeans, seen, TimesOut}
use strawberry_background.Queue.{
  wait_timeout, DefaultQueuer, Put, putting, put_over, put_result, put, not_full_timeout,
  strategy_eq, reject_strategy_of,
}

module _ (H : BinaryHeap request_cmp) where
  put-push :
      (request : Request) (wakeups : ℕ → List (Wakeup H)) (self : DefaultQueuer H)
      → put H request wakeups self
        ≡ put_result H (push H self.queue request (wakeups (not_full_timeout self.configuration)))
  unfolding put
  put-push request wakeups self =
      elim (Bool-cases (
        leb self.queue.capacity (len H self.queue.inner)
        && strategy_eq (reject_strategy_of self.configuration) discard)) [
          | inl e ↦ rw e refl
          | inr e ↦ rw e refl
        ]

  -- The reject strategy of a configuration changes nothing: `put` waits and times out in the same
  -- way under every one.
  pub put_any_strategy :
      (request : Request) (wakeups : ℕ → List (Wakeup H)) (queue : BlockingHeap H)
      (configuration : QueueConfiguration) (strategy : Option RejectStrategy)
      → put H request wakeups (record {
        configuration = some (record configuration { reject_strategy = strategy });
        queue = queue;
      })
        ≡ put H request wakeups (record { configuration = some configuration; queue = queue })
  put_any_strategy request wakeups queue configuration strategy =
      put-push request wakeups _ ∙ sym (put-push request wakeups _)

  -- What each result of `put` says.
  abbrev pub PutMeans : Request → DefaultQueuer H → List (Wakeup H) → Put H → Type 0
  PutMeans request self ws putting =
      All (λ h. self.queue.capacity ≤ len H h) (seen H self.queue.inner ws)
      × All (λ w. w.timed_out ≡ false) ws
  PutMeans request self ws (put_over heap (ok _)) =
      (h : H.Heap) × In h (seen H self.queue.inner ws)
      × (len H h < self.queue.capacity)
      × (heap ≡ H.push request h)
  PutMeans request self ws (put_over heap (err e)) =
      (e ≡ wait_timeout) × (self.queue.capacity ≤ len H self.queue.inner) × TimesOut H ws heap

  result-PutMeans :
      (request : Request) (self : DefaultQueuer H) (ws : List (Wakeup H)) (r : Pushed H)
      → PushMeans H self.queue.capacity request self.queue.inner ws r
      → PutMeans request self ws (put_result H r)
  unfolding put_result
  result-PutMeans request self ws Pushed.blocked h = h
  result-PutMeans request self ws (pushed heap) h = h
  result-PutMeans request self ws (rejected _ heap) h = (refl, h.1, h.2)

  -- `put` succeeds exactly by storing the request in a queue that it saw with room; its only error
  -- is the timeout, which it gives only if the queue was full at the call and a wait timed out, and
  -- then the queue is as that wait left it.
  pub put-PutMeans :
      (request : Request) (wakeups : ℕ → List (Wakeup H)) (self : DefaultQueuer H)
      → PutMeans request self
          (wakeups (not_full_timeout self.configuration))
          (put H request wakeups self)
  put-PutMeans request wakeups self = rw (put-push request wakeups self) (
      result-PutMeans request self _ _
        (push-PushMeans H self.queue request (wakeups (not_full_timeout self.configuration))))
