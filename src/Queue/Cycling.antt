-- ===== src/Queue/Cycling.antt =====
-- coordinator.rs, `DefaultQueuer::cycle_once`: what happens to the request that it takes.
use mathlib.Core.List.{Permᴰ}
use strawberry_background.Prelude.{
  ℕ, ◌≡◌, ◌≢◌, refl, ◌⊎◌, inl, inr, List, [], ◌∷◌, Result, ok, err, In, All, String, Ordering,
}
use strawberry_background.Request.{Identifier, Request, request_cmp, RunnerError, RegistryError}
use strawberry_background.BlockingHeap.{BinaryHeap, Wakeup, Popped, popped, gave_up}
use strawberry_background.BlockingHeap.Bounds.{PopMeans, pop-PopMeans, seen, TimesOut}
use strawberry_background.Registry.{Maps, Runner, RunnerRegistry, find_runner_by_identifier}
use strawberry_background.Discover.{ChannelMaps, DefaultRunnerDiscover, DiscoverError}
use strawberry_background.Discover.Searching.{
  Discovered, still_waiting, discovered, discover_runner_by_category, Meanwhile,
}
use strawberry_background.Queue.{
  QueuerError, of_categorizer, of_discover, of_registry, of_runner, DefaultQueuer, Cycled,
  waiting_for_request, waiting_for_runner, cycled, submitted_result, submit_to, dispatch, assign,
  take_request, cycle_once, not_empty_timeout, runner_timeout,
}

module _ (H : BinaryHeap request_cmp) (M : Maps) (C : ChannelMaps)
    (categorize : Request → Result String String)
    (runner_submit : Runner → Request → Result (Unit {0}) RunnerError) where
  -- A greatest request of a heap that the call saw has left it, and the rest stays.
  abbrev pub Taken : DefaultQueuer H → List (Wakeup H) → Request → H.Heap → Type 0
  Taken self ws request heap =
      (h : H.Heap) × In h (seen H self.queue.inner ws)
      × Permᴰ (H.items h) (request ∷ H.items heap)
      × All (λ q. request_cmp q request ≢ Ordering.gt) (H.items heap)

  -- What becomes of a request that was taken: the discover, the submissions and the result that the
  -- cycle leaves. The one runner that gets it is the registered one that the discover named for its
  -- category; there is none only if the categorizer, the discover or the registry has an error.
  pub data Assigned (registry : RunnerRegistry M) (m : Meanwhile M C)
      (discover : DefaultRunnerDiscover M C) (timeout : ℕ) (request : Request)
      : DefaultRunnerDiscover M C
        → List (Runner × Request)
        → Result (Unit {0}) QueuerError
        → Type 0 where
    accepted :
        (category : String) (i : Identifier) (d : DefaultRunnerDiscover M C) (runner : Runner)
        → categorize request ≡ ok category
        → discover_runner_by_category M C registry category timeout m discover ≡ discovered d (ok i)
        → find_runner_by_identifier M i registry ≡ ok runner
        → runner_submit runner request ≡ ok tt
        → Assigned registry m discover timeout request d ((runner, request) ∷ []) (ok tt)
    refused :
        (category : String) (i : Identifier) (d : DefaultRunnerDiscover M C) (runner : Runner)
        (e : RunnerError)
        → categorize request ≡ ok category
        → discover_runner_by_category M C registry category timeout m discover ≡ discovered d (ok i)
        → find_runner_by_identifier M i registry ≡ ok runner
        → runner_submit runner request ≡ err e
        → Assigned registry m discover timeout request d
            ((runner, request) ∷ [])
            (err (of_runner e))
    unregistered :
        (category : String) (i : Identifier) (d : DefaultRunnerDiscover M C) (e : RegistryError)
        → categorize request ≡ ok category
        → discover_runner_by_category M C registry category timeout m discover ≡ discovered d (ok i)
        → find_runner_by_identifier M i registry ≡ err e
        → Assigned registry m discover timeout request d [] (err (of_registry e))
    undiscovered :
        (category : String) (d : DefaultRunnerDiscover M C) (e : DiscoverError)
        → categorize request ≡ ok category
        → discover_runner_by_category M C registry category timeout m discover
          ≡ discovered d (err e)
        → Assigned registry m discover timeout request d [] (err (of_discover e))
    uncategorized :
        (e : String)
        → categorize request ≡ err e
        → Assigned registry m discover timeout request discover [] (err (of_categorizer e))

  abbrev pub CycleMeans :
      RunnerRegistry M
      → Meanwhile M C
      → DefaultRunnerDiscover M C
      → DefaultQueuer H
      → List (Wakeup H)
      → Cycled H M C categorize runner_submit
      → Type 0
  CycleMeans registry m discover self ws waiting_for_request =
      All (λ h. H.items h ≡ []) (seen H self.queue.inner ws)
  CycleMeans registry m discover self ws (waiting_for_runner heap request) =
      Taken self ws request heap
      × (category : String) × (categorize request ≡ ok category)
      × (discover_runner_by_category M C registry category (runner_timeout self.configuration) m
            discover
          ≡ still_waiting)
  CycleMeans registry m discover self ws (cycled heap d sent result) =
      ((H.items self.queue.inner ≡ [])
        × TimesOut H ws heap
        × (d ≡ discover)
        × (sent ≡ [])
        × (result ≡ ok tt))
      ⊎ ((request : Request) × Taken self ws request heap
          × Assigned registry m discover (runner_timeout self.configuration) request d sent result)

  module _ (registry : RunnerRegistry M) (m : Meanwhile M C) (discover : DefaultRunnerDiscover M C)
      (self : DefaultQueuer H) (ws : List (Wakeup H)) where
    answer-Means :
        (heap : H.Heap) (request : Request) (category : String) (i : Identifier)
        (d : DefaultRunnerDiscover M C) (runner : Runner) (answer : Result (Unit {0}) RunnerError)
        → Taken self ws request heap
        → categorize request ≡ ok category
        → discover_runner_by_category M C registry category
            (runner_timeout self.configuration)
            m
            discover
          ≡ discovered d (ok i)
        → find_runner_by_identifier M i registry ≡ ok runner
        → runner_submit runner request ≡ answer
        → CycleMeans registry m discover self ws (
            cycled heap d
              ((runner, request) ∷ [])
              (submitted_result H M C categorize runner_submit answer))
    unfolding submitted_result
    answer-Means heap request category i d runner (ok _) t c k f a =
        inr (request, t, accepted category i d runner c k f a)
    answer-Means heap request category i d runner (err e) t c k f a =
        inr (request, t, refused category i d runner e c k f a)

    submit-Means :
        (heap : H.Heap) (request : Request) (category : String) (i : Identifier)
        (d : DefaultRunnerDiscover M C) (f : Result Runner RegistryError)
        → Taken self ws request heap
        → categorize request ≡ ok category
        → discover_runner_by_category M C registry category
            (runner_timeout self.configuration)
            m
            discover
          ≡ discovered d (ok i)
        → find_runner_by_identifier M i registry ≡ f
        → CycleMeans registry m discover self ws
            (submit_to H M C categorize runner_submit heap d request f)
    unfolding submit_to
    submit-Means heap request category i d (err e) t c k f =
        inr (request, t, unregistered category i d e c k f)
    submit-Means heap request category i d (ok r) t c k f =
        answer-Means heap request category i d r _ t c k f refl

    dispatch-Means :
        (heap : H.Heap) (request : Request) (category : String) (o : Discovered M C)
        → Taken self ws request heap
        → categorize request ≡ ok category
        → discover_runner_by_category M C registry category
            (runner_timeout self.configuration)
            m
            discover
          ≡ o
        → CycleMeans registry m discover self ws
            (dispatch H M C categorize runner_submit registry heap request o)
    unfolding dispatch
    dispatch-Means heap request category still_waiting t c k = (t, category, c, k)
    dispatch-Means heap request category (discovered d (err e)) t c k =
        inr (request, t, undiscovered category d e c k)
    dispatch-Means heap request category (discovered d (ok i)) t c k =
        submit-Means heap request category i d _ t c k refl

    assign-Means :
        (heap : H.Heap) (request : Request) (o : Result String String)
        → Taken self ws request heap
        → categorize request ≡ o
        → CycleMeans registry m discover self ws (
            assign H M C categorize runner_submit registry
              (runner_timeout self.configuration)
              m
              discover
              heap
              request
              o)
    unfolding assign
    assign-Means heap request (err e) t c = inr (request, t, uncategorized e c)
    assign-Means heap request (ok category) t c = dispatch-Means heap request category _ t c refl

    take-Means :
        (p : Popped H)
        → PopMeans H self.queue.inner ws p
        → CycleMeans registry m discover self ws (
            take_request H M C categorize runner_submit registry
              (runner_timeout self.configuration)
              m
              discover
              p)
    unfolding take_request
    take-Means Popped.blocked h = h.0
    take-Means (gave_up heap) h = inl (h.0, h.1, refl, refl, refl)
    take-Means (popped request heap) h = assign-Means heap request _ h refl

  -- A cycle that ends without a request found the queue empty until a wait timed out, and succeeds.
  -- One that ends with a request took a greatest one. If the categorizer, the discover and the registry
  -- name a runner for it, it is submitted once, to that runner, and the result is that runner's answer.
  -- Otherwise it has left the queue without a submission, and the result is the first of their errors.
  -- A cycle that still waits found every queue empty, or took a greatest request for whose category the
  -- discover still waits.
  pub cycle_once-CycleMeans :
      (registry : RunnerRegistry M) (wakeups : ℕ → List (Wakeup H)) (m : Meanwhile M C)
      (discover : DefaultRunnerDiscover M C) (self : DefaultQueuer H)
      → CycleMeans registry m discover self
          (wakeups (not_empty_timeout self.configuration))
          (cycle_once H M C categorize runner_submit registry wakeups m discover self)
  unfolding cycle_once
  cycle_once-CycleMeans registry wakeups m discover self =
      take-Means registry m discover self (wakeups (not_empty_timeout self.configuration)) _
        (pop-PopMeans H self.queue (wakeups (not_empty_timeout self.configuration)))
