-- ===== src/Progress/Sums.antt =====
-- What the reports of the wrappers add up to.
use strawberry_background.Prelude.{
  ℕ, ◌+◌, ◌%◌, ◌^◌, ◌<◌, ◌≡◌, refl, ap, sym, ◌∙◌, Bool, true, false, List, [], ◌∷◌, ◌++◌, ltb,
  length, if◌then◌else◌, arith, subst,
}
use strawberry_background.Progress.{
  Report, Counters, Polled, ready, failed, pending, poll_read, poll_all, Next, item, end, waiting,
  new_stream, poll_next, calls,
}

-- Each report adds what is new to the value before it, and gives the total; the last value is given.
abbrev pub IsTracking : ℕ → ℕ → List Report → ℕ → Type 0
IsTracking total start [] final = start ≡ final
IsTracking total start ((value, t, delta) ∷ rest) final =
    (value ≡ start + delta) × (t ≡ total) × IsTracking total value rest final

module _ (total : ℕ) (positive : 0 < total) where
  abbrev at : ℕ → Counters
  at read = record { total = total; read = read }

  no_wrap : (n : ℕ) → n < 2 ^ 64 → n % 2 ^ 64 ≡ n
  no_wrap n h = omega (arith, h)

  positive_test : ltb 0 total ≡ true
  positive_test = ground (arith, positive)

  polled :
      (bytes : List ℕ) (read : ℕ)
      → read + length bytes < 2 ^ 64
      → poll_read (ready bytes) (at read)
        ≡ (at (read + length bytes), (read + length bytes, total, length bytes) ∷ [])
  unfolding poll_read
  polled bytes read h =
      ap (λ r. (at r, if ltb 0 total then (r, total, length bytes) ∷ [] else []))
        (no_wrap (read + length bytes) h)
      ∙ ap
          (λ b. (
            at (read + length bytes),
            if b then (read + length bytes, total, length bytes) ∷ [] else [],
          ))
          positive_test

  abbrev pub bytes_of : Polled → ℕ
  bytes_of (ready bytes) = length bytes
  bytes_of (failed e) = 0
  bytes_of pending = 0

  abbrev pub all_bytes : List Polled → ℕ
  all_bytes [] = 0
  all_bytes (p ∷ polls) = bytes_of p + all_bytes polls

  abbrev Tracks : ℕ → ℕ → Counters × List Report → Type 0
  Tracks read final p = (p.0.read ≡ final) × IsTracking total read p.1 final

  -- A poll with bytes, when what follows it is tracked.
  step-Tracks :
      (bytes : List ℕ) (read final : ℕ) (p : Counters × List Report) (polls : List Polled)
      → p ≡ (at (read + length bytes), (read + length bytes, total, length bytes) ∷ [])
      → Tracks (read + length bytes) final (poll_all polls (at (read + length bytes)))
      → Tracks read final ((poll_all polls p.0).0, p.1 ++ (poll_all polls p.0).1)
  step-Tracks bytes read final p polls e h =
      subst
        (λ (q : Counters × List Report).
          Tracks read final ((poll_all polls q.0).0, q.1 ++ (poll_all polls q.0).1))
        (sym e) (h.0, (refl, refl, h.1))

  -- When the total is positive and the counter does not wrap, the counter of a reader ends at what the
  -- polls have read, and its reports track it: each one adds the bytes of its poll to the value before
  -- it, and the values end at the counter.
  pub poll_all-IsTracking :
      (polls : List Polled) (read : ℕ)
      → read + all_bytes polls < 2 ^ 64
      → ((poll_all polls (at read)).0.read ≡ read + all_bytes polls)
        × IsTracking total read (poll_all polls (at read)).1 (read + all_bytes polls)
  unfolding poll_all poll_read
  poll_all-IsTracking [] read h = (omega arith, omega arith)
  poll_all-IsTracking (pending ∷ polls) read h =
      subst (λ n. Tracks read n (poll_all polls (at read))) (omega arith)
        (poll_all-IsTracking polls read (omega (arith, h)))
  poll_all-IsTracking (failed e ∷ polls) read h =
      subst (λ n. Tracks read n (poll_all polls (at read))) (omega arith)
        (poll_all-IsTracking polls read (omega (arith, h)))
  poll_all-IsTracking (ready bytes ∷ polls) read h =
      step-Tracks bytes read (read + (length bytes + all_bytes polls))
        (poll_read (ready bytes) (at read)) polls (polled bytes read (omega (arith, h)))
        (subst (λ n. Tracks (read + length bytes) n (poll_all polls (at (read + length bytes))))
          (omega arith) (poll_all-IsTracking polls (read + length bytes) (omega (arith, h))))

abbrev pub has_end : {A : Type 0} → List (Next A) → Bool
has_end [] = false
has_end (item a ∷ ns) = has_end ns
has_end (end ∷ ns) = true
has_end (waiting ∷ ns) = has_end ns

called_already :
    {A : Type 0} (ns : List (Next A)) → calls ns (record { callback = false; called = true }) ≡ 0
unfolding calls poll_next
called_already [] = refl
called_already (item a ∷ ns) = omega (arith, called_already ns)
called_already (end ∷ ns) = omega (arith, called_already ns)
called_already (waiting ∷ ns) = omega (arith, called_already ns)

-- However often a wrapped stream is polled, its callback is called once if the inner stream has ended
-- in one of the polls, and else not at all.
pub calls-new_stream :
    {A : Type 0} (ns : List (Next A)) → calls ns new_stream ≡ (if has_end ns then 1 else 0)
unfolding calls poll_next new_stream
calls-new_stream [] = refl
calls-new_stream (item a ∷ ns) = omega (arith, calls-new_stream ns)
calls-new_stream (end ∷ ns) = omega (arith, called_already ns)
calls-new_stream (waiting ∷ ns) = omega (arith, calls-new_stream ns)
