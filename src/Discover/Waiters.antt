-- ===== src/Discover/Waiters.antt =====
-- coordinator.rs, `cycle_once` of the discover: the values that its last loops give to the waiters.
use strawberry_background.Prelude.{
  ℕ, zero, suc, ◌≡◌, ◌≢◌, ◌<◌, refl, sym, ap, ◌∙◌, inl, inr, String, Bool, true, Option, none, some,
  List, [], ◌∷◌, ◌==◌, ◌++◌, Nat-eq, In, All, nat_eq, subst, if◌then◌else◌, arith, length, ==_ne,
}
use strawberry_background.Registry.{Maps}
use strawberry_background.Waiter.BoolWaiter
use strawberry_background.Discover.{ChannelMaps, read, update, set_flags, set_channel, set_all}

BoolWaiter-set : (val value : Bool) → BoolWaiter.set val value ≡ val
unfolding BoolWaiter.set BoolWaiter.reset
BoolWaiter-set val value = ground arith

length-update : (h : ℕ) (f : Bool → Bool) (ws : List Bool) → length (update h f ws) ≡ length ws
length-update h f [] = refl
length-update zero f (w ∷ ws) = refl
length-update (suc h) f (w ∷ ws) = ap suc (length-update h f ws)

nat_eq-suc : (h k : ℕ) → nat_eq (suc h) (suc k) ≡ nat_eq h k
nat_eq-suc h k = ground arith

read-update :
    (h k : ℕ) (f : Bool → Bool) (ws : List Bool)
    → k < length ws
    → read k (update h f ws) ≡ (if h == k then f (read k ws) else read k ws)
read-update h k f [] p = ground arith
read-update zero zero f (w ∷ ws) p = refl
read-update zero (suc k) f (w ∷ ws) p = ground arith
read-update (suc h) zero f (w ∷ ws) p = ground arith
read-update (suc h) (suc k) f (w ∷ ws) p =
    read-update h k f ws (omega arith)
    ∙ ap (λ b. if b then f (read k ws) else read k ws) (sym (nat_eq-suc h k))

-- Setting a waiter, seen from a waiter.
set-read :
    (h k : ℕ) (a : Bool) (ws : List Bool)
    → k < length ws
    → read k (update h (BoolWaiter.set a) ws) ≡ (if h == k then a else read k ws)
set-read h k a ws p =
    read-update h k (BoolWaiter.set a) ws p
    ∙ ap (λ b. if h == k then b else read k ws) (BoolWaiter-set a (read k ws))

module _ (M : Maps) (C : ChannelMaps) where
  open C use {by_category as CM}

  -- Every waiter of a list is true after `set_all`, which sets no waiter to false.
  set_all-keeps :
      (hs : List ℕ) (k : ℕ) (ws : List Bool)
      → k < length ws
      → read k ws ≡ true
      → read k (set_all M C hs ws) ≡ true
  unfolding set_all
  set_all-keeps [] k ws p e = e
  set_all-keeps (h ∷ hs) k ws p e =
      set_all-keeps hs k (update h (BoolWaiter.set true) ws)
        (subst (λ n. k < n) (sym (length-update h (BoolWaiter.set true) ws)) p)
        (set-read h k true ws p ∙ both (h == k) e)
    where
      both : (b : Bool) → read k ws ≡ true → (if b then true else read k ws) ≡ true
      both b e = ground arith

  -- When every category is forced, the waiter of every channel becomes true.
  pub set_all-true :
      (hs : List ℕ) (k : ℕ) (ws : List Bool)
      → k < length ws
      → In k hs
      → read k (set_all M C hs ws) ≡ true
  unfolding set_all
  set_all-true [] k ws p n = absurd n
  set_all-true (h ∷ hs) k ws p (inl e) =
      set_all-keeps hs k (update h (BoolWaiter.set true) ws)
        (subst (λ n. k < n) (sym (length-update h (BoolWaiter.set true) ws)) p)
        (set-read h k true ws p
          ∙ ap (λ b. if b then true else read k ws) ((Nat-eq.beq_iff h k).1 (sym e)))
  set_all-true (h ∷ hs) k ws p (inr n) =
      set_all-true hs k (update h (BoolWaiter.set true) ws)
        (subst (λ m. k < m) (sym (length-update h (BoolWaiter.set true) ws)) p) n

  length-set_channel :
      (a : Bool) (o : Option ℕ) (ws : List Bool) → length (set_channel M C a o ws) ≡ length ws
  unfolding set_channel
  length-set_channel a none ws = refl
  length-set_channel a (some h) ws = length-update h (BoolWaiter.set a) ws

  set_channel-here :
      (a : Bool) (o : Option ℕ) (k : ℕ) (ws : List Bool)
      → k < length ws
      → o ≡ some k
      → read k (set_channel M C a o ws) ≡ a
  unfolding set_channel
  set_channel-here a none k ws p e = cc e
  set_channel-here a (some h) k ws p e =
      set-read h k a ws p
      ∙ ap (λ b. if b then a else read k ws) ((Nat-eq.beq_iff h k).1 (ground arith))

  set_channel-other :
      (a : Bool) (o : Option ℕ) (k : ℕ) (ws : List Bool)
      → k < length ws
      → o ≢ some k
      → read k (set_channel M C a o ws) ≡ read k ws
  unfolding set_channel
  set_channel-other a none k ws p e = refl
  set_channel-other a (some h) k ws p e =
      set-read h k a ws p ∙ ap (λ b. if b then a else read k ws) (==_ne h k (λ q. e (ap some q)))

  set_flags-others :
      (channels : CM.Map) (es : List (String × Bool)) (k : ℕ) (ws : List Bool)
      → k < length ws
      → All (λ e. CM.get e.0 channels ≢ some k) es
      → read k (set_flags M C channels es ws) ≡ read k ws
  unfolding set_flags
  set_flags-others channels [] k ws p h = refl
  set_flags-others channels ((c, a) ∷ es) k ws p h =
      set_flags-others channels es k (set_channel M C a (CM.get c channels) ws)
        (subst (λ n. k < n) (sym (length-set_channel a (CM.get c channels) ws)) p) h.1
      ∙ set_channel-other a (CM.get c channels) k ws p h.0

  -- After the flags are set, a waiter shows the flag of the last category in the order of iteration
  -- whose channel it is, whatever the flags of the categories before it.
  pub set_flags-last :
      (channels : CM.Map) (before : List (String × Bool)) (c : String) (a : Bool)
      (after : List (String × Bool)) (k : ℕ) (ws : List Bool)
      → k < length ws
      → CM.get c channels ≡ some k
      → All (λ e. CM.get e.0 channels ≢ some k) after
      → read k (set_flags M C channels (before ++ ((c, a) ∷ after)) ws) ≡ a
  unfolding set_flags
  set_flags-last channels [] c a after k ws p e h =
      set_flags-others channels after k (set_channel M C a (CM.get c channels) ws)
        (subst (λ n. k < n) (sym (length-set_channel a (CM.get c channels) ws)) p) h
      ∙ set_channel-here a (CM.get c channels) k ws p e
  set_flags-last channels ((d, b) ∷ before) c a after k ws p e h =
      set_flags-last channels before c a after k (set_channel M C b (CM.get d channels) ws)
        (subst (λ n. k < n) (sym (length-set_channel b (CM.get d channels) ws)) p) e h
