-- ===== src/Loop/Invariant.antt =====
-- What holds of the input queues between two calls of the authoritative loop.
use devy_fps.Prelude.{
  ℕ, ◌≤◌, ◌<◌, ◌≡◌, inl, inr, refl, subst, true, false, List, [], ◌∷◌, ◌++◌, Option, none, some,
  leb, eqb, length-append, All, All-append, nat_eq, arith, Bool-cases, eqb_iff,
}
use devy_fps.Prelude.Map.{get, put, get-put, Distinct, put-Distinct}
use devy_fps.Prelude.Queues.{queue, total, total-put}
use devy_fps.Loop.{
  RuntimeConfig, PlayerInputCommand, AuthoritativeLoop, reset, new, is_stale, is_behind_back,
  accept_input, enqueue_input,
}

module _ {F : Type 0} where
  -- The inputs of player `p`, by rising sequence number, none above `s`.
  abbrev pub OrderedUpTo : ℕ → ℕ → List (PlayerInputCommand F) → Type 0
  OrderedUpTo p s [] = Unit {0}
  OrderedUpTo p s (c ∷ q) =
      (c.player_id ≡ p)
      × (c.input_seq ≤ s)
      × All (λ d. c.input_seq < d.input_seq) q
      × OrderedUpTo p s q

  -- The queue of player `p`, beside the sequence number last accepted.
  abbrev pub QueueOf : ℕ → Option ℕ → List (PlayerInputCommand F) → Type 0
  QueueOf p none q = q ≡ []
  QueueOf p (some s) q = OrderedUpTo p s q

  pub record IsValid (l : AuthoritativeLoop F) : Type 0 where
    pub distinct : Distinct l.input_queues_by_player
    pub exact : l.pending_input_count ≡ total l.input_queues_by_player
    pub within : l.pending_input_count ≤ l.config.input_queue_capacity
    pub fits : l.config.input_queue_capacity < 18446744073709551616
    pub ticking : 0 < l.tick_interval
    pub sampling : 0 < l.config.snapshot_interval_ticks
    pub ordered :
        (p : ℕ) → QueueOf p (get l.last_input_seq_by_player p) (queue l.input_queues_by_player p)

  OrderedUpTo-append :
      (p s : ℕ) (q : List (PlayerInputCommand F)) (c : PlayerInputCommand F)
      → OrderedUpTo p s q
      → c.player_id ≡ p
      → s < c.input_seq
      → OrderedUpTo p c.input_seq (q ++ c ∷ [])
  OrderedUpTo-append p s [] c o e h = (e, omega arith, tt, tt)
  OrderedUpTo-append p s (d ∷ q) c o e h = (
    o.0,
    omega (arith, o.1),
    All-append _ q (c ∷ []) o.2 (omega (arith, o.1), tt),
    OrderedUpTo-append p s q c o.3 e h,
  )

  behind_back-stale :
      (p s n : ℕ) (q : List (PlayerInputCommand F))
      → OrderedUpTo p s q
      → is_behind_back q n ≡ true
      → leb n s ≡ true
  unfolding is_behind_back
  behind_back-stale p s n [] o h = cc
  behind_back-stale p s n (c ∷ []) o h = ground (arith, o.1)
  behind_back-stale p s n (c ∷ d ∷ q) o h = behind_back-stale p s n (d ∷ q) o.3 h

  -- The test against the back of the queue never decides: the last accepted number is as high.
  pub behind_back_false :
      (p n : ℕ) (last : Option ℕ) (q : List (PlayerInputCommand F))
      → QueueOf p last q
      → is_stale last n ≡ false
      → is_behind_back q n ≡ false
  unfolding is_stale is_behind_back
  behind_back_false p n none q o h = rw o
  behind_back_false p n (some s) q o h = elim (Bool-cases (is_behind_back q n)) [
    | inl e ↦ cc (behind_back-stale p s n q o e)
    | inr e ↦ e
  ]

  pub new-IsValid :
      (config : RuntimeConfig) (start : ℕ)
      → config.input_queue_capacity < 18446744073709551616
      → IsValid (new config start)
  unfolding new total get
  new-IsValid config start h = record {
    distinct = tt;
    exact = refl;
    within = omega arith;
    fits = ground arith;
    ticking = ground arith;
    sampling = ground arith;
    ordered = λ p. refl;
  }

  pub reset-IsValid : (l : AuthoritativeLoop F) (start : ℕ) → IsValid l → IsValid (reset l start)
  unfolding reset total get
  reset-IsValid l start v = record {
    distinct = tt;
    exact = refl;
    within = omega arith;
    fits = v.fits;
    ticking = v.ticking;
    sampling = v.sampling;
    ordered = λ p. refl;
  }

  QueueOf-append :
      (p : ℕ) (last : Option ℕ) (q : List (PlayerInputCommand F)) (c : PlayerInputCommand F)
      → QueueOf p last q
      → c.player_id ≡ p
      → is_stale last c.input_seq ≡ false
      → OrderedUpTo p c.input_seq (q ++ c ∷ [])
  unfolding is_stale
  QueueOf-append p none q c o e h = rw o (e, omega arith, tt, tt)
  QueueOf-append p (some s) q c o e h = OrderedUpTo-append p s q c o e (ground arith)

  module _ (l : AuthoritativeLoop F) (c : PlayerInputCommand F) (v : IsValid l) where
    open c use {player_id, input_seq}
    open l use {input_queues_by_player, last_input_seq_by_player}

    ordered_after :
        (p : ℕ)
        → is_stale (get last_input_seq_by_player player_id) input_seq ≡ false
        → QueueOf p (get (put last_input_seq_by_player player_id input_seq) p) (
            queue
              (put input_queues_by_player player_id
                (queue input_queues_by_player player_id ++ c ∷ []))
              p)
    ordered_after p h = elim (Bool-cases (eqb player_id p)) [
      | inl e ↦
          let e' : player_id ≡ p = (eqb_iff player_id p).0 e in
          rw (get-put last_input_seq_by_player, get-put input_queues_by_player, e)
            (QueueOf-append p (get last_input_seq_by_player player_id)
              (queue input_queues_by_player player_id) c
              (subst
                (λ t.
                  QueueOf t (get last_input_seq_by_player player_id)
                    (queue input_queues_by_player player_id))
                e' (v.ordered player_id))
              e' h)
      | inr e ↦
          rw (get-put last_input_seq_by_player, get-put input_queues_by_player, e) (v.ordered p)
    ]

    accept-IsValid :
        is_stale (get last_input_seq_by_player player_id) input_seq ≡ false
        → l.pending_input_count < l.config.input_queue_capacity
        → IsValid (accept_input l c)
    unfolding accept_input
    accept-IsValid fresh room = record {
      distinct = put-Distinct input_queues_by_player player_id _ v.distinct;
      exact = omega (
        arith,
        v.exact,
        v.fits,
        total-put input_queues_by_player player_id
            (queue input_queues_by_player player_id ++ c ∷ []),
        length-append (queue input_queues_by_player player_id) (c ∷ []),
      );
      within = omega (arith, v.fits);
      fits = v.fits;
      ticking = v.ticking;
      sampling = v.sampling;
      ordered = λ p. ordered_after p fresh;
    }

    pub enqueue-IsValid : IsValid (enqueue_input l c).0
    unfolding enqueue_input
    enqueue-IsValid = ground (arith, accept-IsValid)
