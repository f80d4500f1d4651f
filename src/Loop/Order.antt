-- ===== src/Loop/Order.antt =====
-- In which order a tick of server/src/AuthoritativeLoop.cpp handles its inputs.
use devy_fps.Prelude.{
  ℕ, ◌≤◌, ◌<◌, ◌≡◌, ◌≢◌, ◌∙◌, refl, sym, ap, ap₂, subst, Bool, true, false, ◌||◌, List, [], ◌∷◌,
  ◌++◌, Option, none, some, eqb, if◌then◌else◌, sub64, length, All, All-append, nat_eq, arith,
  eqb_iff, select,
}
use mathlib.Core.List.{append-nil}
use devy_fps.Prelude.Map.{get}
use devy_fps.Prelude.Ids.{contains, NoRepeat, Ascending-NoRepeat, contains-sort_ids, Ascending}
use devy_fps.Prelude.Queues.{
  queue, in_order, flat, queue_ids, queue_ids-Ascending, nonempty_ids, contains-nonempty_ids,
  is_empty,
}
use devy_fps.Prelude.Queues.Drain.{drained-drain}
use devy_fps.Loop.{PlayerInputCommand, TickFrame, AuthoritativeLoop, drain_inputs_deterministic}
use devy_fps.Loop.Invariant.{IsValid, QueueOf, OrderedUpTo}
use devy_fps.Loop.Ticks.{FramesFrom}

module _ {F : Type 0} where
  abbrev pub of_player : ℕ → List (PlayerInputCommand F) → List (PlayerInputCommand F)
  of_player p = select (λ c. eqb c.player_id p)

  of_player-append :
      (p : ℕ) (xs ys : List (PlayerInputCommand F))
      → of_player p (xs ++ ys) ≡ of_player p xs ++ of_player p ys
  of_player-append p [] ys = refl
  of_player-append p (c ∷ xs) ys = ground (arith, of_player-append p xs ys)

  of_player_own :
      (p s : ℕ) (q : List (PlayerInputCommand F)) → OrderedUpTo p s q → of_player p q ≡ q
  of_player_own p s [] o = refl
  of_player_own p s (c ∷ q) o = ground (arith, o.0, of_player_own p s q o.3)

  of_player_other :
      (p a s : ℕ) (q : List (PlayerInputCommand F)) → OrderedUpTo p s q → p ≢ a → of_player a q ≡ []
  of_player_other p a s [] o h = refl
  of_player_other p a s (c ∷ q) o h = ground (arith, o.0, of_player_other p a s q o.3)

  of_player-QueueOf :
      (p a : ℕ) (last : Option ℕ) (q : List (PlayerInputCommand F))
      → QueueOf p last q
      → of_player a q ≡ (if eqb p a then q else [])
  of_player-QueueOf p a none q o = rw o (ground arith)
  of_player-QueueOf p a (some s) q o =
      ground (arith, of_player_own p s q o, of_player_other p a s q o, eqb_iff p a)

  pick_append :
      (b : Bool) (p a : ℕ) (xs ys : List (PlayerInputCommand F))
      → (p ≡ a → xs ≡ ys)
      → (p ≡ a → b ≡ false)
      → (if eqb p a then xs else []) ++ (if b then ys else []) ≡ (if eqb p a || b then ys else [])
  pick_append b p a xs ys h k = ground (arith, append-nil xs)

  of_player-flat :
      (l : AuthoritativeLoop F) (a : ℕ) (ps : List ℕ)
      → IsValid l
      → NoRepeat ps
      → of_player a (flat l.input_queues_by_player ps)
        ≡ (if contains ps a then queue l.input_queues_by_player a else [])
  of_player-flat l a [] v d = refl
  of_player-flat l a (p ∷ ps) v d =
      of_player-append a (queue l.input_queues_by_player p) (flat l.input_queues_by_player ps)
      ∙ ap₂ ◌++◌
          (of_player-QueueOf p a (get l.last_input_seq_by_player p)
            (queue l.input_queues_by_player p) (v.ordered p))
          (of_player-flat l a ps v d.1)
      ∙ pick_append (contains ps a) p a (queue l.input_queues_by_player p)
          (queue l.input_queues_by_player a) (λ e. ap (queue l.input_queues_by_player) e)
          (λ e. subst (λ t. contains ps t ≡ false) e d.0)

  pick_nonempty :
      (q : List (PlayerInputCommand F)) → (if if is_empty q then false else true then q else []) ≡ q
  pick_nonempty q = ground arith

  of_player-in_order :
      (l : AuthoritativeLoop F) (a : ℕ)
      → IsValid l
      → of_player a (in_order l.input_queues_by_player) ≡ queue l.input_queues_by_player a
  unfolding in_order
  of_player-in_order l a v =
      of_player-flat l a (queue_ids l.input_queues_by_player) v
        (Ascending-NoRepeat _ (queue_ids-Ascending l.input_queues_by_player v.distinct))
      ∙ ap (λ b. if b then queue l.input_queues_by_player a else [])
          (contains-sort_ids (nonempty_ids l.input_queues_by_player) a
            ∙ contains-nonempty_ids l.input_queues_by_player a v.distinct)
      ∙ pick_nonempty (queue l.input_queues_by_player a)

  -- No input stands behind one of a player with a higher id.
  abbrev pub ByRisingPlayer : List (PlayerInputCommand F) → Type 0
  ByRisingPlayer [] = Unit {0}
  ByRisingPlayer (c ∷ cs) = All (λ d. c.player_id ≤ d.player_id) cs × ByRisingPlayer cs

  All-at_least :
      (n m : ℕ) (cs : List (PlayerInputCommand F))
      → n ≤ m
      → All (λ d. m ≤ d.player_id) cs
      → All (λ d. n ≤ d.player_id) cs
  All-at_least n m [] h a = tt
  All-at_least n m (c ∷ cs) h a = (omega arith, All-at_least n m cs h a.1)

  OrderedUpTo-at_least :
      (p s : ℕ) (q : List (PlayerInputCommand F)) → OrderedUpTo p s q → All (λ d. p ≤ d.player_id) q
  OrderedUpTo-at_least p s [] o = tt
  OrderedUpTo-at_least p s (c ∷ q) o = (omega (arith, o.0), OrderedUpTo-at_least p s q o.3)

  ByRisingPlayer-append :
      (p s : ℕ) (q cs : List (PlayerInputCommand F))
      → OrderedUpTo p s q
      → All (λ d. p ≤ d.player_id) cs
      → ByRisingPlayer cs
      → ByRisingPlayer (q ++ cs)
  ByRisingPlayer-append p s [] cs o a r = r
  ByRisingPlayer-append p s (c ∷ q) cs o a r = (
    All-at_least c.player_id p (q ++ cs) (omega (arith, o.0))
        (All-append _ q cs (OrderedUpTo-at_least p s q o.3) a),
    ByRisingPlayer-append p s q cs o.3 a r,
  )

  QueueOf-at_least :
      (n p : ℕ) (last : Option ℕ) (q : List (PlayerInputCommand F))
      → QueueOf p last q
      → n ≤ p
      → All (λ d. n ≤ d.player_id) q
  QueueOf-at_least n p none q o h = rw o tt
  QueueOf-at_least n p (some s) q o h = All-at_least n p q h (OrderedUpTo-at_least p s q o)

  flat-at_least :
      (l : AuthoritativeLoop F) (n : ℕ) (ps : List ℕ)
      → IsValid l
      → All (λ p. n < p) ps
      → All (λ d. n ≤ d.player_id) (flat l.input_queues_by_player ps)
  flat-at_least l n [] v a = tt
  flat-at_least l n (p ∷ ps) v a =
      All-append _ (queue l.input_queues_by_player p) (flat l.input_queues_by_player ps)
        (QueueOf-at_least n p (get l.last_input_seq_by_player p) _ (v.ordered p)
          (omega (arith, a.0)))
        (flat-at_least l n ps v a.1)

  ByRisingPlayer-QueueOf :
      (p : ℕ) (last : Option ℕ) (q cs : List (PlayerInputCommand F))
      → QueueOf p last q
      → All (λ d. p ≤ d.player_id) cs
      → ByRisingPlayer cs
      → ByRisingPlayer (q ++ cs)
  ByRisingPlayer-QueueOf p none q cs o a r = rw o r
  ByRisingPlayer-QueueOf p (some s) q cs o a r = ByRisingPlayer-append p s q cs o a r

  ByRisingPlayer-flat :
      (l : AuthoritativeLoop F) (ps : List ℕ)
      → IsValid l
      → Ascending ps
      → ByRisingPlayer (flat l.input_queues_by_player ps)
  ByRisingPlayer-flat l [] v a = tt
  ByRisingPlayer-flat l (p ∷ ps) v a =
      ByRisingPlayer-QueueOf p (get l.last_input_seq_by_player p) (queue l.input_queues_by_player p)
        _ (v.ordered p) (flat-at_least l p ps v a.0) (ByRisingPlayer-flat l ps v a.1)

  -- On a valid loop the drain takes the inputs by rising player id, and for each player exactly
  -- the queue of that player, in its order.
  pub drain_inputs_lem :
      (l : AuthoritativeLoop F)
      → IsValid l
      → ByRisingPlayer (drain_inputs_deterministic l).drained
        × ((a : ℕ)
            → of_player a (drain_inputs_deterministic l).drained ≡ queue l.input_queues_by_player a)
  unfolding drain_inputs_deterministic
  drain_inputs_lem l v =
      rw (drained-drain (λ n. sub64 n 1) l.input_queues_by_player l.pending_input_count v.distinct)
        (rising, λ a. of_player-in_order l a v)
    where
      rising : ByRisingPlayer (in_order l.input_queues_by_player)
      rising =
          unfold in_order in
          ByRisingPlayer-flat l (queue_ids l.input_queues_by_player) v
            (queue_ids-Ascending l.input_queues_by_player v.distinct)

  pub frames_unique :
      (every t : ℕ) (inputs : List (PlayerInputCommand F)) (fs gs : List (TickFrame F))
      → length fs ≡ length gs
      → FramesFrom every t inputs fs
      → FramesFrom every t inputs gs
      → fs ≡ gs
  frames_unique every t inputs [] [] e h k = refl
  frames_unique every t inputs [] (g ∷ gs) e h k = absurd (omega arith)
  frames_unique every t inputs (f ∷ fs) [] e h k = absurd (omega arith)
  frames_unique every t inputs (f ∷ fs) (g ∷ gs) e h k =
      let heads : f ≡ g = ground (arith, h.0, h.1, h.2, k.0, k.1, k.2) in
      cc (
        heads,
        frames_unique every f.tick [] fs gs (omega arith) h.3 (
            subst (λ t. FramesFrom every t [] gs) (ap (λ (x : TickFrame F). x.tick) (sym heads))
              k.3),
      )
