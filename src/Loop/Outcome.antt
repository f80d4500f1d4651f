-- ===== src/Loop/Outcome.antt =====
-- The frames of server/src/AuthoritativeLoop.cpp and the order of its hash tables, and the status of
-- `enqueue_input` on every branch.
use devy_fps.Prelude.{
  ℕ, suc, ◌+◌, ◌*◌, ◌≤◌, ◌<◌, ◌≡◌, ◌⊎◌, sym, subst, List, some, leb, if◌then◌else◌, length, nat_eq,
  arith,
}
use native.Mathlib.Decide.{dec_le}
use devy_fps.Prelude.Map.{get}
use devy_fps.Prelude.Queues.{queue, in_order, in_order_cong}
use devy_fps.Loop.{
  PlayerInputCommand, TickFrame, AuthoritativeLoop, advance, accepted, queue_full, out_of_order,
  is_stale, enqueue_input, accept_input,
}
use devy_fps.Loop.Invariant.{IsValid, behind_back_false}
use devy_fps.Loop.Ticks.{Advanced, advance_lem}
use devy_fps.Loop.Order.{frames_unique}

rounds_le : (d i now a b : ℕ) → now < d + a * i → (b ≡ 0) ⊎ (d + b * i ≤ now + i) → b ≤ a
rounds_le d i now a b h k = elim (dec_le b a) [
  | yes p ↦ p
  | no p ↦
      let less : suc a ≤ b = omega arith in
      let times : suc a * i ≤ b * i = grind arith in absurd (omega (arith, h, k, times))
]

module _ {F : Type 0} where
  -- Two loops that agree on every number and every lookup that `advance` makes.
  pub record SameView (l k : AuthoritativeLoop F) : Type 0 where
    pub deadline : l.next_tick_deadline ≡ k.next_tick_deadline
    pub interval : l.tick_interval ≡ k.tick_interval
    pub counter : l.tick_counter ≡ k.tick_counter
    pub every : l.config.snapshot_interval_ticks ≡ k.config.snapshot_interval_ticks
    pub queues : (p : ℕ) → queue l.input_queues_by_player p ≡ queue k.input_queues_by_player p

  Advanced-length :
      (l k m n : AuthoritativeLoop F) (now : ℕ) (fs gs : List (TickFrame F))
      → SameView l k
      → Advanced l m now fs
      → Advanced k n now gs
      → length gs ≤ length fs
  Advanced-length l k m n now fs gs s a b =
      rounds_le l.next_tick_deadline l.tick_interval now (length fs) (length gs)
        (omega (arith, a.caught_up, a.paced))
        (rw (s.deadline, s.interval)
          (subst (λ t. (length gs ≡ 0) ⊎ (t ≤ now + k.tick_interval)) b.paced b.not_ahead))

  SameView-sym : {l k : AuthoritativeLoop F} → SameView l k → SameView k l
  SameView-sym s = record {
    deadline = sym s.deadline;
    interval = sym s.interval;
    counter = sym s.counter;
    every = sym s.every;
    queues = λ p. sym (s.queues p);
  }

  Advanced-unique :
      (l k m n : AuthoritativeLoop F) (now : ℕ) (fs gs : List (TickFrame F))
      → IsValid l
      → IsValid k
      → SameView l k
      → Advanced l m now fs
      → Advanced k n now gs
      → fs ≡ gs
  Advanced-unique l k m n now fs gs v w s a b =
      frames_unique k.config.snapshot_interval_ticks k.tick_counter
        (in_order k.input_queues_by_player) fs gs
        (omega (
          arith,
          Advanced-length l k m n now fs gs s a b,
          Advanced-length k l n m now gs fs (SameView-sym s) b a,
        ))
        (rw
          (
            ← s.every,
            ← s.counter,
            ← in_order_cong l.input_queues_by_player k.input_queues_by_player v.distinct w.distinct
                s.queues,
          )
          a.numbered)
        b.numbered

  -- Two valid loops that agree on the numbers and on every player's queue make the same frames,
  -- whatever the order in which their tables hold the players.
  pub advance_deterministic :
      (l k m n : AuthoritativeLoop F) (now : ℕ) (fs gs : List (TickFrame F))
      → IsValid l
      → IsValid k
      → SameView l k
      → advance l now ≡ some (m, fs)
      → advance k now ≡ some (n, gs)
      → fs ≡ gs
  advance_deterministic l k m n now fs gs v w s e f =
      let (m', fs', e', a) = advance_lem l now v in
      let (n', gs', f', b) = advance_lem k now w in
      cc (e', f', Advanced-unique l k m' n' now fs' gs' v w s a b)

  -- On a valid loop an input is refused as out of order exactly if its number is not above the one
  -- last accepted from the player, else for want of room exactly if the capacity is reached; a
  -- refused input leaves the loop as it was.
  pub enqueue_input_lem :
      (l : AuthoritativeLoop F) (c : PlayerInputCommand F)
      → IsValid l
      → enqueue_input l c ≡ (
          if is_stale (get l.last_input_seq_by_player c.player_id) c.input_seq
          then (l, out_of_order)
          else if leb l.config.input_queue_capacity l.pending_input_count
          then (l, queue_full)
          else (accept_input l c, accepted))
  unfolding enqueue_input
  enqueue_input_lem l c v = ground (
    arith,
    behind_back_false c.player_id c.input_seq (get l.last_input_seq_by_player c.player_id)
        (queue l.input_queues_by_player c.player_id) (v.ordered c.player_id),
  )
