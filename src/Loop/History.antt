-- ===== src/Loop/History.antt =====
-- The input queues of server/src/AuthoritativeLoop.cpp over any calls.
use devy_fps.Prelude.{
  ℕ, zero, suc, ◌+◌, ◌-◌, ◌≤◌, ◌<◌, ◌≡◌, ◌∙◌, inl, inr, refl, sym, ap, subst, List, [], ◌∷◌, ◌++◌,
  Option, none, some, ltb, eqb, sub64, length, nat_eq, arith, Bool-cases, Option-cases,
}
use devy_fps.Prelude.Map.{get, erase, get-erase, erase-Distinct, erase_missing}
use devy_fps.Prelude.Queues.{queue, or_empty, total, total-erase}
use devy_fps.Prelude.Queues.Drain.{iterate, drain-Distinct, queue-drain, total-drain, count-drain}
use devy_fps.Loop.{
  RuntimeConfig, PlayerInputCommand, TickFrame, AuthoritativeLoop, reset, new, enqueue_input,
  clear_player, drain_inputs_deterministic, run_tick, advance_fuel, advance,
}
use devy_fps.Loop.Invariant.{IsValid, QueueOf, new-IsValid, reset-IsValid, enqueue-IsValid}

iterate-decrement :
    (k n : ℕ) → k ≤ n → n < 18446744073709551616 → iterate (λ t. sub64 t 1) k n ≡ n - k
iterate-decrement zero n h b = omega arith
iterate-decrement (suc k) n h b =
    iterate-decrement k (sub64 n 1) (omega arith) (omega arith) ∙ omega arith

-- A call on the loop, as the server makes them.
pub data Call (F : Type 0) : Type 0 where
  resets : ℕ → Call F
  enqueues : PlayerInputCommand F → Call F
  clears : ℕ → Call F
  advances : ℕ → Call F

module _ {F : Type 0} where
  clear-ordered :
      (l : AuthoritativeLoop F) (player_id p : ℕ)
      → IsValid l
      → QueueOf p
          (get (erase l.last_input_seq_by_player player_id) p)
          (queue (erase l.input_queues_by_player player_id) p)
  clear-ordered l player_id p v = elim (Bool-cases (eqb player_id p)) [
    | inl e ↦ rw (get-erase l.last_input_seq_by_player, get-erase l.input_queues_by_player, e) refl
    | inr e ↦
        rw (get-erase l.last_input_seq_by_player, get-erase l.input_queues_by_player, e)
          (v.ordered p)
  ]

  cleared :
      (l : AuthoritativeLoop F) (player_id : ℕ) (q : List (PlayerInputCommand F))
      → IsValid l
      → get l.input_queues_by_player player_id ≡ some q
      → (sub64 l.pending_input_count (length q) ≡ total (erase l.input_queues_by_player player_id))
        × (length q ≤ l.pending_input_count)
  cleared l player_id q v e = omega (
    arith,
    v.exact,
    v.within,
    v.fits,
    total-erase l.input_queues_by_player player_id v.distinct,
    ap (λ o. length (or_empty o)) e,
  )

  clear-IsValid :
      (l : AuthoritativeLoop F) (player_id : ℕ) → IsValid l → IsValid (clear_player l player_id)
  clear-IsValid l player_id v = elim (Option-cases (get l.input_queues_by_player player_id)) [
    | inl e ↦
        unfold clear_player in
        rw (e, clear_player)
          (record {
            distinct = v.distinct;
            exact = v.exact;
            within = v.within;
            fits = v.fits;
            ticking = v.ticking;
            sampling = v.sampling;
            ordered = λ p.
                rw (← erase_missing l.input_queues_by_player player_id e)
                  (clear-ordered l player_id p v);
          })
    | inr (q, e) ↦
        unfold clear_player in
        rw (e, clear_player)
          (record {
            distinct = erase-Distinct l.input_queues_by_player player_id v.distinct;
            exact = (cleared l player_id q v e).0;
            within = omega (arith, v.within, cleared l player_id q v e);
            fits = v.fits;
            ticking = v.ticking;
            sampling = v.sampling;
            ordered = λ p. clear-ordered l player_id p v;
          })
  ]

  QueueOf-nil :
      (p : ℕ) (last : Option ℕ) (q : List (PlayerInputCommand F)) → q ≡ [] → QueueOf p last q
  QueueOf-nil p none q e = e
  QueueOf-nil p (some s) q e = rw e tt

  -- The count is back at 0, as the queues are empty.
  pub drained_count :
      (l : AuthoritativeLoop F) → IsValid l → (drain_inputs_deterministic l).count ≡ 0
  unfolding drain_inputs_deterministic
  drained_count l v =
      count-drain (λ t. sub64 t 1) l.input_queues_by_player l.pending_input_count v.distinct
      ∙ iterate-decrement (total l.input_queues_by_player) l.pending_input_count
          (omega (arith, v.exact)) (omega (arith, v.within, v.fits))
      ∙ omega (arith, v.exact)

  pub run_tick-IsValid : (l : AuthoritativeLoop F) → IsValid l → IsValid (run_tick l).0
  unfolding run_tick
  run_tick-IsValid l v = record {
    distinct = drain-Distinct _ l.input_queues_by_player l.pending_input_count v.distinct;
    exact =
        drained_count l v
        ∙ sym (total-drain _ l.input_queues_by_player l.pending_input_count v.distinct);
    within = rw (drained_count l v) (omega arith);
    fits = v.fits;
    ticking = v.ticking;
    sampling = v.sampling;
    ordered = λ p.
        QueueOf-nil p (get l.last_input_seq_by_player p) _
          (queue-drain _ l.input_queues_by_player l.pending_input_count v.distinct p);
  }

  advance_fuel-IsValid :
      (fuel : ℕ) (l m : AuthoritativeLoop F) (now : ℕ) (frames out : List (TickFrame F))
      → IsValid l
      → advance_fuel fuel l now frames ≡ some (m, out)
      → IsValid m
  unfolding advance_fuel
  advance_fuel-IsValid zero l m now frames out v h = cc
  advance_fuel-IsValid (suc fuel) l m now frames out v h =
      elim (Bool-cases (ltb now l.next_tick_deadline)) [
        | inl e ↦ subst IsValid (ground arith) v
        | inr e ↦
            advance_fuel-IsValid fuel (run_tick l).0 m now (frames ++ (run_tick l).1 ∷ []) out
              (run_tick-IsValid l v) (ground arith)
      ]

  abbrev pub loop_after :
      AuthoritativeLoop F → Option (AuthoritativeLoop F × List (TickFrame F)) → AuthoritativeLoop F
  loop_after l none = l
  loop_after l (some (m, out)) = m

  unfoldable pub call : AuthoritativeLoop F → Call F → AuthoritativeLoop F
  unfolding reset enqueue_input clear_player advance
  call l (resets start) = reset l start
  call l (enqueues c) = (enqueue_input l c).0
  call l (clears p) = clear_player l p
  call l (advances now) = loop_after l (advance l now)

  unfoldable pub run : AuthoritativeLoop F → List (Call F) → AuthoritativeLoop F
  unfolding call
  run l [] = l
  run l (c ∷ cs) = run (call l c) cs

  pub call-IsValid : (l : AuthoritativeLoop F) (c : Call F) → IsValid l → IsValid (call l c)
  unfolding call advance
  call-IsValid l (resets start) v = reset-IsValid l start v
  call-IsValid l (enqueues c) v = enqueue-IsValid l c v
  call-IsValid l (clears p) v = clear-IsValid l p v
  call-IsValid l (advances now) v = elim (Option-cases (advance_fuel (now + 2) l now [])) [
    | inl e ↦ rw (e, loop_after) v
    | inr (r, e) ↦ rw (e, loop_after) (advance_fuel-IsValid (now + 2) l r.0 now [] r.1 v e)
  ]

  run-IsValid : (l : AuthoritativeLoop F) (cs : List (Call F)) → IsValid l → IsValid (run l cs)
  unfolding run
  run-IsValid l [] v = v
  run-IsValid l (c ∷ cs) v = run-IsValid (call l c) cs (call-IsValid l c v)

  -- After any calls on a new loop whose capacity is a 64-bit number: the queued inputs are counted
  -- exactly and never pass the capacity, and each player's queue holds only that player's inputs,
  -- by strictly rising sequence number, none above the number last accepted from the player.
  pub run-new-IsValid :
      (config : RuntimeConfig) (start : ℕ) (cs : List (Call F))
      → config.input_queue_capacity < 18446744073709551616
      → IsValid (run (new config start) cs)
  run-new-IsValid config start cs h = run-IsValid (new config start) cs (new-IsValid config start h)
