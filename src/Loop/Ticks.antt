-- ===== src/Loop/Ticks.antt =====
-- `advance`: how many frames it makes, which numbers they have and which inputs they carry.
use devy_fps.Prelude.{
  ℕ, zero, suc, ◌+◌, ◌-◌, ◌*◌, ◌%◌, ◌≤◌, ◌<◌, ◌≡◌, ◌⊎◌, ◌∙◌, inl, inr, refl, sym, ap, subst, List,
  [], ◌∷◌, ◌++◌, some, ltb, eqb, u64, sub64, length, nat_eq, arith, Bool-cases,
}
use mathlib.Core.List.{append-nil, append_assoc}
use devy_fps.Prelude.{nil_of_length, ltb-false, ltb→lt}
use devy_fps.Prelude.Queues.{in_order}
use devy_fps.Prelude.Queues.Drain.{
  drain, drain-Distinct, drained-drain, total-drain, length-in_order,
}
use devy_fps.Loop.{
  PlayerInputCommand, TickFrame, AuthoritativeLoop, drain_inputs_deterministic, run_tick,
  advance_fuel, advance,
}
use devy_fps.Loop.Invariant.{IsValid}
use devy_fps.Loop.History.{run_tick-IsValid}

module _ {F : Type 0} where
  -- Frames numbered from `t` + 1 on in 64 bits, the first with the given inputs and the others with
  -- none, each marked for a snapshot exactly if its number is a multiple of `every`.
  abbrev pub FramesFrom : ℕ → ℕ → List (PlayerInputCommand F) → List (TickFrame F) → Type 0
  FramesFrom every t inputs [] = Unit {0}
  FramesFrom every t inputs (f ∷ fs) =
      (f.tick ≡ u64 (t + 1))
      × (f.inputs ≡ inputs)
      × (f.snapshot_due ≡ eqb (f.tick % every) 0)
      × FramesFrom every f.tick [] fs

  pub record Advanced (l m : AuthoritativeLoop F) (now : ℕ) (frames : List (TickFrame F))
      : Type 0 where
    pub caught_up : now < m.next_tick_deadline
    pub not_ahead : (length frames ≡ 0) ⊎ (m.next_tick_deadline ≤ now + l.tick_interval)
    pub paced : m.next_tick_deadline ≡ l.next_tick_deadline + length frames * l.tick_interval
    pub numbered :
        FramesFrom l.config.snapshot_interval_ticks l.tick_counter
          (in_order l.input_queues_by_player)
          frames

  in_order-run_tick :
      (l : AuthoritativeLoop F) → IsValid l → in_order (run_tick l).0.input_queues_by_player ≡ []
  unfolding run_tick
  in_order-run_tick l v =
      nil_of_length
        (in_order (drain (λ n. sub64 n 1) l.input_queues_by_player l.pending_input_count).queues)
        (length-in_order (λ n. sub64 n 1) _ 0
            (drain-Distinct _ l.input_queues_by_player l.pending_input_count v.distinct)
          ∙ total-drain _ l.input_queues_by_player l.pending_input_count v.distinct)

  not_ahead_step :
      (l m : AuthoritativeLoop F) (now : ℕ) (frames : List (TickFrame F))
      → l.next_tick_deadline ≤ now
      → Advanced (run_tick l).0 m now frames
      → m.next_tick_deadline ≤ now + l.tick_interval
  unfolding run_tick
  not_ahead_step l m now [] due a = omega (arith, a.paced)
  not_ahead_step l m now (f ∷ fs) due a = omega (arith, a.not_ahead)

  Advanced-step :
      (l m : AuthoritativeLoop F) (now : ℕ) (frames : List (TickFrame F))
      → IsValid l
      → l.next_tick_deadline ≤ now
      → Advanced (run_tick l).0 m now frames
      → Advanced l m now ((run_tick l).1 ∷ frames)
  unfolding run_tick drain_inputs_deterministic
  Advanced-step l m now frames v due a = record {
    caught_up = a.caught_up;
    not_ahead = inr (not_ahead_step l m now frames due a);
    paced = grind (arith, a.paced);
    numbered = (
      refl,
      drained-drain _ l.input_queues_by_player l.pending_input_count v.distinct,
      refl,
      subst (λ q. FramesFrom l.config.snapshot_interval_ticks (u64 (l.tick_counter + 1)) q frames)
          (in_order-run_tick l v) a.numbered,
    );
  }

  Advanced-done :
      (l : AuthoritativeLoop F) (now : ℕ) → now < l.next_tick_deadline → Advanced l l now []
  Advanced-done l now h = record {
    caught_up = h;
    not_ahead = inl refl;
    paced = omega arith;
    numbered = tt;
  }

  advance_fuel_lem :
      (fuel : ℕ) (l : AuthoritativeLoop F) (now : ℕ) (frames : List (TickFrame F))
      → IsValid l
      → now + 1 - l.next_tick_deadline < fuel
      → (m : AuthoritativeLoop F) × (new : List (TickFrame F)) × (advance_fuel fuel l now frames
          ≡ some (m, frames ++ new))
        × Advanced l m now new
  unfolding advance_fuel
  advance_fuel_lem zero l now frames v h = elim h [ ]
  advance_fuel_lem (suc fuel) l now frames v h = elim (Bool-cases (ltb now l.next_tick_deadline)) [
    | inl e ↦ (
      l,
      [],
      rw e (ap (λ t. some (l, t)) (sym (append-nil frames))),
      Advanced-done l now (ltb→lt now l.next_tick_deadline e),
    )
    | inr e ↦
        let due : l.next_tick_deadline ≤ now = ltb-false now l.next_tick_deadline e in
        let less : now + 1 - (run_tick l).0.next_tick_deadline < fuel =
          unfold run_tick in omega (arith, v.ticking) in
        let (m, new, eq, a) =
          advance_fuel_lem fuel (run_tick l).0 now (frames ++ (run_tick l).1 ∷ [])
            (run_tick-IsValid l v) less in
        (
          m,
          (run_tick l).1 ∷ new,
          rw (e, eq) (ap (λ t. some (m, t)) (append_assoc frames ((run_tick l).1 ∷ []) new)),
          Advanced-step l m now new v due a,
        )
  ]

  -- On a valid loop `advance` ends: the deadline it leaves lies after `now`, by no more than one
  -- interval if any frame was made; it moved by one interval for each frame; the frames are numbered
  -- on from the counter, the first carries all queued inputs by ascending player id, and the others none.
  pub advance_lem :
      (l : AuthoritativeLoop F) (now : ℕ)
      → IsValid l
      → (m : AuthoritativeLoop F) × (frames : List (TickFrame F)) × (advance l now
          ≡ some (m, frames))
        × Advanced l m now frames
  unfolding advance
  advance_lem l now v = advance_fuel_lem (now + 2) l now [] v (omega arith)
