-- ===== src/Client/Reconciled.antt =====
-- The client's prediction (client/src/PredictionReconciler.cpp) beside the server's movement
-- (server/src/MovementSimulation.cpp).
use devy_fps.Prelude.{
  ℕ, ◌≡◌, ◌∙◌, inl, inr, refl, ap, Bool, true, false, List, [], ◌∷◌, ◌++◌, some, if◌then◌else◌, All,
  nat_eq, arith, Option-cases, eqb_refl, eqb_iff,
}
use devy_fps.Prelude.{max, ap₂}
use devy_fps.Prelude.Int.{ℤ}
use devy_fps.Prelude.Floats.{Floats, Doubles}
use devy_fps.Prelude.Map.{Map, get, put, get-put, get-map_values, map_found}
use devy_fps.Events.{PlayerMotionState}
use devy_fps.Loop.{PlayerInputCommand}
use devy_fps.Movement.{MovementTuning}
use devy_fps.Movement.Simulation.{
  MovementSimulation, ensure_player, ensure_players, latest_inputs, intent_of, seconds_of, raised,
  move_player, move_all, has_no_duration, apply_inputs,
}
use devy_fps.Client.Prediction.{
  SnapshotMotionState, PendingInput, PredictionReconciler, drop_acknowledged, adopt, apply_input,
  replay, reconcile,
}

module _ {F : Type 0} where
  -- The input as the server has it in its queue.
  abbrev pub command_of : ℕ → PendingInput F → PlayerInputCommand F
  command_of p i = record {
    player_id = p;
    input_seq = i.input_seq;
    move_x = i.move_x;
    move_y = i.move_y;
    jump = i.jump;
    fire = i.fire;
    received_at = 0;
    sprint = i.sprint;
    crouch = i.crouch;
  }

  -- What the server sends of a player.
  abbrev pub snapshot_of : PlayerMotionState F → SnapshotMotionState F
  snapshot_of s = record {
    player_id = s.player_id;
    position_x = s.position_x;
    position_y = s.position_y;
    velocity_x = s.velocity_x;
    velocity_y = s.velocity_y;
    speed = s.speed;
    grounded = s.grounded;
    move_state = s.move_state;
    vertical_position = s.vertical_position;
    vertical_velocity = s.vertical_velocity;
    last_processed_input_seq = s.last_processed_input_seq;
  }

module _ {F D : Type 0} ⦃f : Floats F⦄ (d : Doubles F D) where
  -- The server takes one of the pending inputs in each tick, after the inputs of others.
  abbrev pub serve :
      ℕ
      → (PendingInput F → List (PlayerInputCommand F))
      → List (PendingInput F)
      → MovementSimulation F
      → MovementSimulation F
  serve p others [] m = m
  serve p others (i ∷ is) m =
      serve p others is (apply_inputs d m i.dt (others i ++ command_of p i ∷ []))

  raised-max :
      (p last : ℕ) (i : PendingInput F) → raised last (some (command_of p i)) ≡ max last i.input_seq
  raised-max p last i = ground arith

  move_player-adopt :
      (tuning : MovementTuning F) (p : ℕ) (i : PendingInput F) (s : PlayerMotionState F)
      → adopt (snapshot_of (move_player d tuning (seconds_of d i.dt) (some (command_of p i)) s))
        ≡ apply_input d (adopt (snapshot_of s)) i tuning
  unfolding move_player apply_input adopt intent_of
  move_player-adopt tuning p i s =
      ap (λ n. record (apply_input d (adopt (snapshot_of s)) i tuning) { last_input_seq = n })
        (raised-max p s.last_processed_input_seq i)

  latest_append :
      (cs : List (PlayerInputCommand F)) (c : PlayerInputCommand F)
      (m : Map ℕ (PlayerInputCommand F))
      → get (latest_inputs (cs ++ c ∷ []) m) c.player_id ≡ some c
  unfolding latest_inputs
  latest_append [] c m = get-put m c.player_id c.player_id c ∙ rw (eqb_refl c.player_id) refl
  latest_append (e ∷ cs) c m = latest_append cs c (put m e.player_id e)

  ensure_player_found :
      (m : MovementSimulation F) (p q : ℕ) (s : PlayerMotionState F)
      → get m.states_by_player p ≡ some s
      → get (ensure_player m q).states_by_player p ≡ some s
  unfolding ensure_player
  ensure_player_found m p q s h = elim (Option-cases (get m.states_by_player q)) [
    | inl e ↦
        rw (ensure_player, e) (get-put m.states_by_player q p _ ∙ ground (arith, h, e, eqb_iff q p))
    | inr (t, e) ↦ rw (ensure_player, e) h
  ]

  ensure_players_found :
      (cs : List (PlayerInputCommand F)) (m : MovementSimulation F) (p : ℕ)
      (s : PlayerMotionState F)
      → get m.states_by_player p ≡ some s
      → get (ensure_players cs m).states_by_player p ≡ some s
  unfolding ensure_players
  ensure_players_found [] m p s h = h
  ensure_players_found (c ∷ cs) m p s h =
      ensure_players_found cs (ensure_player m c.player_id) p s
        (ensure_player_found m p c.player_id s h)

  tuning-ensure_players :
      (cs : List (PlayerInputCommand F)) (m : MovementSimulation F)
      → (ensure_players cs m).tuning ≡ m.tuning
  unfolding ensure_players ensure_player
  tuning-ensure_players [] m = refl
  tuning-ensure_players (c ∷ cs) m = elim (Option-cases (get m.states_by_player c.player_id)) [
    | inl e ↦ tuning-ensure_players cs (ensure_player m c.player_id) ∙ rw (ensure_player, e) refl
    | inr (t, e) ↦
        tuning-ensure_players cs (ensure_player m c.player_id) ∙ rw (ensure_player, e) refl
  ]

  tuning_if :
      (b : Bool) (m n : MovementSimulation F)
      → n.tuning ≡ m.tuning
      → (if b then m else n).tuning ≡ m.tuning
  tuning_if true m n e = refl
  tuning_if false m n e = e

  tuning-apply_inputs :
      (m : MovementSimulation F) (interval : ℤ) (cs : List (PlayerInputCommand F))
      → (apply_inputs d m interval cs).tuning ≡ m.tuning
  unfolding apply_inputs move_all
  tuning-apply_inputs m interval cs =
      tuning_if (has_no_duration d interval) m
        (move_all d (seconds_of d interval) (latest_inputs cs []) (ensure_players cs m))
        (tuning-ensure_players cs m)

  -- A tick moves a player by the latest input.
  apply_inputs_found :
      (m : MovementSimulation F) (p : ℕ) (i : PendingInput F) (cs : List (PlayerInputCommand F))
      (s : PlayerMotionState F)
      → has_no_duration d i.dt ≡ false
      → get m.states_by_player p ≡ some s
      → get (apply_inputs d m i.dt (cs ++ command_of p i ∷ [])).states_by_player p
        ≡ some (move_player d m.tuning (seconds_of d i.dt) (some (command_of p i)) s)
  unfolding apply_inputs move_all
  apply_inputs_found m p i cs s h found =
      let inputs = cs ++ command_of p i ∷ [] in
      let latest = latest_inputs inputs [] in
      let ensured = ensure_players inputs m in
      let dt = seconds_of d i.dt in
      ap (λ b. get (if b then m else move_all d dt latest ensured).states_by_player p) h
      ∙ get-map_values (λ q t. move_player d ensured.tuning dt (get latest q) t)
          ensured.states_by_player p
      ∙ ap (map_found (move_player d ensured.tuning dt (get latest p)))
          (ensure_players_found inputs m p s found)
      ∙ ap₂ (λ o u. some (move_player d u dt o s)) (latest_append cs (command_of p i) [])
          (tuning-ensure_players inputs m)

  serve_found :
      (p : ℕ) (others : PendingInput F → List (PlayerInputCommand F)) (is : List (PendingInput F))
      (m : MovementSimulation F) (s : PlayerMotionState F)
      → All (λ i. has_no_duration d i.dt ≡ false) is
      → get m.states_by_player p ≡ some s
      → (t : PlayerMotionState F) × ((get (serve p others is m).states_by_player p ≡ some t)
          × (adopt (snapshot_of t) ≡ replay d (adopt (snapshot_of s)) is m.tuning))
  unfolding replay
  serve_found p others [] m s h found = (s, (found, refl))
  serve_found p others (i ∷ is) m s h found =
      let after = apply_inputs d m i.dt (others i ++ command_of p i ∷ []) in
      let moved = move_player d m.tuning (seconds_of d i.dt) (some (command_of p i)) s in
      let (t, (g, e)) =
        serve_found p others is after moved h.1 (apply_inputs_found m p i (others i) s h.0 found) in
      (
        t,
        (
          g,
          e
              ∙ ap₂ (λ u v. replay d u is v) (move_player-adopt m.tuning p i s)
                  (tuning-apply_inputs m i.dt (others i ++ command_of p i ∷ [])),
        ),
      )

  -- A client with the server's tuning that gets the server's state of its player has, with that, the
  -- state in which the server will have the player after it has taken the inputs that the client still
  -- has pending, one per tick, each over its own interval and whatever other inputs the tick has before
  -- it.
  pub reconcile_predicts_server :
      (r : PredictionReconciler F) (m : MovementSimulation F) (p : ℕ) (s : PlayerMotionState F)
      (others : PendingInput F → List (PlayerInputCommand F))
      → get m.states_by_player p ≡ some s
      → m.tuning ≡ r.config.movement_tuning
      → All (λ i. has_no_duration d i.dt ≡ false) (reconcile d r (snapshot_of s)).0.pending_inputs
      → let after = (reconcile d r (snapshot_of s)).0 in
        let later = serve p others after.pending_inputs m in
        (t : PlayerMotionState F) × ((get later.states_by_player p ≡ some t)
          × (adopt (snapshot_of t) ≡ after.state))
  unfolding reconcile
  reconcile_predicts_server r m p s others found tuning h =
      let pending = drop_acknowledged s.last_processed_input_seq r.pending_inputs in
      let (t, (g, e)) = serve_found p others pending m s h found in
      (t, (g, e ∙ ap (replay d (adopt (snapshot_of s)) pending) tuning))
