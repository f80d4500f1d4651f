-- ===== src/Client/PredictionTests.antt =====
-- A player who walks, over a `float` that holds whole numbers only.
use devy_fps.Prelude.{◌≤◌, ◌≡◌, refl, false, [], ◌∷◌, some, length, All, nat_eq}
use devy_fps.Prelude.Int.{ℤ, pos}
use devy_fps.Prelude.Whole.{whole, whole_doubles}
use devy_fps.Prelude.Map.{get}
use devy_fps.Events.{PlayerMotionState}
use devy_fps.Movement.{MovementTuning}
use devy_fps.Movement.Simulation
use devy_fps.Movement.Simulation.{MovementSimulation, new_state, has_no_duration, seconds_of}
use devy_fps.Client.Prediction.{
  PredictionConfig, PredictionReconciler, new, queue_local_input, drop_acknowledged, adopt,
  reconcile, sanitize_config,
}
use devy_fps.Client.Reconciled.{snapshot_of, serve, reconcile_predicts_server}
use devy_fps.Client.Pending.{Call, input_call, run, pending_inputs_stay_bounded}

abbrev tuning : MovementTuning ℤ
tuning = record {
  accel_ground_units_per_second2 = pos 48;
  accel_air_units_per_second2 = pos 16;
  friction_ground_units_per_second2 = pos 20;
  max_speed_walk_units_per_second = pos 6;
  sprint_speed_multiplier = pos 2;
  crouch_speed_multiplier = pos 1;
  jump_velocity_units_per_second = pos 7;
  gravity_units_per_second2 = pos 22;
}

abbrev config : PredictionConfig ℤ
config = record { movement_tuning = tuning; max_pending_inputs = 2 }

abbrev step_right : Call ℤ
step_right = input_call (pos 1) (pos 0) false false false false (pos 1_000_000_000)

-- Two inputs are pending; the first was dropped, since the client keeps two.
abbrev walked : PredictionReconciler ℤ
walked = run whole_doubles (new config) (step_right ∷ step_right ∷ step_right ∷ [])

-- The server has taken the first input.
abbrev seen : PlayerMotionState ℤ
seen = record (new_state 1) { position_x = pos 6; velocity_x = pos 6; last_processed_input_seq = 1 }

abbrev server : MovementSimulation ℤ
server = record (Simulation.new tuning) { states_by_player = (1, seen) ∷ [] }

server_lem : get server.states_by_player 1 ≡ some seen
unfolding get
server_lem = refl

tuning_lem : server.tuning ≡ walked.config.movement_tuning
unfolding Simulation.new new sanitize_config queue_local_input
tuning_lem = refl

durations_lem :
    All
      (λ i. has_no_duration whole_doubles i.dt ≡ false)
      (reconcile whole_doubles walked (snapshot_of seen)).0.pending_inputs
unfolding reconcile new queue_local_input drop_acknowledged has_no_duration whole sanitize_config
durations_lem = (refl, (refl, tt))

reconcile_predicts_server_example :
    let after = (reconcile whole_doubles walked (snapshot_of seen)).0 in
    let later = serve whole_doubles 1 (λ i. []) after.pending_inputs server in
    (t : PlayerMotionState ℤ) × ((get later.states_by_player 1 ≡ some t)
      × (adopt (snapshot_of t) ≡ after.state))
reconcile_predicts_server_example =
    reconcile_predicts_server whole_doubles walked server 1 seen (λ i. []) server_lem tuning_lem
      durations_lem

pending_inputs_stay_bounded_example :
    length
      (run whole_doubles (new config) (step_right ∷ step_right ∷ step_right ∷ [])).pending_inputs
    ≤ 2
pending_inputs_stay_bounded_example =
    pending_inputs_stay_bounded whole_doubles config (step_right ∷ step_right ∷ step_right ∷ [])
