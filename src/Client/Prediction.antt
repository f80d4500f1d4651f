-- ===== src/Client/Prediction.antt =====
-- client/src/PredictionReconciler.cpp and client/include/client/PredictionReconciler.h: the client moves
-- its player ahead of the server, and starts again from each state that the server sends.
use devy_fps.Prelude.{
  ℕ, ◌+◌, Bool, true, List, [], ◌∷◌, ◌++◌, leb, eqb, if◌then◌else◌, length, nat_eq,
}
use devy_fps.Prelude.{u32, max}
use devy_fps.Prelude.Int.{ℤ}
use devy_fps.Prelude.Floats.{Floats, Doubles}
use devy_fps.Events.{MoveState, idle}
use devy_fps.Movement.{
  MovementTuning, MovementKinematicState, sanitize_movement_tuning, horizontal_speed, step_movement,
}
use devy_fps.Movement.Simulation.{seconds_of}

pub record PredictionConfig (F : Type 0) : Type 0 where
  pub movement_tuning : MovementTuning F
  pub max_pending_inputs : ℕ

pub record PredictedMotionState (F : Type 0) : Type 0 where
  pub position_x : F
  pub position_y : F
  pub velocity_x : F
  pub velocity_y : F
  pub speed : F
  pub grounded : Bool
  pub move_state : MoveState
  pub vertical_position : F
  pub vertical_velocity : F
  pub last_input_seq : ℕ

pub record SnapshotMotionState (F : Type 0) : Type 0 where
  pub player_id : ℕ
  pub position_x : F
  pub position_y : F
  pub velocity_x : F
  pub velocity_y : F
  pub speed : F
  pub grounded : Bool
  pub move_state : MoveState
  pub vertical_position : F
  pub vertical_velocity : F
  pub last_processed_input_seq : ℕ

pub record ReconciliationResult (F : Type 0) : Type 0 where
  pub applied : Bool
  pub acked_input_seq : ℕ
  pub replayed_inputs : ℕ
  pub correction_distance : F

pub record PendingInput (F : Type 0) : Type 0 where
  pub input_seq : ℕ
  pub move_x : F
  pub move_y : F
  pub jump : Bool
  pub fire : Bool
  pub sprint : Bool
  pub crouch : Bool
  pub dt : ℤ

pub record PredictionReconciler (F : Type 0) : Type 0 where
  pub config : PredictionConfig F
  pub next_input_seq : ℕ
  pub state : PredictedMotionState F
  pub pending_inputs : List (PendingInput F)

module _ {F : Type 0} where
  abbrev pub pop_front : List (PendingInput F) → List (PendingInput F)
  pop_front [] = []
  pop_front (i ∷ is) = is

  -- while (!pending.empty() && pending.front().input_seq <= acknowledged) pending.pop_front();
  unfoldable pub drop_acknowledged : ℕ → List (PendingInput F) → List (PendingInput F)
  drop_acknowledged acknowledged [] = []
  drop_acknowledged acknowledged (i ∷ is) =
      let rest = drop_acknowledged acknowledged is in
      if leb i.input_seq acknowledged then rest else i ∷ is

  -- The state that the server sent.
  unfoldable pub adopt : SnapshotMotionState F → PredictedMotionState F
  adopt s = record {
    position_x = s.position_x;
    position_y = s.position_y;
    velocity_x = s.velocity_x;
    velocity_y = s.velocity_y;
    speed = s.speed;
    grounded = s.grounded;
    move_state = s.move_state;
    vertical_position = s.vertical_position;
    vertical_velocity = s.vertical_velocity;
    last_input_seq = s.last_processed_input_seq;
  }

  abbrev pub predicted_kinematic : PredictedMotionState F → MovementKinematicState F
  predicted_kinematic s = record {
    position_x = s.position_x;
    position_y = s.position_y;
    velocity_x = s.velocity_x;
    velocity_y = s.velocity_y;
    vertical_position = s.vertical_position;
    vertical_velocity = s.vertical_velocity;
    grounded = s.grounded;
    move_state = s.move_state;
  }

module _ {F : Type 0} ⦃f : Floats F⦄ where
  unfoldable pub sanitize_config : PredictionConfig F → PredictionConfig F
  unfolding sanitize_movement_tuning
  sanitize_config c = record {
    movement_tuning = sanitize_movement_tuning c.movement_tuning;
    max_pending_inputs = if eqb c.max_pending_inputs 0 then 256 else c.max_pending_inputs;
  }

  unfoldable pub start_state : PredictedMotionState F
  start_state = record {
    position_x = f.literal 0 1;
    position_y = f.literal 0 1;
    velocity_x = f.literal 0 1;
    velocity_y = f.literal 0 1;
    speed = f.literal 0 1;
    grounded = true;
    move_state = idle;
    vertical_position = f.literal 0 1;
    vertical_velocity = f.literal 0 1;
    last_input_seq = 0;
  }

  unfoldable pub new : PredictionConfig F → PredictionReconciler F
  unfolding sanitize_config start_state
  new config = record {
    config = sanitize_config config;
    next_input_seq = 1;
    state = start_state;
    pending_inputs = [];
  }

  unfoldable pub reset : PredictionReconciler F → PredictionReconciler F
  unfolding start_state
  reset r = record r { next_input_seq = 1; state = start_state; pending_inputs = [] }

module _ {F D : Type 0} ⦃f : Floats F⦄ (d : Doubles F D) where
  unfoldable pub apply_input :
      PredictedMotionState F → PendingInput F → MovementTuning F → PredictedMotionState F
  unfolding step_movement horizontal_speed seconds_of
  apply_input state input tuning =
      let stepped =
        step_movement d (predicted_kinematic state)
          (record {
            move_x = input.move_x;
            move_y = input.move_y;
            jump = input.jump;
            sprint = input.sprint;
            crouch = input.crouch;
          })
          (seconds_of d input.dt) tuning in
      record {
        position_x = stepped.position_x;
        position_y = stepped.position_y;
        velocity_x = stepped.velocity_x;
        velocity_y = stepped.velocity_y;
        speed = horizontal_speed d stepped;
        grounded = stepped.grounded;
        move_state = stepped.move_state;
        vertical_position = stepped.vertical_position;
        vertical_velocity = stepped.vertical_velocity;
        last_input_seq = max state.last_input_seq input.input_seq;
      }

  -- The input gets the next number; where too many are pending, the oldest goes.
  unfoldable pub queue_local_input :
      PredictionReconciler F → F → F → Bool → Bool → Bool → Bool → ℤ → PredictionReconciler F × ℕ
  unfolding apply_input
  queue_local_input r move_x move_y jump sprint crouch fire dt =
      let input : PendingInput F = record {
        input_seq = r.next_input_seq;
        move_x = move_x;
        move_y = move_y;
        jump = jump;
        fire = fire;
        sprint = sprint;
        crouch = crouch;
        dt = dt;
      } in
      (
        record r {
          next_input_seq = u32 (r.next_input_seq + 1);
          state = apply_input r.state input r.config.movement_tuning;
          pending_inputs =
              (if leb r.config.max_pending_inputs (length r.pending_inputs)
                then pop_front r.pending_inputs
                else r.pending_inputs)
              ++ input ∷ [];
        },
        r.next_input_seq,
      )

  unfoldable pub replay :
      PredictedMotionState F → List (PendingInput F) → MovementTuning F → PredictedMotionState F
  unfolding apply_input
  replay state [] tuning = state
  replay state (i ∷ is) tuning = replay (apply_input state i tuning) is tuning

  unfoldable pub reconcile :
      PredictionReconciler F
      → SnapshotMotionState F
      → PredictionReconciler F × ReconciliationResult F
  unfolding drop_acknowledged adopt replay
  reconcile r authoritative_state =
      let pending =
        drop_acknowledged authoritative_state.last_processed_input_seq r.pending_inputs in
      let state = replay (adopt authoritative_state) pending r.config.movement_tuning in
      let dx = d.widen (f.subtract state.position_x r.state.position_x) in
      let dy = d.widen (f.subtract state.position_y r.state.position_y) in
      let correction =
        d.double.square_root (d.double.add (d.double.multiply dx dx) (d.double.multiply dy dy)) in
      (
        record r { state = state; pending_inputs = pending },
        record {
          applied = true;
          acked_input_seq = authoritative_state.last_processed_input_seq;
          replayed_inputs = length pending;
          correction_distance = d.narrow correction;
        },
      )
