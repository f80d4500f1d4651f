-- ===== src/Movement/Simulation.antt =====
-- server/src/MovementSimulation.cpp: all players move once per tick, by their latest input.
use devy_fps.Prelude.{
  ℕ, Bool, true, false, ◌||◌, List, [], ◌∷◌, Option, none, some, ltb, if◌then◌else◌, nat_eq,
}
use devy_fps.Prelude.{not}
use devy_fps.Prelude.Int.{ℤ, pos, ltb_ℤ}
use devy_fps.Prelude.Floats.{Floats, Doubles}
use devy_fps.Prelude.Map.{Map, get, put, erase, map_values}
use devy_fps.Prelude.Sort.{sort}
use devy_fps.Events.{idle, PlayerMotionState}
use devy_fps.Loop.{PlayerInputCommand}
use devy_fps.Movement.{
  MovementTuning, MovementInputIntent, MovementKinematicState, sanitize_movement_tuning,
  horizontal_speed, step_movement,
}

pub record MovementSimulation (F : Type 0) : Type 0 where
  pub tuning : MovementTuning F
  pub states_by_player : Map ℕ (PlayerMotionState F)

module _ {F : Type 0} ⦃f : Floats F⦄ where
  unfoldable pub new : MovementTuning F → MovementSimulation F
  unfolding sanitize_movement_tuning
  new tuning = record { tuning = sanitize_movement_tuning tuning; states_by_player = [] }

  unfoldable pub new_state : ℕ → PlayerMotionState F
  new_state player_id = record {
    player_id = player_id;
    position_x = f.literal 0 1;
    position_y = f.literal 0 1;
    velocity_x = f.literal 0 1;
    velocity_y = f.literal 0 1;
    speed = f.literal 0 1;
    grounded = true;
    move_state = idle;
    vertical_position = f.literal 0 1;
    vertical_velocity = f.literal 0 1;
    last_processed_input_seq = 0;
  }

  unfoldable pub ensure_player : MovementSimulation F → ℕ → MovementSimulation F
  unfolding new_state
  ensure_player m player_id = elim (get m.states_by_player player_id) [
    | none ↦ record m { states_by_player = put m.states_by_player player_id (new_state player_id) }
    | some s ↦ m
  ]

  -- No input: an intent of zeros.
  abbrev pub no_intent : MovementInputIntent F
  no_intent = record {
    move_x = f.literal 0 1;
    move_y = f.literal 0 1;
    jump = false;
    sprint = false;
    crouch = false;
  }

  unfoldable pub intent_of : Option (PlayerInputCommand F) → MovementInputIntent F
  intent_of none = no_intent
  intent_of (some c) = record {
    move_x = c.move_x;
    move_y = c.move_y;
    jump = c.jump;
    sprint = c.sprint;
    crouch = c.crouch;
  }

  -- The loop over the inputs: the latest of each player, and a state for each player.
  unfoldable pub latest_inputs :
      List (PlayerInputCommand F) → Map ℕ (PlayerInputCommand F) → Map ℕ (PlayerInputCommand F)
  latest_inputs [] latest = latest
  latest_inputs (c ∷ cs) latest = latest_inputs cs (put latest c.player_id c)

  unfoldable pub ensure_players :
      List (PlayerInputCommand F) → MovementSimulation F → MovementSimulation F
  unfolding ensure_player
  ensure_players [] m = m
  ensure_players (c ∷ cs) m = ensure_players cs (ensure_player m c.player_id)

module _ {F : Type 0} where
  unfoldable pub reset : MovementSimulation F → MovementSimulation F
  reset m = record m { states_by_player = [] }

  unfoldable pub remove_player : MovementSimulation F → ℕ → MovementSimulation F
  remove_player m player_id = record m { states_by_player = erase m.states_by_player player_id }

  unfoldable pub state_for : MovementSimulation F → ℕ → Option (PlayerMotionState F)
  state_for m player_id = get m.states_by_player player_id

  abbrev pub all_motions : Map ℕ (PlayerMotionState F) → List (PlayerMotionState F)
  all_motions [] = []
  all_motions ((player_id, s) ∷ states) = s ∷ all_motions states

  unfoldable pub snapshot : MovementSimulation F → List (PlayerMotionState F)
  snapshot m = sort (λ a b. ltb a.player_id b.player_id) (all_motions m.states_by_player)

  abbrev pub kinematic : PlayerMotionState F → MovementKinematicState F
  kinematic s = record {
    position_x = s.position_x;
    position_y = s.position_y;
    velocity_x = s.velocity_x;
    velocity_y = s.velocity_y;
    vertical_position = s.vertical_position;
    vertical_velocity = s.vertical_velocity;
    grounded = s.grounded;
    move_state = s.move_state;
  }

  -- `last_processed_input_seq` is raised, never lowered.
  abbrev pub raised : ℕ → Option (PlayerInputCommand F) → ℕ
  raised last none = last
  raised last (some c) = if ltb last c.input_seq then c.input_seq else last

module _ {F D : Type 0} ⦃f : Floats F⦄ (d : Doubles F D) where
  -- static_cast<float>(static_cast<double>(interval.count()) / 1'000'000'000.0)
  unfoldable pub seconds_of : ℤ → F
  seconds_of interval =
      d.narrow (d.double.divide (d.double.of_int interval) (d.double.literal 1_000_000_000 1))

  -- One round of the loop over the states.
  unfoldable pub move_player :
      MovementTuning F
      → F
      → Option (PlayerInputCommand F)
      → PlayerMotionState F
      → PlayerMotionState F
  unfolding step_movement horizontal_speed intent_of
  move_player tuning dt input s =
      let stepped = step_movement d (kinematic s) (intent_of input) dt tuning in
      record s {
        position_x = stepped.position_x;
        position_y = stepped.position_y;
        velocity_x = stepped.velocity_x;
        velocity_y = stepped.velocity_y;
        speed = horizontal_speed d stepped;
        grounded = stepped.grounded;
        move_state = stepped.move_state;
        vertical_position = stepped.vertical_position;
        vertical_velocity = stepped.vertical_velocity;
        last_processed_input_seq = raised s.last_processed_input_seq input;
      }

  -- The loop over the states.
  unfoldable pub move_all :
      F → Map ℕ (PlayerInputCommand F) → MovementSimulation F → MovementSimulation F
  unfolding move_player
  move_all dt latest m = record m {
    states_by_player =
        map_values (λ player_id s. move_player m.tuning dt (get latest player_id) s)
          m.states_by_player;
  }

  -- The early returns.
  unfoldable pub has_no_duration : ℤ → Bool
  unfolding seconds_of
  has_no_duration tick_interval =
      not (ltb_ℤ (pos 0) tick_interval) || f.at_most (seconds_of tick_interval) (f.literal 0 1)

  unfoldable pub apply_inputs :
      MovementSimulation F → ℤ → List (PlayerInputCommand F) → MovementSimulation F
  unfolding has_no_duration seconds_of move_all ensure_players latest_inputs
  apply_inputs m tick_interval inputs =
      if has_no_duration tick_interval
      then m
      else move_all (seconds_of tick_interval) (latest_inputs inputs []) (ensure_players inputs m)
