-- ===== src/Movement.antt =====
-- One step of a player's movement, shared/src/game/Movement.cpp.
pub mod Simulation
use devy_fps.Prelude.{
  ℕ, zero, suc, ◌+◌, ◌-◌, ◌*◌, ◌/◌, ◌%◌, ◌≤◌, ◌<◌, ◌≡◌, ◌≢◌, ◌⊎◌, ◌↔◌, ◌∙◌, inl, inr, refl, sym, ap,
  subst, Bool, true, false, ◌&&◌, ◌||◌, List, [], ◌∷◌, ◌++◌, Option, none, some, ltb, leb, eqb,
  if◌then◌else◌, u64, sub64, last?, length, length-append, All, All-append, nat_eq, arith,
  Bool-cases, Option-cases, eqb_refl, eqb_iff, select,
}
use devy_fps.Prelude.{not}
use devy_fps.Prelude.Int.{ℤ, pos, negsuc}
use devy_fps.Prelude.Floats.{Floats, Doubles}
use devy_fps.Events.{MoveState, idle, walk, sprint, crouch, air}

pub record MovementTuning (F : Type 0) : Type 0 where
  pub accel_ground_units_per_second2 : F
  pub accel_air_units_per_second2 : F
  pub friction_ground_units_per_second2 : F
  pub max_speed_walk_units_per_second : F
  pub sprint_speed_multiplier : F
  pub crouch_speed_multiplier : F
  pub jump_velocity_units_per_second : F
  pub gravity_units_per_second2 : F

pub record MovementInputIntent (F : Type 0) : Type 0 where
  pub move_x : F
  pub move_y : F
  pub jump : Bool
  pub sprint : Bool
  pub crouch : Bool

pub record MovementKinematicState (F : Type 0) : Type 0 where
  pub position_x : F
  pub position_y : F
  pub velocity_x : F
  pub velocity_y : F
  pub vertical_position : F
  pub vertical_velocity : F
  pub grounded : Bool
  pub move_state : MoveState

module _ {F : Type 0} ⦃f : Floats F⦄ where
  unfoldable pub sanitize_positive : F → F → F
  sanitize_positive value fallback =
      if not (f.is_finite value) || f.at_most value (f.literal 0 1) then fallback else value

  unfoldable pub sanitize_non_negative : F → F → F
  sanitize_non_negative value fallback =
      if not (f.is_finite value) || f.less value (f.literal 0 1) then fallback else value

  unfoldable pub sanitize_axis : F → F
  sanitize_axis axis =
      if not (f.is_finite axis)
      then f.literal 0 1
      else if f.less axis (f.of_int (negsuc 0))
      then f.of_int (negsuc 0)
      else if f.less (f.literal 1 1) axis
      then f.literal 1 1
      else axis

  unfoldable pub sanitize_movement_tuning : MovementTuning F → MovementTuning F
  unfolding sanitize_positive sanitize_non_negative
  sanitize_movement_tuning t = record {
    accel_ground_units_per_second2 =
        sanitize_positive t.accel_ground_units_per_second2 (f.literal 48 1);
    accel_air_units_per_second2 = sanitize_positive t.accel_air_units_per_second2 (f.literal 16 1);
    friction_ground_units_per_second2 =
        sanitize_non_negative t.friction_ground_units_per_second2 (f.literal 20 1);
    max_speed_walk_units_per_second =
        sanitize_positive t.max_speed_walk_units_per_second (f.literal 6 1);
    sprint_speed_multiplier = sanitize_positive t.sprint_speed_multiplier (f.literal 3 2);
    crouch_speed_multiplier = sanitize_positive t.crouch_speed_multiplier (f.literal 55 100);
    jump_velocity_units_per_second =
        sanitize_positive t.jump_velocity_units_per_second (f.literal 15 2);
    gravity_units_per_second2 = sanitize_positive t.gravity_units_per_second2 (f.literal 22 1);
  }

  -- The end of a step: which state the player is seen in.
  unfoldable pub seen_state : F → MovementInputIntent F → Bool → MoveState
  seen_state speed input grounded =
      if not grounded
      then air
      else if f.at_most speed (f.literal 1 10_000)
      then idle
      else if input.crouch
      then crouch
      else if input.sprint
      then sprint
      else walk

  -- Towards the velocity that the input asks for.
  unfoldable pub accelerate :
      F
      → MovementInputIntent F
      → MovementTuning F
      → MovementKinematicState F
      → MovementKinematicState F
  accelerate dt_seconds input tuning s =
      let speed_multiplier =
        if input.crouch
        then tuning.crouch_speed_multiplier
        else if input.sprint
        then tuning.sprint_speed_multiplier
        else f.literal 1 1 in
      let target_speed = f.multiply tuning.max_speed_walk_units_per_second speed_multiplier in
      let accel =
        if s.grounded
        then tuning.accel_ground_units_per_second2
        else tuning.accel_air_units_per_second2 in
      let max_velocity_delta = f.multiply accel dt_seconds in
      let delta_x = f.subtract (f.multiply input.move_x target_speed) s.velocity_x in
      let delta_y = f.subtract (f.multiply input.move_y target_speed) s.velocity_y in
      let delta_mag =
        f.square_root (f.add (f.multiply delta_x delta_x) (f.multiply delta_y delta_y)) in
      let ratio = f.divide max_velocity_delta delta_mag in
      let scale = if f.less ratio (f.literal 1 1) then ratio else f.literal 1 1 in
      if f.less (f.literal 1 8_388_608) delta_mag
      then record s {
        velocity_x = f.add s.velocity_x (f.multiply delta_x scale);
        velocity_y = f.add s.velocity_y (f.multiply delta_y scale);
      }
      else s

  unfoldable pub jump_up :
      MovementInputIntent F → MovementTuning F → MovementKinematicState F → MovementKinematicState F
  jump_up input tuning s =
      if input.jump && s.grounded
      then record s { vertical_velocity = tuning.jump_velocity_units_per_second; grounded = false }
      else s

  unfoldable pub fall : F → MovementTuning F → MovementKinematicState F → MovementKinematicState F
  fall dt_seconds tuning s =
      let vertical_velocity =
        f.subtract s.vertical_velocity (f.multiply tuning.gravity_units_per_second2 dt_seconds) in
      let vertical_position = f.add s.vertical_position (f.multiply vertical_velocity dt_seconds) in
      if s.grounded
      then record s {
        vertical_position = f.literal 0 1;
        vertical_velocity =
            if f.less s.vertical_velocity (f.literal 0 1)
            then f.literal 0 1
            else s.vertical_velocity;
      }
      else if f.at_most vertical_position (f.literal 0 1)
      then record s {
        vertical_position = f.literal 0 1;
        vertical_velocity = f.literal 0 1;
        grounded = true;
      }
      else record s { vertical_position = vertical_position; vertical_velocity = vertical_velocity }

  unfoldable pub advance_position : F → MovementKinematicState F → MovementKinematicState F
  advance_position dt_seconds s = record s {
    position_x = f.add s.position_x (f.multiply s.velocity_x dt_seconds);
    position_y = f.add s.position_y (f.multiply s.velocity_y dt_seconds);
  }

module _ {F D : Type 0} ⦃f : Floats F⦄ (d : Doubles F D) where
  unfoldable pub normalize_or_zero : F → F → F × F
  normalize_or_zero x y =
      let x64 = d.widen x in
      let y64 = d.widen y in
      let mag_sq = d.double.add (d.double.multiply x64 x64) (d.double.multiply y64 y64) in
      let mag = d.narrow (d.double.square_root mag_sq) in
      if d.double.at_most mag_sq (d.widen (f.literal 1 1_000_000))
      then (f.literal 0 1, f.literal 0 1)
      else if f.less (f.literal 1 1) mag
      then (f.divide x mag, f.divide y mag)
      else (x, y)

  unfoldable pub sanitize_movement_input : MovementInputIntent F → MovementInputIntent F
  unfolding sanitize_axis normalize_or_zero
  sanitize_movement_input input =
      let move = normalize_or_zero (sanitize_axis input.move_x) (sanitize_axis input.move_y) in
      record input { move_x = move.0; move_y = move.1 }

  unfoldable pub horizontal_speed : MovementKinematicState F → F
  horizontal_speed s =
      let x64 = d.widen s.velocity_x in
      let y64 = d.widen s.velocity_y in
      d.narrow (
        d.double.square_root (d.double.add (d.double.multiply x64 x64) (d.double.multiply y64 y64)))

  -- What friction leaves of the speed of a player who does not move.
  unfoldable pub slow_down :
      F
      → MovementInputIntent F
      → MovementTuning F
      → MovementKinematicState F
      → MovementKinematicState F
  unfolding horizontal_speed
  slow_down dt_seconds input tuning s =
      let has_movement_input =
        f.less (f.literal 1 1_000_000) (f.absolute input.move_x)
        || f.less (f.literal 1 1_000_000) (f.absolute input.move_y) in
      let speed = horizontal_speed s in
      let rest =
        f.subtract speed (f.multiply tuning.friction_ground_units_per_second2 dt_seconds) in
      let reduced = if f.less (f.literal 0 1) rest then rest else f.literal 0 1 in
      let scale =
        if f.less (f.literal 1 8_388_608) speed then f.divide reduced speed else f.literal 0 1 in
      if not has_movement_input
        && (s.grounded && f.less (f.literal 0 1) tuning.friction_ground_units_per_second2)
      then (if f.less (f.literal 1 10_000) speed
          then record s {
            velocity_x = f.multiply s.velocity_x scale;
            velocity_y = f.multiply s.velocity_y scale;
          }
          else record s { velocity_x = f.literal 0 1; velocity_y = f.literal 0 1 })
      else s

  -- The step after the inputs were cleaned and the interval was found to be positive.
  unfoldable pub moved :
      F
      → MovementInputIntent F
      → MovementTuning F
      → MovementKinematicState F
      → MovementKinematicState F
  unfolding accelerate slow_down jump_up fall advance_position
  moved dt_seconds input tuning s =
      let driven = accelerate dt_seconds input tuning s in
      let slowed = slow_down dt_seconds input tuning driven in
      let jumped = jump_up input tuning slowed in
      advance_position dt_seconds (fall dt_seconds tuning jumped)

  unfoldable pub step_movement :
      MovementKinematicState F
      → MovementInputIntent F
      → F
      → MovementTuning F
      → MovementKinematicState F
  unfolding sanitize_movement_input sanitize_movement_tuning moved seen_state horizontal_speed
  step_movement previous raw_input dt_seconds raw_tuning =
      let input = sanitize_movement_input raw_input in
      let tuning = sanitize_movement_tuning raw_tuning in
      let next =
        if not (f.is_finite dt_seconds) || f.at_most dt_seconds (f.literal 0 1)
        then previous
        else moved dt_seconds input tuning previous in
      record next { move_state = seen_state (horizontal_speed next) input next.grounded }
