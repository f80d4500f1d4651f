-- ===== src/Events.antt =====
-- The records that the server's simulations hand to one another
-- (server/include/server/CombatSimulation.h, InventoryLootSimulation.h), and the order in which
-- deaths are handled.
use devy_fps.Prelude.{ℕ, Bool, Bytes, eqb, ltb, if◌then◌else◌}
use devy_fps.Prelude.Int.{ℤ}

pub record PlayerCombatState : Type 0 where
  pub player_id : ℕ
  pub health : ℤ
  pub alive : Bool
  pub last_shot_seq : ℕ

pub record DeathResolution : Type 0 where
  pub tick : ℕ
  pub victim_id : ℕ
  pub killer_id : ℕ
  pub shot_seq : ℕ
  pub weapon_id : Bytes

pub record InventorySummary : Type 0 where
  pub player_id : ℕ
  pub total_value : ℤ
  pub total_weight : ℤ
  pub item_count : ℕ
  pub last_pickup_seq : ℕ

-- By victim, then killer, then shot.
unfoldable pub death_before : DeathResolution → DeathResolution → Bool
death_before a b =
    if eqb a.victim_id b.victim_id
    then (if eqb a.killer_id b.killer_id
        then ltb a.shot_seq b.shot_seq
        else ltb a.killer_id b.killer_id)
    else ltb a.victim_id b.victim_id

-- shared/include/shared/game/Movement.h and server/include/server/MovementSimulation.h.
pub data MoveState : Type 0 where
  idle walk sprint crouch air : MoveState

pub record PlayerMotionState (F : Type 0) : Type 0 where
  pub player_id : ℕ
  pub position_x : F
  pub position_y : F
  pub velocity_x : F
  pub velocity_y : F
  pub speed : F
  pub grounded : Bool
  pub move_state : MoveState
  pub vertical_position : F
  pub vertical_velocity : F
  pub last_processed_input_seq : ℕ
