-- ===== src/Combat/Shots.antt =====
-- The floating-point parts of server/src/CombatSimulation.cpp: cooldowns, the flight of projectiles,
-- and who is hit.
use devy_fps.Prelude.{
  ℕ, Bool, true, ◌&&◌, ◌||◌, [], ◌∷◌, Option, none, some, ltb, eqb, if◌then◌else◌, nat_eq,
}
use devy_fps.Prelude.{not}
use devy_fps.Prelude.Int.{ℤ, pos, ltb_ℤ}
use devy_fps.Prelude.Floats.{Floats, Doubles}
use devy_fps.Prelude.Map.{Map, get}
use devy_fps.Events.{PlayerCombatState}
use devy_fps.Combat.{CombatConfig, FireCommand, WeaponRuntime, Combat}

pub record QueuedFire (F : Type 0) : Type 0 where
  pub command : FireCommand F
  pub weapon : Option (WeaponRuntime F)

pub record RaycastHit (F : Type 0) : Type 0 where
  pub victim_id : ℕ
  pub distance_along_ray : F

module _ {F D : Type 0} ⦃f : Floats F⦄ (d : Doubles F D) where
  -- The end of both functions below: how many ticks an interval in seconds takes.
  unfoldable pub ticks_of : D → ℤ → ℕ
  ticks_of seconds tick_interval =
      let tick_seconds =
        d.double.divide (d.double.of_int tick_interval) (d.double.literal 1_000_000_000 1) in
      let ticks = d.double.ceiling (d.double.divide seconds tick_seconds) in
      if d.double.at_most tick_seconds (d.double.literal 0 1)
      then 1
      else if d.double.less ticks (d.double.literal 1 1)
      then 1
      else if d.double.less (d.double.literal 18446744073709551615 1) ticks
      then 18446744073709551615
      else d.double.to_unsigned ticks

  unfoldable pub cooldown_ticks : F → ℤ → ℕ
  unfolding ticks_of
  cooldown_ticks rate_of_fire_per_second tick_interval =
      if not (f.is_finite rate_of_fire_per_second)
        || (f.at_most rate_of_fire_per_second (f.literal 0 1) || not (ltb_ℤ (pos 0) tick_interval))
      then 1
      else ticks_of (d.double.divide (d.double.literal 1 1) (d.widen rate_of_fire_per_second))
          tick_interval

  unfoldable pub travel_delay_ticks : F → F → ℤ → ℕ
  unfolding ticks_of
  travel_delay_ticks distance_units speed_units_per_second tick_interval =
      if not (f.is_finite distance_units)
        || (f.less distance_units (f.literal 0 1)
            || (not (f.is_finite speed_units_per_second)
                || (f.at_most speed_units_per_second (f.literal 0 1)
                    || not (ltb_ℤ (pos 0) tick_interval))))
      then 1
      else ticks_of (d.double.divide (d.widen distance_units) (d.widen speed_units_per_second))
          tick_interval

module _ {F : Type 0} ⦃f : Floats F⦄ where
  -- How far along the ray a player at (x, y) is hit.
  unfoldable pub hit_distance :
      CombatConfig F → FireCommand F → WeaponRuntime F → F → F → F → F → Option F
  hit_distance config fire weapon dir_x dir_y x y =
      let rel_x = f.subtract x fire.origin_x in
      let rel_y = f.subtract y fire.origin_y in
      let along_ray = f.add (f.multiply rel_x dir_x) (f.multiply rel_y dir_y) in
      let closest_x = f.add fire.origin_x (f.multiply dir_x along_ray) in
      let closest_y = f.add fire.origin_y (f.multiply dir_y along_ray) in
      let delta_x = f.subtract x closest_x in
      let delta_y = f.subtract y closest_y in
      let distance_sq = f.add (f.multiply delta_x delta_x) (f.multiply delta_y delta_y) in
      if not (f.is_finite along_ray)
        || (f.less along_ray (f.literal 0 1) || f.less weapon.range_units along_ray)
      then none
      else if not (f.is_finite distance_sq)
          || f.less (f.multiply config.hit_radius_units config.hit_radius_units) distance_sq
      then none
      else some along_ray

  unfoldable pub is_better : ℕ → F → Option (RaycastHit F) → Bool
  is_better victim_id along_ray none = true
  is_better victim_id along_ray (some best) =
      f.less along_ray best.distance_along_ray
      || (f.at_most (f.absolute (f.subtract along_ray best.distance_along_ray))
            (f.literal 1 1_000_000)
          && ltb victim_id best.victim_id)

  -- One round of the loop over the players.
  unfoldable pub consider :
      Combat F
      → FireCommand F
      → WeaponRuntime F
      → F
      → F
      → ℕ
      → PlayerCombatState
      → Option (RaycastHit F)
      → Option (RaycastHit F)
  unfolding hit_distance is_better
  consider c fire weapon dir_x dir_y victim_id s best =
      if eqb victim_id fire.attacker_id || not s.alive
      then best
      else elim (get c.positions_by_player victim_id) [
        | none ↦ best
        | some p ↦ elim (hit_distance c.config fire weapon dir_x dir_y p.0 p.1) [
          | none ↦ best
          | some along_ray ↦
              if is_better victim_id along_ray best
              then some (record { victim_id = victim_id; distance_along_ray = along_ray })
              else best
        ]
      ]

  unfoldable pub best_hit :
      Combat F
      → FireCommand F
      → WeaponRuntime F
      → F
      → F
      → Map ℕ PlayerCombatState
      → Option (RaycastHit F)
      → Option (RaycastHit F)
  unfolding consider
  best_hit c fire weapon dir_x dir_y [] best = best
  best_hit c fire weapon dir_x dir_y ((victim_id, s) ∷ players) best =
      best_hit c fire weapon dir_x dir_y players
        (consider c fire weapon dir_x dir_y victim_id s best)

  unfoldable pub raycast_victim : Combat F → QueuedFire F → Option (RaycastHit F)
  unfolding best_hit
  raycast_victim c fire = elim fire.weapon [
    | none ↦ none
    | some weapon ↦
        let dir_length_sq =
          f.add (f.multiply fire.command.direction_x fire.command.direction_x)
            (f.multiply fire.command.direction_y fire.command.direction_y) in
        let dir_length = f.square_root dir_length_sq in
        let dir_x = f.divide fire.command.direction_x dir_length in
        let dir_y = f.divide fire.command.direction_y dir_length in
        if not (f.is_finite dir_length_sq) || f.less dir_length_sq (f.literal 1 1_000_000)
        then none
        else best_hit c fire.command weapon dir_x dir_y c.players_by_id none
  ]
