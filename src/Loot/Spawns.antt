-- ===== src/Loot/Spawns.antt =====
-- How server/src/InventoryLootSimulation.cpp puts treasure on the ground: on a schedule, and where
-- a player dies.
use devy_fps.Prelude.{
  ℕ, suc, ◌+◌, ◌*◌, ◌/◌, ◌%◌, Bool, true, false, ◌&&◌, List, [], ◌∷◌, ◌++◌, Option, none, some, ltb,
  leb, eqb, if◌then◌else◌, u64, length, nat_eq,
}
use devy_fps.Prelude.{get_elem?}
use devy_fps.Prelude.Int.{ℤ, pos, pos_part, sub_ℕ}
use devy_fps.Prelude.Floats.{Floats}
use devy_fps.Prelude.Map.{get, put}
use devy_fps.Prelude.Sort.{sort}
use devy_fps.Events.{DeathResolution, death_before}
use devy_fps.Loot.{
  TreasureDefinition, no_drop, drop_all, scheduled, death_drop, TreasureSpawnInstance,
  InventoryItem, PlayerInventoryState, Loot,
}

-- std::max(1, bound)
abbrev pub at_least_one : ℤ → ℕ
at_least_one bound = if leb (pos_part bound) 1 then 1 else pos_part bound

-- `is_sorted_player_id`
unfoldable pub is_sorted_player_id : List DeathResolution → Bool
is_sorted_player_id [] = true
is_sorted_player_id (a ∷ []) = true
is_sorted_player_id (a ∷ b ∷ ds) =
    let rest = is_sorted_player_id (b ∷ ds) in if ltb b.victim_id a.victim_id then false else rest

-- The deaths in the order in which they are handled.
unfoldable pub ordered_deaths : List DeathResolution → List DeathResolution
unfolding is_sorted_player_id death_before
ordered_deaths deaths = if is_sorted_player_id deaths then deaths else sort death_before deaths

module _ {F : Type 0} ⦃f : Floats F⦄ where
  unfoldable pub clamp_position : F → ℤ → F
  clamp_position value bound =
      let max_value = f.subtract (f.of_int (pos (at_least_one bound))) (f.literal 1 1000) in
      if f.is_finite value
      then (if f.at_most max_value (f.literal 0 1)
          then f.literal 0 1
          else if f.less value (f.literal 0 1)
          then f.literal 0 1
          else if f.less max_value value
          then max_value
          else value)
      else f.literal 0 1

  unfoldable pub deterministic_spawn_position : ℕ → ℤ → ℤ → F × F
  deterministic_spawn_position seed world_size_x world_size_y = (
    f.add (f.of_int (pos (u64 (seed * 37 + 17) % at_least_one world_size_x))) (f.literal 1 2),
    f.add (f.of_int (pos (u64 (seed * 53 + 29) % at_least_one world_size_y))) (f.literal 1 2),
  )

  -- The spawn that `create_scheduled_spawn` makes of a definition.
  unfoldable pub scheduled_spawn : Loot F → ℕ → TreasureDefinition → TreasureSpawnInstance F
  unfolding clamp_position deterministic_spawn_position
  scheduled_spawn l tick d =
      let at =
        deterministic_spawn_position l.next_spawn_id l.config.world_size_x_units
          l.config.world_size_y_units in
      record {
        spawn_id = l.next_spawn_id;
        treasure_id = d.id;
        value = d.value;
        weight = d.weight;
        position_x = clamp_position at.0 l.config.world_size_x_units;
        position_y = clamp_position at.1 l.config.world_size_y_units;
        source = scheduled;
        spawned_tick = tick;
      }

  -- active_spawns_by_id_[spawn.spawn_id] = spawn; and the next id.
  unfoldable pub add_spawn : Loot F → TreasureSpawnInstance F → Loot F
  add_spawn l spawn = record l {
    active_spawns_by_id = put l.active_spawns_by_id spawn.spawn_id spawn;
    next_spawn_id = u64 (l.next_spawn_id + 1);
  }

  -- There is something to spawn, it is time for it, and there is room.
  unfoldable pub spawn_is_due : Loot F → ℕ → Bool
  spawn_is_due l tick =
      ltb 0 (length l.treasure_definitions)
      && (ltb 0 l.config.spawn_interval_ticks
          && (eqb (tick % l.config.spawn_interval_ticks) 0
              && ltb (length l.active_spawns_by_id) l.config.max_active_spawns))

  -- The definitions take turns. The index is within the list, which is not empty here.
  unfoldable pub schedule_stage : Loot F → ℕ → Loot F × List (TreasureSpawnInstance F)
  unfolding scheduled_spawn add_spawn spawn_is_due
  schedule_stage l tick =
      if spawn_is_due l tick
      then (elim (get_elem? l.treasure_definitions
          (l.next_spawn_definition_index % length l.treasure_definitions)) [
            | none ↦ (l, [])
            | some d ↦ (
              record (add_spawn l (scheduled_spawn l tick d)) {
                next_spawn_definition_index = u64 (l.next_spawn_definition_index + 1);
              },
              scheduled_spawn l tick d ∷ [],
            )
          ])
      else (l, [])

  -- (static_cast<int>(n % 3) - 1), as a float, times the spread.
  abbrev pub drop_offset : ℕ → F → F
  drop_offset n spread = f.multiply (f.of_int (sub_ℕ (n % 3) 1)) spread

  unfoldable pub create_death_drop_spawn :
      Loot F → ℕ → TreasureDefinition → F → F → ℕ → TreasureSpawnInstance F
  unfolding clamp_position
  create_death_drop_spawn l tick treasure origin_x origin_y item_index = record {
    spawn_id = l.next_spawn_id;
    treasure_id = treasure.id;
    value = treasure.value;
    weight = treasure.weight;
    position_x =
        clamp_position (f.add origin_x (drop_offset item_index l.config.death_drop_spread_units))
          l.config.world_size_x_units;
    position_y =
        clamp_position
          (f.add origin_y (drop_offset (item_index / 3) l.config.death_drop_spread_units))
          l.config.world_size_y_units;
    source = death_drop;
    spawned_tick = tick;
  }

  -- The loop over a dead player's items, from `item_index` on.
  unfoldable pub drop_items :
      ℕ → F → F → ℕ → List InventoryItem → Loot F → Loot F × List (TreasureSpawnInstance F)
  unfolding create_death_drop_spawn add_spawn
  drop_items tick origin_x origin_y item_index [] l = (l, [])
  drop_items tick origin_x origin_y item_index (i ∷ is) l =
      let spawn = create_death_drop_spawn l tick i.treasure origin_x origin_y item_index in
      let rest = drop_items tick origin_x origin_y (suc item_index) is (add_spawn l spawn) in
      (rest.0, spawn ∷ rest.1)

  abbrev pub emptied : PlayerInventoryState F → PlayerInventoryState F
  emptied s = record s { items = []; total_value = pos 0; total_weight = pos 0 }

  -- With what was dropped, and whether the player's inventory changed.
  unfoldable pub drop_of :
      ℕ
      → Loot F
      → ℕ
      → Option (PlayerInventoryState F)
      → Loot F × List (TreasureSpawnInstance F) × Bool
  unfolding drop_items
  drop_of tick l victim none = (l, [], false)
  drop_of tick l victim (some s) =
      if eqb (length s.items) 0
      then (l, [], false)
      else let dropped = drop_items tick s.position_x s.position_y 0 s.items l in
        (
          record dropped.0 { players_by_id = put dropped.0.players_by_id victim (emptied s) },
          dropped.1,
          true,
        )

  -- The loop over the deaths, with the players whose inventory changed.
  unfoldable pub drop_deaths :
      ℕ → List DeathResolution → Loot F → Loot F × List (TreasureSpawnInstance F) × List ℕ
  unfolding drop_of
  drop_deaths tick [] l = (l, [], [])
  drop_deaths tick (d ∷ ds) l =
      let one = drop_of tick l d.victim_id (get l.players_by_id d.victim_id) in
      let rest = drop_deaths tick ds one.0 in
      (rest.0, one.1 ++ rest.1, if one.2 then d.victim_id ∷ rest.2 else rest.2)

  unfoldable pub death_drop_stage :
      Loot F → ℕ → List DeathResolution → Loot F × List (TreasureSpawnInstance F) × List ℕ
  unfolding drop_deaths ordered_deaths
  death_drop_stage l tick deaths = elim l.config.loot_drop_mode [
    | drop_all ↦ drop_deaths tick (ordered_deaths deaths) l
    | no_drop ↦ (l, [], [])
  ]
