-- ===== src/Loot/Pickups.antt =====
-- How server/src/InventoryLootSimulation.cpp resolves one pickup: the tests in the source's order,
-- and what each answer does.
use devy_fps.Prelude.{
  ℕ, ◌+◌, Bool, ◌||◌, List, [], ◌∷◌, ◌++◌, Option, none, some, ltb, if◌then◌else◌, length, nat_eq,
}
use devy_fps.Prelude.{Bytes, u32, not}
use devy_fps.Prelude.Int.{pos, ltb_ℤ, ◌+ℤ◌}
use devy_fps.Prelude.Floats.{Floats}
use devy_fps.Prelude.Map.{get, put, erase}
use devy_fps.Prelude.Ids.{contains}
use devy_fps.Loot.{
  InventoryLootConfig, TreasurePickupCommand, TreasurePickupResolveStatus, collected,
  player_missing, player_dead, unknown_spawn, duplicate_pickup, out_of_range,
  inventory_capacity_exceeded, weight_limit_exceeded, TreasureSpawnInstance,
  TreasurePickupResolution, InventoryItem, PlayerInventoryState, Loot,
}

abbrev pub missing : TreasurePickupCommand → TreasurePickupResolution
missing c = record {
  player_id = c.player_id;
  pickup_seq = c.pickup_seq;
  spawn_id = c.spawn_id;
  status = player_missing;
  treasure_id = [];
  total_value = pos 0;
  total_weight = pos 0;
  item_count = 0;
}

module _ {F : Type 0} ⦃f : Floats F⦄ where
  unfoldable pub within_reach :
      InventoryLootConfig F → PlayerInventoryState F → TreasureSpawnInstance F → Bool
  within_reach config s spawn =
      let delta_x = f.subtract spawn.position_x s.position_x in
      let delta_y = f.subtract spawn.position_y s.position_y in
      let distance_sq = f.add (f.multiply delta_x delta_x) (f.multiply delta_y delta_y) in
      let radius_sq = f.multiply config.pickup_radius_units config.pickup_radius_units in
      not (
        not (f.is_finite distance_sq)
        || f.less (f.add radius_sq (f.literal 1 1_000_000)) distance_sq)

  -- The spawn as an item: its rarity is forgotten.
  unfoldable pub item_of : TreasureSpawnInstance F → InventoryItem
  item_of spawn = record {
    source_spawn_id = spawn.spawn_id;
    treasure = record {
      id = spawn.treasure_id;
      value = spawn.value;
      weight = spawn.weight;
      rarity = [];
    };
  }

  unfoldable pub take_item :
      PlayerInventoryState F → TreasureSpawnInstance F → PlayerInventoryState F
  unfolding item_of
  take_item s spawn = record s {
    items = s.items ++ item_of spawn ∷ [];
    total_value = s.total_value +ℤ spawn.value;
    total_weight = s.total_weight +ℤ spawn.weight;
  }

  -- The tests on a spawn that is on the ground.
  unfoldable pub spawn_status :
      InventoryLootConfig F
      → PlayerInventoryState F
      → TreasureSpawnInstance F
      → TreasurePickupResolveStatus
  unfolding within_reach
  spawn_status config s spawn =
      if not (within_reach config s spawn)
      then out_of_range
      else if ltb config.max_items_per_player (length s.items + 1)
      then inventory_capacity_exceeded
      else if ltb_ℤ config.max_weight_per_player (s.total_weight +ℤ spawn.weight)
      then weight_limit_exceeded
      else collected

  -- The spawn that is collected, or the reason why none is.
  unfoldable pub choose :
      Loot F
      → PlayerInventoryState F
      → ℕ
      → Option (TreasureSpawnInstance F)
      → TreasurePickupResolveStatus
  unfolding spawn_status
  choose l s spawn_id none =
      if not s.alive
      then player_dead
      else if contains l.consumed_spawn_ids spawn_id
      then duplicate_pickup
      else unknown_spawn
  choose l s spawn_id (some spawn) =
      if not s.alive
      then player_dead
      else if contains l.consumed_spawn_ids spawn_id
      then duplicate_pickup
      else spawn_status l.config s spawn

  -- The player has answered for this pickup, whatever comes of it.
  abbrev pub note_seq : ℕ → PlayerInventoryState F → PlayerInventoryState F
  note_seq seq s = record s {
    last_pickup_seq = if ltb s.last_pickup_seq seq then seq else s.last_pickup_seq;
  }

  abbrev pub resolution :
      TreasurePickupCommand
      → TreasurePickupResolveStatus
      → Bytes
      → PlayerInventoryState F
      → TreasurePickupResolution
  resolution c status treasure_id s = record {
    player_id = c.player_id;
    pickup_seq = c.pickup_seq;
    spawn_id = c.spawn_id;
    status = status;
    treasure_id = treasure_id;
    total_value = s.total_value;
    total_weight = s.total_weight;
    item_count = u32 (length s.items);
  }

  -- Nothing is collected.
  unfoldable pub refuse :
      Loot F
      → TreasurePickupCommand
      → PlayerInventoryState F
      → TreasurePickupResolveStatus
      → Loot F × TreasurePickupResolution × List ℕ
  refuse l c s status =
      (record l { players_by_id = put l.players_by_id c.player_id s }, resolution c status [] s, [])

  unfoldable pub collect :
      Loot F
      → TreasurePickupCommand
      → PlayerInventoryState F
      → TreasureSpawnInstance F
      → Loot F × TreasurePickupResolution × List ℕ
  unfolding take_item
  collect l c s spawn =
      let t = take_item s spawn in
      (
        record l {
          players_by_id = put l.players_by_id c.player_id t;
          consumed_spawn_ids = spawn.spawn_id ∷ l.consumed_spawn_ids;
          active_spawns_by_id = erase l.active_spawns_by_id c.spawn_id;
        },
        resolution c collected spawn.treasure_id t,
        s.player_id ∷ [],
      )

  abbrev pub settle :
      Loot F
      → TreasurePickupCommand
      → PlayerInventoryState F
      → Option (TreasureSpawnInstance F)
      → TreasurePickupResolveStatus
      → Loot F × TreasurePickupResolution × List ℕ
  settle l c s (some spawn) collected = collect l c s spawn
  settle l c s (some spawn) status = refuse l c s status
  settle l c s none status = refuse l c s status

  -- With the answer, and the player whose inventory changed.
  unfoldable pub resolve_pickup :
      Loot F → TreasurePickupCommand → Loot F × TreasurePickupResolution × List ℕ
  unfolding choose refuse collect
  resolve_pickup l c = elim (get l.players_by_id c.player_id) [
    | none ↦ (l, missing c, [])
    | some s ↦
        let spawn = get l.active_spawns_by_id c.spawn_id in
        settle l c (note_seq c.pickup_seq s) spawn
          (choose l (note_seq c.pickup_seq s) c.spawn_id spawn)
  ]

  -- The loop over the drained pickups, with the players whose inventory changed.
  unfoldable pub resolve_pickups :
      List TreasurePickupCommand → Loot F → Loot F × List TreasurePickupResolution × List ℕ
  unfolding resolve_pickup
  resolve_pickups [] l = (l, [], [])
  resolve_pickups (c ∷ cs) l =
      let one = resolve_pickup l c in
      let rest = resolve_pickups cs one.0 in (rest.0, one.1 ∷ rest.1, one.2 ++ rest.2)
