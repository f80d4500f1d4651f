-- ===== src/Loot.antt =====
-- server/src/InventoryLootSimulation.cpp and server/include/server/InventoryLootSimulation.h: the
-- treasure on the ground, the players' inventories and the pickup queues. `int` sums are exact, where
-- the source's overflow is undefined. A method that changes the object returns the new object.
pub mod Spawns
pub mod Pickups
pub mod Resolve
pub mod Totals
pub mod Changes
pub mod History
pub mod Outcome
pub mod Spawned
mod Tests
use devy_fps.Prelude.{
  ℕ, zero, suc, ◌+◌, ◌-◌, ◌*◌, ◌/◌, ◌%◌, ◌≤◌, ◌<◌, ◌≡◌, ◌≢◌, ◌⊎◌, ◌↔◌, ◌∙◌, inl, inr, refl, sym, ap,
  subst, Bool, true, false, ◌&&◌, ◌||◌, List, [], ◌∷◌, ◌++◌, Option, none, some, ltb, leb, eqb,
  if◌then◌else◌, u64, sub64, last?, length, length-append, All, All-append, nat_eq, arith,
  Bool-cases, Option-cases, eqb_refl, eqb_iff, select,
}
use devy_fps.Prelude.{not, Bytes, u32}
use devy_fps.Prelude.Int.{ℤ, pos, negsuc, ltb_ℤ, ◌≤ℤ◌}
use devy_fps.Prelude.Floats.{Floats}
use devy_fps.Prelude.Map.{Map, get, put, erase, map_values}
use devy_fps.Prelude.Queues.{Queues, queue}
use devy_fps.Prelude.Queues.Drain.{Drained, drain}
use devy_fps.Prelude.Sort.{sort}
use devy_fps.Events.{InventorySummary}

pub record TreasureDefinition : Type 0 where
  pub id : Bytes
  pub value : ℤ
  pub weight : ℤ
  pub rarity : Bytes

pub data LootDropMode : Type 0 where
  no_drop drop_all : LootDropMode

pub record InventoryLootConfig (F : Type 0) : Type 0 where
  pub spawn_interval_ticks : ℕ
  pub max_active_spawns : ℕ
  pub pickup_queue_capacity : ℕ
  pub pickup_radius_units : F
  pub max_items_per_player : ℕ
  pub max_weight_per_player : ℤ
  pub loot_drop_mode : LootDropMode
  pub world_size_x_units : ℤ
  pub world_size_y_units : ℤ
  pub death_drop_spread_units : F

pub record TreasurePickupCommand : Type 0 where
  pub player_id : ℕ
  pub pickup_seq : ℕ
  pub spawn_id : ℕ
  pub received_at : ℕ

pub data TreasurePickupEnqueueStatus : Type 0 where
  pickup_accepted pickup_out_of_order pickup_queue_full : TreasurePickupEnqueueStatus

pub data TreasurePickupResolveStatus : Type 0 where
  collected player_missing player_dead unknown_spawn duplicate_pickup out_of_range
        inventory_capacity_exceeded weight_limit_exceeded :
      TreasurePickupResolveStatus

pub data TreasureSpawnSource : Type 0 where
  scheduled death_drop : TreasureSpawnSource

pub record TreasureSpawnInstance (F : Type 0) : Type 0 where
  pub spawn_id : ℕ
  pub treasure_id : Bytes
  pub value : ℤ
  pub weight : ℤ
  pub position_x : F
  pub position_y : F
  pub source : TreasureSpawnSource
  pub spawned_tick : ℕ

pub record TreasurePickupResolution : Type 0 where
  pub player_id : ℕ
  pub pickup_seq : ℕ
  pub spawn_id : ℕ
  pub status : TreasurePickupResolveStatus
  pub treasure_id : Bytes
  pub total_value : ℤ
  pub total_weight : ℤ
  pub item_count : ℕ

pub record InventoryLootTickResult (F : Type 0) : Type 0 where
  pub spawned : List (TreasureSpawnInstance F)
  pub pickup_results : List TreasurePickupResolution
  pub inventory_deltas : List InventorySummary

pub record InventoryItem : Type 0 where
  pub source_spawn_id : ℕ
  pub treasure : TreasureDefinition

pub record PlayerInventoryState (F : Type 0) : Type 0 where
  pub player_id : ℕ
  pub position_x : F
  pub position_y : F
  pub alive : Bool
  pub total_value : ℤ
  pub total_weight : ℤ
  pub last_pickup_seq : ℕ
  pub last_enqueued_pickup_seq : ℕ
  pub items : List InventoryItem

pub record Loot (F : Type 0) : Type 0 where
  pub treasure_definitions : List TreasureDefinition
  pub config : InventoryLootConfig F
  pub players_by_id : Map ℕ (PlayerInventoryState F)
  pub pickup_queue_by_player : Queues TreasurePickupCommand
  pub active_spawns_by_id : Map ℕ (TreasureSpawnInstance F)
  pub consumed_spawn_ids : List ℕ
  pub next_spawn_id : ℕ
  pub next_spawn_definition_index : ℕ
  pub queued_pickup_count : ℕ

-- The definitions that the constructor keeps.
unfoldable pub is_usable : TreasureDefinition → Bool
is_usable d = not (eqb (length d.id) 0 || ltb_ℤ d.value (pos 0) || ltb_ℤ d.weight (pos 0))

unfoldable pub is_behind_back : List TreasurePickupCommand → ℕ → Bool
is_behind_back q seq = elim (last? q) [ none ↦ false | some c ↦ leb seq c.pickup_seq ]

module _ {F : Type 0} ⦃f : Floats F⦄ where
  unfoldable pub sanitize_config : InventoryLootConfig F → InventoryLootConfig F
  sanitize_config c = record {
    spawn_interval_ticks = if eqb c.spawn_interval_ticks 0 then 90 else c.spawn_interval_ticks;
    max_active_spawns = if eqb c.max_active_spawns 0 then 64 else c.max_active_spawns;
    pickup_queue_capacity = if eqb c.pickup_queue_capacity 0 then 2048 else c.pickup_queue_capacity;
    pickup_radius_units =
        if not (f.is_finite c.pickup_radius_units)
          || f.at_most c.pickup_radius_units (f.literal 0 1)
        then f.literal 5 2
        else c.pickup_radius_units;
    max_items_per_player = if eqb c.max_items_per_player 0 then 16 else c.max_items_per_player;
    max_weight_per_player =
        if ltb_ℤ (pos 0) c.max_weight_per_player then c.max_weight_per_player else pos 40;
    loot_drop_mode = c.loot_drop_mode;
    world_size_x_units =
        if ltb_ℤ (pos 0) c.world_size_x_units then c.world_size_x_units else pos 2048;
    world_size_y_units =
        if ltb_ℤ (pos 0) c.world_size_y_units then c.world_size_y_units else pos 2048;
    death_drop_spread_units =
        if not (f.is_finite c.death_drop_spread_units)
          || f.less c.death_drop_spread_units (f.literal 0 1)
        then f.literal 3 4
        else c.death_drop_spread_units;
  }

  unfoldable pub new : List TreasureDefinition → InventoryLootConfig F → Loot F
  unfolding is_usable sanitize_config
  new definitions config = record {
    treasure_definitions = select is_usable definitions;
    config = sanitize_config config;
    players_by_id = [];
    pickup_queue_by_player = [];
    active_spawns_by_id = [];
    consumed_spawn_ids = [];
    next_spawn_id = 1;
    next_spawn_definition_index = 0;
    queued_pickup_count = 0;
  }

  unfoldable pub new_state : ℕ → PlayerInventoryState F
  new_state player_id = record {
    player_id = player_id;
    position_x = f.literal 0 1;
    position_y = f.literal 0 1;
    alive = true;
    total_value = pos 0;
    total_weight = pos 0;
    last_pickup_seq = 0;
    last_enqueued_pickup_seq = 0;
    items = [];
  }

  abbrev pub or_new_state : ℕ → Option (PlayerInventoryState F) → PlayerInventoryState F
  or_new_state player_id none = new_state player_id
  or_new_state player_id (some s) = s

  -- The player's state, after `ensure_player`.
  abbrev pub state_of : Loot F → ℕ → PlayerInventoryState F
  state_of l player_id = or_new_state player_id (get l.players_by_id player_id)

  unfoldable pub ensure_player : Loot F → ℕ → Loot F
  unfolding new_state
  ensure_player l player_id = record l {
    players_by_id = put l.players_by_id player_id (state_of l player_id);
  }

  -- The loop of `reset` over the players.
  unfoldable pub reset_state : PlayerInventoryState F → PlayerInventoryState F
  reset_state s = record s {
    total_value = pos 0;
    total_weight = pos 0;
    last_pickup_seq = 0;
    last_enqueued_pickup_seq = 0;
    items = [];
  }

  unfoldable pub reset : Loot F → Loot F
  unfolding reset_state
  reset l = record l {
    pickup_queue_by_player = [];
    active_spawns_by_id = [];
    consumed_spawn_ids = [];
    next_spawn_id = 1;
    next_spawn_definition_index = 0;
    queued_pickup_count = 0;
    players_by_id = map_values (λ id s. reset_state s) l.players_by_id;
  }

  -- The part of `remove_player` about the queue: the count stops at 0.
  unfoldable pub drop_queue : Loot F → ℕ → Loot F
  drop_queue l player_id = elim (get l.pickup_queue_by_player player_id) [
    | none ↦ l
    | some q ↦ record l {
      queued_pickup_count =
          if leb (length q) l.queued_pickup_count then l.queued_pickup_count - length q else 0;
      pickup_queue_by_player = erase l.pickup_queue_by_player player_id;
    }
  ]

  -- `it->second.x = …` where `it` is the result of a `find`.
  unfoldable pub update_state :
      Loot F → ℕ → (PlayerInventoryState F → PlayerInventoryState F) → Loot F
  update_state l player_id g = elim (get l.players_by_id player_id) [
    | none ↦ l
    | some s ↦ record l { players_by_id = put l.players_by_id player_id (g s) }
  ]

  abbrev pub park : PlayerInventoryState F → PlayerInventoryState F
  park s = record s { alive = false; position_x = f.literal 0 1; position_y = f.literal 0 1 }

  unfoldable pub remove_player : Loot F → ℕ → Loot F
  unfolding drop_queue update_state
  remove_player l player_id = update_state (drop_queue l player_id) player_id park

  -- The tail of `enqueue_pickup`, once every test has passed.
  unfoldable pub accept_pickup : Loot F → TreasurePickupCommand → Loot F
  accept_pickup l c = record l {
    players_by_id =
        put l.players_by_id c.player_id
          (record (state_of l c.player_id) { last_enqueued_pickup_seq = c.pickup_seq });
    pickup_queue_by_player =
        put l.pickup_queue_by_player c.player_id
          (queue l.pickup_queue_by_player c.player_id ++ c ∷ []);
    queued_pickup_count = u64 (l.queued_pickup_count + 1);
  }

  -- `pickup_queue_by_player_[id]` makes an empty queue.
  abbrev pub touch_queue : Loot F → ℕ → Loot F
  touch_queue l player_id = record l {
    pickup_queue_by_player =
        put l.pickup_queue_by_player player_id (queue l.pickup_queue_by_player player_id);
  }

  unfoldable pub enqueue_pickup :
      Loot F → TreasurePickupCommand → Loot F × TreasurePickupEnqueueStatus
  unfolding ensure_player is_behind_back accept_pickup
  enqueue_pickup l c =
      let m = ensure_player l c.player_id in
      if leb c.pickup_seq (state_of l c.player_id).last_enqueued_pickup_seq
      then (m, pickup_out_of_order)
      else if leb m.config.pickup_queue_capacity m.queued_pickup_count
      then (m, pickup_queue_full)
      else if is_behind_back (queue m.pickup_queue_by_player c.player_id) c.pickup_seq
      then (touch_queue m c.player_id, pickup_out_of_order)
      else (accept_pickup m c, pickup_accepted)

  unfoldable pub drain_pickups_deterministic : Loot F → Drained TreasurePickupCommand
  drain_pickups_deterministic l = drain (λ n. n - 1) l.pickup_queue_by_player l.queued_pickup_count

  unfoldable pub to_summary : PlayerInventoryState F → InventorySummary
  to_summary s = record {
    player_id = s.player_id;
    total_value = s.total_value;
    total_weight = s.total_weight;
    item_count = u32 (length s.items);
    last_pickup_seq = s.last_pickup_seq;
  }
