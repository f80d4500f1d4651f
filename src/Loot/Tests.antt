-- ===== src/Loot/Tests.antt =====
-- Treasure on concrete inputs, over a `float` that holds whole numbers only.
use devy_fps.Prelude.{ℕ, ◌≡◌, refl, true, List, [], ◌∷◌, some, nat_eq, arith}
use devy_fps.Prelude.Int.{ℤ, pos}
use devy_fps.Prelude.Whole.{whole}
use devy_fps.Prelude.Map.{put, get, erase}
use devy_fps.Prelude.Queues.Drain.{drain}
use devy_fps.Prelude.Ids.{NoRepeat}
use devy_fps.Prelude.Sort.{sort}
use devy_fps.Prelude.Queues.{nonempty_ids}
use devy_fps.Loot.{
  TreasureDefinition, InventoryLootConfig, Loot, PlayerInventoryState, TreasurePickupCommand,
  drop_all, new, ensure_player, remove_player, enqueue_pickup, pickup_out_of_order,
}
use devy_fps.Loot.Resolve.{resolve_tick}
use devy_fps.Loot.Pickups.{resolve_pickups}
use devy_fps.Loot.Totals.{IsValid}
use devy_fps.Loot.History.{
  Call, ensure_call, enqueue_call, tick_call, remove_call, run, inventories_stay_within_limits,
}
use devy_fps.Loot.Outcome.{collected_ids, rejoin_refused}
use devy_fps.Loot.Spawned.{no_spawn_twice}

abbrev coin : TreasureDefinition
coin = record { id = 99 ∷ []; value = pos 10; weight = pos 3; rarity = [] }

abbrev config : InventoryLootConfig ℤ
config = record {
  spawn_interval_ticks = 1;
  max_active_spawns = 4;
  pickup_queue_capacity = 8;
  pickup_radius_units = pos 1000;
  max_items_per_player = 2;
  max_weight_per_player = pos 5;
  loot_drop_mode = drop_all;
  world_size_x_units = pos 100;
  world_size_y_units = pos 100;
  death_drop_spread_units = pos 1;
}

abbrev pickup : ℕ → ℕ → ℕ → TreasurePickupCommand
pickup player seq spawn = record {
  player_id = player;
  pickup_seq = seq;
  spawn_id = spawn;
  received_at = 0;
}

abbrev calls : List (Call ℤ)
calls =
    ensure_call 1
    ∷ tick_call 1 [] [] []
    ∷ enqueue_call (pickup 1 1 1)
    ∷ enqueue_call (pickup 1 2 1)
    ∷ tick_call 2 [] [] []
    ∷ remove_call 1
    ∷ []

inventories_stay_within_limits_example : IsValid (run (new (coin ∷ []) config) calls)
inventories_stay_within_limits_example = inventories_stay_within_limits (coin ∷ []) config calls

abbrev one_spawn : Loot ℤ
one_spawn = (resolve_tick (ensure_player (new (coin ∷ []) config) 1) 1 [] [] []).0

no_spawn_twice_example : NoRepeat (
    collected_ids
      (resolve_pickups (pickup 1 1 1 ∷ pickup 1 2 1 ∷ []) (run (new (coin ∷ []) config) calls)).1)
no_spawn_twice_example = no_spawn_twice (coin ∷ []) config calls (pickup 1 1 1 ∷ pickup 1 2 1 ∷ [])

-- The first pickup collects, and the second finds the spawn taken.
collects_once :
    collected_ids (resolve_pickups (pickup 1 1 1 ∷ pickup 1 2 1 ∷ []) one_spawn).1 ≡ 1 ∷ []
unfolding new get put resolve_tick sort resolve_pickups drain nonempty_ids whole erase
collects_once = refl

abbrev asked : Loot ℤ
asked = (enqueue_pickup (ensure_player (new (coin ∷ []) config) 1) (pickup 1 5 1)).0

abbrev asked_state : PlayerInventoryState ℤ
asked_state = record {
  player_id = 1;
  position_x = pos 0;
  position_y = pos 0;
  alive = true;
  total_value = pos 0;
  total_weight = pos 0;
  last_pickup_seq = 0;
  last_enqueued_pickup_seq = 5;
  items = [];
}

asked_found : get asked.players_by_id 1 ≡ some asked_state
unfolding new get put ensure_player enqueue_pickup whole
asked_found = refl

rejoin_refused_example :
    (enqueue_pickup (ensure_player (remove_player asked 1) 1) (pickup 1 1 2)).1
    ≡ pickup_out_of_order
rejoin_refused_example = rejoin_refused asked (pickup 1 1 2) asked_state asked_found (ground arith)
