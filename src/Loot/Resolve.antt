-- ===== src/Loot/Resolve.antt =====
-- `InventoryLootSimulation::resolve_tick`, and what the object tells of itself.
use devy_fps.Prelude.{ℕ, List, [], ◌∷◌, ◌++◌, Option, none, some, ltb, if◌then◌else◌, nat_eq}
use devy_fps.Prelude.Floats.{Floats}
use devy_fps.Prelude.Map.{Map, get}
use devy_fps.Prelude.Sort.{sort}
use devy_fps.Prelude.Ids.{contains, sort_ids}
use devy_fps.Events.{PlayerMotionState, PlayerCombatState, DeathResolution, InventorySummary}
use devy_fps.Loot.{
  TreasureSpawnInstance, InventoryLootTickResult, PlayerInventoryState, Loot, ensure_player,
  update_state, drain_pickups_deterministic, to_summary,
}
use devy_fps.Loot.Spawns.{schedule_stage, death_drop_stage}
use devy_fps.Loot.Pickups.{resolve_pickups}

-- What an `unordered_set` keeps of the ids that are inserted.
abbrev pub distinct_ids : List ℕ → List ℕ
distinct_ids [] = []
distinct_ids (p ∷ ps) = let rest = distinct_ids ps in if contains ps p then rest else p ∷ rest

module _ {F : Type 0} ⦃f : Floats F⦄ where
  unfoldable pub apply_motion : Loot F → List (PlayerMotionState F) → Loot F
  unfolding ensure_player update_state
  apply_motion l [] = l
  apply_motion l (c ∷ cs) =
      apply_motion
        (update_state (ensure_player l c.player_id) c.player_id
          λ s. record s { position_x = c.position_x; position_y = c.position_y })
        cs

  unfoldable pub apply_alive : Loot F → List PlayerCombatState → Loot F
  unfolding ensure_player update_state
  apply_alive l [] = l
  apply_alive l (c ∷ cs) =
      apply_alive
        (update_state (ensure_player l c.player_id) c.player_id λ s. record s { alive = c.alive })
        cs

  unfoldable pub summary_for : Loot F → ℕ → Option InventorySummary
  unfolding to_summary
  summary_for l player_id = elim (get l.players_by_id player_id) [
    | none ↦ none
    | some s ↦ some (to_summary s)
  ]

  -- The summaries of the given players; one who is not there has none.
  unfoldable pub summaries : Loot F → List ℕ → List InventorySummary
  unfolding summary_for
  summaries l [] = []
  summaries l (p ∷ ps) = elim (summary_for l p) [
    | none ↦ summaries l ps
    | some s ↦ s ∷ summaries l ps
  ]

  abbrev pub all_summaries : Map ℕ (PlayerInventoryState F) → List InventorySummary
  unfolding to_summary
  all_summaries [] = []
  all_summaries ((id, s) ∷ players) = to_summary s ∷ all_summaries players

  abbrev pub all_spawns : Map ℕ (TreasureSpawnInstance F) → List (TreasureSpawnInstance F)
  all_spawns [] = []
  all_spawns ((id, s) ∷ spawns) = s ∷ all_spawns spawns

  unfoldable pub inventory_snapshot : Loot F → List InventorySummary
  inventory_snapshot l = sort (λ a b. ltb a.player_id b.player_id) (all_summaries l.players_by_id)

  unfoldable pub active_spawns : Loot F → List (TreasureSpawnInstance F)
  active_spawns l = sort (λ a b. ltb a.spawn_id b.spawn_id) (all_spawns l.active_spawns_by_id)

  -- The queue after `drain_pickups_deterministic`.
  abbrev pub drained_loot : Loot F → Loot F
  unfolding drain_pickups_deterministic
  drained_loot l =
      let d = drain_pickups_deterministic l in
      record l { pickup_queue_by_player = d.queues; queued_pickup_count = d.count }

  unfoldable pub resolve_tick :
      Loot F
      → ℕ
      → List (PlayerMotionState F)
      → List PlayerCombatState
      → List DeathResolution
      → Loot F × InventoryLootTickResult F
  unfolding apply_motion apply_alive schedule_stage death_drop_stage drain_pickups_deterministic
      resolve_pickups summaries
  resolve_tick l tick movement_states combat_states deaths =
      let moved = apply_alive (apply_motion l movement_states) combat_states in
      let grown = schedule_stage moved tick in
      let dropped = death_drop_stage grown.0 tick deaths in
      let drained = drained_loot dropped.0 in
      let picked = resolve_pickups (drain_pickups_deterministic dropped.0).drained drained in
      (
        picked.0,
        record {
          spawned = grown.1 ++ dropped.1;
          pickup_results = picked.1;
          inventory_deltas = summaries picked.0 (sort_ids (distinct_ids (dropped.2 ++ picked.2)));
        },
      )
