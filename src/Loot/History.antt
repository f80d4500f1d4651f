-- ===== src/Loot/History.antt =====
-- The inventories of server/src/InventoryLootSimulation.cpp after any calls.
use devy_fps.Prelude.{
  ℕ, ◌≡◌, inl, inr, refl, List, [], ◌∷◌, Option, none, some, nat_eq, arith, Option-cases,
}
use devy_fps.Prelude.Floats.{Floats}
use devy_fps.Prelude.Map.{get}
use devy_fps.Events.{PlayerMotionState, PlayerCombatState, DeathResolution}
use devy_fps.Loot.{
  TreasureDefinition, InventoryLootConfig, PlayerInventoryState, Loot, TreasureSpawnInstance,
  TreasurePickupCommand, TreasurePickupResolveStatus, collected, player_missing, player_dead,
  unknown_spawn, duplicate_pickup, out_of_range, inventory_capacity_exceeded, weight_limit_exceeded,
  new, ensure_player, reset, remove_player, enqueue_pickup, drain_pickups_deterministic,
}
use devy_fps.Loot.Spawns.{schedule_stage, death_drop_stage}
use devy_fps.Loot.Pickups.{
  note_seq, take_item, spawn_status, choose, refuse, collect, settle, resolve_pickup,
  resolve_pickups,
}
use devy_fps.Loot.Resolve.{apply_motion, apply_alive, drained_loot, resolve_tick}
use devy_fps.Loot.Totals.{IsSound, IsValid, put-IsValid, IsValid-same, take_item-IsSound}
use devy_fps.Loot.Changes.{
  new-IsValid, reset-IsValid, ensure_player-IsValid, remove_player-IsValid, enqueue_pickup-IsValid,
  apply_motion-IsValid, apply_alive-IsValid, schedule_stage_players, death_drop_stage-IsValid,
  same-IsSound,
}

-- The calls that change the simulation.
pub data Call (F : Type 0) : Type 0 where
  reset_call : Call F
  ensure_call remove_call : ℕ → Call F
  enqueue_call : TreasurePickupCommand → Call F
  tick_call :
      ℕ → List (PlayerMotionState F) → List PlayerCombatState → List DeathResolution → Call F

module _ {F : Type 0} ⦃f : Floats F⦄ where
  -- What is collected has passed every test.
  choose-collected :
      (l : Loot F) (s : PlayerInventoryState F) (id : ℕ) (spawn : TreasureSpawnInstance F)
      → choose l s id (some spawn) ≡ collected
      → spawn_status l.config s spawn ≡ collected
  unfolding choose
  choose-collected l s id spawn h = ground (arith, h)

  refuse-IsValid :
      (l : Loot F) (c : TreasurePickupCommand) (s : PlayerInventoryState F)
      (status : TreasurePickupResolveStatus)
      → IsValid l
      → IsSound l.config c.player_id s
      → IsValid (refuse l c s status).0
  unfolding refuse
  refuse-IsValid l c s status v sound = put-IsValid l c.player_id s v sound

  collect-IsValid :
      (l : Loot F) (c : TreasurePickupCommand) (s : PlayerInventoryState F)
      (spawn : TreasureSpawnInstance F)
      → IsValid l
      → IsSound l.config c.player_id (take_item s spawn)
      → IsValid (collect l c s spawn).0
  unfolding collect
  collect-IsValid l c s spawn v sound =
      let p = put-IsValid l c.player_id (take_item s spawn) v sound in
      record { distinct = p.distinct; limited = p.limited; sound = p.sound }

  settle-IsValid :
      (l : Loot F) (c : TreasurePickupCommand) (s : PlayerInventoryState F)
      (o : Option (TreasureSpawnInstance F)) (status : TreasurePickupResolveStatus)
      → choose l s c.spawn_id o ≡ status
      → IsValid l
      → IsSound l.config c.player_id s
      → IsValid (settle l c s o status).0
  settle-IsValid l c s none status e v sound = refuse-IsValid l c s status v sound
  settle-IsValid l c s (some spawn) collected e v sound = collect-IsValid l c s spawn v (
      take_item-IsSound l.config c.player_id s spawn sound
        (choose-collected l s c.spawn_id spawn e))
  settle-IsValid l c s (some spawn) player_missing e v sound =
      refuse-IsValid l c s player_missing v sound
  settle-IsValid l c s (some spawn) player_dead e v sound = refuse-IsValid l c s player_dead v sound
  settle-IsValid l c s (some spawn) unknown_spawn e v sound =
      refuse-IsValid l c s unknown_spawn v sound
  settle-IsValid l c s (some spawn) duplicate_pickup e v sound =
      refuse-IsValid l c s duplicate_pickup v sound
  settle-IsValid l c s (some spawn) out_of_range e v sound =
      refuse-IsValid l c s out_of_range v sound
  settle-IsValid l c s (some spawn) inventory_capacity_exceeded e v sound =
      refuse-IsValid l c s inventory_capacity_exceeded v sound
  settle-IsValid l c s (some spawn) weight_limit_exceeded e v sound =
      refuse-IsValid l c s weight_limit_exceeded v sound

  resolve_pickup-IsValid :
      (l : Loot F) (c : TreasurePickupCommand) → IsValid l → IsValid (resolve_pickup l c).0
  unfolding resolve_pickup
  resolve_pickup-IsValid l c v = elim (Option-cases (get l.players_by_id c.player_id)) [
    | inl e ↦ rw (resolve_pickup, e) v
    | inr (s, e) ↦
        rw (resolve_pickup, e)
          (settle-IsValid l c (note_seq c.pickup_seq s) (get l.active_spawns_by_id c.spawn_id) _
            refl v
            (same-IsSound l.config c.player_id s (note_seq c.pickup_seq s) (refl, refl, refl, refl)
              (v.sound c.player_id s e)))
  ]

  resolve_pickups-IsValid :
      (cs : List TreasurePickupCommand) (l : Loot F) → IsValid l → IsValid (resolve_pickups cs l).0
  unfolding resolve_pickups
  resolve_pickups-IsValid [] l v = v
  resolve_pickups-IsValid (c ∷ cs) l v =
      resolve_pickups-IsValid cs (resolve_pickup l c).0 (resolve_pickup-IsValid l c v)

  abbrev pub call : Loot F → Call F → Loot F
  call l reset_call = reset l
  call l (ensure_call p) = ensure_player l p
  call l (remove_call p) = remove_player l p
  call l (enqueue_call c) = (enqueue_pickup l c).0
  call l (tick_call tick motion combat deaths) = (resolve_tick l tick motion combat deaths).0

  abbrev pub run : Loot F → List (Call F) → Loot F
  run l [] = l
  run l (c ∷ cs) = run (call l c) cs

  resolve_tick-IsValid :
      (l : Loot F) (tick : ℕ) (motion : List (PlayerMotionState F))
      (combat : List PlayerCombatState) (deaths : List DeathResolution)
      → IsValid l
      → IsValid (resolve_tick l tick motion combat deaths).0
  unfolding resolve_tick
  resolve_tick-IsValid l tick motion combat deaths v =
      let a = apply_motion l motion in
      let b = apply_alive a combat in
      let grown = (schedule_stage b tick).0 in
      let dropped = (death_drop_stage grown tick deaths).0 in
      let same = schedule_stage_players b tick in
      let w = death_drop_stage-IsValid grown tick deaths (
        IsValid-same b grown same.0 same.1
          (apply_alive-IsValid a combat (apply_motion-IsValid l motion v))) in
      resolve_pickups-IsValid (drain_pickups_deterministic dropped).drained (drained_loot dropped)
        (record { distinct = w.distinct; limited = w.limited; sound = w.sound })

  call-IsValid : (l : Loot F) (c : Call F) → IsValid l → IsValid (call l c)
  call-IsValid l reset_call v = reset-IsValid l v
  call-IsValid l (ensure_call p) v = ensure_player-IsValid l p v
  call-IsValid l (remove_call p) v = remove_player-IsValid l p v
  call-IsValid l (enqueue_call c) v = enqueue_pickup-IsValid l c v
  call-IsValid l (tick_call tick motion combat deaths) v =
      resolve_tick-IsValid l tick motion combat deaths v

  run-IsValid : (l : Loot F) (cs : List (Call F)) → IsValid l → IsValid (run l cs)
  run-IsValid l [] v = v
  run-IsValid l (c ∷ cs) v = run-IsValid (call l c) cs (call-IsValid l c v)

  -- After any calls on a new simulation, each player has one inventory under its id, whose value and
  -- weight are the sums over its items, with no more items and no more weight than the configuration
  -- allows.
  pub inventories_stay_within_limits :
      (definitions : List TreasureDefinition) (config : InventoryLootConfig F)
      (calls : List (Call F))
      → IsValid (run (new definitions config) calls)
  inventories_stay_within_limits definitions config calls =
      run-IsValid (new definitions config) calls (new-IsValid definitions config)
