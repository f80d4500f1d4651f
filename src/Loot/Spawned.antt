-- ===== src/Loot/Spawned.antt =====
-- The spawns of server/src/InventoryLootSimulation.cpp and their ids, over any calls.
use devy_fps.Prelude.{
  ℕ, suc, ◌%◌, ◌≡◌, ◌∙◌, inl, inr, refl, sym, subst, List, [], ◌∷◌, Option, none, some, eqb, length,
  nat_eq, arith, Bool-cases, Option-cases,
}
use devy_fps.Prelude.{get_elem?}
use devy_fps.Prelude.Floats.{Floats}
use devy_fps.Prelude.Map.{get, Every, Every-put}
use devy_fps.Prelude.Ids.{NoRepeat}
use devy_fps.Events.{PlayerMotionState, PlayerCombatState, DeathResolution}
use devy_fps.Loot.{
  TreasureDefinition, InventoryLootConfig, InventoryItem, PlayerInventoryState, Loot,
  TreasureSpawnInstance, TreasurePickupCommand, new, ensure_player, reset, drop_queue, update_state,
  park, remove_player, accept_pickup, enqueue_pickup, drain_pickups_deterministic,
}
use devy_fps.Loot.Spawns.{
  add_spawn, spawn_is_due, scheduled_spawn, schedule_stage, create_death_drop_spawn, drop_items,
  drop_of, drop_deaths, death_drop_stage, ordered_deaths,
}
use devy_fps.Loot.Pickups.{resolve_pickup, resolve_pickups}
use devy_fps.Loot.Resolve.{apply_motion, apply_alive, drained_loot, resolve_tick}
use devy_fps.Loot.History.{
  Call, reset_call, ensure_call, remove_call, enqueue_call, tick_call, call, run,
}
use devy_fps.Loot.Outcome.{IsKeyed, collected_ids, resolve_pickup-Takes, resolve_pickups-NoRepeat}

module _ {F : Type 0} ⦃f : Floats F⦄ where
  IsKeyed-same :
      (l m : Loot F) → m.active_spawns_by_id ≡ l.active_spawns_by_id → IsKeyed l → IsKeyed m
  IsKeyed-same l m e k =
      subst (Every (λ id (s : TreasureSpawnInstance F). s.spawn_id ≡ id)) (sym e) k

  add_spawn-IsKeyed :
      (l : Loot F) (spawn : TreasureSpawnInstance F) → IsKeyed l → IsKeyed (add_spawn l spawn)
  unfolding add_spawn
  add_spawn-IsKeyed l spawn k =
      Every-put (λ id (s : TreasureSpawnInstance F). s.spawn_id ≡ id) l.active_spawns_by_id
        spawn.spawn_id spawn k refl

  spawns-update_state :
      (l : Loot F) (id : ℕ) (g : PlayerInventoryState F → PlayerInventoryState F)
      → (update_state l id g).active_spawns_by_id ≡ l.active_spawns_by_id
  unfolding update_state
  spawns-update_state l id g = ground arith

  spawns-remove_player :
      (l : Loot F) (id : ℕ) → (remove_player l id).active_spawns_by_id ≡ l.active_spawns_by_id
  unfolding remove_player drop_queue
  spawns-remove_player l id = spawns-update_state (drop_queue l id) id park ∙ ground arith

  spawns-enqueue_pickup :
      (l : Loot F) (c : TreasurePickupCommand)
      → (enqueue_pickup l c).0.active_spawns_by_id ≡ l.active_spawns_by_id
  unfolding enqueue_pickup ensure_player accept_pickup
  spawns-enqueue_pickup l c = ground arith

  spawns-apply_motion :
      (l : Loot F) (cs : List (PlayerMotionState F))
      → (apply_motion l cs).active_spawns_by_id ≡ l.active_spawns_by_id
  unfolding apply_motion ensure_player
  spawns-apply_motion l [] = refl
  spawns-apply_motion l (c ∷ cs) =
      let move : PlayerInventoryState F → PlayerInventoryState F =
        λ s. record s { position_x = c.position_x; position_y = c.position_y } in
      let m = ensure_player l c.player_id in
      spawns-apply_motion (update_state m c.player_id move) cs
      ∙ spawns-update_state m c.player_id move

  spawns-apply_alive :
      (l : Loot F) (cs : List PlayerCombatState)
      → (apply_alive l cs).active_spawns_by_id ≡ l.active_spawns_by_id
  unfolding apply_alive ensure_player
  spawns-apply_alive l [] = refl
  spawns-apply_alive l (c ∷ cs) =
      let live : PlayerInventoryState F → PlayerInventoryState F =
        λ s. record s { alive = c.alive } in
      let m = ensure_player l c.player_id in
      spawns-apply_alive (update_state m c.player_id live) cs
      ∙ spawns-update_state m c.player_id live

  schedule_stage-IsKeyed : (l : Loot F) (tick : ℕ) → IsKeyed l → IsKeyed (schedule_stage l tick).0
  unfolding schedule_stage
  schedule_stage-IsKeyed l tick k = elim (Bool-cases (spawn_is_due l tick)) [
    | inr e ↦ rw (schedule_stage, e) k
    | inl e ↦
        elim (Option-cases (
          get_elem? l.treasure_definitions
            (l.next_spawn_definition_index % length l.treasure_definitions))) [
              | inl g ↦ rw (schedule_stage, e, g) k
              | inr (d, g) ↦
                  rw (schedule_stage, e, g) (add_spawn-IsKeyed l (scheduled_spawn l tick d) k)
            ]
  ]

  drop_items-IsKeyed :
      (tick : ℕ) (x y : F) (n : ℕ) (is : List InventoryItem) (l : Loot F)
      → IsKeyed l
      → IsKeyed (drop_items tick x y n is l).0
  unfolding drop_items
  drop_items-IsKeyed tick x y n [] l k = k
  drop_items-IsKeyed tick x y n (i ∷ is) l k =
      let spawn = create_death_drop_spawn l tick i.treasure x y n in
      drop_items-IsKeyed tick x y (suc n) is (add_spawn l spawn) (add_spawn-IsKeyed l spawn k)

  drop_of-IsKeyed :
      (tick : ℕ) (l : Loot F) (victim : ℕ) (o : Option (PlayerInventoryState F))
      → IsKeyed l
      → IsKeyed (drop_of tick l victim o).0
  unfolding drop_of
  drop_of-IsKeyed tick l victim none k = k
  drop_of-IsKeyed tick l victim (some s) k = elim (Bool-cases (eqb (length s.items) 0)) [
    | inl e ↦ rw e k
    | inr e ↦ rw e (drop_items-IsKeyed tick s.position_x s.position_y 0 s.items l k)
  ]

  drop_deaths-IsKeyed :
      (tick : ℕ) (ds : List DeathResolution) (l : Loot F)
      → IsKeyed l
      → IsKeyed (drop_deaths tick ds l).0
  unfolding drop_deaths
  drop_deaths-IsKeyed tick [] l k = k
  drop_deaths-IsKeyed tick (d ∷ ds) l k =
      drop_deaths-IsKeyed tick ds (drop_of tick l d.victim_id (get l.players_by_id d.victim_id)).0
        (drop_of-IsKeyed tick l d.victim_id (get l.players_by_id d.victim_id) k)

  death_drop_stage-IsKeyed :
      (l : Loot F) (tick : ℕ) (ds : List DeathResolution)
      → IsKeyed l
      → IsKeyed (death_drop_stage l tick ds).0
  unfolding death_drop_stage
  death_drop_stage-IsKeyed l tick ds k =
      ground (arith, k, drop_deaths-IsKeyed tick (ordered_deaths ds) l k)

  resolve_pickups-IsKeyed :
      (cs : List TreasurePickupCommand) (l : Loot F) → IsKeyed l → IsKeyed (resolve_pickups cs l).0
  unfolding resolve_pickups
  resolve_pickups-IsKeyed [] l k = k
  resolve_pickups-IsKeyed (c ∷ cs) l k =
      resolve_pickups-IsKeyed cs (resolve_pickup l c).0 (resolve_pickup-Takes l c k).keyed

  resolve_tick-IsKeyed :
      (l : Loot F) (tick : ℕ) (motion : List (PlayerMotionState F))
      (combat : List PlayerCombatState) (deaths : List DeathResolution)
      → IsKeyed l
      → IsKeyed (resolve_tick l tick motion combat deaths).0
  unfolding resolve_tick
  resolve_tick-IsKeyed l tick motion combat deaths k =
      let a = apply_motion l motion in
      let b = apply_alive a combat in
      let grown = (schedule_stage b tick).0 in
      let dropped = (death_drop_stage grown tick deaths).0 in
      resolve_pickups-IsKeyed (drain_pickups_deterministic dropped).drained (drained_loot dropped) (
        death_drop_stage-IsKeyed grown tick deaths (
          schedule_stage-IsKeyed b tick
            (IsKeyed-same l b (spawns-apply_alive a combat ∙ spawns-apply_motion l motion) k)))

  call-IsKeyed : (l : Loot F) (c : Call F) → IsKeyed l → IsKeyed (call l c)
  unfolding reset ensure_player get
  call-IsKeyed l reset_call k = λ i s h. cc
  call-IsKeyed l (ensure_call p) k = k
  call-IsKeyed l (remove_call p) k = IsKeyed-same l (remove_player l p) (spawns-remove_player l p) k
  call-IsKeyed l (enqueue_call c) k =
      IsKeyed-same l (enqueue_pickup l c).0 (spawns-enqueue_pickup l c) k
  call-IsKeyed l (tick_call tick motion combat deaths) k =
      resolve_tick-IsKeyed l tick motion combat deaths k

  run-IsKeyed : (l : Loot F) (cs : List (Call F)) → IsKeyed l → IsKeyed (run l cs)
  run-IsKeyed l [] k = k
  run-IsKeyed l (c ∷ cs) k = run-IsKeyed (call l c) cs (call-IsKeyed l c k)

  new-IsKeyed :
      (definitions : List TreasureDefinition) (config : InventoryLootConfig F)
      → IsKeyed (new definitions config)
  unfolding new get
  new-IsKeyed definitions config = λ i s h. cc

  -- After any calls on a new simulation, no spawn is collected twice among any pickups that are then
  -- resolved one after another, by whichever players.
  pub no_spawn_twice :
      (definitions : List TreasureDefinition) (config : InventoryLootConfig F)
      (calls : List (Call F)) (pickups : List TreasurePickupCommand)
      → NoRepeat (collected_ids (resolve_pickups pickups (run (new definitions config) calls)).1)
  no_spawn_twice definitions config calls pickups =
      resolve_pickups-NoRepeat pickups (run (new definitions config) calls)
        (run-IsKeyed (new definitions config) calls (new-IsKeyed definitions config))
