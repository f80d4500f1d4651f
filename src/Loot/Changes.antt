-- ===== src/Loot/Changes.antt =====
-- The operations of server/src/InventoryLootSimulation.cpp other than the pickups, and the limits of
-- the inventories.
use devy_fps.Prelude.{
  ℕ, suc, ◌≡◌, inl, inr, refl, sym, subst, List, [], ◌∷◌, Option, none, some, nat_eq, arith,
  Option-cases,
}
use devy_fps.Prelude.Int.{◌≤ℤ◌}
use devy_fps.Prelude.Floats.{Floats}
use devy_fps.Prelude.Map.{get, put, Every-map_values, map_values-Distinct}
use devy_fps.Events.{PlayerMotionState, PlayerCombatState, DeathResolution}
use devy_fps.Loot.{
  TreasureDefinition, InventoryLootConfig, InventoryItem, PlayerInventoryState, Loot,
  TreasurePickupCommand, new, sanitize_config, new_state, state_of, ensure_player, reset_state,
  reset, drop_queue, update_state, park, remove_player, accept_pickup, enqueue_pickup, touch_queue,
}
use devy_fps.Loot.Spawns.{
  add_spawn, schedule_stage, create_death_drop_spawn, drop_items, emptied, drop_of, drop_deaths,
  death_drop_stage, ordered_deaths,
}
use devy_fps.Loot.Resolve.{apply_motion, apply_alive}
use devy_fps.Loot.Totals.{IsSound, IsValid, empty-IsSound, put-IsValid, IsValid-same}

module _ {F : Type 0} ⦃f : Floats F⦄ where
  pub new-IsValid :
      (definitions : List TreasureDefinition) (config : InventoryLootConfig F)
      → IsValid (new definitions config)
  unfolding new get sanitize_config
  new-IsValid definitions config = record {
    distinct = tt;
    limited = ground arith;
    sound = λ id s h. cc;
  }

  state_of-IsSound : (l : Loot F) (id : ℕ) → IsValid l → IsSound l.config id (state_of l id)
  unfolding new_state
  state_of-IsSound l id v = elim (Option-cases (get l.players_by_id id)) [
    | inl e ↦ rw e (empty-IsSound l.config id (new_state id) v.limited refl refl refl refl)
    | inr (s, e) ↦ rw e (v.sound id s e)
  ]

  pub ensure_player-IsValid : (l : Loot F) (id : ℕ) → IsValid l → IsValid (ensure_player l id)
  unfolding ensure_player
  ensure_player-IsValid l id v = put-IsValid l id (state_of l id) v (state_of-IsSound l id v)

  pub reset-IsValid : (l : Loot F) → IsValid l → IsValid (reset l)
  unfolding reset reset_state
  reset-IsValid l v = record {
    distinct = map_values-Distinct (λ id s. reset_state s) l.players_by_id v.distinct;
    limited = v.limited;
    sound =
        Every-map_values (IsSound l.config) (λ id s. reset_state s) l.players_by_id
          (λ id s h. empty-IsSound l.config id (reset_state s) v.limited h.filed refl refl refl)
          v.sound;
  }

  update_state-IsValid :
      (l : Loot F) (id : ℕ) (g : PlayerInventoryState F → PlayerInventoryState F)
      → ((s : PlayerInventoryState F) → IsSound l.config id s → IsSound l.config id (g s))
      → IsValid l
      → IsValid (update_state l id g)
  unfolding update_state
  update_state-IsValid l id g keeps v = elim (Option-cases (get l.players_by_id id)) [
    | inl e ↦ rw (update_state, e) v
    | inr (s, e) ↦ rw (update_state, e) (put-IsValid l id (g s) v (keeps s (v.sound id s e)))
  ]

  -- A change of where a player is, whether it lives, or what it has asked for.
  abbrev pub SameItems : PlayerInventoryState F → PlayerInventoryState F → Type 0
  SameItems s t =
      (t.player_id ≡ s.player_id)
      × (t.items ≡ s.items)
      × (t.total_value ≡ s.total_value)
      × (t.total_weight ≡ s.total_weight)

  pub same-IsSound :
      (config : InventoryLootConfig F) (id : ℕ) (s t : PlayerInventoryState F)
      → SameItems s t
      → IsSound config id s
      → IsSound config id t
  same-IsSound config id s t e v = record {
    filed = ground (arith, e, v.filed);
    worth = ground (arith, e, v.worth);
    heavy = ground (arith, e, v.heavy);
    slots = ground (arith, e, v.slots);
    load = subst (λ w. w ≤ℤ config.max_weight_per_player) (sym e.3) v.load;
  }

  drop_queue_players :
      (l : Loot F) (id : ℕ)
      → ((drop_queue l id).config ≡ l.config) × ((drop_queue l id).players_by_id ≡ l.players_by_id)
  unfolding drop_queue
  drop_queue_players l id = ground arith

  pub remove_player-IsValid : (l : Loot F) (id : ℕ) → IsValid l → IsValid (remove_player l id)
  unfolding remove_player
  remove_player-IsValid l id v =
      let same = drop_queue_players l id in
      update_state-IsValid (drop_queue l id) id park
        (λ s h. same-IsSound _ id s (park s) (refl, refl, refl, refl) h)
        (IsValid-same l (drop_queue l id) same.0 same.1 v)

  accept_pickup-IsValid :
      (l : Loot F) (c : TreasurePickupCommand) → IsValid l → IsValid (accept_pickup l c)
  unfolding accept_pickup
  accept_pickup-IsValid l c v =
      let p = put-IsValid l c.player_id _ v (
        same-IsSound l.config c.player_id (state_of l c.player_id)
          (record (state_of l c.player_id) { last_enqueued_pickup_seq = c.pickup_seq })
          (refl, refl, refl, refl) (state_of-IsSound l c.player_id v)) in
      record { distinct = p.distinct; limited = p.limited; sound = p.sound }

  pub enqueue_pickup-IsValid :
      (l : Loot F) (c : TreasurePickupCommand) → IsValid l → IsValid (enqueue_pickup l c).0
  unfolding enqueue_pickup
  enqueue_pickup-IsValid l c v =
      let m = ensure_player l c.player_id in
      let w = ensure_player-IsValid l c.player_id v in
      let touched : IsValid (touch_queue m c.player_id) = record {
        distinct = w.distinct;
        limited = w.limited;
        sound = w.sound;
      } in
      ground (arith, w, touched, accept_pickup-IsValid m c w)

  pub apply_motion-IsValid :
      (l : Loot F) (cs : List (PlayerMotionState F)) → IsValid l → IsValid (apply_motion l cs)
  unfolding apply_motion
  apply_motion-IsValid l [] v = v
  apply_motion-IsValid l (c ∷ cs) v =
      let m = ensure_player l c.player_id in
      let move : PlayerInventoryState F → PlayerInventoryState F =
        λ s. record s { position_x = c.position_x; position_y = c.position_y } in
      apply_motion-IsValid (update_state m c.player_id move) cs (
        update_state-IsValid m c.player_id move
          (λ s h. same-IsSound m.config c.player_id s (move s) (refl, refl, refl, refl) h)
          (ensure_player-IsValid l c.player_id v))

  pub apply_alive-IsValid :
      (l : Loot F) (cs : List PlayerCombatState) → IsValid l → IsValid (apply_alive l cs)
  unfolding apply_alive
  apply_alive-IsValid l [] v = v
  apply_alive-IsValid l (c ∷ cs) v =
      let m = ensure_player l c.player_id in
      let live : PlayerInventoryState F → PlayerInventoryState F =
        λ s. record s { alive = c.alive } in
      apply_alive-IsValid (update_state m c.player_id live) cs (
        update_state-IsValid m c.player_id live
          (λ s h. same-IsSound m.config c.player_id s (live s) (refl, refl, refl, refl) h)
          (ensure_player-IsValid l c.player_id v))

  pub schedule_stage_players :
      (l : Loot F) (tick : ℕ)
      → ((schedule_stage l tick).0.config ≡ l.config)
        × ((schedule_stage l tick).0.players_by_id ≡ l.players_by_id)
  unfolding schedule_stage add_spawn
  schedule_stage_players l tick = ground arith

  drop_items_players :
      (tick : ℕ) (x y : F) (n : ℕ) (is : List InventoryItem) (l : Loot F)
      → ((drop_items tick x y n is l).0.config ≡ l.config)
        × ((drop_items tick x y n is l).0.players_by_id ≡ l.players_by_id)
  unfolding drop_items add_spawn
  drop_items_players tick x y n [] l = (refl, refl)
  drop_items_players tick x y n (i ∷ is) l =
      drop_items_players tick x y (suc n) is
        (add_spawn l (create_death_drop_spawn l tick i.treasure x y n))

  drop_of-IsValid :
      (tick : ℕ) (l : Loot F) (victim : ℕ) (o : Option (PlayerInventoryState F))
      → get l.players_by_id victim ≡ o
      → IsValid l
      → IsValid (drop_of tick l victim o).0
  unfolding drop_of
  drop_of-IsValid tick l victim none e v = v
  drop_of-IsValid tick l victim (some s) e v =
      let dropped = (drop_items tick s.position_x s.position_y 0 s.items l).0 in
      let same = drop_items_players tick s.position_x s.position_y 0 s.items l in
      let w = IsValid-same l dropped same.0 same.1 v in
      let after : IsValid
          (record dropped { players_by_id = put dropped.players_by_id victim (emptied s) }) =
        put-IsValid dropped victim (emptied s) w (
          empty-IsSound dropped.config victim (emptied s) w.limited (v.sound victim s e).filed refl
            refl refl) in
      ground (arith, v, after)

  drop_deaths-IsValid :
      (tick : ℕ) (ds : List DeathResolution) (l : Loot F)
      → IsValid l
      → IsValid (drop_deaths tick ds l).0
  unfolding drop_deaths
  drop_deaths-IsValid tick [] l v = v
  drop_deaths-IsValid tick (d ∷ ds) l v =
      drop_deaths-IsValid tick ds (drop_of tick l d.victim_id (get l.players_by_id d.victim_id)).0
        (drop_of-IsValid tick l d.victim_id (get l.players_by_id d.victim_id) refl v)

  pub death_drop_stage-IsValid :
      (l : Loot F) (tick : ℕ) (ds : List DeathResolution)
      → IsValid l
      → IsValid (death_drop_stage l tick ds).0
  unfolding death_drop_stage
  death_drop_stage-IsValid l tick ds v =
      ground (arith, v, drop_deaths-IsValid tick (ordered_deaths ds) l v)
