-- ===== src/Loot/Outcome.antt =====
-- What the answers to pickups mean, in server/src/InventoryLootSimulation.cpp.
use devy_fps.Prelude.{
  ℕ, ◌≤◌, ◌≡◌, ◌∙◌, inl, inr, refl, sym, ap, Bool, true, false, List, [], ◌∷◌, Option, none, some,
  leb, if◌then◌else◌, nat_eq, arith, Bool-cases, Option-cases, eqb_refl,
}
use devy_fps.Prelude.Floats.{Floats}
use devy_fps.Prelude.Map.{get, Every, erase_cases, get-put}
use devy_fps.Prelude.Ids.{contains, NoRepeat}
use devy_fps.Loot.{
  PlayerInventoryState, Loot, TreasureSpawnInstance, TreasurePickupCommand,
  TreasurePickupResolution, TreasurePickupResolveStatus, collected, player_missing, player_dead,
  unknown_spawn, duplicate_pickup, out_of_range, inventory_capacity_exceeded, weight_limit_exceeded,
  ensure_player, state_of, drop_queue, update_state, park, remove_player, enqueue_pickup,
  pickup_out_of_order,
}
use devy_fps.Loot.Pickups.{
  note_seq, choose, refuse, collect, settle, resolve_pickup, resolve_pickups,
}

abbrev pub is_collected : TreasurePickupResolveStatus → Bool
is_collected collected = true
is_collected _ = false

-- The spawns that the answers say were collected.
abbrev pub collected_ids : List TreasurePickupResolution → List ℕ
collected_ids [] = []
collected_ids (r ∷ rs) =
    let rest = collected_ids rs in if is_collected r.status then r.spawn_id ∷ rest else rest

module _ {F : Type 0} where
  -- Every spawn on the ground is filed under its own id.
  abbrev pub IsKeyed : Loot F → Type 0
  IsKeyed l = Every (λ id s. s.spawn_id ≡ id) l.active_spawns_by_id

module _ {F : Type 0} ⦃f : Floats F⦄ where
  -- What one pickup does to the spawns: it leaves them alone, or it takes one that had not been taken.
  pub record Takes (l m : Loot F) (r : TreasurePickupResolution) : Type 0 where
    pub keyed : IsKeyed m
    pub grows :
        (i : ℕ) → contains l.consumed_spawn_ids i ≡ true → contains m.consumed_spawn_ids i ≡ true
    pub fresh : is_collected r.status ≡ true → contains l.consumed_spawn_ids r.spawn_id ≡ false
    pub taken : is_collected r.status ≡ true → contains m.consumed_spawn_ids r.spawn_id ≡ true

  choose-fresh :
      (l : Loot F) (s : PlayerInventoryState F) (id : ℕ) (o : Option (TreasureSpawnInstance F))
      → choose l s id o ≡ collected
      → contains l.consumed_spawn_ids id ≡ false
  unfolding choose
  choose-fresh l s id none h = ground (arith, h)
  choose-fresh l s id (some spawn) h = ground (arith, h)

  choose-none :
      (l : Loot F) (s : PlayerInventoryState F) (id : ℕ) → is_collected (choose l s id none) ≡ false
  unfolding choose
  choose-none l s id = ground arith

  refuse-Takes :
      (l : Loot F) (c : TreasurePickupCommand) (s : PlayerInventoryState F)
      (status : TreasurePickupResolveStatus)
      → IsKeyed l
      → is_collected status ≡ false
      → Takes l (refuse l c s status).0 (refuse l c s status).1
  unfolding refuse
  refuse-Takes l c s status k h = record {
    keyed = k;
    grows = λ i g. g;
    fresh = λ g. cc;
    taken = λ g. cc;
  }

  collect-Takes :
      (l : Loot F) (c : TreasurePickupCommand) (s : PlayerInventoryState F)
      (spawn : TreasureSpawnInstance F)
      → IsKeyed l
      → get l.active_spawns_by_id c.spawn_id ≡ some spawn
      → contains l.consumed_spawn_ids c.spawn_id ≡ false
      → Takes l (collect l c s spawn).0 (collect l c s spawn).1
  unfolding collect
  collect-Takes l c s spawn k e new_one = record {
    keyed = λ i t h. k i t (erase_cases l.active_spawns_by_id c.spawn_id i t h).1;
    grows = λ i h. ground (arith, h);
    fresh = λ h. new_one;
    taken = λ h. ground (arith, k c.spawn_id spawn e);
  }

  settle-Takes :
      (l : Loot F) (c : TreasurePickupCommand) (s : PlayerInventoryState F)
      (o : Option (TreasureSpawnInstance F)) (status : TreasurePickupResolveStatus)
      → IsKeyed l
      → get l.active_spawns_by_id c.spawn_id ≡ o
      → choose l s c.spawn_id o ≡ status
      → Takes l (settle l c s o status).0 (settle l c s o status).1
  settle-Takes l c s none status k g e =
      refuse-Takes l c s status k (sym (ap is_collected e) ∙ choose-none l s c.spawn_id)
  settle-Takes l c s (some spawn) collected k g e =
      collect-Takes l c s spawn k g (choose-fresh l s c.spawn_id (some spawn) e)
  settle-Takes l c s (some spawn) player_missing k g e = refuse-Takes l c s player_missing k refl
  settle-Takes l c s (some spawn) player_dead k g e = refuse-Takes l c s player_dead k refl
  settle-Takes l c s (some spawn) unknown_spawn k g e = refuse-Takes l c s unknown_spawn k refl
  settle-Takes l c s (some spawn) duplicate_pickup k g e =
      refuse-Takes l c s duplicate_pickup k refl
  settle-Takes l c s (some spawn) out_of_range k g e = refuse-Takes l c s out_of_range k refl
  settle-Takes l c s (some spawn) inventory_capacity_exceeded k g e =
      refuse-Takes l c s inventory_capacity_exceeded k refl
  settle-Takes l c s (some spawn) weight_limit_exceeded k g e =
      refuse-Takes l c s weight_limit_exceeded k refl

  pub resolve_pickup-Takes :
      (l : Loot F) (c : TreasurePickupCommand)
      → IsKeyed l
      → Takes l (resolve_pickup l c).0 (resolve_pickup l c).1
  unfolding resolve_pickup
  resolve_pickup-Takes l c k = elim (Option-cases (get l.players_by_id c.player_id)) [
    | inl e ↦
        rw (resolve_pickup, e)
          (record { keyed = k; grows = λ i h. h; fresh = λ h. cc; taken = λ h. cc })
    | inr (s, e) ↦
        rw (resolve_pickup, e)
          (settle-Takes l c (note_seq c.pickup_seq s) (get l.active_spawns_by_id c.spawn_id) _ k
            refl refl)
  ]

  -- What has been taken is not taken again.
  taken_stays_taken :
      (cs : List TreasurePickupCommand) (l : Loot F) (i : ℕ)
      → IsKeyed l
      → contains l.consumed_spawn_ids i ≡ true
      → contains (collected_ids (resolve_pickups cs l).1) i ≡ false
  unfolding resolve_pickups
  taken_stays_taken [] l i k h = refl
  taken_stays_taken (c ∷ cs) l i k h =
      let one = resolve_pickup-Takes l c k in
      let rest = taken_stays_taken cs (resolve_pickup l c).0 i one.keyed (one.grows i h) in
      elim (Bool-cases (is_collected (resolve_pickup l c).1.status)) [
        | inl e ↦ ground (arith, rest, one.fresh e, h, e)
        | inr e ↦ rw e rest
      ]

  -- Where the spawns on the ground are filed under their ids, no spawn is collected twice among any
  -- pickups that are resolved one after another, by whichever players.
  pub resolve_pickups-NoRepeat :
      (cs : List TreasurePickupCommand) (l : Loot F)
      → IsKeyed l
      → NoRepeat (collected_ids (resolve_pickups cs l).1)
  unfolding resolve_pickups
  resolve_pickups-NoRepeat [] l k = tt
  resolve_pickups-NoRepeat (c ∷ cs) l k =
      let one = resolve_pickup-Takes l c k in
      let rest = resolve_pickups-NoRepeat cs (resolve_pickup l c).0 one.keyed in
      elim (Bool-cases (is_collected (resolve_pickup l c).1.status)) [
        | inl e ↦ rw e (taken_stays_taken cs (resolve_pickup l c).0 _ one.keyed (one.taken e), rest)
        | inr e ↦ rw e rest
      ]

  removed_state :
      (l : Loot F) (p : ℕ) (s : PlayerInventoryState F)
      → get l.players_by_id p ≡ some s
      → get (remove_player l p).players_by_id p ≡ some (park s)
  unfolding remove_player drop_queue update_state
  removed_state l p s h = ground (arith, h, get-put l.players_by_id p p (park s), eqb_refl p)

  ensured_state :
      (l : Loot F) (p : ℕ) (s : PlayerInventoryState F)
      → get l.players_by_id p ≡ some s
      → get (ensure_player l p).players_by_id p ≡ some s
  unfolding ensure_player
  ensured_state l p s h = get-put l.players_by_id p p (state_of l p) ∙ rw (h, eqb_refl p) refl

  enqueue_low :
      (l : Loot F) (c : TreasurePickupCommand) (s : PlayerInventoryState F)
      → get l.players_by_id c.player_id ≡ some s
      → leb c.pickup_seq s.last_enqueued_pickup_seq ≡ true
      → (enqueue_pickup l c).1 ≡ pickup_out_of_order
  unfolding enqueue_pickup
  enqueue_low l c s h low = rw (h, low) refl

  -- A player who has left and come back is refused every pickup whose number is not above the last
  -- that was accepted before, although the player's queue has been thrown away.
  pub rejoin_refused :
      (l : Loot F) (c : TreasurePickupCommand) (s : PlayerInventoryState F)
      → get l.players_by_id c.player_id ≡ some s
      → c.pickup_seq ≤ s.last_enqueued_pickup_seq
      → (enqueue_pickup (ensure_player (remove_player l c.player_id) c.player_id) c).1
        ≡ pickup_out_of_order
  rejoin_refused l c s h low =
      let gone = remove_player l c.player_id in
      enqueue_low (ensure_player gone c.player_id) c (park s)
        (ensured_state gone c.player_id (park s) (removed_state l c.player_id s h)) (ground arith)
