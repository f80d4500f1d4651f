-- ===== src/Loot/Totals.antt =====
-- The totals and the limits of the inventories of server/src/InventoryLootSimulation.cpp.
use devy_fps.Prelude.{
  ℕ, ◌+◌, ◌≤◌, ◌≡◌, ◌∙◌, sym, ap, subst, List, [], ◌∷◌, ◌++◌, length, length-append, nat_eq, arith,
}
use devy_fps.Prelude.Int.{ℤ, pos, ◌+ℤ◌, ◌≤ℤ◌, zero_+ℤ, +ℤ_zero, +ℤ_assoc}
use devy_fps.Prelude.Floats.{Floats}
use devy_fps.Prelude.Map.{put, Every, Every-put, Distinct, put-Distinct}
use devy_fps.Loot.{
  InventoryLootConfig, InventoryItem, PlayerInventoryState, Loot, TreasureSpawnInstance, collected,
}
use devy_fps.Loot.Pickups.{take_item, item_of, spawn_status}

abbrev pub value_of : List InventoryItem → ℤ
value_of [] = pos 0
value_of (i ∷ is) = i.treasure.value +ℤ value_of is

abbrev pub weight_of : List InventoryItem → ℤ
weight_of [] = pos 0
weight_of (i ∷ is) = i.treasure.weight +ℤ weight_of is

value_of-append : (is js : List InventoryItem) → value_of (is ++ js) ≡ value_of is +ℤ value_of js
value_of-append [] js = sym (zero_+ℤ (value_of js))
value_of-append (i ∷ is) js =
    ap (λ t. i.treasure.value +ℤ t) (value_of-append is js)
    ∙ sym (+ℤ_assoc i.treasure.value (value_of is) (value_of js))

weight_of-append :
    (is js : List InventoryItem) → weight_of (is ++ js) ≡ weight_of is +ℤ weight_of js
weight_of-append [] js = sym (zero_+ℤ (weight_of js))
weight_of-append (i ∷ is) js =
    ap (λ t. i.treasure.weight +ℤ t) (weight_of-append is js)
    ∙ sym (+ℤ_assoc i.treasure.weight (weight_of is) (weight_of js))

-- A total, and what one item adds to it.
add_item :
    (total one rest all : ℤ) → total ≡ rest → all ≡ rest +ℤ (one +ℤ pos 0) → total +ℤ one ≡ all
add_item total one rest all h g =
    ap (λ t. t +ℤ one) h ∙ sym (ap (λ t. rest +ℤ t) (+ℤ_zero one)) ∙ sym g

module _ {F : Type 0} where
  pub record IsSound (config : InventoryLootConfig F) (id : ℕ) (s : PlayerInventoryState F)
      : Type 0 where
    pub filed : s.player_id ≡ id
    pub worth : s.total_value ≡ value_of s.items
    pub heavy : s.total_weight ≡ weight_of s.items
    pub slots : length s.items ≤ config.max_items_per_player
    pub load : s.total_weight ≤ℤ config.max_weight_per_player

  pub record IsValid (l : Loot F) : Type 0 where
    pub distinct : Distinct l.players_by_id
    pub limited : pos 0 ≤ℤ l.config.max_weight_per_player
    pub sound : Every (IsSound l.config) l.players_by_id

  -- An inventory without items is within every limit.
  pub empty-IsSound :
      (config : InventoryLootConfig F) (id : ℕ) (s : PlayerInventoryState F)
      → pos 0 ≤ℤ config.max_weight_per_player
      → s.player_id ≡ id
      → s.items ≡ []
      → s.total_value ≡ pos 0
      → s.total_weight ≡ pos 0
      → IsSound config id s
  empty-IsSound config id s limit filed empty v w = record {
    filed = filed;
    worth = v ∙ sym (ap value_of empty);
    heavy = w ∙ sym (ap weight_of empty);
    slots = subst (λ t. length t ≤ config.max_items_per_player) (sym empty) (omega arith);
    load = subst (λ t. t ≤ℤ config.max_weight_per_player) (sym w) limit;
  }

  pub put-IsValid :
      (l : Loot F) (id : ℕ) (s : PlayerInventoryState F)
      → IsValid l
      → IsSound l.config id s
      → IsValid (record l { players_by_id = put l.players_by_id id s })
  put-IsValid l id s v sound = record {
    distinct = put-Distinct l.players_by_id id s v.distinct;
    limited = v.limited;
    sound = Every-put (IsSound l.config) l.players_by_id id s v.sound sound;
  }

  -- Validity speaks of the configuration and the players only.
  pub IsValid-same :
      (l m : Loot F)
      → m.config ≡ l.config
      → m.players_by_id ≡ l.players_by_id
      → IsValid l
      → IsValid m
  IsValid-same l m c p v = record {
    distinct = subst Distinct (sym p) v.distinct;
    limited = subst (λ t. pos 0 ≤ℤ t.max_weight_per_player) (sym c) v.limited;
    sound =
        subst (λ t. Every (IsSound t) m.players_by_id) (sym c)
          (subst (Every (IsSound l.config)) (sym p) v.sound);
  }

module _ {F : Type 0} ⦃f : Floats F⦄ where
  spawn_status-collected :
      (config : InventoryLootConfig F) (s : PlayerInventoryState F)
      (spawn : TreasureSpawnInstance F)
      → spawn_status config s spawn ≡ collected
      → (length s.items + 1 ≤ config.max_items_per_player)
        × (s.total_weight +ℤ spawn.weight ≤ℤ config.max_weight_per_player)
  unfolding spawn_status
  spawn_status-collected config s spawn h = ground (arith, h)

  -- What is collected still fits.
  pub take_item-IsSound :
      (config : InventoryLootConfig F) (id : ℕ) (s : PlayerInventoryState F)
      (spawn : TreasureSpawnInstance F)
      → IsSound config id s
      → spawn_status config s spawn ≡ collected
      → IsSound config id (take_item s spawn)
  unfolding take_item item_of
  take_item-IsSound config id s spawn v h =
      let fits = spawn_status-collected config s spawn h in
      record {
        filed = v.filed;
        worth =
            add_item s.total_value spawn.value (value_of s.items) _ v.worth
              (value_of-append s.items (item_of spawn ∷ []));
        heavy =
            add_item s.total_weight spawn.weight (weight_of s.items) _ v.heavy
              (weight_of-append s.items (item_of spawn ∷ []));
        slots = ground (arith, fits.0, length-append s.items (item_of spawn ∷ []));
        load = fits.1;
      }
