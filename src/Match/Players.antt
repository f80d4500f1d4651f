-- ===== src/Match/Players.antt =====
-- What holds of each player's record between two calls of server/src/MatchLifecycleSimulation.cpp.
use devy_fps.Prelude.{
  ℕ, ◌≤◌, ◌≡◌, ◌⊎◌, inl, inr, refl, Bool, false, ◌||◌, List, [], ◌∷◌, none, eqb, nat_eq, arith,
  Bool-cases, Option-cases,
}
use devy_fps.Prelude.Int.{ℤ}
use devy_fps.Prelude.Map.{
  Every, Every-put, Every-map_values, get, put, Distinct, put-Distinct, map_values,
  map_values-Distinct,
}
use devy_fps.Prelude.Ids.{contains}
use devy_fps.Events.{PlayerCombatState, DeathResolution, InventorySummary}
use devy_fps.Match.{
  MatchLifecycleConfig, PlayerRecord, Match, new, reset, reset_record, new_record, or_new,
  ensure_player, update_player, remove_player, ensure_players, mark_active, apply_combat,
  take_alive, take_coins, apply_inventory,
}
use devy_fps.Match.Tick.{
  credit_kill, kill_record, handle_death, handle_deaths, respawn_record, respawn_ids,
}

-- A record stands under its own id, within its budget, and who waits for a respawn is dead but not
-- out.
pub record IsSound (config : MatchLifecycleConfig) (id : ℕ) (r : PlayerRecord) : Type 0 where
  pub filed : r.player_id ≡ id
  pub in_budget : r.respawns_remaining ≤ config.respawns_per_player
  pub waiting : (r.pending_respawn_tick ≡ none) ⊎ ((r.alive ≡ false) × (r.eliminated ≡ false))

pub record IsValid (m : Match) : Type 0 where
  pub distinct : Distinct m.players_by_id
  pub sound : Every (IsSound m.config) m.players_by_id

-- A change of a record that keeps it sound.
abbrev pub Keeps : MatchLifecycleConfig → (ℕ → PlayerRecord → PlayerRecord) → Type 0
Keeps config f = (id : ℕ) (r : PlayerRecord) → IsSound config id r → IsSound config id (f id r)

new_record-IsSound :
    (config : MatchLifecycleConfig) (id : ℕ) → IsSound config id (new_record config id)
unfolding new_record
new_record-IsSound config id = record { filed = refl; in_budget = ground arith; waiting = inl refl }

put-IsValid :
    (m : Match) (id : ℕ) (r : PlayerRecord)
    → IsValid m
    → IsSound m.config id r
    → IsValid (record m { players_by_id = put m.players_by_id id r })
put-IsValid m id r v s = record {
  distinct = put-Distinct m.players_by_id id r v.distinct;
  sound = Every-put (IsSound m.config) m.players_by_id id r v.sound s;
}

pub map_values-IsValid :
    (m : Match) (f : ℕ → PlayerRecord → PlayerRecord)
    → Keeps m.config f
    → IsValid m
    → IsValid (record m { players_by_id = map_values f m.players_by_id })
map_values-IsValid m f k v = record {
  distinct = map_values-Distinct f m.players_by_id v.distinct;
  sound = Every-map_values (IsSound m.config) f m.players_by_id k v.sound;
}

or_new-IsSound :
    (m : Match) (id : ℕ)
    → IsValid m
    → IsSound m.config id (or_new m.config id (get m.players_by_id id))
or_new-IsSound m id v = elim (Option-cases (get m.players_by_id id)) [
  | inl e ↦ rw e (new_record-IsSound m.config id)
  | inr (r, e) ↦ rw e (v.sound id r e)
]

pub ensure_player-IsValid : (m : Match) (id : ℕ) → IsValid m → IsValid (ensure_player m id)
unfolding ensure_player
ensure_player-IsValid m id v =
    let s = or_new-IsSound m id v in
    put-IsValid m id _ v (record { filed = s.filed; in_budget = s.in_budget; waiting = s.waiting })

update_player-IsValid :
    (m : Match) (id : ℕ) (f : PlayerRecord → PlayerRecord)
    → Keeps m.config (λ id. f)
    → IsValid m
    → IsValid (update_player m id f)
unfolding update_player
update_player-IsValid m id f k v = elim (Option-cases (get m.players_by_id id)) [
  | inl e ↦ rw (update_player, e) v
  | inr (r, e) ↦ rw (update_player, e) (put-IsValid m id (f r) v (k id r (v.sound id r e)))
]

-- `ensure_player` and then a change of that player's record.
touch-IsValid :
    (m : Match) (id : ℕ) (f : PlayerRecord → PlayerRecord)
    → Keeps m.config (λ id. f)
    → IsValid m
    → IsValid (update_player (ensure_player m id) id f)
unfolding ensure_player
touch-IsValid m id f k v =
    update_player-IsValid (ensure_player m id) id f k (ensure_player-IsValid m id v)

pub remove_player-IsValid : (m : Match) (id : ℕ) → IsValid m → IsValid (remove_player m id)
unfolding remove_player
remove_player-IsValid m id v =
    update_player-IsValid m id _
      (λ j r s. record { filed = s.filed; in_budget = s.in_budget; waiting = inl refl }) v

reset-Keeps : (config : MatchLifecycleConfig) → Keeps config (λ id. reset_record config)
unfolding reset_record
reset-Keeps config id r s = record { filed = s.filed; in_budget = ground arith; waiting = inl refl }

pub reset-IsValid : (m : Match) → IsValid m → IsValid (reset m)
unfolding reset
reset-IsValid m v =
    let w = map_values-IsValid m (λ id r. reset_record m.config r) (reset-Keeps m.config) v in
    record { distinct = w.distinct; sound = w.sound }

pub new-IsValid : (config : MatchLifecycleConfig) → IsValid (new config)
unfolding new get
new-IsValid config = record { distinct = tt; sound = λ id r h. cc }

ensure_players-IsValid : (m : Match) (ids : List ℕ) → IsValid m → IsValid (ensure_players m ids)
unfolding ensure_players
ensure_players-IsValid m [] v = v
ensure_players-IsValid m (p ∷ ps) v =
    ensure_players-IsValid (ensure_player m p) ps (ensure_player-IsValid m p v)

pub mark_active-IsValid : (m : Match) (ids : List ℕ) → IsValid m → IsValid (mark_active m ids)
unfolding mark_active
mark_active-IsValid m ids v =
    map_values-IsValid (ensure_players m ids) _
      (λ j r s. record { filed = s.filed; in_budget = s.in_budget; waiting = s.waiting })
      (ensure_players-IsValid m ids v)

take_alive-Keeps :
    (config : MatchLifecycleConfig) (alive : Bool) → Keeps config (λ id. take_alive alive)
take_alive-Keeps config alive id r s = elim (Option-cases r.pending_respawn_tick) [
  | inl e ↦ record {
    filed = ground (arith, s.filed);
    in_budget = ground (arith, s.in_budget);
    waiting = ground (arith, s.waiting, e);
  }
  | inr (t, e) ↦ rw (take_alive, e) s
]

pub apply_combat-IsValid :
    (m : Match) (cs : List PlayerCombatState) → IsValid m → IsValid (apply_combat m cs)
unfolding apply_combat
apply_combat-IsValid m [] v = v
apply_combat-IsValid m (c ∷ cs) v =
    apply_combat-IsValid
      (update_player (ensure_player m c.player_id) c.player_id (take_alive c.alive)) cs
      (touch-IsValid m c.player_id (take_alive c.alive) (take_alive-Keeps m.config c.alive) v)

take_coins-Keeps :
    (config : MatchLifecycleConfig) (value : ℤ) → Keeps config (λ id. take_coins value)
take_coins-Keeps config value id r s = record {
  filed = ground (arith, s.filed);
  in_budget = ground (arith, s.in_budget);
  waiting = ground (arith, s.waiting);
}

pub apply_inventory-IsValid :
    (m : Match) (ss : List InventorySummary) (changed : Bool)
    → IsValid m
    → IsValid (apply_inventory m ss changed).0
unfolding apply_inventory
apply_inventory-IsValid m [] changed v = v
apply_inventory-IsValid m (s ∷ ss) changed v =
    apply_inventory-IsValid
      (update_player (ensure_player m s.player_id) s.player_id (take_coins s.total_value)) ss _
      (touch-IsValid m s.player_id (take_coins s.total_value)
        (take_coins-Keeps m.config s.total_value) v)

kill_record-Keeps :
    (tick : ℕ) (config : MatchLifecycleConfig) → Keeps config (λ id. kill_record tick config)
unfolding kill_record
kill_record-Keeps tick config id r s = record {
  filed = ground (arith, s.filed);
  in_budget = ground (arith, s.in_budget);
  waiting = ground (arith, s.waiting);
}

respawn_record-Keeps :
    (tick : ℕ) (config : MatchLifecycleConfig) → Keeps config (λ id. respawn_record tick)
unfolding respawn_record
respawn_record-Keeps tick config id r s = record {
  filed = ground (arith, s.filed);
  in_budget = ground (arith, s.in_budget);
  waiting = ground (arith, s.waiting);
}

credit_kill-IsValid : (m : Match) (d : DeathResolution) → IsValid m → IsValid (credit_kill m d)
unfolding credit_kill
credit_kill-IsValid m d v = elim (Bool-cases (eqb d.killer_id 0 || eqb d.killer_id d.victim_id)) [
  | inl e ↦ rw e v
  | inr e ↦ rw e (
      touch-IsValid m d.killer_id _
        (λ j r s. record { filed = s.filed; in_budget = s.in_budget; waiting = s.waiting }) v)
]

handle_death-IsValid :
    (tick : ℕ) (m : Match) (d : DeathResolution) → IsValid m → IsValid (handle_death tick m d)
unfolding handle_death
handle_death-IsValid tick m d v =
    credit_kill-IsValid _ d
      (touch-IsValid m d.victim_id (kill_record tick m.config) (kill_record-Keeps tick m.config) v)

pub handle_deaths-IsValid :
    (tick : ℕ) (handled : List ℕ) (ds : List DeathResolution) (m : Match)
    → IsValid m
    → IsValid (handle_deaths tick handled ds m)
unfolding handle_deaths
handle_deaths-IsValid tick handled [] m v = v
handle_deaths-IsValid tick handled (d ∷ ds) m v = elim (Bool-cases (contains handled d.victim_id)) [
  | inl e ↦ rw (handle_deaths, e) (handle_deaths-IsValid tick handled ds m v)
  | inr e ↦
      rw (handle_deaths, e)
        (handle_deaths-IsValid tick (d.victim_id ∷ handled) ds (handle_death tick m d)
          (handle_death-IsValid tick m d v))
]

pub respawn_ids-IsValid :
    (tick : ℕ) (ps : List ℕ) (m : Match) (respawned : List ℕ)
    → IsValid m
    → IsValid (respawn_ids tick ps m respawned).0
unfolding respawn_ids
respawn_ids-IsValid tick [] m respawned v = v
respawn_ids-IsValid tick (p ∷ ps) m respawned v =
    respawn_ids-IsValid tick ps (update_player m p (respawn_record tick)) _
      (update_player-IsValid m p (respawn_record tick) (respawn_record-Keeps tick m.config) v)
