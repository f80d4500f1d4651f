-- ===== src/Match/Frame.antt =====
-- What most stages of `resolve_tick` of server/src/MatchLifecycleSimulation.cpp leave alone: all of
-- the match but its players.
use devy_fps.Prelude.{
  ℕ, ◌≡◌, ◌∙◌, inl, inr, refl, Bool, ◌||◌, List, [], ◌∷◌, eqb, nat_eq, arith, Bool-cases,
  Option-cases,
}
use devy_fps.Prelude.Map.{get}
use devy_fps.Prelude.Sort.{sort}
use devy_fps.Prelude.Ids.{contains, sort_ids}
use devy_fps.Events.{PlayerCombatState, DeathResolution, InventorySummary, death_before}
use devy_fps.Match.{
  PlayerRecord, Match, ensure_player, update_player, ensure_players, mark_active, apply_combat,
  take_alive, take_coins, apply_inventory,
}
use devy_fps.Match.Tick.{
  credit_kill, handle_death, handle_deaths, death_stage, respawn_record, respawn_ids, player_ids,
  respawn_stage,
}

abbrev pub frame : Match → Match
frame m = record m { players_by_id = [] }

update_player-frame :
    (m : Match) (p : ℕ) (f : PlayerRecord → PlayerRecord) → frame (update_player m p f) ≡ frame m
unfolding update_player
update_player-frame m p f = elim (Option-cases (get m.players_by_id p)) [
  | inl e ↦ rw (update_player, e) refl
  | inr (r, e) ↦ rw (update_player, e) refl
]

ensure_players-frame : (m : Match) (ps : List ℕ) → frame (ensure_players m ps) ≡ frame m
unfolding ensure_players ensure_player
ensure_players-frame m [] = refl
ensure_players-frame m (p ∷ ps) = ensure_players-frame (ensure_player m p) ps

pub mark_active-frame : (m : Match) (ps : List ℕ) → frame (mark_active m ps) ≡ frame m
unfolding mark_active
mark_active-frame m ps = ensure_players-frame m ps

pub apply_combat-frame :
    (m : Match) (cs : List PlayerCombatState) → frame (apply_combat m cs) ≡ frame m
unfolding apply_combat ensure_player
apply_combat-frame m [] = refl
apply_combat-frame m (c ∷ cs) =
    apply_combat-frame
      (update_player (ensure_player m c.player_id) c.player_id (take_alive c.alive)) cs
    ∙ update_player-frame (ensure_player m c.player_id) c.player_id (take_alive c.alive)

pub apply_inventory-frame :
    (m : Match) (ss : List InventorySummary) (changed : Bool)
    → frame (apply_inventory m ss changed).0 ≡ frame m
unfolding apply_inventory ensure_player
apply_inventory-frame m [] changed = refl
apply_inventory-frame m (s ∷ ss) changed =
    let n = ensure_player m s.player_id in
    apply_inventory-frame (update_player n s.player_id (take_coins s.total_value)) ss _
    ∙ update_player-frame n s.player_id (take_coins s.total_value)

credit_kill-frame : (m : Match) (d : DeathResolution) → frame (credit_kill m d) ≡ frame m
unfolding credit_kill ensure_player
credit_kill-frame m d = elim (Bool-cases (eqb d.killer_id 0 || eqb d.killer_id d.victim_id)) [
  | inl e ↦ rw e refl
  | inr e ↦ rw e (update_player-frame (ensure_player m d.killer_id) d.killer_id _)
]

handle_death-frame :
    (tick : ℕ) (m : Match) (d : DeathResolution) → frame (handle_death tick m d) ≡ frame m
unfolding handle_death ensure_player
handle_death-frame tick m d =
    credit_kill-frame _ d ∙ update_player-frame (ensure_player m d.victim_id) d.victim_id _

handle_deaths-frame :
    (tick : ℕ) (handled : List ℕ) (ds : List DeathResolution) (m : Match)
    → frame (handle_deaths tick handled ds m) ≡ frame m
unfolding handle_deaths
handle_deaths-frame tick handled [] m = refl
handle_deaths-frame tick handled (d ∷ ds) m = elim (Bool-cases (contains handled d.victim_id)) [
  | inl e ↦ rw (handle_deaths, e) (handle_deaths-frame tick handled ds m)
  | inr e ↦
      rw (handle_deaths, e)
        (handle_deaths-frame tick (d.victim_id ∷ handled) ds (handle_death tick m d)
          ∙ handle_death-frame tick m d)
]

respawn_ids-frame :
    (tick : ℕ) (ps : List ℕ) (m : Match) (respawned : List ℕ)
    → frame (respawn_ids tick ps m respawned).0 ≡ frame m
unfolding respawn_ids
respawn_ids-frame tick [] m respawned = refl
respawn_ids-frame tick (p ∷ ps) m respawned =
    respawn_ids-frame tick ps (update_player m p (respawn_record tick)) _
    ∙ update_player-frame m p (respawn_record tick)

pub death_stage-frame :
    (tick : ℕ) (ds : List DeathResolution) (m : Match) → frame (death_stage tick ds m).0 ≡ frame m
unfolding death_stage
death_stage-frame tick ds m = ground (arith, handle_deaths-frame tick [] (sort death_before ds) m)

pub respawn_stage-frame : (tick : ℕ) (m : Match) → frame (respawn_stage tick m).0 ≡ frame m
unfolding respawn_stage
respawn_stage-frame tick m =
    ground (arith, respawn_ids-frame tick (sort_ids (player_ids m.players_by_id)) m [])
