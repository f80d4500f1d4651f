-- ===== src/Match.antt =====
-- server/src/MatchLifecycleSimulation.cpp and server/include/server/MatchLifecycleSimulation.h: the
-- phases of a match, its clock, deaths and respawns, and the scoreboard. `resolve_tick` is split
-- into the stages of the source's body, in their order. A method that changes the object returns the
-- new object. The tick interval is a signed number of nanoseconds.
pub mod Tick
pub mod Board
pub mod Frame
pub mod Ranking
pub mod Phases
pub mod Players
pub mod Clock
pub mod Deaths
pub mod Mourning
pub mod History
pub mod Resolve
mod Tests
use devy_fps.Prelude.{
  ℕ, zero, suc, ◌+◌, ◌-◌, ◌*◌, ◌/◌, ◌%◌, ◌≤◌, ◌<◌, ◌≡◌, ◌≢◌, ◌⊎◌, ◌↔◌, ◌∙◌, inl, inr, refl, sym, ap,
  subst, Bool, true, false, ◌&&◌, ◌||◌, List, [], ◌∷◌, ◌++◌, Option, none, some, ltb, leb, eqb,
  if◌then◌else◌, u64, sub64, last?, length, length-append, All, All-append, nat_eq, arith,
  Bool-cases, Option-cases, eqb_refl, eqb_iff, select,
}
use devy_fps.Prelude.{map, not, u32}
use devy_fps.Prelude.Int.{ℤ, pos, pos_part, neg_part, ltb_ℤ, eqb_ℤ}
use devy_fps.Prelude.Map.{Map, get, put, erase, map_values}
use devy_fps.Prelude.Sort.{sort}
use devy_fps.Prelude.Ids.{contains, sort_ids}
use devy_fps.Events.{PlayerCombatState, DeathResolution, InventorySummary, death_before}

pub data MatchPhase : Type 0 where
  pre_match in_match post_match : MatchPhase

pub record MatchLifecycleConfig : Type 0 where
  pub pre_match_ticks : ℕ
  pub match_duration_seconds : ℕ
  pub respawns_per_player : ℕ
  pub respawn_delay_ticks : ℕ
  pub min_players_to_start : ℕ

pub record MatchScoreEntry : Type 0 where
  pub player_id : ℕ
  pub kills : ℕ
  pub deaths : ℕ
  pub coins : ℤ
  pub respawns_remaining : ℕ
  pub alive : Bool
  pub eliminated : Bool
  pub connected : Bool

pub record MatchLifecycleState : Type 0 where
  pub phase : MatchPhase
  pub remaining_seconds : ℕ
  pub phase_started_tick : ℕ
  pub winner_player_id : Option ℕ

pub record MatchLifecycleTickResult : Type 0 where
  pub state : MatchLifecycleState
  pub scoreboard : List MatchScoreEntry
  pub respawned_players : List ℕ
  pub state_changed : Bool
  pub scoreboard_changed : Bool

pub record PlayerRecord : Type 0 where
  pub player_id : ℕ
  pub kills : ℕ
  pub deaths : ℕ
  pub coins : ℤ
  pub respawns_remaining : ℕ
  pub alive : Bool
  pub eliminated : Bool
  pub connected : Bool
  pub participated : Bool
  pub pending_respawn_tick : Option ℕ

pub record Match : Type 0 where
  pub config : MatchLifecycleConfig
  pub phase : MatchPhase
  pub pre_match_ticks_remaining : ℕ
  pub in_match_seconds_remaining : ℕ
  pub in_match_second_accumulator : ℕ
  pub phase_started_tick : ℕ
  pub winner_player_id : Option ℕ
  pub players_by_id : Map ℕ PlayerRecord

abbrev pub one_second : ℕ
one_second = 1_000_000_000

unfoldable pub sanitize_config : MatchLifecycleConfig → MatchLifecycleConfig
sanitize_config c = record c {
  match_duration_seconds = if eqb c.match_duration_seconds 0 then 600 else c.match_duration_seconds;
  respawn_delay_ticks = if eqb c.respawn_delay_ticks 0 then 60 else c.respawn_delay_ticks;
  min_players_to_start = if eqb c.min_players_to_start 0 then 1 else c.min_players_to_start;
}

unfoldable pub new : MatchLifecycleConfig → Match
unfolding sanitize_config
new config =
    let c = sanitize_config config in
    record {
      config = c;
      phase = pre_match;
      pre_match_ticks_remaining = c.pre_match_ticks;
      in_match_seconds_remaining = c.match_duration_seconds;
      in_match_second_accumulator = 0;
      phase_started_tick = 0;
      winner_player_id = none;
      players_by_id = [];
    }

-- The loop of `reset` over the players.
unfoldable pub reset_record : MatchLifecycleConfig → PlayerRecord → PlayerRecord
reset_record c r = record r {
  kills = 0;
  deaths = 0;
  coins = pos 0;
  respawns_remaining = c.respawns_per_player;
  alive = true;
  eliminated = false;
  pending_respawn_tick = none;
}

unfoldable pub reset : Match → Match
unfolding reset_record
reset m = record m {
  phase = pre_match;
  pre_match_ticks_remaining = m.config.pre_match_ticks;
  in_match_seconds_remaining = m.config.match_duration_seconds;
  in_match_second_accumulator = 0;
  phase_started_tick = 0;
  winner_player_id = none;
  players_by_id = map_values (λ id r. reset_record m.config r) m.players_by_id;
}

-- What `try_emplace` and the lines below it make of a player that is new.
unfoldable pub new_record : MatchLifecycleConfig → ℕ → PlayerRecord
new_record c player_id = record {
  player_id = player_id;
  kills = 0;
  deaths = 0;
  coins = pos 0;
  respawns_remaining = c.respawns_per_player;
  alive = true;
  eliminated = false;
  connected = false;
  participated = false;
  pending_respawn_tick = none;
}

abbrev pub or_new : MatchLifecycleConfig → ℕ → Option PlayerRecord → PlayerRecord
or_new c player_id none = new_record c player_id
or_new c player_id (some r) = r

unfoldable pub ensure_player : Match → ℕ → Match
unfolding new_record
ensure_player m player_id = record m {
  players_by_id =
      put m.players_by_id player_id
        (record (or_new m.config player_id (get m.players_by_id player_id)) {
          participated = true;
          connected = true;
        });
}

-- `it->second.x = …` where `it` is the result of a `find`.
unfoldable pub update_player : Match → ℕ → (PlayerRecord → PlayerRecord) → Match
update_player m player_id f = elim (get m.players_by_id player_id) [
  | none ↦ m
  | some r ↦ record m { players_by_id = put m.players_by_id player_id (f r) }
]

unfoldable pub remove_player : Match → ℕ → Match
unfolding update_player
remove_player m player_id =
    update_player m player_id λ r. record r { connected = false; pending_respawn_tick = none }

unfoldable pub ensure_players : Match → List ℕ → Match
unfolding ensure_player
ensure_players m [] = m
ensure_players m (p ∷ ps) = ensure_players (ensure_player m p) ps

-- The players that this tick has as active, and the connection of every other.
unfoldable pub mark_active : Match → List ℕ → Match
unfolding ensure_players
mark_active m active_player_ids =
    let n = ensure_players m active_player_ids in
    record n {
      players_by_id =
          map_values (λ id r. record r { connected = contains active_player_ids id })
            n.players_by_id;
    }

-- A player who waits for a respawn stays dead, whatever the combat state says.
abbrev pub take_alive : Bool → PlayerRecord → PlayerRecord
take_alive alive r = elim r.pending_respawn_tick [ none ↦ record r { alive = alive } | some t ↦ r ]

unfoldable pub apply_combat : Match → List PlayerCombatState → Match
unfolding ensure_player update_player
apply_combat m [] = m
apply_combat m (c ∷ cs) =
    apply_combat (update_player (ensure_player m c.player_id) c.player_id (take_alive c.alive)) cs

abbrev pub coins_differ : Option PlayerRecord → ℤ → Bool
coins_differ none value = false
coins_differ (some r) value = not (eqb_ℤ r.coins value)

abbrev pub take_coins : ℤ → PlayerRecord → PlayerRecord
take_coins value r = if eqb_ℤ r.coins value then r else record r { coins = value }

-- With whether the scoreboard changed.
unfoldable pub apply_inventory : Match → List InventorySummary → Bool → Match × Bool
unfolding ensure_player update_player
apply_inventory m [] changed = (m, changed)
apply_inventory m (s ∷ ss) changed =
    let n = ensure_player m s.player_id in
    apply_inventory (update_player n s.player_id (take_coins s.total_value)) ss
      (changed || coins_differ (get n.players_by_id s.player_id) s.total_value)
