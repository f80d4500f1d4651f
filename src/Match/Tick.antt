-- ===== src/Match/Tick.antt =====
-- `MatchLifecycleSimulation::resolve_tick`, stage by stage.
use devy_fps.Prelude.{
  ℕ, zero, suc, ◌+◌, ◌-◌, Bool, true, false, ◌&&◌, ◌||◌, List, [], ◌∷◌, ◌++◌, Option, none, some,
  ltb, leb, eqb, if◌then◌else◌, u64, nat_eq,
}
use devy_fps.Prelude.{not, u32}
use devy_fps.Prelude.Int.{ℤ, pos, pos_part, ltb_ℤ}
use devy_fps.Prelude.Map.{Map, get, map_values}
use devy_fps.Prelude.Sort.{sort}
use devy_fps.Prelude.Ids.{contains, sort_ids}
use devy_fps.Events.{DeathResolution, death_before}
use devy_fps.Match.{
  MatchPhase, pre_match, in_match, post_match, MatchLifecycleConfig, PlayerRecord, Match,
  one_second, ensure_player, update_player,
}

unfoldable pub count_connected : Map ℕ PlayerRecord → ℕ
count_connected [] = 0
count_connected ((id, r) ∷ players) =
    let rest = count_connected players in if r.connected then suc rest else rest

unfoldable pub connected_count : Match → ℕ
unfolding count_connected
connected_count m = count_connected m.players_by_id

-- The loop of `enter_in_match` over the players.
unfoldable pub start_record : MatchLifecycleConfig → PlayerRecord → PlayerRecord
start_record c r = record r {
  alive = true;
  eliminated = false;
  pending_respawn_tick = none;
  respawns_remaining = c.respawns_per_player;
}

unfoldable pub enter_in_match : Match → ℕ → Match
unfolding start_record
enter_in_match m tick = record m {
  phase = in_match;
  in_match_seconds_remaining = m.config.match_duration_seconds;
  in_match_second_accumulator = 0;
  winner_player_id = none;
  phase_started_tick = tick;
  players_by_id = map_values (λ id r. start_record m.config r) m.players_by_id;
}

unfoldable pub enter_post_match : Match → ℕ → Option ℕ → Match
enter_post_match m tick winner = record m {
  phase = post_match;
  in_match_seconds_remaining = 0;
  pre_match_ticks_remaining = 0;
  in_match_second_accumulator = 0;
  winner_player_id = winner;
  phase_started_tick = tick;
}

-- A stage's state: the match, and the flags of the tick.
pub record Stage : Type 0 where
  pub match : Match
  pub state_changed : Bool
  pub started_this_tick : Bool
  pub timer_expired : Bool

-- The countdown before a match, with its restart when too few players are connected.
unfoldable pub run_pre_match : Match → ℕ → Stage
unfolding connected_count enter_in_match
run_pre_match m tick =
    if ltb (connected_count m) m.config.min_players_to_start
    then record {
      match = record m { pre_match_ticks_remaining = m.config.pre_match_ticks };
      state_changed = not (eqb m.pre_match_ticks_remaining m.config.pre_match_ticks);
      started_this_tick = false;
      timer_expired = false;
    }
    else if eqb (m.pre_match_ticks_remaining - 1) 0
    then record {
      match = enter_in_match (record m { pre_match_ticks_remaining = 0 }) tick;
      state_changed = true;
      started_this_tick = true;
      timer_expired = false;
    }
    else record {
      match = record m { pre_match_ticks_remaining = m.pre_match_ticks_remaining - 1 };
      state_changed = false;
      started_this_tick = false;
      timer_expired = false;
    }

unfoldable pub quiet : Match → Stage
quiet m = record {
  match = m;
  state_changed = false;
  started_this_tick = false;
  timer_expired = false;
}

unfoldable pub pre_match_stage : MatchPhase → Match → ℕ → Stage
unfolding run_pre_match quiet
pre_match_stage pre_match m tick = run_pre_match m tick
pre_match_stage _ m tick = quiet m

-- while (accumulator >= 1 s && seconds > 0) { accumulator -= 1 s; --seconds; }
unfoldable pub count_down : ℕ → ℕ → ℕ × ℕ
count_down acc zero = (acc, zero)
count_down acc (suc seconds) =
    let rest = count_down (acc - one_second) seconds in
    if leb one_second acc then rest else (acc, suc seconds)

-- The match clock, which does not run in the tick that starts the match.
unfoldable pub clock_stage : ℤ → Stage → Stage
unfolding count_down
clock_stage tick_interval s = elim s.match.phase [
  | in_match ↦
      if s.started_this_tick
        || not (ltb_ℤ (pos 0) tick_interval && ltb 0 s.match.in_match_seconds_remaining)
      then s
      else let (acc, seconds) =
          count_down (s.match.in_match_second_accumulator + pos_part tick_interval)
            s.match.in_match_seconds_remaining in
        record s {
          match = record s.match {
            in_match_second_accumulator = acc;
            in_match_seconds_remaining = seconds;
          };
          timer_expired = eqb seconds 0;
        }
  | _ ↦ s
]

-- What a death does to its victim.
unfoldable pub kill_record : ℕ → MatchLifecycleConfig → PlayerRecord → PlayerRecord
kill_record tick c r =
    let dead : PlayerRecord = record r { deaths = u32 (r.deaths + 1); alive = false } in
    if ltb 0 r.respawns_remaining
    then record dead {
      respawns_remaining = r.respawns_remaining - 1;
      eliminated = false;
      pending_respawn_tick = some (u64 (tick + c.respawn_delay_ticks));
    }
    else record dead { eliminated = true; pending_respawn_tick = none }

unfoldable pub credit_kill : Match → DeathResolution → Match
unfolding ensure_player update_player
credit_kill m d =
    if eqb d.killer_id 0 || eqb d.killer_id d.victim_id
    then m
    else update_player (ensure_player m d.killer_id) d.killer_id
        λ r. record r { kills = u32 (r.kills + 1) }

unfoldable pub handle_death : ℕ → Match → DeathResolution → Match
unfolding kill_record credit_kill
handle_death tick m d =
    credit_kill
      (update_player (ensure_player m d.victim_id) d.victim_id (kill_record tick m.config)) d

-- Each victim's first death counts. With the victims handled so far.
unfoldable pub handle_deaths : ℕ → List ℕ → List DeathResolution → Match → Match
unfolding handle_death
handle_deaths tick handled [] m = m
handle_deaths tick handled (d ∷ ds) m =
    handle_deaths tick (if contains handled d.victim_id then handled else d.victim_id ∷ handled) ds
      (if contains handled d.victim_id then m else handle_death tick m d)

abbrev pub any_of : List DeathResolution → Bool
any_of [] = false
any_of (d ∷ ds) = true

-- With whether the scoreboard changed: the first death is never skipped.
unfoldable pub death_stage : ℕ → List DeathResolution → Match → Match × Bool
unfolding handle_deaths death_before
death_stage tick deaths m = elim m.phase [
  | in_match ↦ (handle_deaths tick [] (sort death_before deaths) m, any_of deaths)
  | _ ↦ (m, false)
]

-- A player whose respawn is due.
unfoldable pub is_due : ℕ → Option ℕ → Bool
is_due tick none = false
is_due tick (some t) = leb t tick

unfoldable pub respawn_record : ℕ → PlayerRecord → PlayerRecord
unfolding is_due
respawn_record tick r =
    if is_due tick r.pending_respawn_tick
    then (if r.eliminated
        then record r { pending_respawn_tick = none }
        else record r { pending_respawn_tick = none; alive = true })
    else r

abbrev pub respawns_now : ℕ → Option PlayerRecord → Bool
respawns_now tick none = false
respawns_now tick (some r) = is_due tick r.pending_respawn_tick && not r.eliminated

-- The loop over the sorted player ids, with the ids that respawn.
unfoldable pub respawn_ids : ℕ → List ℕ → Match → List ℕ → Match × List ℕ
unfolding respawn_record update_player
respawn_ids tick [] m respawned = (m, respawned)
respawn_ids tick (p ∷ ps) m respawned =
    respawn_ids tick ps (update_player m p (respawn_record tick))
      (if respawns_now tick (get m.players_by_id p) then respawned ++ p ∷ [] else respawned)

abbrev pub player_ids : Map ℕ PlayerRecord → List ℕ
player_ids [] = []
player_ids ((id, r) ∷ players) = id ∷ player_ids players

unfoldable pub respawn_stage : ℕ → Match → Match × List ℕ
unfolding respawn_ids
respawn_stage tick m = elim m.phase [
  | in_match ↦ respawn_ids tick (sort_ids (player_ids m.players_by_id)) m []
  | _ ↦ (m, [])
]

unfoldable pub contender_ids : Map ℕ PlayerRecord → List ℕ
contender_ids [] = []
contender_ids ((id, r) ∷ players) =
    let rest = contender_ids players in if not r.connected || r.eliminated then rest else id ∷ rest

abbrev pub sole : List ℕ → Option ℕ
sole (p ∷ []) = some p
sole _ = none

-- The match ends when one contender is left. With whether it did.
unfoldable pub contender_stage : ℕ → Match → Match × Bool
unfolding contender_ids enter_post_match
contender_stage tick m = elim m.phase [
  | in_match ↦ elim (sole (sort_ids (contender_ids m.players_by_id))) [
    | some winner ↦ (enter_post_match m tick (some winner), true)
    | none ↦ (m, false)
  ]
  | _ ↦ (m, false)
]
