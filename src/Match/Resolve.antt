-- ===== src/Match/Resolve.antt =====
-- `MatchLifecycleSimulation::resolve_tick` and the state that it reports. The remaining seconds are
-- computed by the source in `long double`, which is exact while the interval times the ticks is
-- below 2^63 nanoseconds (292 years); the model rounds up exactly.
use devy_fps.Prelude.{
  ℕ, ◌+◌, ◌-◌, ◌*◌, ◌/◌, Bool, true, false, ◌||◌, List, [], ◌∷◌, leb, eqb, if◌then◌else◌, nat_eq,
}
use devy_fps.Prelude.{not}
use devy_fps.Prelude.Int.{ℤ, pos, pos_part, ltb_ℤ}
use devy_fps.Events.{PlayerCombatState, DeathResolution, InventorySummary}
use devy_fps.Match.{
  MatchPhase, pre_match, in_match, post_match, MatchLifecycleState, MatchLifecycleTickResult, Match,
  one_second, mark_active, apply_combat, apply_inventory,
}
use devy_fps.Match.Tick.{
  enter_post_match, pre_match_stage, clock_stage, death_stage, respawn_stage, contender_stage,
}
use devy_fps.Match.Board.{build_scoreboard, resolve_winner_from_scoreboard}

unfoldable pub ticks_to_remaining_seconds : ℕ → ℤ → ℕ
ticks_to_remaining_seconds ticks tick_interval =
    if eqb ticks 0
    then 0
    else if not (ltb_ℤ (pos 0) tick_interval)
    then ticks
    else let seconds = (pos_part tick_interval * ticks + (one_second - 1)) / one_second in
      if leb 4_294_967_295 seconds then 4_294_967_295 else seconds

abbrev pub remaining_seconds_of : MatchPhase → Match → ℤ → ℕ
unfolding ticks_to_remaining_seconds
remaining_seconds_of pre_match m tick_interval =
    ticks_to_remaining_seconds m.pre_match_ticks_remaining tick_interval
remaining_seconds_of in_match m tick_interval = m.in_match_seconds_remaining
remaining_seconds_of post_match m tick_interval = 0

unfoldable pub build_state : Match → ℤ → MatchLifecycleState
unfolding ticks_to_remaining_seconds
build_state m tick_interval = record {
  phase = m.phase;
  remaining_seconds = remaining_seconds_of m.phase m tick_interval;
  phase_started_tick = m.phase_started_tick;
  winner_player_id = m.winner_player_id;
}

-- The end of a match whose time is over. With whether it ended.
unfoldable pub timer_stage : ℕ → Bool → Match → Match × Bool
unfolding enter_post_match build_scoreboard resolve_winner_from_scoreboard
timer_stage tick timer_expired m = elim m.phase [
  | in_match ↦
      if timer_expired
      then (enter_post_match m tick (resolve_winner_from_scoreboard (build_scoreboard m)), true)
      else (m, false)
  | _ ↦ (m, false)
]

abbrev pub any_id : List ℕ → Bool
any_id [] = false
any_id (p ∷ ps) = true

unfoldable pub resolve_tick :
    Match
    → ℕ
    → ℤ
    → List ℕ
    → List PlayerCombatState
    → List DeathResolution
    → List InventorySummary
    → Match × MatchLifecycleTickResult
unfolding mark_active apply_combat apply_inventory pre_match_stage clock_stage death_stage
    respawn_stage contender_stage timer_stage build_state build_scoreboard
resolve_tick m tick tick_interval active_player_ids combat_states death_events inventory_summaries =
    let (informed, coins_changed) =
      apply_inventory (apply_combat (mark_active m active_player_ids) combat_states)
        inventory_summaries false in
    let begun = pre_match_stage informed.phase informed tick in
    let clocked = clock_stage tick_interval begun in
    let (mourned, any_death) = death_stage tick death_events clocked.match in
    let (revived, respawned) = respawn_stage tick mourned in
    let (contended, one_left) = contender_stage tick revived in
    let (ended, time_over) = timer_stage tick clocked.timer_expired contended in
    (
      ended,
      record {
        state = build_state ended tick_interval;
        scoreboard = build_scoreboard ended;
        respawned_players = respawned;
        state_changed = begun.state_changed || one_left || time_over;
        scoreboard_changed = coins_changed || any_death || any_id respawned;
      },
    )
