-- ===== src/Match/Tests.antt =====
-- A match on concrete inputs: two players, a match of ten seconds and one respawn.
use devy_fps.Prelude.{ℕ, ◌+◌, ◌≡◌, refl, List, [], ◌∷◌, some, nat_eq, arith}
use devy_fps.Prelude.Int.{pos}
use devy_fps.Prelude.Sort.{sort}
use devy_fps.Prelude.Map.{map_values, put, get}
use devy_fps.Events.{DeathResolution}
use devy_fps.Match.{post_match, MatchLifecycleConfig, Match, new, ensure_player}
use devy_fps.Match.Tick.{count_down}
use devy_fps.Match.Board.{scoreboard_snapshot}
use devy_fps.Match.Ranking.{Ranked, entries_of, due_entries, scoreboard_ranks}
use devy_fps.Match.Resolve.{resolve_tick}
use devy_fps.Match.Phases.{
  TickInput, PhaseStep, tick_of, run_ticks, course, resolve_tick-PhaseStep, winner_is_final,
}
use devy_fps.Match.Players.{IsValid}
use devy_fps.Match.History.{
  Call, ensure_call, remove_call, tick_call, reset_call, run, players_stay_sound,
}
use devy_fps.Prelude.{u32}
use devy_fps.Match.Tick.{handle_deaths}
use devy_fps.Match.Deaths.{deaths_of, deaths-handle_deaths}
use devy_fps.Match.Clock.{IsRunning, Ran, elapsed, decided, match_clock_is_exact}
use devy_fps.Prelude.{map}

abbrev config : MatchLifecycleConfig
config = record {
  pre_match_ticks = 1;
  match_duration_seconds = 10;
  respawns_per_player = 1;
  respawn_delay_ticks = 2;
  min_players_to_start = 2;
}

abbrev death_of_two : DeathResolution
death_of_two = record { tick = 2; victim_id = 2; killer_id = 1; shot_seq = 1; weapon_id = [] }

abbrev input : ℕ → List DeathResolution → TickInput
input tick deaths = record {
  tick = tick;
  tick_interval = pos 1_000_000_000;
  active_player_ids = 1 ∷ 2 ∷ [];
  combat_states = [];
  death_events = deaths;
  inventory_summaries = [];
}

abbrev long_input : ℕ → TickInput
long_input tick = record (input tick []) { tick_interval = pos 2_500_000_000 }

abbrev started : Match
started = (tick_of (new config) (input 1 [])).0

-- Player 2 dies twice, and then is out.
abbrev finished : Match
finished =
    run_ticks started (input 2 (death_of_two ∷ []) ∷ input 4 [] ∷ input 5 (death_of_two ∷ []) ∷ [])

finished_phase : finished.phase ≡ post_match
unfolding new resolve_tick map_values put get sort
finished_phase = refl

resolve_tick-PhaseStep_example : PhaseStep 1 (new config) started
unfolding resolve_tick
resolve_tick-PhaseStep_example =
    resolve_tick-PhaseStep (new config) 1 (pos 1_000_000_000) (1 ∷ 2 ∷ []) [] [] []

winner_is_final_example :
    course (run_ticks finished (input 6 [] ∷ input 7 (death_of_two ∷ []) ∷ [])) ≡ course finished
winner_is_final_example =
    winner_is_final finished (input 6 [] ∷ input 7 (death_of_two ∷ []) ∷ []) finished_phase

players_stay_sound_example : IsValid (
    run (new config) (
      ensure_call 1
      ∷ tick_call (input 1 [])
      ∷ tick_call (input 2 (death_of_two ∷ []))
      ∷ remove_call 2
      ∷ reset_call
      ∷ []))
players_stay_sound_example = players_stay_sound config (
    ensure_call 1
    ∷ tick_call (input 1 [])
    ∷ tick_call (input 2 (death_of_two ∷ []))
    ∷ remove_call 2
    ∷ reset_call
    ∷ [])

-- Player 2 dies, and a third player comes late.
abbrev calls : List Call
calls =
    tick_call (input 1 [])
    ∷ tick_call (input 2 (death_of_two ∷ []))
    ∷ ensure_call 3
    ∷ tick_call (input 4 [])
    ∷ []

scoreboard_ranks_example :
    let m = run (new config) calls in
    Ranked (scoreboard_snapshot m)
    × ((p : ℕ) → entries_of p (scoreboard_snapshot m) ≡ due_entries p (get m.players_by_id p))
scoreboard_ranks_example = scoreboard_ranks config calls

-- Player 2 is last, after player 3, who has as few kills and coins and has not died.
scoreboard_lem :
    map (λ e. e.player_id) (scoreboard_snapshot (run (new config) calls)) ≡ 1 ∷ 3 ∷ 2 ∷ []
unfolding new resolve_tick map_values put get sort ensure_player scoreboard_snapshot
scoreboard_lem = refl

started-IsRunning : IsRunning started
unfolding new resolve_tick map_values put get sort
started-IsRunning = record { playing = refl; under_a_second = omega arith; time_left = omega arith }

-- Three ticks of two and a half seconds.
abbrev inputs : List TickInput
inputs = long_input 2 ∷ long_input 3 ∷ long_input 4 ∷ []

match_clock_is_exact_example :
    Ran (elapsed inputs) (decided started inputs) started (run_ticks started inputs)
match_clock_is_exact_example = match_clock_is_exact started inputs started-IsRunning

-- Seven and a half of the ten seconds are gone.
clock_lem :
    ((run_ticks started inputs).in_match_second_accumulator ≡ 500_000_000)
    × ((run_ticks started inputs).in_match_seconds_remaining ≡ 3)
unfolding new resolve_tick map_values put get sort count_down
clock_lem = (refl, refl)

-- The winner, and a kill that counts once for each death.
winner_is_player_one : finished.winner_player_id ≡ some 1
unfolding new resolve_tick map_values put get sort
winner_is_player_one = refl

deaths-handle_deaths_example :
    deaths_of (handle_deaths 2 [] (death_of_two ∷ death_of_two ∷ []) started) 2
    ≡ u32 (deaths_of started 2 + 1)
unfolding new resolve_tick map_values put get sort
deaths-handle_deaths_example =
    deaths-handle_deaths 2 [] (death_of_two ∷ death_of_two ∷ []) started 2
