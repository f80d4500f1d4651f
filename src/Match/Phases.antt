-- ===== src/Match/Phases.antt =====
-- How a tick of server/src/MatchLifecycleSimulation.cpp moves the phase of the match.
use devy_fps.Prelude.{
  ℕ, ◌≡◌, ◌≢◌, ◌⊎◌, ◌∙◌, refl, ap, Bool, false, List, [], ◌∷◌, Option, none, nat_eq, arith,
}
use devy_fps.Prelude.Int.{ℤ}
use devy_fps.Events.{PlayerCombatState, DeathResolution, InventorySummary}
use devy_fps.Match.{
  MatchPhase, pre_match, in_match, post_match, MatchLifecycleConfig, MatchLifecycleTickResult,
  Match, mark_active, apply_combat, apply_inventory,
}
use devy_fps.Match.Tick.{
  enter_in_match, enter_post_match, run_pre_match, quiet, Stage, pre_match_stage, clock_stage,
  death_stage, respawn_stage, contender_stage,
}
use devy_fps.Match.Resolve.{timer_stage, resolve_tick}
use devy_fps.Match.Frame.{
  mark_active-frame, apply_combat-frame, apply_inventory-frame, death_stage-frame,
  respawn_stage-frame,
}

-- What a tick may only change by moving the phase.
abbrev pub Course : Type 0
Course = MatchPhase × ℕ × Option ℕ × MatchLifecycleConfig

abbrev pub course : Match → Course
course m = (m.phase, m.phase_started_tick, m.winner_player_id, m.config)

pub clock_stage-course :
    (tick_interval : ℤ) (s : Stage) → course (clock_stage tick_interval s).match ≡ course s.match
unfolding clock_stage
clock_stage-course tick_interval s = ground arith

-- The moves of the phase in one tick. A match can end in the tick in which it starts.
pub data PhaseStep (tick : ℕ) (m n : Match) : Type 0 where
  stay : course n ≡ course m → PhaseStep tick m n
  start : m.phase ≡ pre_match → course n ≡ (in_match, tick, none, m.config) → PhaseStep tick m n
  finish :
      m.phase ≢ post_match
      → course n ≡ (post_match, tick, n.winner_player_id, m.config)
      → PhaseStep tick m n

pub begin_step :
    (m : Match) (tick : ℕ)
    → let n = (pre_match_stage m.phase m tick).match in
      (course n ≡ course m)
      ⊎ ((m.phase ≡ pre_match) × (course n ≡ (in_match, tick, none, m.config)))
unfolding pre_match_stage run_pre_match enter_in_match quiet
begin_step m tick = ground arith

pub contender_step :
    (tick : ℕ) (m : Match)
    → let n = (contender_stage tick m).0 in
      (course n ≡ course m)
      ⊎ ((m.phase ≡ in_match) × (course n ≡ (post_match, tick, n.winner_player_id, m.config)))
unfolding contender_stage enter_post_match
contender_step tick m = ground arith

pub timer_step :
    (tick : ℕ) (expired : Bool) (m : Match)
    → let n = (timer_stage tick expired m).0 in
      (course n ≡ course m)
      ⊎ ((m.phase ≡ in_match) × (course n ≡ (post_match, tick, n.winner_player_id, m.config)))
unfolding timer_stage enter_post_match
timer_step tick expired m = ground arith

-- The stages of a tick, put together.
step_of :
    (m c b r k n : Match) (tick : ℕ)
    → course c ≡ course m
    → course r ≡ course b
    → (course b ≡ course c)
      ⊎ ((c.phase ≡ pre_match) × (course b ≡ (in_match, tick, none, c.config)))
    → (course k ≡ course r)
      ⊎ ((r.phase ≡ in_match) × (course k ≡ (post_match, tick, k.winner_player_id, r.config)))
    → (course n ≡ course k)
      ⊎ ((k.phase ≡ in_match) × (course n ≡ (post_match, tick, n.winner_player_id, k.config)))
    → PhaseStep tick m n
step_of m c b r k n tick before during begun contended timed =
    ground (arith, before, during, begun, contended, timed)

-- A tick keeps the phase with its start and the winner, or starts the match in this tick with no
-- winner, or ends a match that was not over in this tick; the configuration stays.
pub resolve_tick-PhaseStep :
    (m : Match) (tick : ℕ) (tick_interval : ℤ) (active_player_ids : List ℕ)
    (combat_states : List PlayerCombatState) (death_events : List DeathResolution)
    (inventory_summaries : List InventorySummary)
    → PhaseStep tick m
        (resolve_tick m tick tick_interval active_player_ids combat_states death_events
          inventory_summaries).0
unfolding resolve_tick
resolve_tick-PhaseStep m tick ti ids combat deaths inventory =
    let a = mark_active m ids in
    let b = apply_combat a combat in
    let c = (apply_inventory b inventory false).0 in
    let begun = pre_match_stage c.phase c tick in
    let clocked = clock_stage ti begun in
    let mourned = (death_stage tick deaths clocked.match).0 in
    let revived = (respawn_stage tick mourned).0 in
    let before : course c ≡ course m = ap course (
      apply_inventory-frame b inventory false
      ∙ apply_combat-frame a combat
      ∙ mark_active-frame m ids) in
    let during : course revived ≡ course begun.match =
      ap course (respawn_stage-frame tick mourned ∙ death_stage-frame tick deaths clocked.match)
      ∙ clock_stage-course ti begun in
    let contended = (contender_stage tick revived).0 in
    let ended = (timer_stage tick clocked.timer_expired contended).0 in
    step_of m c begun.match revived contended ended tick before during (begin_step c tick)
      (contender_step tick revived) (timer_step tick clocked.timer_expired contended)

-- The arguments of one call of `resolve_tick`.
pub record TickInput : Type 0 where
  pub tick : ℕ
  pub tick_interval : ℤ
  pub active_player_ids : List ℕ
  pub combat_states : List PlayerCombatState
  pub death_events : List DeathResolution
  pub inventory_summaries : List InventorySummary

abbrev pub tick_of : Match → TickInput → Match × MatchLifecycleTickResult
tick_of m i =
    resolve_tick m i.tick i.tick_interval i.active_player_ids i.combat_states i.death_events
      i.inventory_summaries

abbrev pub run_ticks : Match → List TickInput → Match
run_ticks m [] = m
run_ticks m (i ∷ is) = run_ticks (tick_of m i).0 is

over_step :
    (tick : ℕ) (m n : Match) → m.phase ≡ post_match → PhaseStep tick m n → course n ≡ course m
over_step tick m n over s = ground (arith, over, s)

-- Once a match is over, no sequence of ticks changes the phase, the winner or the tick at which it
-- ended, whatever the ticks are told.
pub winner_is_final :
    (m : Match) (inputs : List TickInput)
    → m.phase ≡ post_match
    → course (run_ticks m inputs) ≡ course m
winner_is_final m [] over = refl
winner_is_final m (i ∷ is) over =
    let step =
      resolve_tick-PhaseStep m i.tick i.tick_interval i.active_player_ids i.combat_states
        i.death_events i.inventory_summaries in
    let n = (tick_of m i).0 in
    let same = over_step i.tick m n over step in
    winner_is_final n is (ap (λ c. c.0) same ∙ over) ∙ same
