-- ===== src/Match/Clock.antt =====
-- The match clock of server/src/MatchLifecycleSimulation.cpp, over any ticks of a running match.
use devy_fps.Prelude.{
  ℕ, zero, suc, ◌+◌, ◌-◌, ◌*◌, ◌≤◌, ◌<◌, ◌≡◌, ◌⊎◌, ◌∙◌, inl, inr, refl, sym, ap, subst, Bool, true,
  false, ◌||◌, List, [], ◌∷◌, Option, none, some, eqb, nat_eq, arith,
}
use devy_fps.Prelude.Int.{ℤ, pos_part}
use devy_fps.Prelude.Ids.{sort_ids}
use devy_fps.Match.{
  MatchPhase, in_match, post_match, Match, one_second, mark_active, apply_combat, apply_inventory,
}
use devy_fps.Match.Tick.{
  quiet, enter_post_match, pre_match_stage, count_down, clock_stage, death_stage, respawn_stage,
  contender_ids, sole, contender_stage,
}
use devy_fps.Match.Resolve.{timer_stage, resolve_tick}
use devy_fps.Match.Frame.{
  frame, mark_active-frame, apply_combat-frame, apply_inventory-frame, death_stage-frame,
  respawn_stage-frame,
}
use devy_fps.Match.Phases.{TickInput, tick_of, run_ticks, winner_is_final}

-- The seconds that the loop takes off are exactly those it takes out of the accumulator, and it
-- stops only when less than a second is left there or the match time is over.
count_down_lem :
    (acc seconds : ℕ)
    → let rest = count_down acc seconds in
      (rest.0 + one_second * seconds ≡ acc + one_second * rest.1)
      × ((rest.1 ≤ seconds) × ((rest.0 < one_second) ⊎ (rest.1 ≡ 0)))
unfolding count_down
count_down_lem acc zero = (refl, (ground arith, inr refl))
count_down_lem acc (suc seconds) = ground (arith, count_down_lem (acc - one_second) seconds)

-- The clock between two ticks of a running match: time is left, and less than a second of what has
-- passed is not yet taken off.
pub record IsRunning (m : Match) : Type 0 where
  pub playing : m.phase ≡ in_match
  pub under_a_second : m.in_match_second_accumulator < one_second
  pub time_left : 0 < m.in_match_seconds_remaining

-- From `m` to `n` exactly the time `passed` has gone by.
abbrev pub Passed : ℕ → Match → Match → Type 0
Passed passed m n =
    n.in_match_second_accumulator + one_second * m.in_match_seconds_remaining
    ≡ m.in_match_second_accumulator + passed + one_second * n.in_match_seconds_remaining

clock_stage_lem :
    (tick_interval : ℤ) (m : Match)
    → IsRunning m
    → let t = clock_stage tick_interval (quiet m) in
      (t.match.phase ≡ in_match)
      × (Passed (pos_part tick_interval) m t.match
          × ((t.timer_expired ≡ eqb t.match.in_match_seconds_remaining 0)
              × ((t.match.in_match_second_accumulator < one_second)
                  ⊎ (t.match.in_match_seconds_remaining ≡ 0))))
unfolding clock_stage quiet
clock_stage_lem ti m v = ground (
  arith,
  v.playing,
  v.under_a_second,
  v.time_left,
  count_down_lem (m.in_match_second_accumulator + pos_part ti) m.in_match_seconds_remaining,
)

abbrev is_one : Option ℕ → Bool
is_one none = false
is_one (some p) = true

-- One connected player is left who is not eliminated.
abbrev pub one_left : Match → Bool
one_left m = is_one (sole (sort_ids (contender_ids m.players_by_id)))

-- The last two stages end the match or leave it alone.
end_step :
    (tick : ℕ) (expired : Bool) (m : Match)
    → m.phase ≡ in_match
    → let n = (timer_stage tick expired (contender_stage tick m).0).0 in
      ((n.phase ≡ post_match) × ((one_left n ≡ true) ⊎ (expired ≡ true)))
      ⊎ ((n ≡ m) × ((one_left n ≡ false) × (expired ≡ false)))
unfolding timer_stage contender_stage enter_post_match
end_step tick expired m h = ground (arith, h)

quiet_stage :
    (p : MatchPhase) (m : Match) (tick : ℕ) → p ≡ in_match → pre_match_stage p m tick ≡ quiet m
unfolding pre_match_stage
quiet_stage p m tick h = rw h refl

IsRunning-frame : (m n : Match) → frame n ≡ frame m → IsRunning m → IsRunning n
IsRunning-frame m n e v =
    let e' = sym e in
    record {
      playing = ap (λ f. f.phase) e ∙ v.playing;
      under_a_second = subst (λ f. f.in_match_second_accumulator < one_second) e' v.under_a_second;
      time_left = subst (λ f. 0 < f.in_match_seconds_remaining) e' v.time_left;
    }

-- What `passed` nanoseconds, and whether a tick has left one contender, make of a running match.
abbrev pub Ran : ℕ → Bool → Match → Match → Type 0
Ran passed decided m n =
    (IsRunning n × (Passed passed m n × (decided ≡ false)))
    ⊎ ((n.phase ≡ post_match)
        × ((decided ≡ true)
            ⊎ (one_second * m.in_match_seconds_remaining ≤ m.in_match_second_accumulator + passed)))

-- `c` is the match before the clock, and `r` the match after the respawns.
clock_stage-Ran :
    (tick : ℕ) (ti : ℤ) (m c r : Match)
    → IsRunning m
    → frame c ≡ frame m
    → frame r ≡ frame (clock_stage ti (quiet c)).match
    → let n =
        (timer_stage tick (clock_stage ti (quiet c)).timer_expired (contender_stage tick r).0).0 in
      Ran (pos_part ti) (one_left n) m n
clock_stage-Ran tick ti m c r v before after =
    let t = clock_stage ti (quiet c) in
    let lem = clock_stage_lem ti c (IsRunning-frame m c before v) in
    let acc_c : c.in_match_second_accumulator ≡ m.in_match_second_accumulator =
      ap (λ f. f.in_match_second_accumulator) before in
    let seconds_c : c.in_match_seconds_remaining ≡ m.in_match_seconds_remaining =
      ap (λ f. f.in_match_seconds_remaining) before in
    let acc_r : r.in_match_second_accumulator ≡ t.match.in_match_second_accumulator =
      ap (λ f. f.in_match_second_accumulator) after in
    let seconds_r : r.in_match_seconds_remaining ≡ t.match.in_match_seconds_remaining =
      ap (λ f. f.in_match_seconds_remaining) after in
    let phase_r : r.phase ≡ in_match = ap (λ f. f.phase) after ∙ lem.0 in
    let n = (timer_stage tick t.timer_expired (contender_stage tick r).0).0 in
    elim (end_step tick t.timer_expired r phase_r) [
      | inl (over, why) ↦ inr (over, ground (arith, why, lem.1, acc_c, seconds_c))
      | inr (same, (several, running)) ↦
          let acc_n : n.in_match_second_accumulator ≡ t.match.in_match_second_accumulator =
            ap (λ k. k.in_match_second_accumulator) same ∙ acc_r in
          let seconds_n : n.in_match_seconds_remaining ≡ t.match.in_match_seconds_remaining =
            ap (λ k. k.in_match_seconds_remaining) same ∙ seconds_r in
          inl (
            record {
              playing = ap (λ k. k.phase) same ∙ phase_r;
              under_a_second = ground (arith, lem.1, running, acc_n);
              time_left = ground (arith, lem.1, running, seconds_n);
            },
            (ground (arith, lem.1, acc_n, seconds_n, acc_c, seconds_c), several),
          )
    ]

tick_of-Ran :
    (m : Match) (i : TickInput)
    → IsRunning m
    → let n = (tick_of m i).0 in Ran (pos_part i.tick_interval) (one_left n) m n
unfolding resolve_tick
tick_of-Ran m i v =
    let a = mark_active m i.active_player_ids in
    let b = apply_combat a i.combat_states in
    let c = (apply_inventory b i.inventory_summaries false).0 in
    let begun = pre_match_stage c.phase c i.tick in
    let clocked = clock_stage i.tick_interval begun in
    let mourned = (death_stage i.tick i.death_events clocked.match).0 in
    let revived = (respawn_stage i.tick mourned).0 in
    let before : frame c ≡ frame m =
      apply_inventory-frame b i.inventory_summaries false
      ∙ apply_combat-frame a i.combat_states
      ∙ mark_active-frame m i.active_player_ids in
    let after : frame revived ≡ frame clocked.match =
      respawn_stage-frame i.tick mourned ∙ death_stage-frame i.tick i.death_events clocked.match in
    let running = IsRunning-frame m c before v in
    let still : begun ≡ quiet c = quiet_stage c.phase c i.tick running.playing in
    subst
      (λ s.
        frame revived ≡ frame (clock_stage i.tick_interval s).match
        → let n =
            (timer_stage i.tick (clock_stage i.tick_interval s).timer_expired
              (contender_stage i.tick revived).0).0 in
          Ran (pos_part i.tick_interval) (one_left n) m n)
      (sym still) (clock_stage-Ran i.tick i.tick_interval m c revived v before) after

-- The time of the ticks' intervals; one that is not positive adds none.
abbrev pub elapsed : List TickInput → ℕ
elapsed [] = 0
elapsed (i ∷ is) = pos_part i.tick_interval + elapsed is

-- Whether some tick leaves one contender.
abbrev pub decided : Match → List TickInput → Bool
decided m [] = false
decided m (i ∷ is) = one_left (tick_of m i).0 || decided (tick_of m i).0 is

-- What a first tick and the ticks after it have made of a running match.
Ran-trans :
    (first rest : ℕ) (one more : Bool) (m n k : Match)
    → Passed first m n
    → one ≡ false
    → Ran rest more n k
    → Ran (first + rest) (one || more) m k
Ran-trans first rest one more m n k passed h (inl (v, (p, e))) =
    inl (v, (omega (arith, passed, p), ground (arith, h, e)))
Ran-trans first rest one more m n k passed h (inr (over, inl e)) =
    inr (over, inl (ground (arith, h, e)))
Ran-trans first rest one more m n k passed h (inr (over, inr e)) =
    inr (over, inr (omega (arith, passed, e)))

-- From a running match, in which time is left and less than a second of the accumulator is not yet
-- taken off, any ticks lead to one of two ends. Either it still runs so, no tick has left one
-- contender, and the accumulator with the seconds taken off is exactly the time of all the ticks'
-- intervals more than at the start; or the match is over, and a tick has left one contender or the
-- intervals have used up the time that was left.
pub match_clock_is_exact :
    (m : Match) (inputs : List TickInput)
    → IsRunning m
    → Ran (elapsed inputs) (decided m inputs) m (run_ticks m inputs)
match_clock_is_exact m [] v = inl (v, (omega arith, refl))
match_clock_is_exact m (i ∷ is) v = elim (tick_of-Ran m i v) [
  | inl (w, (passed, several)) ↦
      Ran-trans (pos_part i.tick_interval) (elapsed is) (one_left (tick_of m i).0)
        (decided (tick_of m i).0 is) m (tick_of m i).0 (run_ticks (tick_of m i).0 is) passed several
        (match_clock_is_exact (tick_of m i).0 is w)
  | inr (over, why) ↦
      inr (ap (λ c. c.0) (winner_is_final (tick_of m i).0 is over) ∙ over, ground (arith, why))
]
