-- ===== src/Match/History.antt =====
-- The players' records of server/src/MatchLifecycleSimulation.cpp over any calls.
use devy_fps.Prelude.{
  ℕ, ◌-◌, ◌≡◌, ◌∙◌, inl, inr, refl, sym, ap, subst, Bool, false, List, [], ◌∷◌, ltb, eqb, nat_eq,
  arith, Bool-cases,
}
use devy_fps.Prelude.Int.{ℤ}
use devy_fps.Prelude.Map.{get, Distinct}
use devy_fps.Prelude.Sort.{sort}
use devy_fps.Prelude.Ids.{sort_ids}
use devy_fps.Events.{DeathResolution, death_before}
use devy_fps.Match.{
  MatchLifecycleConfig, Match, new, reset, ensure_player, remove_player, mark_active, apply_combat,
  apply_inventory,
}
use devy_fps.Match.Tick.{
  connected_count, start_record, enter_in_match, enter_post_match, run_pre_match, quiet, Stage,
  pre_match_stage, clock_stage, death_stage, player_ids, respawn_stage, contender_stage,
}
use devy_fps.Match.Resolve.{timer_stage, resolve_tick}
use devy_fps.Match.Players.{
  IsSound, IsValid, map_values-IsValid, apply_inventory-IsValid, apply_combat-IsValid,
  mark_active-IsValid, handle_deaths-IsValid, respawn_ids-IsValid, new-IsValid, reset-IsValid,
  ensure_player-IsValid, remove_player-IsValid,
}
use devy_fps.Match.{MatchPhase, pre_match, in_match, post_match}
use devy_fps.Match.Phases.{TickInput, tick_of}

-- Validity speaks of the configuration and the players only.
IsValid-same :
    (m n : Match) → n.config ≡ m.config → n.players_by_id ≡ m.players_by_id → IsValid m → IsValid n
IsValid-same m n c p v = record {
  distinct = subst Distinct (sym p) v.distinct;
  sound =
      λ id r h. subst (λ t. IsSound t id r) (sym c) (v.sound id r (sym (ap (λ t. get t id) p) ∙ h));
}

enter_in_match-IsValid : (m : Match) (tick : ℕ) → IsValid m → IsValid (enter_in_match m tick)
unfolding enter_in_match start_record
enter_in_match-IsValid m tick v =
    let w =
      map_values-IsValid m (λ id r. start_record m.config r)
        (λ id r s. record { filed = s.filed; in_budget = ground arith; waiting = inl refl }) v in
    record { distinct = w.distinct; sound = w.sound }

run_pre_match-IsValid : (m : Match) (tick : ℕ) → IsValid m → IsValid (run_pre_match m tick).match
unfolding run_pre_match
run_pre_match-IsValid m tick v =
    let waits : IsValid (record m { pre_match_ticks_remaining = m.config.pre_match_ticks }) =
      record { distinct = v.distinct; sound = v.sound } in
    let begins =
      enter_in_match-IsValid (record m { pre_match_ticks_remaining = 0 }) tick
        (record { distinct = v.distinct; sound = v.sound }) in
    let counts : IsValid
        (record m { pre_match_ticks_remaining = m.pre_match_ticks_remaining - 1 }) =
      record { distinct = v.distinct; sound = v.sound } in
    elim (Bool-cases (ltb (connected_count m) m.config.min_players_to_start)) [
      | inl e ↦ rw e waits
      | inr e ↦ elim (Bool-cases (eqb (m.pre_match_ticks_remaining - 1) 0)) [
        | inl f ↦ rw (e, f) begins
        | inr f ↦ rw (e, f) counts
      ]
    ]

pre_match_stage-IsValid :
    (p : MatchPhase) (m : Match) (tick : ℕ) → IsValid m → IsValid (pre_match_stage p m tick).match
unfolding pre_match_stage quiet
pre_match_stage-IsValid pre_match m tick v = run_pre_match-IsValid m tick v
pre_match_stage-IsValid in_match m tick v = v
pre_match_stage-IsValid post_match m tick v = v

clock_stage_players :
    (ti : ℤ) (s : Stage)
    → ((clock_stage ti s).match.config ≡ s.match.config)
      × ((clock_stage ti s).match.players_by_id ≡ s.match.players_by_id)
unfolding clock_stage
clock_stage_players ti s = ground arith

contender_stage_players :
    (tick : ℕ) (m : Match)
    → ((contender_stage tick m).0.config ≡ m.config)
      × ((contender_stage tick m).0.players_by_id ≡ m.players_by_id)
unfolding contender_stage enter_post_match
contender_stage_players tick m = ground arith

timer_stage_players :
    (tick : ℕ) (expired : Bool) (m : Match)
    → ((timer_stage tick expired m).0.config ≡ m.config)
      × ((timer_stage tick expired m).0.players_by_id ≡ m.players_by_id)
unfolding timer_stage enter_post_match
timer_stage_players tick expired m = ground arith

death_stage-IsValid :
    (tick : ℕ) (ds : List DeathResolution) (m : Match)
    → IsValid m
    → IsValid (death_stage tick ds m).0
unfolding death_stage
death_stage-IsValid tick ds m v =
    ground (arith, handle_deaths-IsValid tick [] (sort death_before ds) m v, v)

respawn_stage-IsValid : (tick : ℕ) (m : Match) → IsValid m → IsValid (respawn_stage tick m).0
unfolding respawn_stage
respawn_stage-IsValid tick m v =
    ground (arith, respawn_ids-IsValid tick (sort_ids (player_ids m.players_by_id)) m [] v, v)

pub resolve_tick-IsValid : (m : Match) (i : TickInput) → IsValid m → IsValid (tick_of m i).0
unfolding resolve_tick
resolve_tick-IsValid m i v =
    let a = mark_active m i.active_player_ids in
    let b = apply_combat a i.combat_states in
    let c = (apply_inventory b i.inventory_summaries false).0 in
    let begun = pre_match_stage c.phase c i.tick in
    let clocked = clock_stage i.tick_interval begun in
    let mourned = (death_stage i.tick i.death_events clocked.match).0 in
    let revived = (respawn_stage i.tick mourned).0 in
    let contended = (contender_stage i.tick revived).0 in
    let ended = (timer_stage i.tick clocked.timer_expired contended).0 in
    let informed : IsValid c =
      apply_inventory-IsValid b i.inventory_summaries false
        (apply_combat-IsValid a i.combat_states (mark_active-IsValid m i.active_player_ids v)) in
    let ticking : IsValid clocked.match =
      let same = clock_stage_players i.tick_interval begun in
      IsValid-same begun.match clocked.match same.0 same.1
        (pre_match_stage-IsValid c.phase c i.tick informed) in
    let living : IsValid revived =
      respawn_stage-IsValid i.tick mourned
        (death_stage-IsValid i.tick i.death_events clocked.match ticking) in
    let same = contender_stage_players i.tick revived in
    let same_end = timer_stage_players i.tick clocked.timer_expired contended in
    IsValid-same contended ended same_end.0 same_end.1
      (IsValid-same revived contended same.0 same.1 living)

-- The calls that change a match.
pub data Call : Type 0 where
  reset_call : Call
  ensure_call remove_call : ℕ → Call
  tick_call : TickInput → Call

abbrev pub call : Match → Call → Match
call m reset_call = reset m
call m (ensure_call p) = ensure_player m p
call m (remove_call p) = remove_player m p
call m (tick_call i) = (tick_of m i).0

abbrev pub run : Match → List Call → Match
run m [] = m
run m (c ∷ cs) = run (call m c) cs

call-IsValid : (m : Match) (c : Call) → IsValid m → IsValid (call m c)
call-IsValid m reset_call v = reset-IsValid m v
call-IsValid m (ensure_call p) v = ensure_player-IsValid m p v
call-IsValid m (remove_call p) v = remove_player-IsValid m p v
call-IsValid m (tick_call i) v = resolve_tick-IsValid m i v

run-IsValid : (m : Match) (cs : List Call) → IsValid m → IsValid (run m cs)
run-IsValid m [] v = v
run-IsValid m (c ∷ cs) v = run-IsValid (call m c) cs (call-IsValid m c v)

-- After any calls on a new match, no player has two records, every record stands under its player's
-- id with at most the configured respawns left, and a player who waits for a respawn is dead and not
-- eliminated.
pub players_stay_sound :
    (config : MatchLifecycleConfig) (calls : List Call) → IsValid (run (new config) calls)
players_stay_sound config calls = run-IsValid (new config) calls (new-IsValid config)
