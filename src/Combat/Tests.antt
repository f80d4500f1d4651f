-- ===== src/Combat/Tests.antt =====
-- A fight of two players, over a `float` that holds whole numbers only.
use devy_fps.Prelude.{
  ℕ, ◌+◌, ◌≡◌, refl, true, ◌&&◌, List, [], ◌∷◌, some, if◌then◌else◌, nat_eq, arith,
}
use devy_fps.Prelude.{not, u32, bytes_eq}
use devy_fps.Prelude.Int.{ℤ, pos, ◌-ℤ◌, max_ℤ}
use devy_fps.Prelude.Whole.{whole, whole_doubles}
use devy_fps.Prelude.Map.{get, put, erase, map_values}
use devy_fps.Prelude.Queues.{nonempty_ids}
use devy_fps.Prelude.Sort.{sort}
use devy_fps.Prelude.Ids.{contains, NoRepeat}
use devy_fps.Prelude.Queues.Drain.{drain}
use devy_fps.Events.{PlayerCombatState}
use devy_fps.Match.{Match, MatchLifecycleConfig, in_match}
use devy_fps.Match
use devy_fps.Match.Resolve
use devy_fps.Match.Mourning.{played_in}
use devy_fps.Match.Deaths.{deaths_of}
use devy_fps.Combat.{
  WeaponDefinition, CombatConfig, FireCommand, Combat, new, enqueue_fire, set_player_position,
}
use devy_fps.Combat.Resolve.{resolve_tick}
use devy_fps.Combat.Deaths.{victims, is_alive, deaths_are_final, each_death_counts}
use devy_fps.Combat.Health.{dealt, damage_adds_up}
use devy_fps.Combat.History.{
  IsValid, Call, position_call, fire_call, tick_call, run, health_stays_sound,
}
use devy_fps.Combat.Numbers.{take_by_number, enqueue_fire_by_number}

-- "Gun", found as "gun".
abbrev gun : WeaponDefinition ℤ
gun = record {
  id = 71 ∷ 117 ∷ 110 ∷ [];
  type = [];
  damage = pos 60;
  mag_size = pos 6;
  rate_of_fire = pos 1;
  pellets = pos 0;
  damage_per_pellet = pos 0;
  range_units = pos 50;
  projectile_speed_units_per_second = pos 0;
  tier = pos 1;
}

abbrev config : CombatConfig ℤ
config = record {
  starting_health = pos 100;
  default_hitscan_range_units = pos 128;
  default_projectile_range_units = pos 96;
  default_projectile_speed_units_per_second = pos 40;
  hit_radius_units = pos 1;
}

abbrev shot : ℕ → FireCommand ℤ
shot seq = record {
  attacker_id = 1;
  shot_seq = seq;
  weapon_id = 103 ∷ 117 ∷ 110 ∷ [];
  origin_x = pos 0;
  origin_y = pos 0;
  direction_x = pos 1;
  direction_y = pos 0;
  received_at = 0;
}

abbrev calls : List (Call ℤ)
calls = position_call 1 (pos 0) (pos 0) ∷ position_call 2 (pos 3) (pos 0) ∷ fire_call (shot 1) ∷ []

-- Player 1 has fired, and the shot is queued.
abbrev aimed : Combat ℤ
aimed = run whole_doubles (new whole_doubles (gun ∷ []) config) calls

-- The first shot has hit player 2, and a second one is queued.
abbrev wounded : Combat ℤ
wounded = run whole_doubles aimed (tick_call 1 (pos 1_000_000_000) ∷ fire_call (shot 2) ∷ [])

victims_lem :
    victims (resolve_tick whole_doubles wounded 9 (pos 1_000_000_000)).1.death_events ≡ 2 ∷ []
unfolding new resolve_tick get put sort drain enqueue_fire set_player_position nonempty_ids whole
    erase
victims_lem = refl

deaths_are_final_example :
    let next = resolve_tick whole_doubles wounded 9 (pos 1_000_000_000) in
    NoRepeat (victims next.1.death_events)
    × ((p : ℕ)
        → contains (victims next.1.death_events) p
          ≡ (is_alive wounded p && not (is_alive next.0 p)))
deaths_are_final_example = deaths_are_final whole_doubles wounded 9 (pos 1_000_000_000)

abbrev lobby : Match
lobby = Match.new (record {
  pre_match_ticks = 1;
  match_duration_seconds = 10;
  respawns_per_player = 1;
  respawn_delay_ticks = 2;
  min_players_to_start = 2;
})

-- The players have come, and the match has begun.
abbrev played : Match
played = (Match.Resolve.resolve_tick lobby 8 (pos 1_000_000_000) (1 ∷ 2 ∷ []) [] [] []).0

played_phase : played.phase ≡ in_match
unfolding Match.new Match.Resolve.resolve_tick map_values get put sort
played_phase = refl

each_death_counts_example :
    let next = resolve_tick whole_doubles wounded 9 (pos 1_000_000_000) in
    let n =
      (Match.Resolve.resolve_tick played 9
        (pos 1_000_000_000)
        (1 ∷ 2 ∷ [])
        []
        next.1.death_events
        []).0 in
    deaths_of n 2 ≡ (
      if played_in played.phase n.phase && (is_alive wounded 2 && not (is_alive next.0 2))
      then u32 (deaths_of played 2 + 1)
      else deaths_of played 2)
each_death_counts_example =
    each_death_counts whole_doubles wounded played 9 (pos 1_000_000_000) (1 ∷ 2 ∷ []) [] [] 2

-- There the death does count.
death_counted :
    deaths_of
      (Match.Resolve.resolve_tick played 9
        (pos 1_000_000_000)
        (1 ∷ 2 ∷ [])
        []
        (resolve_tick whole_doubles wounded 9 (pos 1_000_000_000)).1.death_events
        []).0
      2
    ≡ 1
unfolding new resolve_tick Match.new Match.Resolve.resolve_tick map_values get put sort drain
    enqueue_fire set_player_position nonempty_ids whole erase
death_counted = refl

abbrev target : PlayerCombatState
target = record { player_id = 2; health = pos 100; alive = true; last_shot_seq = 0 }

target_lem : get aimed.players_by_id 2 ≡ some target
unfolding new get put enqueue_fire set_player_position whole
target_lem = refl

damage_adds_up_example :
    let next = resolve_tick whole_doubles aimed 1 (pos 1_000_000_000) in
    (t : PlayerCombatState) × ((get next.0.players_by_id 2 ≡ some t)
      × (t.health ≡ max_ℤ (pos 0) (pos 100 -ℤ dealt next.1.damage_events 2)))
damage_adds_up_example =
    damage_adds_up whole_doubles aimed 1 (pos 1_000_000_000) 2 target target_lem (omega arith)

health_stays_sound_example : IsValid (run whole_doubles (new whole_doubles (gun ∷ []) config) calls)
health_stays_sound_example = health_stays_sound whole_doubles (gun ∷ []) config calls

enqueue_fire_by_number_example : enqueue_fire aimed (shot 1) ≡ take_by_number aimed (shot 1)
enqueue_fire_by_number_example =
    enqueue_fire_by_number whole_doubles (gun ∷ []) config calls (shot 1)
