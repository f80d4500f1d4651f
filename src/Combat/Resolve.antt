-- ===== src/Combat/Resolve.antt =====
-- `CombatSimulation::resolve_tick`, and what the object tells of itself.
use devy_fps.Prelude.{
  ℕ, ◌+◌, Bool, false, ◌&&◌, List, [], ◌∷◌, ◌++◌, Option, none, some, ltb, leb, eqb, if◌then◌else◌,
  u64, nat_eq, select,
}
use devy_fps.Prelude.{max, bytes_eq}
use devy_fps.Prelude.Int.{ℤ, pos, ltb_ℤ, eqb_ℤ, ◌-ℤ◌, max_ℤ}
use devy_fps.Prelude.Floats.{Floats, Doubles}
use devy_fps.Prelude.Map.{Map, get, put}
use devy_fps.Prelude.Queues.Drain.{drain}
use devy_fps.Prelude.Sort.{sort}
use devy_fps.Events.{PlayerCombatState}
use devy_fps.Combat.{
  WeaponClass, hitscan, projectile, WeaponRuntime, FireCommand, CombatTickResult,
  PendingProjectileHit, Combat,
}
use devy_fps.Combat.Shots.{
  QueuedFire, RaycastHit, cooldown_ticks, travel_delay_ticks, raycast_victim,
}

-- By tick, then attacker, then shot, then victim.
unfoldable pub hit_before : PendingProjectileHit → PendingProjectileHit → Bool
hit_before a b =
    if eqb a.resolve_tick b.resolve_tick
    then (if eqb a.attacker_id b.attacker_id
        then (if eqb a.shot_seq b.shot_seq
            then ltb a.victim_id b.victim_id
            else ltb a.shot_seq b.shot_seq)
        else ltb a.attacker_id b.attacker_id)
    else ltb a.resolve_tick b.resolve_tick

abbrev pub no_events : CombatTickResult
no_events = record { damage_events = []; death_events = [] }

-- What a hit leaves of a living victim's state.
unfoldable pub wound : PendingProjectileHit → PlayerCombatState → PlayerCombatState
wound hit s =
    let health = max_ℤ (pos 0) (s.health -ℤ hit.damage) in
    record s { health = health; alive = if eqb_ℤ health (pos 0) then false else s.alive }

-- The events of a hit after which the victim's state is `s`.
unfoldable pub report :
    ℕ → PendingProjectileHit → PlayerCombatState → CombatTickResult → CombatTickResult
report tick hit s out = record {
  damage_events =
      out.damage_events
      ++ (record {
        tick = tick;
        attacker_id = hit.attacker_id;
        victim_id = hit.victim_id;
        shot_seq = hit.shot_seq;
        weapon_id = hit.weapon_id;
        damage = hit.damage;
        victim_health = s.health;
        lethal = eqb_ℤ s.health (pos 0);
      }
          ∷ []);
  death_events =
      if eqb_ℤ s.health (pos 0)
      then out.death_events
        ++ (record {
          tick = tick;
          victim_id = hit.victim_id;
          killer_id = hit.attacker_id;
          shot_seq = hit.shot_seq;
          weapon_id = hit.weapon_id;
        }
            ∷ [])
      else out.death_events;
}

unfoldable pub due_hits : ℕ → List PendingProjectileHit → List PendingProjectileHit
due_hits tick hits = sort hit_before (select (λ h. leb h.resolve_tick tick) hits)

-- `next_fire_tick_by_player_[attacker_id]` reads 0, and writes it, where there is none.
abbrev pub next_allowed : Option ℕ → ℕ
next_allowed none = 0
next_allowed (some tick) = tick

module _ {F : Type 0} where
  -- A hit on a victim whose state was looked up.
  unfoldable pub strike :
      ℕ
      → PendingProjectileHit
      → Option PlayerCombatState
      → Combat F
      → CombatTickResult
      → Combat F × CombatTickResult
  unfolding wound report
  strike tick hit none c out = (c, out)
  strike tick hit (some s) c out =
      if s.alive && ltb_ℤ (pos 0) hit.damage
      then (
        record c { players_by_id = put c.players_by_id hit.victim_id (wound hit s) },
        report tick hit (wound hit s) out,
      )
      else (c, out)

  unfoldable pub apply_damage :
      ℕ → PendingProjectileHit → Combat F → CombatTickResult → Combat F × CombatTickResult
  unfolding strike
  apply_damage tick hit c out = strike tick hit (get c.players_by_id hit.victim_id) c out

  unfoldable pub apply_all :
      ℕ → List PendingProjectileHit → Combat F → CombatTickResult → Combat F × CombatTickResult
  unfolding apply_damage
  apply_all tick [] c out = (c, out)
  apply_all tick (hit ∷ hits) c out =
      apply_all tick hits (apply_damage tick hit c out).0 (apply_damage tick hit c out).1

  unfoldable pub resolve_projectiles : ℕ → Combat F → CombatTickResult → Combat F × CombatTickResult
  unfolding apply_all due_hits
  resolve_projectiles tick c out =
      apply_all tick (due_hits tick c.pending_projectiles)
        (record c {
          pending_projectiles = select (λ h. ltb tick h.resolve_tick) c.pending_projectiles;
        })
        out

  -- The drained commands with the weapons they name.
  unfoldable pub with_weapons : Combat F → List (FireCommand F) → List (QueuedFire F)
  with_weapons c [] = []
  with_weapons c (fire ∷ fires) =
      record { command = fire; weapon = get c.weapons_by_id fire.weapon_id } ∷ with_weapons c fires

  unfoldable pub drain_fire_commands_deterministic : Combat F → Combat F × List (QueuedFire F)
  unfolding drain with_weapons
  drain_fire_commands_deterministic c =
      let d = drain (λ n. n) c.fire_queue_by_player 0 in
      (record c { fire_queue_by_player = d.queues }, with_weapons c d.drained)

  abbrev pub next_allowed_tick : Combat F → ℕ → ℕ
  next_allowed_tick c attacker_id = next_allowed (get c.next_fire_tick_by_player attacker_id)

  -- The attacker fires: its cooldown starts.
  unfoldable pub note_shot : Combat F → FireCommand F → PlayerCombatState → ℕ → Combat F
  note_shot c fire s next_tick = record c {
    next_fire_tick_by_player = put c.next_fire_tick_by_player fire.attacker_id next_tick;
    players_by_id =
        put c.players_by_id fire.attacker_id
          (record s { last_shot_seq = max s.last_shot_seq fire.shot_seq });
  }

  abbrev pub hit_of : ℕ → FireCommand F → WeaponRuntime F → ℕ → PendingProjectileHit
  hit_of tick fire weapon victim_id = record {
    resolve_tick = tick;
    attacker_id = fire.attacker_id;
    victim_id = victim_id;
    shot_seq = fire.shot_seq;
    weapon_id = weapon.id;
    damage = weapon.damage;
  }

module _ {F D : Type 0} ⦃f : Floats F⦄ (d : Doubles F D) where
  -- What becomes of a shot that is fired, by its weapon's class.
  unfoldable pub land :
      ℕ
      → ℤ
      → FireCommand F
      → WeaponRuntime F
      → WeaponClass
      → Option (RaycastHit F)
      → Combat F
      → CombatTickResult
      → Combat F × CombatTickResult
  unfolding apply_damage travel_delay_ticks
  land tick tick_interval fire weapon class none c out = (c, out)
  land tick tick_interval fire weapon hitscan (some hit) c out =
      apply_damage tick (hit_of tick fire weapon hit.victim_id) c out
  land tick tick_interval fire weapon projectile (some hit) c out = (
    record c {
      pending_projectiles =
          c.pending_projectiles
          ++ hit_of
              (u64 (
                tick
                + travel_delay_ticks d hit.distance_along_ray
                    weapon.projectile_speed_units_per_second tick_interval))
              fire weapon hit.victim_id
            ∷ [];
    },
    out,
  )

  unfoldable pub shoot :
      ℕ
      → ℤ
      → QueuedFire F
      → WeaponRuntime F
      → PlayerCombatState
      → Combat F
      → CombatTickResult
      → Combat F × CombatTickResult
  unfolding land note_shot raycast_victim cooldown_ticks
  shoot tick tick_interval fire weapon s c out =
      let shot =
        note_shot c fire.command s
          (u64 (tick + cooldown_ticks d weapon.rate_of_fire tick_interval)) in
      land tick tick_interval fire.command weapon weapon.weapon_class (raycast_victim shot fire)
        shot out

  -- A command whose attacker's state and weapon were looked up.
  unfoldable pub fire_as :
      ℕ
      → ℤ
      → QueuedFire F
      → Option PlayerCombatState
      → Option (WeaponRuntime F)
      → Combat F
      → CombatTickResult
      → Combat F × CombatTickResult
  unfolding shoot
  fire_as tick tick_interval fire none weapon c out = (c, out)
  fire_as tick tick_interval fire (some s) none c out = (c, out)
  fire_as tick tick_interval fire (some s) (some weapon) c out =
      if s.alive && leb (next_allowed_tick c fire.command.attacker_id) tick
      then shoot tick tick_interval fire weapon s c out
      else (c, out)

  -- One round of the loop over the drained commands.
  unfoldable pub resolve_fire :
      ℕ → ℤ → QueuedFire F → Combat F → CombatTickResult → Combat F × CombatTickResult
  unfolding fire_as
  resolve_fire tick tick_interval fire c out =
      fire_as tick tick_interval fire (get c.players_by_id fire.command.attacker_id) fire.weapon c
        out

  unfoldable pub resolve_fires :
      ℕ → ℤ → List (QueuedFire F) → Combat F → CombatTickResult → Combat F × CombatTickResult
  unfolding resolve_fire
  resolve_fires tick tick_interval [] c out = (c, out)
  resolve_fires tick tick_interval (fire ∷ fires) c out =
      let next = resolve_fire tick tick_interval fire c out in
      resolve_fires tick tick_interval fires next.0 next.1

  unfoldable pub resolve_tick : Combat F → ℕ → ℤ → Combat F × CombatTickResult
  unfolding resolve_projectiles drain_fire_commands_deterministic resolve_fires
  resolve_tick c tick tick_interval =
      let landed = resolve_projectiles tick c no_events in
      let queued = drain_fire_commands_deterministic landed.0 in
      resolve_fires tick tick_interval queued.1 queued.0 landed.1

abbrev pub all_states : Map ℕ PlayerCombatState → List PlayerCombatState
all_states [] = []
all_states ((player_id, s) ∷ players) = s ∷ all_states players

module _ {F : Type 0} where
  unfoldable pub state_for : Combat F → ℕ → Option PlayerCombatState
  state_for c player_id = get c.players_by_id player_id

  unfoldable pub snapshot : Combat F → List PlayerCombatState
  snapshot c = sort (λ a b. ltb a.player_id b.player_id) (all_states c.players_by_id)
