-- ===== src/Combat/Keeps.antt =====
-- What holds through a tick of server/src/CombatSimulation.cpp if each of its steps keeps it.
use devy_fps.Prelude.{
  ℕ, ◌&&◌, ◌+◌, ◌≡◌, refl, Bool, true, false, ◌&&◌, List, [], ◌∷◌, Option, none, some, ltb, leb,
  if◌then◌else◌, u64, nat_eq, arith, select,
}
use devy_fps.Prelude.Int.{ℤ, pos, ltb_ℤ}
use devy_fps.Prelude.Floats.{Floats, Doubles}
use devy_fps.Prelude.Map.{get, put}
use devy_fps.Prelude.Queues.Drain.{drain}
use devy_fps.Events.{PlayerCombatState}
use devy_fps.Combat.{
  WeaponClass, hitscan, projectile, WeaponRuntime, FireCommand, CombatTickResult,
  PendingProjectileHit, Combat,
}
use devy_fps.Combat.Shots.{QueuedFire, RaycastHit, raycast_victim, cooldown_ticks}
use devy_fps.Combat.Resolve.{
  no_events, wound, report, strike, apply_damage, apply_all, resolve_projectiles,
  drain_fire_commands_deterministic, next_allowed_tick, note_shot, hit_of, fire_as, due_hits, land,
  shoot, resolve_fire, resolve_fires, resolve_tick,
}

pub record Keeps {F : Type 0} (tick : ℕ) (P : Combat F → CombatTickResult → Type 0) : Type 0 where
  pub damage :
      (hit : PendingProjectileHit) (s : PlayerCombatState) (c : Combat F) (out : CombatTickResult)
      → get c.players_by_id hit.victim_id ≡ some s
      → s.alive ≡ true
      → ltb_ℤ (pos 0) hit.damage ≡ true
      → P c out
      → P
          (record c { players_by_id = put c.players_by_id hit.victim_id (wound hit s) })
          (report tick hit (wound hit s) out)
  pub pending :
      (hits : List PendingProjectileHit) (c : Combat F) (out : CombatTickResult)
      → P c out
      → P (record c { pending_projectiles = hits }) out
  pub queues :
      (c : Combat F) (out : CombatTickResult)
      → P c out
      → P (record c { fire_queue_by_player = (drain (λ n. n) c.fire_queue_by_player 0).queues }) out
  pub shot :
      (fire : FireCommand F) (s : PlayerCombatState) (next_tick : ℕ) (c : Combat F)
      (out : CombatTickResult)
      → get c.players_by_id fire.attacker_id ≡ some s
      → P c out
      → P (note_shot c fire s next_tick) out

module _ {F : Type 0} (tick : ℕ) (P : Combat F → CombatTickResult → Type 0) (k : Keeps tick P) where
  either :
      (b : Bool) (x y : Combat F × CombatTickResult)
      → (b ≡ true → P x.0 x.1)
      → P y.0 y.1
      → P (if b then x else y).0 (if b then x else y).1
  either true x y p q = p refl
  either false x y p q = q

  strike-keeps :
      (hit : PendingProjectileHit) (o : Option PlayerCombatState) (c : Combat F)
      (out : CombatTickResult)
      → get c.players_by_id hit.victim_id ≡ o
      → P c out
      → P (strike tick hit o c out).0 (strike tick hit o c out).1
  unfolding strike
  strike-keeps hit none c out e p = p
  strike-keeps hit (some s) c out e p =
      either (s.alive && ltb_ℤ (pos 0) hit.damage)
        (
          record c { players_by_id = put c.players_by_id hit.victim_id (wound hit s) },
          report tick hit (wound hit s) out,
        )
        (c, out) (λ h. k.damage hit s c out e (ground (arith, h)) (ground (arith, h)) p) p

  apply_damage-keeps :
      (hit : PendingProjectileHit) (c : Combat F) (out : CombatTickResult)
      → P c out
      → P (apply_damage tick hit c out).0 (apply_damage tick hit c out).1
  unfolding apply_damage
  apply_damage-keeps hit c out p = strike-keeps hit (get c.players_by_id hit.victim_id) c out refl p

  apply_all-keeps :
      (hits : List PendingProjectileHit) (c : Combat F) (out : CombatTickResult)
      → P c out
      → P (apply_all tick hits c out).0 (apply_all tick hits c out).1
  unfolding apply_all
  apply_all-keeps [] c out p = p
  apply_all-keeps (hit ∷ hits) c out p =
      apply_all-keeps hits (apply_damage tick hit c out).0 (apply_damage tick hit c out).1
        (apply_damage-keeps hit c out p)

  resolve_projectiles-keeps :
      (c : Combat F) (out : CombatTickResult)
      → P c out
      → P (resolve_projectiles tick c out).0 (resolve_projectiles tick c out).1
  unfolding resolve_projectiles
  resolve_projectiles-keeps c out p =
      apply_all-keeps (due_hits tick c.pending_projectiles)
        (record c {
          pending_projectiles = select (λ h. ltb tick h.resolve_tick) c.pending_projectiles;
        })
        out (k.pending (select (λ h. ltb tick h.resolve_tick) c.pending_projectiles) c out p)

  drain-keeps :
      (c : Combat F) (out : CombatTickResult)
      → P c out
      → P (drain_fire_commands_deterministic c).0 out
  unfolding drain_fire_commands_deterministic
  drain-keeps c out p = k.queues c out p

module _ {F D : Type 0} ⦃f : Floats F⦄ (d : Doubles F D) (tick : ℕ) (tick_interval : ℤ)
    (P : Combat F → CombatTickResult → Type 0) (k : Keeps tick P) where
  land-keeps :
      (fire : FireCommand F) (weapon : WeaponRuntime F) (class : WeaponClass)
      (hit : Option (RaycastHit F)) (c : Combat F) (out : CombatTickResult)
      → P c out
      → P
          (land d tick tick_interval fire weapon class hit c out).0
          (land d tick tick_interval fire weapon class hit c out).1
  unfolding land
  land-keeps fire weapon class none c out p = p
  land-keeps fire weapon hitscan (some hit) c out p =
      apply_damage-keeps tick P k (hit_of tick fire weapon hit.victim_id) c out p
  land-keeps fire weapon projectile (some hit) c out p = k.pending _ c out p

  shoot-keeps :
      (fire : QueuedFire F) (weapon : WeaponRuntime F) (s : PlayerCombatState) (c : Combat F)
      (out : CombatTickResult)
      → get c.players_by_id fire.command.attacker_id ≡ some s
      → P c out
      → P
          (shoot d tick tick_interval fire weapon s c out).0
          (shoot d tick tick_interval fire weapon s c out).1
  unfolding shoot
  shoot-keeps fire weapon s c out e p =
      let next_tick = u64 (tick + cooldown_ticks d weapon.rate_of_fire tick_interval) in
      let shot = note_shot c fire.command s next_tick in
      land-keeps fire.command weapon weapon.weapon_class (raycast_victim shot fire) shot out
        (k.shot fire.command s next_tick c out e p)

  fire_as-keeps :
      (fire : QueuedFire F) (o : Option PlayerCombatState) (w : Option (WeaponRuntime F))
      (c : Combat F) (out : CombatTickResult)
      → get c.players_by_id fire.command.attacker_id ≡ o
      → P c out
      → P
          (fire_as d tick tick_interval fire o w c out).0
          (fire_as d tick tick_interval fire o w c out).1
  unfolding fire_as
  fire_as-keeps fire none w c out e p = p
  fire_as-keeps fire (some s) none c out e p = p
  fire_as-keeps fire (some s) (some weapon) c out e p =
      either tick P k (s.alive && leb (next_allowed_tick c fire.command.attacker_id) tick)
        (shoot d tick tick_interval fire weapon s c out) (c, out)
        (λ h. shoot-keeps fire weapon s c out e p) p

  resolve_fire-keeps :
      (fire : QueuedFire F) (c : Combat F) (out : CombatTickResult)
      → P c out
      → P
          (resolve_fire d tick tick_interval fire c out).0
          (resolve_fire d tick tick_interval fire c out).1
  unfolding resolve_fire
  resolve_fire-keeps fire c out p =
      fire_as-keeps fire (get c.players_by_id fire.command.attacker_id) fire.weapon c out refl p

  resolve_fires-keeps :
      (fires : List (QueuedFire F)) (c : Combat F) (out : CombatTickResult)
      → P c out
      → P
          (resolve_fires d tick tick_interval fires c out).0
          (resolve_fires d tick tick_interval fires c out).1
  unfolding resolve_fires
  resolve_fires-keeps [] c out p = p
  resolve_fires-keeps (fire ∷ fires) c out p =
      let next = resolve_fire d tick tick_interval fire c out in
      resolve_fires-keeps fires next.0 next.1 (resolve_fire-keeps fire c out p)

  pub resolve_tick-keeps :
      (c : Combat F)
      → P c no_events
      → P (resolve_tick d c tick tick_interval).0 (resolve_tick d c tick tick_interval).1
  unfolding resolve_tick
  resolve_tick-keeps c p =
      let landed = resolve_projectiles tick c no_events in
      let queued = drain_fire_commands_deterministic landed.0 in
      resolve_fires-keeps queued.1 queued.0 landed.1
        (drain-keeps tick P k landed.0 landed.1 (resolve_projectiles-keeps tick P k c no_events p))
