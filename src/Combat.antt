-- ===== src/Combat.antt =====
-- server/src/CombatSimulation.cpp and server/include/server/CombatSimulation.h: weapons, the queues of
-- shots, and the players' health. A method that changes the object returns the new object.
pub mod Shots
pub mod Resolve
pub mod Keeps
pub mod Deaths
pub mod Health
pub mod History
pub mod Numbers
mod Tests
use devy_fps.Prelude.{
  ℕ, zero, suc, ◌+◌, ◌-◌, ◌*◌, ◌/◌, ◌%◌, ◌≤◌, ◌<◌, ◌≡◌, ◌≢◌, ◌⊎◌, ◌↔◌, ◌∙◌, inl, inr, refl, sym, ap,
  subst, Bool, true, false, ◌&&◌, ◌||◌, List, [], ◌∷◌, ◌++◌, Option, none, some, ltb, leb, eqb,
  if◌then◌else◌, u64, sub64, last?, length, length-append, All, All-append, nat_eq, arith,
  Bool-cases, Option-cases, eqb_refl, eqb_iff, select,
}
use devy_fps.Prelude.{not, Bytes, u32, bytes_eq, bytes_eqb}
use devy_fps.Prelude.Int.{ℤ, pos, negsuc, ltb_ℤ, ◌*ℤ◌, max_ℤ, i32}
use devy_fps.Prelude.Floats.{Floats, Doubles}
use devy_fps.Prelude.Map.{Map, get, put, erase}
use devy_fps.Prelude.Queues.{Queues, queue}
use devy_fps.Prelude.Queues.Drain.{Drained, drain}
use devy_fps.Events.{PlayerMotionState, PlayerCombatState, DeathResolution}

-- shared/include/shared/game/Weapons.h
pub record WeaponDefinition (F : Type 0) : Type 0 where
  pub id : Bytes
  pub type : Bytes
  pub damage : ℤ
  pub mag_size : ℤ
  pub rate_of_fire : F
  pub pellets : ℤ
  pub damage_per_pellet : ℤ
  pub range_units : F
  pub projectile_speed_units_per_second : F
  pub tier : ℤ

pub record CombatConfig (F : Type 0) : Type 0 where
  pub starting_health : ℤ
  pub default_hitscan_range_units : F
  pub default_projectile_range_units : F
  pub default_projectile_speed_units_per_second : F
  pub hit_radius_units : F

pub record FireCommand (F : Type 0) : Type 0 where
  pub attacker_id : ℕ
  pub shot_seq : ℕ
  pub weapon_id : Bytes
  pub origin_x : F
  pub origin_y : F
  pub direction_x : F
  pub direction_y : F
  pub received_at : ℕ

pub data FireEnqueueStatus : Type 0 where
  fire_accepted unknown_weapon fire_out_of_order : FireEnqueueStatus

pub record DamageResolution : Type 0 where
  pub tick : ℕ
  pub attacker_id : ℕ
  pub victim_id : ℕ
  pub shot_seq : ℕ
  pub weapon_id : Bytes
  pub damage : ℤ
  pub victim_health : ℤ
  pub lethal : Bool

pub record CombatTickResult : Type 0 where
  pub damage_events : List DamageResolution
  pub death_events : List DeathResolution

pub data WeaponClass : Type 0 where
  hitscan projectile : WeaponClass

pub record WeaponRuntime (F : Type 0) : Type 0 where
  pub id : Bytes
  pub weapon_class : WeaponClass
  pub damage : ℤ
  pub rate_of_fire : F
  pub range_units : F
  pub projectile_speed_units_per_second : F

pub record PendingProjectileHit : Type 0 where
  pub resolve_tick : ℕ
  pub attacker_id : ℕ
  pub victim_id : ℕ
  pub shot_seq : ℕ
  pub weapon_id : Bytes
  pub damage : ℤ

pub record Combat (F : Type 0) : Type 0 where
  pub config : CombatConfig F
  pub weapons_by_id : Map Bytes (WeaponRuntime F)
  pub players_by_id : Map ℕ PlayerCombatState
  pub positions_by_player : Map ℕ (F × F)
  pub fire_queue_by_player : Queues (FireCommand F)
  pub last_shot_seq_by_player : Map ℕ ℕ
  pub next_fire_tick_by_player : Map ℕ ℕ
  pub pending_projectiles : List PendingProjectileHit

-- `std::tolower`, byte by byte.
unfoldable pub lowercase : Bytes → Bytes
lowercase [] = []
lowercase (c ∷ cs) = (if leb 65 c && leb c 90 then c + 32 else c) ∷ lowercase cs

-- "projectile"
abbrev projectile_name : Bytes
projectile_name = 112 ∷ 114 ∷ 111 ∷ 106 ∷ 101 ∷ 99 ∷ 116 ∷ 105 ∷ 108 ∷ 101 ∷ []

-- What `unordered_map::find` of the last shot, or the queue's back, says of a new one.
abbrev pub is_behind : Option ℕ → ℕ → Bool
is_behind none seq = false
is_behind (some last) seq = leb seq last

module _ {F : Type 0} where
  unfoldable pub classify_weapon : WeaponDefinition F → WeaponClass
  unfolding lowercase
  classify_weapon w = if bytes_eqb (lowercase w.type) projectile_name then projectile else hitscan

  -- shared/src/game/Weapons.cpp
  unfoldable pub weapon_damage_per_shot : {D : Type 0} → Doubles F D → WeaponDefinition F → D
  unfolding lowercase
  weapon_damage_per_shot d w =
      let plain =
        if ltb_ℤ (pos 0) w.damage then d.double.of_int w.damage else d.double.literal 0 1 in
      if bytes_eqb (lowercase w.type) projectile_name
        && (ltb_ℤ (pos 0) w.pellets && ltb_ℤ (pos 0) w.damage_per_pellet)
      then d.double.multiply (d.double.of_int w.pellets) (d.double.of_int w.damage_per_pellet)
      else plain

  abbrev pub last_seq : Option (FireCommand F) → Option ℕ
  last_seq none = none
  last_seq (some c) = some c.shot_seq

module _ {F : Type 0} ⦃f : Floats F⦄ where
  -- `std::isfinite(x) && x > 0 ? x : fallback`
  unfoldable pub positive_or : F → F → F
  positive_or x fallback = if f.is_finite x && f.less (f.literal 0 1) x then x else fallback

  -- `!std::isfinite(x) || x <= 0 ? fallback : x`
  unfoldable pub unless_positive : F → F → F
  unless_positive x fallback =
      if not (f.is_finite x) || f.at_most x (f.literal 0 1) then fallback else x

  unfoldable pub sanitize_config : CombatConfig F → CombatConfig F
  unfolding unless_positive
  sanitize_config c = record {
    starting_health = if ltb_ℤ (pos 0) c.starting_health then c.starting_health else pos 100;
    default_hitscan_range_units = unless_positive c.default_hitscan_range_units (f.literal 128 1);
    default_projectile_range_units =
        unless_positive c.default_projectile_range_units (f.literal 96 1);
    default_projectile_speed_units_per_second =
        unless_positive c.default_projectile_speed_units_per_second (f.literal 40 1);
    hit_radius_units = unless_positive c.hit_radius_units (f.literal 3 4);
  }

  unfoldable pub runtime_of :
      {D : Type 0} → Doubles F D → CombatConfig F → WeaponDefinition F → WeaponRuntime F
  unfolding positive_or classify_weapon weapon_damage_per_shot
  runtime_of d config w =
      let damage = max_ℤ (pos 0) (i32 (d.double.round_to_int (weapon_damage_per_shot d w))) in
      let rate_of_fire = positive_or w.rate_of_fire (f.literal 1 1) in
      elim (classify_weapon w) [
        | hitscan ↦ record {
          id = lowercase w.id;
          weapon_class = hitscan;
          damage = damage;
          rate_of_fire = rate_of_fire;
          range_units = positive_or w.range_units config.default_hitscan_range_units;
          projectile_speed_units_per_second = f.literal 0 1;
        }
        | projectile ↦ record {
          id = lowercase w.id;
          weapon_class = projectile;
          damage = damage;
          rate_of_fire = rate_of_fire;
          range_units = positive_or w.range_units config.default_projectile_range_units;
          projectile_speed_units_per_second =
              positive_or w.projectile_speed_units_per_second
                config.default_projectile_speed_units_per_second;
        }
      ]

  -- The constructor's loop.
  unfoldable pub weapon_table :
      {D : Type 0}
      → Doubles F D
      → CombatConfig F
      → List (WeaponDefinition F)
      → Map Bytes (WeaponRuntime F)
      → Map Bytes (WeaponRuntime F)
  unfolding runtime_of
  weapon_table d config [] table = table
  weapon_table d config (w ∷ ws) table =
      let runtime = runtime_of d config w in
      weapon_table d config ws (
        if eqb (length w.id) 0 || not (ltb_ℤ (pos 0) runtime.damage)
        then table
        else put table runtime.id runtime)

  unfoldable pub new :
      {D : Type 0} → Doubles F D → List (WeaponDefinition F) → CombatConfig F → Combat F
  unfolding weapon_table sanitize_config
  new d definitions config = record {
    config = sanitize_config config;
    weapons_by_id = weapon_table d (sanitize_config config) definitions [];
    players_by_id = [];
    positions_by_player = [];
    fire_queue_by_player = [];
    last_shot_seq_by_player = [];
    next_fire_tick_by_player = [];
    pending_projectiles = [];
  }

module _ {F : Type 0} where
  unfoldable pub reset : Combat F → Combat F
  reset c = record c {
    players_by_id = [];
    positions_by_player = [];
    fire_queue_by_player = [];
    last_shot_seq_by_player = [];
    next_fire_tick_by_player = [];
    pending_projectiles = [];
  }

  abbrev pub new_player : CombatConfig F → ℕ → PlayerCombatState
  new_player config player_id = record {
    player_id = player_id;
    health = config.starting_health;
    alive = true;
    last_shot_seq = 0;
  }

  unfoldable pub ensure_player : Combat F → ℕ → Combat F
  ensure_player c player_id = elim (get c.players_by_id player_id) [
    | none ↦ record c {
      players_by_id = put c.players_by_id player_id (new_player c.config player_id);
    }
    | some s ↦ c
  ]

  unfoldable pub remove_player : Combat F → ℕ → Combat F
  remove_player c player_id = record c {
    players_by_id = erase c.players_by_id player_id;
    positions_by_player = erase c.positions_by_player player_id;
    fire_queue_by_player = erase c.fire_queue_by_player player_id;
    last_shot_seq_by_player = erase c.last_shot_seq_by_player player_id;
    next_fire_tick_by_player = erase c.next_fire_tick_by_player player_id;
    pending_projectiles =
        select (λ h. not (eqb h.attacker_id player_id || eqb h.victim_id player_id))
          c.pending_projectiles;
  }

  -- The second half of `respawn_player`.
  unfoldable pub revive : Combat F → ℕ → Combat F
  revive c player_id = elim (get c.players_by_id player_id) [
    | none ↦ c
    | some s ↦ record c {
      players_by_id =
          put c.players_by_id player_id
            (record s { health = c.config.starting_health; alive = true });
      pending_projectiles = select (λ h. not (eqb h.victim_id player_id)) c.pending_projectiles;
    }
  ]

  unfoldable pub respawn_player : Combat F → ℕ → Combat F
  unfolding ensure_player revive
  respawn_player c player_id = revive (ensure_player c player_id) player_id

  -- The part of `enqueue_fire` behind the guards.
  unfoldable pub accept_fire : Combat F → FireCommand F → Combat F
  unfolding ensure_player lowercase
  accept_fire c fire =
      ensure_player
        (record c {
          fire_queue_by_player = put c.fire_queue_by_player fire.attacker_id (
              queue c.fire_queue_by_player fire.attacker_id
              ++ record fire { weapon_id = lowercase fire.weapon_id } ∷ []);
          last_shot_seq_by_player = put c.last_shot_seq_by_player fire.attacker_id fire.shot_seq;
        })
        fire.attacker_id

  -- `fire_queue_by_player_[attacker_id]` makes an empty queue where there is none.
  abbrev pub touch_queue : Combat F → ℕ → Combat F
  touch_queue c player_id = record c {
    fire_queue_by_player =
        put c.fire_queue_by_player player_id (queue c.fire_queue_by_player player_id);
  }

  unfoldable pub enqueue_fire : Combat F → FireCommand F → Combat F × FireEnqueueStatus
  unfolding accept_fire
  enqueue_fire c fire = elim (get c.weapons_by_id (lowercase fire.weapon_id)) [
    | none ↦ (c, unknown_weapon)
    | some w ↦
        if is_behind (get c.last_shot_seq_by_player fire.attacker_id) fire.shot_seq
        then (c, fire_out_of_order)
        else if is_behind (last_seq (last? (queue c.fire_queue_by_player fire.attacker_id)))
            fire.shot_seq
        then (touch_queue c fire.attacker_id, fire_out_of_order)
        else (accept_fire c fire, fire_accepted)
  ]

module _ {F : Type 0} ⦃f : Floats F⦄ where
  unfoldable pub set_player_position : Combat F → ℕ → F → F → Combat F
  unfolding ensure_player
  set_player_position c player_id x y =
      let ensured = ensure_player c player_id in
      if not (f.is_finite x) || not (f.is_finite y)
      then ensured
      else record ensured { positions_by_player = put ensured.positions_by_player player_id (x, y) }

  unfoldable pub set_player_positions : Combat F → List (PlayerMotionState F) → Combat F
  unfolding set_player_position
  set_player_positions c [] = c
  set_player_positions c (s ∷ ss) =
      set_player_positions (set_player_position c s.player_id s.position_x s.position_y) ss
