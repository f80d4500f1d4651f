-- ===== src/Combat/History.antt =====
-- The health of all players in server/src/CombatSimulation.cpp, over any calls.
use devy_fps.Prelude.{
  ℕ, ◌≡◌, inl, inr, refl, sym, Bool, true, false, ◌||◌, List, [], ◌∷◌, if◌then◌else◌, last?, nat_eq,
  arith, Bool-cases, Option-cases,
}
use devy_fps.Prelude.{not, max, bytes_eq}
use devy_fps.Prelude.Int.{ℤ, pos, ltb_ℤ}
use devy_fps.Prelude.Floats.{Floats, Doubles}
use devy_fps.Prelude.Map.{get, put, erase_cases, Every, Every-put}
use devy_fps.Events.{PlayerCombatState}
use devy_fps.Combat.{
  WeaponDefinition, CombatConfig, FireCommand, Combat, sanitize_config, is_behind, new, reset,
  new_player, ensure_player, remove_player, revive, respawn_player, accept_fire, touch_queue,
  FireEnqueueStatus, fire_out_of_order, fire_accepted, last_seq, lowercase, enqueue_fire,
  set_player_position,
}
use devy_fps.Combat.Resolve.{wound, note_shot, resolve_tick}
use devy_fps.Prelude.Queues.{queue}
use devy_fps.Combat.Keeps.{Keeps, resolve_tick-keeps}
use devy_fps.Combat.Health.{IsHealthy, wound-IsHealthy}

-- The calls that change the simulation.
pub data Call (F : Type 0) : Type 0 where
  reset_call : Call F
  ensure_call remove_call respawn_call : ℕ → Call F
  position_call : ℕ → F → F → Call F
  fire_call : FireCommand F → Call F
  tick_call : ℕ → ℤ → Call F

pub record IsValid {F : Type 0} (c : Combat F) : Type 0 where
  pub healthy : Every (IsHealthy c.config) c.players_by_id
  pub starts_alive : ltb_ℤ (pos 0) c.config.starting_health ≡ true

module _ {F : Type 0} where
  new_player-IsHealthy :
      (config : CombatConfig F) (id : ℕ)
      → ltb_ℤ (pos 0) config.starting_health ≡ true
      → IsHealthy config id (new_player config id)
  new_player-IsHealthy config id h = record {
    keyed = refl;
    least = ground (arith, h);
    most = omega arith;
    living = sym h;
  }

  put-IsValid :
      (c : Combat F) (id : ℕ) (s : PlayerCombatState)
      → IsHealthy c.config id s
      → IsValid c
      → IsValid (record c { players_by_id = put c.players_by_id id s })
  put-IsValid c id s h v = record {
    healthy = Every-put (IsHealthy c.config) c.players_by_id id s v.healthy h;
    starts_alive = v.starts_alive;
  }

  reset-IsValid : (c : Combat F) → IsValid c → IsValid (reset c)
  unfolding reset get
  reset-IsValid c v = record { healthy = λ k s h. cc; starts_alive = v.starts_alive }

  ensure_player-IsValid : (c : Combat F) (id : ℕ) → IsValid c → IsValid (ensure_player c id)
  unfolding ensure_player
  ensure_player-IsValid c id v = elim (Option-cases (get c.players_by_id id)) [
    | inl e ↦
        rw (ensure_player, e)
          (put-IsValid c id (new_player c.config id)
            (new_player-IsHealthy c.config id v.starts_alive) v)
    | inr (s, e) ↦ rw (ensure_player, e) v
  ]

  remove_player-IsValid : (c : Combat F) (id : ℕ) → IsValid c → IsValid (remove_player c id)
  unfolding remove_player
  remove_player-IsValid c id v = record {
    healthy = λ k s h. v.healthy k s (erase_cases c.players_by_id id k s h).1;
    starts_alive = v.starts_alive;
  }

  respawn_player-IsValid : (c : Combat F) (id : ℕ) → IsValid c → IsValid (respawn_player c id)
  unfolding respawn_player revive
  respawn_player-IsValid c id v =
      let w = ensure_player-IsValid c id v in
      let n = ensure_player c id in
      elim (Option-cases (get n.players_by_id id)) [
        | inl e ↦ rw (revive, e) w
        | inr (s, e) ↦
            rw (revive, e)
              (let back : PlayerCombatState = record s {
                health = n.config.starting_health;
                alive = true;
              } in
                let h : IsHealthy n.config id back = record {
                  keyed = (w.healthy id s e).keyed;
                  least = ground (arith, w.starts_alive);
                  most = omega arith;
                  living = sym w.starts_alive;
                } in
                let kept = put-IsValid n id back h w in
                record { healthy = kept.healthy; starts_alive = kept.starts_alive })
      ]

  pick :
      (b : Bool) (x y : Combat F × FireEnqueueStatus)
      → IsValid x.0
      → IsValid y.0
      → IsValid (if b then x else y).0
  pick true x y p q = p
  pick false x y p q = q

  enqueue_fire-IsValid :
      (c : Combat F) (fire : FireCommand F) → IsValid c → IsValid (enqueue_fire c fire).0
  unfolding enqueue_fire accept_fire
  enqueue_fire-IsValid c fire v =
      elim (Option-cases (get c.weapons_by_id (lowercase fire.weapon_id))) [
        | inl e ↦ rw (enqueue_fire, e) v
        | inr (w, e) ↦
            rw (enqueue_fire, e)
              (pick (is_behind (get c.last_shot_seq_by_player fire.attacker_id) fire.shot_seq)
                (c, _) _ v
                (pick
                  (is_behind (last_seq (last? (queue c.fire_queue_by_player fire.attacker_id)))
                    fire.shot_seq)
                  (touch_queue c fire.attacker_id, fire_out_of_order)
                  (accept_fire c fire, fire_accepted)
                  (record { healthy = v.healthy; starts_alive = v.starts_alive })
                  (ensure_player-IsValid _ fire.attacker_id
                    (record { healthy = v.healthy; starts_alive = v.starts_alive }))))
      ]

  wounded-IsValid : (tick : ℕ) → Keeps {F = F} tick (λ c out. IsValid c)
  unfolding note_shot
  wounded-IsValid tick = record {
    damage = λ hit s c out e a b v.
        put-IsValid c hit.victim_id (wound hit s)
          (wound-IsHealthy c.config hit.victim_id hit s a b (v.healthy hit.victim_id s e)) v;
    pending = λ hits c out v. record { healthy = v.healthy; starts_alive = v.starts_alive };
    queues = λ c out v. record { healthy = v.healthy; starts_alive = v.starts_alive };
    shot = λ fire s next_tick c out e v.
        let h = v.healthy fire.attacker_id s e in
        let kept =
          put-IsValid c fire.attacker_id
            (record s { last_shot_seq = max s.last_shot_seq fire.shot_seq })
            (record { keyed = h.keyed; least = h.least; most = h.most; living = h.living }) v in
        record { healthy = kept.healthy; starts_alive = kept.starts_alive };
  }

module _ {F D : Type 0} ⦃f : Floats F⦄ (d : Doubles F D) where
  set_player_position-IsValid :
      (c : Combat F) (id : ℕ) (x y : F) → IsValid c → IsValid (set_player_position c id x y)
  unfolding set_player_position
  set_player_position-IsValid c id x y v =
      let w = ensure_player-IsValid c id v in
      elim (Bool-cases (not (f.is_finite x) || not (f.is_finite y))) [
        | inl e ↦ rw (set_player_position, e) w
        | inr e ↦
            rw (set_player_position, e)
              (record { healthy = w.healthy; starts_alive = w.starts_alive })
      ]

  abbrev pub call : Call F → Combat F → Combat F
  call reset_call c = reset c
  call (ensure_call id) c = ensure_player c id
  call (remove_call id) c = remove_player c id
  call (respawn_call id) c = respawn_player c id
  call (position_call id x y) c = set_player_position c id x y
  call (fire_call fire) c = (enqueue_fire c fire).0
  call (tick_call tick tick_interval) c = (resolve_tick d c tick tick_interval).0

  abbrev pub run : Combat F → List (Call F) → Combat F
  run c [] = c
  run c (x ∷ xs) = run (call x c) xs

  call-IsValid : (x : Call F) (c : Combat F) → IsValid c → IsValid (call x c)
  call-IsValid reset_call c v = reset-IsValid c v
  call-IsValid (ensure_call id) c v = ensure_player-IsValid c id v
  call-IsValid (remove_call id) c v = remove_player-IsValid c id v
  call-IsValid (respawn_call id) c v = respawn_player-IsValid c id v
  call-IsValid (position_call id x y) c v = set_player_position-IsValid c id x y v
  call-IsValid (fire_call fire) c v = enqueue_fire-IsValid c fire v
  call-IsValid (tick_call tick tick_interval) c v =
      resolve_tick-keeps d tick tick_interval (λ c out. IsValid c) (wounded-IsValid tick) c v

  run-IsValid : (xs : List (Call F)) (c : Combat F) → IsValid c → IsValid (run c xs)
  run-IsValid [] c v = v
  run-IsValid (x ∷ xs) c v = run-IsValid xs (call x c) (call-IsValid x c v)

  new-IsValid :
      (definitions : List (WeaponDefinition F)) (config : CombatConfig F)
      → IsValid (new d definitions config)
  unfolding new sanitize_config get
  new-IsValid definitions config = record { healthy = λ k s h. cc; starts_alive = ground arith }

  -- After any calls, each player is filed under their id, has a health between 0 and the starting
  -- health, which is above 0, and is alive exactly if the health is above 0.
  pub health_stays_sound :
      (definitions : List (WeaponDefinition F)) (config : CombatConfig F) (calls : List (Call F))
      → IsValid (run (new d definitions config) calls)
  health_stays_sound definitions config calls =
      run-IsValid calls (new d definitions config) (new-IsValid definitions config)
