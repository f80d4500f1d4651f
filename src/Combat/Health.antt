-- ===== src/Combat/Health.antt =====
-- The players' health in server/src/CombatSimulation.cpp, after any calls and through one tick.
use devy_fps.Prelude.{
  ℕ, ◌≡◌, ◌∙◌, inl, inr, refl, sym, ap, true, List, [], ◌∷◌, ◌++◌, some, eqb, if◌then◌else◌, nat_eq,
  arith, Bool-cases, eqb_iff,
}
use devy_fps.Prelude.{max}
use devy_fps.Prelude.Int.{
  ℤ, pos, ltb_ℤ, ◌≤ℤ◌, ◌+ℤ◌, ◌-ℤ◌, max_ℤ, +ℤ_parts, -ℤ_parts, eq_of_parts, +ℤ_zero, zero_+ℤ,
  +ℤ_assoc,
}
use devy_fps.Prelude.Floats.{Floats, Doubles}
use devy_fps.Prelude.Map.{Map, get, put, get-put}
use devy_fps.Events.{PlayerCombatState}
use devy_fps.Combat.{
  CombatConfig, FireCommand, DamageResolution, CombatTickResult, PendingProjectileHit, Combat,
}
use devy_fps.Combat.Resolve.{wound, report, note_shot, resolve_tick}
use devy_fps.Combat.Keeps.{Keeps, resolve_tick-keeps}

pub record IsHealthy {F : Type 0} (config : CombatConfig F) (id : ℕ) (s : PlayerCombatState)
    : Type 0 where
  pub keyed : s.player_id ≡ id
  pub least : pos 0 ≤ℤ s.health
  pub most : s.health ≤ℤ config.starting_health
  pub living : s.alive ≡ ltb_ℤ (pos 0) s.health

pub wound-IsHealthy :
    {F : Type 0} (config : CombatConfig F) (id : ℕ) (hit : PendingProjectileHit)
    (s : PlayerCombatState)
    → s.alive ≡ true
    → ltb_ℤ (pos 0) hit.damage ≡ true
    → IsHealthy config id s
    → IsHealthy config id (wound hit s)
unfolding wound
wound-IsHealthy config id hit s a b h = record {
  keyed = h.keyed;
  least = ground (arith, -ℤ_parts s.health hit.damage);
  most = ground (arith, -ℤ_parts s.health hit.damage, h.most, h.least);
  living = ground (arith, a, -ℤ_parts s.health hit.damage);
}

-- No more health than a damage takes away is lost.
debit :
    (health earlier damage : ℤ)
    → ltb_ℤ (pos 0) damage ≡ true
    → max_ℤ (pos 0) (max_ℤ (pos 0) (health -ℤ earlier) -ℤ damage)
      ≡ max_ℤ (pos 0) (health -ℤ (earlier +ℤ damage))
debit health earlier damage h = eq_of_parts _ _ (
    ground (
      arith,
      h,
      -ℤ_parts (max_ℤ (pos 0) (health -ℤ earlier)) damage,
      -ℤ_parts health earlier,
      +ℤ_parts earlier damage,
      -ℤ_parts health (earlier +ℤ damage),
    ))

-- The damage that the events report for a player.
abbrev pub dealt : List DamageResolution → ℕ → ℤ
dealt [] p = pos 0
dealt (e ∷ es) p = (if eqb e.victim_id p then e.damage else pos 0) +ℤ dealt es p

dealt-append :
    (es : List DamageResolution) (e : DamageResolution) (p : ℕ)
    → dealt (es ++ e ∷ []) p ≡ dealt es p +ℤ (if eqb e.victim_id p then e.damage else pos 0)
dealt-append [] e p = +ℤ_zero _ ∙ sym (zero_+ℤ _)
dealt-append (a ∷ es) e p =
    ap (λ z. (if eqb a.victim_id p then a.damage else pos 0) +ℤ z) (dealt-append es e p)
    ∙ sym (+ℤ_assoc (if eqb a.victim_id p then a.damage else pos 0) (dealt es p) _)

dealt-report :
    (tick : ℕ) (hit : PendingProjectileHit) (s : PlayerCombatState) (out : CombatTickResult) (p : ℕ)
    → dealt (report tick hit s out).damage_events p
      ≡ dealt out.damage_events p +ℤ (if eqb hit.victim_id p then hit.damage else pos 0)
unfolding report
dealt-report tick hit s out p = dealt-append out.damage_events _ p

-- A player who had `health` has what the damage of the events leaves of it.
abbrev Owes : {F : Type 0} → ℕ → ℤ → Combat F → CombatTickResult → Type 0
Owes p health c out =
    (s : PlayerCombatState) × ((get c.players_by_id p ≡ some s)
      × (s.health ≡ max_ℤ (pos 0) (health -ℤ dealt out.damage_events p)))

same_state :
    (m : Map ℕ PlayerCombatState) (q p : ℕ) (t s : PlayerCombatState)
    → get m q ≡ some t
    → get m p ≡ some s
    → eqb q p ≡ true
    → t ≡ s
same_state m q p t s e g h =
    let at_p : get m p ≡ some t = ap (get m) (sym ((eqb_iff q p).0 h)) ∙ e in
    ground (arith, at_p, g)

module _ {F : Type 0} (p : ℕ) (health : ℤ) where
  wound-Owes :
      (tick : ℕ) (hit : PendingProjectileHit) (t : PlayerCombatState) (c : Combat F)
      (out : CombatTickResult)
      → get c.players_by_id hit.victim_id ≡ some t
      → ltb_ℤ (pos 0) hit.damage ≡ true
      → Owes p health c out
      → Owes p health
          (record c { players_by_id = put c.players_by_id hit.victim_id (wound hit t) })
          (report tick hit (wound hit t) out)
  unfolding wound
  wound-Owes tick hit t c out e b (s, (g, h)) = elim (Bool-cases (eqb hit.victim_id p)) [
    | inl q ↦
        let same : t ≡ s = same_state c.players_by_id hit.victim_id p t s e g q in
        (
          wound hit t,
          (
            get-put c.players_by_id hit.victim_id p (wound hit t) ∙ rw q refl,
            ap (λ z. max_ℤ (pos 0) (z -ℤ hit.damage)) (ap (λ u. u.health) same ∙ h)
                ∙ debit health (dealt out.damage_events p) hit.damage b
                ∙ ap (λ z. max_ℤ (pos 0) (health -ℤ z))
                    (sym (dealt-report tick hit (wound hit t) out p ∙ rw q refl)),
          ),
        )
    | inr q ↦ (
      s,
      (
        get-put c.players_by_id hit.victim_id p (wound hit t) ∙ rw q g,
        h
            ∙ ap (λ z. max_ℤ (pos 0) (health -ℤ z))
                (sym (dealt-report tick hit (wound hit t) out p ∙ rw q (+ℤ_zero _))),
      ),
    )
  ]

  note_shot-Owes :
      (fire : FireCommand F) (t : PlayerCombatState) (next_tick : ℕ) (c : Combat F)
      (out : CombatTickResult)
      → get c.players_by_id fire.attacker_id ≡ some t
      → Owes p health c out
      → Owes p health (note_shot c fire t next_tick) out
  unfolding note_shot
  note_shot-Owes fire t next_tick c out e (s, (g, h)) =
      let u : PlayerCombatState = record t { last_shot_seq = max t.last_shot_seq fire.shot_seq } in
      elim (Bool-cases (eqb fire.attacker_id p)) [
        | inl q ↦ (
          u,
          (
            get-put c.players_by_id fire.attacker_id p u ∙ rw q refl,
            ap (λ v. v.health) (same_state c.players_by_id fire.attacker_id p t s e g q) ∙ h,
          ),
        )
        | inr q ↦ (s, (get-put c.players_by_id fire.attacker_id p u ∙ rw q g, h))
      ]

  Owes-Keeps : (tick : ℕ) → Keeps {F = F} tick (Owes p health)
  Owes-Keeps tick = record {
    damage = λ hit s c out e a b o. wound-Owes tick hit s c out e b o;
    pending = λ hits c out o. o;
    queues = λ c out o. o;
    shot = λ fire s next_tick c out e o. note_shot-Owes fire s next_tick c out e o;
  }

module _ {F D : Type 0} ⦃f : Floats F⦄ (d : Doubles F D) where
  -- The damage that a tick reports for a player is what the tick takes from the player's health, as far
  -- as there is health to take.
  pub damage_adds_up :
      (c : Combat F) (tick : ℕ) (tick_interval : ℤ) (p : ℕ) (s : PlayerCombatState)
      → get c.players_by_id p ≡ some s
      → pos 0 ≤ℤ s.health
      → let next = resolve_tick d c tick tick_interval in
        (t : PlayerCombatState) × ((get next.0.players_by_id p ≡ some t)
          × (t.health ≡ max_ℤ (pos 0) (s.health -ℤ dealt next.1.damage_events p)))
  damage_adds_up c tick tick_interval p s e h =
      resolve_tick-keeps d tick tick_interval (Owes p s.health) (Owes-Keeps p s.health tick) c
        (s, (e, eq_of_parts _ _ (ground (arith, h, -ℤ_parts s.health (pos 0)))))
