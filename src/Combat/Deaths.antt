-- ===== src/Combat/Deaths.antt =====
-- The deaths in a tick of server/src/CombatSimulation.cpp.
use devy_fps.Prelude.{
  ℕ, ◌+◌, ◌≡◌, ◌∙◌, inl, inr, refl, sym, ap, subst, Bool, true, false, ◌&&◌, ◌||◌, List, [], ◌∷◌,
  ◌++◌, Option, none, some, eqb, if◌then◌else◌, nat_eq, arith, Bool-cases, eqb_iff,
}
use devy_fps.Prelude.{not, u32, max, ap₂}
use devy_fps.Prelude.Int.{ℤ, pos, eqb_ℤ}
use devy_fps.Prelude.Floats.{Floats, Doubles}
use devy_fps.Prelude.Map.{get, put, get-put}
use devy_fps.Prelude.Ids.{contains, NoRepeat}
use devy_fps.Events.{PlayerCombatState, DeathResolution, InventorySummary}
use devy_fps.Match.{Match}
use devy_fps.Match
use devy_fps.Match.Resolve
use devy_fps.Match.Deaths.{deaths_of, is_victim}
use devy_fps.Match.Mourning.{played_in, deaths-resolve_tick}
use devy_fps.Combat.{FireCommand, CombatTickResult, PendingProjectileHit, Combat}
use devy_fps.Combat.Resolve.{no_events, wound, report, note_shot, resolve_tick}
use devy_fps.Combat.Keeps.{Keeps, resolve_tick-keeps}

abbrev alive_in : Option PlayerCombatState → Bool
alive_in none = false
alive_in (some s) = s.alive

abbrev pub is_alive : {F : Type 0} → Combat F → ℕ → Bool
is_alive c p = alive_in (get c.players_by_id p)

abbrev pub victims : List DeathResolution → List ℕ
victims [] = []
victims (d ∷ ds) = d.victim_id ∷ victims ds

victims-is_victim : (ds : List DeathResolution) (p : ℕ) → is_victim ds p ≡ contains (victims ds) p
victims-is_victim [] p = refl
victims-is_victim (d ∷ ds) p = ap (λ b. eqb d.victim_id p || b) (victims-is_victim ds p)

contains-victims-append :
    (ds : List DeathResolution) (d : DeathResolution) (p : ℕ)
    → contains (victims (ds ++ d ∷ [])) p ≡ (contains (victims ds) p || eqb d.victim_id p)
contains-victims-append [] d p = ground arith
contains-victims-append (e ∷ ds) d p = ground (arith, contains-victims-append ds d p)

victims-append-NoRepeat :
    (ds : List DeathResolution) (d : DeathResolution)
    → contains (victims ds) d.victim_id ≡ false
    → NoRepeat (victims ds)
    → NoRepeat (victims (ds ++ d ∷ []))
victims-append-NoRepeat [] d h n = (refl, tt)
victims-append-NoRepeat (e ∷ ds) d h n = (
  ground (arith, contains-victims-append ds d e.victim_id, h, n.0),
  victims-append-NoRepeat ds d (ground (arith, h)) n.1,
)

-- Of those who were alive each is alive still or among the dead, and no one is both or dead twice.
record IsAccount {F : Type 0} (was : ℕ → Bool) (c : Combat F) (out : CombatTickResult)
    : Type 0 where
  split : (p : ℕ) → was p ≡ (is_alive c p || contains (victims out.death_events) p)
  apart : (p : ℕ) → is_alive c p ≡ true → contains (victims out.death_events) p ≡ false
  once : NoRepeat (victims out.death_events)

abbrev is_lethal : PendingProjectileHit → PlayerCombatState → Bool
is_lethal hit s = eqb_ℤ (wound hit s).health (pos 0)

alive-wound :
    (hit : PendingProjectileHit) (s : PlayerCombatState)
    → s.alive ≡ true
    → (wound hit s).alive ≡ not (is_lethal hit s)
unfolding wound
alive-wound hit s a = ground (arith, a)

deaths-report :
    (tick : ℕ) (hit : PendingProjectileHit) (s : PlayerCombatState) (out : CombatTickResult) (p : ℕ)
    → contains (victims (report tick hit (wound hit s) out).death_events) p
      ≡ (contains (victims out.death_events) p || is_lethal hit s && eqb hit.victim_id p)
unfolding report wound
deaths-report tick hit s out p = elim (Bool-cases (is_lethal hit s)) [
  | inl e ↦ rw (report, e) (contains-victims-append out.death_events _ p)
  | inr e ↦ rw (report, e) (ground arith)
]

once-report :
    (tick : ℕ) (hit : PendingProjectileHit) (s : PlayerCombatState) (out : CombatTickResult)
    → contains (victims out.death_events) hit.victim_id ≡ false
    → NoRepeat (victims out.death_events)
    → NoRepeat (victims (report tick hit (wound hit s) out).death_events)
unfolding report wound
once-report tick hit s out h n = elim (Bool-cases (is_lethal hit s)) [
  | inl e ↦ rw (report, e) (victims-append-NoRepeat out.death_events _ h n)
  | inr e ↦ rw (report, e) n
]

-- How the tests on one player before and after a hit fit together.
after_split :
    (was alive dead same lethal : Bool)
    → was ≡ (alive || dead)
    → (same ≡ true → alive ≡ true)
    → was ≡ ((if same then not lethal else alive) || (dead || lethal && same))
after_split was true dead same lethal h g = ground (arith, h)
after_split was false dead true lethal h g = ground (arith, g refl)
after_split was false dead false lethal h g = ground (arith, h)

after_apart :
    (alive dead same lethal : Bool)
    → (alive ≡ true → dead ≡ false)
    → (same ≡ true → alive ≡ true)
    → (if same then not lethal else alive) ≡ true
    → (dead || lethal && same) ≡ false
after_apart alive dead true true h g e = ground (arith, e)
after_apart alive dead true false h g e = ground (arith, h (g refl))
after_apart alive dead false lethal h g e = ground (arith, h e)

module _ {F : Type 0} (was : ℕ → Bool) where
  alive-put :
      (c : Combat F) (q p : ℕ) (s : PlayerCombatState)
      → is_alive (record c { players_by_id = put c.players_by_id q s }) p
        ≡ (if eqb q p then s.alive else is_alive c p)
  alive-put c q p s = rw (get-put c.players_by_id q p s) (ground arith)

  wounded-IsAccount :
      (tick : ℕ) (hit : PendingProjectileHit) (c : Combat F) (out : CombatTickResult)
      (s : PlayerCombatState)
      → get c.players_by_id hit.victim_id ≡ some s
      → s.alive ≡ true
      → IsAccount was c out
      → IsAccount was
          (record c { players_by_id = put c.players_by_id hit.victim_id (wound hit s) })
          (report tick hit (wound hit s) out)
  wounded-IsAccount tick hit c out s e a v =
      let before : is_alive c hit.victim_id ≡ true = ap alive_in e ∙ a in
      let fresh = v.apart hit.victim_id before in
      let same : (p : ℕ) → eqb hit.victim_id p ≡ true → is_alive c p ≡ true =
        λ p q. subst (λ t. is_alive c t ≡ true) ((eqb_iff hit.victim_id p).0 q) before in
      let alive_after : (p : ℕ)
          → is_alive (record c { players_by_id = put c.players_by_id hit.victim_id (wound hit s) })
              p
            ≡ (if eqb hit.victim_id p then not (is_lethal hit s) else is_alive c p) =
        λ p.
          alive-put c hit.victim_id p (wound hit s)
          ∙ ap (λ b. if eqb hit.victim_id p then b else is_alive c p) (alive-wound hit s a) in
      record {
        split = λ p.
            after_split (was p) (is_alive c p) (contains (victims out.death_events) p)
              (eqb hit.victim_id p) (is_lethal hit s) (v.split p) (same p)
            ∙ sym (ap₂ (λ a b. a || b) (alive_after p) (deaths-report tick hit s out p));
        apart = λ p h.
            deaths-report tick hit s out p
            ∙ after_apart (is_alive c p) (contains (victims out.death_events) p)
                (eqb hit.victim_id p) (is_lethal hit s) (v.apart p) (same p)
                (sym (alive_after p) ∙ h);
        once = once-report tick hit s out fresh v.once;
      }

  note_shot-IsAccount :
      (fire : FireCommand F) (s : PlayerCombatState) (next_tick : ℕ) (c : Combat F)
      (out : CombatTickResult)
      → get c.players_by_id fire.attacker_id ≡ some s
      → IsAccount was c out
      → IsAccount was (note_shot c fire s next_tick) out
  unfolding note_shot
  note_shot-IsAccount fire s next_tick c out e v =
      let t : PlayerCombatState = record s { last_shot_seq = max s.last_shot_seq fire.shot_seq } in
      let same : (p : ℕ)
          → is_alive (record c { players_by_id = put c.players_by_id fire.attacker_id t }) p
            ≡ is_alive c p =
        λ p.
          alive-put c fire.attacker_id p t
          ∙ ground (arith, eqb_iff fire.attacker_id p, ap alive_in e) in
      record {
        split =
            λ p. v.split p ∙ ap (λ b. b || contains (victims out.death_events) p) (sym (same p));
        apart = λ p h. v.apart p (sym (same p) ∙ h);
        once = v.once;
      }

  IsAccount-Keeps : (tick : ℕ) → Keeps {F = F} tick (IsAccount was)
  IsAccount-Keeps tick = record {
    damage = λ hit s c out e a b v. wounded-IsAccount tick hit c out s e a v;
    pending = λ hits c out v. record { split = v.split; apart = v.apart; once = v.once };
    queues = λ c out v. record { split = v.split; apart = v.apart; once = v.once };
    shot = λ fire s next_tick c out e v. note_shot-IsAccount fire s next_tick c out e v;
  }

died :
    (was alive dead : Bool)
    → was ≡ (alive || dead)
    → (alive ≡ true → dead ≡ false)
    → dead ≡ (was && not alive)
died was true dead h g = ground (arith, h, g refl)
died was false dead h g = ground (arith, h)

module _ {F D : Type 0} ⦃f : Floats F⦄ (d : Doubles F D) where
  -- The deaths that a tick reports are of different players, and they are exactly the players who were
  -- alive before the tick and are not after it.
  pub deaths_are_final :
      (c : Combat F) (tick : ℕ) (tick_interval : ℤ)
      → let next = resolve_tick d c tick tick_interval in
        NoRepeat (victims next.1.death_events)
        × ((p : ℕ)
            → contains (victims next.1.death_events) p ≡ (is_alive c p && not (is_alive next.0 p)))
  deaths_are_final c tick tick_interval =
      let start : IsAccount (is_alive c) c no_events = record {
        split = λ p. ground arith;
        apart = λ p h. refl;
        once = tt;
      } in
      let v =
        resolve_tick-keeps d tick tick_interval (IsAccount (is_alive c))
          (IsAccount-Keeps (is_alive c) tick) c start in
      (v.once, λ p. died _ _ _ (v.split p) (v.apart p))

  -- Combat resolves a tick, and then the match, given the deaths that combat reports. If the match
  -- was played in the tick (it was not over before, and has begun by the end of it), it counts one
  -- death more, modulo 2^32, for each player who was alive in combat before the tick and is not after
  -- it, and none for any other; if it was not played, it counts none.
  pub each_death_counts :
      (c : Combat F) (m : Match) (tick : ℕ) (tick_interval : ℤ) (active_player_ids : List ℕ)
      (combat_states : List PlayerCombatState) (inventory_summaries : List InventorySummary) (p : ℕ)
      → let next = resolve_tick d c tick tick_interval in
        let n =
          (Match.Resolve.resolve_tick m tick tick_interval active_player_ids combat_states
            next.1.death_events inventory_summaries).0 in
        deaths_of n p ≡ (
          if played_in m.phase n.phase && (is_alive c p && not (is_alive next.0 p))
          then u32 (deaths_of m p + 1)
          else deaths_of m p)
  each_death_counts c m tick tick_interval ids states inventory p =
      let deaths = (resolve_tick d c tick tick_interval).1.death_events in
      let n = (Match.Resolve.resolve_tick m tick tick_interval ids states deaths inventory).0 in
      deaths-resolve_tick m tick tick_interval ids states deaths inventory p
      ∙ ap (λ b. if played_in m.phase n.phase && b then u32 (deaths_of m p + 1) else deaths_of m p)
          (victims-is_victim deaths p ∙ (deaths_are_final c tick tick_interval).1 p)
