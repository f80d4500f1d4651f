-- ===== src/Match/Deaths.antt =====
-- The count of deaths of server/src/MatchLifecycleSimulation.cpp in one tick.
use devy_fps.Prelude.{
  ℕ, ◌+◌, ◌≡◌, ◌∙◌, inl, inr, refl, ap, Bool, true, false, ◌||◌, List, [], ◌∷◌, Option, none, some,
  eqb, if◌then◌else◌, nat_eq, arith, Bool-cases, Option-cases, eqb_refl, eqb_iff,
}
use devy_fps.Prelude.{u32}
use devy_fps.Prelude.Map.{get, get-put}
use devy_fps.Prelude.Ids.{contains}
use devy_fps.Events.{DeathResolution}
use devy_fps.Match.{
  MatchLifecycleConfig, PlayerRecord, Match, or_new, new_record, ensure_player, update_player,
}
use devy_fps.Match.Tick.{kill_record, credit_kill, handle_death, handle_deaths}

-- 0 for a player without a record, as in a new one.
abbrev pub deaths_in : Option PlayerRecord → ℕ
deaths_in none = 0
deaths_in (some r) = r.deaths

abbrev pub deaths_of : Match → ℕ → ℕ
deaths_of m p = deaths_in (get m.players_by_id p)

pub deaths-ensure_player : (m : Match) (q p : ℕ) → deaths_of (ensure_player m q) p ≡ deaths_of m p
unfolding ensure_player new_record
deaths-ensure_player m q p = elim (Option-cases (get m.players_by_id q)) [
  | inl e ↦ ground (
    arith,
    e,
    get-put m.players_by_id q p (record (or_new m.config q (get m.players_by_id q)) {
      participated = true;
      connected = true;
    }),
  )
  | inr (r, e) ↦ ground (
    arith,
    e,
    get-put m.players_by_id q p (record (or_new m.config q (get m.players_by_id q)) {
      participated = true;
      connected = true;
    }),
  )
]

-- After `ensure_player` there is a record.
pub touched :
    (m : Match) (q : ℕ) → (r : PlayerRecord) × (get (ensure_player m q).players_by_id q ≡ some r)
unfolding ensure_player
touched m q =
    let r : PlayerRecord = record (or_new m.config q (get m.players_by_id q)) {
      participated = true;
      connected = true;
    } in
    (r, get-put m.players_by_id q q r ∙ rw (eqb_refl q) refl)

pub deaths-update_player :
    (m : Match) (q p : ℕ) (g : PlayerRecord → PlayerRecord) (r : PlayerRecord)
    → get m.players_by_id q ≡ some r
    → deaths_of (update_player m q g) p ≡ (if eqb q p then (g r).deaths else deaths_of m p)
unfolding update_player get
deaths-update_player m q p g r e =
    rw (update_player, e) (ground (arith, get-put m.players_by_id q p (g r)))

deaths-credit_kill :
    (m : Match) (d : DeathResolution) (p : ℕ) → deaths_of (credit_kill m d) p ≡ deaths_of m p
unfolding credit_kill
deaths-credit_kill m d p =
    let n = ensure_player m d.killer_id in
    let (r, found) = touched m d.killer_id in
    elim (Bool-cases (eqb d.killer_id 0 || eqb d.killer_id d.victim_id)) [
      | inl e ↦ rw e refl
      | inr e ↦ rw e (
          ground (
            arith,
            deaths-update_player n d.killer_id p (λ r. record r { kills = u32 (r.kills + 1) }) r
                found,
            deaths-ensure_player m d.killer_id p,
            eqb_iff d.killer_id p,
            ap deaths_in found,
          ))
    ]

deaths-kill_record :
    (tick : ℕ) (c : MatchLifecycleConfig) (r : PlayerRecord)
    → (kill_record tick c r).deaths ≡ u32 (r.deaths + 1)
unfolding kill_record
deaths-kill_record tick c r = ground arith

deaths-handle_death :
    (tick : ℕ) (m : Match) (d : DeathResolution) (p : ℕ)
    → deaths_of (handle_death tick m d) p
      ≡ (if eqb d.victim_id p then u32 (deaths_of m p + 1) else deaths_of m p)
unfolding handle_death
deaths-handle_death tick m d p =
    let n = ensure_player m d.victim_id in
    let (r, found) = touched m d.victim_id in
    let kill = kill_record tick m.config in
    deaths-credit_kill (update_player n d.victim_id kill) d p
    ∙ ground (
      arith,
      deaths-update_player n d.victim_id p kill r found,
      deaths-kill_record tick m.config r,
      deaths-ensure_player m d.victim_id p,
      eqb_iff d.victim_id p,
      ap deaths_in found,
    )

abbrev pub is_victim : List DeathResolution → ℕ → Bool
is_victim [] p = false
is_victim (d ∷ ds) p = eqb d.victim_id p || is_victim ds p

-- However often a player stands among a tick's deaths, its count of deaths rises by one, modulo 2^32,
-- if it had not been handled before, and that of any other player stays.
pub deaths-handle_deaths :
    (tick : ℕ) (handled : List ℕ) (ds : List DeathResolution) (m : Match) (p : ℕ)
    → deaths_of (handle_deaths tick handled ds m) p ≡ (
        if contains handled p
        then deaths_of m p
        else if is_victim ds p
        then u32 (deaths_of m p + 1)
        else deaths_of m p)
unfolding handle_deaths
deaths-handle_deaths tick handled [] m p = ground arith
deaths-handle_deaths tick handled (d ∷ ds) m p = elim (Bool-cases (contains handled d.victim_id)) [
  | inl e ↦
      rw (handle_deaths, e)
        (ground (arith, deaths-handle_deaths tick handled ds m p, e, eqb_iff d.victim_id p))
  | inr e ↦
      rw (handle_deaths, e)
        (ground (
          arith,
          deaths-handle_deaths tick (d.victim_id ∷ handled) ds (handle_death tick m d) p,
          e,
          deaths-handle_death tick m d p,
          eqb_iff d.victim_id p,
        ))
]
