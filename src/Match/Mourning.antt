-- ===== src/Match/Mourning.antt =====
-- The count of deaths in a whole tick of server/src/MatchLifecycleSimulation.cpp: only the stage of
-- the deaths counts, and only while the match is played.
use devy_fps.Prelude.{
  ℕ, ◌+◌, ◌≡◌, ◌⊎◌, ◌∙◌, inl, inr, refl, ap, Bool, true, false, ◌&&◌, ◌||◌, List, [], ◌∷◌, none,
  eqb, if◌then◌else◌, nat_eq, arith, Option-cases, eqb_iff,
}
use devy_fps.Prelude.{u32}
use devy_fps.Prelude.Int.{ℤ}
use devy_fps.Prelude.Map.{get, map_values, get-map_values}
use devy_fps.Prelude.Sort.{insert, sort}
use devy_fps.Prelude.Ids.{contains, sort_ids}
use devy_fps.Events.{PlayerCombatState, DeathResolution, InventorySummary, death_before}
use devy_fps.Match.{
  MatchPhase, pre_match, in_match, post_match, PlayerRecord, Match, ensure_player, update_player,
  ensure_players, mark_active, apply_combat, apply_inventory, take_alive, take_coins,
}
use devy_fps.Match.Tick.{
  start_record, enter_in_match, Stage, quiet, enter_post_match, run_pre_match, pre_match_stage,
  clock_stage, death_stage, respawn_record, respawn_ids, player_ids, respawn_stage, contender_stage,
}
use devy_fps.Match.Resolve.{timer_stage, resolve_tick}
use devy_fps.Match.Frame.{
  mark_active-frame, apply_combat-frame, apply_inventory-frame, death_stage-frame,
  respawn_stage-frame,
}
use devy_fps.Match.Phases.{course, begin_step, contender_step, timer_step, clock_stage-course}
use devy_fps.Match.Deaths.{
  deaths_in, deaths_of, deaths-ensure_player, deaths-update_player, is_victim, deaths-handle_deaths,
}

-- A change of a record that keeps its deaths.
abbrev KeepsDeaths : (PlayerRecord → PlayerRecord) → Type 0
KeepsDeaths f = (r : PlayerRecord) → (f r).deaths ≡ r.deaths

deaths-update_kept :
    (m : Match) (q p : ℕ) (f : PlayerRecord → PlayerRecord)
    → KeepsDeaths f
    → deaths_of (update_player m q f) p ≡ deaths_of m p
unfolding update_player
deaths-update_kept m q p f keeps = elim (Option-cases (get m.players_by_id q)) [
  | inl e ↦ rw (update_player, e) refl
  | inr (r, e) ↦
      deaths-update_player m q p f r e ∙ ground (arith, eqb_iff q p, keeps r, ap deaths_in e)
]

deaths-map_kept :
    (m : Match) (f : ℕ → PlayerRecord → PlayerRecord) (p : ℕ)
    → ((id : ℕ) → KeepsDeaths (f id))
    → deaths_in (get (map_values f m.players_by_id) p) ≡ deaths_of m p
deaths-map_kept m f p keeps = elim (Option-cases (get m.players_by_id p)) [
  | inl e ↦ ground (arith, get-map_values f m.players_by_id p, e)
  | inr (r, e) ↦ ground (arith, get-map_values f m.players_by_id p, e, keeps p r)
]

deaths-ensure_players :
    (m : Match) (ps : List ℕ) (p : ℕ) → deaths_of (ensure_players m ps) p ≡ deaths_of m p
unfolding ensure_players
deaths-ensure_players m [] p = refl
deaths-ensure_players m (q ∷ ps) p =
    deaths-ensure_players (ensure_player m q) ps p ∙ deaths-ensure_player m q p

deaths-mark_active :
    (m : Match) (ps : List ℕ) (p : ℕ) → deaths_of (mark_active m ps) p ≡ deaths_of m p
unfolding mark_active
deaths-mark_active m ps p =
    deaths-map_kept (ensure_players m ps) (λ id r. record r { connected = contains ps id }) p
      (λ id r. refl)
    ∙ deaths-ensure_players m ps p

deaths-apply_combat :
    (m : Match) (cs : List PlayerCombatState) (p : ℕ)
    → deaths_of (apply_combat m cs) p ≡ deaths_of m p
unfolding apply_combat
deaths-apply_combat m [] p = refl
deaths-apply_combat m (c ∷ cs) p =
    let n = ensure_player m c.player_id in
    deaths-apply_combat (update_player n c.player_id (take_alive c.alive)) cs p
    ∙ deaths-update_kept n c.player_id p (take_alive c.alive) (λ r. ground arith)
    ∙ deaths-ensure_player m c.player_id p

deaths-apply_inventory :
    (m : Match) (ss : List InventorySummary) (changed : Bool) (p : ℕ)
    → deaths_of (apply_inventory m ss changed).0 p ≡ deaths_of m p
unfolding apply_inventory
deaths-apply_inventory m [] changed p = refl
deaths-apply_inventory m (s ∷ ss) changed p =
    let n = ensure_player m s.player_id in
    deaths-apply_inventory (update_player n s.player_id (take_coins s.total_value)) ss _ p
    ∙ deaths-update_kept n s.player_id p (take_coins s.total_value) (λ r. ground arith)
    ∙ deaths-ensure_player m s.player_id p

deaths-respawn_ids :
    (tick : ℕ) (ps : List ℕ) (m : Match) (respawned : List ℕ) (p : ℕ)
    → deaths_of (respawn_ids tick ps m respawned).0 p ≡ deaths_of m p
unfolding respawn_ids respawn_record
deaths-respawn_ids tick [] m respawned p = refl
deaths-respawn_ids tick (q ∷ ps) m respawned p =
    deaths-respawn_ids tick ps (update_player m q (respawn_record tick)) _ p
    ∙ deaths-update_kept m q p (respawn_record tick) (λ r. ground arith)

deaths-respawn_stage :
    (tick : ℕ) (m : Match) (p : ℕ) → deaths_of (respawn_stage tick m).0 p ≡ deaths_of m p
unfolding respawn_stage
deaths-respawn_stage tick m p =
    ground (arith, deaths-respawn_ids tick (sort_ids (player_ids m.players_by_id)) m [] p)

deaths-pre_match_stage :
    (phase : MatchPhase) (m : Match) (tick p : ℕ)
    → deaths_of (pre_match_stage phase m tick).match p ≡ deaths_of m p
unfolding pre_match_stage run_pre_match enter_in_match start_record quiet
deaths-pre_match_stage phase m tick p =
    ground (arith, deaths-map_kept m (λ id r. start_record m.config r) p (λ id r. refl))

is_victim-insert :
    (d : DeathResolution) (ds : List DeathResolution) (p : ℕ)
    → is_victim (insert death_before d ds) p ≡ (eqb d.victim_id p || is_victim ds p)
unfolding insert
is_victim-insert d [] p = refl
is_victim-insert d (e ∷ ds) p = ground (arith, is_victim-insert d ds p)

is_victim-sort :
    (ds : List DeathResolution) (p : ℕ) → is_victim (sort death_before ds) p ≡ is_victim ds p
unfolding sort
is_victim-sort [] p = refl
is_victim-sort (d ∷ ds) p =
    is_victim-insert d (sort death_before ds) p
    ∙ ap (λ b. eqb d.victim_id p || b) (is_victim-sort ds p)

abbrev is_playing : MatchPhase → Bool
is_playing in_match = true
is_playing _ = false

deaths-death_stage :
    (tick : ℕ) (ds : List DeathResolution) (m : Match) (p : ℕ)
    → deaths_of (death_stage tick ds m).0 p
      ≡ (if is_playing m.phase && is_victim ds p then u32 (deaths_of m p + 1) else deaths_of m p)
unfolding death_stage
deaths-death_stage tick ds m p =
    ground (arith, deaths-handle_deaths tick [] (sort death_before ds) m p, is_victim-sort ds p)

deaths-clock_stage :
    (ti : ℤ) (s : Stage) (p : ℕ) → deaths_of (clock_stage ti s).match p ≡ deaths_of s.match p
unfolding clock_stage
deaths-clock_stage ti s p = ground arith

deaths-contender_stage :
    (tick : ℕ) (m : Match) (p : ℕ) → deaths_of (contender_stage tick m).0 p ≡ deaths_of m p
unfolding contender_stage enter_post_match
deaths-contender_stage tick m p = ground arith

deaths-timer_stage :
    (tick : ℕ) (expired : Bool) (m : Match) (p : ℕ)
    → deaths_of (timer_stage tick expired m).0 p ≡ deaths_of m p
unfolding timer_stage enter_post_match
deaths-timer_stage tick expired m p = ground arith

-- Whether the match was played in a tick, by the phases before and after it: it was unless it was
-- over before or has not begun yet.
abbrev pub played_in : MatchPhase → MatchPhase → Bool
played_in post_match after = false
played_in in_match after = true
played_in pre_match pre_match = false
played_in pre_match in_match = true
played_in pre_match post_match = true

-- `d` is the match when the deaths are handled.
playing_then :
    (m c b d r k n : Match) (tick : ℕ)
    → course c ≡ course m
    → course d ≡ course b
    → course r ≡ course d
    → (course b ≡ course c)
      ⊎ ((c.phase ≡ pre_match) × (course b ≡ (in_match, tick, none, c.config)))
    → (course k ≡ course r)
      ⊎ ((r.phase ≡ in_match) × (course k ≡ (post_match, tick, k.winner_player_id, r.config)))
    → (course n ≡ course k)
      ⊎ ((k.phase ≡ in_match) × (course n ≡ (post_match, tick, n.winner_player_id, k.config)))
    → is_playing d.phase ≡ played_in m.phase n.phase
playing_then m c b d r k n tick before at during begun contended timed =
    ground (arith, before, at, during, begun, contended, timed)

pub deaths-resolve_tick :
    (m : Match) (tick : ℕ) (tick_interval : ℤ) (active_player_ids : List ℕ)
    (combat_states : List PlayerCombatState) (death_events : List DeathResolution)
    (inventory_summaries : List InventorySummary) (p : ℕ)
    → let n =
        (resolve_tick m tick tick_interval active_player_ids combat_states death_events
          inventory_summaries).0 in
      deaths_of n p ≡ (
        if played_in m.phase n.phase && is_victim death_events p
        then u32 (deaths_of m p + 1)
        else deaths_of m p)
unfolding resolve_tick
deaths-resolve_tick m tick ti ids combat deaths inventory p =
    let a = mark_active m ids in
    let b = apply_combat a combat in
    let c = (apply_inventory b inventory false).0 in
    let begun = pre_match_stage c.phase c tick in
    let clocked = clock_stage ti begun in
    let mourned = (death_stage tick deaths clocked.match).0 in
    let revived = (respawn_stage tick mourned).0 in
    let contended = (contender_stage tick revived).0 in
    let ended = (timer_stage tick clocked.timer_expired contended).0 in
    let before : deaths_of clocked.match p ≡ deaths_of m p =
      deaths-clock_stage ti begun p
      ∙ deaths-pre_match_stage c.phase c tick p
      ∙ deaths-apply_inventory b inventory false p
      ∙ deaths-apply_combat a combat p
      ∙ deaths-mark_active m ids p in
    let after : deaths_of ended p ≡ deaths_of mourned p =
      deaths-timer_stage tick clocked.timer_expired contended p
      ∙ deaths-contender_stage tick revived p
      ∙ deaths-respawn_stage tick mourned p in
    let playing : is_playing clocked.match.phase ≡ played_in m.phase ended.phase =
      playing_then m c begun.match clocked.match revived contended ended tick
        (ap course (
          apply_inventory-frame b inventory false
          ∙ apply_combat-frame a combat
          ∙ mark_active-frame m ids))
        (clock_stage-course ti begun)
        (ap course (respawn_stage-frame tick mourned ∙ death_stage-frame tick deaths clocked.match))
        (begin_step c tick) (contender_step tick revived)
        (timer_step tick clocked.timer_expired contended) in
    after ∙ ground (arith, deaths-death_stage tick deaths clocked.match p, before, playing)
