-- ===== src/Session/History.antt =====
-- The session table stays valid over any history of calls by real peers.
use devy_fps.Prelude.{
  ℕ, ◌≤◌, ◌≡◌, ◌≢◌, ◌∙◌, inl, inr, ap, List, [], ◌∷◌, some, length, All, nat_eq, arith, Bool-cases,
  Option-cases, eqb_iff,
}
use devy_fps.Prelude.{Bytes, bytes_eq, get_elem?, length-set, get_elem?-set_ne}
use devy_fps.Prelude.Map.{get, erase, erase-Distinct, length-erase, erase_cases}
use devy_fps.Session.{
  SessionConfig, SessionView, SessionManager, new, is_valid_player_name, handle_join_request,
  handle_heartbeat, handle_disconnect, disconnect_all, collect_timed_out, release_slot,
  is_timed_out, timed_out_peers,
}
use devy_fps.Session.Slots.{occupied-clear, occupied_lt, release_slot_lem}
use devy_fps.Session.Invariant.{
  IsValid, new-IsValid, heartbeat-IsValid, rejoin-IsValid, join_new-IsValid,
}

module _ (m : SessionManager) (v : IsValid m) where
  -- The table after the session `r` of `peer_token` is gone.
  abbrev without : ℕ → SessionView → SessionManager
  without peer_token r = record m {
    slot_owners = release_slot m.slot_owners r.player_id;
    sessions_by_peer = erase m.sessions_by_peer peer_token;
  }

  without-IsValid :
      (peer_token : ℕ) (r : SessionView)
      → get m.sessions_by_peer peer_token ≡ some r
      → IsValid (without peer_token r)
  without-IsValid peer_token r h =
      let g = v.holds peer_token r h in
      rw (release_slot_lem m.slot_owners r.player_id peer_token g.in_a_slot g.owns) (record {
        distinct = erase-Distinct m.sessions_by_peer peer_token v.distinct;
        sized = length-set m.slot_owners r.player_id 0 ∙ v.sized;
        slot_zero =
            get_elem?-set_ne m.slot_owners r.player_id 0 0 (λ e. omega (arith, g.in_a_slot))
            ∙ v.slot_zero;
        counted = omega (
          arith,
          v.counted,
          length-erase m.sessions_by_peer peer_token r v.distinct h,
          occupied-clear m.slot_owners r.player_id peer_token g.owns g.real,
        );
        holds = λ q s f.
            let (ne, old) = erase_cases m.sessions_by_peer peer_token q s f in
            let k = v.holds q s old in
            let apart : r.player_id ≢ s.player_id = λ e. cc (
              ne,
              (eqb_iff peer_token q).1
                  (ground (arith, g.owns, k.owns, ap (get_elem? m.slot_owners) e)),
            ) in
            record {
              filed = k.filed;
              real = k.real;
              in_a_slot = k.in_a_slot;
              owns = get_elem?-set_ne m.slot_owners r.player_id s.player_id 0 apart ∙ k.owns;
              reserved = k.reserved;
            };
      })

  pub disconnect-IsValid : (peer_token : ℕ) → IsValid (handle_disconnect m peer_token).0
  disconnect-IsValid peer_token = elim (Option-cases (get m.sessions_by_peer peer_token)) [
    | inl e ↦ unfold handle_disconnect in rw (e, handle_disconnect) v
    | inr (r, e) ↦
        unfold handle_disconnect in rw (e, handle_disconnect) (without-IsValid peer_token r e)
  ]

  join-IsValid :
      (peer_token : ℕ) (name : Bytes) (now : ℕ)
      → peer_token ≢ 0
      → IsValid (handle_join_request m peer_token name now).0
  join-IsValid peer_token name now real = elim (Bool-cases (is_valid_player_name name)) [
    | inl e ↦ elim (Option-cases (get m.sessions_by_peer peer_token)) [
      | inl f ↦
          unfold handle_join_request in
          rw (e, f, handle_join_request) (join_new-IsValid m v peer_token name now real f)
      | inr (r, f) ↦
          unfold handle_join_request in
          rw (e, f, handle_join_request) (rejoin-IsValid m v peer_token name now r f)
    ]
    | inr e ↦ unfold handle_join_request in rw (e, handle_join_request) v
  ]

  -- A valid table has no more sessions than the configured number of players.
  pub IsValid-bounded : length m.sessions_by_peer ≤ m.config.max_players
  IsValid-bounded = omega (arith, v.counted, v.sized, occupied_lt m.slot_owners v.slot_zero)

  -- Two sessions in one slot are one.
  pub IsValid-exclusive :
      (p q : ℕ) (r s : SessionView)
      → get m.sessions_by_peer p ≡ some r
      → get m.sessions_by_peer q ≡ some s
      → r.player_id ≡ s.player_id
      → p ≡ q
  IsValid-exclusive p q r s h k e =
      ground (arith, (v.holds p r h).owns, (v.holds q s k).owns, ap (get_elem? m.slot_owners) e)

pub disconnect_all-IsValid :
    (m : SessionManager) (peers : List ℕ) (gone : List SessionView)
    → IsValid m
    → IsValid (disconnect_all m peers gone).0
unfolding disconnect_all
disconnect_all-IsValid m [] gone v = v
disconnect_all-IsValid m (p ∷ peers) gone v =
    disconnect_all-IsValid (handle_disconnect m p).0 peers _ (disconnect-IsValid m v p)

-- A call on the table, as the server makes them.
pub data Call : Type 0 where
  joins : ℕ → Bytes → ℕ → Call
  beats : ℕ → ℕ → Call
  disconnects : ℕ → Call
  collects : ℕ → Call

unfoldable pub call : SessionManager → Call → SessionManager
unfolding handle_join_request handle_heartbeat handle_disconnect collect_timed_out
call m (joins peer_token name now) = (handle_join_request m peer_token name now).0
call m (beats peer_token now) = (handle_heartbeat m peer_token now).0
call m (disconnects peer_token) = (handle_disconnect m peer_token).0
call m (collects now) = (collect_timed_out m now).0

unfoldable pub run : SessionManager → List Call → SessionManager
unfolding call
run m [] = m
run m (c ∷ cs) = run (call m c) cs

-- A peer token is the address of an object, so it is never 0.
abbrev pub IsReal : Call → Type 0
IsReal (joins peer_token name now) = peer_token ≢ 0
IsReal _ = Unit {0}

pub call-IsValid : (m : SessionManager) (c : Call) → IsReal c → IsValid m → IsValid (call m c)
unfolding call collect_timed_out
call-IsValid m (joins peer_token name now) real v = join-IsValid m v peer_token name now real
call-IsValid m (beats peer_token now) real v = heartbeat-IsValid m v peer_token now
call-IsValid m (disconnects peer_token) real v = disconnect-IsValid m v peer_token
call-IsValid m (collects now) real v =
    disconnect_all-IsValid m (timed_out_peers (is_timed_out m now) m.sessions_by_peer) [] v

run-IsValid : (m : SessionManager) (cs : List Call) → All IsReal cs → IsValid m → IsValid (run m cs)
unfolding run
run-IsValid m [] real v = v
run-IsValid m (c ∷ cs) real v = run-IsValid (call m c) cs real.1 (call-IsValid m c real.0 v)

-- After any calls on a new table in which every joining peer has a token other than 0, the table is
-- valid, has at most as many sessions as the configured number of players, and gives no slot to two peers.
pub slots_never_shared :
    (config : SessionConfig) (cs : List Call)
    → All IsReal cs
    → IsValid (run (new config) cs)
      × (length (run (new config) cs).sessions_by_peer ≤ (run (new config) cs).config.max_players)
      × ((p q : ℕ) (r s : SessionView)
          → get (run (new config) cs).sessions_by_peer p ≡ some r
          → get (run (new config) cs).sessions_by_peer q ≡ some s
          → r.player_id ≡ s.player_id
          → p ≡ q)
slots_never_shared config cs real =
    let v = run-IsValid (new config) cs real (new-IsValid config) in
    (v, IsValid-bounded (run (new config) cs) v, IsValid-exclusive (run (new config) cs) v)
