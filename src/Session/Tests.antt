-- ===== src/Session/Tests.antt =====
-- Runs of the session table, and its theorems at concrete inputs.
use devy_fps.Prelude.{
  ℕ, ◌≤◌, ◌≡◌, inl, refl, true, List, [], ◌∷◌, none, some, if◌then◌else◌, length, All, nat_eq,
  arith,
}
use devy_fps.Prelude.{Bytes, bytes_eq}
use devy_fps.Prelude.Map.{get, put, erase}
use devy_fps.Session.{
  SessionConfig, SessionView, SessionManager, reconnected, name_in_use, rejection, new,
  is_valid_player_name, handle_join_request, handle_disconnect, first_free_slot, collect_timed_out,
}
use devy_fps.Session.Invariant.{IsValid}
use devy_fps.Session.History.{Call, joins, disconnects, run, slots_never_shared, IsReal}
use devy_fps.Session.Outcome.{Answers, join-Answers, reconnect_same_slot, displaced_name_refused}
use devy_fps.Session.Timeout.{is_out, is_late, sessions-collect_timed_out}

abbrev ann : Bytes
ann = b'a' ∷ b'n' ∷ b'n' ∷ []

abbrev bob : Bytes
bob = b'b' ∷ b'o' ∷ b'b' ∷ []

abbrev two_players : SessionConfig
two_players = record { max_players = 2; heartbeat_timeout_ms = 10 }

-- Ann leaves, and Bob gets her slot.
abbrev calls : List Call
calls = joins 100 ann 5 ∷ disconnects 100 ∷ joins 200 bob 6 ∷ []

calls-IsReal : All IsReal calls
calls-IsReal = ((λ e. omega arith), (tt, ((λ e. omega arith), tt)))

slots_never_shared_example :
    IsValid (run (new two_players) calls)
    × (length (run (new two_players) calls).sessions_by_peer
        ≤ (run (new two_players) calls).config.max_players)
    × ((p q : ℕ) (r s : SessionView)
        → get (run (new two_players) calls).sessions_by_peer p ≡ some r
        → get (run (new two_players) calls).sessions_by_peer q ≡ some s
        → r.player_id ≡ s.player_id
        → p ≡ q)
slots_never_shared_example = slots_never_shared two_players calls calls-IsReal

abbrev with_bob : SessionManager
with_bob = run (new two_players) calls

abbrev session_of_bob : SessionView
session_of_bob = record { player_id = 1; player_name = bob; peer_token = 200; last_heartbeat = 6 }

with_bob-IsValid : IsValid with_bob
with_bob-IsValid = slots_never_shared_example.0

bob_in_slot : get with_bob.sessions_by_peer 200 ≡ some session_of_bob
unfolding run new get put erase handle_join_request handle_disconnect
bob_in_slot = refl

ann_valid : is_valid_player_name ann ≡ true
unfolding is_valid_player_name
ann_valid = refl

-- Slot 2 is free.
room_left : first_free_slot with_bob.slot_owners ≡ some 2
unfolding run new get put erase handle_join_request handle_disconnect first_free_slot
room_left = refl

join-Answers_example : Answers with_bob 300 ann 7 (handle_join_request with_bob 300 ann 7)
join-Answers_example = join-Answers with_bob 300 ann 7

displaced_name_refused_example :
    handle_join_request with_bob 300 ann 7 ≡ (with_bob, rejection name_in_use)
displaced_name_refused_example =
    displaced_name_refused with_bob 300 200 7 ann session_of_bob with_bob-IsValid ann_valid absent
      bob_in_slot reserved
  where
    absent : get with_bob.sessions_by_peer 300 ≡ none
    absent = unfold run new get put erase handle_join_request handle_disconnect in refl

    reserved : get with_bob.slot_by_player_name ann ≡ some 1
    reserved = unfold run new get put erase handle_join_request handle_disconnect in refl

bob_valid : is_valid_player_name bob ≡ true
unfolding is_valid_player_name
bob_valid = refl

reconnect_same_slot_example :
    let result = (handle_join_request (handle_disconnect with_bob 200).0 200 bob 9).1 in
    (result.status ≡ reconnected) × (result.session.player_id ≡ 1)
reconnect_same_slot_example =
    reconnect_same_slot with_bob 200 200 9 session_of_bob with_bob-IsValid bob_in_slot bob_valid
      (inl refl)

sessions-collect_timed_out_example :
    get (collect_timed_out with_bob 10_000_007).0.sessions_by_peer 200 ≡ (
      if is_out (is_late with_bob 10_000_007) (get with_bob.sessions_by_peer 200)
      then none
      else get with_bob.sessions_by_peer 200)
sessions-collect_timed_out_example =
    sessions-collect_timed_out with_bob 10_000_007 200 with_bob-IsValid
