-- ===== src/Session.antt =====
-- server/src/SessionManager.cpp and server/include/server/SessionManager.h: which peer holds which
-- player slot. A time point is a number of nanoseconds; a peer token is the number of a pointer; a
-- player name is the list of its bytes. A method that changes the object returns the new object.
pub mod Slots
pub mod Invariant
pub mod History
pub mod Outcome
pub mod Timeout
mod Tests
use devy_fps.Prelude.{
  ℕ, zero, suc, ◌+◌, ◌-◌, ◌*◌, ◌/◌, ◌%◌, ◌≤◌, ◌<◌, ◌≡◌, ◌≢◌, ◌⊎◌, ◌↔◌, ◌∙◌, inl, inr, refl, sym, ap,
  subst, Bool, true, false, ◌&&◌, ◌||◌, List, [], ◌∷◌, ◌++◌, Option, none, some, ltb, leb, eqb,
  if◌then◌else◌, u64, sub64, last?, length, length-append, All, All-append, nat_eq, arith,
  Bool-cases, Option-cases, eqb_refl, eqb_iff, select,
}
use devy_fps.Prelude.{Bytes, bytes_eq, map, ◌==◌, get_elem?, set, replicate, not}
use devy_fps.Prelude.Map.{Map, get, put, erase}
use devy_fps.Prelude.Sort.{sort}

pub record SessionConfig : Type 0 where
  pub max_players : ℕ
  pub heartbeat_timeout_ms : ℕ

pub data JoinStatus : Type 0 where
  accepted reconnected already_joined rejected : JoinStatus

pub data JoinError : Type 0 where
  no_error invalid_player_name name_in_use server_full : JoinError

-- `SessionRecord`; a `SessionView` is a copy of its four fields.
pub record SessionView : Type 0 where
  pub player_id : ℕ
  pub player_name : Bytes
  pub peer_token : ℕ
  pub last_heartbeat : ℕ

pub record JoinResult : Type 0 where
  pub status : JoinStatus
  pub error : JoinError
  pub session : SessionView

pub record SessionManager : Type 0 where
  pub config : SessionConfig
  pub slot_owners : List ℕ
  pub sessions_by_peer : Map ℕ SessionView
  pub slot_by_player_name : Map Bytes ℕ

unfoldable pub new : SessionConfig → SessionManager
new config = record {
  config = config;
  slot_owners = replicate (config.max_players + 1) 0;
  sessions_by_peer = [];
  slot_by_player_name = [];
}

-- `SessionView{}`
abbrev pub no_session : SessionView
no_session = record { player_id = 0; player_name = []; peer_token = 0; last_heartbeat = 0 }

abbrev pub rejection : JoinError → JoinResult
rejection e = record { status = rejected; error = e; session = no_session }

abbrev pub max_player_name_length : ℕ
max_player_name_length = 24

-- All bytes are printable ASCII.
unfoldable pub all_printable : Bytes → Bool
all_printable [] = true
all_printable (c ∷ cs) = leb 32 c && leb c 126 && all_printable cs

unfoldable pub is_valid_player_name : Bytes → Bool
unfolding all_printable
is_valid_player_name name =
    if eqb (length name) 0 || ltb max_player_name_length (length name)
    then false
    else all_printable name

unfoldable pub slot_is_free : List ℕ → ℕ → Bool
slot_is_free owners slot =
    if eqb slot 0 || leb (length owners) slot
    then false
    else elim (get_elem? owners slot) [ none ↦ false | some owner ↦ eqb owner 0 ]

-- The loop of `first_free_slot`, at `slot`, over the owners from there on.
unfoldable pub free_slot_from : ℕ → List ℕ → Option ℕ
free_slot_from slot [] = none
free_slot_from slot (owner ∷ owners) =
    let rest = free_slot_from (slot + 1) owners in if eqb owner 0 then some slot else rest

unfoldable pub first_free_slot : List ℕ → Option ℕ
unfolding free_slot_from
first_free_slot [] = none
first_free_slot (owner ∷ owners) = free_slot_from 1 owners

unfoldable pub release_slot : List ℕ → ℕ → List ℕ
release_slot owners slot =
    if eqb slot 0 || leb (length owners) slot then owners else set owners slot 0

-- The tail of `handle_join_request`: the peer gets the slot.
unfoldable pub occupy :
    SessionManager → ℕ → Bytes → ℕ → JoinStatus → ℕ → SessionManager × JoinResult
occupy m peer_token name now status slot =
    let session : SessionView = record {
      player_id = slot;
      player_name = name;
      peer_token = peer_token;
      last_heartbeat = now;
    } in
    (
      record m {
        slot_owners = set m.slot_owners slot peer_token;
        slot_by_player_name = put m.slot_by_player_name name slot;
        sessions_by_peer = put m.sessions_by_peer peer_token session;
      },
      record { status = status; error = no_error; session = session },
    )

-- A peer that has a session already.
unfoldable pub rejoin : SessionManager → ℕ → Bytes → ℕ → SessionView → SessionManager × JoinResult
rejoin m peer_token name now session =
    if session.player_name == name
    then (
      record m {
        sessions_by_peer =
            put m.sessions_by_peer peer_token (record session { last_heartbeat = now });
      },
      record {
        status = already_joined;
        error = no_error;
        session = record session { last_heartbeat = now };
      },
    )
    else (m, rejection name_in_use)

-- A peer without one: the slot that the name has reserved, else the first free slot.
unfoldable pub join_new : SessionManager → ℕ → Bytes → ℕ → SessionManager × JoinResult
unfolding occupy slot_is_free first_free_slot
join_new m peer_token name now = elim (get m.slot_by_player_name name) [
  | some slot ↦
      if slot_is_free m.slot_owners slot
      then occupy m peer_token name now reconnected slot
      else (m, rejection name_in_use)
  | none ↦ elim (first_free_slot m.slot_owners) [
    | some slot ↦ occupy m peer_token name now accepted slot
    | none ↦ (m, rejection server_full)
  ]
]

unfoldable pub handle_join_request : SessionManager → ℕ → Bytes → ℕ → SessionManager × JoinResult
unfolding is_valid_player_name rejoin join_new
handle_join_request m peer_token name now =
    if not (is_valid_player_name name)
    then (m, rejection invalid_player_name)
    else elim (get m.sessions_by_peer peer_token) [
      | some session ↦ rejoin m peer_token name now session
      | none ↦ join_new m peer_token name now
    ]

unfoldable pub handle_heartbeat : SessionManager → ℕ → ℕ → SessionManager × Bool
handle_heartbeat m peer_token now = elim (get m.sessions_by_peer peer_token) [
  | none ↦ (m, false)
  | some session ↦ (
    record m {
      sessions_by_peer =
          put m.sessions_by_peer peer_token (record session { last_heartbeat = now });
    },
    true,
  )
]

unfoldable pub handle_disconnect : SessionManager → ℕ → SessionManager × Option SessionView
unfolding release_slot
handle_disconnect m peer_token = elim (get m.sessions_by_peer peer_token) [
  | none ↦ (m, none)
  | some session ↦ (
    record m {
      slot_owners = release_slot m.slot_owners session.player_id;
      sessions_by_peer = erase m.sessions_by_peer peer_token;
    },
    some session,
  )
]

-- `now - last_heartbeat > heartbeat_timeout`, with both sides in nanoseconds.
unfoldable pub is_timed_out : SessionManager → ℕ → SessionView → Bool
is_timed_out m now session =
    ltb (session.last_heartbeat + m.config.heartbeat_timeout_ms * 1_000_000) now

unfoldable pub timed_out_peers : (SessionView → Bool) → Map ℕ SessionView → List ℕ
timed_out_peers out [] = []
timed_out_peers out ((peer, session) ∷ sessions) =
    let rest = timed_out_peers out sessions in if out session then peer ∷ rest else rest

-- The second loop of `collect_timed_out`.
unfoldable pub disconnect_all :
    SessionManager → List ℕ → List SessionView → SessionManager × List SessionView
unfolding handle_disconnect
disconnect_all m [] gone = (m, gone)
disconnect_all m (peer ∷ peers) gone =
    disconnect_all (handle_disconnect m peer).0 peers
      (elim (handle_disconnect m peer).1 [ none ↦ gone | some session ↦ gone ++ session ∷ [] ])

unfoldable pub collect_timed_out : SessionManager → ℕ → SessionManager × List SessionView
unfolding is_timed_out timed_out_peers disconnect_all
collect_timed_out m now =
    disconnect_all m (timed_out_peers (is_timed_out m now) m.sessions_by_peer) []

unfoldable pub session_before : SessionView → SessionView → Bool
session_before a b =
    if eqb a.player_id b.player_id
    then ltb a.peer_token b.peer_token
    else ltb a.player_id b.player_id

unfoldable pub active_sessions : SessionManager → List SessionView
unfolding session_before
active_sessions m =
    sort session_before
      (map (λ (e : ℕ × SessionView). record e.1 { peer_token = e.0 }) m.sessions_by_peer)

unfoldable pub session_for_peer : SessionManager → ℕ → Option SessionView
session_for_peer m peer_token = get m.sessions_by_peer peer_token

unfoldable pub active_count : SessionManager → ℕ
active_count m = length m.sessions_by_peer

unfoldable pub capacity : SessionManager → ℕ
capacity m = m.config.max_players
