-- ===== src/Session/Outcome.antt =====
-- What a join answers, who gets which slot back, and who is refused.
use devy_fps.Prelude.{
  ℕ, ◌<◌, ◌≡◌, ◌≢◌, ◌⊎◌, ◌∙◌, inl, inr, refl, true, false, none, some, if◌then◌else◌, length,
  nat_eq, arith, Bool-cases, Option-cases, eqb_refl,
}
use devy_fps.Prelude.{
  Bytes, bytes_eq, bytes_eqb_iff, ◌==◌, get_elem?-some_lt, get_elem?-set_self, length-set,
}
use devy_fps.Prelude.Map.{get, erase, get-put, get-erase}
use devy_fps.Session.{
  SessionView, SessionManager, JoinStatus, JoinResult, accepted, reconnected, rejected, no_error,
  invalid_player_name, name_in_use, rejection, occupy, rejoin, join_new, is_valid_player_name,
  handle_join_request, handle_disconnect, first_free_slot, slot_is_free, release_slot,
  session_for_peer,
}
use devy_fps.Session.Slots.{release_slot_lem}
use devy_fps.Session.Invariant.{Holds, IsValid}

-- The answer `r` to a join, and the table `n` after it.
abbrev pub Answers : SessionManager → ℕ → Bytes → ℕ → SessionManager × JoinResult → Type 0
Answers m peer_token name now (n, r) =
    ((r.status ≡ rejected) × (r.error ≢ no_error) × (n ≡ m))
    ⊎ ((r.status ≢ rejected)
        × (r.error ≡ no_error)
        × (is_valid_player_name name ≡ true)
        × (session_for_peer n peer_token ≡ some r.session)
        × (r.session.player_name ≡ name)
        × (r.session.last_heartbeat ≡ now))

occupy-Answers :
    (m : SessionManager) (peer_token : ℕ) (name : Bytes) (now slot : ℕ) (status : JoinStatus)
    → is_valid_player_name name ≡ true
    → status ≢ rejected
    → Answers m peer_token name now (occupy m peer_token name now status slot)
unfolding occupy session_for_peer
occupy-Answers m peer_token name now slot status ok ne =
    inr (ne, refl, ok, rw (get-put m.sessions_by_peer, eqb_refl peer_token) refl, refl, refl)

rejoin-Answers :
    (m : SessionManager) (peer_token : ℕ) (name : Bytes) (now : ℕ) (session : SessionView)
    → is_valid_player_name name ≡ true
    → Answers m peer_token name now (rejoin m peer_token name now session)
unfolding rejoin session_for_peer
rejoin-Answers m peer_token name now session ok = elim (Bool-cases (session.player_name == name)) [
  | inl e ↦ rw e (
      inr (
        (λ f. cc),
        refl,
        ok,
        rw (get-put m.sessions_by_peer, eqb_refl peer_token) refl,
        (bytes_eqb_iff session.player_name name).0 e,
        refl,
      ))
  | inr e ↦ rw e (inl (refl, (λ f. cc), refl))
]

join_new-Answers :
    (m : SessionManager) (peer_token : ℕ) (name : Bytes) (now : ℕ)
    → is_valid_player_name name ≡ true
    → Answers m peer_token name now (join_new m peer_token name now)
join_new-Answers m peer_token name now ok = elim (Option-cases (get m.slot_by_player_name name)) [
  | inl e ↦ elim (Option-cases (first_free_slot m.slot_owners)) [
    | inl f ↦ unfold join_new in rw (e, f, join_new) (inl (refl, (λ f. cc), refl))
    | inr (slot, f) ↦
        unfold join_new in
        rw (e, f, join_new) (occupy-Answers m peer_token name now slot accepted ok (λ g. cc))
  ]
  | inr (slot, e) ↦ elim (Bool-cases (slot_is_free m.slot_owners slot)) [
    | inl f ↦
        unfold join_new in
        rw (e, f, join_new) (occupy-Answers m peer_token name now slot reconnected ok (λ g. cc))
    | inr f ↦ unfold join_new in rw (e, f, join_new) (inl (refl, (λ f. cc), refl))
  ]
]

join_as_new :
    (m : SessionManager) (peer_token : ℕ) (name : Bytes) (now : ℕ)
    → is_valid_player_name name ≡ true
    → get m.sessions_by_peer peer_token ≡ none
    → handle_join_request m peer_token name now ≡ join_new m peer_token name now
join_as_new m peer_token name now e f =
    unfold handle_join_request in rw (e, f, handle_join_request) refl

join_as_known :
    (m : SessionManager) (peer_token : ℕ) (name : Bytes) (now : ℕ) (r : SessionView)
    → is_valid_player_name name ≡ true
    → get m.sessions_by_peer peer_token ≡ some r
    → handle_join_request m peer_token name now ≡ rejoin m peer_token name now r
join_as_known m peer_token name now r e f =
    unfold handle_join_request in rw (e, f, handle_join_request) refl

join_invalid_name :
    (m : SessionManager) (peer_token : ℕ) (name : Bytes) (now : ℕ)
    → is_valid_player_name name ≡ false
    → handle_join_request m peer_token name now ≡ (m, rejection invalid_player_name)
join_invalid_name m peer_token name now e =
    unfold handle_join_request in rw (e, handle_join_request) refl

-- A join either is rejected, with an error and the table left as it was, or the name is valid and
-- the peer's session is the one answered, under that name and with a heartbeat at this time.
pub join-Answers :
    (m : SessionManager) (peer_token : ℕ) (name : Bytes) (now : ℕ)
    → Answers m peer_token name now (handle_join_request m peer_token name now)
join-Answers m peer_token name now = elim (Bool-cases (is_valid_player_name name)) [
  | inl e ↦ elim (Option-cases (get m.sessions_by_peer peer_token)) [
    | inl f ↦ rw (join_as_new m peer_token name now e f) (join_new-Answers m peer_token name now e)
    | inr (r, f) ↦
        rw (join_as_known m peer_token name now r e f) (rejoin-Answers m peer_token name now r e)
  ]
  | inr e ↦ rw (join_invalid_name m peer_token name now e) (inl (refl, (λ f. cc), refl))
]

-- A join under a valid name by a peer without a session goes by the name's reservation.
join_reserved :
    (m : SessionManager) (peer_token now slot : ℕ) (name : Bytes)
    → is_valid_player_name name ≡ true
    → get m.sessions_by_peer peer_token ≡ none
    → get m.slot_by_player_name name ≡ some slot
    → handle_join_request m peer_token name now ≡ (
        if slot_is_free m.slot_owners slot
        then occupy m peer_token name now reconnected slot
        else (m, rejection name_in_use))
join_reserved m peer_token now slot name ok absent named =
    join_as_new m peer_token name now ok absent ∙ (unfold join_new in rw (named, join_new) refl)

-- In a valid table a player who is disconnected, and whose name then joins from a peer that has no
-- session, gets the same player id back, as `reconnected`.
pub reconnect_same_slot :
    (m : SessionManager) (p q now : ℕ) (r : SessionView)
    → IsValid m
    → get m.sessions_by_peer p ≡ some r
    → is_valid_player_name r.player_name ≡ true
    → (p ≡ q) ⊎ (get m.sessions_by_peer q ≡ none)
    → let result = (handle_join_request (handle_disconnect m p).0 q r.player_name now).1 in
      (result.status ≡ reconnected) × (result.session.player_id ≡ r.player_id)
reconnect_same_slot m p q now r v h ok other =
    rw (disconnected, join_reserved gone q now r.player_id r.player_name ok absent g.reserved, free)
      (unfold occupy in (refl, refl))
  where
    g : Holds m p r
    g = v.holds p r h

    gone : SessionManager
    gone = record m {
      slot_owners = release_slot m.slot_owners r.player_id;
      sessions_by_peer = erase m.sessions_by_peer p;
    }

    disconnected : handle_disconnect m p ≡ (gone, some r)
    disconnected = unfold handle_disconnect in rw (h, handle_disconnect) refl

    absent : get (erase m.sessions_by_peer p) q ≡ none
    absent = ground (arith, get-erase m.sessions_by_peer p q, other)

    within : r.player_id < length m.slot_owners
    within = get_elem?-some_lt m.slot_owners r.player_id p g.owns

    free : slot_is_free (release_slot m.slot_owners r.player_id) r.player_id ≡ true
    free = rw (release_slot_lem m.slot_owners r.player_id p g.in_a_slot g.owns) (
        unfold slot_is_free in
        ground (
          arith,
          g.in_a_slot,
          within,
          length-set m.slot_owners r.player_id 0,
          get_elem?-set_self m.slot_owners r.player_id 0 within,
        ))

-- In a valid table a player whose reserved slot was given to another peer is refused with
-- `name_in_use`, whether or not another slot is free.
pub displaced_name_refused :
    (m : SessionManager) (p q now : ℕ) (name : Bytes) (s : SessionView)
    → IsValid m
    → is_valid_player_name name ≡ true
    → get m.sessions_by_peer p ≡ none
    → get m.sessions_by_peer q ≡ some s
    → get m.slot_by_player_name name ≡ some s.player_id
    → handle_join_request m p name now ≡ (m, rejection name_in_use)
displaced_name_refused m p q now name s v ok absent other named =
    join_reserved m p now s.player_id name ok absent named ∙ rw (taken) refl
  where
    taken : slot_is_free m.slot_owners s.player_id ≡ false
    taken =
        unfold slot_is_free in ground (arith, (v.holds q s other).owns, (v.holds q s other).real)
