-- ===== src/Session/Invariant.antt =====
-- What holds of the session table between two calls, and that a join and a disconnect keep it.
use devy_fps.Prelude.{
  ℕ, suc, ◌+◌, ◌<◌, ◌≡◌, ◌≢◌, ◌⊎◌, ◌∙◌, inl, inr, refl, sym, ap, subst, false, none, some, length,
  nat_eq, arith, Bool-cases, Option-cases,
}
use devy_fps.Prelude.{
  Bytes, bytes_eq, ◌==◌, bytes_eqb_iff, get_elem?, get_elem?-some_lt, length-set, length-replicate,
  get_elem?-set_self, get_elem?-set_ne,
}
use devy_fps.Prelude.Map.{
  get, put, get-put, Distinct, put-Distinct, length-put_new, length-put_old, put_cases,
}
use devy_fps.Session.{
  SessionConfig, SessionView, SessionManager, JoinStatus, new, occupy, rejoin, join_new,
  handle_heartbeat, first_free_slot, slot_is_free,
}
use devy_fps.Session.Slots.{
  occupied, occupied-set, occupied-replicate, first_free_slot-some, slot_is_free-some,
}

-- The session `r` that is filed under the peer `p`.
pub record Holds (m : SessionManager) (p : ℕ) (r : SessionView) : Type 0 where
  pub filed : r.peer_token ≡ p
  pub real : p ≢ 0
  pub in_a_slot : 0 < r.player_id
  pub owns : get_elem? m.slot_owners r.player_id ≡ some p
  pub reserved : get m.slot_by_player_name r.player_name ≡ some r.player_id

pub record IsValid (m : SessionManager) : Type 0 where
  pub distinct : Distinct m.sessions_by_peer
  pub sized : length m.slot_owners ≡ m.config.max_players + 1
  pub slot_zero : get_elem? m.slot_owners 0 ≡ some 0
  pub counted : length m.sessions_by_peer ≡ occupied m.slot_owners
  pub holds : (p : ℕ) (r : SessionView) → get m.sessions_by_peer p ≡ some r → Holds m p r

pub new-IsValid : (config : SessionConfig) → IsValid (new config)
unfolding new get
new-IsValid config = record {
  distinct = tt;
  sized = length-replicate (config.max_players + 1) 0;
  slot_zero = let e : config.max_players + 1 ≡ suc config.max_players = omega arith in rw e refl;
  counted = sym (occupied-replicate (config.max_players + 1));
  holds = λ p r h. cc;
}

module _ (m : SessionManager) (v : IsValid m) where
  -- Another session with a name that is not reserved, or whose slot is free, has another name.
  name_not_held :
      (q slot : ℕ) (r : SessionView) (name : Bytes)
      → get m.sessions_by_peer q ≡ some r
      → (get m.slot_by_player_name name ≡ none) ⊎ (get m.slot_by_player_name name ≡ some slot)
      → get_elem? m.slot_owners slot ≡ some 0
      → (name == r.player_name) ≡ false
  name_not_held q slot r name h n f = elim (Bool-cases (name == r.player_name)) [
    | inl e ↦
        let same : name ≡ r.player_name = (bytes_eqb_iff name r.player_name).0 e in
        let g = v.holds q r h in
        absurd
          (g.real (ground (arith, n, f, g.owns, g.reserved, ap (get m.slot_by_player_name) same)))
    | inr e ↦ e
  ]

  module _ (peer_token : ℕ) (name : Bytes) (now : ℕ) (status : JoinStatus) (slot : ℕ)
      (real : peer_token ≢ 0) (absent : get m.sessions_by_peer peer_token ≡ none)
      (named : (get m.slot_by_player_name name ≡ none)
        ⊎ (get m.slot_by_player_name name ≡ some slot))
      (positive : 0 < slot) (free : get_elem? m.slot_owners slot ≡ some 0) where
    occupy-Holds_other :
        (q : ℕ) (r : SessionView)
        → get m.sessions_by_peer q ≡ some r
        → Holds (occupy m peer_token name now status slot).0 q r
    unfolding occupy
    occupy-Holds_other q r h =
        let g = v.holds q r h in
        let apart : slot ≢ r.player_id =
          λ e. g.real (ground (arith, free, g.owns, ap (get_elem? m.slot_owners) e)) in
        record {
          filed = g.filed;
          real = g.real;
          in_a_slot = g.in_a_slot;
          owns = get_elem?-set_ne m.slot_owners slot r.player_id peer_token apart ∙ g.owns;
          reserved =
              rw (get-put m.slot_by_player_name, name_not_held q slot r name h named free)
                g.reserved;
        }

    occupy-Holds_new : Holds (occupy m peer_token name now status slot).0 peer_token (record {
      player_id = slot;
      player_name = name;
      peer_token = peer_token;
      last_heartbeat = now;
    })
    unfolding occupy
    occupy-Holds_new = record {
      filed = refl;
      real = real;
      in_a_slot = positive;
      owns =
          get_elem?-set_self m.slot_owners slot peer_token
            (get_elem?-some_lt m.slot_owners slot 0 free);
      reserved = rw (get-put m.slot_by_player_name, (bytes_eqb_iff name name).1 refl) refl;
    }

    occupy-Holds :
        (q : ℕ) (r : SessionView)
        → get (occupy m peer_token name now status slot).0.sessions_by_peer q ≡ some r
        → Holds (occupy m peer_token name now status slot).0 q r
    unfolding occupy
    occupy-Holds q r h = elim (put_cases m.sessions_by_peer peer_token q _ r h) [
      | inl (e, f) ↦
          subst (λ t. Holds (occupy m peer_token name now status slot).0 t r) e
            (subst (Holds (occupy m peer_token name now status slot).0 peer_token) f
              occupy-Holds_new)
      | inr old ↦ occupy-Holds_other q r old
    ]

    pub occupy-IsValid : IsValid (occupy m peer_token name now status slot).0
    unfolding occupy
    occupy-IsValid = record {
      distinct = put-Distinct m.sessions_by_peer peer_token _ v.distinct;
      sized = length-set m.slot_owners slot peer_token ∙ v.sized;
      slot_zero = get_elem?-set_ne m.slot_owners slot 0 peer_token (λ e. omega arith) ∙ v.slot_zero;
      counted =
          length-put_new m.sessions_by_peer peer_token _ absent
          ∙ ap suc v.counted
          ∙ sym (occupied-set m.slot_owners slot peer_token free real);
      holds = occupy-Holds;
    }

  -- Only the time of the last heartbeat changes.
  refresh-IsValid :
      (peer_token now : ℕ) (session : SessionView)
      → get m.sessions_by_peer peer_token ≡ some session
      → IsValid (record m {
        sessions_by_peer =
            put m.sessions_by_peer peer_token (record session { last_heartbeat = now });
      })
  refresh-IsValid peer_token now session h = record {
    distinct = put-Distinct m.sessions_by_peer peer_token _ v.distinct;
    sized = v.sized;
    slot_zero = v.slot_zero;
    counted = length-put_old m.sessions_by_peer peer_token _ session h ∙ v.counted;
    holds = λ q r f.
        let g = v.holds peer_token session h in
        elim (put_cases m.sessions_by_peer peer_token q _ r f) [
          | inl (e, f') ↦
              rw (← e, ← f')
                (record {
                  filed = g.filed;
                  real = g.real;
                  in_a_slot = g.in_a_slot;
                  owns = g.owns;
                  reserved = g.reserved;
                })
          | inr old ↦
              let k = v.holds q r old in
              record {
                filed = k.filed;
                real = k.real;
                in_a_slot = k.in_a_slot;
                owns = k.owns;
                reserved = k.reserved;
              }
        ];
  }

  pub heartbeat-IsValid : (peer_token now : ℕ) → IsValid (handle_heartbeat m peer_token now).0
  heartbeat-IsValid peer_token now = elim (Option-cases (get m.sessions_by_peer peer_token)) [
    | inl e ↦ unfold handle_heartbeat in rw (e, handle_heartbeat) v
    | inr (session, e) ↦
        unfold handle_heartbeat in
        rw (e, handle_heartbeat) (refresh-IsValid peer_token now session e)
  ]

  pub rejoin-IsValid :
      (peer_token : ℕ) (name : Bytes) (now : ℕ) (session : SessionView)
      → get m.sessions_by_peer peer_token ≡ some session
      → IsValid (rejoin m peer_token name now session).0
  unfolding rejoin
  rejoin-IsValid peer_token name now session h = elim (Bool-cases (session.player_name == name)) [
    | inl e ↦ rw e (refresh-IsValid peer_token now session h)
    | inr e ↦ rw e v
  ]

  pub join_new-IsValid :
      (peer_token : ℕ) (name : Bytes) (now : ℕ)
      → peer_token ≢ 0
      → get m.sessions_by_peer peer_token ≡ none
      → IsValid (join_new m peer_token name now).0
  join_new-IsValid peer_token name now real absent =
      elim (Option-cases (get m.slot_by_player_name name)) [
        | inl e ↦ elim (Option-cases (first_free_slot m.slot_owners)) [
          | inl f ↦ unfold join_new in rw (e, f, join_new) v
          | inr (slot, f) ↦
              let free = first_free_slot-some m.slot_owners slot f in
              unfold join_new in
              rw (e, f, join_new)
                (occupy-IsValid peer_token name now JoinStatus.accepted slot real absent (inl e)
                  free.0 free.1)
        ]
        | inr (slot, e) ↦ elim (Bool-cases (slot_is_free m.slot_owners slot)) [
          | inl f ↦
              let free = slot_is_free-some m.slot_owners slot f in
              unfold join_new in
              rw (e, f, join_new)
                (occupy-IsValid peer_token name now JoinStatus.reconnected slot real absent (inr e)
                  free.0 free.1)
          | inr f ↦ unfold join_new in rw (e, f, join_new) v
        ]
      ]
