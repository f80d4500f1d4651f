-- ===== src/Session/Timeout.antt =====
-- `collect_timed_out`: which sessions it ends.
use devy_fps.Prelude.{
  ℕ, ◌-◌, ◌*◌, ltb, ◌≡◌, ◌∙◌, inl, inr, refl, sym, ap, Bool, false, List, [], ◌∷◌, Option, none,
  some, if◌then◌else◌, nat_eq, arith, Option-cases, eqb_iff,
}
use devy_fps.Prelude.{bytes_eq}
use devy_fps.Prelude.Map.{Map, get, erase, get-erase, Distinct, erase_missing}
use devy_fps.Prelude.Ids.{contains}
use devy_fps.Session.{
  SessionView, SessionManager, handle_disconnect, disconnect_all, collect_timed_out, is_timed_out,
  timed_out_peers,
}
use devy_fps.Session.Invariant.{IsValid}

sessions-disconnect :
    (m : SessionManager) (p : ℕ)
    → (handle_disconnect m p).0.sessions_by_peer ≡ erase m.sessions_by_peer p
sessions-disconnect m p = elim (Option-cases (get m.sessions_by_peer p)) [
  | inl e ↦
      unfold handle_disconnect in
      rw (e, handle_disconnect) (sym (erase_missing m.sessions_by_peer p e))
  | inr (r, e) ↦ unfold handle_disconnect in rw (e, handle_disconnect) refl
]

get-disconnect_all :
    (m : SessionManager) (peers : List ℕ) (gone : List SessionView) (q : ℕ)
    → get (disconnect_all m peers gone).0.sessions_by_peer q
      ≡ (if contains peers q then none else get m.sessions_by_peer q)
unfolding disconnect_all
get-disconnect_all m [] gone q = refl
get-disconnect_all m (p ∷ peers) gone q =
    get-disconnect_all (handle_disconnect m p).0 peers _ q
    ∙ rw (sessions-disconnect m p) (ground (arith, get-erase m.sessions_by_peer p q))

-- Whether a session that may be there is to be ended.
abbrev pub is_out : (SessionView → Bool) → Option SessionView → Bool
is_out out none = false
is_out out (some r) = out r

contains-timed_out_none :
    (out : SessionView → Bool) (sessions : Map ℕ SessionView) (q : ℕ)
    → get sessions q ≡ none
    → contains (timed_out_peers out sessions) q ≡ false
unfolding timed_out_peers get
contains-timed_out_none out [] q h = refl
contains-timed_out_none out ((p, r) ∷ sessions) q h =
    ground (arith, contains-timed_out_none out sessions q)

contains-timed_out :
    (out : SessionView → Bool) (sessions : Map ℕ SessionView) (q : ℕ)
    → Distinct sessions
    → contains (timed_out_peers out sessions) q ≡ is_out out (get sessions q)
unfolding timed_out_peers get
contains-timed_out out [] q d = refl
contains-timed_out out ((p, r) ∷ sessions) q d = ground (
  arith,
  contains-timed_out out sessions q d.1,
  contains-timed_out_none out sessions p d.0,
  eqb_iff p q,
)

-- The last heartbeat is longer ago than the timeout, in nanoseconds.
abbrev pub is_late : SessionManager → ℕ → SessionView → Bool
is_late m now session =
    ltb (m.config.heartbeat_timeout_ms * 1_000_000) (now - session.last_heartbeat)

timed_out-late :
    (m : SessionManager) (now : ℕ) (o : Option SessionView)
    → is_out (is_timed_out m now) o ≡ is_out (is_late m now) o
unfolding is_timed_out
timed_out-late m now none = refl
timed_out-late m now (some r) = ground arith

-- In a valid table `collect_timed_out` ends exactly the sessions whose last heartbeat is longer ago
-- than the timeout, and keeps the others as they were.
pub sessions-collect_timed_out :
    (m : SessionManager) (now q : ℕ)
    → IsValid m
    → get (collect_timed_out m now).0.sessions_by_peer q ≡ (
        if is_out (is_late m now) (get m.sessions_by_peer q)
        then none
        else get m.sessions_by_peer q)
unfolding collect_timed_out
sessions-collect_timed_out m now q v =
    get-disconnect_all m (timed_out_peers (is_timed_out m now) m.sessions_by_peer) [] q
    ∙ ap (λ b. if b then none else get m.sessions_by_peer q)
        (contains-timed_out (is_timed_out m now) m.sessions_by_peer q v.distinct
          ∙ timed_out-late m now (get m.sessions_by_peer q))
