-- ===== src/Client/Convergence.antt =====
-- The server's world replication (server/src/WorldReplication.cpp) and a client's chunks
-- (client/src/ChunkSyncApplier.cpp) over any course of a session in which the client gets every
-- update, in order: the server sends them on a reliable channel (server/src/main.cpp, `send_packet`).
use devy_fps.Prelude.{
  ℕ, suc, ◌+◌, ◌≤◌, ◌<◌, ◌≡◌, ◌∙◌, inl, inr, refl, sym, ap, subst, Bool, false, List, [], ◌∷◌, none,
  some, eqb, if◌then◌else◌, length, nat_eq, arith, Bool-cases,
}
use devy_fps.Prelude.Int.{ℤ, pos}
use devy_fps.Prelude.Floats.{Floats}
use devy_fps.Prelude.Map.{Map, get, get-put}
use devy_fps.Replication.{
  ChunkCoord, coord_eq, same_coord, same_coord_iff, ReplicationConfig, PlayerReplicationState,
  WorldReplication, new, mark_chunk_dirty, next_revision, revision_for, gather_relevant_chunks,
}
use devy_fps.Replication.Update.{holds, player_state, build_player_update}
use devy_fps.Replication.Synced.{
  IsSynced, IsSynced-build_player_update, revision-build_player_update, player_knows_surroundings,
}
use devy_fps.Client.ChunkSync.{ClientChunks, is_some, delta_of}
use devy_fps.Client.Mirror.{IsMatched}
use devy_fps.Client.Exchange.{Agrees, exchange, exchange-Agrees, apply_chunk_sync-IsMatched}

-- What happens on the server: a chunk changes, or a player is sent an update.
pub data Event (F C : Type 0) : Type 0 where
  marked : ChunkCoord → Event F C
  updated_player : ℕ → F → F → Map ChunkCoord C → Event F C

abbrev pub empty_chunks : {D : Type 0} → ClientChunks D
empty_chunks = record {
  chunks = [];
  max_height = pos 0;
  revisions = [];
  result = record { changed = false; added_or_updated = 0; removed = 0 };
}

is_some_if : (b : Bool) (n : ℕ) → is_some (if b then some n else none) ≡ b
is_some_if b n = ground arith

revision-mark_chunk_dirty :
    (w : WorldReplication) (coord k : ChunkCoord)
    → revision_for w coord < 4294967295
    → revision_for (mark_chunk_dirty w coord) k
      ≡ (if same_coord coord k then revision_for w k + 1 else revision_for w k)
unfolding mark_chunk_dirty revision_for
revision-mark_chunk_dirty w coord k h = ground (
  arith,
  h,
  get-put w.chunk_revisions coord k (next_revision (get w.chunk_revisions coord)),
  same_coord_iff coord k,
)

IsSynced-grow :
    (w v : WorldReplication) (s : PlayerReplicationState)
    → ((k : ChunkCoord) → revision_for w k ≤ revision_for v k)
    → IsSynced w s
    → IsSynced v s
IsSynced-grow w v s h sync k = ground (arith, h k, sync k)

-- What holds after `n` events.
record IsInStep {D : Type 0} (p n : ℕ) (w : WorldReplication) (c : ClientChunks D) : Type 0 where
  pub agrees : Agrees p w c
  pub matched : IsMatched c
  pub synced : IsSynced w (player_state w p)
  pub small : (k : ChunkCoord) → revision_for w k ≤ n

more :
    {D : Type 0} (p n b : ℕ) (w : WorldReplication) (c : ClientChunks D)
    → n ≤ b
    → IsInStep p n w c
    → IsInStep p b w c
more p n b w c h v = record {
  agrees = v.agrees;
  matched = v.matched;
  synced = v.synced;
  small = λ k. omega (arith, v.small k, h);
}

mark-IsInStep :
    {D : Type 0} (p n : ℕ) (coord : ChunkCoord) (w : WorldReplication) (c : ClientChunks D)
    → n < 4294967295
    → IsInStep p n w c
    → IsInStep p (suc n) (mark_chunk_dirty w coord) c
mark-IsInStep p n coord w c h v =
    let room : revision_for w coord < 4294967295 = omega (arith, v.small coord) in
    let now = λ (k : ChunkCoord). revision-mark_chunk_dirty w coord k room in
    let same : player_state (mark_chunk_dirty w coord) p ≡ player_state w p =
      unfold mark_chunk_dirty in refl in
    record {
      agrees =
          λ k. v.agrees k ∙ sym (ap (λ (t : PlayerReplicationState). get t.known_revisions k) same);
      matched = v.matched;
      synced = subst (IsSynced (mark_chunk_dirty w coord)) (sym same) (
          IsSynced-grow w (mark_chunk_dirty w coord) (player_state w p) (λ k. ground (arith, now k))
            v.synced);
      small = λ k. ground (arith, now k, v.small k);
    }

start-IsInStep :
    {D : Type 0} (p : ℕ) (config : ReplicationConfig)
    → IsInStep p 0 (new config) (empty_chunks {D = D})
unfolding new get revision_for
start-IsInStep p config = record {
  agrees = λ k. refl;
  matched = λ k. refl;
  synced = λ k. inl (refl, refl);
  small = λ k. omega arith;
}

module _ {F : Type 0} ⦃f : Floats F⦄ {C : Type 0} where
  state-other :
      (p q : ℕ) (x z : F) (world : Map ChunkCoord C) (w : WorldReplication)
      → eqb q p ≡ false
      → player_state (build_player_update w q x z world).0 p ≡ player_state w p
  unfolding build_player_update
  state-other p q x z world w h = rw (get-put w.player_states, h) refl

  other-IsInStep :
      {D : Type 0} (p n q : ℕ) (x z : F) (world : Map ChunkCoord C) (w : WorldReplication)
      (c : ClientChunks D)
      → eqb q p ≡ false
      → IsInStep p n w c
      → IsInStep p (suc n) (build_player_update w q x z world).0 c
  other-IsInStep p n q x z world w c h v =
      let same = state-other p q x z world w h in
      record {
        agrees = λ k.
            v.agrees k ∙ sym (ap (λ (t : PlayerReplicationState). get t.known_revisions k) same);
        matched = v.matched;
        synced =
            subst (IsSynced (build_player_update w q x z world).0) (sym same)
              (IsSynced-build_player_update w q x z world (player_state w p) v.synced);
        small = λ k. omega (arith, v.small k, revision-build_player_update w q x z world k);
      }

  module _ {D : Type 0} (make : ℤ → ChunkCoord → D) (height : ℤ) (p : ℕ) where
    -- The server, and the client of player `p`, after an event. Updates of others do not reach it.
    abbrev pub step :
        Event F C → WorldReplication × ClientChunks D → WorldReplication × ClientChunks D
    step (marked coord) (w, c) = (mark_chunk_dirty w coord, c)
    step (updated_player q x z world) (w, c) =
        if eqb q p
        then exchange make height p x z world w c
        else ((build_player_update w q x z world).0, c)

    abbrev pub run :
        List (Event F C) → WorldReplication × ClientChunks D → WorldReplication × ClientChunks D
    run [] s = s
    run (e ∷ es) s = run es (step e s)

    exchange-IsInStep :
        (n : ℕ) (x z : F) (world : Map ChunkCoord C) (w : WorldReplication) (c : ClientChunks D)
        → IsInStep p n w c
        → IsInStep p n
            (exchange make height p x z world w c).0
            (exchange make height p x z world w c).1
    exchange-IsInStep n x z world w c v = record {
      agrees = exchange-Agrees make height p x z world w c v.agrees;
      matched =
          apply_chunk_sync-IsMatched make height (delta_of (build_player_update w p x z world).1) c
            v.matched;
      synced = (player_knows_surroundings w p x z world v.synced).0;
      small = λ k. omega (arith, v.small k, revision-build_player_update w p x z world k);
    }

    step-IsInStep :
        (n : ℕ) (e : Event F C) (w : WorldReplication) (c : ClientChunks D)
        → n < 4294967295
        → IsInStep p n w c
        → IsInStep p (suc n) (step e (w, c)).0 (step e (w, c)).1
    step-IsInStep n (marked coord) w c h v = mark-IsInStep p n coord w c h v
    step-IsInStep n (updated_player q x z world) w c h v = elim (Bool-cases (eqb q p)) [
      | inl e ↦ rw e (
          more p n (suc n) (exchange make height p x z world w c).0
            (exchange make height p x z world w c).1 (omega arith)
            (exchange-IsInStep n x z world w c v))
      | inr e ↦ rw e (other-IsInStep p n q x z world w c e v)
    ]

    run-IsInStep :
        (n b : ℕ) (es : List (Event F C)) (w : WorldReplication) (c : ClientChunks D)
        → n + length es ≤ b
        → b < 4294967296
        → IsInStep p n w c
        → IsInStep p b (run es (w, c)).0 (run es (w, c)).1
    run-IsInStep n b [] w c h g v = more p n b w c (omega (arith, h)) v
    run-IsInStep n b (e ∷ es) w c h g v =
        run-IsInStep (suc n) b es (step e (w, c)).0 (step e (w, c)).1 (omega (arith, h)) g
          (step-IsInStep n e w c (omega (arith, h, g)) v)

    -- A client that starts with a new server and gets its updates in order: after fewer than 2^32
    -- events, and one more update, it knows the present revision of each chunk around its player and
    -- of no other, and its world has exactly those chunks.
    pub client_converges :
        (config : ReplicationConfig) (events : List (Event F C)) (x z : F)
        (world : Map ChunkCoord C)
        → length events < 4294967296
        → let before = run events (new config, empty_chunks) in
          let after = exchange make height p x z world before.0 before.1 in
          (k : ChunkCoord)
          → (get after.1.revisions k ≡ (
              if holds (gather_relevant_chunks before.0 x z world) k
              then some (revision_for after.0 k)
              else none))
            × (is_some (get after.1.chunks k) ≡ holds (gather_relevant_chunks before.0 x z world) k)
    client_converges config events x z world h k =
        let before = run events (new config, empty_chunks {D = D}) in
        let v =
          run-IsInStep 0 (length events) events (new config) (empty_chunks {D = D}) (omega arith) h
            (start-IsInStep p config) in
        let u = exchange-IsInStep (length events) x z world before.0 before.1 v in
        let knows = (player_knows_surroundings before.0 p x z world v.synced).1 k in
        let first = u.agrees k ∙ knows in
        (
          first,
          u.matched k
              ∙ ap is_some first
              ∙ is_some_if (holds (gather_relevant_chunks before.0 x z world) k) _,
        )
