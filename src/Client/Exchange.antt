-- ===== src/Client/Exchange.antt =====
-- One update of the server's world replication (server/src/WorldReplication.cpp), and what the client
-- makes of it (client/src/ChunkSyncApplier.cpp).
use devy_fps.Prelude.{ℕ, ◌≡◌, ◌∙◌, sym, ap, false, List, none, some, if◌then◌else◌, nat_eq, arith}
use devy_fps.Prelude.Int.{ℤ}
use devy_fps.Prelude.Floats.{Floats}
use devy_fps.Prelude.Map.{Map, get}
use devy_fps.Prelude.Sort.{sort}
use devy_fps.Replication.{
  ChunkCoord, coord_eq, ChunkRevisionEntry, PlayerReplicationState, WorldReplication, revision_for,
  chunk_entry_less, gather_relevant_chunks,
}
use devy_fps.Replication.Update.{
  removed_coords, entries_zero, unsubscribe_all, subscribe_all, player_state, build_player_update,
}
use devy_fps.Replication.Synced.{get-unsubscribe_all, state-build_player_update}
use devy_fps.Client.ChunkSync.{
  ChunkSyncDelta, ClientChunks, revisions_of, delta_of, remove_all, apply_added_like,
  apply_chunk_sync,
}
use devy_fps.Client.Mirror.{
  names, AllAt, names-sort, AllAt-sort, names-entries_zero, AllAt-subscribe_all, known-sent,
  IsMatched, revisions-remove_all, remove_all-IsMatched, revisions-apply_added_like,
  apply_added_like-IsMatched,
}

module _ {D : Type 0} where
  -- The client knows the revisions that the server believes it to know.
  abbrev pub Agrees : ℕ → WorldReplication → ClientChunks D → Type 0
  Agrees p w c = (k : ChunkCoord) → get c.revisions k ≡ get (player_state w p).known_revisions k

  -- What the client knows after entries of the revisions `rev`.
  revisions-apply_chunk_sync :
      (make : ℤ → ChunkCoord → D) (height : ℤ) (rev : ChunkCoord → ℕ)
      (added removed deltas : List ChunkRevisionEntry) (c : ClientChunks D) (k : ChunkCoord)
      → AllAt rev added
      → AllAt rev deltas
      → get
          (apply_chunk_sync make height
            (record {
              added = revisions_of (sort chunk_entry_less added);
              removed = revisions_of (sort chunk_entry_less removed);
              deltas = revisions_of (sort chunk_entry_less deltas);
            })
            c).revisions
          k
        ≡ (if names deltas k
            then some (rev k)
            else if names added k
            then some (rev k)
            else if names removed k
            then none
            else get c.revisions k)
  unfolding apply_chunk_sync
  revisions-apply_chunk_sync make height rev added removed deltas c k a d =
      let fresh : ClientChunks D = record c {
        result = record { changed = false; added_or_updated = 0; removed = 0 };
      } in
      let first = remove_all (revisions_of (sort chunk_entry_less removed)) fresh in
      let second =
        apply_added_like make height (revisions_of (sort chunk_entry_less added)) first in
      revisions-apply_added_like make height rev (sort chunk_entry_less deltas) second k
        (AllAt-sort rev deltas d)
      ∙ ground (
        arith,
        revisions-apply_added_like make height rev (sort chunk_entry_less added) first k
            (AllAt-sort rev added a),
        revisions-remove_all (sort chunk_entry_less removed) fresh k,
        names-sort added k,
        names-sort removed k,
        names-sort deltas k,
      )

  pub apply_chunk_sync-IsMatched :
      (make : ℤ → ChunkCoord → D) (height : ℤ) (delta : ChunkSyncDelta) (c : ClientChunks D)
      → IsMatched c
      → IsMatched (apply_chunk_sync make height delta c)
  unfolding apply_chunk_sync
  apply_chunk_sync-IsMatched make height delta c m =
      let fresh : ClientChunks D = record c {
        result = record { changed = false; added_or_updated = 0; removed = 0 };
      } in
      let first = remove_all delta.removed fresh in
      let second = apply_added_like make height delta.added first in
      apply_added_like-IsMatched make height delta.deltas second (
        apply_added_like-IsMatched make height delta.added first
          (remove_all-IsMatched delta.removed fresh (λ k. m k)))

module _ {F : Type 0} ⦃f : Floats F⦄ {C D : Type 0} (make : ℤ → ChunkCoord → D) (height : ℤ) where
  -- The update for a player, and what its client makes of it.
  abbrev pub exchange :
      ℕ
      → F
      → F
      → Map ChunkCoord C
      → WorldReplication
      → ClientChunks D
      → WorldReplication × ClientChunks D
  exchange p x z world w c =
      let r = build_player_update w p x z world in
      (r.0, apply_chunk_sync make height (delta_of r.1) c)

  revisions-exchange :
      (p : ℕ) (x z : F) (world : Map ChunkCoord C) (w : WorldReplication) (c : ClientChunks D)
      (k : ChunkCoord)
      → let target = gather_relevant_chunks w x z world in
        let removed = removed_coords target (player_state w p).subscribed_chunks in
        let sent = subscribe_all w target (unsubscribe_all removed (player_state w p)) in
        get (exchange p x z world w c).1.revisions k ≡ (
          if names sent.2 k
          then some (revision_for w k)
          else if names sent.1 k
          then some (revision_for w k)
          else if names (entries_zero removed) k
          then none
          else get c.revisions k)
  unfolding build_player_update
  revisions-exchange p x z world w c k =
      let target = gather_relevant_chunks w x z world in
      let removed = removed_coords target (player_state w p).subscribed_chunks in
      let sent = subscribe_all w target (unsubscribe_all removed (player_state w p)) in
      let all = AllAt-subscribe_all w target (unsubscribe_all removed (player_state w p)) in
      revisions-apply_chunk_sync make height (revision_for w) sent.1 (entries_zero removed) sent.2 c
        k all.0 all.1

  pub exchange-Agrees :
      (p : ℕ) (x z : F) (world : Map ChunkCoord C) (w : WorldReplication) (c : ClientChunks D)
      → Agrees p w c
      → Agrees p (exchange p x z world w c).0 (exchange p x z world w c).1
  exchange-Agrees p x z world w c h k =
      let target = gather_relevant_chunks w x z world in
      let removed = removed_coords target (player_state w p).subscribed_chunks in
      let s = unsubscribe_all removed (player_state w p) in
      revisions-exchange p x z world w c k
      ∙ ground (
        arith,
        h k,
        known-sent w target s k,
        (get-unsubscribe_all removed (player_state w p) k).1,
        names-entries_zero removed k,
      )
      ∙ sym (
          ap (λ (t : PlayerReplicationState). get t.known_revisions k)
            (state-build_player_update w p x z world))
