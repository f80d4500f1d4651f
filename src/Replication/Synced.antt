-- ===== src/Replication/Synced.antt =====
-- What a player knows of the world after an update of server/src/WorldReplication.cpp.
use devy_fps.Prelude.{
  ℕ, ◌≤◌, ◌≡◌, ◌⊎◌, ◌∙◌, inl, inr, refl, sym, ap, subst, Bool, true, false, List, [], ◌∷◌, Option,
  none, some, if◌then◌else◌, nat_eq, arith, Bool-cases, eqb_refl,
}
use devy_fps.Prelude.Floats.{Floats}
use devy_fps.Prelude.Map.{Map, get, erase, get-put, get-erase}
use devy_fps.Replication.{
  ChunkCoord, coord_eq, same_coord, same_coord_iff, CoordSet, PlayerReplicationState,
  WorldReplication, or_zero, revision_for, gather_relevant_chunks,
}
use devy_fps.Replication.Update.{
  holds, removed_coords, unsubscribe_all, is_subscribed, subscribe, subscribe_all, player_state,
  build_player_update,
}

-- A player knows a revision of exactly the chunks that it is subscribed to, none that is still to come.
abbrev pub IsSynced : WorldReplication → PlayerReplicationState → Type 0
IsSynced w s =
    (k : ChunkCoord)
    → ((get s.subscribed_chunks k ≡ none) × (get s.known_revisions k ≡ none))
      ⊎ ((get s.subscribed_chunks k ≡ some tt)
          × ((get s.known_revisions k ≡ some (or_zero (get s.known_revisions k)))
              × (or_zero (get s.known_revisions k) ≤ revision_for w k)))

-- What is known of a chunk after the update, if the chunk is wanted or not.
abbrev pub wanted : Bool → ℕ → Option ℕ → Option ℕ
wanted true revision old = some revision
wanted false revision old = old

known-subscribe :
    (w : WorldReplication) (c : ChunkCoord) (s : PlayerReplicationState) (k : ChunkCoord)
    → IsSynced w s
    → get (subscribe c (revision_for w c) s).known_revisions k
      ≡ wanted (same_coord c k) (revision_for w c) (get s.known_revisions k)
unfolding subscribe
known-subscribe w c s k v =
    ground (arith, v c, get-put s.known_revisions c k (revision_for w c), same_coord_iff c k)

subscribe-IsSynced :
    (w : WorldReplication) (c : ChunkCoord) (s : PlayerReplicationState)
    → IsSynced w s
    → IsSynced w (subscribe c (revision_for w c) s)
unfolding subscribe
subscribe-IsSynced w c s v k = ground (
  arith,
  v c,
  v k,
  get-put s.known_revisions c k (revision_for w c),
  get-put s.subscribed_chunks c k tt,
  same_coord_iff c k,
)

-- The state does not depend on the entries that are collected.
subscribe_all_step :
    (w : WorldReplication) (c : ChunkCoord) (cs : List ChunkCoord) (s : PlayerReplicationState)
    → (subscribe_all w (c ∷ cs) s).0 ≡ (subscribe_all w cs (subscribe c (revision_for w c) s)).0
unfolding subscribe_all
subscribe_all_step w c cs s = ground arith

known-subscribe_all :
    (w : WorldReplication) (cs : List ChunkCoord) (s : PlayerReplicationState) (k : ChunkCoord)
    → IsSynced w s
    → get (subscribe_all w cs s).0.known_revisions k
      ≡ wanted (holds cs k) (revision_for w k) (get s.known_revisions k)
known-subscribe_all w [] s k v = unfold subscribe_all in refl
known-subscribe_all w (c ∷ cs) s k v =
    let t = subscribe c (revision_for w c) s in
    ap (λ (t : PlayerReplicationState). get t.known_revisions k) (subscribe_all_step w c cs s)
    ∙ ground (
      arith,
      known-subscribe_all w cs t k (subscribe-IsSynced w c s v),
      known-subscribe w c s k v,
      same_coord_iff c k,
    )

subscribe_all-IsSynced :
    (w : WorldReplication) (cs : List ChunkCoord) (s : PlayerReplicationState)
    → IsSynced w s
    → IsSynced w (subscribe_all w cs s).0
subscribe_all-IsSynced w [] s v = unfold subscribe_all in v
subscribe_all-IsSynced w (c ∷ cs) s v =
    subst (IsSynced w) (sym (subscribe_all_step w c cs s))
      (subscribe_all-IsSynced w cs (subscribe c (revision_for w c) s) (subscribe-IsSynced w c s v))

pub get-unsubscribe_all :
    (cs : List ChunkCoord) (s : PlayerReplicationState) (k : ChunkCoord)
    → (get (unsubscribe_all cs s).subscribed_chunks k
        ≡ (if holds cs k then none else get s.subscribed_chunks k))
      × (get (unsubscribe_all cs s).known_revisions k
          ≡ (if holds cs k then none else get s.known_revisions k))
unfolding unsubscribe_all
get-unsubscribe_all [] s k = (refl, refl)
get-unsubscribe_all (c ∷ cs) s k = ground (
  arith,
  get-unsubscribe_all cs
      (record {
        subscribed_chunks = erase s.subscribed_chunks c;
        known_revisions = erase s.known_revisions c;
      })
      k,
  get-erase s.subscribed_chunks c k,
  get-erase s.known_revisions c k,
)

-- Exactly the subscribed chunks that are not wanted are removed.
holds-removed_coords :
    (target : List ChunkCoord) (subscribed : CoordSet) (k : ChunkCoord)
    → holds (removed_coords target subscribed) k
      ≡ (if holds target k then false else is_subscribed (get subscribed k))
unfolding get
holds-removed_coords target [] k = ground arith
holds-removed_coords target ((c, u) ∷ subscribed) k =
    ground (arith, holds-removed_coords target subscribed k, same_coord_iff c k)

unsubscribe_all-IsSynced :
    (w : WorldReplication) (cs : List ChunkCoord) (s : PlayerReplicationState)
    → IsSynced w s
    → IsSynced w (unsubscribe_all cs s)
unsubscribe_all-IsSynced w cs s v k = ground (arith, v k, get-unsubscribe_all cs s k)

-- The removals leave what is wanted, and nothing else.
known-unsubscribe_all :
    (w : WorldReplication) (target : List ChunkCoord) (s : PlayerReplicationState) (k : ChunkCoord)
    → IsSynced w s
    → holds target k ≡ false
    → get (unsubscribe_all (removed_coords target s.subscribed_chunks) s).known_revisions k ≡ none
known-unsubscribe_all w target s k v h = ground (
  arith,
  v k,
  h,
  get-unsubscribe_all (removed_coords target s.subscribed_chunks) s k,
  holds-removed_coords target s.subscribed_chunks k,
)

-- What the two loops make of a player's state.
abbrev pub updated :
    WorldReplication → List ChunkCoord → PlayerReplicationState → PlayerReplicationState
updated w target s =
    (subscribe_all w target (unsubscribe_all (removed_coords target s.subscribed_chunks) s)).0

known-updated :
    (w : WorldReplication) (target : List ChunkCoord) (s : PlayerReplicationState) (k : ChunkCoord)
    → IsSynced w s
    → get (updated w target s).known_revisions k
      ≡ (if holds target k then some (revision_for w k) else none)
known-updated w target s k v =
    let cs = removed_coords target s.subscribed_chunks in
    let now =
      known-subscribe_all w target (unsubscribe_all cs s) k (unsubscribe_all-IsSynced w cs s v) in
    elim (Bool-cases (holds target k)) [
      | inl e ↦ ground (arith, now, e)
      | inr e ↦ ground (arith, now, e, known-unsubscribe_all w target s k v e)
    ]

module _ {F : Type 0} ⦃f : Floats F⦄ {C : Type 0} where
  pub state-build_player_update :
      (w : WorldReplication) (player_id : ℕ) (world_x world_z : F) (world : Map ChunkCoord C)
      → player_state (build_player_update w player_id world_x world_z world).0 player_id
        ≡ updated w (gather_relevant_chunks w world_x world_z world) (player_state w player_id)
  unfolding build_player_update
  state-build_player_update w player_id world_x world_z world =
      let s = player_state w player_id in
      let target = gather_relevant_chunks w world_x world_z world in
      rw (get-put w.player_states player_id player_id (updated w target s), eqb_refl player_id) refl

  pub revision-build_player_update :
      (w : WorldReplication) (player_id : ℕ) (world_x world_z : F) (world : Map ChunkCoord C)
      (k : ChunkCoord)
      → revision_for (build_player_update w player_id world_x world_z world).0 k ≡ revision_for w k
  unfolding build_player_update revision_for
  revision-build_player_update w player_id world_x world_z world k = refl

  pub IsSynced-build_player_update :
      (w : WorldReplication) (player_id : ℕ) (world_x world_z : F) (world : Map ChunkCoord C)
      (s : PlayerReplicationState)
      → IsSynced w s
      → IsSynced (build_player_update w player_id world_x world_z world).0 s
  IsSynced-build_player_update w player_id world_x world_z world s v k =
      ground (arith, v k, revision-build_player_update w player_id world_x world_z world k)

  -- For a player whose known revisions belong to its subscribed chunks and are not ahead of the
  -- present ones: after an update the player knows the present revision of each chunk around it and
  -- nothing of any other, and what was required of the player holds again.
  pub player_knows_surroundings :
      (w : WorldReplication) (player_id : ℕ) (world_x world_z : F) (world : Map ChunkCoord C)
      → IsSynced w (player_state w player_id)
      → let v = (build_player_update w player_id world_x world_z world).0 in
        IsSynced v (player_state v player_id)
        × ((k : ChunkCoord)
            → get (player_state v player_id).known_revisions k ≡ (
                if holds (gather_relevant_chunks w world_x world_z world) k
                then some (revision_for v k)
                else none))
  player_knows_surroundings w player_id world_x world_z world v =
      let s = player_state w player_id in
      let target = gather_relevant_chunks w world_x world_z world in
      let n = (build_player_update w player_id world_x world_z world).0 in
      let cs = removed_coords target s.subscribed_chunks in
      let same = state-build_player_update w player_id world_x world_z world in
      let synced : IsSynced w (updated w target s) =
        subscribe_all-IsSynced w target (unsubscribe_all cs s)
          (unsubscribe_all-IsSynced w cs s v) in
      (
        subst (IsSynced n) (sym same) (
            IsSynced-build_player_update w player_id world_x world_z world (updated w target s)
              synced),
        λ k.
            ap (λ (t : PlayerReplicationState). get t.known_revisions k) same
            ∙ known-updated w target s k v
            ∙ ap (λ r. if holds target k then some r else none)
                (sym (revision-build_player_update w player_id world_x world_z world k)),
      )
