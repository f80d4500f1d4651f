-- ===== src/Replication/Update.antt =====
-- `WorldReplication::build_player_update` of server/src/WorldReplication.cpp.
use devy_fps.Prelude.{
  ℕ, Bool, true, false, ◌||◌, List, [], ◌∷◌, Option, none, some, ltb, if◌then◌else◌, nat_eq,
}
use devy_fps.Prelude.Floats.{Floats}
use devy_fps.Prelude.Map.{Map, get, put, erase}
use devy_fps.Prelude.Sort.{sort}
use devy_fps.Replication.{
  ChunkCoord, coord_eq, same_coord, ChunkRevisionEntry, PlayerWorldUpdate, CoordSet,
  PlayerReplicationState, WorldReplication, or_zero, revision_for, chunk_entry_less,
  gather_relevant_chunks,
}

abbrev pub holds : List ChunkCoord → ChunkCoord → Bool
holds [] k = false
holds (c ∷ cs) k = same_coord c k || holds cs k

-- The subscribed chunks that are not in the target.
abbrev pub removed_coords : List ChunkCoord → CoordSet → List ChunkCoord
removed_coords target [] = []
removed_coords target ((c, u) ∷ subscribed) =
    let rest = removed_coords target subscribed in if holds target c then rest else c ∷ rest

abbrev pub entries_zero : List ChunkCoord → List ChunkRevisionEntry
entries_zero [] = []
entries_zero (c ∷ cs) = record { coord = c; revision = 0 } ∷ entries_zero cs

-- The loop over the removed chunks.
unfoldable pub unsubscribe_all : List ChunkCoord → PlayerReplicationState → PlayerReplicationState
unsubscribe_all [] s = s
unsubscribe_all (c ∷ cs) s = unsubscribe_all cs (record {
  subscribed_chunks = erase s.subscribed_chunks c;
  known_revisions = erase s.known_revisions c;
})

abbrev pub is_subscribed : Option (Unit {0}) → Bool
is_subscribed none = false
is_subscribed (some u) = true

-- What the loop over the target chunks does with one of them, in the given revision.
unfoldable pub subscribe : ChunkCoord → ℕ → PlayerReplicationState → PlayerReplicationState
subscribe c revision s =
    if is_subscribed (get s.subscribed_chunks c)
    then (if ltb (or_zero (get s.known_revisions c)) revision
        then record s { known_revisions = put s.known_revisions c revision }
        else s)
    else record {
      subscribed_chunks = put s.subscribed_chunks c tt;
      known_revisions = put s.known_revisions c revision;
    }

-- The loop, with the entries that it adds and those that have changed.
unfoldable pub subscribe_all :
    WorldReplication
    → List ChunkCoord
    → PlayerReplicationState
    → PlayerReplicationState × List ChunkRevisionEntry × List ChunkRevisionEntry
unfolding subscribe revision_for
subscribe_all w [] s = (s, [], [])
subscribe_all w (c ∷ cs) s =
    let revision = revision_for w c in
    let entry : ChunkRevisionEntry = record { coord = c; revision = revision } in
    let rest = subscribe_all w cs (subscribe c revision s) in
    if is_subscribed (get s.subscribed_chunks c)
    then (if ltb (or_zero (get s.known_revisions c)) revision
        then (rest.0, rest.1, entry ∷ rest.2)
        else rest)
    else (rest.0, entry ∷ rest.1, rest.2)

abbrev pub state_or_new : Option PlayerReplicationState → PlayerReplicationState
state_or_new none = record { subscribed_chunks = []; known_revisions = [] }
state_or_new (some s) = s

abbrev pub player_state : WorldReplication → ℕ → PlayerReplicationState
player_state w player_id = state_or_new (get w.player_states player_id)

module _ {F : Type 0} ⦃f : Floats F⦄ where
  unfoldable pub build_player_update :
      {C : Type 0}
      → WorldReplication
      → ℕ
      → F
      → F
      → Map ChunkCoord C
      → WorldReplication × PlayerWorldUpdate
  unfolding unsubscribe_all subscribe_all gather_relevant_chunks chunk_entry_less
  build_player_update w player_id world_x world_z world =
      let s = player_state w player_id in
      let target = gather_relevant_chunks w world_x world_z world in
      let removed = removed_coords target s.subscribed_chunks in
      let (t, added, deltas) = subscribe_all w target (unsubscribe_all removed s) in
      (
        record w { player_states = put w.player_states player_id t },
        record {
          player_id = player_id;
          added = sort chunk_entry_less added;
          removed = sort chunk_entry_less (entries_zero removed);
          deltas = sort chunk_entry_less deltas;
        },
      )
