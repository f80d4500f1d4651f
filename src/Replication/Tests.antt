-- ===== src/Replication/Tests.antt =====
-- A player in a small world, over a `float` that holds whole numbers only.
use devy_fps.Prelude.{ℕ, ◌≡◌, inl, refl, [], ◌∷◌, none, some, if◌then◌else◌, nat_eq}
use devy_fps.Prelude.Int.{pos}
use devy_fps.Prelude.Whole.{whole}
use devy_fps.Prelude.Map.{Map, get}
use devy_fps.Prelude.Sort.{sort}
use devy_fps.Replication.{
  ChunkCoord, coord_eq, ReplicationConfig, WorldReplication, new, mark_chunk_dirty, revision_for,
  gather_relevant_chunks,
}
use devy_fps.Replication.Update.{holds, player_state, build_player_update}
use devy_fps.Replication.Synced.{IsSynced, player_knows_surroundings}

abbrev config : ReplicationConfig
config = record {
  chunks_x = pos 2;
  chunks_y = pos 1;
  chunks_z = pos 1;
  interest_radius_chunks = pos 0;
}

abbrev chunk_at : ℕ → ChunkCoord
chunk_at x = record { x = pos x; y = pos 0; z = pos 0 }

-- A world of two chunks.
abbrev world : Map ChunkCoord ℕ
world = (chunk_at 0, 0) ∷ (chunk_at 1, 0) ∷ []

abbrev dirty : WorldReplication
dirty = mark_chunk_dirty (new config) (chunk_at 0)

dirty-IsSynced : IsSynced dirty (player_state dirty 7)
unfolding get new mark_chunk_dirty
dirty-IsSynced = λ k. inl (refl, refl)

player_knows_surroundings_example :
    let v = (build_player_update dirty 7 (pos 40) (pos 5) world).0 in
    IsSynced v (player_state v 7)
    × ((k : ChunkCoord)
        → get (player_state v 7).known_revisions k ≡ (
            if holds (gather_relevant_chunks dirty (pos 40) (pos 5) world) k
            then some (revision_for v k)
            else none))
player_knows_surroundings_example =
    player_knows_surroundings dirty 7 (pos 40) (pos 5) world dirty-IsSynced

second_chunk_is_near : gather_relevant_chunks dirty (pos 40) (pos 5) world ≡ chunk_at 1 ∷ []
unfolding new mark_chunk_dirty gather_relevant_chunks get sort whole
second_chunk_is_near = refl
