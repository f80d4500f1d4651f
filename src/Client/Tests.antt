-- ===== src/Client/Tests.antt =====
-- A client of a small world, over a `float` that holds whole numbers only.
use devy_fps.Prelude.{ℕ, ◌≡◌, List, [], ◌∷◌, none, some, if◌then◌else◌, nat_eq, arith}
use devy_fps.Prelude.Int.{ℤ, pos}
use devy_fps.Prelude.Whole.{whole}
use devy_fps.Prelude.Map.{Map, get}
use devy_fps.Replication.{
  ChunkCoord, coord_eq, ReplicationConfig, new, revision_for, gather_relevant_chunks,
}
use devy_fps.Replication.Update.{holds}
use devy_fps.Client.ChunkSync.{is_some}
use devy_fps.Client.Exchange.{exchange}
use devy_fps.Client.Convergence.{Event, marked, updated_player, empty_chunks, run, client_converges}

abbrev config : ReplicationConfig
config = record {
  chunks_x = pos 2;
  chunks_y = pos 1;
  chunks_z = pos 1;
  interest_radius_chunks = pos 0;
}

abbrev chunk_at : ℕ → ChunkCoord
chunk_at x = record { x = pos x; y = pos 0; z = pos 0 }

abbrev world : Map ChunkCoord ℕ
world = (chunk_at 0, 0) ∷ (chunk_at 1, 0) ∷ []

-- The terrain of a new chunk.
abbrev flat_terrain : ℤ → ChunkCoord → ℕ
flat_terrain height c = 0

abbrev events : List (Event ℤ ℕ)
events =
    marked (chunk_at 0)
    ∷ updated_player 7 (pos 40) (pos 5) world
    ∷ updated_player 8 (pos 3) (pos 5) world
    ∷ marked (chunk_at 1)
    ∷ []

client_converges_example :
    let before = run flat_terrain (pos 32) 7 events (new config, empty_chunks) in
    let after = exchange flat_terrain (pos 32) 7 (pos 3) (pos 5) world before.0 before.1 in
    (get after.1.revisions (chunk_at 0) ≡ (
      if holds (gather_relevant_chunks before.0 (pos 3) (pos 5) world) (chunk_at 0)
      then some (revision_for after.0 (chunk_at 0))
      else none))
    × (is_some (get after.1.chunks (chunk_at 0))
        ≡ holds (gather_relevant_chunks before.0 (pos 3) (pos 5) world) (chunk_at 0))
client_converges_example =
    client_converges flat_terrain (pos 32) 7 config events (pos 3) (pos 5) world (omega arith)
      (chunk_at 0)
