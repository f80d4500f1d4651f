-- ===== src/Client/ChunkSync.antt =====
-- client/src/ChunkSyncApplier.cpp and client/include/client/ChunkSyncApplier.h: the chunks that the
-- server has told the client of. With `ensure_generated_chunk` and `remove_chunk` of
-- shared/src/voxel/World.cpp; the blocks that a new chunk is filled with are a function of the
-- maximal height and the coordinates. The null checks on the pointers have no counterpart.
use devy_fps.Prelude.{
  ℕ, ◌+◌, Bool, true, false, ◌||◌, List, [], ◌∷◌, Option, none, some, eqb, if◌then◌else◌, nat_eq,
}
use devy_fps.Prelude.Int.{ℤ, pos, ltb_ℤ, max_ℤ}
use devy_fps.Prelude.Map.{Map, get, put, erase}
use devy_fps.Replication.{ChunkCoord, coord_eq, ChunkRevisionEntry, PlayerWorldUpdate}

pub record ChunkRevision : Type 0 where
  pub coord : ChunkCoord
  pub revision : ℕ

pub record ChunkSyncDelta : Type 0 where
  pub added : List ChunkRevision
  pub removed : List ChunkRevision
  pub deltas : List ChunkRevision

pub record ChunkSyncApplyResult : Type 0 where
  pub changed : Bool
  pub added_or_updated : ℕ
  pub removed : ℕ

-- The world, the revisions that the client knows, and what has been counted so far.
pub record ClientChunks (C : Type 0) : Type 0 where
  pub chunks : Map ChunkCoord C
  pub max_height : ℤ
  pub revisions : Map ChunkCoord ℕ
  pub result : ChunkSyncApplyResult

-- `chunk_revisions_to_json` and `parse_revision`, for entries as the server makes them.
abbrev pub revisions_of : List ChunkRevisionEntry → List ChunkRevision
revisions_of [] = []
revisions_of (e ∷ es) = record { coord = e.coord; revision = e.revision } ∷ revisions_of es

abbrev pub delta_of : PlayerWorldUpdate → ChunkSyncDelta
delta_of u = record {
  added = revisions_of u.added;
  removed = revisions_of u.removed;
  deltas = revisions_of u.deltas;
}

abbrev pub is_some {ℓ} : {A : Type ℓ} → Option A → Bool
is_some none = false
is_some (some a) = true

abbrev pub is_revision : Option ℕ → ℕ → Bool
is_revision none r = false
is_revision (some s) r = eqb s r

module _ {C : Type 0} where
  unfoldable pub remove_one : ClientChunks C → ChunkRevision → ClientChunks C
  remove_one w e = record {
    chunks = erase w.chunks e.coord;
    max_height = w.max_height;
    revisions = erase w.revisions e.coord;
    result =
        if is_some (get w.chunks e.coord) || is_some (get w.revisions e.coord)
        then record w.result { changed = true; removed = w.result.removed + 1 }
        else w.result;
  }

  unfoldable pub remove_all : List ChunkRevision → ClientChunks C → ClientChunks C
  unfolding remove_one
  remove_all [] w = w
  remove_all (e ∷ es) w = remove_all es (remove_one w e)

  module _ (make : ℤ → ChunkCoord → C) where
    -- A chunk that is there stays as it is.
    unfoldable pub ensure_generated_chunk : ClientChunks C → ChunkCoord → ℤ → ClientChunks C
    ensure_generated_chunk w c height =
        let top = if ltb_ℤ (pos 0) height then max_ℤ w.max_height height else w.max_height in
        elim (get w.chunks c) [
          | some chunk ↦ record w { max_height = top }
          | none ↦ record w { max_height = top; chunks = put w.chunks c (make top c) }
        ]

    unfoldable pub apply_one : ℤ → ClientChunks C → ChunkRevision → ClientChunks C
    unfolding ensure_generated_chunk
    apply_one height w e =
        if is_revision (get w.revisions e.coord) e.revision
        then w
        else record (ensure_generated_chunk w e.coord height) {
          revisions = put w.revisions e.coord e.revision;
          result = record w.result {
            changed = true;
            added_or_updated = w.result.added_or_updated + 1;
          };
        }

    unfoldable pub apply_added_like : ℤ → List ChunkRevision → ClientChunks C → ClientChunks C
    unfolding apply_one
    apply_added_like height [] w = w
    apply_added_like height (e ∷ es) w = apply_added_like height es (apply_one height w e)

    unfoldable pub apply_chunk_sync : ℤ → ChunkSyncDelta → ClientChunks C → ClientChunks C
    unfolding remove_all apply_added_like
    apply_chunk_sync height delta w = apply_added_like height delta.deltas (
        apply_added_like height delta.added (
          remove_all delta.removed
            (record w { result = record { changed = false; added_or_updated = 0; removed = 0 } })))
