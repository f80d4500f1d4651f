-- ===== src/Blocks.antt =====
-- server/src/BlockInteraction.cpp and server/include/server/BlockInteraction.h: which block changes the
-- server accepts. With the block access of shared/src/voxel/World.cpp and shared/src/voxel/Chunk.cpp
-- that it stands on. World.h declares its own `ChunkCoord`, with the members of that of
-- WorldReplication.h. Inside a chunk no coordinate is negative here, since
-- `world_to_chunk_local` makes them.
pub mod Access
pub mod Outcome
mod Tests
use devy_fps.Prelude.{
  ℕ, zero, suc, ◌+◌, ◌-◌, ◌*◌, ◌/◌, ◌%◌, ◌≤◌, ◌<◌, ◌≡◌, ◌≢◌, ◌⊎◌, ◌↔◌, ◌∙◌, inl, inr, refl, sym, ap,
  subst, Bool, true, false, ◌&&◌, ◌||◌, List, [], ◌∷◌, ◌++◌, Option, none, some, ltb, leb, eqb,
  if◌then◌else◌, u64, sub64, last?, length, length-append, All, All-append, nat_eq, arith,
  Bool-cases, Option-cases, eqb_refl, eqb_iff, select,
}
use devy_fps.Prelude.{get_elem?, set, replicate, not}
use devy_fps.Prelude.Int.{ℤ, pos, negsuc, pos_part}
use devy_fps.Prelude.Map.{Map, get, put, erase}
use devy_fps.Prelude.Ids.{contains}
use devy_fps.Replication.{ChunkCoord, coord_eq}

-- Chunk::blocks_
pub record Chunk : Type 0 where
  pub blocks : List ℕ

pub record World : Type 0 where
  pub chunks : Map ChunkCoord Chunk

unfoldable pub empty_chunk : Chunk
empty_chunk = record { blocks = replicate 32768 0 }

unfoldable pub index : ℕ → ℕ → ℕ → ℕ
index x y z = x + y * 32 + z * 1024

unfoldable pub is_inside : ℕ → ℕ → ℕ → Bool
is_inside x y z = ltb x 32 && (ltb y 32 && ltb z 32)

abbrev pub or_air : Option ℕ → ℕ
or_air none = 0
or_air (some id) = id

unfoldable pub get_block : Chunk → ℕ → ℕ → ℕ → ℕ
unfolding index is_inside
get_block c x y z = if is_inside x y z then or_air (get_elem? c.blocks (index x y z)) else 0

unfoldable pub set_in_chunk : Chunk → ℕ → ℕ → ℕ → ℕ → Chunk
unfolding index is_inside
set_in_chunk c x y z id =
    if is_inside x y z then record { blocks = set c.blocks (index x y z) id } else c

-- A place in the world: the chunk, and the place in it.
pub record Place : Type 0 where
  pub chunk_x : ℕ
  pub chunk_y : ℕ
  pub chunk_z : ℕ
  pub local_x : ℕ
  pub local_y : ℕ
  pub local_z : ℕ

-- `world_to_chunk_local`, for the three axes: none is negative.
unfoldable pub place_of : ℤ → ℤ → ℤ → Option Place
place_of (pos x) (pos y) (pos z) = some (record {
  chunk_x = x / 32;
  chunk_y = y / 32;
  chunk_z = z / 32;
  local_x = x % 32;
  local_y = y % 32;
  local_z = z % 32;
})
place_of _ _ _ = none

abbrev pub coord_of : Place → ChunkCoord
coord_of p = record { x = pos p.chunk_x; y = pos p.chunk_y; z = pos p.chunk_z }

abbrev pub block_in : Option Chunk → Place → Option ℕ
block_in none p = none
block_in (some c) p = some (get_block c p.local_x p.local_y p.local_z)

abbrev pub block_at_place : World → Option Place → Option ℕ
block_at_place w none = none
block_at_place w (some p) = block_in (get w.chunks (coord_of p)) p

unfoldable pub block_at : World → ℤ → ℤ → ℤ → Option ℕ
unfolding get_block place_of
block_at w x y z = block_at_place w (place_of x y z)

abbrev pub set_in : World → Place → ℕ → Option Chunk → Option World
set_in w p id none = none
set_in w p id (some c) = some (record {
  chunks = put w.chunks (coord_of p) (set_in_chunk c p.local_x p.local_y p.local_z id);
})

abbrev pub set_at_place : World → Option Place → ℕ → Option World
set_at_place w none id = none
set_at_place w (some p) id = set_in w p id (get w.chunks (coord_of p))

-- `none` where the source returns false.
unfoldable pub set_block : World → ℤ → ℤ → ℤ → ℕ → Option World
unfolding set_in_chunk place_of
set_block w x y z id = set_at_place w (place_of x y z) id

pub record BlockInteractionConfig : Type 0 where
  pub valid_block_ids : List ℕ

pub data BlockUpdateStatus : Type 0 where
  applied out_of_bounds invalid_block_id conflict_already_empty conflict_already_occupied
        no_change :
      BlockUpdateStatus

pub record BlockUpdateCommand : Type 0 where
  pub player_id : ℕ
  pub world_x : ℤ
  pub world_y : ℤ
  pub world_z : ℤ
  pub block_id : ℕ

pub record BlockUpdateOutcome : Type 0 where
  pub status : BlockUpdateStatus
  pub previous_block_id : ℕ
  pub chunk_x : ℕ
  pub chunk_y : ℕ
  pub chunk_z : ℕ

unfoldable pub sanitize_config : BlockInteractionConfig → BlockInteractionConfig
sanitize_config c = record {
  valid_block_ids =
      if eqb (length c.valid_block_ids) 0
      then 0 ∷ 1 ∷ 2 ∷ 3 ∷ []
      else if contains c.valid_block_ids 0
      then c.valid_block_ids
      else 0 ∷ c.valid_block_ids;
}

unfoldable pub is_valid_block_id : BlockInteractionConfig → ℕ → Bool
is_valid_block_id c id = contains c.valid_block_ids id

abbrev pub refused : BlockUpdateStatus → ℕ → BlockUpdateOutcome
refused status previous = record {
  status = status;
  previous_block_id = previous;
  chunk_x = 0;
  chunk_y = 0;
  chunk_z = 0;
}

-- The end of `apply`: the block is written, and the chunk is named.
abbrev pub write : World → BlockUpdateCommand → ℕ → Option World → World × BlockUpdateOutcome
write w c previous none = (w, refused out_of_bounds previous)
write w c previous (some v) = (
  v,
  record {
    status = applied;
    previous_block_id = previous;
    chunk_x = pos_part c.world_x / 32;
    chunk_y = pos_part c.world_y / 32;
    chunk_z = pos_part c.world_z / 32;
  },
)

-- The tests on the block that is there.
unfoldable pub replace : World → BlockUpdateCommand → ℕ → World × BlockUpdateOutcome
unfolding set_block
replace w c previous =
    if eqb c.block_id 0 && eqb previous 0
    then (w, refused conflict_already_empty previous)
    else if not (eqb c.block_id 0) && not (eqb previous 0)
    then (if eqb previous c.block_id
        then (w, refused no_change previous)
        else (w, refused conflict_already_occupied previous))
    else write w c previous (set_block w c.world_x c.world_y c.world_z c.block_id)

unfoldable pub apply :
    BlockInteractionConfig → BlockUpdateCommand → World → World × BlockUpdateOutcome
unfolding is_valid_block_id block_at replace
apply config c w =
    if is_valid_block_id config c.block_id
    then (elim (block_at w c.world_x c.world_y c.world_z) [
      | none ↦ (w, refused out_of_bounds 0)
      | some previous ↦ replace w c previous
    ])
    else (w, refused invalid_block_id 0)
