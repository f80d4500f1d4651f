-- ===== src/Blocks/Tests.antt =====
-- A block that is placed in a world of one empty chunk.
use devy_fps.Prelude.{[], nat_eq}
use devy_fps.Prelude.Int.{pos}
use devy_fps.Prelude.Map.{put}
use devy_fps.Replication.{ChunkCoord, coord_eq}
use devy_fps.Blocks.{
  World, empty_chunk, BlockInteractionConfig, sanitize_config, BlockUpdateCommand,
}

abbrev origin : ChunkCoord
origin = record { x = pos 0; y = pos 0; z = pos 0 }

abbrev world : World
world = record { chunks = put [] origin empty_chunk }

abbrev config : BlockInteractionConfig
config = sanitize_config (record { valid_block_ids = [] })

abbrev command : BlockUpdateCommand
command = record { player_id = 1; world_x = pos 3; world_y = pos 4; world_z = pos 5; block_id = 2 }
