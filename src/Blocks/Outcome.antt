-- ===== src/Blocks/Outcome.antt =====
-- What the answers of server/src/BlockInteraction.cpp mean for the world.
use devy_fps.Prelude.{◌≡◌, ◌≢◌, ◌⊎◌, true, some, eqb, if◌then◌else◌, nat_eq}
use devy_fps.Prelude.{not}
use devy_fps.Prelude.Int.{ℤ}
use devy_fps.Blocks.{
  World, block_at, BlockInteractionConfig, applied, BlockUpdateCommand, BlockUpdateOutcome,
  is_valid_block_id,
}
use devy_fps.Blocks.Access.{IsSized, same_point}

-- The change was made: a block went into air or air into a block, at this place only.
pub record IsApplied (config : BlockInteractionConfig) (c : BlockUpdateCommand) (w v : World)
    (o : BlockUpdateOutcome) : Type 0 where
  pub answer : o.status ≡ applied
  pub known : is_valid_block_id config c.block_id ≡ true
  pub before : block_at w c.world_x c.world_y c.world_z ≡ some o.previous_block_id
  pub swaps : eqb c.block_id 0 ≡ not (eqb o.previous_block_id 0)
  pub after :
      (a b d : ℤ)
      → block_at v a b d ≡ (
          if same_point c.world_x c.world_y c.world_z a b d
          then some c.block_id
          else block_at w a b d)
  pub sized : IsSized v

-- Or nothing was.
abbrev pub Answers :
    BlockInteractionConfig → BlockUpdateCommand → World → World × BlockUpdateOutcome → Type 0
Answers config c w r = IsApplied config c w r.0 r.1 ⊎ ((r.1.status ≢ applied) × (r.0 ≡ w))
