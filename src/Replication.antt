-- ===== src/Replication.antt =====
-- server/src/WorldReplication.cpp and server/include/server/WorldReplication.h: which chunks of the
-- world a player is told of, and in which revision. Of the world, replication only asks whether it has
-- a chunk. The coordinates' sums and squares are exact, where the source's overflow is undefined. The
-- hash function has no entry: a table's order is that of its list.
pub mod Update
pub mod Synced
mod Tests
use devy_fps.Prelude.{
  ℕ, zero, suc, ◌+◌, ◌-◌, ◌*◌, ◌/◌, ◌%◌, ◌≤◌, ◌<◌, ◌≡◌, ◌≢◌, ◌⊎◌, ◌↔◌, ◌∙◌, inl, inr, refl, sym, ap,
  subst, Bool, true, false, ◌&&◌, ◌||◌, List, [], ◌∷◌, ◌++◌, Option, none, some, ltb, leb, eqb,
  if◌then◌else◌, u64, sub64, last?, length, length-append, All, All-append, nat_eq, arith,
  Bool-cases, Option-cases, eqb_refl, eqb_iff, select,
}
use devy_fps.Prelude.{KeyEq, not, u32, map}
use devy_fps.Prelude.Int.{ℤ, pos, pos_part, sub_ℕ, ltb_ℤ, eqb_ℤ, eq_of_parts, ◌+ℤ◌, ◌-ℤ◌, ◌*ℤ◌}
use devy_fps.Prelude.Floats.{Floats}
use devy_fps.Prelude.Map.{Map, get, put, erase}
use devy_fps.Prelude.Sort.{sort}

pub record ChunkCoord : Type 0 where
  pub x : ℤ
  pub y : ℤ
  pub z : ℤ

abbrev pub same_coord : ChunkCoord → ChunkCoord → Bool
same_coord a b = eqb_ℤ a.x b.x && (eqb_ℤ a.y b.y && eqb_ℤ a.z b.z)

pub same_coord_iff : (a b : ChunkCoord) → same_coord a b ≡ true ↔ a ≡ b
same_coord_iff a b = (λ h. ground arith, λ e. ground (arith, e))

instance abbrev pub coord_eq : KeyEq ChunkCoord
coord_eq = record { same_key = same_coord; same_key_iff = same_coord_iff }

pub record ReplicationConfig : Type 0 where
  pub chunks_x : ℤ
  pub chunks_y : ℤ
  pub chunks_z : ℤ
  pub interest_radius_chunks : ℤ

pub record ChunkRevisionEntry : Type 0 where
  pub coord : ChunkCoord
  pub revision : ℕ

pub record PlayerWorldUpdate : Type 0 where
  pub player_id : ℕ
  pub added : List ChunkRevisionEntry
  pub removed : List ChunkRevisionEntry
  pub deltas : List ChunkRevisionEntry

-- A set of coordinates is a map to the unit type.
abbrev pub CoordSet : Type 0
CoordSet = Map ChunkCoord (Unit {0})

pub record PlayerReplicationState : Type 0 where
  pub subscribed_chunks : CoordSet
  pub known_revisions : Map ChunkCoord ℕ

pub record WorldReplication : Type 0 where
  pub config : ReplicationConfig
  pub player_states : Map ℕ PlayerReplicationState
  pub chunk_revisions : Map ChunkCoord ℕ

unfoldable pub sanitize_config : ReplicationConfig → ReplicationConfig
sanitize_config c = record {
  chunks_x = if ltb_ℤ (pos 0) c.chunks_x then c.chunks_x else pos 64;
  chunks_y = if ltb_ℤ (pos 0) c.chunks_y then c.chunks_y else pos 8;
  chunks_z = if ltb_ℤ (pos 0) c.chunks_z then c.chunks_z else pos 64;
  interest_radius_chunks =
      if ltb_ℤ c.interest_radius_chunks (pos 0) then pos 2 else c.interest_radius_chunks;
}

unfoldable pub new : ReplicationConfig → WorldReplication
unfolding sanitize_config
new config = record { config = sanitize_config config; player_states = []; chunk_revisions = [] }

unfoldable pub reset : WorldReplication → WorldReplication
reset w = record w { player_states = []; chunk_revisions = [] }

unfoldable pub remove_player : WorldReplication → ℕ → WorldReplication
remove_player w player_id = record w { player_states = erase w.player_states player_id }

abbrev pub next_revision : Option ℕ → ℕ
next_revision none = 1
next_revision (some r) = u32 (r + 1)

unfoldable pub mark_chunk_dirty : WorldReplication → ChunkCoord → WorldReplication
mark_chunk_dirty w coord = record w {
  chunk_revisions = put w.chunk_revisions coord (next_revision (get w.chunk_revisions coord));
}

abbrev pub or_zero : Option ℕ → ℕ
or_zero none = 0
or_zero (some r) = r

unfoldable pub revision_for : WorldReplication → ChunkCoord → ℕ
revision_for w coord = or_zero (get w.chunk_revisions coord)

unfoldable pub chunk_coord_less : ChunkCoord → ChunkCoord → Bool
chunk_coord_less a b =
    if eqb_ℤ a.x b.x
    then (if eqb_ℤ a.z b.z then ltb_ℤ a.y b.y else ltb_ℤ a.z b.z)
    else ltb_ℤ a.x b.x

unfoldable pub chunk_entry_less : ChunkRevisionEntry → ChunkRevisionEntry → Bool
unfolding chunk_coord_less
chunk_entry_less a b = chunk_coord_less a.coord b.coord

-- std::clamp(value, 0, std::max(0, count - 1))
abbrev pub clamp_index : ℤ → ℤ → ℤ
clamp_index value count =
    let high = pos (pos_part (count -ℤ pos 1)) in
    if ltb_ℤ value (pos 0) then pos 0 else if ltb_ℤ high value then high else value

-- The numbers below `n`.
abbrev pub below : ℕ → List ℕ
below zero = []
below (suc n) = below n ++ n ∷ []

-- for (int cy = 0; cy < chunks_y; ++cy)
unfoldable pub column : {C : Type 0} → Map ChunkCoord C → ℤ → ℤ → List ℕ → List ChunkCoord
column world cx cz [] = []
column world cx cz (cy ∷ cys) =
    let rest = column world cx cz cys in
    let coord : ChunkCoord = record { x = cx; y = pos cy; z = cz } in
    elim (get world coord) [ none ↦ rest | some chunk ↦ coord ∷ rest ]

-- The column at an offset from the centre, if it is in the circle and in the world.
unfoldable pub column_at :
    {C : Type 0} → ReplicationConfig → Map ChunkCoord C → ℤ → ℤ → ℤ → ℤ → List ChunkCoord
unfolding column
column_at c world center_x center_z dx dz =
    let radius = c.interest_radius_chunks in
    let cx = center_x +ℤ dx in
    let cz = center_z +ℤ dz in
    if ltb_ℤ (radius *ℤ radius) (dx *ℤ dx +ℤ dz *ℤ dz)
    then []
    else if ltb_ℤ cx (pos 0)
        || not (ltb_ℤ cx c.chunks_x)
        || ltb_ℤ cz (pos 0)
        || not (ltb_ℤ cz c.chunks_z)
    then []
    else column world cx cz (below (pos_part c.chunks_y))

-- The offsets from -radius to radius.
abbrev pub offsets : ℤ → List ℤ
offsets radius = map (λ i. sub_ℕ i (pos_part radius)) (below (2 * pos_part radius + 1))

-- The inner loop, over `dx`.
unfoldable pub row :
    {C : Type 0} → ReplicationConfig → Map ChunkCoord C → ℤ → ℤ → ℤ → List ℤ → List ChunkCoord
unfolding column_at
row c world center_x center_z dz [] = []
row c world center_x center_z dz (dx ∷ dxs) =
    column_at c world center_x center_z dx dz ++ row c world center_x center_z dz dxs

-- The outer loop, over `dz`.
unfoldable pub rows :
    {C : Type 0} → ReplicationConfig → Map ChunkCoord C → ℤ → ℤ → List ℤ → List ChunkCoord
unfolding row
rows c world center_x center_z [] = []
rows c world center_x center_z (dz ∷ dzs) =
    row c world center_x center_z dz (offsets c.interest_radius_chunks)
    ++ rows c world center_x center_z dzs

module _ {F : Type 0} ⦃f : Floats F⦄ where
  unfoldable pub floor_div_chunk : F → ℤ
  floor_div_chunk world_axis =
      if f.is_finite world_axis
      then f.floor_to_int (f.divide world_axis (f.of_int (pos 32)))
      else pos 0

  unfoldable pub gather_relevant_chunks :
      {C : Type 0} → WorldReplication → F → F → Map ChunkCoord C → List ChunkCoord
  unfolding floor_div_chunk rows chunk_coord_less
  gather_relevant_chunks w world_x world_z world =
      let c = w.config in
      if not (ltb_ℤ (pos 0) c.chunks_x)
        || not (ltb_ℤ (pos 0) c.chunks_y)
        || not (ltb_ℤ (pos 0) c.chunks_z)
      then []
      else sort chunk_coord_less (
          rows c world (clamp_index (floor_div_chunk world_x) c.chunks_x)
            (clamp_index (floor_div_chunk world_z) c.chunks_z) (offsets c.interest_radius_chunks))
