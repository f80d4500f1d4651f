-- ===== src/Blocks/Access.antt =====
-- Reading and writing blocks across the chunks of shared/src/voxel/World.cpp.
use devy_fps.Prelude.{
  ℕ, ◌/◌, ◌%◌, ◌<◌, ◌≡◌, ◌≢◌, ◌∙◌, inl, inr, refl, sym, ap, subst, Bool, true, false, ◌&&◌, some,
  eqb, if◌then◌else◌, length, nat_eq, arith, Bool-cases, Option-cases,
}
use devy_fps.Prelude.{get_elem?, set, length-set, get_elem?-set_self, get_elem?-set_ne}
use devy_fps.Prelude.Int.{ℤ, pos, negsuc, eqb_ℤ}
use devy_fps.Prelude.Map.{get, put, get-put, Every, Every-put}
use devy_fps.Replication.{coord_eq, same_coord, same_coord_iff}
use devy_fps.Blocks.{
  Chunk, World, index, is_inside, or_air, get_block, set_in_chunk, Place, place_of, coord_of,
  block_in, block_at, set_at_place, set_block,
}

-- Every chunk has as many blocks as its array.
abbrev pub IsSized : World → Type 0
IsSized w = Every (λ k (c : Chunk). length c.blocks ≡ 32768) w.chunks

-- A place whose local coordinates are inside a chunk, as those of `place_of` are.
abbrev IsLocal : Place → Type 0
IsLocal p = (p.local_x < 32) × (p.local_y < 32) × (p.local_z < 32)

abbrev same_local : Place → Place → Bool
same_local p q = eqb p.local_x q.local_x && (eqb p.local_y q.local_y && eqb p.local_z q.local_z)

index_apart :
    (p q : Place)
    → IsLocal p
    → IsLocal q
    → same_local p q ≡ false
    → index p.local_x p.local_y p.local_z ≢ index q.local_x q.local_y q.local_z
unfolding index
index_apart p q l k h e = ground (arith, l, k, h, e)

index_inside : (p : Place) (n : ℕ) → IsLocal p → n ≡ 32768 → index p.local_x p.local_y p.local_z < n
unfolding index
index_inside p n l h = ground (arith, l, h)

is_inside-IsLocal : (p : Place) → IsLocal p → is_inside p.local_x p.local_y p.local_z ≡ true
unfolding is_inside
is_inside-IsLocal p l = ground (arith, l)

same_index :
    (p q : Place)
    → same_local p q ≡ true
    → index p.local_x p.local_y p.local_z ≡ index q.local_x q.local_y q.local_z
unfolding index
same_index p q e = ground (arith, e)

get_block-set_in_chunk :
    (c : Chunk) (p q : Place) (id : ℕ)
    → length c.blocks ≡ 32768
    → IsLocal p
    → IsLocal q
    → get_block (set_in_chunk c p.local_x p.local_y p.local_z id) q.local_x q.local_y q.local_z
      ≡ (if same_local p q then id else get_block c q.local_x q.local_y q.local_z)
unfolding get_block set_in_chunk
get_block-set_in_chunk c p q id sized l k =
    let i = index p.local_x p.local_y p.local_z in
    let j = index q.local_x q.local_y q.local_z in
    elim (Bool-cases (same_local p q)) [
      | inl e ↦
          let there : i ≡ j = same_index p q e in
          rw (is_inside-IsLocal p l, is_inside-IsLocal q k, e)
            (ap or_air (
              sym (ap (get_elem? (set c.blocks i id)) there)
              ∙ get_elem?-set_self c.blocks i id (index_inside p (length c.blocks) l sized)))
      | inr e ↦
          rw (is_inside-IsLocal p l, is_inside-IsLocal q k, e)
            (ap or_air (get_elem?-set_ne c.blocks i j id (index_apart p q l k e)))
    ]

set_in_chunk-sized :
    (c : Chunk) (p : Place) (id : ℕ)
    → length c.blocks ≡ 32768
    → length (set_in_chunk c p.local_x p.local_y p.local_z id).blocks ≡ 32768
unfolding set_in_chunk
set_in_chunk-sized c p id h =
    ground (arith, h, length-set c.blocks (index p.local_x p.local_y p.local_z) id)

axis_same :
    (x a : ℕ)
    → (eqb_ℤ (pos (x / 32)) (pos (a / 32)) && eqb (x % 32) (a % 32)) ≡ eqb_ℤ (pos x) (pos a)
axis_same x a = ground arith

and_pairs :
    (a b c d e g : Bool) → (a && (b && c)) && (d && (e && g)) ≡ (a && d) && ((b && e) && (c && g))
and_pairs a b c d e g = ground arith

abbrev place_at : ℕ → ℕ → ℕ → Place
place_at x y z = record {
  chunk_x = x / 32;
  chunk_y = y / 32;
  chunk_z = z / 32;
  local_x = x % 32;
  local_y = y % 32;
  local_z = z % 32;
}

-- Two points are the same one if they are in the same chunk at the same place.
place-same :
    (x y z a b c : ℕ)
    → (same_coord (coord_of (place_at x y z)) (coord_of (place_at a b c))
        && same_local (place_at x y z) (place_at a b c))
      ≡ (eqb_ℤ (pos x) (pos a) && (eqb_ℤ (pos y) (pos b) && eqb_ℤ (pos z) (pos c)))
place-same x y z a b c =
    and_pairs (eqb_ℤ (pos (x / 32)) (pos (a / 32))) (eqb_ℤ (pos (y / 32)) (pos (b / 32)))
      (eqb_ℤ (pos (z / 32)) (pos (c / 32))) (eqb (x % 32) (a % 32)) (eqb (y % 32) (b % 32))
      (eqb (z % 32) (c % 32))
    ∙ rw (axis_same x a, axis_same y b, axis_same z c) refl

place_at-IsLocal : (x y z : ℕ) → IsLocal (place_at x y z)
place_at-IsLocal x y z = (omega arith, omega arith, omega arith)

some_if : (b : Bool) (x y : ℕ) → some (if b then x else y) ≡ (if b then some x else some y)
some_if b x y = ground arith

block_in-put :
    (w : World) (p q : Place) (c : Chunk) (id : ℕ)
    → get w.chunks (coord_of p) ≡ some c
    → length c.blocks ≡ 32768
    → IsLocal p
    → IsLocal q
    → block_in
        (get
          (put w.chunks (coord_of p) (set_in_chunk c p.local_x p.local_y p.local_z id))
          (coord_of q))
        q
      ≡ (if same_coord (coord_of p) (coord_of q) && same_local p q
          then some id
          else block_in (get w.chunks (coord_of q)) q)
block_in-put w p q c id found sized l k =
    let now =
      get-put w.chunks (coord_of p) (coord_of q)
        (set_in_chunk c p.local_x p.local_y p.local_z id) in
    elim (Bool-cases (same_coord (coord_of p) (coord_of q))) [
      | inl e ↦
          let here : get w.chunks (coord_of q) ≡ some c =
            sym (ap (get w.chunks) ((same_coord_iff (coord_of p) (coord_of q)).0 e)) ∙ found in
          rw (now, e, here)
            (ap some (get_block-set_in_chunk c p q id sized l k) ∙ some_if (same_local p q) id _)
      | inr e ↦ rw (now, e) refl
    ]

-- What `set_block` does at any place: the block that was set, and every other as it was.
abbrev pub same_point : ℤ → ℤ → ℤ → ℤ → ℤ → ℤ → Bool
same_point x y z a b c = eqb_ℤ x a && (eqb_ℤ y b && eqb_ℤ z c)

-- Where `set_block` writes.
set_at_place-some :
    (w v : World) (p : Place) (id : ℕ)
    → set_at_place w (some p) id ≡ some v
    → (c : Chunk) × ((get w.chunks (coord_of p) ≡ some c)
        × (v ≡ record {
          chunks = put w.chunks (coord_of p) (set_in_chunk c p.local_x p.local_y p.local_z id);
        }))
set_at_place-some w v p id h = elim (Option-cases (get w.chunks (coord_of p))) [
  | inl e ↦ absurd ground (arith, h, e)
  | inr (c, e) ↦ (c, (e, ground (arith, h, e)))
]

block_at-written :
    (w v : World) (x y z a b c id : ℕ)
    → IsSized w
    → set_block w (pos x) (pos y) (pos z) id ≡ some v
    → block_at v (pos a) (pos b) (pos c) ≡ (
        if same_point (pos x) (pos y) (pos z) (pos a) (pos b) (pos c)
        then some id
        else block_at w (pos a) (pos b) (pos c))
unfolding set_block block_at place_of
block_at-written w v x y z a b c id sized h =
    let p = place_at x y z in
    let q = place_at a b c in
    let (chunk, (found, same)) = set_at_place-some w v p id h in
    ap (λ (t : World). block_in (get t.chunks (coord_of q)) q) same
    ∙ block_in-put w p q chunk id found (sized (coord_of p) chunk found) (place_at-IsLocal x y z)
        (place_at-IsLocal a b c)
    ∙ ap (λ t. if t then some id else block_in (get w.chunks (coord_of q)) q)
        (place-same x y z a b c)

-- The block that was set, and every other as it was, at negative coordinates too.
pub block_at-set_block :
    (w v : World) (x y z : ℤ) (id : ℕ) (a b c : ℤ)
    → IsSized w
    → set_block w x y z id ≡ some v
    → block_at v a b c ≡ (if same_point x y z a b c then some id else block_at w a b c)
unfolding set_block block_at place_of
block_at-set_block w v (pos x) (pos y) (pos z) id (pos a) (pos b) (pos c) sized h =
    block_at-written w v x y z a b c id sized h
block_at-set_block w v (pos x) (pos y) (pos z) id (pos a) (pos b) (negsuc c) sized h = ground arith
block_at-set_block w v (pos x) (pos y) (pos z) id (pos a) (negsuc b) c sized h = ground arith
block_at-set_block w v (pos x) (pos y) (pos z) id (negsuc a) b c sized h = ground arith
block_at-set_block w v (pos x) (pos y) (negsuc z) id a b c sized h = cc
block_at-set_block w v (pos x) (negsuc y) z id a b c sized h = cc
block_at-set_block w v (negsuc x) y z id a b c sized h = cc

pub set_block-IsSized :
    (w v : World) (x y z : ℤ) (id : ℕ) → IsSized w → set_block w x y z id ≡ some v → IsSized v
unfolding set_block place_of
set_block-IsSized w v (pos x) (pos y) (pos z) id sized h =
    let p = place_at x y z in
    let (chunk, (found, same)) = set_at_place-some w v p id h in
    subst IsSized (sym same) (
      Every-put (λ k (c : Chunk). length c.blocks ≡ 32768) w.chunks (coord_of p)
        (set_in_chunk chunk p.local_x p.local_y p.local_z id) sized
        (set_in_chunk-sized chunk p id (sized (coord_of p) chunk found)))
set_block-IsSized w v (pos x) (pos y) (negsuc z) id sized h = cc
set_block-IsSized w v (pos x) (negsuc y) z id sized h = cc
set_block-IsSized w v (negsuc x) y z id sized h = cc
