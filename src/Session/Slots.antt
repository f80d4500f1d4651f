-- ===== src/Session/Slots.antt =====
-- The slot table: how many slots are taken, and what the search for a free one finds.
use devy_fps.Prelude.{
  ℕ, zero, suc, ◌+◌, ◌-◌, ◌≤◌, ◌<◌, ◌≡◌, ◌≢◌, refl, ap, true, false, List, [], ◌∷◌, Option, none,
  some, eqb, length, nat_eq, arith,
}
use devy_fps.Prelude.{get_elem?, set, replicate, get_elem?-some_lt}
use devy_fps.Session.{free_slot_from, first_free_slot, slot_is_free, release_slot}

-- How many slots have an owner.
abbrev pub occupied : List ℕ → ℕ
occupied [] = 0
occupied (zero ∷ owners) = occupied owners
occupied (suc owner ∷ owners) = suc (occupied owners)

pub occupied-set :
    (xs : List ℕ) (i p : ℕ)
    → get_elem? xs i ≡ some 0
    → p ≢ 0
    → occupied (set xs i p) ≡ suc (occupied xs)
occupied-set [] i p h n = cc
occupied-set (zero ∷ xs) zero zero h n = absurd (n refl)
occupied-set (zero ∷ xs) zero (suc p) h n = refl
occupied-set (suc x ∷ xs) zero p h n = absurd (ground arith)
occupied-set (zero ∷ xs) (suc i) p h n = occupied-set xs i p h n
occupied-set (suc x ∷ xs) (suc i) p h n = ap suc (occupied-set xs i p h n)

pub occupied-clear :
    (xs : List ℕ) (i p : ℕ)
    → get_elem? xs i ≡ some p
    → p ≢ 0
    → suc (occupied (set xs i 0)) ≡ occupied xs
occupied-clear [] i p h n = cc
occupied-clear (zero ∷ xs) zero p h n = absurd (ground arith)
occupied-clear (suc x ∷ xs) zero p h n = refl
occupied-clear (zero ∷ xs) (suc i) p h n = occupied-clear xs i p h n
occupied-clear (suc x ∷ xs) (suc i) p h n = ap suc (occupied-clear xs i p h n)

occupied-le : (xs : List ℕ) → occupied xs ≤ length xs
occupied-le [] = omega arith
occupied-le (zero ∷ xs) = omega (arith, occupied-le xs)
occupied-le (suc x ∷ xs) = omega (arith, occupied-le xs)

-- Slot 0 is never taken.
pub occupied_lt : (xs : List ℕ) → get_elem? xs 0 ≡ some 0 → occupied xs < length xs
occupied_lt [] h = cc
occupied_lt (zero ∷ xs) h = omega (arith, occupied-le xs)
occupied_lt (suc x ∷ xs) h = absurd (ground arith)

pub occupied-replicate : (n : ℕ) → occupied (replicate n 0) ≡ 0
occupied-replicate zero = refl
occupied-replicate (suc n) = occupied-replicate n

-- What the search for a free slot returns.
abbrev pub FreeFrom : ℕ → List ℕ → Option ℕ → Type 0
FreeFrom slot owners none = occupied owners ≡ length owners
FreeFrom slot owners (some k) = (slot ≤ k) × (get_elem? owners (k - slot) ≡ some 0)

FreeFrom-cons :
    (slot x : ℕ) (xs : List ℕ) (r : Option ℕ)
    → FreeFrom (slot + 1) xs r
    → FreeFrom slot (suc x ∷ xs) r
FreeFrom-cons slot x xs none h = ap suc h
FreeFrom-cons slot x xs (some k) h =
    let e : k - slot ≡ suc (k - (slot + 1)) = omega arith in (omega arith, rw e h.1)

pub free_slot_from_lem : (slot : ℕ) (xs : List ℕ) → FreeFrom slot xs (free_slot_from slot xs)
unfolding free_slot_from
free_slot_from_lem slot [] = refl
free_slot_from_lem slot (zero ∷ xs) =
    let e : slot - slot ≡ 0 = omega arith in (omega arith, rw e refl)
free_slot_from_lem slot (suc x ∷ xs) =
    let e : eqb (suc x) 0 ≡ false = ground arith in
    rw e (FreeFrom-cons slot x xs (free_slot_from (slot + 1) xs) (free_slot_from_lem (slot + 1) xs))

-- The slot found is a player's and free.
pub first_free_slot-some :
    (xs : List ℕ) (k : ℕ) → first_free_slot xs ≡ some k → (0 < k) × (get_elem? xs k ≡ some 0)
unfolding first_free_slot
first_free_slot-some [] k h = cc
first_free_slot-some (x ∷ xs) k h =
    let f = rw h at (free_slot_from_lem 1 xs) in
    let e : k ≡ suc (k - 1) = omega (arith, f.0) in (omega (arith, f.0), rw e f.1)

-- None is found only if all slots but slot 0 are taken.
pub first_free_slot-none :
    (xs : List ℕ)
    → get_elem? xs 0 ≡ some 0
    → first_free_slot xs ≡ none
    → suc (occupied xs) ≡ length xs
unfolding first_free_slot
first_free_slot-none [] z h = cc
first_free_slot-none (zero ∷ xs) z h = let f = rw h at (free_slot_from_lem 1 xs) in ap suc f
first_free_slot-none (suc x ∷ xs) z h = absurd (ground arith)

pub slot_is_free-some :
    (xs : List ℕ) (k : ℕ) → slot_is_free xs k ≡ true → (0 < k) × (get_elem? xs k ≡ some 0)
unfolding slot_is_free
slot_is_free-some xs k h = ground arith

pub release_slot_lem :
    (xs : List ℕ) (i p : ℕ) → 0 < i → get_elem? xs i ≡ some p → release_slot xs i ≡ set xs i 0
unfolding release_slot
release_slot_lem xs i p h e = ground (arith, get_elem?-some_lt xs i p)
