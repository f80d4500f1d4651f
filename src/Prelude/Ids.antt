-- ===== src/Prelude/Ids.antt =====
-- Lists of player ids in ascending order: such a list is fixed by the ids that occur in it, so a
-- loop over sorted ids does not depend on the order in which a hash table gave them.
use Prim.Native.Nat.{ℕ, ◌<◌, ◌≤◌}
use mathlib.Core.Path.{◌≡◌, refl, ap, ◌∙◌}
use mathlib.Core.Bool.{Bool, false, ◌||◌}
use mathlib.Core.Logic.{inl, inr}
use mathlib.Core.List.{List, [], ◌∷◌}
use native.Mathlib.Omega.{arith}
use devy_fps.Prelude.Tests.{ltb, eqb, Bool-cases}
use devy_fps.Prelude.Lists.{All}
use devy_fps.Prelude.Sort.{insert, sort}

abbrev pub contains : List ℕ → ℕ → Bool
contains [] a = false
contains (x ∷ xs) a = eqb x a || contains xs a

abbrev pub NoRepeat : List ℕ → Type 0
NoRepeat [] = Unit {0}
NoRepeat (x ∷ xs) = (contains xs x ≡ false) × NoRepeat xs

abbrev pub Ascending : List ℕ → Type 0
Ascending [] = Unit {0}
Ascending (x ∷ xs) = All (λ y. x < y) xs × Ascending xs

-- `std::sort` of ids.
abbrev pub sort_ids : List ℕ → List ℕ
sort_ids = sort ltb

contains-insert :
    (x a : ℕ) (ys : List ℕ) → contains (insert ltb x ys) a ≡ (eqb x a || contains ys a)
unfolding insert
contains-insert x a [] = refl
contains-insert x a (y ∷ ys) = ground (arith, contains-insert x a ys)

pub contains-sort_ids : (xs : List ℕ) (a : ℕ) → contains (sort_ids xs) a ≡ contains xs a
unfolding sort
contains-sort_ids [] a = refl
contains-sort_ids (x ∷ xs) a =
    contains-insert x a (sort_ids xs) ∙ ap (λ b. eqb x a || b) (contains-sort_ids xs a)

All-lt_insert :
    (x y : ℕ) (zs : List ℕ) → y < x → All (λ z. y < z) zs → All (λ z. y < z) (insert ltb x zs)
unfolding insert
All-lt_insert x y [] h a = (h, tt)
All-lt_insert x y (z ∷ zs) h a = ground (arith, All-lt_insert x y zs h a.1)

All-lt_trans : (x y : ℕ) (zs : List ℕ) → x < y → All (λ z. y < z) zs → All (λ z. x < z) zs
All-lt_trans x y [] h a = tt
All-lt_trans x y (z ∷ zs) h a = (omega arith, All-lt_trans x y zs h a.1)

insert-Ascending :
    (x : ℕ) (ys : List ℕ) → contains ys x ≡ false → Ascending ys → Ascending (insert ltb x ys)
unfolding insert
insert-Ascending x [] h s = (tt, tt)
insert-Ascending x (y ∷ ys) h s = elim (Bool-cases (ltb y x)) [
  | inl e ↦ rw e (All-lt_insert x y ys (ground arith) s.0, insert-Ascending x ys (ground arith) s.1)
  | inr e ↦ let lt : x < y = ground arith in rw e ((lt, All-lt_trans x y ys lt s.0), s)
]

pub sort_ids-Ascending : (xs : List ℕ) → NoRepeat xs → Ascending (sort_ids xs)
unfolding sort
sort_ids-Ascending [] d = tt
sort_ids-Ascending (x ∷ xs) d =
    insert-Ascending x (sort_ids xs) (contains-sort_ids xs x ∙ d.0) (sort_ids-Ascending xs d.1)

pub contains-below : (x a : ℕ) (xs : List ℕ) → All (λ y. x < y) xs → a ≤ x → contains xs a ≡ false
contains-below x a [] h l = refl
contains-below x a (y ∷ ys) h l = ground (arith, contains-below x a ys h.1 l)

-- Two ascending lists with the same ids are one list.
pub Ascending-unique :
    (xs ys : List ℕ)
    → Ascending xs
    → Ascending ys
    → ((a : ℕ) → contains xs a ≡ contains ys a)
    → xs ≡ ys
Ascending-unique [] [] s t h = refl
Ascending-unique [] (y ∷ ys) s t h = ground (arith, h y)
Ascending-unique (x ∷ xs) [] s t h = ground (arith, h x)
Ascending-unique (x ∷ xs) (y ∷ ys) s t h = cc (heads, Ascending-unique xs ys s.1 t.1 λ a. tails a)
  where
    heads : x ≡ y
    heads = ground (arith, h x, h y, contains-below x y xs s.0, contains-below y x ys t.0)

    tails : (a : ℕ) → contains xs a ≡ contains ys a
    tails a = ground (arith, h a, heads, contains-below x a xs s.0, contains-below y a ys t.0)

pub Ascending-NoRepeat : (xs : List ℕ) → Ascending xs → NoRepeat xs
Ascending-NoRepeat [] s = tt
Ascending-NoRepeat (x ∷ xs) s = (contains-below x x xs s.0 (omega arith), Ascending-NoRepeat xs s.1)
