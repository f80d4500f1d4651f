-- ===== src/Prelude/Sort.antt =====
-- `std::sort` with a comparator: its result is a permutation that the comparator does not
-- contradict. Elements that the comparator does not tell apart keep their order here; the source
-- may put them in another.
use mathlib.Core.Path.{◌≡◌}
use mathlib.Core.Bool.{Bool, true, false}
use mathlib.Core.Logic.{inl, inr}
use mathlib.Core.List.{List, [], ◌∷◌, Perm}
use mathlib.Core.List.Perm
use native.Mathlib.Omega.{arith}
use devy_fps.Prelude.Tests.{if◌then◌else◌, Bool-cases}
use devy_fps.Prelude.Lists.{All}

module _ {ℓ} {A : Type ℓ} (lt : A → A → Bool) where
  unfoldable pub insert : A → List A → List A
  insert x [] = x ∷ []
  insert x (y ∷ ys) = if lt y x then y ∷ insert x ys else x ∷ y ∷ ys

  unfoldable pub sort : List A → List A
  unfolding insert
  sort [] = []
  sort (x ∷ xs) = insert x (sort xs)

  -- No later element is less than an earlier one.
  abbrev pub SortedBy : List A → Type 0
  SortedBy [] = Unit {0}
  SortedBy (x ∷ xs) = All (λ y. lt y x ≡ false) xs × SortedBy xs

  insert-perm : (x : A) (ys : List A) → Perm (insert x ys) (x ∷ ys)
  unfolding insert
  insert-perm x [] = Perm.refl (x ∷ [])
  insert-perm x (y ∷ ys) = elim (Bool-cases (lt y x)) [
    | inl e ↦ rw e (Perm.trans (Perm.cons y (insert-perm x ys)) (Perm.swap x y ys))
    | inr e ↦ rw e (Perm.refl (x ∷ y ∷ ys))
  ]

  -- The result is a rearrangement of the input.
  pub sort-perm : (xs : List A) → Perm (sort xs) xs
  unfolding sort
  sort-perm [] = Perm.refl []
  sort-perm (x ∷ xs) = Perm.trans (insert-perm x (sort xs)) (Perm.cons x (sort-perm xs))

-- What `std::sort` asks of its comparator.
pub record IsStrictWeakOrder {ℓ} {A : Type ℓ} (lt : A → A → Bool) : Type ℓ where
  pub asym : (x y : A) → lt x y ≡ true → lt y x ≡ false
  pub not_lt_trans : (x y z : A) → lt y x ≡ false → lt z y ≡ false → lt z x ≡ false

module _ {ℓ} {A : Type ℓ} (lt : A → A → Bool) (o : IsStrictWeakOrder lt) where
  All-above :
      (x y : A) (zs : List A)
      → lt y x ≡ false
      → All (λ z. lt z y ≡ false) zs
      → All (λ z. lt z x ≡ false) zs
  All-above x y [] h a = tt
  All-above x y (z ∷ zs) h a = (o.not_lt_trans x y z h a.0, All-above x y zs h a.1)

  All-insert :
      (x y : A) (zs : List A)
      → lt x y ≡ false
      → All (λ z. lt z y ≡ false) zs
      → All (λ z. lt z y ≡ false) (insert lt x zs)
  unfolding insert
  All-insert x y [] h a = (h, tt)
  All-insert x y (z ∷ zs) h a = ground (arith, All-insert x y zs h a.1)

  insert-SortedBy : (x : A) (ys : List A) → SortedBy lt ys → SortedBy lt (insert lt x ys)
  unfolding insert
  insert-SortedBy x [] s = (tt, tt)
  insert-SortedBy x (y ∷ ys) s = elim (Bool-cases (lt y x)) [
    | inl e ↦ rw e (All-insert x y ys (o.asym y x e) s.0, insert-SortedBy x ys s.1)
    | inr e ↦ rw e ((e, All-above x y ys e s.0), s)
  ]

  -- The result is in order.
  pub sort-SortedBy : (xs : List A) → SortedBy lt (sort lt xs)
  unfolding sort
  sort-SortedBy [] = tt
  sort-SortedBy (x ∷ xs) = insert-SortedBy x (sort lt xs) (sort-SortedBy xs)
