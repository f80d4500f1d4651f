-- ===== src/Prelude/Map.antt =====
-- `std::unordered_map` as an association list. The list's order stands for the order in which the
-- hash table happens to iterate; the laws below, which are all that proofs about lookups use, do
-- not depend on it.
use mathlib.Core.Path.{◌≡◌, refl, ap, sym, subst, ◌∙◌}
use mathlib.Core.Logic.{◌⊎◌, inl, inr}
use mathlib.Core.Bool.{false}
use mathlib.Core.List.{List, [], ◌∷◌}
use mathlib.Core.Option.{Option, none, some}
use native.Mathlib.Omega.{arith}
use Prim.Native.Nat.{suc}
use devy_fps.Prelude.Lists.{length}
use devy_fps.Prelude.Tests.{KeyEq, ◌==◌, if◌then◌else◌}

abbrev pub Map {ℓ} : Type ℓ → Type ℓ → Type ℓ
Map K V = List (K × V)

abbrev pub map_found {ℓ} : {V : Type ℓ} → (V → V) → Option V → Option V
map_found f none = none
map_found f (some v) = some (f v)

found_cases {ℓ} :
    {V : Type ℓ} (g : V → V) (o : Option V) (w : V)
    → map_found g o ≡ some w
    → (v : V) × ((o ≡ some v) × (g v ≡ w))
found_cases g none w h = absurd ground (arith, h)
found_cases g (some v) w h = (v, (refl, ground (arith, h)))

module _ {ℓ} {K V : Type ℓ} ⦃e : KeyEq K⦄ where
  -- `find`
  unfoldable pub get : Map K V → K → Option V
  get [] k = none
  get ((j, v) ∷ m) k = if j == k then some v else get m k

  -- `m[k] = v`
  unfoldable pub put : Map K V → K → V → Map K V
  put [] k v = (k, v) ∷ []
  put ((j, w) ∷ m) k v = if j == k then (k, v) ∷ m else (j, w) ∷ put m k v

  -- `erase(k)`
  unfoldable pub erase : Map K V → K → Map K V
  erase [] k = []
  erase ((j, w) ∷ m) k = let rest = erase m k in if j == k then rest else (j, w) ∷ rest

  pub get-put :
      (m : Map K V) (k j : K) (v : V) → get (put m k v) j ≡ (if k == j then some v else get m j)
  unfolding get put
  get-put [] k j v = refl
  get-put ((i, w) ∷ m) k j v =
      ground (arith, get-put m k j v, e.same_key_iff i k, e.same_key_iff i j, e.same_key_iff k j)

  pub get-erase : (m : Map K V) (k j : K) → get (erase m k) j ≡ (if k == j then none else get m j)
  unfolding get erase
  get-erase [] k j = ground arith
  get-erase ((i, w) ∷ m) k j =
      ground (arith, get-erase m k j, e.same_key_iff i k, e.same_key_iff i j, e.same_key_iff k j)

  -- No key stands twice, as in every hash table.
  abbrev pub Distinct : Map K V → Type ℓ
  Distinct [] = Unit
  Distinct ((k, v) ∷ m) = (get m k ≡ none) × Distinct m

  pub put-Distinct : (m : Map K V) (k : K) (v : V) → Distinct m → Distinct (put m k v)
  unfolding get put
  put-Distinct [] k v d = (refl, tt)
  put-Distinct ((i, w) ∷ m) k v d =
      ground
        (arith, put-Distinct m k v d.1, get-put m k i v, e.same_key_iff i k, e.same_key_iff k i)

  pub erase-Distinct : (m : Map K V) (k : K) → Distinct m → Distinct (erase m k)
  unfolding get erase
  erase-Distinct [] k d = tt
  erase-Distinct ((i, w) ∷ m) k d =
      ground
        (arith, erase-Distinct m k d.1, get-erase m k i, e.same_key_iff i k, e.same_key_iff k i)

  -- Erasing a key that is not there changes nothing.
  pub erase_missing : (m : Map K V) (k : K) → get m k ≡ none → erase m k ≡ m
  unfolding get erase
  erase_missing [] k h = refl
  erase_missing ((i, w) ∷ m) k h = ground (arith, erase_missing m k)

  pub length-put_new :
      (m : Map K V) (k : K) (v : V) → get m k ≡ none → length (put m k v) ≡ suc (length m)
  unfolding get put
  length-put_new [] k v h = refl
  length-put_new ((i, w) ∷ m) k v h = ground (arith, length-put_new m k v)

  pub length-put_old :
      (m : Map K V) (k : K) (v w : V) → get m k ≡ some w → length (put m k v) ≡ length m
  unfolding get put
  length-put_old [] k v w h = cc
  length-put_old ((i, u) ∷ m) k v w h = ground (arith, length-put_old m k v w)

  pub length-erase :
      (m : Map K V) (k : K) (v : V)
      → Distinct m
      → get m k ≡ some v
      → suc (length (erase m k)) ≡ length m
  unfolding get erase
  length-erase [] k v d h = cc
  length-erase ((i, w) ∷ m) k v d h =
      ground (arith, length-erase m k v d.1, erase_missing m k, e.same_key_iff i k)

  -- What is found after a write was written, or was there.
  pub put_cases :
      (m : Map K V) (k j : K) (v w : V)
      → get (put m k v) j ≡ some w
      → ((k ≡ j) × (v ≡ w)) ⊎ (get m j ≡ some w)
  put_cases m k j v w h = ground (arith, get-put m k j v, e.same_key_iff k j)

  -- What is found after an erasure was there, under another key.
  pub erase_cases :
      (m : Map K V) (k j : K) (w : V)
      → get (erase m k) j ≡ some w
      → ((k == j) ≡ false) × (get m j ≡ some w)
  erase_cases m k j w h = ground (arith, get-erase m k j)

  -- for (auto& [key, value] : table) value = f(key, value);
  unfoldable pub map_values : (K → V → V) → Map K V → Map K V
  map_values f [] = []
  map_values f ((k, v) ∷ m) = (k, f k v) ∷ map_values f m

  pub get-map_values :
      (f : K → V → V) (m : Map K V) (k : K) → get (map_values f m) k ≡ map_found (f k) (get m k)
  unfolding get map_values
  get-map_values f [] k = refl
  get-map_values f ((i, v) ∷ m) k = ground (arith, get-map_values f m k, e.same_key_iff i k)

  pub map_values-Distinct : (f : K → V → V) (m : Map K V) → Distinct m → Distinct (map_values f m)
  unfolding map_values
  map_values-Distinct f [] d = tt
  map_values-Distinct f ((i, v) ∷ m) d =
      (get-map_values f m i ∙ ap (map_found (f i)) d.0, map_values-Distinct f m d.1)

  -- Every entry that is found satisfies `P`.
  abbrev pub Every : (K → V → Type 0) → Map K V → Type ℓ
  Every P m = (k : K) (v : V) → get m k ≡ some v → P k v

  pub Every-put :
      (P : K → V → Type 0) (m : Map K V) (k : K) (v : V) → Every P m → P k v → Every P (put m k v)
  Every-put P m k v h p j w found = elim (put_cases m k j v w found) [
    | inl (e, g) ↦ subst (λ t. P t w) e (subst (P k) g p)
    | inr old ↦ h j w old
  ]

  pub Every-map_values :
      (P : K → V → Type 0) (g : K → V → V) (m : Map K V)
      → ((k : K) (v : V) → P k v → P k (g k v))
      → Every P m
      → Every P (map_values g m)
  Every-map_values P g m keeps h j w found =
      let (v, (e, same)) = found_cases (g j) (get m j) w (sym (get-map_values g m j) ∙ found) in
      subst (P j) same (keeps j v (h j v e))
