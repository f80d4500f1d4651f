-- ===== src/Prelude/Queues.antt =====
-- Per-player command queues, `unordered_map<uint32_t, deque<C>>`, and the loop by which the
-- components drain them: by ascending player id, each queue from its front.
pub mod Drain
use Prim.Native.Nat.{ℕ, zero, suc, ◌+◌, ◌-◌, ◌<◌, ◌≤◌}
use mathlib.Core.Path.{◌≡◌, refl, ap, sym, ◌∙◌}
use mathlib.Core.Bool.{Bool, true, false, ◌||◌}
use mathlib.Core.Logic.{◌≢◌, ◌⊎◌, inl, inr}
use mathlib.Core.List.{List, [], ◌∷◌, ◌++◌, append_assoc, append-nil}
use mathlib.Core.Option.{Option, none, some}
use native.Mathlib.Omega.{arith}
use devy_fps.Prelude.Tests.{if◌then◌else◌, ltb, eqb, eqb_refl, Bool-cases, Option-cases, nat_eq}
use devy_fps.Prelude.Lists.{All, length, length-append}
use devy_fps.Prelude.Map.{
  Map, get, put, erase, get-put, get-erase, Distinct, put-Distinct, erase-Distinct,
}
use devy_fps.Prelude.Ids.{
  contains, NoRepeat, Ascending, sort_ids, contains-sort_ids, sort_ids-Ascending, contains-below,
  Ascending-unique,
}

abbrev pub Queues : Type 0 → Type 0
Queues C = Map ℕ (List C)

module _ {C : Type 0} where
  abbrev pub is_empty : List C → Bool
  is_empty [] = true
  is_empty (c ∷ q) = false

  abbrev pub or_empty : Option (List C) → List C
  or_empty none = []
  or_empty (some q) = q

  -- The queue of a player, empty where the map has none.
  abbrev pub queue : Queues C → ℕ → List C
  queue m p = or_empty (get m p)

  -- for (auto& [id, queue] : queues) if (!queue.empty()) ids.push_back(id);
  unfoldable pub nonempty_ids : Queues C → List ℕ
  nonempty_ids [] = []
  nonempty_ids ((p, q) ∷ m) = let rest = nonempty_ids m in if is_empty q then rest else p ∷ rest

  abbrev pub queue_ids : Queues C → List ℕ
  queue_ids m = sort_ids (nonempty_ids m)

  -- The queues of the given players, one behind the other.
  abbrev pub flat : Queues C → List ℕ → List C
  flat m [] = []
  flat m (p ∷ ps) = queue m p ++ flat m ps

  -- All that is queued, in the order in which it is to be handled.
  unfoldable pub in_order : Queues C → List C
  in_order m = flat m (queue_ids m)

  -- How many commands are queued.
  unfoldable pub total : Queues C → ℕ
  total [] = 0
  total ((p, q) ∷ m) = length q + total m

  contains-nonempty_ids-none :
      (m : Queues C) (a : ℕ) → get m a ≡ none → contains (nonempty_ids m) a ≡ false
  unfolding nonempty_ids get
  contains-nonempty_ids-none [] a h = refl
  contains-nonempty_ids-none ((p, q) ∷ m) a h = ground (arith, contains-nonempty_ids-none m a)

  pub contains-nonempty_ids :
      (m : Queues C) (a : ℕ)
      → Distinct m
      → contains (nonempty_ids m) a ≡ (if is_empty (queue m a) then false else true)
  unfolding nonempty_ids get
  contains-nonempty_ids [] a d = refl
  contains-nonempty_ids ((p, q) ∷ m) a d =
      ground (arith, contains-nonempty_ids m a d.1, contains-nonempty_ids-none m p d.0)

  pub nonempty_ids-NoRepeat : (m : Queues C) → Distinct m → NoRepeat (nonempty_ids m)
  unfolding nonempty_ids
  nonempty_ids-NoRepeat [] d = tt
  nonempty_ids-NoRepeat ((p, []) ∷ m) d = nonempty_ids-NoRepeat m d.1
  nonempty_ids-NoRepeat ((p, c ∷ q) ∷ m) d =
      (contains-nonempty_ids-none m p d.0, nonempty_ids-NoRepeat m d.1)

  pub queue_ids-Ascending : (m : Queues C) → Distinct m → Ascending (queue_ids m)
  queue_ids-Ascending m d = sort_ids-Ascending (nonempty_ids m) (nonempty_ids-NoRepeat m d)

  -- Which lists of ids the loop runs over depends on the lookups alone.
  queue_ids_lem :
      (m n : Queues C)
      → Distinct m
      → Distinct n
      → ((a : ℕ) → queue m a ≡ queue n a)
      → queue_ids m ≡ queue_ids n
  queue_ids_lem m n d e h =
      Ascending-unique (queue_ids m) (queue_ids n) (queue_ids-Ascending m d)
        (queue_ids-Ascending n e)
        λ a.
          contains-sort_ids (nonempty_ids m) a
          ∙ contains-nonempty_ids m a d
          ∙ ap (λ (q : List C). if is_empty q then false else true) (h a)
          ∙ sym (contains-nonempty_ids n a e)
          ∙ sym (contains-sort_ids (nonempty_ids n) a)

  flat_cong :
      (m n : Queues C) (ps : List ℕ) → ((a : ℕ) → queue m a ≡ queue n a) → flat m ps ≡ flat n ps
  flat_cong m n [] h = refl
  flat_cong m n (p ∷ ps) h = cc (h p, flat_cong m n ps h)

  pub in_order_cong :
      (m n : Queues C)
      → Distinct m
      → Distinct n
      → ((a : ℕ) → queue m a ≡ queue n a)
      → in_order m ≡ in_order n
  unfolding in_order
  in_order_cong m n d e h = ap (flat m) (queue_ids_lem m n d e h) ∙ flat_cong m n (queue_ids n) h

  pub total-put :
      (m : Queues C) (p : ℕ) (q : List C)
      → total (put m p q) + length (queue m p) ≡ total m + length q
  unfolding total get put
  total-put [] p q = omega arith
  total-put ((i, r) ∷ m) p q = ground (arith, total-put m p q)

  total-erase-none : (m : Queues C) (p : ℕ) → get m p ≡ none → total (erase m p) ≡ total m
  unfolding total get erase
  total-erase-none [] p h = refl
  total-erase-none ((i, r) ∷ m) p h = ground (arith, total-erase-none m p)

  pub total-erase :
      (m : Queues C) (p : ℕ) → Distinct m → total (erase m p) + length (queue m p) ≡ total m
  unfolding total get erase
  total-erase [] p d = omega arith
  total-erase ((i, r) ∷ m) p d = ground (arith, total-erase m p d.1, total-erase-none m p)

  pub total_all_empty : (m : Queues C) → Distinct m → ((a : ℕ) → queue m a ≡ []) → total m ≡ 0
  unfolding total get
  total_all_empty [] d h = refl
  total_all_empty ((i, r) ∷ m) d h =
      ground (arith, h i, ap length (h i), total_all_empty m d.1 λ a. rest a)
    where
      rest : (a : ℕ) → queue m a ≡ []
      rest a = ground (arith, h a, h i, d.0)
