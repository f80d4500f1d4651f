-- ===== src/Prelude/Queues/Drain.antt =====
-- The drain loop of the components, and what it leaves behind.
use Prim.Native.Nat.{ℕ, zero, suc, ◌+◌}
use mathlib.Core.Path.{◌≡◌, refl, ap, sym, ◌∙◌}
use mathlib.Core.Bool.{false}
use mathlib.Core.Logic.{inl, inr}
use mathlib.Core.List.{List, [], ◌∷◌, ◌++◌, append_assoc, append-nil}
use mathlib.Core.Option.{none, some}
use native.Mathlib.Omega.{arith}
use native.Mathlib.Nat.{zero-add, suc-add}
use devy_fps.Prelude.Tests.{if◌then◌else◌, Option-cases, nat_eq}
use devy_fps.Prelude.Lists.{length, length-append}
use devy_fps.Prelude.Map.{get, erase, get-erase, Distinct, erase-Distinct, erase_missing}
use devy_fps.Prelude.Ids.{contains, NoRepeat, contains-sort_ids, Ascending-NoRepeat}
use devy_fps.Prelude.Queues.{
  Queues, queue, nonempty_ids, contains-nonempty_ids, queue_ids, queue_ids-Ascending, flat,
  in_order, total, total-erase, total_all_empty,
}

-- The map after the loop, what was taken out, and the component's count of queued commands.
pub record Drained (C : Type 0) : Type 0 where
  pub queues : Queues C
  pub drained : List C
  pub count : ℕ

-- `n` rounds of `count = dec(count)`.
abbrev pub iterate : (ℕ → ℕ) → ℕ → ℕ → ℕ
iterate dec zero n = n
iterate dec (suc k) n = iterate dec k (dec n)

iterate_add : (dec : ℕ → ℕ) (j k n : ℕ) → iterate dec (j + k) n ≡ iterate dec k (iterate dec j n)
iterate_add dec zero k n = rw zero-add
iterate_add dec (suc j) k n = rw suc-add (iterate_add dec j k (dec n))

module _ {C : Type 0} (dec : ℕ → ℕ) where
  -- while (!queue.empty()) { drained.push_back(queue.front()); queue.pop_front(); count = dec(count); }
  unfoldable pub drain_queue : List C → List C → ℕ → List C × ℕ
  drain_queue [] out n = (out, n)
  drain_queue (c ∷ q) out n = drain_queue q (out ++ c ∷ []) (dec n)

  -- The loop over the sorted ids; each queue is erased once it is empty.
  unfoldable pub drain_ids : List ℕ → Queues C → List C → ℕ → Drained C
  unfolding drain_queue
  drain_ids [] m out n = record { queues = m; drained = out; count = n }
  drain_ids (p ∷ ps) m out n = elim (get m p) [
    | none ↦ drain_ids ps m out n
    | some q ↦ drain_ids ps (erase m p) (drain_queue q out n).0 (drain_queue q out n).1
  ]

  unfoldable pub drain : Queues C → ℕ → Drained C
  unfolding drain_ids
  drain m n = drain_ids (queue_ids m) m [] n

  drain_queue_lem :
      (q out : List C) (n : ℕ) → drain_queue q out n ≡ (out ++ q, iterate dec (length q) n)
  unfolding drain_queue
  drain_queue_lem [] out n = rw append-nil
  drain_queue_lem (c ∷ q) out n = rw (drain_queue_lem q (out ++ c ∷ []) (dec n)) (rw append_assoc)

  flat-erase :
      (m : Queues C) (p : ℕ) (ps : List ℕ) → contains ps p ≡ false → flat (erase m p) ps ≡ flat m ps
  flat-erase m p [] h = refl
  flat-erase m p (i ∷ ps) h = ground (arith, get-erase m p i, flat-erase m p ps)

  -- One round of the loop.
  drain_ids_step :
      (p : ℕ) (ps : List ℕ) (m : Queues C) (out : List C) (n : ℕ)
      → drain_ids (p ∷ ps) m out n
        ≡ drain_ids ps (erase m p) (out ++ queue m p) (iterate dec (length (queue m p)) n)
  unfolding drain_ids
  drain_ids_step p ps m out n = elim (Option-cases (get m p)) [
    | inl e ↦ rw (e, drain_ids) (rw (erase_missing m p e, append-nil out))
    | inr (q, e) ↦
        rw (e, drain_ids)
          (ap (λ (t : List C × ℕ). drain_ids ps (erase m p) t.0 t.1) (drain_queue_lem q out n))
  ]

  pub drained-drain_ids :
      (ps : List ℕ) (m : Queues C) (out : List C) (n : ℕ)
      → NoRepeat ps
      → (drain_ids ps m out n).drained ≡ out ++ flat m ps
  drained-drain_ids [] m out n d = unfold drain_ids in sym (append-nil out)
  drained-drain_ids (p ∷ ps) m out n d =
      rw (drain_ids_step p ps m out n, drained-drain_ids ps _ _ _ d.1, flat-erase m p ps d.0)
        (append_assoc out (queue m p) (flat m ps))

  pub get-drain_ids :
      (ps : List ℕ) (m : Queues C) (out : List C) (n a : ℕ)
      → get (drain_ids ps m out n).queues a ≡ (if contains ps a then none else get m a)
  get-drain_ids [] m out n a = unfold drain_ids in refl
  get-drain_ids (p ∷ ps) m out n a =
      rw (drain_ids_step p ps m out n, get-drain_ids ps (erase m p) _ _ a)
        (ground (arith, get-erase m p a))

  pub drain_ids-Distinct :
      (ps : List ℕ) (m : Queues C) (out : List C) (n : ℕ)
      → Distinct m
      → Distinct (drain_ids ps m out n).queues
  drain_ids-Distinct [] m out n d = unfold drain_ids in d
  drain_ids-Distinct (p ∷ ps) m out n d =
      rw (drain_ids_step p ps m out n) (drain_ids-Distinct ps _ _ _ (erase-Distinct m p d))

  pub count-drain_ids :
      (ps : List ℕ) (m : Queues C) (out : List C) (n : ℕ)
      → NoRepeat ps
      → (drain_ids ps m out n).count ≡ iterate dec (length (flat m ps)) n
  count-drain_ids [] m out n d = unfold drain_ids in refl
  count-drain_ids (p ∷ ps) m out n d =
      rw
        (
          drain_ids_step p ps m out n,
          count-drain_ids ps _ _ _ d.1,
          flat-erase m p ps d.0,
          length-append (queue m p) (flat m ps),
        )
        (sym (iterate_add dec (length (queue m p)) (length (flat m ps)) n))

  total-drain_ids :
      (ps : List ℕ) (m : Queues C) (out : List C) (n : ℕ)
      → Distinct m
      → total (drain_ids ps m out n).queues + length (drain_ids ps m out n).drained
        ≡ total m + length out
  total-drain_ids [] m out n d = unfold drain_ids in refl
  total-drain_ids (p ∷ ps) m out n d = rw (drain_ids_step p ps m out n) (
      omega (
        arith,
        total-drain_ids ps (erase m p) (out ++ queue m p) (iterate dec (length (queue m p)) n)
            (erase-Distinct m p d),
        length-append out (queue m p),
        total-erase m p d,
      ))

  -- The loop takes out everything, in order, and leaves every queue empty.
  module _ (m : Queues C) (n : ℕ) (d : Distinct m) where
    ids-NoRepeat : NoRepeat (queue_ids m)
    ids-NoRepeat = Ascending-NoRepeat (queue_ids m) (queue_ids-Ascending m d)

    pub drained-drain : (drain m n).drained ≡ in_order m
    unfolding drain in_order
    drained-drain = drained-drain_ids (queue_ids m) m [] n ids-NoRepeat

    pub drain-Distinct : Distinct (drain m n).queues
    unfolding drain
    drain-Distinct = drain_ids-Distinct (queue_ids m) m [] n d

    pub queue-drain : (a : ℕ) → queue (drain m n).queues a ≡ []
    unfolding drain
    queue-drain a = ground (
      arith,
      get-drain_ids (queue_ids m) m [] n a,
      contains-sort_ids (nonempty_ids m) a,
      contains-nonempty_ids m a d,
    )

    pub total-drain : total (drain m n).queues ≡ 0
    total-drain = total_all_empty (drain m n).queues drain-Distinct queue-drain

    pub length-in_order : length (in_order m) ≡ total m
    unfolding drain
    length-in_order =
        omega (arith, ap length drained-drain, total-drain, total-drain_ids (queue_ids m) m [] n d)

    pub count-drain : (drain m n).count ≡ iterate dec (total m) n
    unfolding drain in_order
    count-drain =
        count-drain_ids (queue_ids m) m [] n ids-NoRepeat
        ∙ ap (λ k. iterate dec k n) length-in_order
