-- ===== src/Client/Pending.antt =====
-- The inputs that client/src/PredictionReconciler.cpp keeps.
use devy_fps.Prelude.{
  ℕ, suc, ◌≤◌, ◌<◌, ◌≡◌, inl, inr, refl, sym, subst, Bool, List, [], ◌∷◌, ◌++◌, leb, eqb,
  if◌then◌else◌, length, length-append, nat_eq, arith, Bool-cases,
}
use devy_fps.Prelude.Int.{ℤ}
use devy_fps.Prelude.Floats.{Floats, Doubles}
use devy_fps.Client.Prediction.{
  PredictionConfig, SnapshotMotionState, PendingInput, PredictionReconciler, pop_front,
  drop_acknowledged, sanitize_config, new, reset, queue_local_input, reconcile,
}

-- The calls that change the reconciler.
pub data Call (F : Type 0) : Type 0 where
  reset_call : Call F
  input_call : F → F → Bool → Bool → Bool → Bool → ℤ → Call F
  snapshot_call : SnapshotMotionState F → Call F

module _ {F : Type 0} where
  length-drop_acknowledged :
      (n : ℕ) (is : List (PendingInput F)) → length (drop_acknowledged n is) ≤ length is
  unfolding drop_acknowledged
  length-drop_acknowledged n [] = omega arith
  length-drop_acknowledged n (i ∷ is) = ground (arith, length-drop_acknowledged n is)

  length-pop_front :
      (is : List (PendingInput F)) (i : PendingInput F) (m : ℕ)
      → length is ≤ m
      → 0 < m
      → length ((if leb m (length is) then pop_front is else is) ++ i ∷ []) ≤ m
  length-pop_front [] i m h g = ground arith
  length-pop_front (j ∷ is) i m h g = elim (Bool-cases (leb m (suc (length is)))) [
    | inl e ↦ rw e (omega (arith, length-append is (i ∷ []), h))
    | inr e ↦ rw e (ground (arith, length-append is (i ∷ []), e))
  ]

  length-queued :
      (is : List (PendingInput F)) (i : PendingInput F) (limit n : ℕ)
      → limit ≡ n
      → length is ≤ n
      → 0 < n
      → length ((if leb limit (length is) then pop_front is else is) ++ i ∷ []) ≤ n
  length-queued is i limit n e h g =
      subst (λ m. length ((if leb m (length is) then pop_front is else is) ++ i ∷ []) ≤ n) (sym e)
        (length-pop_front is i n h g)

  record IsBounded (n : ℕ) (r : PredictionReconciler F) : Type 0 where
    limit : r.config.max_pending_inputs ≡ n
    room : 0 < n
    fits : length r.pending_inputs ≤ n

module _ {F D : Type 0} ⦃f : Floats F⦄ (d : Doubles F D) where
  abbrev pub call : Call F → PredictionReconciler F → PredictionReconciler F
  call reset_call r = reset r
  call (input_call x y jump sprint crouch fire dt) r =
      (queue_local_input d r x y jump sprint crouch fire dt).0
  call (snapshot_call s) r = (reconcile d r s).0

  abbrev pub run : PredictionReconciler F → List (Call F) → PredictionReconciler F
  run r [] = r
  run r (x ∷ xs) = run (call x r) xs

  call-IsBounded :
      (n : ℕ) (x : Call F) (r : PredictionReconciler F) → IsBounded n r → IsBounded n (call x r)
  unfolding reset queue_local_input reconcile
  call-IsBounded n reset_call r b = record { limit = b.limit; room = b.room; fits = omega arith }
  call-IsBounded n (input_call x y jump sprint crouch fire dt) r b = record {
    limit = b.limit;
    room = b.room;
    fits = length-queued r.pending_inputs _ r.config.max_pending_inputs n b.limit b.fits b.room;
  }
  call-IsBounded n (snapshot_call s) r b = record {
    limit = b.limit;
    room = b.room;
    fits =
        omega (arith, length-drop_acknowledged s.last_processed_input_seq r.pending_inputs, b.fits);
  }

  run-IsBounded :
      (n : ℕ) (xs : List (Call F)) (r : PredictionReconciler F)
      → IsBounded n r
      → IsBounded n (run r xs)
  run-IsBounded n [] r b = b
  run-IsBounded n (x ∷ xs) r b = run-IsBounded n xs (call x r) (call-IsBounded n x r b)

  new-IsBounded :
      (config : PredictionConfig F)
      → IsBounded
          (if eqb config.max_pending_inputs 0 then 256 else config.max_pending_inputs)
          (new config)
  unfolding new sanitize_config
  new-IsBounded config = record { limit = refl; room = ground arith; fits = omega arith }

  -- After any calls, the client has no more inputs pending than its configuration allows, 256 where it
  -- says 0.
  pub pending_inputs_stay_bounded :
      (config : PredictionConfig F) (calls : List (Call F))
      → length (run (new config) calls).pending_inputs
        ≤ (if eqb config.max_pending_inputs 0 then 256 else config.max_pending_inputs)
  pending_inputs_stay_bounded config calls =
      (run-IsBounded (if eqb config.max_pending_inputs 0 then 256 else config.max_pending_inputs)
        calls (new config) (new-IsBounded config)).fits
