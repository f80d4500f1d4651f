-- ===== src/Loop/Tests.antt =====
-- Runs of the authoritative loop, and its theorems at concrete inputs.
use devy_fps.Prelude.{ℕ, ◌≡◌, refl, false, List, map, [], ◌∷◌, none, some, nat_eq, arith}
use devy_fps.Prelude.Map.{get, put}
use devy_fps.Prelude.Map.{erase}
use devy_fps.Prelude.Sort.{sort}
use devy_fps.Prelude.Queues.{queue, nonempty_ids}
use devy_fps.Prelude.Queues.Drain.{drain}
use devy_fps.Loop.{
  RuntimeConfig, PlayerInputCommand, TickFrame, AuthoritativeLoop, new, advance, queue_full,
  enqueue_input, drain_inputs_deterministic,
}
use devy_fps.Loop.Invariant.{IsValid}
use devy_fps.Loop.History.{Call, enqueues, run, run-new-IsValid}
use devy_fps.Loop.Ticks.{Advanced, advance_lem}
use devy_fps.Loop.Order.{ByRisingPlayer, of_player, drain_inputs_lem}
use devy_fps.Loop.Outcome.{SameView, advance_deterministic, enqueue_input_lem}

abbrev input : ℕ → ℕ → PlayerInputCommand ℕ
input player seq = record {
  player_id = player;
  input_seq = seq;
  move_x = 0;
  move_y = 0;
  jump = false;
  fire = false;
  received_at = 0;
  sprint = false;
  crouch = false;
}

abbrev small : RuntimeConfig
small = record { tick_rate_hz = 0; input_queue_capacity = 3; snapshot_interval_ticks = 2 }

abbrev calls : List (Call ℕ)
calls =
    enqueues (input 7 1) ∷ enqueues (input 2 5) ∷ enqueues (input 7 1) ∷ enqueues (input 2 6) ∷ []

abbrev other_calls : List (Call ℕ)
other_calls = enqueues (input 2 5) ∷ enqueues (input 2 6) ∷ enqueues (input 7 1) ∷ []

abbrev start : AuthoritativeLoop ℕ
start = new small 0

run-new-IsValid_example : IsValid (run start calls)
run-new-IsValid_example = run-new-IsValid small 0 calls (omega arith)

reordered-IsValid : IsValid (run start other_calls)
reordered-IsValid = run-new-IsValid small 0 other_calls (omega arith)

abbrev filled : AuthoritativeLoop ℕ
filled = run start calls

enqueue_input_lem_example : enqueue_input filled (input 7 2) ≡ (filled, queue_full)
unfolding run new get put
enqueue_input_lem_example = enqueue_input_lem filled (input 7 2) run-new-IsValid_example

drain_inputs_lem_example :
    ByRisingPlayer (drain_inputs_deterministic filled).drained
    × ((a : ℕ)
        → of_player a (drain_inputs_deterministic filled).drained
          ≡ queue filled.input_queues_by_player a)
drain_inputs_lem_example = drain_inputs_lem filled run-new-IsValid_example

advance_lem_example :
    (m : AuthoritativeLoop ℕ) × (frames : List (TickFrame ℕ)) × (advance filled 70_000_000
      ≡ some (m, frames))
    × Advanced filled m 70_000_000 frames
advance_lem_example = advance_lem filled 70_000_000 run-new-IsValid_example

abbrev reordered : AuthoritativeLoop ℕ
reordered = run start other_calls

abbrev result : AuthoritativeLoop ℕ → AuthoritativeLoop ℕ × List (TickFrame ℕ)
result l = elim (advance l 40_000_000) [ none ↦ (l, []) | some r ↦ r ]

filled_advances : advance filled 40_000_000 ≡ some (result filled)
unfolding run new get put erase advance drain sort nonempty_ids
filled_advances = refl

reordered_advances : advance reordered 40_000_000 ≡ some (result reordered)
unfolding run new get put erase advance drain sort nonempty_ids
reordered_advances = refl

-- The players come in ascending order, in one frame.
filled_inputs :
    map {B = List (ℕ × ℕ)}
      (λ f. map {B = ℕ × ℕ} (λ c. (c.player_id, c.input_seq)) f.inputs)
      (result filled).1
    ≡ ((2, 5) ∷ (2, 6) ∷ (7, 1) ∷ []) ∷ []
unfolding run new get put erase advance drain sort nonempty_ids
filled_inputs = refl

reordered-SameView : SameView filled reordered
unfolding run new get put
reordered-SameView = record {
  deadline = refl;
  interval = refl;
  counter = refl;
  every = refl;
  queues = λ p. ground arith;
}

advance_deterministic_example : (result filled).1 ≡ (result reordered).1
advance_deterministic_example =
    advance_deterministic filled reordered (result filled).0 (result reordered).0 40_000_000
      (result filled).1 (result reordered).1 run-new-IsValid_example reordered-IsValid
      reordered-SameView filled_advances reordered_advances
