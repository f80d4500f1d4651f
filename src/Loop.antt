-- ===== src/Loop.antt =====
-- server/src/AuthoritativeLoop.cpp and server/include/server/AuthoritativeLoop.h: the fixed-rate
-- tick loop and its per-player input queues. A time point is a number of nanoseconds since the
-- clock's epoch; `float` fields are carried in an arbitrary type `F`. A method that changes the
-- object returns the new object.
pub mod Invariant
pub mod History
pub mod Ticks
pub mod Order
pub mod Outcome
mod Tests
use devy_fps.Prelude.{
  ℕ, zero, suc, ◌+◌, ◌-◌, ◌*◌, ◌/◌, ◌%◌, ◌≤◌, ◌<◌, ◌≡◌, refl, Bool, true, false, ◌&&◌, ◌||◌, List,
  [], ◌∷◌, ◌++◌, Option, none, some, ltb, leb, eqb, if◌then◌else◌, u64, sub64, last?, length,
  nat_eq,
}
use devy_fps.Prelude.Map.{Map, get, put, erase}
use devy_fps.Prelude.Queues.{Queues, queue}
use devy_fps.Prelude.Queues.Drain.{Drained, drain}

pub record RuntimeConfig : Type 0 where
  pub tick_rate_hz : ℕ
  pub input_queue_capacity : ℕ
  pub snapshot_interval_ticks : ℕ

pub record PlayerInputCommand (F : Type 0) : Type 0 where
  pub player_id : ℕ
  pub input_seq : ℕ
  pub move_x : F
  pub move_y : F
  pub jump : Bool
  pub fire : Bool
  pub received_at : ℕ
  pub sprint : Bool
  pub crouch : Bool

pub data InputEnqueueStatus : Type 0 where
  accepted queue_full out_of_order : InputEnqueueStatus

pub record TickFrame (F : Type 0) : Type 0 where
  pub tick : ℕ
  pub inputs : List (PlayerInputCommand F)
  pub snapshot_due : Bool

pub record AuthoritativeLoop (F : Type 0) : Type 0 where
  pub config : RuntimeConfig
  pub tick_interval : ℕ
  pub next_tick_deadline : ℕ
  pub tick_counter : ℕ
  pub pending_input_count : ℕ
  pub input_queues_by_player : Queues (PlayerInputCommand F)
  pub last_input_seq_by_player : Map ℕ ℕ

unfoldable pub sanitize_config : RuntimeConfig → RuntimeConfig
sanitize_config c = record {
  tick_rate_hz = if eqb c.tick_rate_hz 0 then 30 else c.tick_rate_hz;
  input_queue_capacity = if eqb c.input_queue_capacity 0 then 1 else c.input_queue_capacity;
  snapshot_interval_ticks =
      if eqb c.snapshot_interval_ticks 0 then 1 else c.snapshot_interval_ticks;
}

-- A second is divided by the rate, in integers, and is never less than one nanosecond.
unfoldable pub interval_of_rate : ℕ → ℕ
interval_of_rate rate = let i = 1_000_000_000 / rate in if eqb i 0 then 1 else i

-- The sequence number is not above the one last accepted from this player.
unfoldable pub is_stale : Option ℕ → ℕ → Bool
is_stale none seq = false
is_stale (some last_seq) seq = leb seq last_seq

module _ {F : Type 0} where
  unfoldable pub reset : AuthoritativeLoop F → ℕ → AuthoritativeLoop F
  reset l start_time = record l {
    tick_counter = 0;
    pending_input_count = 0;
    input_queues_by_player = [];
    last_input_seq_by_player = [];
    next_tick_deadline = start_time + l.tick_interval;
  }

  -- The constructor.
  unfoldable pub new : RuntimeConfig → ℕ → AuthoritativeLoop F
  unfolding sanitize_config interval_of_rate reset
  new config start_time =
      reset
        (record {
          config = sanitize_config config;
          tick_interval = interval_of_rate (sanitize_config config).tick_rate_hz;
          next_tick_deadline = 0;
          tick_counter = 0;
          pending_input_count = 0;
          input_queues_by_player = [];
          last_input_seq_by_player = [];
        })
        start_time

  -- Nor is it above that at the back of the player's queue.
  unfoldable pub is_behind_back : List (PlayerInputCommand F) → ℕ → Bool
  is_behind_back q seq = elim (last? q) [ none ↦ false | some c ↦ leb seq c.input_seq ]

  -- The tail of `enqueue_input`, once every test has passed.
  unfoldable pub accept_input : AuthoritativeLoop F → PlayerInputCommand F → AuthoritativeLoop F
  accept_input l c = record l {
    input_queues_by_player =
        put l.input_queues_by_player c.player_id
          (queue l.input_queues_by_player c.player_id ++ c ∷ []);
    last_input_seq_by_player = put l.last_input_seq_by_player c.player_id c.input_seq;
    pending_input_count = u64 (l.pending_input_count + 1);
  }

  unfoldable pub enqueue_input :
      AuthoritativeLoop F → PlayerInputCommand F → AuthoritativeLoop F × InputEnqueueStatus
  unfolding is_stale is_behind_back accept_input
  enqueue_input l c =
      if is_stale (get l.last_input_seq_by_player c.player_id) c.input_seq
      then (l, out_of_order)
      else if is_behind_back (queue l.input_queues_by_player c.player_id) c.input_seq
      then (l, out_of_order)
      else if leb l.config.input_queue_capacity l.pending_input_count
      then (l, queue_full)
      else (accept_input l c, accepted)

  unfoldable pub clear_player : AuthoritativeLoop F → ℕ → AuthoritativeLoop F
  clear_player l player_id = elim (get l.input_queues_by_player player_id) [
    | none ↦ record l { last_input_seq_by_player = erase l.last_input_seq_by_player player_id }
    | some q ↦ record l {
      pending_input_count = sub64 l.pending_input_count (length q);
      input_queues_by_player = erase l.input_queues_by_player player_id;
      last_input_seq_by_player = erase l.last_input_seq_by_player player_id;
    }
  ]

  -- `--pending_input_count_` for each input that is taken out.
  unfoldable pub drain_inputs_deterministic : AuthoritativeLoop F → Drained (PlayerInputCommand F)
  drain_inputs_deterministic l =
      drain (λ n. sub64 n 1) l.input_queues_by_player l.pending_input_count

  -- The body of the loop in `advance`.
  unfoldable pub run_tick : AuthoritativeLoop F → AuthoritativeLoop F × TickFrame F
  unfolding drain_inputs_deterministic
  run_tick l =
      let tick : ℕ = u64 (l.tick_counter + 1) in
      let d = drain_inputs_deterministic l in
      (
        record l {
          tick_counter = tick;
          pending_input_count = d.count;
          input_queues_by_player = d.queues;
          next_tick_deadline = l.next_tick_deadline + l.tick_interval;
        },
        record {
          tick = tick;
          inputs = d.drained;
          snapshot_due = eqb (tick % l.config.snapshot_interval_ticks) 0;
        },
      )

  -- while (now >= next_tick_deadline_): a round per unit of fuel, `none` if the fuel runs out.
  unfoldable pub advance_fuel :
      ℕ
      → AuthoritativeLoop F
      → ℕ
      → List (TickFrame F)
      → Option (AuthoritativeLoop F × List (TickFrame F))
  unfolding run_tick
  advance_fuel zero l now frames = none
  advance_fuel (suc fuel) l now frames =
      let rest = advance_fuel fuel (run_tick l).0 now (frames ++ (run_tick l).1 ∷ []) in
      if ltb now l.next_tick_deadline then some (l, frames) else rest

  -- Each round moves the deadline by at least one nanosecond, so `now` and two rounds are enough.
  unfoldable pub advance :
      AuthoritativeLoop F → ℕ → Option (AuthoritativeLoop F × List (TickFrame F))
  unfolding advance_fuel
  advance l now = advance_fuel (now + 2) l now []
