-- ===== src/Telemetry.antt =====
-- server/src/RuntimeTelemetry.cpp and server/include/server/RuntimeTelemetry.h: what the server counts
-- of itself. Nanoseconds are natural numbers, since the source cuts off what is negative; their sums are
-- exact, where the source's overflow is undefined, and the counters wrap at 64 bits.
pub mod Report
pub mod Counts
pub mod Reports
mod Tests
use devy_fps.Prelude.{
  ℕ, zero, suc, ◌+◌, ◌-◌, ◌*◌, ◌/◌, ◌%◌, ◌≤◌, ◌<◌, ◌≡◌, ◌≢◌, ◌⊎◌, ◌↔◌, ◌∙◌, inl, inr, refl, sym, ap,
  subst, Bool, true, false, ◌&&◌, ◌||◌, List, [], ◌∷◌, ◌++◌, Option, none, some, ltb, leb, eqb,
  if◌then◌else◌, u64, sub64, last?, length, length-append, All, All-append, nat_eq, arith,
  Bool-cases, Option-cases, eqb_refl, eqb_iff, select,
}
use devy_fps.Prelude.{not, max, set, get_elem?, replicate, u32}
use devy_fps.Prelude.Int.{ℤ, pos_part}
use devy_fps.Prelude.Floats.{Floats}

pub data RuntimeTickPhase : Type 0 where
  movement combat inventory match_lifecycle broadcast snapshot_build snapshot_send count :
      RuntimeTickPhase

abbrev pub phase_count : ℕ
phase_count = 7

-- kRuntimeMessageTypeCount; a message type is its number, 0 for Invalid.
abbrev pub message_type_count : ℕ
message_type_count = 12

pub record Alerts (D : Type 0) : Type 0 where
  pub max_tick_lag_rate : D
  pub max_packet_drop_rate : D
  pub max_parse_error_rate : D
  pub min_active_players : ℕ

pub record RuntimeTelemetryConfig (D : Type 0) : Type 0 where
  pub enabled : Bool
  pub report_interval_ticks : ℕ
  pub history_size_ticks : ℕ
  pub tick_lag_tolerance_ms : D
  pub alerts : Alerts D

pub record RuntimeResourceSnapshot : Type 0 where
  pub active_sessions : ℕ
  pub tracked_players : ℕ
  pub pending_inputs : ℕ
  pub pending_snapshot_events : ℕ
  pub active_treasure_spawns : ℕ

-- What is counted since the last report.
pub record Window : Type 0 where
  pub ticks_since_report : ℕ
  pub tick_lag_count : ℕ
  pub max_tick_overrun_ns : ℕ
  pub tick_durations_ns : List ℕ
  pub phase_total_ns : List ℕ
  pub phase_max_ns : List ℕ
  pub inbound_packets_received : ℕ
  pub inbound_packets_dropped : ℕ
  pub inbound_parse_errors : ℕ
  pub command_rejections : ℕ
  pub packet_count_by_type : List ℕ
  pub packet_bytes_by_type : List ℕ
  pub total_packets_sent : ℕ
  pub total_packet_bytes : ℕ
  pub peak_active_sessions : ℕ
  pub peak_tracked_players : ℕ
  pub peak_pending_inputs : ℕ
  pub peak_pending_snapshot_events : ℕ
  pub peak_active_treasure_spawns : ℕ
  pub peak_estimated_state_bytes : ℕ
  pub active_players_sum : ℕ
  pub active_players_samples : ℕ
  pub last_active_players : ℕ

pub record RuntimeTelemetry (D : Type 0) : Type 0 where
  pub config : RuntimeTelemetryConfig D
  pub tick_active : Bool
  pub current_tick : ℕ
  pub tick_started_at : ℕ
  pub tick_budget_ns : ℕ
  pub tick_lag_tolerance_ns : ℕ
  pub window : Window

-- What `reset` and the end of `end_tick` both set, member by member.
abbrev pub empty_window : Window
empty_window = record {
  ticks_since_report = 0;
  tick_lag_count = 0;
  max_tick_overrun_ns = 0;
  tick_durations_ns = [];
  phase_total_ns = replicate phase_count 0;
  phase_max_ns = replicate phase_count 0;
  inbound_packets_received = 0;
  inbound_packets_dropped = 0;
  inbound_parse_errors = 0;
  command_rejections = 0;
  packet_count_by_type = replicate message_type_count 0;
  packet_bytes_by_type = replicate message_type_count 0;
  total_packets_sent = 0;
  total_packet_bytes = 0;
  peak_active_sessions = 0;
  peak_tracked_players = 0;
  peak_pending_inputs = 0;
  peak_pending_snapshot_events = 0;
  peak_active_treasure_spawns = 0;
  peak_estimated_state_bytes = 0;
  active_players_sum = 0;
  active_players_samples = 0;
  last_active_players = 0;
}

unfoldable pub phase_index : RuntimeTickPhase → ℕ
phase_index movement = 0
phase_index combat = 1
phase_index inventory = 2
phase_index match_lifecycle = 3
phase_index broadcast = 4
phase_index snapshot_build = 5
phase_index snapshot_send = 6
phase_index count = 0

unfoldable pub message_type_index : ℕ → ℕ
message_type_index type = if leb message_type_count type then 0 else type

unfoldable pub estimate_state_bytes : RuntimeResourceSnapshot → ℕ
estimate_state_bytes r = u64 (
    r.active_sessions * 256
    + r.tracked_players * 160
    + r.pending_inputs * 64
    + r.pending_snapshot_events * 128
    + r.active_treasure_spawns * 96)

-- An array's element; one out of its bounds is never asked for.
abbrev pub element : List ℕ → ℕ → ℕ
element [] i = 0
element (x ∷ xs) zero = x
element (x ∷ xs) (suc i) = element xs i

module _ {D : Type 0} ⦃f : Floats D⦄ where
  unfoldable pub sanitize_ratio : D → D → D
  sanitize_ratio value fallback =
      if not (f.is_finite value)
      then fallback
      else if f.less value (f.literal 0 1)
      then f.literal 0 1
      else if f.less (f.literal 1 1) value
      then f.literal 1 1
      else value

  unfoldable pub ms_to_ns : D → ℕ
  ms_to_ns milliseconds =
      let nanoseconds = f.multiply milliseconds (f.literal 1_000_000 1) in
      if not (f.is_finite milliseconds) || f.at_most milliseconds (f.literal 0 1)
      then 0
      else if f.at_most (f.literal 9223372036854775807 1) nanoseconds
      then 9223372036854775807
      else f.to_unsigned nanoseconds

  unfoldable pub sanitize_config : RuntimeTelemetryConfig D → RuntimeTelemetryConfig D
  unfolding sanitize_ratio
  sanitize_config c =
      let interval = if eqb c.report_interval_ticks 0 then 1 else c.report_interval_ticks in
      let history = if eqb c.history_size_ticks 0 then interval else c.history_size_ticks in
      record {
        enabled = c.enabled;
        report_interval_ticks = interval;
        history_size_ticks = if ltb history interval then interval else history;
        tick_lag_tolerance_ms =
            if not (f.is_finite c.tick_lag_tolerance_ms)
              || f.less c.tick_lag_tolerance_ms (f.literal 0 1)
            then f.literal 1 2
            else c.tick_lag_tolerance_ms;
        alerts = record {
          max_tick_lag_rate = sanitize_ratio c.alerts.max_tick_lag_rate (f.literal 1 1);
          max_packet_drop_rate = sanitize_ratio c.alerts.max_packet_drop_rate (f.literal 1 1);
          max_parse_error_rate = sanitize_ratio c.alerts.max_parse_error_rate (f.literal 1 1);
          min_active_players = c.alerts.min_active_players;
        };
      }

  unfoldable pub new : RuntimeTelemetryConfig D → RuntimeTelemetry D
  unfolding sanitize_config ms_to_ns
  new config = record {
    config = sanitize_config config;
    tick_active = false;
    current_tick = 0;
    tick_started_at = 0;
    tick_budget_ns = 0;
    tick_lag_tolerance_ns = ms_to_ns (sanitize_config config).tick_lag_tolerance_ms;
    window = empty_window;
  }

module _ {D : Type 0} where
  unfoldable pub reset : RuntimeTelemetry D → RuntimeTelemetry D
  reset t = record t {
    tick_active = false;
    current_tick = 0;
    tick_started_at = 0;
    window = empty_window;
  }

  unfoldable pub set_tick_budget : RuntimeTelemetry D → ℤ → RuntimeTelemetry D
  set_tick_budget t tick_budget = record t { tick_budget_ns = pos_part tick_budget }

  unfoldable pub begin_tick : RuntimeTelemetry D → ℕ → ℕ → RuntimeTelemetry D
  begin_tick t tick started_at =
      if t.config.enabled
      then record t { current_tick = tick; tick_started_at = started_at; tick_active = true }
      else t

  unfoldable pub note_phase : RuntimeTelemetry D → RuntimeTickPhase → ℤ → RuntimeTelemetry D
  unfolding phase_index
  note_phase t phase duration =
      let w = t.window in
      let index = phase_index phase in
      let elapsed = pos_part duration in
      if t.config.enabled && t.tick_active
      then record t {
        window = record w {
          phase_total_ns = set w.phase_total_ns index (element w.phase_total_ns index + elapsed);
          phase_max_ns = set w.phase_max_ns index (max (element w.phase_max_ns index) elapsed);
        };
      }
      else t

  unfoldable pub note_resources : RuntimeTelemetry D → RuntimeResourceSnapshot → RuntimeTelemetry D
  unfolding estimate_state_bytes
  note_resources t r =
      let w = t.window in
      if t.config.enabled && t.tick_active
      then record t {
        window = record w {
          peak_active_sessions = max w.peak_active_sessions r.active_sessions;
          peak_tracked_players = max w.peak_tracked_players r.tracked_players;
          peak_pending_inputs = max w.peak_pending_inputs r.pending_inputs;
          peak_pending_snapshot_events =
              max w.peak_pending_snapshot_events r.pending_snapshot_events;
          peak_active_treasure_spawns = max w.peak_active_treasure_spawns r.active_treasure_spawns;
          peak_estimated_state_bytes = max w.peak_estimated_state_bytes (estimate_state_bytes r);
          active_players_sum = u64 (w.active_players_sum + r.active_sessions);
          active_players_samples = u64 (w.active_players_samples + 1);
          last_active_players = r.active_sessions;
        };
      }
      else t

  unfoldable pub note_inbound_packet_received : RuntimeTelemetry D → RuntimeTelemetry D
  note_inbound_packet_received t =
      let w = t.window in
      if t.config.enabled
      then record t {
        window = record w { inbound_packets_received = u64 (w.inbound_packets_received + 1) };
      }
      else t

  unfoldable pub note_inbound_packet_drop : RuntimeTelemetry D → Bool → RuntimeTelemetry D
  note_inbound_packet_drop t parse_error =
      let w = t.window in
      if t.config.enabled
      then record t {
        window = record w {
          inbound_packets_dropped = u64 (w.inbound_packets_dropped + 1);
          inbound_parse_errors =
              if parse_error then u64 (w.inbound_parse_errors + 1) else w.inbound_parse_errors;
        };
      }
      else t

  unfoldable pub note_command_rejected : RuntimeTelemetry D → RuntimeTelemetry D
  note_command_rejected t =
      let w = t.window in
      if t.config.enabled
      then record t { window = record w { command_rejections = u64 (w.command_rejections + 1) } }
      else t

  unfoldable pub note_outbound_packet : RuntimeTelemetry D → ℕ → ℕ → RuntimeTelemetry D
  unfolding message_type_index
  note_outbound_packet t type payload_size_bytes =
      let w = t.window in
      let index = message_type_index type in
      if t.config.enabled
      then record t {
        window = record w {
          packet_count_by_type =
              set w.packet_count_by_type index (u64 (element w.packet_count_by_type index + 1));
          packet_bytes_by_type =
              set w.packet_bytes_by_type index
                (u64 (element w.packet_bytes_by_type index + payload_size_bytes));
          total_packets_sent = u64 (w.total_packets_sent + 1);
          total_packet_bytes = u64 (w.total_packet_bytes + payload_size_bytes);
        };
      }
      else t
