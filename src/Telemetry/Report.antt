-- ===== src/Telemetry/Report.antt =====
-- The end of a tick, and the report that it may make, of server/src/RuntimeTelemetry.cpp. An alert is
-- named by a constructor, where the source has a string.
use devy_fps.Prelude.{
  ℕ, ◌+◌, ◌-◌, Bool, true, false, ◌&&◌, List, [], ◌∷◌, ◌++◌, Option, none, some, ltb, leb, eqb,
  if◌then◌else◌, u64, length, nat_eq,
}
use devy_fps.Prelude.{not, max}
use devy_fps.Prelude.Int.{pos}
use devy_fps.Prelude.Floats.{Floats}
use devy_fps.Prelude.Sort.{sort}
use devy_fps.Telemetry.{RuntimeTelemetryConfig, Window, RuntimeTelemetry, empty_window, element}

pub data Alert : Type 0 where
  tick_lag_rate_exceeded packet_drop_rate_exceeded parse_error_rate_exceeded
        active_players_below_min :
      Alert

pub record RuntimeTelemetryReport (D : Type 0) : Type 0 where
  pub tick : ℕ
  pub ticks_in_window : ℕ
  pub tick_avg_ms : D
  pub tick_p95_ms : D
  pub tick_max_ms : D
  pub tick_lag_count : ℕ
  pub tick_lag_rate : D
  pub tick_budget_ms : D
  pub max_tick_overrun_ms : D
  pub phase_avg_ms : List D
  pub phase_max_ms : List D
  pub packet_count_by_type : List ℕ
  pub packet_bytes_by_type : List ℕ
  pub total_packets_sent : ℕ
  pub total_packet_bytes : ℕ
  pub inbound_packets_received : ℕ
  pub inbound_packets_dropped : ℕ
  pub inbound_parse_errors : ℕ
  pub command_rejections : ℕ
  pub inbound_packet_drop_rate : D
  pub inbound_parse_error_rate : D
  pub peak_active_sessions : ℕ
  pub peak_tracked_players : ℕ
  pub peak_pending_inputs : ℕ
  pub peak_pending_snapshot_events : ℕ
  pub peak_active_treasure_spawns : ℕ
  pub peak_estimated_state_bytes : ℕ
  pub avg_active_players : D
  pub last_active_players : ℕ
  pub alerts : List Alert

abbrev pub sum : List ℕ → ℕ
sum [] = 0
sum (x ∷ xs) = x + sum xs

-- The end of a vector; an empty one is never asked.
abbrev pub back : List ℕ → ℕ
back [] = 0
back (x ∷ []) = x
back (x ∷ y ∷ ys) = back (y ∷ ys)

-- if (cond) alerts.push_back(alert);
abbrev pub alert_if : Bool → Alert → List Alert
alert_if true a = a ∷ []
alert_if false a = []

module _ {D : Type 0} ⦃f : Floats D⦄ where
  unfoldable pub ns_to_ms : ℕ → D
  ns_to_ms nanoseconds = f.divide (f.of_int (pos nanoseconds)) (f.literal 1_000_000 1)

  -- At most `count - 1`, for a count above 0.
  unfoldable pub percentile_index : ℕ → D → ℕ
  percentile_index count percentile =
      let rank = f.multiply percentile (f.of_int (pos count)) in
      let raw = f.to_unsigned (f.ceiling rank) in
      let index = (if eqb raw 0 then 1 else raw) - 1 in
      if eqb count 0 then 0 else if leb count index then count - 1 else index

  unfoldable pub rate_of : ℕ → ℕ → D
  rate_of part whole =
      if ltb 0 whole then f.divide (f.of_int (pos part)) (f.of_int (pos whole)) else f.literal 0 1

  abbrev pub phase_averages : D → List ℕ → List D
  unfolding ns_to_ms
  phase_averages tick_count [] = []
  phase_averages tick_count (n ∷ ns) =
      f.divide (ns_to_ms n) tick_count ∷ phase_averages tick_count ns

  abbrev pub phase_maxima : List ℕ → List D
  unfolding ns_to_ms
  phase_maxima [] = []
  phase_maxima (n ∷ ns) = ns_to_ms n ∷ phase_maxima ns

  unfoldable pub alerts_of : RuntimeTelemetryConfig D → D → D → D → D → List Alert
  alerts_of c lag_rate drop_rate error_rate players =
      alert_if (f.less c.alerts.max_tick_lag_rate lag_rate) tick_lag_rate_exceeded
      ++ alert_if (f.less c.alerts.max_packet_drop_rate drop_rate) packet_drop_rate_exceeded
      ++ alert_if (f.less c.alerts.max_parse_error_rate error_rate) parse_error_rate_exceeded
      ++ alert_if
          (ltb 0 c.alerts.min_active_players
            && f.less players (f.of_int (pos c.alerts.min_active_players)))
          active_players_below_min

  -- `build_report`, with the two members that `end_tick` adds.
  unfoldable pub build_report : RuntimeTelemetry D → RuntimeTelemetryReport D
  unfolding ns_to_ms percentile_index rate_of alerts_of
  build_report t =
      let w = t.window in
      let durations = length w.tick_durations_ns in
      let sorted = sort ltb w.tick_durations_ns in
      let tick_count = f.of_int (pos (max w.ticks_since_report 1)) in
      let lag_rate = f.divide (f.of_int (pos w.tick_lag_count)) tick_count in
      let drop_rate = rate_of w.inbound_packets_dropped w.inbound_packets_received in
      let error_rate = rate_of w.inbound_parse_errors w.inbound_packets_received in
      let players = rate_of w.active_players_sum w.active_players_samples in
      record {
        tick = t.current_tick;
        ticks_in_window = w.ticks_since_report;
        tick_avg_ms =
            if eqb durations 0
            then f.literal 0 1
            else f.divide (ns_to_ms (u64 (sum w.tick_durations_ns))) (f.of_int (pos durations));
        tick_p95_ms =
            if eqb durations 0
            then f.literal 0 1
            else ns_to_ms (element sorted (percentile_index durations (f.literal 95 100)));
        tick_max_ms = if eqb durations 0 then f.literal 0 1 else ns_to_ms (back sorted);
        tick_lag_count = w.tick_lag_count;
        tick_lag_rate = lag_rate;
        tick_budget_ms = ns_to_ms t.tick_budget_ns;
        max_tick_overrun_ms = ns_to_ms w.max_tick_overrun_ns;
        phase_avg_ms = phase_averages tick_count w.phase_total_ns;
        phase_max_ms = phase_maxima w.phase_max_ns;
        packet_count_by_type = w.packet_count_by_type;
        packet_bytes_by_type = w.packet_bytes_by_type;
        total_packets_sent = w.total_packets_sent;
        total_packet_bytes = w.total_packet_bytes;
        inbound_packets_received = w.inbound_packets_received;
        inbound_packets_dropped = w.inbound_packets_dropped;
        inbound_parse_errors = w.inbound_parse_errors;
        command_rejections = w.command_rejections;
        inbound_packet_drop_rate = drop_rate;
        inbound_parse_error_rate = error_rate;
        peak_active_sessions = w.peak_active_sessions;
        peak_tracked_players = w.peak_tracked_players;
        peak_pending_inputs = w.peak_pending_inputs;
        peak_pending_snapshot_events = w.peak_pending_snapshot_events;
        peak_active_treasure_spawns = w.peak_active_treasure_spawns;
        peak_estimated_state_bytes = w.peak_estimated_state_bytes;
        avg_active_players = players;
        last_active_players = w.last_active_players;
        alerts = alerts_of t.config lag_rate drop_rate error_rate players;
      }

-- The budget with the tolerance, or the greatest `int64_t`.
unfoldable pub lag_threshold : ℕ → ℕ → ℕ
lag_threshold budget tolerance =
    if ltb 0 tolerance
    then (if leb budget (9223372036854775807 - tolerance)
        then budget + tolerance
        else 9223372036854775807)
    else budget

abbrev pub drop_first : Bool → List ℕ → List ℕ
drop_first false ns = ns
drop_first true [] = []
drop_first true (n ∷ ns) = ns

-- The vector of durations keeps the latest `history`.
abbrev pub keep_duration : ℕ → List ℕ → ℕ → List ℕ
keep_duration history ns elapsed = drop_first (ltb history (length ns + 1)) (ns ++ elapsed ∷ [])

module _ {D : Type 0} where
  -- What `end_tick` notes of the tick, before it asks whether a report is due.
  unfoldable pub note_tick : RuntimeTelemetry D → ℕ → Window
  unfolding lag_threshold
  note_tick t elapsed =
      let w = t.window in
      let lags =
        ltb 0 t.tick_budget_ns
        && ltb (lag_threshold t.tick_budget_ns t.tick_lag_tolerance_ns) elapsed in
      record w {
        tick_durations_ns = keep_duration t.config.history_size_ticks w.tick_durations_ns elapsed;
        tick_lag_count = if lags then u64 (w.tick_lag_count + 1) else w.tick_lag_count;
        max_tick_overrun_ns =
            if lags
            then max w.max_tick_overrun_ns (elapsed - t.tick_budget_ns)
            else w.max_tick_overrun_ns;
        ticks_since_report = u64 (w.ticks_since_report + 1);
      }

module _ {D : Type 0} ⦃f : Floats D⦄ where
  unfoldable pub end_tick :
      RuntimeTelemetry D → ℕ → RuntimeTelemetry D × Option (RuntimeTelemetryReport D)
  unfolding note_tick build_report
  end_tick t finished_at =
      let noted = record t {
        tick_active = false;
        window = note_tick t (finished_at - t.tick_started_at);
      } in
      if not (t.config.enabled && t.tick_active)
      then (t, none)
      else if ltb noted.window.ticks_since_report t.config.report_interval_ticks
      then (noted, none)
      else (record noted { window = empty_window }, some (build_report noted))
