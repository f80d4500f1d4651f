-- ===== src/Telemetry/Tests.antt =====
-- Telemetry that reports every second tick, over a `double` that holds whole numbers only.
use devy_fps.Prelude.{ℕ, ◌+◌, ◌*◌, ◌≡◌, refl, true, List, [], ◌∷◌, nat_eq, arith}
use devy_fps.Prelude.Int.{ℤ, pos}
use devy_fps.Prelude.Whole.{whole}
use devy_fps.Telemetry.{movement, RuntimeTelemetryConfig, empty_window, sanitize_config, new}
use devy_fps.Telemetry.Report.{RuntimeTelemetryReport}
use devy_fps.Telemetry.Counts.{
  phase_note, outbound_note, note_call, begin_call, end_call, run, Tallied, Call,
  totals_match_types,
}
use devy_fps.Telemetry.Reports.{TickRun, run_ticks, interval_makes_report}

abbrev config : RuntimeTelemetryConfig ℤ
config = record {
  enabled = true;
  report_interval_ticks = 2;
  history_size_ticks = 0;
  tick_lag_tolerance_ms = pos 0;
  alerts = record {
    max_tick_lag_rate = pos 1;
    max_packet_drop_rate = pos 1;
    max_parse_error_rate = pos 1;
    min_active_players = 0;
  };
}

abbrev calls : List Call
calls =
    begin_call 1 100
    ∷ note_call (outbound_note 4 80)
    ∷ note_call (outbound_note 200 20)
    ∷ end_call 150
    ∷ []

totals_match_types_example : Tallied (run (new config) calls)
totals_match_types_example = totals_match_types config calls

abbrev tick_at : ℕ → TickRun
tick_at n = record {
  tick = n;
  started_at = n * 100;
  notes = phase_note movement (pos 10) ∷ outbound_note 4 80 ∷ [];
  finished_at = n * 100 + 50;
}

enabled_lem : (new config).config.enabled ≡ true
unfolding new sanitize_config
enabled_lem = refl

interval_lem : (new config).config.report_interval_ticks ≡ 2
unfolding new sanitize_config
interval_lem = refl

ticks_lem : (new config).window.ticks_since_report ≡ 0
unfolding new
ticks_lem = refl

interval_makes_report_example :
    let after = run_ticks (new config) (tick_at 1 ∷ tick_at 2 ∷ []) in
    (report : RuntimeTelemetryReport ℤ) × ((after.1 ≡ report ∷ [])
      × ((report.ticks_in_window ≡ (new config).config.report_interval_ticks)
          × (after.0.window ≡ empty_window)))
interval_makes_report_example =
    interval_makes_report (new config) (tick_at 1) (tick_at 2 ∷ []) enabled_lem
      (omega (arith, interval_lem)) (omega (arith, interval_lem, ticks_lem))
