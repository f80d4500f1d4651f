-- ===== src/Telemetry/Reports.antt =====
-- When server/src/RuntimeTelemetry.cpp reports.
use devy_fps.Prelude.{
  ℕ, suc, ◌+◌, ◌-◌, ◌<◌, ◌≡◌, ◌∙◌, refl, ap, Bool, true, false, ◌&&◌, List, [], ◌∷◌, ◌++◌, Option,
  none, some, ltb, if◌then◌else◌, u64, length, nat_eq, arith,
}
use devy_fps.Prelude.{not}
use devy_fps.Prelude.Floats.{Floats}
use devy_fps.Telemetry.{
  RuntimeTelemetry, empty_window, begin_tick, note_phase, note_resources,
  note_inbound_packet_received, note_inbound_packet_drop, note_command_rejected,
  note_outbound_packet,
}
use devy_fps.Telemetry.Report.{RuntimeTelemetryReport, note_tick, build_report, end_tick}
use devy_fps.Telemetry.Counts.{
  Note, phase_note, resources_note, received_note, drop_note, rejected_note, outbound_note, note,
}

-- A whole tick, with what is noted in it.
pub record TickRun : Type 0 where
  pub tick : ℕ
  pub started_at : ℕ
  pub notes : List Note
  pub finished_at : ℕ

module _ {D : Type 0} where
  -- What decides about a report.
  abbrev Same : RuntimeTelemetry D → RuntimeTelemetry D → Type 0
  Same x t =
      (x.config ≡ t.config)
      × ((x.tick_active ≡ t.tick_active)
          × (x.window.ticks_since_report ≡ t.window.ticks_since_report))

  either_Same : (b : Bool) (x t : RuntimeTelemetry D) → Same x t → Same (if b then x else t) t
  either_Same true x t s = s
  either_Same false x t s = (refl, (refl, refl))

  note-Same : (n : Note) (t : RuntimeTelemetry D) → Same (note n t) t
  unfolding note_phase note_resources note_inbound_packet_received note_inbound_packet_drop
      note_command_rejected note_outbound_packet
  note-Same (phase_note phase duration) t =
      either_Same (t.config.enabled && t.tick_active) _ t (refl, (refl, refl))
  note-Same (resources_note r) t =
      either_Same (t.config.enabled && t.tick_active) _ t (refl, (refl, refl))
  note-Same received_note t = either_Same t.config.enabled _ t (refl, (refl, refl))
  note-Same (drop_note parse_error) t = either_Same t.config.enabled _ t (refl, (refl, refl))
  note-Same rejected_note t = either_Same t.config.enabled _ t (refl, (refl, refl))
  note-Same (outbound_note type size) t = either_Same t.config.enabled _ t (refl, (refl, refl))

  abbrev pub note_all : List Note → RuntimeTelemetry D → RuntimeTelemetry D
  note_all [] t = t
  note_all (n ∷ ns) t = note_all ns (note n t)

  note_all-Same : (ns : List Note) (t : RuntimeTelemetry D) → Same (note_all ns t) t
  note_all-Same [] t = (refl, (refl, refl))
  note_all-Same (n ∷ ns) t =
      let a = note_all-Same ns (note n t) in
      let b = note-Same n t in (a.0 ∙ b.0, (a.1.0 ∙ b.1.0, a.1.1 ∙ b.1.1))

module _ {D : Type 0} ⦃f : Floats D⦄ where
  abbrev pub whole_tick :
      RuntimeTelemetry D → TickRun → RuntimeTelemetry D × Option (RuntimeTelemetryReport D)
  whole_tick t r = end_tick (note_all r.notes (begin_tick t r.tick r.started_at)) r.finished_at

  abbrev pub made : Option (RuntimeTelemetryReport D) → List (RuntimeTelemetryReport D)
  made none = []
  made (some r) = r ∷ []

  -- The state after some ticks, and the reports that they made.
  abbrev pub run_ticks :
      RuntimeTelemetry D → List TickRun → RuntimeTelemetry D × List (RuntimeTelemetryReport D)
  run_ticks t [] = (t, [])
  run_ticks t (r ∷ rs) =
      let next = whole_tick t r in let rest = run_ticks next.0 rs in (rest.0, made next.1 ++ rest.1)

  begin_tick_lem :
      (t : RuntimeTelemetry D) (tick started_at : ℕ)
      → t.config.enabled ≡ true
      → begin_tick t tick started_at
        ≡ record t { current_tick = tick; tick_started_at = started_at; tick_active = true }
  unfolding begin_tick
  begin_tick_lem t tick started_at e =
      ap
        (λ b.
          if b
          then record t { current_tick = tick; tick_started_at = started_at; tick_active = true }
          else t)
        e

  begun-Same :
      (t : RuntimeTelemetry D) (r : TickRun)
      → t.config.enabled ≡ true
      → let u = note_all r.notes (begin_tick t r.tick r.started_at) in
        (u.config ≡ t.config)
        × ((u.tick_active ≡ true) × (u.window.ticks_since_report ≡ t.window.ticks_since_report))
  begun-Same t r e =
      let s = note_all-Same r.notes (begin_tick t r.tick r.started_at) in
      let b = begin_tick_lem t r.tick r.started_at e in
      (
        s.0 ∙ ap (λ x. x.config) b,
        (s.1.0 ∙ ap (λ x. x.tick_active) b, s.1.1 ∙ ap (λ x. x.window.ticks_since_report) b),
      )

  abbrev noted_of : RuntimeTelemetry D → ℕ → RuntimeTelemetry D
  noted_of t finished_at = record t {
    tick_active = false;
    window = note_tick t (finished_at - t.tick_started_at);
  }

  end_tick_lem :
      (t : RuntimeTelemetry D) (finished_at : ℕ)
      → t.config.enabled ≡ true
      → t.tick_active ≡ true
      → end_tick t finished_at ≡ (
          if ltb (noted_of t finished_at).window.ticks_since_report t.config.report_interval_ticks
          then (noted_of t finished_at, none)
          else (
            record (noted_of t finished_at) { window = empty_window },
            some (build_report (noted_of t finished_at)),
          ))
  unfolding end_tick
  end_tick_lem t finished_at e a =
      ap
        (λ b.
          if not b
          then (t, none)
          else if ltb (noted_of t finished_at).window.ticks_since_report
              t.config.report_interval_ticks
          then (noted_of t finished_at, none)
          else (
            record (noted_of t finished_at) { window = empty_window },
            some (build_report (noted_of t finished_at)),
          ))
        both
    where
      both : (t.config.enabled && t.tick_active) ≡ true
      both = ground (arith, e, a)

  ticks-noted_of :
      (t : RuntimeTelemetry D) (finished_at : ℕ)
      → (noted_of t finished_at).window.ticks_since_report ≡ u64 (t.window.ticks_since_report + 1)
  unfolding note_tick
  ticks-noted_of t finished_at = refl

  ticks-build_report :
      (t : RuntimeTelemetry D) → (build_report t).ticks_in_window ≡ t.window.ticks_since_report
  unfolding build_report
  ticks-build_report t = refl

  tick_is_quiet :
      (t : RuntimeTelemetry D) (r : TickRun)
      → t.config.enabled ≡ true
      → t.config.report_interval_ticks < 4294967296
      → suc t.window.ticks_since_report < t.config.report_interval_ticks
      → ((whole_tick t r).1 ≡ none)
        × (((whole_tick t r).0.config ≡ t.config)
            × ((whole_tick t r).0.window.ticks_since_report ≡ suc t.window.ticks_since_report))
  tick_is_quiet t r e h g =
      let u = note_all r.notes (begin_tick t r.tick r.started_at) in
      let s = begun-Same t r e in
      let n = ticks-noted_of u r.finished_at in
      let early : ltb (noted_of u r.finished_at).window.ticks_since_report
            u.config.report_interval_ticks
          ≡ true =
        ground (arith, n, s.1.1, ap (λ c. c.report_interval_ticks) s.0, h, g) in
      let k =
        end_tick_lem u r.finished_at (ap (λ c. c.enabled) s.0 ∙ e) s.1.0
        ∙ ap
            (λ b. if b then (noted_of u r.finished_at, none) else (
              record (noted_of u r.finished_at) { window = empty_window },
              some (build_report (noted_of u r.finished_at)),
            ))
            early in
      (
        ap (λ x. x.1) k,
        (
          ap (λ x. x.0.config) k ∙ s.0,
          ap (λ x. x.0.window.ticks_since_report) k ∙ omega (arith, n, s.1.1, h, g),
        ),
      )

  tick_makes_report :
      (t : RuntimeTelemetry D) (r : TickRun)
      → t.config.enabled ≡ true
      → t.config.report_interval_ticks < 4294967296
      → suc t.window.ticks_since_report ≡ t.config.report_interval_ticks
      → (report : RuntimeTelemetryReport D) × (((whole_tick t r).1 ≡ some report)
          × ((report.ticks_in_window ≡ t.config.report_interval_ticks)
              × ((whole_tick t r).0.window ≡ empty_window)))
  tick_makes_report t r e h g =
      let u = note_all r.notes (begin_tick t r.tick r.started_at) in
      let s = begun-Same t r e in
      let n = ticks-noted_of u r.finished_at in
      let due : ltb (noted_of u r.finished_at).window.ticks_since_report
            u.config.report_interval_ticks
          ≡ false =
        ground (arith, n, s.1.1, ap (λ c. c.report_interval_ticks) s.0, h, g) in
      let k =
        end_tick_lem u r.finished_at (ap (λ c. c.enabled) s.0 ∙ e) s.1.0
        ∙ ap
            (λ b. if b then (noted_of u r.finished_at, none) else (
              record (noted_of u r.finished_at) { window = empty_window },
              some (build_report (noted_of u r.finished_at)),
            ))
            due in
      (
        build_report (noted_of u r.finished_at),
        (
          ap (λ x. x.1) k,
          (
            ticks-build_report (noted_of u r.finished_at) ∙ omega (arith, n, s.1.1, h, g),
            ap (λ x. x.0.window) k,
          ),
        ),
      )

  -- Where telemetry is enabled, the ticks that are left of an interval, of fewer than 2^32 ticks, make
  -- exactly one report, with the last of them and whatever is noted in them; it counts the interval's
  -- ticks, and after it the next interval starts with nothing counted.
  pub interval_makes_report :
      (t : RuntimeTelemetry D) (r : TickRun) (rs : List TickRun)
      → t.config.enabled ≡ true
      → t.config.report_interval_ticks < 4294967296
      → t.window.ticks_since_report + length (r ∷ rs) ≡ t.config.report_interval_ticks
      → let after = run_ticks t (r ∷ rs) in
        (report : RuntimeTelemetryReport D) × ((after.1 ≡ report ∷ [])
          × ((report.ticks_in_window ≡ t.config.report_interval_ticks)
              × (after.0.window ≡ empty_window)))
  interval_makes_report t r [] e h g =
      let (report, (a, (b, c))) = tick_makes_report t r e h (omega (arith, g)) in
      (report, (ap (λ o. made o ++ []) a, (b, c)))
  interval_makes_report t r (q ∷ rs) e h g =
      let s = tick_is_quiet t r e h (omega (arith, g)) in
      let limit = ap (λ c. c.report_interval_ticks) s.1.0 in
      let next = (whole_tick t r).0 in
      let (report, (a, (b, c))) =
        interval_makes_report next q rs (ap (λ c. c.enabled) s.1.0 ∙ e) (omega (arith, limit, h))
          (omega (arith, limit, s.1.1, g)) in
      (report, (ap (λ o. made o ++ (run_ticks next (q ∷ rs)).1) s.0 ∙ a, (b ∙ limit, c)))
