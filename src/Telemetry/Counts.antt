-- ===== src/Telemetry/Counts.antt =====
-- What server/src/RuntimeTelemetry.cpp counts, after any calls.
use devy_fps.Prelude.{
  ℕ, zero, suc, ◌+◌, ◌-◌, ◌≤◌, ◌<◌, ◌≡◌, ◌∙◌, inl, inr, refl, Bool, true, false, ◌&&◌, List, [],
  ◌∷◌, ◌++◌, Option, none, some, ltb, if◌then◌else◌, u64, length, length-append, nat_eq, arith,
  Bool-cases,
}
use devy_fps.Prelude.{not, set, length-set}
use devy_fps.Prelude.Int.{ℤ}
use devy_fps.Prelude.Floats.{Floats}
use devy_fps.Telemetry.{
  RuntimeTickPhase, RuntimeTelemetryConfig, RuntimeResourceSnapshot, RuntimeTelemetry, empty_window,
  message_type_index, element, sanitize_config, new, reset, set_tick_budget, begin_tick, note_phase,
  note_resources, note_inbound_packet_received, note_inbound_packet_drop, note_command_rejected,
  note_outbound_packet,
}
use devy_fps.Telemetry.Report.{
  sum, drop_first, keep_duration, note_tick, end_tick, build_report, RuntimeTelemetryReport,
}

-- The calls within a tick.
pub data Note : Type 0 where
  phase_note : RuntimeTickPhase → ℤ → Note
  resources_note : RuntimeResourceSnapshot → Note
  received_note : Note
  drop_note : Bool → Note
  rejected_note : Note
  outbound_note : ℕ → ℕ → Note

-- The calls that change the object.
pub data Call : Type 0 where
  note_call : Note → Call
  reset_call : Call
  budget_call : ℤ → Call
  begin_call : ℕ → ℕ → Call
  end_call : ℕ → Call

sum-set : (xs : List ℕ) (i y : ℕ) → i < length xs → sum (set xs i y) + element xs i ≡ sum xs + y
sum-set [] i y h = absurd (omega arith)
sum-set (x ∷ xs) zero y h = omega arith
sum-set (x ∷ xs) (suc i) y h = omega (arith, sum-set xs i y (omega arith))

-- A counter of the array and the total grow alike.
tally-set :
    (xs : List ℕ) (i n total : ℕ)
    → i < length xs
    → u64 (sum xs) ≡ total
    → u64 (sum (set xs i (u64 (element xs i + n)))) ≡ u64 (total + n)
tally-set xs i n total h e = omega (arith, e, sum-set xs i (u64 (element xs i + n)) h)

message_type_index-bound : (type : ℕ) → message_type_index type < 12
unfolding message_type_index
message_type_index-bound type = ground arith

length-drop_first : (ns : List ℕ) → length (drop_first true ns) ≡ length ns - 1
length-drop_first [] = refl
length-drop_first (n ∷ ns) = omega arith

length-keep_duration :
    (history : ℕ) (ns : List ℕ) (elapsed : ℕ)
    → length ns ≤ history
    → 0 < history
    → length (keep_duration history ns elapsed) ≤ history
length-keep_duration history ns elapsed h g = elim (Bool-cases (ltb history (length ns + 1))) [
  | inl e ↦
      rw e
        (omega (arith, length-drop_first (ns ++ elapsed ∷ []), length-append ns (elapsed ∷ []), h))
  | inr e ↦ rw e (ground (arith, length-append ns (elapsed ∷ []), e))
]

-- The arrays have an element for each message type, which the totals sum up, and there is room for the
-- durations that are kept.
pub record IsTally (history : ℕ) (counts sizes durations : List ℕ) (packets bytes : ℕ)
    : Type 0 where
  pub types : length counts ≡ 12
  pub size_types : length sizes ≡ 12
  pub packet_sum : u64 (sum counts) ≡ packets
  pub byte_sum : u64 (sum sizes) ≡ bytes
  pub kept : length durations ≤ history
  pub room : 0 < history

empty-IsTally :
    (history : ℕ)
    → 0 < history
    → IsTally history empty_window.packet_count_by_type empty_window.packet_bytes_by_type
        empty_window.tick_durations_ns empty_window.total_packets_sent
        empty_window.total_packet_bytes
empty-IsTally history h = record {
  types = refl;
  size_types = refl;
  packet_sum = refl;
  byte_sum = refl;
  kept = omega arith;
  room = h;
}

module _ {D : Type 0} where
  abbrev pub Tallied : RuntimeTelemetry D → Type 0
  Tallied t =
      IsTally t.config.history_size_ticks t.window.packet_count_by_type
        t.window.packet_bytes_by_type t.window.tick_durations_ns t.window.total_packets_sent
        t.window.total_packet_bytes

  either :
      (b : Bool) (s t : RuntimeTelemetry D) → Tallied s → Tallied t → Tallied (if b then s else t)
  either true s t p q = p
  either false s t p q = q

  abbrev pub note : Note → RuntimeTelemetry D → RuntimeTelemetry D
  note (phase_note phase duration) t = note_phase t phase duration
  note (resources_note r) t = note_resources t r
  note received_note t = note_inbound_packet_received t
  note (drop_note parse_error) t = note_inbound_packet_drop t parse_error
  note rejected_note t = note_command_rejected t
  note (outbound_note type size) t = note_outbound_packet t type size

  outbound-Tallied :
      (t : RuntimeTelemetry D) (type size : ℕ)
      → Tallied t
      → Tallied (note_outbound_packet t type size)
  unfolding note_outbound_packet
  outbound-Tallied t type size v =
      let w = t.window in
      let index = message_type_index type in
      either t.config.enabled _ t
        (record {
          types = length-set w.packet_count_by_type index _ ∙ v.types;
          size_types = length-set w.packet_bytes_by_type index _ ∙ v.size_types;
          packet_sum =
              tally-set w.packet_count_by_type index 1 w.total_packets_sent
                (omega (arith, message_type_index-bound type, v.types)) v.packet_sum;
          byte_sum =
              tally-set w.packet_bytes_by_type index size w.total_packet_bytes
                (omega (arith, message_type_index-bound type, v.size_types)) v.byte_sum;
          kept = v.kept;
          room = v.room;
        })
        v

  note-Tallied : (n : Note) (t : RuntimeTelemetry D) → Tallied t → Tallied (note n t)
  unfolding note_phase note_resources note_inbound_packet_received note_inbound_packet_drop
      note_command_rejected
  note-Tallied (phase_note phase duration) t v = either (t.config.enabled && t.tick_active) _ t v v
  note-Tallied (resources_note r) t v = either (t.config.enabled && t.tick_active) _ t v v
  note-Tallied received_note t v = either t.config.enabled _ t v v
  note-Tallied (drop_note parse_error) t v = either t.config.enabled _ t v v
  note-Tallied rejected_note t v = either t.config.enabled _ t v v
  note-Tallied (outbound_note type size) t v = outbound-Tallied t type size v

module _ {D : Type 0} ⦃f : Floats D⦄ where
  abbrev pub call : Call → RuntimeTelemetry D → RuntimeTelemetry D
  call (note_call n) t = note n t
  call reset_call t = reset t
  call (budget_call budget) t = set_tick_budget t budget
  call (begin_call tick started_at) t = begin_tick t tick started_at
  call (end_call finished_at) t = (end_tick t finished_at).0

  abbrev pub run : RuntimeTelemetry D → List Call → RuntimeTelemetry D
  run t [] = t
  run t (x ∷ xs) = run (call x t) xs

  either_result :
      (b : Bool) (x y : RuntimeTelemetry D × Option (RuntimeTelemetryReport D))
      → Tallied x.0
      → Tallied y.0
      → Tallied (if b then x else y).0
  either_result true x y p q = p
  either_result false x y p q = q

  end_tick-Tallied :
      (t : RuntimeTelemetry D) (finished_at : ℕ) → Tallied t → Tallied (end_tick t finished_at).0
  unfolding end_tick note_tick
  end_tick-Tallied t finished_at v =
      let elapsed = finished_at - t.tick_started_at in
      let noted : RuntimeTelemetry D = record t {
        tick_active = false;
        window = note_tick t elapsed;
      } in
      let w : Tallied noted = record {
        types = v.types;
        size_types = v.size_types;
        packet_sum = v.packet_sum;
        byte_sum = v.byte_sum;
        kept =
            length-keep_duration t.config.history_size_ticks t.window.tick_durations_ns elapsed
              v.kept v.room;
        room = v.room;
      } in
      either_result (not (t.config.enabled && t.tick_active)) (t, none) _ v
        (either_result (ltb noted.window.ticks_since_report t.config.report_interval_ticks)
          (noted, none) (record noted { window = empty_window }, some (build_report noted)) w
          (empty-IsTally t.config.history_size_ticks v.room))

  call-Tallied : (x : Call) (t : RuntimeTelemetry D) → Tallied t → Tallied (call x t)
  unfolding reset set_tick_budget begin_tick
  call-Tallied (note_call n) t v = note-Tallied n t v
  call-Tallied reset_call t v = empty-IsTally t.config.history_size_ticks v.room
  call-Tallied (budget_call budget) t v = v
  call-Tallied (begin_call tick started_at) t v = either t.config.enabled _ t v v
  call-Tallied (end_call finished_at) t v = end_tick-Tallied t finished_at v

  run-Tallied : (xs : List Call) (t : RuntimeTelemetry D) → Tallied t → Tallied (run t xs)
  run-Tallied [] t v = v
  run-Tallied (x ∷ xs) t v = run-Tallied xs (call x t) (call-Tallied x t v)

  new-Tallied : (config : RuntimeTelemetryConfig D) → Tallied (new config)
  unfolding new sanitize_config
  new-Tallied config = empty-IsTally (new config).config.history_size_ticks (ground arith)

  -- After any calls, the totals of packets and bytes are the sums over the message types, modulo 2^64,
  -- and no more durations are kept than the history has room for.
  pub totals_match_types :
      (config : RuntimeTelemetryConfig D) (calls : List Call) → Tallied (run (new config) calls)
  totals_match_types config calls = run-Tallied calls (new config) (new-Tallied config)
