-- ===== src/Protocol.antt =====
-- The messages between client and server, shared/src/net/Protocol.cpp. JSON values and their library
-- (nlohmann::json) are a parameter; the texts that explain an error are left out.
pub mod Names
pub mod Schemas
pub mod Accepted
pub mod RoundTrip
mod Tests
use devy_fps.Prelude.{
  ℕ, zero, suc, ◌+◌, ◌-◌, ◌*◌, ◌/◌, ◌%◌, ◌≤◌, ◌<◌, ◌≡◌, ◌≢◌, ◌⊎◌, ◌↔◌, ◌∙◌, inl, inr, refl, sym, ap,
  subst, Bool, true, false, ◌&&◌, ◌||◌, List, [], ◌∷◌, ◌++◌, Option, none, some, ltb, leb, eqb,
  if◌then◌else◌, u64, sub64, last?, length, length-append, All, All-append, nat_eq, arith,
  Bool-cases, Option-cases, eqb_refl, eqb_iff, select,
}
use devy_fps.Prelude.{not, Bytes, bytes_eq}
use devy_fps.Prelude.Int.{ℤ, pos, ltb_ℤ, pos_part}
use devy_fps.Prelude.Map.{Map}
use devy_fps.Protocol.Names.{version_key, type_key, payload_key}
use devy_fps.Protocol.Schemas.{
  PayloadFieldType, number_field, integer_field, boolean_field, string_field, object_field,
  array_field, FieldRule, MessageSchema, schema_for,
}

-- The operations of the library that the protocol uses.
pub record Json (J : Type 0) : Type 0 where
  -- `nlohmann::json{}`
  pub null : J
  -- An object made by assignments `root[name] = value`.
  pub object : Map Bytes J → J
  -- A number made of an unsigned integer.
  pub of_unsigned : ℕ → J
  pub dump : J → Bytes
  -- `parse` without exceptions; none for a value that `is_discarded`.
  pub parse : Bytes → Option J
  -- `contains` and `operator[]`.
  pub find : J → Bytes → Option J
  pub is_object : J → Bool
  pub is_array : J → Bool
  pub is_string : J → Bool
  pub is_boolean : J → Bool
  pub is_number : J → Bool
  pub is_number_integer : J → Bool
  pub is_number_unsigned : J → Bool
  pub get_unsigned : J → ℕ
  pub get_signed : J → ℤ

pub data ProtocolError : Type 0 where
  invalid_json missing_envelope_field invalid_envelope_field_type unsupported_version
        unknown_message_type invalid_payload_type missing_payload_field invalid_payload_field_type :
      ProtocolError

pub record Packet (J : Type 0) : Type 0 where
  pub message_type : ℕ
  pub payload : J
  pub version : ℕ

-- A result, or the error that comes in its place.
pub data Checked (A : Type 0) : Type 0 where
  good : A → Checked A
  bad : ProtocolError → Checked A

infixl 20 ◌then◌
abbrev pub ◌then◌ : {A B : Type 0} → Checked A → (A → Checked B) → Checked B
good a then k = k a
bad e then k = bad e

-- An early return where a condition fails.
abbrev pub require : Bool → ProtocolError → Checked (Unit {0})
require true e = good tt
require false e = bad e

abbrev pub present : {A : Type 0} → Option A → ProtocolError → Checked A
present none e = bad e
present (some a) e = good a

abbrev pub protocol_version : ℕ
protocol_version = 1

unfoldable pub is_supported_version : ℕ → Bool
is_supported_version version = leb 1 version && leb version 1

module _ {J : Type 0} (j : Json J) where
  unfoldable pub matches_type : J → PayloadFieldType → Bool
  matches_type value number_field = j.is_number value
  matches_type value integer_field = j.is_number_integer value || j.is_number_unsigned value
  matches_type value boolean_field = j.is_boolean value
  matches_type value string_field = j.is_string value
  matches_type value object_field = j.is_object value
  matches_type value array_field = j.is_array value

  -- One field, whose member was looked up.
  unfoldable pub check_field : FieldRule → Option J → Checked (Unit {0})
  unfolding matches_type
  check_field field none = if field.required then bad missing_payload_field else good tt
  check_field field (some value) =
      if matches_type value field.field_type then good tt else bad invalid_payload_field_type

  unfoldable pub check_fields : List FieldRule → J → Checked (Unit {0})
  unfolding check_field
  check_fields [] payload = good tt
  check_fields (field ∷ fields) payload =
      check_field field (j.find payload field.name) then λ _. check_fields fields payload

  unfoldable pub validate_payload : Packet J → Checked (Unit {0})
  unfolding check_fields schema_for
  validate_payload packet =
      present (schema_for packet.message_type) unknown_message_type then λ schema.
      require (j.is_object packet.payload) invalid_payload_type then λ _.
      check_fields schema.fields packet.payload

  unfoldable pub serialize : Packet J → Bytes
  serialize packet = j.dump (
      j.object (
        (version_key, j.of_unsigned packet.version)
        ∷ (type_key, j.of_unsigned packet.message_type)
        ∷ (payload_key, packet.payload)
        ∷ []))

  -- The number in an envelope field, by the way it is stored.
  abbrev pub integer_of : J → ℤ
  integer_of value =
      if j.is_number_unsigned value then pos (j.get_unsigned value) else j.get_signed value

  unfoldable pub read_version : Option J → Checked ℕ
  read_version none = good protocol_version
  read_version (some value) =
      require (j.is_number_integer value || j.is_number_unsigned value) invalid_envelope_field_type
      then λ _.
          require
            (ltb_ℤ (pos 0) (integer_of value) && not (ltb_ℤ (pos 4294967295) (integer_of value)))
            invalid_envelope_field_type
          then λ _. good (pos_part (integer_of value))

  unfoldable pub read_type : J → Checked ℕ
  read_type value =
      require (j.is_number_integer value || j.is_number_unsigned value) invalid_envelope_field_type
      then λ _.
          require
            (not (ltb_ℤ (integer_of value) (pos 0)) && not (ltb_ℤ (pos 255) (integer_of value)))
            unknown_message_type
          then λ _. good (pos_part (integer_of value))

  -- The end of `try_deserialize`.
  unfoldable pub validated : Packet J → Checked (Packet J)
  unfolding validate_payload
  validated packet = validate_payload packet then λ _. good packet

  unfoldable pub read_payload : J → ℕ → ℕ → Checked (Packet J)
  unfolding schema_for validated
  read_payload root version message_type =
      present (schema_for message_type) unknown_message_type then λ _.
      present (j.find root payload_key) missing_envelope_field then λ payload.
      validated (record { message_type = message_type; payload = payload; version = version })

  unfoldable pub read_body : J → ℕ → Checked (Packet J)
  unfolding is_supported_version read_type read_payload
  read_body root version = require (is_supported_version version) unsupported_version then λ _.
      present (j.find root type_key) missing_envelope_field then λ type_json.
      read_type type_json then λ message_type. read_payload root version message_type

  unfoldable pub read_envelope : J → Checked (Packet J)
  unfolding read_version read_body
  read_envelope root = require (j.is_object root) invalid_envelope_field_type then λ _.
      read_version (j.find root version_key) then λ version. read_body root version

  unfoldable pub try_deserialize : Bytes → Checked (Packet J)
  unfolding read_envelope
  try_deserialize text = present (j.parse text) invalid_json then λ root. read_envelope root

  abbrev or_default : Checked (Packet J) → Packet J
  or_default (good packet) = packet
  or_default (bad e) = record { message_type = 0; payload = j.null; version = protocol_version }

  unfoldable pub deserialize : Bytes → Packet J
  unfolding try_deserialize
  deserialize text = or_default (try_deserialize text)
