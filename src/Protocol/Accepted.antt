-- ===== src/Protocol/Accepted.antt =====
-- What shared/src/net/Protocol.cpp accepts.
use devy_fps.Prelude.{
  ℕ, ◌≡◌, ◌∙◌, refl, sym, ap, Bool, true, false, List, [], ◌∷◌, Option, none, some, if◌then◌else◌,
  All, nat_eq, arith,
}
use devy_fps.Prelude.{Bytes, bytes_eq}
use devy_fps.Protocol.Names.{version_key, type_key, payload_key}
use devy_fps.Protocol.Schemas.{FieldRule, MessageSchema, schema_for}
use devy_fps.Protocol.{
  Json, Packet, ProtocolError, Checked, good, bad, ◌then◌, require, present, is_supported_version,
  matches_type, check_field, check_fields, validate_payload, read_version, read_type, validated,
  read_payload, read_body, read_envelope, try_deserialize, invalid_envelope_field_type,
  unknown_message_type, missing_envelope_field, invalid_json, unsupported_version,
  invalid_payload_type,
}

-- A result comes only from results.
pub then-good :
    {A B : Type 0} (x : Checked A) (k : A → Checked B) (b : B)
    → (x then k) ≡ good b
    → (a : A) × ((x ≡ good a) × (k a ≡ good b))
then-good (good a) k b h = (a, (refl, h))
then-good (bad e) k b h = absurd ground (arith, h)

require-good :
    {B : Type 0} (c : Bool) (e : ProtocolError) (k : Unit {0} → Checked B) (b : B)
    → (require c e then k) ≡ good b
    → (c ≡ true) × (k tt ≡ good b)
require-good true e k b h = (refl, h)
require-good false e k b h = absurd ground (arith, h)

pub present-good :
    {A B : Type 0} (o : Option A) (e : ProtocolError) (k : A → Checked B) (b : B)
    → (present o e then k) ≡ good b
    → (a : A) × ((o ≡ some a) × (k a ≡ good b))
present-good none e k b h = absurd ground (arith, h)
present-good (some a) e k b h = (a, (refl, h))

module _ {J : Type 0} (j : Json J) where
  -- A member that must be there is, and has its type; one that may be there has its type if it is.
  abbrev pub Fits : FieldRule → Option J → Type 0
  Fits field none = field.required ≡ false
  Fits field (some value) = matches_type j value field.field_type ≡ true

  pub record IsMessage (packet : Packet J) : Type 0 where
    pub schema : MessageSchema
    pub known : schema_for packet.message_type ≡ some schema
    pub supported : is_supported_version packet.version ≡ true
    pub object : j.is_object packet.payload ≡ true
    pub fits : All (λ field. Fits field (j.find packet.payload field.name)) schema.fields

  check_field-good :
      (field : FieldRule) (o : Option J) (u : Unit {0})
      → check_field j field o ≡ good u
      → Fits field o
  unfolding check_field
  check_field-good field none u h = ground (arith, h)
  check_field-good field (some value) u h = ground (arith, h)

  check_fields-good :
      (fields : List FieldRule) (payload : J) (u : Unit {0})
      → check_fields j fields payload ≡ good u
      → All (λ field. Fits field (j.find payload field.name)) fields
  unfolding check_fields
  check_fields-good [] payload u h = tt
  check_fields-good (field ∷ fields) payload u h =
      let (a, (e, g)) =
        then-good (check_field j field (j.find payload field.name))
          (λ _. check_fields j fields payload) u h in
      (check_field-good field (j.find payload field.name) a e, check_fields-good fields payload u g)

  validated-good :
      (p q : Packet J)
      → validated j p ≡ good q
      → (p ≡ q) × ((u : Unit {0}) × (validate_payload j p ≡ good u))
  unfolding validated
  validated-good p q h =
      let (u, (e, g)) = then-good (validate_payload j p) (λ _. good p) q h in
      (ground (arith, g), (u, e))

  -- What stands behind each stage: the payload was checked, under a version that is given.
  abbrev Checks : ℕ → Packet J → Type 0
  Checks version q = (q.version ≡ version) × ((u : Unit {0}) × (validate_payload j q ≡ good u))

  read_payload-good :
      (root : J) (version message_type : ℕ) (q : Packet J)
      → read_payload j root version message_type ≡ good q
      → Checks version q
  unfolding read_payload
  read_payload-good root version message_type q h =
      let (schema, (known, h1)) =
        present-good (schema_for message_type) unknown_message_type _ q h in
      let (payload, (has, h2)) =
        present-good (j.find root payload_key) missing_envelope_field _ q h1 in
      let p : Packet J = record {
        message_type = message_type;
        payload = payload;
        version = version;
      } in
      let (same, (u, e)) = validated-good p q h2 in
      (sym (ap (λ x. x.version) same), (u, ap (validate_payload j) (sym same) ∙ e))

  read_body-good :
      (root : J) (version : ℕ) (q : Packet J)
      → read_body j root version ≡ good q
      → (is_supported_version version ≡ true) × Checks version q
  unfolding read_body
  read_body-good root version q h =
      let h1 = require-good (is_supported_version version) unsupported_version _ q h in
      let (type_json, (found, h2)) =
        present-good (j.find root type_key) missing_envelope_field _ q h1.1 in
      let (message_type, (typed, h3)) = then-good (read_type j type_json) _ q h2 in
      (h1.0, read_payload-good root version message_type q h3)

  read_envelope-good :
      (root : J) (q : Packet J)
      → read_envelope j root ≡ good q
      → (is_supported_version q.version ≡ true) × ((u : Unit {0}) × (validate_payload j q ≡ good u))
  unfolding read_envelope
  read_envelope-good root q h =
      let h1 = require-good (j.is_object root) invalid_envelope_field_type _ q h in
      let (version, (read, h2)) = then-good (read_version j (j.find root version_key)) _ q h1.1 in
      let (supported, (same, valid)) = read_body-good root version q h2 in
      (ap is_supported_version same ∙ supported, valid)

  valid-IsMessage :
      (q : Packet J) (u : Unit {0})
      → is_supported_version q.version ≡ true
      → validate_payload j q ≡ good u
      → IsMessage q
  unfolding validate_payload
  valid-IsMessage q u supported h =
      let (schema, (known, h1)) =
        present-good (schema_for q.message_type) unknown_message_type _ u h in
      let (object, h2) = require-good (j.is_object q.payload) invalid_payload_type _ u h1 in
      record {
        schema = schema;
        known = known;
        supported = supported;
        object = object;
        fits = check_fields-good schema.fields q.payload u h2;
      }

  -- Each packet that is read has a supported version and a known type, and its payload is an object
  -- that has every field that the type's schema requires, each field of the schema that is there with
  -- the type that the schema gives it.
  pub accepted_packets_conform :
      (text : Bytes) (packet : Packet J) → try_deserialize j text ≡ good packet → IsMessage packet
  unfolding try_deserialize
  accepted_packets_conform text packet h =
      let (root, (parsed, h1)) = present-good (j.parse text) invalid_json _ packet h in
      let (supported, (u, valid)) = read_envelope-good root packet h1 in
      valid-IsMessage packet u supported valid
