-- ===== src/Protocol/RoundTrip.antt =====
-- `serialize` and `try_deserialize` of shared/src/net/Protocol.cpp.
use devy_fps.Prelude.{
  ℕ, ◌<◌, ◌≡◌, ◌∙◌, ap, Bool, true, ◌&&◌, ◌||◌, [], ◌∷◌, Option, some, if◌then◌else◌, nat_eq, arith,
}
use devy_fps.Prelude.{not, Bytes, bytes_eq}
use devy_fps.Prelude.Int.{pos, ltb_ℤ, pos_part}
use devy_fps.Prelude.Map.{Map, get}
use devy_fps.Protocol.Names.{version_key, type_key, payload_key}
use devy_fps.Protocol.Schemas.{MessageSchema, schema_for}
use devy_fps.Protocol.{
  Json, Packet, ProtocolError, Checked, good, ◌then◌, require, present, is_supported_version,
  validate_payload, read_version, read_type, validated, read_payload, read_body, read_envelope,
  try_deserialize, serialize, integer_of, invalid_envelope_field_type, unknown_message_type,
  missing_envelope_field, invalid_json, unsupported_version,
}
use devy_fps.Protocol.Accepted.{present-good}

-- What the documentation of nlohmann::json says of objects and of numbers made of unsigned integers.
pub record JsonLaws {J : Type 0} (j : Json J) : Type 0 where
  pub object_is_object : (members : Map Bytes J) → j.is_object (j.object members) ≡ true
  pub find_object :
      (members : Map Bytes J) (name : Bytes) → j.find (j.object members) name ≡ get members name
  pub unsigned_is_unsigned : (n : ℕ) → j.is_number_unsigned (j.of_unsigned n) ≡ true
  pub get_of_unsigned : (n : ℕ) → n < 18446744073709551616 → j.get_unsigned (j.of_unsigned n) ≡ n

require-true :
    {B : Type 0} (c : Bool) (e : ProtocolError) (k : Unit {0} → Checked B)
    → c ≡ true
    → (require c e then k) ≡ k tt
require-true c e k h = ap (λ b. require b e then k) h

present-some :
    {A B : Type 0} (o : Option A) (e : ProtocolError) (k : A → Checked B) (a : A)
    → o ≡ some a
    → (present o e then k) ≡ k a
present-some o e k a h = ap (λ x. present x e then k) h

then_good :
    {A B : Type 0} (x : Checked A) (k : A → Checked B) (a : A) → x ≡ good a → (x then k) ≡ k a
then_good x k a h = ap (λ y. y then k) h

or_true : (a b : Bool) → b ≡ true → (a || b) ≡ true
or_true a b h = ground (arith, h)

module _ {J : Type 0} (j : Json J) where
  -- The envelope that `serialize` makes.
  abbrev pub members_of : Packet J → Map Bytes J
  members_of p =
      (version_key, j.of_unsigned p.version)
      ∷ (type_key, j.of_unsigned p.message_type)
      ∷ (payload_key, p.payload)
      ∷ []

module _ {J : Type 0} (j : Json J) (laws : JsonLaws j) where
  integer_of_unsigned : (n : ℕ) → n < 4294967296 → integer_of j (j.of_unsigned n) ≡ pos n
  integer_of_unsigned n h =
      rw (laws.unsigned_is_unsigned n) (ap pos (laws.get_of_unsigned n (omega (arith, h))))

  read_version_unsigned :
      (n : ℕ) → 0 < n → n < 4294967296 → read_version j (some (j.of_unsigned n)) ≡ good n
  unfolding read_version
  read_version_unsigned n g h =
      let v = j.of_unsigned n in
      let z = integer_of_unsigned n h in
      require-true _ invalid_envelope_field_type _
        (or_true (j.is_number_integer v) (j.is_number_unsigned v) (laws.unsigned_is_unsigned n))
      ∙ ap
          (λ i.
            require (ltb_ℤ (pos 0) i && not (ltb_ℤ (pos 4294967295) i)) invalid_envelope_field_type
            then λ _. good (pos_part i))
          z
      ∙ require-true (ltb_ℤ (pos 0) (pos n) && not (ltb_ℤ (pos 4294967295) (pos n)))
          invalid_envelope_field_type _ (ground (arith, g, h))

  read_type_unsigned : (n : ℕ) → n < 256 → read_type j (j.of_unsigned n) ≡ good n
  unfolding read_type
  read_type_unsigned n h =
      let v = j.of_unsigned n in
      let z = integer_of_unsigned n (omega (arith, h)) in
      require-true _ invalid_envelope_field_type _
        (or_true (j.is_number_integer v) (j.is_number_unsigned v) (laws.unsigned_is_unsigned n))
      ∙ ap
          (λ i.
            require (not (ltb_ℤ i (pos 0)) && not (ltb_ℤ (pos 255) i)) unknown_message_type
            then λ _. good (pos_part i))
          z
      ∙ require-true (not (ltb_ℤ (pos n) (pos 0)) && not (ltb_ℤ (pos 255) (pos n)))
          unknown_message_type _ (ground (arith, h))

  supported-bound : (n : ℕ) → is_supported_version n ≡ true → (0 < n) × (n < 4294967296)
  unfolding is_supported_version
  supported-bound n h = (ground (arith, h), ground (arith, h))

  schema-validate_payload :
      (p : Packet J) (u : Unit {0})
      → validate_payload j p ≡ good u
      → (schema : MessageSchema) × (schema_for p.message_type ≡ some schema)
  unfolding validate_payload
  schema-validate_payload p u h =
      let (schema, (known, rest)) =
        present-good (schema_for p.message_type) unknown_message_type _ u h in
      (schema, known)

  validated_lem :
      (p : Packet J) (u : Unit {0}) → validate_payload j p ≡ good u → validated j p ≡ good p
  unfolding validated
  validated_lem p u h = ap (λ (x : Checked (Unit {0})). x then λ _. good p) h

  read_payload_lem :
      (p : Packet J) (u : Unit {0})
      → validate_payload j p ≡ good u
      → read_payload j (j.object (members_of j p)) p.version p.message_type ≡ good p
  unfolding read_payload get
  read_payload_lem p u h =
      let (schema, known) = schema-validate_payload p u h in
      present-some (schema_for p.message_type) unknown_message_type _ schema known
      ∙ present-some (j.find (j.object (members_of j p)) payload_key) missing_envelope_field _
          p.payload (laws.find_object (members_of j p) payload_key)
      ∙ validated_lem p u h

  read_body_lem :
      (p : Packet J) (u : Unit {0})
      → p.message_type < 256
      → is_supported_version p.version ≡ true
      → validate_payload j p ≡ good u
      → read_body j (j.object (members_of j p)) p.version ≡ good p
  unfolding read_body get
  read_body_lem p u b supported h =
      require-true (is_supported_version p.version) unsupported_version _ supported
      ∙ present-some (j.find (j.object (members_of j p)) type_key) missing_envelope_field _
          (j.of_unsigned p.message_type) (laws.find_object (members_of j p) type_key)
      ∙ then_good (read_type j (j.of_unsigned p.message_type)) _ p.message_type
          (read_type_unsigned p.message_type b)
      ∙ read_payload_lem p u h

  read_envelope_lem :
      (p : Packet J) (u : Unit {0})
      → p.message_type < 256
      → is_supported_version p.version ≡ true
      → validate_payload j p ≡ good u
      → read_envelope j (j.object (members_of j p)) ≡ good p
  unfolding read_envelope get
  read_envelope_lem p u b supported h =
      let (least, most) = supported-bound p.version supported in
      require-true (j.is_object (j.object (members_of j p))) invalid_envelope_field_type _
        (laws.object_is_object (members_of j p))
      ∙ then_good (read_version j (j.find (j.object (members_of j p)) version_key)) _ p.version (
          ap (read_version j) (laws.find_object (members_of j p) version_key)
          ∙ read_version_unsigned p.version least most)
      ∙ read_body_lem p u b supported h

  -- A packet with a supported version, a type of one byte and a payload that its schema accepts is read
  -- back as it was written, if the JSON library parses the text that it made of the packet's envelope
  -- to that envelope.
  pub packets_survive :
      (p : Packet J) (u : Unit {0})
      → p.message_type < 256
      → is_supported_version p.version ≡ true
      → validate_payload j p ≡ good u
      → j.parse (j.dump (j.object (members_of j p))) ≡ some (j.object (members_of j p))
      → try_deserialize j (serialize j p) ≡ good p
  unfolding try_deserialize serialize
  packets_survive p u b supported h parsed =
      present-some (j.parse (j.dump (j.object (members_of j p)))) invalid_json _
        (j.object (members_of j p)) parsed
      ∙ read_envelope_lem p u b supported h
