-- ===== src/Protocol/Tests.antt =====
-- A heartbeat, over JSON values that are numbers and objects only, with a text format of their own.
use devy_fps.Prelude.{
  ℕ, zero, suc, ◌≡◌, refl, ap, Bool, true, false, [], ◌∷◌, ◌++◌, Option, none, some, if◌then◌else◌,
  length, nat_eq, arith,
}
use devy_fps.Prelude.{Bytes, bytes_eq, bytes_eqb}
use devy_fps.Prelude.Int.{pos}
use devy_fps.Prelude.Map.{Map, get}
use devy_fps.Protocol.Names.{player_id_key}
use devy_fps.Protocol.{
  Json, Packet, good, is_supported_version, validate_payload, try_deserialize, serialize,
}
use devy_fps.Protocol.Accepted.{IsMessage, accepted_packets_conform}
use devy_fps.Protocol.RoundTrip.{JsonLaws, members_of, packets_survive}

data Value : Type 0 where
  null_value no_members : Value
  number : ℕ → Value
  member : Bytes → Value → Value → Value

abbrev object_of : Map Bytes Value → Value
object_of [] = no_members
object_of ((name, v) ∷ ms) = member name v (object_of ms)

abbrev find_in : Value → Bytes → Option Value
find_in null_value name = none
find_in no_members name = none
find_in (number n) name = none
find_in (member k v rest) name = if bytes_eqb k name then some v else find_in rest name

abbrev is_object_value : Value → Bool
is_object_value null_value = false
is_object_value no_members = true
is_object_value (number n) = false
is_object_value (member k v rest) = true

abbrev is_number_value : Value → Bool
is_number_value null_value = false
is_number_value no_members = false
is_number_value (number n) = true
is_number_value (member k v rest) = false

abbrev number_in : Value → ℕ
number_in null_value = 0
number_in no_members = 0
number_in (number n) = n
number_in (member k v rest) = 0

abbrev print : Value → Bytes
print null_value = 0 ∷ []
print no_members = 1 ∷ []
print (number n) = 2 ∷ n ∷ []
print (member k v rest) = 3 ∷ length k ∷ (k ++ (print v ++ print rest))

abbrev split : ℕ → Bytes → Option (Bytes × Bytes)
split zero bs = some ([], bs)
split (suc n) [] = none
split (suc n) (b ∷ bs) = elim (split n bs) [ none ↦ none | some t ↦ some (b ∷ t.0, t.1) ]

abbrev read : ℕ → Bytes → Option (Value × Bytes)
read zero bs = none
read (suc fuel) [] = none
read (suc fuel) (zero ∷ bs) = some (null_value, bs)
read (suc fuel) (suc zero ∷ bs) = some (no_members, bs)
read (suc fuel) (suc (suc zero) ∷ []) = none
read (suc fuel) (suc (suc zero) ∷ n ∷ bs) = some (number n, bs)
read (suc fuel) (suc (suc (suc b)) ∷ []) = none
read (suc fuel) (suc (suc (suc b)) ∷ n ∷ bs) = elim (split n bs) [
  | none ↦ none
  | some k ↦ elim (read fuel k.1) [
    | none ↦ none
    | some v ↦ elim (read fuel v.1) [
      | none ↦ none
      | some rest ↦ some (member k.0 v.0 rest.0, rest.1)
    ]
  ]
]

abbrev read_all : Bytes → Option Value
read_all bs = elim (read (length bs) bs) [ none ↦ none | some v ↦ some v.0 ]

abbrev values : Json Value
values = record {
  null = null_value;
  object = object_of;
  of_unsigned = number;
  dump = print;
  parse = read_all;
  find = find_in;
  is_object = is_object_value;
  is_array = λ v. false;
  is_string = λ v. false;
  is_boolean = λ v. false;
  is_number = is_number_value;
  is_number_integer = is_number_value;
  is_number_unsigned = is_number_value;
  get_unsigned = number_in;
  get_signed = λ v. pos (number_in v);
}

object_lem : (members : Map Bytes Value) → is_object_value (object_of members) ≡ true
object_lem [] = refl
object_lem ((k, v) ∷ ms) = refl

find_lem :
    (members : Map Bytes Value) (name : Bytes) → find_in (object_of members) name ≡ get members name
unfolding get
find_lem [] name = refl
find_lem ((k, v) ∷ ms) name = ap (λ o. if bytes_eqb k name then some v else o) (find_lem ms name)

values_laws : JsonLaws values
values_laws = record {
  object_is_object = object_lem;
  find_object = find_lem;
  unsigned_is_unsigned = λ n. refl;
  get_of_unsigned = λ n h. refl;
}

abbrev heartbeat : Packet Value
heartbeat = record {
  message_type = 9;
  payload = member player_id_key (number 5) no_members;
  version = 1;
}

supported_lem : is_supported_version 1 ≡ true
unfolding is_supported_version
supported_lem = refl

valid_lem : validate_payload values heartbeat ≡ good tt
unfolding validate_payload
valid_lem = refl

parsed_lem :
    read_all (print (object_of (members_of values heartbeat)))
    ≡ some (object_of (members_of values heartbeat))
parsed_lem = refl

packets_survive_example : try_deserialize values (serialize values heartbeat) ≡ good heartbeat
packets_survive_example =
    packets_survive values values_laws heartbeat tt (omega arith) supported_lem valid_lem parsed_lem

accepted_packets_conform_example : IsMessage values heartbeat
accepted_packets_conform_example =
    accepted_packets_conform values (serialize values heartbeat) heartbeat (
      packets_survive values values_laws heartbeat tt (omega arith) supported_lem valid_lem
        parsed_lem)
