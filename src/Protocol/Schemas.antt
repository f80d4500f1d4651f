-- ===== src/Protocol/Schemas.antt =====
-- The schemas of the messages, shared/src/net/Protocol.cpp. A message type is its number, since the
-- source casts any byte to the enumeration; the names of the messages are left out.
use devy_fps.Prelude.{
  ℕ, Bool, true, false, List, [], ◌∷◌, Option, none, some, Bytes, eqb, if◌then◌else◌,
}
use devy_fps.Protocol.Names.{
  player_name_key, client_build_key, feature_flags_key, message_key, max_players_key,
  protocol_version_key, player_id_key, input_seq_key, move_x_key, move_y_key, jump_key, sprint_key,
  crouch_key, fire_key, tick_key, players_key, events_key, x_key, y_key, z_key, block_id_key,
  coins_key, attacker_id_key, victim_id_key, damage_key, lethal_key, state_key,
  remaining_seconds_key, scoreboard_key, client_time_ms_key, shot_seq_key, weapon_id_key,
  origin_key, direction_key, client_fire_time_ms_key, pickup_seq_key, spawn_id_key,
}

pub data PayloadFieldType : Type 0 where
  number_field integer_field boolean_field string_field object_field array_field : PayloadFieldType

pub record FieldRule : Type 0 where
  pub name : Bytes
  pub field_type : PayloadFieldType
  pub required : Bool

pub record MessageSchema : Type 0 where
  pub message_type : ℕ
  pub fields : List FieldRule

abbrev rule : Bytes → PayloadFieldType → Bool → FieldRule
rule name field_type required = record { name = name; field_type = field_type; required = required }

abbrev join_request_fields : List FieldRule
join_request_fields =
    rule player_name_key string_field true
    ∷ rule client_build_key string_field false
    ∷ rule feature_flags_key array_field false
    ∷ []

abbrev join_accept_fields : List FieldRule
join_accept_fields =
    rule message_key string_field true
    ∷ rule max_players_key integer_field true
    ∷ rule protocol_version_key integer_field true
    ∷ rule feature_flags_key array_field false
    ∷ []

abbrev player_input_fields : List FieldRule
player_input_fields =
    rule player_id_key integer_field true
    ∷ rule input_seq_key integer_field true
    ∷ rule move_x_key number_field true
    ∷ rule move_y_key number_field true
    ∷ rule jump_key boolean_field true
    ∷ rule sprint_key boolean_field true
    ∷ rule crouch_key boolean_field true
    ∷ rule fire_key boolean_field true
    ∷ []

abbrev state_snapshot_fields : List FieldRule
state_snapshot_fields =
    rule tick_key integer_field true
    ∷ rule players_key array_field true
    ∷ rule events_key array_field false
    ∷ []

abbrev block_update_fields : List FieldRule
block_update_fields =
    rule player_id_key integer_field false
    ∷ rule x_key integer_field true
    ∷ rule y_key integer_field true
    ∷ rule z_key integer_field true
    ∷ rule block_id_key integer_field true
    ∷ []

abbrev inventory_update_fields : List FieldRule
inventory_update_fields =
    rule player_id_key integer_field true ∷ rule coins_key integer_field true ∷ []

abbrev damage_event_fields : List FieldRule
damage_event_fields =
    rule attacker_id_key integer_field true
    ∷ rule victim_id_key integer_field true
    ∷ rule damage_key integer_field true
    ∷ rule lethal_key boolean_field true
    ∷ []

abbrev match_state_fields : List FieldRule
match_state_fields =
    rule state_key string_field true
    ∷ rule remaining_seconds_key number_field true
    ∷ rule scoreboard_key array_field false
    ∷ []

abbrev heartbeat_fields : List FieldRule
heartbeat_fields =
    rule player_id_key integer_field true ∷ rule client_time_ms_key integer_field false ∷ []

abbrev weapon_fire_fields : List FieldRule
weapon_fire_fields =
    rule player_id_key integer_field true
    ∷ rule shot_seq_key integer_field true
    ∷ rule weapon_id_key string_field true
    ∷ rule origin_key object_field true
    ∷ rule direction_key object_field true
    ∷ rule client_fire_time_ms_key integer_field false
    ∷ []

abbrev treasure_pickup_fields : List FieldRule
treasure_pickup_fields =
    rule player_id_key integer_field true
    ∷ rule pickup_seq_key integer_field true
    ∷ rule spawn_id_key integer_field true
    ∷ []

abbrev schema : ℕ → List FieldRule → MessageSchema
schema message_type fields = record { message_type = message_type; fields = fields }

abbrev pub message_schemas : List MessageSchema
message_schemas =
    schema 1 join_request_fields
    ∷ schema 2 join_accept_fields
    ∷ schema 3 player_input_fields
    ∷ schema 4 state_snapshot_fields
    ∷ schema 5 block_update_fields
    ∷ schema 6 inventory_update_fields
    ∷ schema 7 damage_event_fields
    ∷ schema 8 match_state_fields
    ∷ schema 9 heartbeat_fields
    ∷ schema 10 weapon_fire_fields
    ∷ schema 11 treasure_pickup_fields
    ∷ []

abbrev find_schema : List MessageSchema → ℕ → Option MessageSchema
find_schema [] message_type = none
find_schema (s ∷ ss) message_type =
    if eqb s.message_type message_type then some s else find_schema ss message_type

unfoldable pub schema_for : ℕ → Option MessageSchema
schema_for message_type = find_schema message_schemas message_type
