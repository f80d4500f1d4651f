-- ===== src/Protocol/Names.antt =====
-- The names of the members of the messages of shared/src/net/Protocol.cpp, as the lists of their bytes.
use devy_fps.Prelude.{[], ◌∷◌, Bytes}

abbrev pub version_key : Bytes
version_key = 118 ∷ 101 ∷ 114 ∷ 115 ∷ 105 ∷ 111 ∷ 110 ∷ []

abbrev pub type_key : Bytes
type_key = 116 ∷ 121 ∷ 112 ∷ 101 ∷ []

abbrev pub payload_key : Bytes
payload_key = 112 ∷ 97 ∷ 121 ∷ 108 ∷ 111 ∷ 97 ∷ 100 ∷ []

abbrev pub player_name_key : Bytes
player_name_key = 112 ∷ 108 ∷ 97 ∷ 121 ∷ 101 ∷ 114 ∷ 95 ∷ 110 ∷ 97 ∷ 109 ∷ 101 ∷ []

abbrev pub client_build_key : Bytes
client_build_key = 99 ∷ 108 ∷ 105 ∷ 101 ∷ 110 ∷ 116 ∷ 95 ∷ 98 ∷ 117 ∷ 105 ∷ 108 ∷ 100 ∷ []

abbrev pub feature_flags_key : Bytes
feature_flags_key = 102 ∷ 101 ∷ 97 ∷ 116 ∷ 117 ∷ 114 ∷ 101 ∷ 95 ∷ 102 ∷ 108 ∷ 97 ∷ 103 ∷ 115 ∷ []

abbrev pub message_key : Bytes
message_key = 109 ∷ 101 ∷ 115 ∷ 115 ∷ 97 ∷ 103 ∷ 101 ∷ []

abbrev pub max_players_key : Bytes
max_players_key = 109 ∷ 97 ∷ 120 ∷ 95 ∷ 112 ∷ 108 ∷ 97 ∷ 121 ∷ 101 ∷ 114 ∷ 115 ∷ []

abbrev pub protocol_version_key : Bytes
protocol_version_key =
    112 ∷ 114 ∷ 111 ∷ 116 ∷ 111 ∷ 99 ∷ 111 ∷ 108 ∷ 95 ∷ 118 ∷ 101 ∷ 114 ∷ 115 ∷ 105 ∷ 111 ∷ 110 ∷ []

abbrev pub player_id_key : Bytes
player_id_key = 112 ∷ 108 ∷ 97 ∷ 121 ∷ 101 ∷ 114 ∷ 95 ∷ 105 ∷ 100 ∷ []

abbrev pub input_seq_key : Bytes
input_seq_key = 105 ∷ 110 ∷ 112 ∷ 117 ∷ 116 ∷ 95 ∷ 115 ∷ 101 ∷ 113 ∷ []

abbrev pub move_x_key : Bytes
move_x_key = 109 ∷ 111 ∷ 118 ∷ 101 ∷ 95 ∷ 120 ∷ []

abbrev pub move_y_key : Bytes
move_y_key = 109 ∷ 111 ∷ 118 ∷ 101 ∷ 95 ∷ 121 ∷ []

abbrev pub jump_key : Bytes
jump_key = 106 ∷ 117 ∷ 109 ∷ 112 ∷ []

abbrev pub sprint_key : Bytes
sprint_key = 115 ∷ 112 ∷ 114 ∷ 105 ∷ 110 ∷ 116 ∷ []

abbrev pub crouch_key : Bytes
crouch_key = 99 ∷ 114 ∷ 111 ∷ 117 ∷ 99 ∷ 104 ∷ []

abbrev pub fire_key : Bytes
fire_key = 102 ∷ 105 ∷ 114 ∷ 101 ∷ []

abbrev pub tick_key : Bytes
tick_key = 116 ∷ 105 ∷ 99 ∷ 107 ∷ []

abbrev pub players_key : Bytes
players_key = 112 ∷ 108 ∷ 97 ∷ 121 ∷ 101 ∷ 114 ∷ 115 ∷ []

abbrev pub events_key : Bytes
events_key = 101 ∷ 118 ∷ 101 ∷ 110 ∷ 116 ∷ 115 ∷ []

abbrev pub x_key : Bytes
x_key = 120 ∷ []

abbrev pub y_key : Bytes
y_key = 121 ∷ []

abbrev pub z_key : Bytes
z_key = 122 ∷ []

abbrev pub block_id_key : Bytes
block_id_key = 98 ∷ 108 ∷ 111 ∷ 99 ∷ 107 ∷ 95 ∷ 105 ∷ 100 ∷ []

abbrev pub coins_key : Bytes
coins_key = 99 ∷ 111 ∷ 105 ∷ 110 ∷ 115 ∷ []

abbrev pub attacker_id_key : Bytes
attacker_id_key = 97 ∷ 116 ∷ 116 ∷ 97 ∷ 99 ∷ 107 ∷ 101 ∷ 114 ∷ 95 ∷ 105 ∷ 100 ∷ []

abbrev pub victim_id_key : Bytes
victim_id_key = 118 ∷ 105 ∷ 99 ∷ 116 ∷ 105 ∷ 109 ∷ 95 ∷ 105 ∷ 100 ∷ []

abbrev pub damage_key : Bytes
damage_key = 100 ∷ 97 ∷ 109 ∷ 97 ∷ 103 ∷ 101 ∷ []

abbrev pub lethal_key : Bytes
lethal_key = 108 ∷ 101 ∷ 116 ∷ 104 ∷ 97 ∷ 108 ∷ []

abbrev pub state_key : Bytes
state_key = 115 ∷ 116 ∷ 97 ∷ 116 ∷ 101 ∷ []

abbrev pub remaining_seconds_key : Bytes
remaining_seconds_key =
    114 ∷ 101 ∷ 109 ∷ 97 ∷ 105 ∷ 110 ∷ 105 ∷ 110 ∷ 103 ∷ 95 ∷ 115 ∷ 101 ∷ 99 ∷ 111 ∷ 110 ∷ 100 ∷ 115
    ∷ []

abbrev pub scoreboard_key : Bytes
scoreboard_key = 115 ∷ 99 ∷ 111 ∷ 114 ∷ 101 ∷ 98 ∷ 111 ∷ 97 ∷ 114 ∷ 100 ∷ []

abbrev pub client_time_ms_key : Bytes
client_time_ms_key =
    99 ∷ 108 ∷ 105 ∷ 101 ∷ 110 ∷ 116 ∷ 95 ∷ 116 ∷ 105 ∷ 109 ∷ 101 ∷ 95 ∷ 109 ∷ 115 ∷ []

abbrev pub shot_seq_key : Bytes
shot_seq_key = 115 ∷ 104 ∷ 111 ∷ 116 ∷ 95 ∷ 115 ∷ 101 ∷ 113 ∷ []

abbrev pub weapon_id_key : Bytes
weapon_id_key = 119 ∷ 101 ∷ 97 ∷ 112 ∷ 111 ∷ 110 ∷ 95 ∷ 105 ∷ 100 ∷ []

abbrev pub origin_key : Bytes
origin_key = 111 ∷ 114 ∷ 105 ∷ 103 ∷ 105 ∷ 110 ∷ []

abbrev pub direction_key : Bytes
direction_key = 100 ∷ 105 ∷ 114 ∷ 101 ∷ 99 ∷ 116 ∷ 105 ∷ 111 ∷ 110 ∷ []

abbrev pub client_fire_time_ms_key : Bytes
client_fire_time_ms_key =
    99 ∷ 108 ∷ 105 ∷ 101 ∷ 110 ∷ 116 ∷ 95 ∷ 102 ∷ 105 ∷ 114 ∷ 101 ∷ 95 ∷ 116 ∷ 105 ∷ 109 ∷ 101 ∷ 95
    ∷ 109 ∷ 115 ∷ []

abbrev pub pickup_seq_key : Bytes
pickup_seq_key = 112 ∷ 105 ∷ 99 ∷ 107 ∷ 117 ∷ 112 ∷ 95 ∷ 115 ∷ 101 ∷ 113 ∷ []

abbrev pub spawn_id_key : Bytes
spawn_id_key = 115 ∷ 112 ∷ 97 ∷ 119 ∷ 110 ∷ 95 ∷ 105 ∷ 100 ∷ []
