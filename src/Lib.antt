-- ===== src/Lib.antt =====
-- devy-fps is a first-person voxel shooter with an authoritative server. Clients send inputs, shots,
-- block actions and pickups; the server queues them, and runs them through its simulations once per
-- tick. This library models the server's core: the tick loop with its input queues, the sessions, the
-- life of a match, the inventories with the treasure on the ground, what players are told of the
-- world's chunks, the changes of single blocks, movement and combat; and the client's prediction
-- and its copy of the chunks.
--
-- Prelude       what the parts share: Boolean tests, lists, `std::unordered_map` (Prelude/Map),
--               `std::sort` (Prelude/Sort, Prelude/Ids), signed integers (Prelude/Int), the
--               per-player command queues and their drain loop (Prelude/Queues), and the operations
--               on `float` (Prelude/Floats).
-- Events        the records that the simulations hand to one another.
-- Loop          AuthoritativeLoop of server/src/AuthoritativeLoop.cpp: `enqueue_input`,
--               `clear_player`, `advance`, `drain_inputs_deterministic`.
-- Session       SessionManager of server/src/SessionManager.cpp: `handle_join_request`,
--               `handle_heartbeat`, `handle_disconnect`, `collect_timed_out`.
-- Match         MatchLifecycleSimulation of server/src/MatchLifecycleSimulation.cpp: Match/Tick and
--               Match/Resolve are `resolve_tick`, Match/Board the scoreboard; Match/Clock follows
--               the clock, Match/Mourning the deaths and Match/Ranking the scoreboard through
--               whole ticks.
-- Loot          InventoryLootSimulation of server/src/InventoryLootSimulation.cpp: Loot/Spawns puts
--               treasure on the ground, Loot/Pickups resolves one pickup, Loot/Resolve is
--               `resolve_tick`.
-- Replication   WorldReplication of server/src/WorldReplication.cpp: which chunks a player is told of;
--               Replication/Update is `build_player_update`.
-- Blocks        BlockInteraction of server/src/BlockInteraction.cpp, with the block access of
--               shared/src/voxel/World.cpp and shared/src/voxel/Chunk.cpp (Blocks/Access).
-- Combat        CombatSimulation of server/src/CombatSimulation.cpp: the object and `enqueue_fire`;
--               Combat/Shots has the float parts (`raycast_victim`, `cooldown_ticks`,
--               `travel_delay_ticks`), Combat/Resolve is `resolve_tick`.
-- Movement      step_movement of shared/src/game/Movement.cpp; Movement/Simulation is
--               MovementSimulation of server/src/MovementSimulation.cpp.
-- Telemetry     RuntimeTelemetry of server/src/RuntimeTelemetry.cpp; Telemetry/Report is `end_tick`.
-- Protocol      the packets of shared/src/net/Protocol.cpp: Protocol/Schemas has the message schemas;
--               `try_deserialize` is in stages (`read_envelope`, `read_body`, `read_payload`). The
--               operations of nlohmann::json are a parameter.
-- Client        Client/Prediction is PredictionReconciler of client/src/PredictionReconciler.cpp, which
--               moves the client's player by the same step_movement; Client/ChunkSync is
--               `apply_chunk_sync` of client/src/ChunkSyncApplier.cpp, which keeps the client's chunks
--               as Replication tells it to.
--
-- The session manager gives each peer a player id, under which the other parts file their records.
-- In a tick the loop hands out the drained inputs; the combat simulation's states and deaths go to
-- the inventories and to the match, and the inventories' summaries go to the match
-- (server/src/main.cpp). Here they are arguments, and the theorems on one part hold for any of them.
-- Combat/Deaths puts combat and match together, Client/Reconciled the client and the server's movement,
-- and Client/Convergence the client's chunks and the server's replication.
--
-- A class is a record of its members and a method a function from the record to the new record and
-- the result, under the source's name. Unsigned members keep their wrap-around where it can occur;
-- `int` sums are exact, where the source's overflow would be undefined. Times are nanoseconds since
-- the clock's epoch, as natural numbers. A hash table is an association list, whose order stands for
-- the order in which the table happens to iterate; `std::sort` is an insertion sort. Strings are lists
-- of bytes. `float` and `double` values are of any types with the operations that the source uses, of
-- which no law is assumed.
--
-- `advance` of the loop runs on fuel: each of its rounds moves the deadline by at least one nanosecond,
-- so `now + 2` rounds are enough (Loop/Ticks). All other loops go over a list or count down.
--
-- Not modelled: the generation and the meshes of the voxel world, what the payloads of the JSON
-- messages are made of and read into, the configuration, the main loops of server and client, and the
-- engine: they are input and output around the modelled parts, or work on files, windows and sockets.
-- The conversions of enumerations to text, the texts of errors and reports, and
-- `parse_loot_drop_mode` are left out.
pub mod Prelude
pub mod Loop
pub mod Session
pub mod Events
pub mod Match
pub mod Loot
pub mod Replication
pub mod Blocks
pub mod Client
pub mod Combat
pub mod Movement
pub mod Telemetry
pub mod Protocol
