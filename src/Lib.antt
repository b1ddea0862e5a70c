-- ===== src/Lib.antt =====
-- The chat server open-chat-be: what its realtime and direct-message modules promise, and that the
-- code keeps it. Paths are those of the repository, from its root.
--
-- Parts. Clients hold a web socket to a node. The gateway (src/modules/realtime/realtime.gateway.ts)
-- lets a client in once it has signed a challenge, gives it a session, joins it to the rooms of its
-- session and of its user, and replays what it has missed. Events go to rooms, on the node itself and
-- by way of a Redis channel to the others, and are sent again until the client acknowledges them.
-- Direct messages (src/modules/direct_message) lie in a queue in the database until the recipient
-- confirms them, are copied to other servers, and are pulled from those when a user connects. When
-- servers synchronize their tables, the validators vote on each row (src/modules/peer_network/sync).
--
-- Files, each with its children for the proofs:
--   Prelude, Results, Text, Json: lists, maps and sets as JavaScript has them, exceptions as values,
--     the string functions and regular expressions that the code uses, message bodies;
--   Realtime/Types, Keys, Signature: types/realtime.types.ts, utils/realtime_keys.util.ts,
--     realtime_room.util.ts and realtime_signature.util.ts;
--   Realtime/Redis: the commands of Redis that the services call, as interfaces with laws;
--   Realtime/Connection, Rooms, Sessions, Challenges, Delivery: services/realtime_connection,
--     realtime_room, realtime_session, realtime_challenge and realtime_delivery.service.ts;
--   Realtime/Fanout: services/realtime_fanout.service.ts and realtime.service.ts;
--   Realtime/Gateway: realtime.gateway.ts, on the state of a whole node; its child Node is the
--     transition system of the handlers, the timers and the channels, with the invariant of a node;
--   DirectMessages/Types, Signature, Table: the rows, the payloads and their checks, and the queries
--     of the database as an interface with laws;
--   DirectMessages/Send, Queue, Remote: direct_message.service.ts: sending a message, confirming and
--     synchronizing, and the requests of other servers;
--   PeerNetwork/Replicas, Quorum, Retries, Seen, Scores: peer_network/peer_network.service.ts: where
--     copies of a message lie, deletions that are tried again, events seen before, scores of peers;
--   PeerNetwork/Reports: the reports of other servers on scores, in the same file and in
--     utils/server_score_signature.util.ts; Incoming keeps them, Aggregates makes means of them;
--   Sync/Types, Votes: sync/types/sync_wire.types.ts and sync/services/vote_verification.service.ts;
--   Sync/Tables, Database, Serve, Apply: sync/services/table_sync_runner.service.ts: the rows of
--     every table and what is sent of them, the queries as an interface with laws, what a server
--     answers, and how rows of others are written; Ordered is about lists in the order of keys;
--   Sync/Validators, Startup, Gossip: validator_discovery, startup_sync and dm_delete_gossip.service.ts
--     of sync/services: the choice of validators, the loop over tables and pages with its votes, and
--     deletions that spread from server to server, with their handler in peer_network.service.ts;
--   Realtime/Examples, DirectMessages/Examples, PeerNetwork/Examples, Sync/Examples: stores kept in
--     memory that obey the laws of the interfaces, and runs on them.
--
-- State and operations. A method is a function of the name of the method, from the state it reads
-- to the state it leaves, with what it sends or emits as a list in order; a JavaScript map is an
-- association list in the order of insertion, a set a list without repetition. The clock, a random
-- identifier and the readiness of a socket are arguments. An exception is the result `err`.
--
-- Bounds. The loops of the code run over lists, and are recursion on them, but for the loop over the
-- pages of a table: `sync_table` has fuel, and a turn more than the source has rows is enough if the
-- source keeps to the protocol and its rows can be written. Numbers are natural, a `Float` is a
-- fraction, and subtraction is written where the code has it and does not go below zero there. Dates
-- are milliseconds after 1970.
--
-- Not modelled. A handler runs to its end before the next one starts, so that nothing is said of two
-- handlers that interleave at an `await`. Redis, the database, SHA-256, Ed25519, the calendar and
-- the order of texts are parameters with their documented behaviour; keys that run out in Redis are
-- replies of nothing. A write that breaks a unique column fails, any other write of the database
-- succeeds. JSON texts in the stores stand for the values they encode. The answers of other
-- servers are functions from requests to answers. Of the peer network, libp2p, signed events between
-- servers, what sends reports and presence are left out; of the synchronization its log of progress, the
-- time limits of requests and tables, and the timer that verifies weak rows again. Users, traces,
-- configuration, controllers and generated code are left out.
pub mod Prelude
pub mod Results
pub mod Text
pub mod Json
pub mod Realtime
pub mod DirectMessages
pub mod PeerNetwork
pub mod Sync
