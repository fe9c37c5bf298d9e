-- ===== src/Lib.antt =====
-- A model of the YNet server and its client (ynetserver.cpp, ynetserver.h, message.cpp, message.h,
-- room.h, client.h, ynetclient.cpp, ynetclient.h, main.cpp). The server is a relay for games on ENet: peers connect, create and join rooms under six-letter
-- codes, and what a member sends goes to the others of its room.
--
-- How the program is put together. `YNetServer::run` takes one event after the other from ENet.
-- A connection makes a `Client` with a fresh id; a packet goes to `handleReceivedData`, which
-- parses it with `Message::Deserialize` and calls one handler by its type; a disconnection frees
-- the id and makes the client leave its room. The handlers share `clients` and `rooms` and answer
-- through `sendMessage`.
--
-- Where the parts stand.
--   Base              Boolean tests, optional steps, lists, byte strings, `int`, and the containers
--                     (`std::map`, `std::unordered_map`, `std::set`) as association lists
--   Stream            the streams of thirdparty/serialize.h: a parameter, with laws, and one
--                     concrete stream
--   Message           message types and structures; Message.Wire writes them, Message.Parse reads
--                     them, with `serialize_godot_string_internal` of thirdparty/serialize.h
--   Text, Hash        `std::to_string`, `std::stoi`, `find`; `hash_fmix32`, `stringToHash`
--   Room              `Room`, `Client`, room codes
--   Server            the state of `YNetServer` and what it asks of ENet; below it Send
--                     (`sendMessage`, `sendRPCMessage`), Ids, Create, Join, Leave (with kicks),
--                     Settings, Relay, Info (room lists and room info), Dispatch
--                     (`handleReceivedData`) and Run (`run`)
--   Server.Ends, Server.Yields
--                     rules for what holds of the server when a handler returns, and for that it
--                     returns
--   Server.Invariant  the invariant of the server's state, against each operation
--   Server.Liveness   when the server serves an event and goes on
--   Server.Undo       operations that undo each other
--   Server.SetUp, Server.Status
--                     the constructor and the destructor; the status page
--   Server.Directory  an abstract directory of rooms with its steps, against the events of the
--                     server
--   Resources         the calls of ENet and mongoose that acquire and release, and their order
--   Client            the requests of `YNetClient` and its message loop; below it Commands (`run`,
--                     with the lines that the user types) and Connection (`connect`, `disconnect`)
--   Program           main.cpp: the arguments, the address, the choice of client or server
--   Tests             concrete runs
--
-- How the code corresponds. A function of the code is a definition of the same name in lower case
-- (`handleRoomLeave` is `handle_room_leave`). A handler takes a `World`, which is the server, the
-- random draws to come and the effects so far, and returns an `Option World`: `none` stands for a
-- process that ends or is undefined (a failed assertion of a stream, a null pointer, an index out
-- of range, an exception that nobody catches, a search that never ends). A `Client*` is the entry
-- of `clients` under its peer; a `Room&` is the entry of `rooms` under its code. An
-- `std::unordered_map` keeps its entries in some order, a new one first. Output to the console and
-- to the error log is left out.
--
-- Fuel. `find_room_id` has 65536 rounds and `find_client_id` 64536, one for each id there is, after
-- which the search is back where it started. `digits` has n + 1 rounds for n.
--
-- Answers of the libraries. What ENet and mongoose answer to a call is an argument: Booleans and
-- lists of what `enet_host_service` reports. The client's message thread is a flag, and what it does
-- between two lines of the user is a sequence of turns, each of them whole.
--
-- Not modelled: ENet, mongoose and nlohmann::json themselves, what goes to the console and to the
-- error log, the time, and running out of memory: the `resize` of a vector to a size from the
-- network may throw, and the model has only the read behind it that fails. `remove_room` takes the
-- room's id from before the entry is erased, where the code reads it from the erased entry.
pub mod Base
pub mod Stream
pub mod Message
pub mod Text
pub mod Hash
pub mod Room
pub mod Resources
pub mod Server
pub mod Client
pub mod Program
pub mod Tests
