-- ===== src/Lib.antt =====
-- The snake server of this repository and the wire format that it shares with its clients, modelled
-- from the sources, with the theorems that they keep their promises.
--
-- The program. Clients and server exchange messages over TCP. A message is serialised
-- (include/common/Protocol.h), framed by its length and put back together by the receiver
-- (src/snake_server/NetworkServer.cpp, src/snake_client/NetworkClient.cpp). The server stamps and logs
-- each message (include/common/MessageLogWriter.h), hands it to a handler, and in each turn moves the
-- snakes, resolves collisions and broadcasts the state (src/snake_server/SnakeServer.cpp,
-- include/snake_server/Player.h). A log can be replayed (include/common/MessageLogReader.h). A bot
-- keeps what a broadcast says (include/snake_client/GameState.h) and searches it for its next move
-- (src/snake_bot/Pathfinder.cpp).
--
-- The files.
-- - Base: numbers, lists, the result of a call that may throw, signed integers, and maps as association
--   lists with distinct keys. The order of such a list stands for the order in which an unordered_map
--   is iterated, which the theorems leave open.
-- - Protocol: the structs (Types), readRawBytes, writeRawBytes and appendRawBytes (Bytes), serialise
--   (Write) and deserialise (Read), field by field in the order of the code. A buffer is a list of
--   bytes; a write pointer splits it. Valid says which values the C++ types hold.
-- - Frame: parseReceivedPacket of both sides, whose loop takes fuel: as many rounds as the buffer has
--   bytes, and each round takes four at least. Session follows a client's messages into the server.
-- - MessageLog: log, first and nextBatch on the bytes of a file. The loop of nextBatch takes as much
--   fuel as the file has bytes and one more round, for the same reason.
-- - Snake: the chain of segments, with move, moveTo, grow and getSegments.
-- - Engine: the fields of SnakeServer that the game reads and writes (State), updateSnakes, moveSnake
--   and updateOccupiedCells (Move), checkCollisions and what it calls (Collide, Food), the handlers of
--   inputs and disconnects (Input), createNewPlayer, placeFood, replaceFood and placeSpeedBoost (Food),
--   and the turn in the loop of run (Tick). Arena and Update carry the invariant through updateSnakes;
--   Counts says what is counted; Order, Standing, Verdict, Rules, Chain, Chosen, Destroyed and Collisions
--   say whom checkCollisions destroys;
--   Reach has the games that the server comes to, and Refill the rounds of replaceFood. An exception is a value of type Error.
-- - Server: the fields of SnakeServer beside the game, stampMessage and buildGameState (State), and
--   handleClientJoin, broadcastGameState, the dispatch of a message and the body of the loop of run
--   (Handle), and pollMessages (Poll). A round is given the messages that pollMessages returns, and what
--   it hands to NetworkServer is put on a list. Records is about the message log, Replay about a round
--   in a replay, Total about the exceptions, Served about the connections from round to round. Start has
--   the constructor, initServerConfig and recordServerConfig, Size the length of a broadcast.
-- - NetworkServer: the maps of connections, the buffers and the list to disconnect, on which
--   pollMessages, drainDisconnects, sendToClient and broadcast work. What epoll_wait, accept, recv and
--   send return is given. Connected has the invariant of the maps, Feed and Poll follow a connection
--   through pollMessages, Drain and Send are about the other operations.
-- - Client: the state that a client or bot keeps (GameState, of include/snake_client/GameState.h) and
--   what of the server's game it shows (Shown); sendToServer and receiveFromServer (Network) of
--   src/snake_client/NetworkClient.cpp; and the state and the round of src/snake_client/SnakeClient.cpp
--   (Play), of which Latest tells what comes of the messages of one recv. Screen has the calls of mvaddch
--   that render makes, Seen and Rendered what is seen of them, Layers what comes of drawing over what
--   was drawn, and Display what is seen of a broadcast. Guided joins server, broadcast and pathfinder.
-- - Bot: src/snake_bot/SnakeBot.cpp, and in Round what it answers to a broadcast.
-- - Socket: what recv and send return.
-- - Pathfinder: src/snake_bot/Pathfinder.cpp on a list of rows, where `at` out of range is an exception.
--   The loop of computePaths takes fuel: a round for each cell of the map and for each item, since a
--   cell comes on the queue with its first value or as an item. Grid is about reads and writes, Walks
--   says what is searched, Populate and Seeds prepare the search, Visit and Loop carry its invariant,
--   Shortest draws the conclusion; Choice and Moves are about calculateNextMove, and Hunt about both.
-- Bounds. The game's int and milliseconds are unbounded integers, and time points are nanoseconds; the
-- counts of body segments wrap at 2 ^ 16 as uint16_t does, and all that goes over the wire has the
-- width of its C++ type. The random generator is a parameter of the engine, whose state the game
-- carries: theorems hold for every generator, or for one that stays in the bounds that it is asked for.
-- replaceFood takes fuel, since a generator may draw the same cell for ever.
--
-- Not modelled: the system calls of sockets and epoll, signals, log lines, the clock, the lines of
-- text under the arena (renderScore) and the setting up of ncurses, and the command line.
pub mod Base
pub mod Protocol
pub mod Frame
pub mod MessageLog
pub mod Snake
pub mod Engine
pub mod Server
pub mod Client
pub mod Pathfinder
pub mod NetworkServer
pub mod Socket
pub mod Bot
