-- ===== src/Lib.antt =====
-- Kierki: the card game server and client, modelled and verified.
--
-- Parts and files. common/: Types (common_types.h, constants.h, nxtSide), Card (card.cpp), Hands
-- (rmCardIfPresent and rmIntersection of utils.cpp), Text (std::to_string and atoi), SendJob
-- (send_job.cpp), Regex (std::regex_match, as far as the protocol's patterns use it), MsgParser
-- (network_msg_parser.cpp), SendNoBlock and Scenario (sendNoBlockN and parseScenario of utils.cpp).
-- server/: GameRules (game_rules.cpp), JobQueue (job_queue.cpp),
-- IoWorker (the queue loops of io_worker.cpp, and in IoWorker.Loop its run), IoWorkerHandler
-- (io_worker_handler.cpp, with closeConn), IoWorkerConnect (io_worker_connect.cpp), IoWorkerMgr
-- (io_worker_mgr.cpp), Server (server.cpp). client/: Client, with Client.Strategy (strategy.cpp),
-- Client.PlayerAuto (player_auto.cpp), Client.PlayerConsole (player_console.cpp), Client.Dispatch
-- (what Client::run of client.cpp does with a line) and Client.Run (the rest of client.cpp).
-- Options is the loop over the arguments in kierki-client.cpp.
--
-- The server's handlers (Server.Round.player_tricked for Server::playerTricked,
-- Server.Players.player_intro for Server::playerIntro and so on) run under one mutex, so each is a
-- function from the state to the new state. IoWorkerHandler.socket_action cuts the bytes of a
-- socket into lines, parses them and calls these handlers through the interface
-- IoWorkerHandler.Callbacks, which Server.Handling.server_callbacks fills. The handlers ask
-- GameRules for the legality of a move and for the taker of a trick, and send messages through
-- IoWorkerMgr into the JobQueue of a worker. IoWorker.Loop.turn is one round of a worker's thread,
-- which takes the messages over and sends them, with its callbacks and its socket behind the
-- interface IoWorker.Loop.Links. Server.Seating.Reachable puts the callbacks of all workers, in any
-- order, into the relation Step, and what they lead to from Server::run into Reach. The client's
-- Client.Run.step is one round of Client::run, with the player behind the interface
-- Client.Run.Player; the automatic player answers with Client.Strategy.
--
-- State is a record with the fields of the class. An exception, or a read outside a container, is
-- `none`. Sides and round types are data types, a colour is the value of its enumerator. A map
-- with sides for keys is a function, one with worker indices for keys is an association list;
-- where the iteration order of a C++ map shows, it is the argument `order`. A round that Scenario
-- reads keeps the numbers that are cast to its penalty and its side, as the integers of Scenario.ℤ;
-- the server's model starts from rounds whose numbers are enumerators, as Scenario.name_round reads
-- them. Other numbers are natural numbers: all of the source's stay far below the bounds of int,
-- since a game adds at most 100 points a round.
--
-- Bounds and fuel. Text.digits has one round more than its number, and takes at most one for each
-- digit. MsgParser.Pieces.cards_loop has one round more than the text has characters, and reads at
-- least two of them in each. IoWorker.drain_jobs needs one round more than there are messages.
-- Scenario.parse_scenario has one round more than there are lines. IoWorker.Loop.run_loop and
-- Client.Run.run_loop take one step for each answer of poll that they are given, and
-- SendNoBlock.send_from one for each answer of send.
--
-- Not modelled: the system calls themselves, whose answers are arguments; the log and the clock
-- (common/logger.cpp, common/message.cpp), addresses, signals and socket options (the other
-- functions of common/utils.cpp, Server::makeTCPSock, Client::makeConnection), which are input and
-- output; what the threads of other workers do between two calls of one turn, other than through
-- the calls of IoWorker.Loop.Links; the main program of the server, whose options a library reads.
pub mod Prelude
pub mod Types
pub mod Card
pub mod Hands
pub mod GameRules
pub mod Text
pub mod SendJob
pub mod Regex
pub mod MsgParser
pub mod JobQueue
pub mod IoWorker
pub mod IoWorkerMgr
pub mod IoWorkerHandler
pub mod IoWorkerConnect
pub mod SendNoBlock
pub mod Scenario
pub mod Server
pub mod Client
pub mod Options
pub mod Examples
