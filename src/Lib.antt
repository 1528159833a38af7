-- ===== src/Lib.antt =====
-- Verification of the ZeroMQ protocol implementations.
--
-- The program is a set of services that exchange messages over ZeroMQ sockets, one folder for each
-- protocol. Each part runs loops that poll sockets, read the clock, change their state and send
-- messages. The parts meet in their messages: a client's request goes to a broker or a server, which
-- passes it on to a worker; workers, brokers and peers tell each other that they are alive.
--
-- How the code is modelled. A part's state is a record; an operation is a function of the state, of the
-- message that it receives and of its readings of the clock (milliseconds as natural numbers), which
-- are arguments: a theorem about all arguments is one about any times. What is sent is appended to a
-- history in the state. An exception, a failed contract or another fault is an `err` of Base.Outcome.
-- A loop is a function over the list of what its rounds read, so no fuel is needed there; it ends as
-- the code ends it. A frame is the list of its bytes, and a text that the code passes as `const char*`
-- is cut at its first zero byte (`c_str`). An `int` in a message is given by its 32-bit pattern; counters
-- of messages wrap at 2 ^ 32, where the code's signed overflow has no defined result.
--
-- The files, with the paths of the code from the repository's root:
--   Base: shared names, tests, lists, frames; Base.Zmqpp, zmqpp's messages as a parameter with
--     their documented laws (Base.ListMessages is a concrete instance); Base.Dict, `unordered_map` as an
--     association list, the order of whose entries is the order of the program's loops over the map.
--   Ppp: 6.PPP-Paranoid Pirate Protocol. Ppp.WorkerQueue is broker/worker_queue.cpp, Ppp.Broker is
--     broker/ppbroker.cpp, Ppp.Worker is worker/ppworker.cpp, Ppp.Client is client/lpclient.cpp.
--   Bsp: BSP-Binary Star Pattern. Bsp.Server1 is server1/binary_star_server1.cpp, Bsp.Bstar is
--     server2/bstar.cpp, Bsp.Pair two such servers with their steps, Bsp.Client client/bstarcli.cpp.
--     Bsp.Programs are the three files main.cpp with the addresses of the sockets, and
--     Bsp.Programs.Failover is a client's program with a server's.
--   Mdp: 7.MDF-Majordomo Protocol. Mdp.Registry and Mdp.Broker are the operations and handlers of
--     broker/mdbroker.cpp (`worker_require`, `service_dispatch` and the others under their names; `cbsock`
--     is `on_message`), Mdp.Loop its `run` (`cbtimer` is `on_timer`). What an operation keeps of the
--     broker's state is in Mdp.Broker.Invariant, Mdp.Broker.Account (the clients' requests) and
--     Mdp.Broker.Owned (the services' workers), what a run keeps below Mdp.Loop. Mdp.WorkerApi is
--     worker/mdwrkapi.cpp, Mdp.Exchange and Mdp.RoundTrip are the broker and a worker's session
--     together. Mdp.ClientApi is client/mdcliapi.cpp, whose session no program connects. Mdp.Worker is
--     the loop of a worker's thread over a session, with the handling of a request as an argument, and
--     worker/echoworker.cpp; Mdp.Factory is worker/mdworker_factory.cpp, Mdp.ClientMain is
--     client/main.cpp behind its arguments.
--   Admin: Admin.Subscriber is admin/sub_admin.cpp, Admin.Iworker is interface/iworker.cpp.
--   Tsp: 9.TSP-Titanic Service Protocol. Tsp.Workers has the handlers of titanic/request_worker.cpp,
--     reply_worker.cpp and close_worker.cpp and `service_success` of titanic/titanic.cpp, Tsp.Queue the
--     queue file of its `run`, Tsp.Directory the files, with the file that a path names as a parameter
--     (Tsp.PlainFiles is a concrete one), Tsp.Client is client/ticlient.cpp. Tsp.Threads are the
--     workers' threads, Tsp.Titanic all of them with `run` as a step relation on the files, the pipe and
--     the queue: a worker's handling of a request, a message taken from the pipe and a pass over the queue
--     file are one step each, in any order. Tsp.Program is client/main.cpp. `service_success` and the
--     clients' programs use a session that is not connected (`own_call` and `create`): see
--     Tsp.Titanic.Unconnected and Tsp.Program.Unconnected. `success_by` is the code of `service_success`
--     for any answers of its session.
--   Flp: 10.FLP-Freelance Protocol. Flp.Agent and Flp.Api are the agent and
--     the client's side of client/flcliapi.cpp, Flp.Server is server/flserver.cpp, Flp.Programs are the
--     two files main.cpp.
--   Chp: 12.CHP-Clustered Hashmap Protocol. Chp.KvMsg is kvmsg.cpp, Chp.Decimal the decimal numbers of
--     the C++ library that it uses, Chp.Archive the archives of Boost as a parameter, Chp.CloneServer is
--     server/clonesrv.cpp.
--   Utils: utils/zmqutil.cpp (`save` and `load`) and utils/config_parser.cpp; Utils.Programs is how a
--     program begins and ends.
--   The files Examples and those named Tests run the models on concrete inputs.
--
-- Bounds and fuel. Two loops of the code have no list of inputs. The loop of `service_dispatch` takes
-- one request in each round, so it is given as many rounds as there are requests. The pass over the
-- queue file moves on by 39 bytes in each round, so it is given as many rounds as the file has bytes. The
-- width of a number of 64 bits is sought among 20 digits.
--
-- Not modelled: the making and binding of sockets, the destruction of threads, logging, the programs'
-- entry points but those of the Binary Star, of Freelance and of the clients of Majordomo and Titanic,
-- the publisher of the administration channel, and the third-party libraries (zmqpp, Boost, the JSON
-- library), of which the models take what the code uses as parameters or inputs.
pub mod Base
pub mod Admin
pub mod Ppp
pub mod Bsp
pub mod Mdp
pub mod Utils
pub mod Flp
pub mod Chp
pub mod Tsp
