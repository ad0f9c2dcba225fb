-- ===== src/Lib.antt =====
-- Powerhose: jobs that clients send through a broker to workers, over ZeroMQ.
--
-- The program and its model
--   A client sends a job over a REQ socket to the frontend of the broker. The broker forwards it to a
--   worker at its backend, the worker runs its target under a timer and answers, and the broker hands
--   the answer back under the client's envelope. Broker and workers are tied by a heartbeat.
--
--   Job        powerhose/job.py: `Job`, `serialize`, `load_from_string`
--   Reply      powerhose/worker.py, the line that `Worker._handle_recv_back` sends, and
--              powerhose/util.py: `extract_result`
--   Retry      powerhose/util.py: `send` and `recv`; powerhose/client.py: the poll of `_execute`
--   Client     powerhose/client.py: `Client` (`connect` is `__init__`, `execute_once` is `_execute`,
--              `settle` is what `execute` does with an answer)
--   Pool       powerhose/client.py: `Pool`; Pool/Shared for threads that share one
--   Timer      powerhose/worker.py: `ExecutionTimer`, a step relation on two threads and a queue
--   Worker     powerhose/worker.py: `Worker`; Worker/Life for its start and stop, Worker/Main for
--              `main`, Worker/Threads for its thread and the timer's, step by step, Worker/Lifetime
--              for all that can happen between start and stop, Worker/Lost for its stethoscope
--   Heartbeat  powerhose/heartbeat.py: `Stethoscope`, and `Heartbeat` (`halt` is its `stop`);
--              Heartbeat/Timing for beats and ticks at their times
--   Loop       the loop around the event loop in `Broker.start`, `Worker.start`, `Stethoscope.run`
--   Broker     powerhose/broker.py: `Broker` (`start_broker` and `stop_broker` are `start` and
--              `stop`); Broker/Life for `main`, Broker/Life/Routed for what it has sent at
--              its end
--   Ghosts     powerhose/util.py: `kill_ghost_brokers` and `verify_broker`
--   Resolve    powerhose/util.py: `resolve_name`
--   Stacks     powerhose/util.py: `dump_stacks`, and the end of a job's time in `ExecutionTimer.run`
--   Logging    powerhose/util.py: `set_logger`
--   Cluster    powerhose/__init__.py: the command lines of `get_cluster`; Cluster/Main for its watchers,
--              its wait, and `main`
--   CommandLine
--              powerhose/broker.py, worker.py, __init__.py: what each `main` tells argparse;
--              CommandLine/Mains for what it takes from argparse, CommandLine/Reading for what the
--              documentation of argparse says of plain command lines, CommandLine/Programs for the
--              broker and a worker from their command lines to their end
--   Params     powerhose/util.py: `decode_params` and `encode_params`
--   IpcFiles   powerhose/util.py: `register_ipc_file` and `_cleanup_ipc_files`
--   Exc        powerhose/exc.py, and the other exceptions that the code meets
--   Network    many clients, the broker and many workers in any interleaving: the queues of their
--              sockets and the steps; Network/Service is the abstract service that they refine
--   System     the way of a job from the client to the target and back; System/Pings for a ping,
--              System/Pulse for the broker's heartbeat and a worker's stethoscope on one clock
--   Examples   examples/echo_worker.py, crypto_worker.py, crypto_client.py, web_client.py: targets and
--              jobs; Examples/Calls for the loops of their clients, Examples/Crypto for the keys,
--              Examples/Web for web_worker.py and crypto_server.py, Examples/Bench and
--              Examples/Threads for bench.py
--   Text, Dict Python's string methods and dicts, as far as the code uses them
--   Common     names and lemmas that all share
--   Tests      runs, and the theorems at concrete inputs
--
-- How the code is modelled
--   A string is a list of bytes, as in Python 2. A dict is an association list in the order in which
--   Python iterates. An exception is the `err` of a `Result`. An object is a record; a method is a
--   function that returns the new record. A method under a lock is one function; the timer and the
--   pool, which threads share without one, are step relations.
--   argparse is a parameter, `parse_args`, with the law `IsDocumented`; so are Python's floats, and
--   `argv`, which is what circus and `python -m` make of the `cmd` of a watcher, with the law `Starts`
--   on lines without quotes, backslashes and variables.
--   pyzmq is a parameter: `Socket` holds its calls on a state of any type, with a clock in
--   milliseconds, and `IsReq` says what a REQ socket refuses. So are the target, Python's imports,
--   which may raise what they like, and the list of processes that psutil gives, with the end of each
--   `terminate`. How the ping, the binds and the flush of a broker end is data of `Run`. Logging is left out, but for the errors that a
--   handler swallows.
--   The network knows of ZeroMQ the frames that its sockets add and take off (`Frames`, with the laws of
--   `IsFraming`), that messages of several peers may overtake each other, and that a REP socket hands
--   out no message while it owes an answer. Which worker a message goes to is left open until one takes
--   it, so its steps allow more runs than the sockets do; only what holds of all runs is stated.
--   The timers of pyzmq are steps at times within their periods; that they keep these, and that beats
--   come in order and within a latency, is a condition of the steps of System/Pulse.
--   Numbers are natural, process ids that are read from text are integers. Times are whole numbers,
--   of milliseconds inside a client and of seconds where an argument is one.
--
-- Bounds and fuel
--   `retry` is bounded by `max_retries`, as in the code. `poll_loop` takes fuel, since a signal may
--   interrupt every poll; more fuel than interrupted polls is enough. The digits of a number, in base
--   ten or sixteen, are written with its successor as fuel, and it has no more digits than that. A
--   split has the length of the string as fuel, since each cut takes a byte. The other loops recur on
--   a list.
--
-- Not modelled
--   `timed`, which a worker at the level DEBUG puts around its target; the inside of argparse; the
--   formats of log lines; what circus does with the watchers of a cluster; the C++ worker in libhose; among the examples, the web servers that call the routes, which are other
--   packages; the tests; setup.py and docs/source/conf.py, which hold settings of the build.
pub mod Broker
pub mod Client
pub mod Cluster
pub mod CommandLine
pub mod Common
pub mod Dict
pub mod Examples
pub mod Exc
pub mod Ghosts
pub mod Heartbeat
pub mod IpcFiles
pub mod Job
pub mod Logging
pub mod Loop
pub mod Network
pub mod Params
pub mod Pool
pub mod Reply
pub mod Resolve
pub mod Retry
pub mod Stacks
pub mod System
pub mod Tests
pub mod Text
pub mod Timer
pub mod Worker
