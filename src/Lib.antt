-- ===== src/Lib.antt =====
-- castle++: a reverse proxy with a process supervisor, from the C++ sources under src/.
--
-- The program has a gateway side and a supervisor side. A worker's listener asks the rate limiter about the
-- peer of every accepted connection, an HTTP connection parses the request head with picohttpparser, asks
-- the routing table for a backend and forwards the head and the body to it. The supervisor launches the
-- services of a manifest, reaps and restarts them on its own event loop, and answers the operator's
-- commands through tasks that are posted to that loop. Both configuration files are small INI files.
--
-- Which file models which part:
--   Prelude        shared notation: Boolean tests and lists over the native numbers, byte strings, results,
--                  `int`s, decimal numbers and `strtol`
--   Ini            the line syntax that src/http/router.cpp and src/config/service_config.cpp share
--   Router         src/http/router.h, src/http/router.cpp: `Router::load` is `load`, `Router::match` is `match`
--   ServiceConfig  src/config/service_config.h, src/config/service_config.cpp: `parse_services_file`,
--                  `split_args` and `parse_bool`
--   RateLimiter    src/gateway/rate_limiter.h, src/gateway/rate_limiter.cpp: `allow`, `spend`, `prune_locked`
--   Service        src/supervisor/service.h and the functions of src/supervisor/supervisor.cpp that change one
--                  service: `spawn`, `schedule_restart`, `record_failure`, `prune_failures`, `mark_down`
--   Supervisor     src/supervisor/supervisor.h, src/supervisor/supervisor.cpp: `on_sigchld`, `on_tick`,
--                  `begin_shutdown`, `finish_if_drained`, `do_restart`; `run` is a history of these handlers,
--                  each at its instant, from `start` on. Supervisor/Report has the reports, and
--                  Supervisor/Launch the descriptors of `start` and the child's side of `spawn`
--   Http           src/http/http_connection.cpp: `process_head` up to the calls that change the connection is
--                  `decide_head`, with `iequals`, `is_hop_by_hop` and `parse_content_length`; `handle_internal`
--                  and the text of `send_response` are in Http/Reply
--   Proxy          src/http/http_connection.h, src/http/http_connection.cpp, src/http/backend_connection.h,
--                  src/http/backend_connection.cpp: an `HttpConnection` and its `BackendConnection`, with the
--                  source's names for the operations; `run` is a history of the events that the loop hands to
--                  the two. Proxy/Steps is what they do as a step relation, and
--                  Proxy/Invariant, Proxy/Forwarded and Proxy/Pace are the invariants of its steps
--   EventLoop      src/net/event_loop.h, src/net/event_loop.cpp, src/net/event_handler.h, src/net/fd_watcher.h: the
--                  operations of `EventLoop` are `apply`, with a constructor of `Call` for each, and `run` is `run`
--   Listener       src/net/listener.h, src/net/listener.cpp, src/net/conn_limit.h: `on_readable` is the accept loop;
--                  its limiter is that of RateLimiter
--   Autocorrect    src/util/autocorrect.hpp: `findLetterDistance` is `find_letter_distance`, `fixHelper` is
--                  `fix_helper`, and `fix` is `fix`
--   Control        src/control/control_server.cpp: `dispatch`, `dispatch_command`, `write_all`, and the loop of
--                  `handle_client` over the lines of its buffer; the record `Castle` is what the commands
--                  ask of the rest of the program, Control/Report has their texts, and Control/Instance fills
--                  it with the models of the log, the supervisor, the loops and the internet watch.
--                  Control/Server has `start`, `stop`, `run` and `handle_client`
--   CommandLine    src/main.cpp: `parse_args`
--   Startup        src/main.cpp: `main` behind `parse_args`: `start_up` up to the wait for a signal, `wait_signals`
--                  for the loop over `sigwait`, and `stop_order` for the end
--   Echo           src/net/echo_connection.h, src/net/echo_connection.cpp: `on_readable`, `flush`
--   Connectivity   src/net/connectivity.h, src/net/connectivity.cpp: `internet_reachable` and the rounds of `run`
--   Log            src/util/log.h, src/util/log.hpp: `log_init`, `log_msg` and `log_pull_new` in Log/Messages, the
--                  file logger in Log/Logger, `IndexedFileReader` in Log/Reader
--   Transport      src/net/transport.cpp, src/net/socket.cpp, src/tls/tls_transport.cpp, src/tls/tls_context.cpp
--   Clock          src/util/clock.hpp: the stopwatch and the formats of the clock
--   Hardware       src/util/hardware.hpp: the figures of the processor and the memory
--   Uptime         src/util/uptime.hpp: `human_duration`
--
-- How the state corresponds: a string is the list of its bytes; a file is its bytes, or `none` where it
-- cannot be opened; a pid is `none` for -1; an instant is a number of nanoseconds of the steady clock. What the
-- kernel and picohttpparser answer (fork, waitpid, the health probes, the parsed head) are arguments of
-- the handlers, and the signals that the supervisor sends are collected in a list. A failure is a value
-- of the error type of its part. The two objects of a proxied connection are one record, `Pair`, since each calls
-- into the other; the pointers between them are whether they are set. What `read`, `write`, `recv` and `send` answer
-- are lists that the calls use up, and a list that is used up blocks, as the edge-triggered sockets do. `Trace` is no
-- state of the program: it records what the sockets have given where they are read, and what they have taken where they
-- are written. What a backend gives when it has no client any more goes nowhere, and is not recorded. The control
-- server's `write_all` has a list of answers for each call, and a session goes on behind one that stops early.
--
-- Loops and fuel: every loop recurs on a list or counts down, but for three. The fuel of the loop of `fixHelper` is the number of
-- bytes of both words, and each round moves a cursor. `on_readable` calls itself through `deliver_to_client`,
-- `pump_write` and `resume_reads`, and `pump_read` through `flush`, `on_backend_drained` and `drive`: the fuel of each
-- is the number of answers that are left for it, plus one, and each round uses one up.
--
-- Bounds: a parsed number is a `long`, saturated as `strtol` does it, and is cut to 32 bits where the source
-- casts it to `int`; the doubling of a backoff, an `int`, wraps around where C++ leaves the overflow undefined, and the
-- theorem on the delays keeps below that; the doubles of the rate limiter are exact multiples of a billionth of a token.
-- Counters of restarts and failures, and instants, are not bounded.
--
-- Not modelled: the counters of bytes and connections, but for the cap and their report; a backend's socket that
-- epoll does not accept; several listeners on several threads that share the cap; the descriptors of the event loop,
-- which are made by system calls (whether a loop of `main` takes its listener is an argument); the signal masks, the threads and the locks, each of which
-- keeps the calls of a part one after the other; the formats of doubles and of local times, which are libc's; the
-- reference counts of OpenSSL; the load averages and the temperature, which are passed on as they are read; the usage
-- text and the logo; and picohttpparser, which is third-party code.
pub mod Prelude
pub mod Ini
pub mod Router
pub mod ServiceConfig
pub mod RateLimiter
pub mod Service
pub mod Supervisor
pub mod EventLoop
pub mod Listener
pub mod Http
pub mod Autocorrect
pub mod Control
pub mod Uptime
pub mod Proxy
pub mod Log
pub mod Echo
pub mod Connectivity
pub mod CommandLine
pub mod Startup
pub mod Clock
pub mod Hardware
pub mod Transport
