-- ===== src/Lib.antt =====
-- The IoT fleet gateway (C++, src/): its durable message log, the circular buffer of recent messages,
-- the parser of HTTP requests, the thread pool, and the event loop of its server.
-- The gateway receives telemetry over HTTP, appends each message to the log, and answers queries from
-- the cache of recent messages. `TcpServer` parses a request, dispatches it by path, and calls
-- `MemoryMappedLog::append` or `get_recent`; the log keeps its cache in a `CircularBuffer<Message>`.
--
-- Prelude: names from the libraries, Boolean tests, lists over the native numbers, the widths of the
-- C++ integers (`u32` is `% 2 ^ 32`; `add64` and `sub64` wrap at 64 bits).
-- Storage.Circular (src/storage/circular_buffer.h): `CircularBuffer<T>`. The history of a buffer is the
-- list of all pushes; `Holds` relates the slots to it.
-- Storage.Codec, Storage.Format (src/storage/mmap_log.cpp): little-endian fields, CRC-32, the headers of
-- segments and records, the names of segment files.
-- Storage.Scan, Storage.Segment (src/storage/mmap_log.cpp): `zero_tail` and `scan_segment`.
-- Storage.Directory: the log directory as a list of files with their bytes, and the listing, sorting and
-- numbering that `recover_or_create` does. The order in which the directory is listed is a part of
-- `OpenCalls`.
-- Storage.Log, Storage.Open (src/storage/mmap_log.h, mmap_log.cpp): the state of `MemoryMappedLog` and
-- all its methods. A method returns a result or an error, and the state it leaves.
-- Storage.History: the abstract log, a list of entries for each segment. `Represents` says which
-- directory, index, mapping, offset and cache belong to it; the methods are steps of the history.
--
-- Http.Text, Http.Parser (src/http/http_parser.h, http_parser.cpp): `HTTPParser`. `feed` returns a status
-- and the next state; the header map is an association list.
-- Http.Response (src/http/http_response.h, http_response.cpp): `HttpResponse` and its text.
-- Network.ThreadPool (src/network/thread_pool.h): `ThreadPool`, a step for each section under the mutex.
-- Network.ConnectionManager, Network.EpollLoop (src/network/connection_manager.cpp, epoll_loop.cpp): the
-- map of connections, and the loop over what `epoll_wait` returns.
-- Network.TcpServer (src/network/tcp_server.h, tcp_server.cpp): one worker of the server. `Server` holds
-- what its handlers read and write; `Handlers` and `Events` have a function for each of them,
-- and `Setup` has what runs before the loop, the descriptor of `EpollLoop` with it. A step is
-- a callback of the loop, or what the pool's threads and the signal do between two callbacks.
-- What `read`, `send`, `accept` and `epoll_ctl` return is a list of answers in the state, so that the
-- loops over these calls end with the list.
-- Monitoring (src/monitoring/metrics.h, metrics.cpp): the counters, the histogram, and their text for
-- Prometheus.
-- Security.RateLimiter (src/security/rate_limiter.h, rate_limiter.cpp): `TokenBucket` and `RateLimiter`,
-- over the arithmetic of doubles as a parameter (`Doubles`).
-- Http.Router (src/http/router.h, router.cpp): `Router`. A handler is a function of the request and a
-- state, and returns `none` when it throws.
-- Gateway.Json, Gateway.Recent (src/network/tcp_server.cpp): `json_escape` and the answers to queries of
-- recent messages. Gateway.Utf8: which bytes are text in UTF-8, for the reader of JSON strings.
-- Gateway.Routes (src/main.cpp): the handlers of the routes, over the log.
-- Core.Config (src/core/config.h, config.cpp): `Config`, over what an input stream extracts (`Streams`).
--
-- Bytes are lists of numbers. Which system calls fail, and the time that the clock shows, are arguments
-- of the model (`LogCalls`, `OpenCalls`, `ScanCalls`); stores through a shared mapping are stores to the
-- file, and a removal that follows a failed call succeeds. Each method holds the mutex from start to
-- end, so methods are atomic. The text of an error is not modelled, only its kind (`Error`).
-- Fuel: the scan loop has one round for each byte of the file, and each round that goes on passes at
-- least 32 bytes; `zero_tail` has one round for each byte, and each round passes at least one. The
-- error `out_of_fuel` stands for a model out of rounds; the theorems on the scan and the parser exclude it.
-- The header loop of the parser has one round for each byte of the header block.
-- Bounds: a segment has at least 73 bytes and fewer than 2 ^ 63, ids are at most 99999999, offsets and
-- times fit 64 bits, and a payload is shorter than 2 ^ 32 bytes.
-- Not modelled: durability of the page cache below `msync`, interleavings inside a method (the mutex
-- excludes them), several workers at once (a worker's connections are its own, the metrics and the
-- pool are shared), and the gateway's other parts (`TCPServer::start`, the log of
-- messages).
pub mod Prelude
pub mod Storage
pub mod Http
pub mod Monitoring
pub mod Network
pub mod Security
pub mod Gateway
pub mod Core
