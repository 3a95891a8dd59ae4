-- ===== src/Lib.antt =====
-- A verification library for BONNIE, the host agent that stages models, runs paired engine and
-- benchmark containers, and reports the host's GPUs.
--
-- Parts. internal/storage keeps staged models in two maps and a JSON index on disk; its operations
-- are called by the model handlers of internal/api, many at a time, and it stages models with its
-- fetchers. internal/container runs an engine container and a benchmark container on a network of
-- their own and streams events through a channel to the benchmark handler, with the GPU vendor that
-- internal/gpu found; its manager passes the calls of the container handlers on to Docker.
-- internal/gpu parses the output of the vendors' tools and polls them, internal/system says what the
-- host is. internal/api routes requests, authenticates them, and answers them from the others.
--
-- Files. Prelude holds what the parts share: Boolean tests, lists, bytes, Go's integers, maps by
-- text, and results.
--
-- Storage/Env has the operating system, `filepath`, the JSON codec, the digest and the fetchers as
-- parameters, with the laws that they are documented to have. Storage/Index is the index
-- (`NewStoreWithFetchers`, `loadIndex`, `saveIndexLocked`), Storage/Paths the guard `underRoot`,
-- Storage/Store the operations (`Fetch`, `doFetch`, `Get`, `List`, `Delete`, `markUsed`): each takes
-- the store and the disk and gives the next ones with its result, for a caller that runs alone.
-- Storage/Flights has many callers: a call of `Fetch` is a phase, `proceed` makes one step of it, and
-- `Step` says which steps can come next, those of the single-flight table, of `Delete` and of
-- `MarkUsed` with them. Storage/Fetchers has the fetchers on a trace of what they change.
--
-- Container/Docker has the Docker client, the health probe and the clock as parameters that see the
-- trace of all calls so far; Container/Monad the state of a run and its events (`runState`, `emit`),
-- Container/Containers the configurations and `cleanupRun`, Container/Health `waitEngineHealthy`,
-- Container/Artifacts `waitForExit` and `readResults`, Container/Logs `streamLogs`, Container/Runtime
-- `InjectGPU`, and Container/PairedRun `PairedRun` itself, a do block of the calls in their order.
-- Container/PairedRun/Channel is the channel of the events, on which the run, the log streams and the
-- handler act in any order. Container/Manager is `Manager` and `LogStream`.
--
-- Gpu/Text has the functions of `strings` and `strconv` that the parsers use, Gpu/Nvidia, Gpu/Amd and
-- Gpu/Intel the parsers, Gpu/Detector `Detect` and Gpu/Poller the poller, whose locked pieces are
-- steps. System is internal/system/info.go. Config is `Load` of internal/config.
--
-- Api/Http is the response writer, with the wrapper of the logging middleware, and `writeError`;
-- Api/Handlers has the endpoints of internal/api/handlers over the storage, the manager, the poller
-- and the host, Api/Benchmark the checks of the benchmark handler, Api/Auth the middleware `Auth`,
-- Api/Middleware `Logging` and `Recovery`, and Api/Router the table of `NewRouter` and what becomes of
-- a request. chi, which finds the route of a path, is a parameter with its laws.
--
-- Storage/Restart has the store over the lives of the process, with what the store relies on as
-- `Laws`; Storage/Restart/Passes and Killed the disks between the calls of an operation. Command is
-- cmd/bonnie/main.go: `boot` is `run` up to the server and builds the router's arguments from the
-- configuration, the poller and the store, `happen` is a request or a piece of a tick, `finish` the end;
-- Command/Surroundings has what it finds around it; Command/Lives is what a life finds and leaves on
-- the disk, and Command/Outlived any lives one after another, with those that are killed.
--
-- Bounds and fuel. `uint64` and `int64` are written out with their ranges: `ParseUint` and `Atoi`
-- refuse what does not fit, the subtraction of used memory and the product of a timeout wrap around.
-- The health loop runs on fuel, one unit for two seconds of its budget and two more, as a pause of
-- the loop takes two seconds. The inner loop of the log stream runs on the length of its buffer, as
-- a line takes one byte at least. The channel of a run has its 64 places. All other loops are
-- structural.
--
-- Not modelled. Text is ASCII where its bytes are read. The JSON encoder and decoder stand between
-- the requests and the values, and are left out; a write to a client does not fail, but in the
-- benchmark's stream. Contexts are cancelled by the answers of the calls that they are given to. In
-- Command the requests of a life come one after another; that they overlap is the subject of
-- Storage/Flights, whose steps are the pieces under a lock: that each piece lets go of its lock is
-- not stated. A kill loses nothing of a call of the file system that has returned, and stands between
-- two calls, not within one. What a command of `POST /exec` changes on the disk and in Docker is a
-- parameter; that containers write to the store's directory is left out, as is the Docker daemon's
-- own work. internal/flagcommons is another library's copy: its secrets' providers and its health
-- registry are parameters.
pub mod Prelude
pub mod Storage
pub mod Container
pub mod Gpu
pub mod System
pub mod Api
pub mod Config
pub mod Command
