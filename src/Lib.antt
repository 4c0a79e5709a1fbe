-- ===== src/Lib.antt =====
-- Foundry: a host for small JavaScript tools, which an agent calls and a human grants.
--
-- The program's parts, and the files that model them. A tool is installed and granted in the
-- registry (internal/registry); a run loads it with its grant (internal/runtime) and executes it in a
-- sandbox (internal/jsengine), whose only door to the outside is the dispatcher of host calls
-- (internal/host). Storage calls go to the encrypted store (internal/store), which is sealed by
-- internal/secret, and network calls to the egress broker (internal/host/broker.go). Agents and humans
-- reach all this through two planes of an HTTP server (internal/server), which the component
-- (component/component.go) puts over the store when it is unlocked, and the local application
-- (internal/gui) or the headless program (cmd/foundry) unlocks it with the key that a password opens.
--
-- - Prelude: the names that all modules share; Prelude/Tests has Boolean tests on numbers,
--   Prelude/Lists lemmas on lists, Prelude/Fallible results with their bind, and Prelude/Int signed
--   integers and the wrap-around of Go's int64 and uint64.
-- - Secret (internal/secret/secret.go): `Seal`, `Open`, `NewEnvelope` and `Unwrap` as `seal`,
--   `open_blob`, `new_envelope` and `unwrap`. AES-GCM (with the law that opening undoes sealing),
--   argon2id and randomness are parameters.
-- - Store: Store/Tables has what the SQL statements do to a table of rows, Store/State the database,
--   the fields of `Store` that calls change, and `Env`, what the machine decides for one call: the
--   clock, and which statements the driver fails. Store/Quota, Store/Kv, Store/Queue, Store/Cache and
--   Store/Blob are the operations of internal/store/store.go under their own names (`KVSet` is
--   `kv_set`), Store/Tools those of internal/store/tools.go. Store/Quota/Bounds, Store/ReadBack,
--   Store/Cases, Store/Frame, Store/Ordered and Store/Limit are about what they do.
-- - Store/Persist: `reseal`, `Close` and `hardClose` as steps, one for each critical section of each
--   goroutine, which interleave freely with the calls that change the database; a `DeleteTool` that its
--   second statement cuts short is a step of its own, since it does not mark the store dirty.
--   Store/Persist/Invariant, Store/Persist/Sections, Store/Persist/Durable, Store/Persist/Unhindered,
--   Store/Persist/Flush and Store/Persist/Race are about the runs; Store/Moves, Store/Persist/Calls and
--   Host/Dispatcher/Steps about the calls of the store and of a tool as steps of them.
-- - Store/Files (internal/store/util.go): `atomicWrite` as a row of system calls, with the directory
--   after each, in which a file has what a reader sees and what is on the medium. Store/Open
--   (internal/store/store.go, lock_unix.go): `Open` and `Close` against the drive, which has the file
--   and the lock; Store/Open/Releases and Store/Open/Kept are about the lock and the file.
-- - Host: Host/Text has the functions of `strings` and Host/Address those of `net.IP` that the broker
--   uses, Host/Broker is `fetch` with its checks in their order, Host/Dispatcher is `Dispatcher.Call`
--   over the store and the broker. `calls` is what a run does to the store: the host calls of a tool
--   one after the other, whatever they are; Host/Dispatcher/Use is about what they do in the store,
--   and Host/Dispatcher/Effects about what they do outside it. URL parsing, name resolution, the HTTP
--   transport, JSON, base64 and the vault are parameters.
-- - Registry: Registry/Manifest (manifest.go, grant.go), Registry/Sign (sign.go), Registry/Tools
--   (registry.go), Registry/Index and Registry/Publish (index.go) and Registry/Client (client.go), all of
--   internal/registry; Registry/Publish also has `Sign` of sign.go. Registry/Index/Pack and
--   Registry/Client/Published are about what the registry publishes, the other child modules about what
--   is installed and granted. JSON, SHA-256, Ed25519, archives and the HTTP client are parameters.
-- - Engine (internal/jsengine/invoke.go): `invoke` is `InvokeWithLimits` with its event loop, over the
--   sandbox as a parameter. The source bounds the loop only by the deadline and by 256 idle rounds in a
--   row; the model runs it for a given number of rounds and says where it is not over. Engine/Served
--   is about any number of rounds, Engine/Stall about a tool that is waiting for nothing. Engine/Pipe
--   (stdin.go) is the pipe of responses and Engine/Transport (transport.go) the writer of frames, each
--   by itself; the sandbox that stands between them is the parameter.
-- - Runtime (internal/runtime/runtime.go): `run` is `Run`, which ties the registry, the store, the
--   dispatcher and the engine together; Runtime/Confined and Runtime/Registered are about whole runs.
-- - Server (internal/server/server.go): Server/Use and Server/Control are the handlers of the two planes
--   under their own names (`useRun` is `use_run`), Server/Routes is `Mount`: the routes with their
--   guards. A handler takes the store and the marketplace client and returns the response with both
--   after it. Server/Accepts, Server/Use/Runs, Server/Use/Catalog, Server/Routes/Guards and
--   Server/Routes/Agent are about what a request can do.
-- - Component (component/component.go): `Unlock` and `Lock` as `unlock` and `lock`, over the drive, and
--   `mounted`, a request to the planes; Component/Lifecycle and Component/Served are about them.
-- - KeyFile: `deriveDEK` of internal/gui/gui.go and `loadOrCreateDEK` of cmd/foundry/main.go.
-- - Gui (internal/gui/gui.go): the state and its tests in Gui, `setup`, `unlock` and `open` in
--   Gui/Unlock, the other handlers, the idle clock and the routes in Gui/Handler. `gui_serve` is one
--   request to the program, `serve_all` a row of them. Gui/Unlock/Cases and Gui/Handler/Sessions are
--   about the lock and the session, Gui/Unlock/Tokens and Gui/Handler/Tokens about who is told what.
-- - Tests: runs at concrete inputs.
--
-- Conventions. A Go function that changes a shared object returns the object after it; an error is
-- the constructor of a sum. Numbers are natural numbers; an int64 or a uint64 wraps where the code
-- computes with it (`int64`, `u64`): the sums of `checkQuota`, the duration of `wallDefault` and the
-- write generation. Clocks count nanoseconds since 1970. All recursion is structural but for the
-- engine's loop, which counts its rounds.
--
-- What is not modelled. The bodies of SQLite, the cryptography, JSON, archives and HTTP are behind
-- parameters or, for SQL, read as the statements say. Requests are served one after the other, and
-- none runs while the component is locked or unlocked; timeouts of requests and the mode of a file
-- are left out. The text of the guide, the engine's set-up of wazero, flags, prompts, the start of
-- the HTTP server and the browser, and the publishing service are not modelled.
pub mod Prelude
pub mod Secret
pub mod Store
pub mod Host
pub mod Registry
pub mod Engine
pub mod Runtime
pub mod Server
pub mod Component
pub mod KeyFile
pub mod Gui
pub mod Tests
