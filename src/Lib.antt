-- ===== src/Lib.antt =====
-- Teleparse: a verification library for the state store, the downloader, the verification sweep,
-- the message filters, the pacing, the walk's retries and the WEB-proxy client.
--
-- The program downloads media of Telegram chats. A run compiles its filter options into a plan,
-- asks the server for the messages of each chat within what the plan pushes down, and keeps those
-- that match the plan in a database; workers claim the rows of that database and download them,
-- spaced out and with pauses at flood waits. Where a relay is set, its
-- connections go through the client of the WEB-proxy relay, which multiplexes MTProto connections
-- over HTTPS or WebSocket carriers: a wire format, flow control and a concurrent state machine.
--
-- Base: numbers, Boolean tests, lists, texts, integers, results and byte arithmetic.
-- Filters (internal/filters): Context, Options, Parse, Validate and Predicates have the functions of
--   context.go, options.go, parse.go and the compile files under the source's names; Families has the
--   predicates that each family of options appends, and Compile has `compile` and `matches` (of
--   internal/scan/walk.go). Filters.Library is a parameter: what the filters use of Go's regular
--   expressions, globs, Unicode texts, floats and clock. The loop over the parts of a relative time
--   runs on as much fuel as the text has characters, since each round takes one at least. The texts
--   for `--explain` and round the sentinel errors are left out.
-- Pace (internal/pace/pace.go): the pacer; its mutex makes each method one step, and Pace.Flood has
--   the steps of goroutines and timers in any order.
-- Store (internal/store): Media, Chats, Runs, Reports and Migrations have the operations of the
--   store under the source's names. A table is the list of its rows; Store.Table has what the SQL of
--   the statements means on such lists. Store.Media.Steps has the operations on the media table in
--   any order. A conflict clause of `UpsertMedia` is decided in the order in which it is written.
--   The failures of the driver are modelled where several statements form a transaction.
-- Download (internal/download/downloader.go and blob.go): `process_item`, with hardlink mode, and the
--   retry ladder with the ways in which an item is settled (Settle, Ladder, Process), the pauses
--   (Feed) and the bytes reported (Progress). What the network, the file system and the resolver
--   answer to each attempt is the parameter `Env`, what the store refuses is in `Clock`. The ladder
--   has a round for each attempt that is left; a collision index is looked for up to 1000 as in the
--   source.
-- Download.Ranged (internal/download/ranged.go): the ranged engine. `request` consumes the turns that
--   the server deals it; `fetch_loop` runs on rounds, of which one more than there are missing bytes
--   is enough, since each round writes one byte at least.
-- Verify (internal/verify/sweep.go): the sweep of the manifest against the files. Verify has the
--   classes of a row and the repairs, Verify.Sweep the walks over rows and blobs, Verify.Walks what
--   carries over from each step to a sweep. The file system is the parameter `Disk`; the texts of
--   details and the callback that announces a problem are left out.
-- Scan.Ages (internal/scan/minage.go): `FilterByMinAge`, whose workers finish the probes in any order.
-- Scan.Retry (internal/scan/retry.go, internal/transport/transport.go): which failed history pages
--   are asked for again; `query_from` has a round for each of the four attempts.
-- Webproxy.Frame (internal/webproxy/frame.go): `encode`, `decode`, `decode_all`, `validate_client`
--   and the others are the functions of these names. A byte slice is a list of numbers, and the
--   texts round the sentinel errors are left out. The loop of `DecodeAll` runs on as much fuel as
--   the body has bytes, since each round takes eight of them at least.
-- Webproxy.Window (window.go): the credit windows. One method is one critical section of its mutex;
--   a `Reserve` that blocks answers `waits`, after which the caller comes back.
-- Webproxy.Session (session.go): the state of a session and its streams. Streams are objects named
--   by their ids, and the map `streams` is the list of its keys, since a stream outlives its entry.
-- Webproxy.Stream (session.go): the methods of `Stream`. `Write` runs on as much fuel as there are
--   bytes, since each round sends one at least.
-- Webproxy.Mux (session.go, resolver.go, carrier.go): `Open`, `handleFrame`, `Close`, the carrier's
--   pump, `establish` and `NewCarrier`. Webproxy.Mux.Reach has the steps that goroutines and the
--   network make in any order: calls as a whole, or their critical sections and sends one by one.
-- Webproxy.Writer (session.go): the batches of `carrierWriter.run`.
--
-- What the network, the clock and Go's `select` answer are arguments. A Go error is the list of the
-- sentinels that `errors.Is` finds in it. A full queue blocks its caller, and a step is taken when
-- it has room.
--
-- Not modelled: the HTTP and WebSocket requests themselves and TLS, which are third-party code and
-- I/O; SQLite itself; of the downloader the links drained after a run, sidecars, hooks and the live display; the
-- validators of archive formats; the walk and its scope, configuration and the command line.
pub mod Base
pub mod Download
pub mod Filters
pub mod Pace
pub mod Scan
pub mod Store
pub mod Verify
pub mod Webproxy
