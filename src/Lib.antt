-- ===== src/Lib.antt =====
-- mochi, a BitTorrent tracker. A frontend parses an announce or a scrape out of a request, the middleware
-- runs its hooks on it, a storage holds the peers of every swarm, and the frontend writes the response.
--
-- Files and the code they model (paths from the root of the repository):
--   * Base: lists, maps, bytes, texts and numbers that all modules share; Result: the errors and the outcome of a
--     Go function, which is a value, an error or a panic; Netip: net/netip.Addr of Go's standard library.
--   * Bittorrent: bittorrent/event.go (Event), peer.go (Peer, Hash), request.go and params.go (Request),
--     sanitize.go (Sanitize). Request.sanitize is RequestAddresses.Sanitize; the order in which Go visits
--     a map is its argument `range`.
--   * Pkg.Xorshift: pkg/xorshift/prng.go.
--   * Storage.Memory: storage/memory/storage.go. Its state is PeerStore; put_seeder and the like are the
--     methods of peerStore, on a store that is passed on; Gc has gc, Read has AnnouncePeers and ScrapeSwarm.
--     The clock is an argument. Tracker runs any sequence of calls, one after the other.
--   * Storage.Data: the interface DataStorage of storage/storage.go, with what a client may rely on;
--     Storage.MemoryData: the data store of storage/memory/storage.go that fills it.
--   * Storage.Redis: storage/redis/storage.go. The client of go-redis is the record Client, an argument, and
--     Store.IsRedis names what is relied on; Write has the calls on peers, Read has GetPeers and ScrapeIH,
--     Refines runs any sequence of writes against the specification of Storage.Memory.Tracker; Data and
--     Tables are its data storage; Gc is the garbage collector, in Gc.Collects with what it relies on, and Gc.Refines
--     compares it to the same specification; Config is the check of the configuration.
--   * Storage.KeyDb: storage/keydb/storage.go over a client with sets, SetClient, of which KeyDb.Refines.IsKeyDb
--     says what is relied on. Storage.Pg: storage/pg/storage.go; Pool is the pool of connections of pgx, an
--     argument, Config the configuration, Data the data storage, Peers the calls on peers, with strings.ToUpper
--     as an argument, and Answers is on AnnouncePeers.
--   * Storage.Config: the periods that storage/storage.go configures; Storage.Registry: its drivers, and what
--     NewStorage schedules.
--   * Middleware: middleware/hooks.go (Response, Interaction) and logic.go (Logic). Storage is the interface
--     PeerStorage that the hooks call and the memory storage that fills it; Answer, Limited, Respond and
--     Swarm hold what is proved of the hooks, over any storage and over the memory storage.
--     ClientApproval is middleware/clientapproval, VarInterval middleware/varinterval, TorrentApproval
--     middleware/torrentapproval with its list container, Jwt middleware/jwt with the parser of tokens as an
--     argument. Registry: middleware/middleware.go. Safety: hooks that keep an invariant and do not panic; Timed:
--     hooks that leave no interval negative; Remote: the Redis storage behind the hooks.
--   * Frontend.Options: ParseOptions of frontend/options.go. Frontend.Udp: frontend/udp/parser.go (Parser),
--     params.go (Params), writer.go (Writer, with Sizes), connection_id.go (ConnectionId); Safety is on the
--     parsers. Handle is handleRequest of frontend/udp/frontend.go, System and Reach are the server that
--     runs it, a step relation over packets, waiting tasks and collections, Session is the protocol of
--     connection IDs, Tracker is the whole tracker over the memory storage, and Config the
--     configuration, with the listen options. The keyed hash of a connection identifier and
--     strings.ToLower are arguments.
--   * Frontend.Http: frontend/http/params.go (Params), parser.go (Parser), writer.go (Writer, with Decimal for
--     strconv.Itoa) and frontend.go (Config, Handle). A request of fasthttp is the record RequestCtx, its
--     arguments a list; netip.ParseAddr and path.Clean are arguments. Sound and Safety are on the parsers,
--     Bencode is a reader of the responses, which Answers and Scrapes read back, Routes is on the table of
--     routes, System on the handlers. Frontend.Tracker: the two frontends over one storage, as cmd/mochi/server.go
--     runs them.
--   * Tests: runs at concrete values.
--
-- Integers are natural numbers with the wrap of their width written out: the counters of a shard wrap at
-- 2 ^ 64, the shard index at 2 ^ 32; intervals are signed, and their sums wrap at 64 bits. Loops over bytes run
-- on fuel: the fields of a query on their length, the options of a packet and the hashes of a scrape on one more; running out is a panic, which the theorems
-- of Frontend.Udp.Safety exclude. Base.Text.trim_space runs on the length of the text, since each round takes
-- a byte.
--
-- Not modelled: the concurrency of the memory storage (calls run whole) and the schedulers of the storages;
-- the connections to databases; NewFrontends, which is written as NewHooks is; sockets, listeners and servers; the registry of containers; the container
-- that watches a directory; logging, metrics, configuration files, clock cache and pools.
pub mod Base
pub mod Result
pub mod Netip
pub mod Bittorrent
pub mod Pkg
pub mod Storage
pub mod Middleware
pub mod Frontend
pub mod Tests
