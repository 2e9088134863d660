-- ===== src/Lib.antt =====
-- A model of blobcache, the distributed cache of blob chunks, and the theorems on it.
--
-- A node mounts blob containers, keeps chunks of blobs on its disk (src/cache.rs), tells the other
-- nodes by a Bloom filter which chunks it holds (src/peerindex.rs), learns which nodes are alive by
-- gossip (src/cluster.rs), and fetches what it lacks from a peer or from the blob store.
--
-- Prelude          names, lists, maps, machine words, bytes, and src/error.rs
-- Cache            src/cache.rs. `DiskCache` with `Inner` is one record; its operations take it and
--                  give it back. The parts of a call that run under the lock are functions of
--                  their own, which the calls are made of and the interleavings step by.
-- Cluster          src/cluster.rs. `Membership` is one record; `merge`, `touch_peer` and `sweep` take the
--                  time as an argument. `handle_sync` is the body of the route /cluster/sync in
--                  `GossipServer::serve`, `handle_reply` what `gossip_with` does with the answer. JSON
--                  and the HTTP client are parameters. The precedence of records is a semilattice in
--                  Cluster/Precedence; Cluster/Records is about whole records, and Cluster/Reach about
--                  the steps in any order.
-- PeerIndex        src/peerindex.rs. Bloom is the filter with its bytes, Filter and Wire their laws; State
--                  is `PeerIndex` and `Local` in one record, with one function for each hold of a lock;
--                  Advertise and Published interleave those with the cache; Rank, Leader and Choice
--                  are `hrw_top_id` and `rank_candidates`. `note_local_insert` and `rebuild_local`
--                  give the version that the hook is called with.
-- HydrateJobs      src/hydrate_jobs.rs. The table of jobs with its calls; `begin` and `finish` are what
--                  the task of a job, in src/stats.rs, writes to it.
-- Config           src/config.rs. The fields that `validate` reads, and `validate`. What an error is
--                  about is a value; the text made from it is a parameter.
-- Rdma             src/transport_ucx.rs. Wire has the requests and responses as bytes, a position in the data
--                  being the rest of it; Endpoints is `RuntimeState` with its calls, where a handle
--                  of UCX is a number; Flights, Closing, Reaping and Steps are the requests that have an
--                  endpoint, in any order of steps; Slab is `RecvSlab`, the semaphore being its
--                  number of permits; Serve is `handle_inbound_request` and the client's part, and
--                  Fetch the two together.
-- Fetcher          src/fetcher.rs. PeerLru stands over an interface of the crate `lru`; State has the
--                  settings, the state and what others answer; Sources is `do_fetch` and what it
--                  calls, Chunk the fetch of a chunk or a slice, and of a chunk for a peer; Range is
--                  `fetch_range`, with the prefetch that it triggers, and Prefetch the prefetch and the task of `spawn_insert`. The
--                  counters are the list of their changes. Parts, Disk, Faithful, Fetched, Here and
--                  Right are about what comes out of a faithful state, Accounted and Bounded are
--                  about PeerLru, Whole, Served and Composed about ranges, Ahead about
--                  prefetches.
--                  A fetch of a chunk takes one call at a time; what a leader of the same fetch
--                  sends to it is an argument. The fetcher calls the cache of Cache, the choice of peers
--                  of PeerIndex, and what Rdma answers is an argument.
-- Hydrate          src/hydrate.rs. Plan is the part of `run_coordinator` that makes the chunks of the listed
--                  blobs and shares them out; Shared is about its chunks and buckets.
--
-- Not modelled: what hydration does with its plan, the transport over TCP, FUSE, Azure,
-- authentication and the daemon's loops, whose calls into the parts above can come in any order; of the fetcher, the pull of a
-- chunk from one peer, the clearing, and the cancelling of a call between two of its steps; the
-- counters' library; and what UCX, tokio, hyper, serde, the `lru` crate and the operating system do.
--
-- Texts and contents are lists of byte values. Numbers are natural numbers; where the source adds
-- `u64` values the sum wraps at 2 ^ 64, and a theorem that needs it assumes room. SHA-256 is a
-- parameter. What the operating system answers (files that cannot be opened or removed, writes that
-- fail) is an argument of the call. A `HashMap` is an association list with distinct keys, in some
-- order; a `BTreeMap` is one in rising order. The eviction loop takes the number of entries as
-- fuel; a round takes one entry away, so that the loop ends by its own test.
-- The loop that evicts in PeerLru takes one more than the number of chunks as fuel, and the loop over the
-- chunks of a range one more than the number of chunks between its ends; both end by their own test.
-- The loop over the chunks of a blob takes the blob's length as fuel, as each round takes a byte or more.
pub mod Prelude
pub mod Cache
pub mod Cluster
pub mod PeerIndex
pub mod HydrateJobs
pub mod Config
pub mod Rdma
pub mod Fetcher
pub mod Hydrate
