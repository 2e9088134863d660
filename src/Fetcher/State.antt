-- ===== src/Fetcher/State.antt =====
-- `Fetcher` of src/fetcher.rs: its settings, its state, and what other parts answer during a call.
use Prim.Native.Nat.{min}
use blobcache.Prelude.{
  ℕ, ◌+◌, List, [], ◌∷◌, ◌++◌, Bytes, Bool, ltb, ◌==◌, ◌&&◌, Option, none, some, if◌then◌else◌,
  length,
}
use blobcache.Prelude.Assoc.{get, insert}
use blobcache.Prelude.Result.{Result}
use blobcache.Cache.Key.{ChunkKey, key_discrete}
use blobcache.Cache.State.{DiskCache, Os}
use blobcache.Cluster.State.{NodeInfo, text_discrete}
use blobcache.PeerIndex.State.{PeerIndex}
use blobcache.Config.Fields.{MountConfig, is_empty}
use blobcache.Fetcher.PeerLru.{PeerLru}

pub record SeqState : Type 0 where
  pub last_end : ℕ
  pub consecutive : ℕ
  pub blob_streak : ℕ

abbrev pub new_stream : SeqState
new_stream = record { last_end = 0; consecutive = 0; blob_streak = 0 }

-- The counters and gauges of `Stats` that the fetcher changes.
pub data Counter : Type 0 where
  peer_lru_hits singleflight_begun singleflight_ended : Counter
  singleflight_waits peer_bloom_yes peer_bloom_no_holder : Counter
  peer_stampede_leader peer_stampede_follower peer_stampede_follower_ok : Counter
  peer_stampede_follower_timeout blob_fetches blob_fetch_bytes : Counter
  peer_fetches_ok peer_fetch_bytes peer_fetches_miss : Counter
  peer_fetches_err peer_bloom_false_positive peer_bloom_stale_drops : Counter
  writes_begun writes_ended cache_insert_failures : Counter
  prefetch_skipped_not_origin prefetch_skipped_cached prefetch_skipped_inflight : Counter
  prefetch_spawned : Counter

-- The fields that a fetcher does not change.
pub record Settings : Type 0 where
  pub chunk_size : ℕ
  pub peer_max_yes_attempts : ℕ
  pub peer_max_maybe_attempts : ℕ
  pub stampede_wait_ms : ℕ
  pub mounts : List (Bytes × MountConfig)
  pub prefetch_depth : ℕ
  pub prefetch_threshold : ℕ
  pub prefetch_origin_only : Bool
  pub cache_on_peer_fetch : Bool

-- What else a fetcher reads and writes. `inflight` has the keys of the fetches that others wait for;
-- `stats` is the list of changes of counters, the last first.
pub record Fetcher (C : Type 0) : Type 0 where
  pub cache : DiskCache
  pub inflight : List (ChunkKey × Unit {0})
  pub inflight_writes : List (ChunkKey × Bytes)
  pub insert_failures : List (ChunkKey × Bytes)
  pub seq_state : List (Bytes × SeqState)
  pub peer_lru : Option (PeerLru C)
  pub peer_index : PeerIndex
  pub stats : List (Counter × ℕ)

-- What the operating system, the peers and the blob store answer during a call: the answer of a peer
-- to a key, a length and the time to wait, at the address of its worker; and that of the blob store to
-- a mount, a path, an offset and a length.
pub record World : Type 0 where
  pub os : Os
  pub alive : List NodeInfo
  pub is_rdma : Bool
  pub decode_base64 : Bytes → Option Bytes
  pub peer_chunk : NodeInfo → Option Bytes → ChunkKey → ℕ → ℕ → Result Bytes
  pub blob_range : MountConfig → Bytes → ℕ → ℕ → Result Bytes

-- The key of a file in `seq_state`.
abbrev pub stream_key : Bytes → Bytes → Bytes
stream_key mount_name blob_path = mount_name ++ 0 ∷ blob_path

abbrev pub stream_of : Bytes → List (Bytes × SeqState) → SeqState
stream_of key streams = elim (get text_discrete key streams) [ none ↦ new_stream | some s ↦ s ]

abbrev pub max_recorded_insert_failures : ℕ
max_recorded_insert_failures = 256

module _ {C : Type 0} where
  abbrev pub count_by : Counter → ℕ → Fetcher C → Fetcher C
  count_by c n f = record f { stats = (c, n) ∷ f.stats }

  abbrev pub count : Counter → Fetcher C → Fetcher C
  count c f = count_by c 1 f

  unfoldable pub note_fetch_origin : Bytes → Bytes → Bool → Fetcher C → Fetcher C
  note_fetch_origin mount_name blob_path from_blob f =
      let key = stream_key mount_name blob_path in
      let s = stream_of key f.seq_state in
      let streak = if from_blob then min (s.blob_streak + 1) 4294967295 else 0 in
      record f {
        seq_state = insert text_discrete key (record s { blob_streak = streak }) f.seq_state;
      }

  -- What `spawn_insert` does before it returns.
  unfoldable pub spawn_insert : ChunkKey → Bytes → Fetcher C → Fetcher C
  spawn_insert key chunk f =
      count writes_begun
        (record f { inflight_writes = insert key_discrete key chunk f.inflight_writes })

  unfoldable pub record_insert_failure : ChunkKey → Bytes → Fetcher C → Fetcher C
  record_insert_failure key text f =
      if ltb (length f.insert_failures) max_recorded_insert_failures
      then record f { insert_failures = f.insert_failures ++ (key, text) ∷ [] }
      else f

-- `prefix.trim_end_matches('/')`
unfoldable pub trim_end : Bytes → Bytes
trim_end [] = []
trim_end (c ∷ s) = let rest = trim_end s in if is_empty rest && c == b'/' then [] else c ∷ rest

unfoldable pub real_path : MountConfig → Bytes → Bytes
unfolding trim_end
real_path mount blob_path =
    if is_empty mount.prefix then blob_path else trim_end mount.prefix ++ b'/' ∷ blob_path
