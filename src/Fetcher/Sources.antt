-- ===== src/Fetcher/Sources.antt =====
-- Where a chunk comes from, src/fetcher.rs: peers, then the blob store.
use Prim.Native.Nat.{◌%◌, ◌^◌}
use blobcache.Prelude.{
  ℕ, List, [], ◌∷◌, ◌++◌, map, Bytes, Bool, true, false, not, ltb, ◌==◌, ◌&&◌, Option, none, some,
  if◌then◌else◌, length,
}
use blobcache.Prelude.Result.{Result, ok, err, BcError, not_found, other}
use blobcache.Cache.Key.{ChunkKey}
use blobcache.Cluster.State.{NodeInfo, same_text}
use blobcache.PeerIndex.State.{drop_remote}
use blobcache.PeerIndex.Rank.{CandidateSet, rank_candidates, hrw_top_id}
use blobcache.Config.Fields.{MountConfig, is_empty}
use blobcache.Fetcher.PeerLru.{LruCache, put_lru}
use blobcache.Fetcher.State.{
  Fetcher, Settings, World, count, count_by, note_fetch_origin, spawn_insert, real_path,
  peer_bloom_yes, peer_bloom_no_holder, peer_stampede_leader, peer_stampede_follower,
  peer_stampede_follower_ok, peer_stampede_follower_timeout, blob_fetches, blob_fetch_bytes,
  peer_fetches_ok, peer_fetch_bytes, peer_fetches_miss, peer_fetches_err, peer_bloom_false_positive,
  peer_bloom_stale_drops,
}

-- The address that a peer is reached at, or none that could be used.
pub data Worker : Type 0 where
  unusable : Worker
  at_address : Option Bytes → Worker

unfoldable pub worker_of : World → NodeInfo → Worker
worker_of w n = elim n.ucx_worker_addr_b64 [
  | none ↦ if w.is_rdma then unusable else at_address none
  | some encoded ↦ elim (w.decode_base64 encoded) [
    | none ↦ unusable
    | some decoded ↦ at_address (some decoded)
  ]
]

-- What an error says.
pub data Complaint : Type 0 where
  blob_length : ℕ → ℕ → Complaint
  leader_length : ℕ → ℕ → Complaint
  leader_dropped leader_cancelled unknown_mount : Complaint
  leader_failed : BcError → Complaint
  slice_short : ℕ → ℕ → Complaint
  slice_panics : ℕ → ℕ → Complaint
  read_length : ℕ → Complaint

module _ {C : Type 0} (lru : LruCache C) (sha256 : Bytes → Bytes) (say : Complaint → Bytes)
    (set : Settings) (w : World) where
  -- The chunk of a peer is kept on disk, or in memory.
  unfoldable pub keep_peer_chunk : ChunkKey → Bytes → Fetcher C → Fetcher C
  keep_peer_chunk key chunk f =
      if set.cache_on_peer_fetch then spawn_insert key chunk f else elim f.peer_lru [
        | none ↦ f
        | some p ↦ record f { peer_lru = some (put_lru lru key chunk p) }
      ]

  -- A peer that does not have what its filter has: its filter is forgotten.
  abbrev pub drop_liar : NodeInfo → Fetcher C → Fetcher C
  drop_liar n f =
      let f' = count peer_bloom_false_positive f in
      count peer_bloom_stale_drops (record f' { peer_index = drop_remote n.id f'.peer_index })

  -- What a peer's answer does.
  unfoldable pub take_peer_chunk :
      NodeInfo → ChunkKey → ℕ → Bool → Result Bytes → Fetcher C → Fetcher C × Option Bytes
  unfolding keep_peer_chunk note_fetch_origin
  take_peer_chunk n key expected_len was_yes (ok chunk) f =
      if not (length chunk == expected_len) then (count peer_fetches_err f, none) else (
        note_fetch_origin key.mount key.blob false (
            keep_peer_chunk key chunk
              (count_by peer_fetch_bytes (length chunk) (count peer_fetches_ok f))),
        some chunk,
      )
  take_peer_chunk n key expected_len was_yes (err (not_found text)) f =
      (if was_yes then drop_liar n (count peer_fetches_miss f) else count peer_fetches_miss f, none)
  take_peer_chunk n key expected_len was_yes (err e) f = (count peer_fetches_err f, none)

  -- It never fails: what goes wrong with a peer is no chunk.
  unfoldable pub try_peer_fetch :
      NodeInfo → ChunkKey → ℕ → Bool → ℕ → Fetcher C → Fetcher C × Option Bytes
  unfolding take_peer_chunk worker_of
  try_peer_fetch n key expected_len was_yes wait_ms f = elim (worker_of w n) [
    | unusable ↦ (f, none)
    | at_address addr ↦
        take_peer_chunk n key expected_len was_yes
          (w.peer_chunk n addr key (expected_len % 2 ^ 32) wait_ms) f
  ]

  -- The peers in order, each with whether its filter has the key.
  unfoldable pub try_peers :
      ChunkKey → ℕ → List (NodeInfo × Bool) → Fetcher C → Fetcher C × Option Bytes
  unfolding try_peer_fetch
  try_peers key expected_len [] f = (f, none)
  try_peers key expected_len ((n, was_yes) ∷ peers) f =
      let (f', got) = try_peer_fetch n key expected_len was_yes 0 f in
      let rest = try_peers key expected_len peers f' in
      elim got [ some chunk ↦ (f', some chunk) | none ↦ rest ]

  unfoldable pub find_node : Bytes → List NodeInfo → Option NodeInfo
  find_node id [] = none
  find_node id (n ∷ nodes) = if same_text n.id id then some n else find_node id nodes

  -- The wait for the node that leads the fetch of a cold chunk.
  unfoldable pub follow_leader : ChunkKey → ℕ → Fetcher C → Fetcher C × Option Bytes
  unfolding find_node try_peer_fetch
  follow_leader key expected_len f =
      let top = hrw_top_id sha256 key w.alive f.peer_index in
      if same_text top f.peer_index.me_id
      then (count peer_stampede_leader f, none)
      else elim (find_node top w.alive) [
        | none ↦ (f, none)
        | some n ↦
            let (f', got) =
              try_peer_fetch n key expected_len false set.stampede_wait_ms
                (count peer_stampede_follower f) in
            elim got [
              | some chunk ↦ (count peer_stampede_follower_ok f', some chunk)
              | none ↦ (count peer_stampede_follower_timeout f', none)
            ]
      ]

  -- `fetch_blob_direct`, and the end of `do_fetch`.
  unfoldable pub fetch_blob_direct :
      MountConfig → Bytes → ChunkKey → ℕ → Fetcher C → Fetcher C × Result Bytes
  unfolding note_fetch_origin
  fetch_blob_direct mount blob_path key expected_len f =
      elim (w.blob_range mount (real_path mount blob_path) key.offset set.chunk_size) [
        | err e ↦ (f, err e)
        | ok chunk ↦
            if not (length chunk == expected_len)
            then (f, err (other (say (blob_length (length chunk) expected_len))))
            else (
              note_fetch_origin key.mount key.blob true (
                  spawn_insert key chunk
                    (count_by blob_fetch_bytes (length chunk) (count blob_fetches f))),
              ok chunk,
            )
      ]

  abbrev pub note_candidates : CandidateSet → Fetcher C → Fetcher C
  note_candidates c f =
      if not (is_empty c.yes_peers)
      then count peer_bloom_yes f
      else if not (is_empty w.alive)
      then count peer_bloom_no_holder f
      else f

  abbrev pub in_order : CandidateSet → List (NodeInfo × Bool)
  in_order c = map (λ n. (n, true)) c.yes_peers ++ map (λ n. (n, false)) c.maybe_peers

  -- The peers: those whose filter has the chunk, those that may have it, and the leader.
  unfoldable pub fetch_from_peers : ChunkKey → ℕ → Fetcher C → Fetcher C × Option Bytes
  unfolding try_peers follow_leader
  fetch_from_peers key expected_len f =
      let c =
        rank_candidates sha256 key w.alive set.peer_max_yes_attempts set.peer_max_maybe_attempts
          f.peer_index in
      let (f', got) = try_peers key expected_len (in_order c) (note_candidates c f) in
      elim got [
        | some chunk ↦ (f', some chunk)
        | none ↦
            if is_empty c.yes_peers && ltb 0 set.stampede_wait_ms && not (is_empty w.alive)
            then follow_leader key expected_len f'
            else (f', none)
      ]

  unfoldable pub do_fetch :
      MountConfig → Bytes → ChunkKey → ℕ → Bool → Fetcher C → Fetcher C × Result Bytes
  unfolding fetch_from_peers fetch_blob_direct
  do_fetch mount blob_path key expected_len bypass_peers f =
      let (f', got) = if bypass_peers then (f, none) else fetch_from_peers key expected_len f in
      elim got [
        | some chunk ↦ (f', ok chunk)
        | none ↦ fetch_blob_direct mount blob_path key expected_len f'
      ]
