-- ===== src/Fetcher/Chunk.antt =====
-- A chunk, or a slice of one, for a reader or for a peer, src/fetcher.rs. What a leader of the same fetch
-- broadcasts is an argument.
use blobcache.Prelude.{
  ℕ, ◌+◌, [], Bytes, Bool, false, not, ltb, leb, ◌==◌, Option, none, some, if◌then◌else◌, length,
  take, drop,
}
use blobcache.Prelude.Assoc.{get, insert, remove}
use blobcache.Prelude.Result.{Result, ok, err, other}
use blobcache.Prelude.Word.{wrapping_add, u64_mod}
use blobcache.Cache.Key.{ChunkKey, key_discrete}
use blobcache.Cache.Read.{try_get, try_get_range}
use blobcache.Cache.Write.{remove_chunk}
use blobcache.Cluster.State.{text_discrete}
use blobcache.Config.Fields.{MountConfig}
use blobcache.Fetcher.PeerLru.{LruCache, get_lru}
use blobcache.Fetcher.State.{
  Fetcher, Settings, World, count, peer_lru_hits, singleflight_begun, singleflight_ended,
  singleflight_waits,
}
use blobcache.Fetcher.Sources.{
  Complaint, leader_length, leader_dropped, leader_failed, slice_short, slice_panics, do_fetch,
  fetch_blob_direct,
}

-- What a follower receives: the leader's result, or nothing, as the leader is gone.
pub data Broadcast : Type 0 where
  sent : Result Bytes → Broadcast
  gone : Broadcast

-- A chunk, if it is as long as it has to be.
abbrev pub of_length : ℕ → Option Bytes → Option Bytes
of_length n none = none
of_length n (some b) = if length b == n then some b else none

module _ {C : Type 0} (lru : LruCache C) (sha256 : Bytes → Bytes) (say : Complaint → Bytes)
    (set : Settings) (w : World) where
  -- The chunk that is kept in memory.
  unfoldable pub read_lru : ChunkKey → Fetcher C → Fetcher C × Option Bytes
  read_lru key f = elim f.peer_lru [
    | none ↦ (f, none)
    | some p ↦ let (p', hit) = get_lru lru key p in (record f { peer_lru = some p' }, hit)
  ]

  unfoldable pub read_cache : ChunkKey → Fetcher C → Fetcher C × Option Bytes
  read_cache key f = let (c, b) = try_get sha256 w.os key f.cache in (record f { cache = c }, b)

  -- The cache, where a chunk of another length is removed.
  unfoldable pub read_cache_or_evict : ChunkKey → ℕ → Fetcher C → Fetcher C × Option Bytes
  unfolding read_cache
  read_cache_or_evict key expected_len f =
      let (f', cached) = read_cache key f in
      elim cached [
        | none ↦ (f', none)
        | some b ↦
            if length b == expected_len
            then (f', some b)
            else (record f' { cache = remove_chunk sha256 w.os key f'.cache }, none)
      ]

  -- How `fetch_chunk_inner` looks for the chunk on this node.
  unfoldable pub find_here : ChunkKey → ℕ → Fetcher C → Fetcher C × Option Bytes
  unfolding read_lru read_cache_or_evict
  find_here key expected_len f =
      let (f', in_memory) = read_lru key f in
      elim (of_length expected_len (get key_discrete key f.inflight_writes)) [
        | some b ↦ (f, some b)
        | none ↦ elim (of_length expected_len in_memory) [
          | some b ↦ (count peer_lru_hits f', some b)
          | none ↦ read_cache_or_evict key expected_len f'
        ]
      ]

  -- A follower: the fetch of the chunk is under way.
  unfoldable pub follow : ChunkKey → ℕ → Broadcast → Fetcher C → Fetcher C × Result Bytes
  unfolding read_cache
  follow key expected_len (sent (ok b)) f = (
    f,
    if not (length b == expected_len)
        then err (other (say (leader_length (length b) expected_len)))
        else ok b,
  )
  follow key expected_len (sent (err e)) f = (f, err (other (say (leader_failed e))))
  follow key expected_len gone f =
      let (f', cached) = read_cache key f in
      (
        f',
        elim (of_length expected_len cached) [
          | some b ↦ ok b
          | none ↦ err (other (say leader_dropped))
        ],
      )

  abbrev pub lead : ChunkKey → Fetcher C → Fetcher C
  lead key f =
      count singleflight_begun (record f { inflight = insert key_discrete key tt f.inflight })

  -- `LeaderGuard::disarm`: the followers then have the result.
  unfoldable pub disarm : ChunkKey → Fetcher C → Fetcher C
  disarm key f = elim (get key_discrete key f.inflight) [
    | none ↦ f
    | some _ ↦ count singleflight_ended (record f { inflight = remove key_discrete key f.inflight })
  ]

  unfoldable pub fetch_chunk_inner :
      MountConfig → Bytes → ℕ → ℕ → Bool → Broadcast → Fetcher C → Fetcher C × Result Bytes
  unfolding find_here follow disarm
  fetch_chunk_inner mount blob_path offset expected_len bypass_peers broadcast f =
      let key : ChunkKey = record { mount = mount.name; blob = blob_path; offset = offset } in
      let (f', here) = find_here key expected_len f in
      elim here [
        | some b ↦ (f', ok b)
        | none ↦ elim (get key_discrete key f'.inflight) [
          | some _ ↦ follow key expected_len broadcast (count singleflight_waits f')
          | none ↦
              let (f'', result) =
                do_fetch lru sha256 say set w mount blob_path key expected_len bypass_peers
                  (lead key f') in
              (disarm key f'', result)
        ]
      ]

  -- `bytes.slice(start..end)`, if the bytes reach to `end`, the sum of two `u64`. A sum that wraps
  -- is less than `start`, and `slice` then panics: the task that reads the slice ends with an error.
  abbrev pub slice_of : ℕ → ℕ → Option Bytes → Option (Result Bytes)
  slice_of start n none = none
  slice_of start n (some b) =
      let end = wrapping_add start n in
      if leb end (length b)
      then some (
          if ltb (start + n) u64_mod
          then ok (take n (drop start b))
          else err (other (say (slice_panics start end))))
      else none

  unfoldable pub fetch_chunk_range_inner :
      MountConfig → Bytes → ℕ → ℕ → ℕ → ℕ → Broadcast → Fetcher C → Fetcher C × Result Bytes
  unfolding read_lru
  fetch_chunk_range_inner mount blob_path chunk_offset sub_offset sub_len expected_chunk_len
        broadcast f =
      let key : ChunkKey = record { mount = mount.name; blob = blob_path; offset = chunk_offset } in
      let (f', in_memory) = read_lru key f in
      let (cache, cached) = try_get_range sha256 w.os key sub_offset sub_len f'.cache in
      let g = record f' { cache = cache } in
      let (g', full) =
        fetch_chunk_inner mount blob_path chunk_offset expected_chunk_len false broadcast g in
      if sub_len == 0
      then (f, ok [])
      else elim (slice_of sub_offset sub_len (get key_discrete key f.inflight_writes)) [
        | some r ↦ (f, r)
        | none ↦ elim (slice_of sub_offset sub_len (of_length expected_chunk_len in_memory)) [
          | some r ↦ (count peer_lru_hits f', r)
          | none ↦ elim cached [
            | some b ↦ (g, ok b)
            | none ↦ elim full [
              | err e ↦ (g', err e)
              | ok b ↦ elim (slice_of sub_offset sub_len (some b)) [
                | some r ↦ (g', r)
                | none ↦ (
                  g',
                  err (other (say (slice_short (length b) (wrapping_add sub_offset sub_len)))),
                )
              ]
            ]
          ]
        ]
      ]

  -- `serve_peer_chunk`; what a follower receives in time is an argument.
  unfoldable pub serve_peer_chunk : ChunkKey → ℕ → Broadcast → Fetcher C → Fetcher C × Option Bytes
  unfolding read_cache disarm
  serve_peer_chunk key expected_len broadcast f =
      let (f', cached) = read_cache key f in
      elim (of_length expected_len cached) [
        | some b ↦ (f', some b)
        | none ↦ elim (get key_discrete key f'.inflight) [
          | some _ ↦
              (f', elim broadcast [ sent (ok b) ↦ of_length expected_len (some b) | _ ↦ none ])
          | none ↦ elim (get text_discrete key.mount set.mounts) [
            | none ↦ (disarm key (lead key f'), none)
            | some mount ↦
                let (f'', result) =
                  fetch_blob_direct lru sha256 say set w mount key.blob key expected_len
                    (lead key f') in
                (disarm key f'', elim result [ ok b ↦ some b | err e ↦ none ])
          ]
        ]
      ]
