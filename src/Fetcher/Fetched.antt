-- ===== src/Fetcher/Fetched.antt =====
-- Right bytes from peers and from the blob store, src/fetcher.rs.
use blobcache.Prelude.{
  ℕ, ◌≡◌, ◌∙◌, List, [], ◌∷◌, Bytes, Bool, true, false, not, ltb, ◌==◌, ◌&&◌, Option, none, length,
  arith, Option-cases, Bool-cases, inl, inr,
}
use Prim.Native.Nat.{◌%◌, ◌^◌}
use blobcache.Prelude.Result.{Result, ok}
use blobcache.Cache.Key.{ChunkKey}
use blobcache.Cluster.State.{NodeInfo, same_text}
use blobcache.Config.Fields.{MountConfig, is_empty}
use blobcache.PeerIndex.Rank.{CandidateSet, rank_candidates, hrw_top_id}
use blobcache.Fetcher.PeerLru.{LruCache, IsLru}
use blobcache.Fetcher.State.{Counter, Fetcher, Settings, World, note_fetch_origin, real_path, count}
use blobcache.Fetcher.Sources.{
  Complaint, Worker, unusable, at_address, worker_of, take_peer_chunk, try_peer_fetch, try_peers,
  find_node, follow_leader, fetch_blob_direct, fetch_from_peers, do_fetch, in_order,
  note_candidates,
}
use blobcache.Fetcher.Parts.{IsPart}
use blobcache.Fetcher.Faithful.{
  Result-cases, IsFaithful, IsGood, given, nothing, PeersAreHonest, spawn_insert-IsFaithful,
  take_peer_chunk-IsGood,
}

module _ {C : Type 0} (lru : LruCache C) (laws : IsLru lru) (sha256 : Bytes → Bytes)
    (content : ChunkKey → Bytes) (say : Complaint → Bytes) (set : Settings) (w : World) where
  module _ (honest : PeersAreHonest lru laws sha256 content say set w) where
    try_peer_fetch-IsGood :
        (n : NodeInfo) (key : ChunkKey) (len : ℕ) (was_yes : Bool) (wait_ms : ℕ) (f : Fetcher C)
        → IsFaithful lru laws sha256 content f
        → IsGood lru laws sha256 content key len
            (try_peer_fetch lru sha256 say set w n key len was_yes wait_ms f)
    unfolding try_peer_fetch
    try_peer_fetch-IsGood n key len was_yes wait_ms f v = asked (worker_of w n)
      where
        asked :
            (worker : Worker)
            → IsGood lru laws sha256 content key len
                (elim worker as (λ x. Fetcher C × Option Bytes) [
                  | unusable ↦ (f, none)
                  | at_address addr ↦
                      take_peer_chunk lru sha256 say set w n key len was_yes
                        (w.peer_chunk n addr key (len % 2 ^ 32) wait_ms)
                        f
                ])
        asked unusable = (v, nothing lru laws sha256 content len key)
        asked (at_address addr) =
            take_peer_chunk-IsGood lru laws sha256 content say set w n key len was_yes _ f
              (honest n addr key (len % 2 ^ 32) wait_ms) v

    try_peers-IsGood :
        (key : ChunkKey) (len : ℕ) (peers : List (NodeInfo × Bool)) (f : Fetcher C)
        → IsFaithful lru laws sha256 content f
        → IsGood lru laws sha256 content key len (try_peers lru sha256 say set w key len peers f)
    unfolding try_peers
    try_peers-IsGood key len [] f v = (v, nothing lru laws sha256 content len key)
    try_peers-IsGood key len ((n, was_yes) ∷ peers) f v =
        let (kept, right) = try_peer_fetch-IsGood n key len was_yes 0 f v in
        elim (Option-cases (try_peer_fetch lru sha256 say set w n key len was_yes 0 f).1) [
          | inl missed ↦ rw (missed, try_peers) (try_peers-IsGood key len peers _ kept)
          | inr (b, got) ↦ rw (got, try_peers) (kept, λ d e. right d (got ∙ e))
        ]

    follow_leader-IsGood :
        (key : ChunkKey) (len : ℕ) (f : Fetcher C)
        → IsFaithful lru laws sha256 content f
        → IsGood lru laws sha256 content key len (follow_leader lru sha256 say set w key len f)
    unfolding follow_leader
    follow_leader-IsGood key len f v =
        let top = hrw_top_id sha256 key w.alive f.peer_index in
        elim (Bool-cases (same_text top f.peer_index.me_id)) [
          | inl leads ↦ rw (leads, follow_leader) (v, nothing lru laws sha256 content len key)
          | inr follows ↦ elim (Option-cases (find_node lru sha256 say set w top w.alive)) [
            | inl unknown ↦
                rw (follows, unknown, follow_leader) (v, nothing lru laws sha256 content len key)
            | inr (n, known) ↦
                let g = count Counter.peer_stampede_follower f in
                let (kept, right) =
                  try_peer_fetch-IsGood n key len false set.stampede_wait_ms g v in
                elim (Option-cases
                  (try_peer_fetch lru sha256 say set w n key len false set.stampede_wait_ms g).1) [
                    | inl missed ↦
                        rw (follows, known, missed, follow_leader)
                          (kept, nothing lru laws sha256 content len key)
                    | inr (b, got) ↦
                        rw (follows, known, got, follow_leader) (kept, λ d e. right d (got ∙ e))
                  ]
          ]
        ]

    noted :
        (c : CandidateSet) (f : Fetcher C)
        → IsFaithful lru laws sha256 content f
        → IsFaithful lru laws sha256 content (note_candidates lru sha256 say set w c f)
    noted c f v = elim (Bool-cases (is_empty c.yes_peers)) [
      | inr some_yes ↦ rw some_yes v
      | inl no_yes ↦ elim (Bool-cases (is_empty w.alive)) [
        | inl alone ↦ rw (no_yes, alone) v
        | inr peers ↦ rw (no_yes, peers) v
      ]
    ]

    fetch_from_peers-IsGood :
        (key : ChunkKey) (len : ℕ) (f : Fetcher C)
        → IsFaithful lru laws sha256 content f
        → IsGood lru laws sha256 content key len (fetch_from_peers lru sha256 say set w key len f)
    unfolding fetch_from_peers
    fetch_from_peers-IsGood key len f v =
        let c =
          rank_candidates sha256 key w.alive set.peer_max_yes_attempts set.peer_max_maybe_attempts
            f.peer_index in
        let g = note_candidates lru sha256 say set w c f in
        let peers = in_order lru sha256 say set w c in
        let (kept, right) = try_peers-IsGood key len peers g (noted c f v) in
        elim (Option-cases (try_peers lru sha256 say set w key len peers g).1) [
          | inr (b, got) ↦ rw (got, fetch_from_peers) (kept, λ d e. right d (got ∙ e))
          | inl missed ↦
              elim (Bool-cases
                (is_empty c.yes_peers && ltb 0 set.stampede_wait_ms && not (is_empty w.alive))) [
                  | inl cold ↦
                      rw (missed, cold, fetch_from_peers) (follow_leader-IsGood key len _ kept)
                  | inr warm ↦
                      rw (missed, warm, fetch_from_peers)
                        (kept, nothing lru laws sha256 content len key)
                ]
        ]

  -- The blob store answers a mount's file with the bytes of its chunks.
  abbrev pub BlobsAreRight : MountConfig → Bytes → Type 0
  BlobsAreRight mount blob_path =
      (offset : ℕ) (b : Bytes)
      → w.blob_range mount (real_path mount blob_path) offset set.chunk_size ≡ ok b
      → IsPart content (record { mount = mount.name; blob = blob_path; offset = offset }) b

  -- The same of a result.
  abbrev pub IsRight : ChunkKey → ℕ → Fetcher C × Result Bytes → Type 0
  IsRight key n r =
      IsFaithful lru laws sha256 content r.0
      × ((b : Bytes) → r.1 ≡ ok b → (length b ≡ n) × IsPart content key b)

  module _ (mount : MountConfig) (blob_path : Bytes) (right_blobs : BlobsAreRight mount blob_path)
      (offset len : ℕ) where
    abbrev key_of : ChunkKey
    key_of = record { mount = mount.name; blob = blob_path; offset = offset }

    pub fetch_blob_direct-IsRight :
        (f : Fetcher C)
        → IsFaithful lru laws sha256 content f
        → IsRight key_of len (fetch_blob_direct lru sha256 say set w mount blob_path key_of len f)
    unfolding fetch_blob_direct note_fetch_origin
    fetch_blob_direct-IsRight f v =
        elim (Result-cases (w.blob_range mount (real_path mount blob_path) offset set.chunk_size)) [
          | inr (e, failed) ↦ rw (failed, fetch_blob_direct) (v, λ b h. ground arith)
          | inl (b, came) ↦ elim (Bool-cases (length b == len)) [
            | inr wrong ↦ rw (came, wrong, fetch_blob_direct) (v, λ b h. ground arith)
            | inl right ↦
                let part = right_blobs offset b came in
                rw (came, right, fetch_blob_direct)
                  (
                    spawn_insert-IsFaithful lru laws sha256 content say set w key_of b _ part v,
                    λ d h.
                        given lru laws sha256 content b d len key_of (ground arith) part
                          (ground arith),
                  )
          ]
        ]

    pub do_fetch-IsRight :
        (bypass_peers : Bool) (f : Fetcher C)
        → PeersAreHonest lru laws sha256 content say set w
        → IsFaithful lru laws sha256 content f
        → IsRight key_of len
            (do_fetch lru sha256 say set w mount blob_path key_of len bypass_peers f)
    unfolding do_fetch
    do_fetch-IsRight true f honest v = fetch_blob_direct-IsRight f v
    do_fetch-IsRight false f honest v =
        let (kept, right) = fetch_from_peers-IsGood honest key_of len f v in
        elim (Option-cases (fetch_from_peers lru sha256 say set w key_of len f).1) [
          | inl missed ↦ rw (missed, do_fetch) (fetch_blob_direct-IsRight _ kept)
          | inr (b, got) ↦ rw (got, do_fetch) (kept, λ d h. right d (ground (arith, got)))
        ]
