-- ===== src/Fetcher/Here.antt =====
-- What a fetcher of src/fetcher.rs finds on its own node is right.
use blobcache.Prelude.{
  ℕ, ◌≡◌, refl, sym, ap, ◌∙◌, subst, Bytes, ◌==◌, Option, none, some, length, arith, Option-cases,
  Bool-cases, inl, inr,
}
use blobcache.Prelude.Assoc.{get}
use blobcache.Cache.Key.{ChunkKey, key_discrete}
use blobcache.Cache.State.{read_file}
use blobcache.Cache.Read.{path_for}
use blobcache.Fetcher.PeerLru.{LruCache, IsLru}
use blobcache.Fetcher.State.{Fetcher, Settings, World}
use blobcache.Fetcher.Sources.{Complaint}
use blobcache.Fetcher.Chunk.{of_length, read_lru, read_cache, read_cache_or_evict, find_here}
use blobcache.Fetcher.Parts.{IsPart, get_lru-LruParts, get-IsPart}
use blobcache.Fetcher.Disk.{try_get-file, remove_chunk-file}
use blobcache.Fetcher.Faithful.{IsFaithful, IsGood, KeptParts, given, nothing}

module _ {C : Type 0} (lru : LruCache C) (laws : IsLru lru) (sha256 : Bytes → Bytes)
    (content : ChunkKey → Bytes) where
  abbrev pub Faith : Fetcher C → Type 0
  Faith = IsFaithful lru laws sha256 content

  -- A read keeps the fetcher faithful, and gives part of the content.
  abbrev IsRead : ChunkKey → Fetcher C × Option Bytes → Type 0
  IsRead key r = Faith r.0 × ((b : Bytes) → r.1 ≡ some b → IsPart content key b)

  module _ (say : Complaint → Bytes) (set : Settings) (w : World) where
    pub read_lru-IsRead :
        (key : ChunkKey) (f : Fetcher C)
        → Faith f
        → IsRead key (read_lru lru sha256 say set w key f)
    unfolding read_lru
    read_lru-IsRead key f v = elim (Option-cases f.peer_lru) [
      | inl nowhere ↦ rw (nowhere, read_lru) (v, λ b e. ground arith)
      | inr (p, there) ↦
          let (kept, part) =
            get_lru-LruParts content lru laws key p
              (subst (KeptParts lru laws sha256 content) there v.in_memory) in
          rw (there, read_lru)
            (record { on_disk = v.on_disk; in_memory = kept; in_writes = v.in_writes }, part)
    ]

    pub read_cache-IsRead :
        (key : ChunkKey) (f : Fetcher C)
        → Faith f
        → IsRead key (read_cache lru sha256 say set w key f)
    unfolding read_cache
    read_cache-IsRead key f v =
        let (same, file) = try_get-file sha256 w.os key f.cache in
        (
          record {
            on_disk =
                λ os k b e. v.on_disk os k b (ap (read_file os (path_for sha256 k)) (sym same) ∙ e);
            in_memory = v.in_memory;
            in_writes = v.in_writes;
          },
          λ b e. v.on_disk w.os key b (file b e),
        )

    read_cache_or_evict-IsGood :
        (key : ChunkKey) (len : ℕ) (f : Fetcher C)
        → Faith f
        → IsGood lru laws sha256 content key len
            (read_cache_or_evict lru sha256 say set w key len f)
    unfolding read_cache_or_evict
    read_cache_or_evict-IsGood key len f v =
        let r = read_cache lru sha256 say set w key f in
        let (kept, part) = read_cache-IsRead key f v in
        elim (Option-cases r.1) [
          | inl missed ↦
              rw (missed, read_cache_or_evict) (kept, nothing lru laws sha256 content len key)
          | inr (b, got) ↦ elim (Bool-cases (length b == len)) [
            | inl right ↦
                rw (got, right, read_cache_or_evict)
                  (
                    kept,
                    λ d e. given lru laws sha256 content b d len key (ground arith) (part b got) e,
                  )
            | inr wrong ↦
                rw (got, wrong, read_cache_or_evict)
                  (
                    record {
                      on_disk = λ os k d e.
                          kept.on_disk os k d (
                            remove_chunk-file sha256 w.os os key r.0.cache (path_for sha256 k) d e);
                      in_memory = kept.in_memory;
                      in_writes = kept.in_writes;
                    },
                    nothing lru laws sha256 content len key,
                  )
          ]
        ]

    pub of_length-right :
        (key : ChunkKey) (len : ℕ) (hit : Option Bytes) (b : Bytes)
        → ((d : Bytes) → hit ≡ some d → IsPart content key d)
        → of_length len hit ≡ some b
        → (length b ≡ len) × IsPart content key b
    of_length-right key len none b part e = nothing lru laws sha256 content len key b e
    of_length-right key len (some d) b part e = elim (Bool-cases (length d == len)) [
      | inl right ↦
          given lru laws sha256 content d b len key (ground arith) (part d refl)
            (ground (arith, right))
      | inr wrong ↦ ground (arith, wrong)
    ]

    pub find_here-IsGood :
        (key : ChunkKey) (len : ℕ) (f : Fetcher C)
        → Faith f
        → IsGood lru laws sha256 content key len (find_here lru sha256 say set w key len f)
    unfolding find_here
    find_here-IsGood key len f v =
        let written = λ (d : Bytes) (e : get key_discrete key f.inflight_writes ≡ some d).
          get-IsPart content key d f.inflight_writes v.in_writes e in
        let r = read_lru lru sha256 say set w key f in
        let (kept, part) = read_lru-IsRead key f v in
        elim (Option-cases (of_length len (get key_discrete key f.inflight_writes))) [
          | inr (b, got) ↦
              rw (got, find_here) (v, λ d e. of_length-right key len _ d written (got ∙ e))
          | inl unwritten ↦ elim (Option-cases (of_length len r.1)) [
            | inr (b, got) ↦
                rw (unwritten, got, find_here)
                  (kept, λ d e. of_length-right key len _ d part (got ∙ e))
            | inl missed ↦
                rw (unwritten, missed, find_here) (read_cache_or_evict-IsGood key len _ kept)
          ]
        ]
