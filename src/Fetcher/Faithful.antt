-- ===== src/Fetcher/Faithful.antt =====
-- A fetcher of src/fetcher.rs whose sources have the right bytes only gives right bytes, and keeps them so.
use blobcache.Prelude.{
  ℕ, ◌≡◌, refl, subst, List, Bytes, Bool, true, false, ◌==◌, Option, none, some, length, arith,
  Option-cases, Bool-cases, inl, inr, ◌⊎◌,
}
use blobcache.Prelude.Result.{Result, ok, err, BcError, not_found}
use blobcache.Cache.Key.{ChunkKey}
use blobcache.Cache.State.{Os, Files, read_file}
use blobcache.Cache.Read.{path_for}
use blobcache.Cluster.State.{NodeInfo}
use blobcache.Fetcher.PeerLru.{LruCache, IsLru, PeerLru}
use blobcache.Fetcher.State.{Fetcher, Settings, World, note_fetch_origin, spawn_insert}
use blobcache.Fetcher.Sources.{Complaint, keep_peer_chunk, take_peer_chunk}
use blobcache.Fetcher.Parts.{IsPart, AreParts, LruParts, put_lru-LruParts, insert-AreParts}

pub given_same : (b d : Bytes) → Path (Option Bytes) (some b) (some d) → b ≡ d
given_same b d e = ground arith

pub Result-cases : (r : Result Bytes) → ((b : Bytes) × (r ≡ ok b)) ⊎ ((e : BcError) × (r ≡ err e))
Result-cases (ok b) = inl (b, refl)
Result-cases (err e) = inr (e, refl)

module _ {C : Type 0} (lru : LruCache C) (laws : IsLru lru) (sha256 : Bytes → Bytes)
    (content : ChunkKey → Bytes) where
  abbrev pub KeptParts : Option (PeerLru C) → Type 0
  KeptParts none = Unit
  KeptParts (some p) = LruParts content lru laws p

  -- Whatever the node has of a chunk, on disk, in memory or on its way to the disk, is part of its
  -- content.
  pub record AreFaithful (files : Files) (kept : Option (PeerLru C))
      (writes : List (ChunkKey × Bytes)) : Type 0 where
    pub on_disk :
        (os : Os) (key : ChunkKey) (b : Bytes)
        → read_file os (path_for sha256 key) files ≡ some b
        → IsPart content key b
    pub in_memory : KeptParts kept
    pub in_writes : AreParts content writes

  abbrev pub IsFaithful : Fetcher C → Type 0
  IsFaithful f = AreFaithful f.cache.files f.peer_lru f.inflight_writes

  -- A call keeps the fetcher faithful, and a chunk that it gives has the length and is right.
  abbrev pub IsGood : ChunkKey → ℕ → Fetcher C × Option Bytes → Type 0
  IsGood key n r =
      IsFaithful r.0 × ((b : Bytes) → r.1 ≡ some b → (length b ≡ n) × IsPart content key b)

  pub given :
      (b d : Bytes) (n : ℕ) (key : ChunkKey)
      → length b ≡ n
      → IsPart content key b
      → Path (Option Bytes) (some b) (some d)
      → (length d ≡ n) × IsPart content key d
  given b d n key right part e =
      subst (λ x. (length x ≡ n) × IsPart content key x) (given_same b d e) (right, part)

  pub nothing :
      (n : ℕ) (key : ChunkKey) (b : Bytes)
      → Path (Option Bytes) none (some b)
      → (length b ≡ n) × IsPart content key b
  nothing n key b e = ground arith

  module _ (say : Complaint → Bytes) (set : Settings) (w : World) where
    -- What a peer answers to a key is part of the content of the key.
    abbrev pub PeersAreHonest : Type 0
    PeersAreHonest =
        (n : NodeInfo) (addr : Option Bytes) (key : ChunkKey) (len wait_ms : ℕ) (b : Bytes)
        → w.peer_chunk n addr key len wait_ms ≡ ok b
        → IsPart content key b

    pub spawn_insert-IsFaithful :
        (key : ChunkKey) (b : Bytes) (f : Fetcher C)
        → IsPart content key b
        → IsFaithful f
        → IsFaithful (spawn_insert key b f)
    unfolding spawn_insert
    spawn_insert-IsFaithful key b f part v = record {
      on_disk = v.on_disk;
      in_memory = v.in_memory;
      in_writes = insert-AreParts content key b f.inflight_writes part v.in_writes;
    }

    keep_peer_chunk-IsFaithful :
        (key : ChunkKey) (b : Bytes) (f : Fetcher C)
        → IsPart content key b
        → IsFaithful f
        → IsFaithful (keep_peer_chunk lru sha256 say set w key b f)
    unfolding keep_peer_chunk
    keep_peer_chunk-IsFaithful key b f part v = elim (Bool-cases set.cache_on_peer_fetch) [
      | inl disk ↦ rw (disk, keep_peer_chunk) (spawn_insert-IsFaithful key b f part v)
      | inr memory ↦ elim (Option-cases f.peer_lru) [
        | inl nowhere ↦ rw (memory, nowhere, keep_peer_chunk) v
        | inr (p, there) ↦
            rw (memory, there, keep_peer_chunk)
              (record {
                on_disk = v.on_disk;
                in_memory =
                    put_lru-LruParts content lru laws key b p part
                      (subst KeptParts there v.in_memory);
                in_writes = v.in_writes;
              })
      ]
    ]

    pub take_peer_chunk-IsGood :
        (n : NodeInfo) (key : ChunkKey) (len : ℕ) (was_yes : Bool) (answer : Result Bytes)
        (f : Fetcher C)
        → ((b : Bytes) → answer ≡ ok b → IsPart content key b)
        → IsFaithful f
        → IsGood key len (take_peer_chunk lru sha256 say set w n key len was_yes answer f)
    unfolding take_peer_chunk note_fetch_origin
    take_peer_chunk-IsGood n key len was_yes (ok b) f part v = elim (Bool-cases (length b == len)) [
      | inl right ↦
          rw (right, take_peer_chunk)
            (
              keep_peer_chunk-IsFaithful key b _ (part b refl) v,
              λ d e. given b d len key (ground arith) (part b refl) e,
            )
      | inr wrong ↦ rw (wrong, take_peer_chunk) (v, λ d e. ground arith)
    ]
    take_peer_chunk-IsGood n key len true (err (not_found text)) f part v = (v, λ d e. ground arith)
    take_peer_chunk-IsGood n key len false (err (not_found text)) f part v =
        (v, λ d e. ground arith)
    take_peer_chunk-IsGood n key len was_yes (err e) f part v = (v, λ d h. ground arith)
