-- ===== src/Fetcher/PeerLru.antt =====
-- `PeerLru` of src/fetcher.rs: chunks of peers that are kept in memory, bounded by their bytes. The crate
-- `lru` is an interface.
use Prim.Native.Nat.{zero, suc}
use blobcache.Prelude.{
  ℕ, ◌≡◌, List, [], ◌∷◌, ◌++◌, Bytes, true, false, ltb, Option, none, some, if◌then◌else◌, length,
}
use blobcache.Prelude.Assoc.{get, remove}
use blobcache.Prelude.Word.{saturating_add, saturating_sub}
use blobcache.Cache.Key.{ChunkKey, key_discrete}

abbrev pub Chunks : Type 0
Chunks = List (ChunkKey × Bytes)

-- `LruCache<ChunkKey, Bytes>`: its calls, and its entries, the least recently used first. A read moves
-- its entry to the end; `put` gives the value that it replaces.
pub record LruCache (C : Type 0) : Type 0 where
  pub unbounded : C
  pub read : ChunkKey → C → C × Option Bytes
  pub put : ChunkKey → Bytes → C → C × Option Bytes
  pub pop_lru : C → C × Option (ChunkKey × Bytes)
  pub clear : C → C
  pub entries : C → Chunks

abbrev pub newest : ChunkKey → Option Bytes → Chunks → Chunks
newest k none l = l
newest k (some b) l = remove key_discrete k l ++ (k, b) ∷ []

abbrev pub front : Chunks → Option (ChunkKey × Bytes)
front [] = none
front (e ∷ l) = some e

abbrev pub behind : Chunks → Chunks
behind [] = []
behind (e ∷ l) = l

-- What the crate documents of these calls.
pub record IsLru {C : Type 0} (lru : LruCache C) : Type 0 where
  pub starts_empty : lru.entries lru.unbounded ≡ []
  pub clear_empties : (c : C) → lru.entries (lru.clear c) ≡ []
  pub read_finds : (k : ChunkKey) (c : C) → (lru.read k c).1 ≡ get key_discrete k (lru.entries c)
  pub read_uses :
      (k : ChunkKey) (c : C)
      → lru.entries (lru.read k c).0 ≡ newest k (get key_discrete k (lru.entries c)) (lru.entries c)
  pub put_replaces :
      (k : ChunkKey) (b : Bytes) (c : C) → (lru.put k b c).1 ≡ get key_discrete k (lru.entries c)
  pub put_adds :
      (k : ChunkKey) (b : Bytes) (c : C)
      → lru.entries (lru.put k b c).0 ≡ newest k (some b) (lru.entries c)
  pub pops_front : (c : C) → (lru.pop_lru c).1 ≡ front (lru.entries c)
  pub pop_leaves : (c : C) → lru.entries (lru.pop_lru c).0 ≡ behind (lru.entries c)

pub record PeerLru (C : Type 0) : Type 0 where
  pub inner : C
  pub bytes : ℕ
  pub cap_bytes : ℕ

module _ {C : Type 0} (lru : LruCache C) where
  unfoldable pub new_lru : ℕ → PeerLru C
  new_lru cap_bytes = record { inner = lru.unbounded; bytes = 0; cap_bytes = cap_bytes }

  unfoldable pub get_lru : ChunkKey → PeerLru C → PeerLru C × Option Bytes
  get_lru key p = let (inner, hit) = lru.read key p.inner in (record p { inner = inner }, hit)

  -- The `while` of `put`, on fuel.
  unfoldable pub evict_over : ℕ → PeerLru C → PeerLru C
  evict_over zero p = p
  evict_over (suc fuel) p = elim (ltb p.cap_bytes p.bytes) [
    | false ↦ p
    | true ↦
        let (inner, popped) = lru.pop_lru p.inner in
        elim popped [
          | none ↦ record p { inner = inner }
          | some (k, v) ↦
              evict_over fuel
                (record p { inner = inner; bytes = saturating_sub p.bytes (length v) })
        ]
  ]

  abbrev pub bytes_without : Option Bytes → ℕ → ℕ
  bytes_without none n = n
  bytes_without (some prev) n = saturating_sub n (length prev)

  -- `put` without its loop: the replaced value and the new one.
  unfoldable pub put_unbounded : ChunkKey → Bytes → PeerLru C → PeerLru C
  put_unbounded key val p =
      let (inner, prev) = lru.put key val p.inner in
      record p { inner = inner; bytes = saturating_add (bytes_without prev p.bytes) (length val) }

  -- The fuel is one more than the entries, which each round makes fewer.
  unfoldable pub put_lru : ChunkKey → Bytes → PeerLru C → PeerLru C
  unfolding evict_over put_unbounded
  put_lru key val p =
      if ltb p.cap_bytes (length val)
      then p
      else let p' = put_unbounded key val p in evict_over (suc (length (lru.entries p'.inner))) p'

  unfoldable pub clear_lru : PeerLru C → PeerLru C
  clear_lru p = record p { inner = lru.clear p.inner; bytes = 0 }
