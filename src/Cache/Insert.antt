-- ===== src/Cache/Insert.antt =====
-- `insert`, `try_get` and `try_get_range` of `DiskCache` (src/cache.rs), each as a whole.
use blobcache.Prelude.{
  ℕ, ◌+◌, ◌≤◌, ◌<◌, ◌≡◌, ◌≢◌, refl, [], none, some, arith, Bytes, ◌⊎◌, Option-cases, inl, inr, take,
  drop, length,
}
use blobcache.Prelude.Assoc.{get, remove, insert, get-insert}
use blobcache.Prelude.Word.{u64_mod}
use blobcache.Prelude.Result.{BcError, ok, err}
use blobcache.Cache.Key.{ChunkKey, key_discrete, name_discrete}
use blobcache.Cache.State.{DiskCache, Entry, Os, read_file, count_miss, count_hit}
use blobcache.Cache.Valid.{IsValid}
use blobcache.Cache.Read.{touch_entry, try_get, try_get_range, read_exact_at, path_for}
use blobcache.Cache.Write.{
  WriteOutcome, create_fails, write_fails, written, regular, insert_chunk, write_chunk, register,
  evict_if_needed,
}
use blobcache.Cache.Upkeep.{register-IsValid, touch_entry-IsValid}
use blobcache.Cache.Recency.{trim, used, view}
use blobcache.Cache.Order.{register-view, register-le, touch_entry-view}

-- The counters have room for one more access and for `n` more bytes.
abbrev pub HasRoom : DiskCache → ℕ → Type 0
HasRoom c n = (c.seq + 1 < u64_mod) × (c.bytes + n < u64_mod)

-- The state of `insert` when it takes the lock: the file stands under the name of its key.
abbrev pub wrote : (Bytes → Bytes) → Bytes → ChunkKey → Bytes → DiskCache → DiskCache
wrote sha256 tmp k b c = record c {
  files = insert name_discrete (path_for sha256 k) (regular b) (remove name_discrete tmp c.files);
}

-- An insertion whose file operations succeed answers `Ok`, keeps the bookkeeping, and leaves what
-- the specification leaves: the key last, the oldest gone until the sizes fit, the limit kept, and
-- the published number of bytes right.
pub insert_chunk-trim :
    (sha256 : Bytes → Bytes) (os : Os) (tmp : Bytes) (c : DiskCache) (k : ChunkKey) (b : Bytes)
    → IsValid c
    → HasRoom c (length b)
    → let (c', r) = insert_chunk sha256 os written tmp k b c in
      (r ≡ ok tt)
      × IsValid c'
      × (view c' ≡ trim c.max_bytes (used k (length b) (view c)))
      × (c'.bytes ≤ c.max_bytes)
      × (c'.stats.bytes_in_use ≡ c'.bytes)
unfolding insert_chunk write_chunk
insert_chunk-trim sha256 os tmp c k b v room =
    let c' : DiskCache = wrote sha256 tmp k b c in
    (
      refl,
      register-IsValid sha256 os c' k (length b) v room.0 room.1,
      register-view sha256 os c' k (length b) v room.0 room.1,
      register-le sha256 os c' k (length b) v room.0 room.1,
      unfold register evict_if_needed in refl,
    )

-- An insertion of which a file operation fails answers an error and changes neither the maps, nor
-- the counters, nor a file but the temporary one.
pub insert_chunk_fails :
    (sha256 : Bytes → Bytes) (os : Os) (outcome : WriteOutcome) (tmp name : Bytes) (c : DiskCache)
    (k : ChunkKey) (b : Bytes)
    → outcome ≢ written
    → tmp ≢ name
    → let (c', r) = insert_chunk sha256 os outcome tmp k b c in
      ((e : BcError) × (r ≡ err e))
      × (c'.entries ≡ c.entries)
      × (c'.lru ≡ c.lru)
      × (c'.bytes ≡ c.bytes)
      × (c'.seq ≡ c.seq)
      × (c'.stats ≡ c.stats)
      × (get name_discrete name c'.files ≡ get name_discrete name c.files)
unfolding insert_chunk write_chunk
insert_chunk_fails sha256 os create_fails tmp name c k b h h' =
    ((BcError.io [], refl), refl, refl, refl, refl, refl, refl)
insert_chunk_fails sha256 os (write_fails n) tmp name c k b h h' = (
  (BcError.io [], refl),
  refl,
  refl,
  refl,
  refl,
  refl,
  ground (arith, get-insert name_discrete name tmp (regular (take n b)) c.files),
)
insert_chunk_fails sha256 os written tmp name c k b h h' = absurd (h refl)
insert_chunk_fails sha256 os _ tmp name c k b h h' = (
  (BcError.io [], refl),
  refl,
  refl,
  refl,
  refl,
  refl,
  ground (arith, get-insert name_discrete name tmp (regular b) c.files),
)

-- What a read that finds its key leaves behind.
abbrev pub hit_state : ChunkKey → Entry → DiskCache → DiskCache
hit_state k e c = count_hit (touch_entry k e c)

-- The two answers of a read: the file of a tracked key, which becomes the last used, or a counted
-- miss.
abbrev pub Answers : (Bytes → Bytes) → Os → ChunkKey → DiskCache → Type 0
Answers sha256 os k c =
    ((e : Entry) × (b : Bytes) × (get key_discrete k c.entries ≡ some e)
      × (read_file os (path_for sha256 k) c.files ≡ some b)
      × (try_get sha256 os k c ≡ (hit_state k e c, some b))
      × IsValid (hit_state k e c)
      × (view (hit_state k e c) ≡ used k e.size (view c)))
    ⊎ (((get key_discrete k c.entries ≡ none) ⊎ (read_file os (path_for sha256 k) c.files ≡ none))
        × (try_get sha256 os k c ≡ (count_miss c, none)))

-- On a consistent cache a read answers the whole file of a tracked key, counts a hit, makes the
-- key the last used and keeps the bookkeeping; where the key is not tracked or its file cannot be
-- read it misses, counts that, and changes nothing else.
pub try_get_cases :
    (sha256 : Bytes → Bytes) (os : Os) (k : ChunkKey) (c : DiskCache)
    → IsValid c
    → c.seq + 1 < u64_mod
    → Answers sha256 os k c
unfolding try_get
try_get_cases sha256 os k c v room = elim (Option-cases (get key_discrete k c.entries)) [
  | inl missing ↦ inr (inl missing, ground arith)
  | inr (e, found) ↦ elim (Option-cases (read_file os (path_for sha256 k) c.files)) [
    | inl gone ↦ inr (inr gone, ground arith)
    | inr (b, data_read) ↦ inl (
      e,
      b,
      found,
      data_read,
      ground arith,
      touch_entry-IsValid c k e v found room,
      touch_entry-view c k e v room found,
    )
  ]
]

-- A ranged read that returns bytes returns the slice of what the whole read returns, or nothing
-- was asked for.
pub try_get_range-try_get :
    (sha256 : Bytes → Bytes) (os : Os) (k : ChunkKey) (start n : ℕ) (c : DiskCache) (b : Bytes)
    → n ≢ 0
    → (try_get_range sha256 os k start n c).1 ≡ some b
    → (full : Bytes) × ((try_get sha256 os k c).1 ≡ some full)
      × (b ≡ take n (drop start full))
      × (start + n ≤ length full)
unfolding try_get_range try_get read_exact_at
try_get_range-try_get sha256 os k start n c b h e =
    elim (Option-cases (get key_discrete k c.entries)) [
      | inl missing ↦ absurd (ground arith)
      | inr (x, found) ↦ elim (Option-cases (read_file os (path_for sha256 k) c.files)) [
        | inl gone ↦ absurd (ground arith)
        | inr (full, data_read) ↦ (full, ground arith, ground arith, ground arith)
      ]
    ]
