-- ===== src/Cache/RoundTrip.antt =====
-- What `insert` of `DiskCache` stores is what `try_get` returns (src/cache.rs).
use blobcache.Prelude.{
  ℕ, zero, suc, ◌≤◌, ◌<◌, ◌≡◌, ◌≢◌, refl, List, [], ◌∷◌, ◌++◌, none, some, arith, ℕ_discrete, sym,
  ◌∙◌, Bytes, Option-cases, inl, inr, true, length, ap, dec_lt, List-cases, if_pos,
}
use blobcache.Prelude.Assoc.{get, remove, get-remove_ne, get-remove, get-insert, get-remove_self}
use blobcache.Prelude.Word.{wrapping_add}
use blobcache.Cache.Key.{ChunkKey, key_discrete, name_discrete}
use blobcache.Cache.State.{DiskCache, Entry, Os, Files, read_file, remove_file, publish_bytes}
use blobcache.Cache.Valid.{IsValid}
use blobcache.Cache.Read.{try_get, path_for}
use blobcache.Cache.Write.{
  written, insert_chunk, write_chunk, register, evict_if_needed, track, evict_oldest, evict_loop,
  regular,
}
use blobcache.Cache.Upkeep.{
  evict_oldest-IsValid, evict_loop_fits, evict_loop_empty, evict_loop_next, track-IsValid,
}
use blobcache.Cache.Recency.{Recency, weight, view, view_of, trim_longest, Misses, untracked-Misses}
use blobcache.Cache.Refine.{evict_oldest-lru, weight-view}
use blobcache.Cache.Order.{track-view}
use blobcache.Cache.Insert.{HasRoom, wrote, insert_chunk-trim}

get-view_of-Misses :
    (k : ChunkKey) (lru : List (ℕ × ChunkKey)) (entries : List (ChunkKey × Entry))
    → Misses k lru
    → get key_discrete k (view_of lru entries) ≡ none
unfolding get view_of
get-view_of-Misses k [] entries m = refl
get-view_of-Misses k ((s, j) ∷ lru) entries m = ground (arith, get-view_of-Misses k lru entries m.1)

get-last-ne-none :
    (k : ChunkKey) (n : ℕ) (l : Recency) → get key_discrete k (l ++ (k, n) ∷ []) ≢ none
unfolding get
get-last-ne-none k n [] = ground arith
get-last-ne-none k n (x ∷ l) = ground (arith, get-last-ne-none k n l)

-- The key that was used last is tracked.
pub last_tracked :
    (c : DiskCache) (k : ChunkKey) (n : ℕ) (l : Recency)
    → IsValid c
    → view c ≡ l ++ (k, n) ∷ []
    → (e : Entry) × (get key_discrete k c.entries ≡ some e)
last_tracked c k n l v h = elim (Option-cases (get key_discrete k c.entries)) [
  | inl new ↦ absurd (
      get-last-ne-none k n l (
        ap (get key_discrete k) (sym h)
        ∙ get-view_of-Misses k c.lru c.entries (untracked-Misses v.linked v.sorted k new)))
  | inr found ↦ found
]

get-remove_file_ne :
    (os : Os) (name other : Bytes) (files : Files)
    → other ≢ name
    → get name_discrete name (remove_file os other files) ≡ get name_discrete name files
unfolding remove_file
get-remove_file_ne os name other files h =
    ground (arith, get-remove_ne name_discrete name other files h)

-- No tracked key but `k` has the file name of `k`.
abbrev pub OwnName : (Bytes → Bytes) → ChunkKey → List (ChunkKey × Entry) → Type 0
OwnName sha256 k entries =
    (j : ChunkKey) (e : Entry)
    → get key_discrete j entries ≡ some e
    → j ≢ k
    → path_for sha256 j ≢ path_for sha256 k

module _ (sha256 : Bytes → Bytes) (os : Os) where
  evict_oldest_fields :
      (c : DiskCache) (s : ℕ) (j : ChunkKey) (rest : List (ℕ × ChunkKey))
      → IsValid c
      → c.lru ≡ (s, j) ∷ rest
      → ((x : Entry) × (get key_discrete j c.entries ≡ some x))
        × ((evict_oldest sha256 os s j c).entries ≡ remove key_discrete j c.entries)
        × ((evict_oldest sha256 os s j c).files ≡ remove_file os (path_for sha256 j) c.files)
  unfolding evict_oldest get
  evict_oldest_fields c s j rest v e =
      let first : get ℕ_discrete s c.lru ≡ some j = rw e (ground arith) in
      let (entry, found, same) = v.linked.tracked s j first in
      ((entry, found), rw (found, evict_oldest), rw (found, evict_oldest))

  -- What one round leaves as it is, while another key than `k` is the oldest.
  SparesLast : ChunkKey → ℕ → DiskCache → DiskCache → Type 0
  SparesLast k n c c' =
      ((l : Recency) × (view c' ≡ l ++ (k, n) ∷ []))
      × (n ≤ c'.max_bytes)
      × OwnName sha256 k c'.entries
      × (get name_discrete (path_for sha256 k) c'.files
          ≡ get name_discrete (path_for sha256 k) c.files)

  module _ (c : DiskCache) (s : ℕ) (j : ChunkKey) (rest : List (ℕ × ChunkKey)) (v : IsValid c)
      (e : c.lru ≡ (s, j) ∷ rest) (k : ChunkKey) (n : ℕ) (fits : n ≤ c.max_bytes)
      (own : OwnName sha256 k c.entries) where
    tail_view : (l : Recency) (x : ChunkKey × ℕ) → view c ≡ x ∷ l → view_of rest c.entries ≡ l
    unfolding view_of
    tail_view l x h = ground (arith, ap (λ l. view_of l c.entries) e)

    oldest_other : (l : Recency) → view_of rest c.entries ≡ l ++ (k, n) ∷ [] → j ≢ k
    oldest_other l h q =
        let (held, entries, files) = evict_oldest_fields c s j rest v e in
        let (shorter, same_max, same_seq, seen) = evict_oldest-lru sha256 os c s j rest v e in
        let (x, found) =
          last_tracked (evict_oldest sha256 os s j c) k n l
            (evict_oldest-IsValid sha256 os c s j rest v e) (seen ∙ h) in
        ground (arith, entries, found, get-remove_self key_discrete j c.entries)

    round_SparesLast :
        (l : Recency)
        → c.max_bytes < c.bytes
        → view c ≡ l ++ (k, n) ∷ []
        → SparesLast k n c (evict_oldest sha256 os s j c)
    unfolding SparesLast weight
    round_SparesLast [] over h = absurd (
        omega
          (arith, ap weight h, v.counted, weight-view c.lru c.entries v.linked v.sorted v.distinct))
    round_SparesLast (x ∷ l) over h =
        let (held, entries, files) = evict_oldest_fields c s j rest v e in
        let (shorter, same_max, same_seq, seen) = evict_oldest-lru sha256 os c s j rest v e in
        let others = tail_view (l ++ (k, n) ∷ []) x h in
        let other = oldest_other l others in
        let named : path_for sha256 j ≢ path_for sha256 k = own j held.0 held.1 other in
        (
          (l, seen ∙ others),
          omega arith,
          λ i y found.
              own i y (ground (arith, entries, get-remove key_discrete i j c.entries, found)),
          rw files (get-remove_file_ne os (path_for sha256 k) (path_for sha256 j) c.files named),
        )

  -- The eviction spares the file of the key used last, if that fits by itself.
  keeps_last :
      (fuel : ℕ) (c : DiskCache) (k : ChunkKey) (n : ℕ) (l : Recency)
      → IsValid c
      → view c ≡ l ++ (k, n) ∷ []
      → n ≤ c.max_bytes
      → OwnName sha256 k c.entries
      → get name_discrete (path_for sha256 k) (evict_loop sha256 os fuel c).files
        ≡ get name_discrete (path_for sha256 k) c.files
  unfolding SparesLast
  keeps_last zero c k n l v h fits own = unfold evict_loop in refl
  keeps_last (suc fuel) c k n l v h fits own = elim (List-cases c.lru) [
    | inl e ↦ rw (evict_loop_empty sha256 os (suc fuel) c e)
    | inr ((s, j), rest, e) ↦ elim (dec_lt c.max_bytes c.bytes) [
      | no small ↦ rw (evict_loop_fits sha256 os (suc fuel) c (omega arith))
      | yes over ↦
          let ((l', seen), fits', own', kept) =
            round_SparesLast c s j rest v e k n fits own l over h in
          rw (evict_loop_next sha256 os fuel c s j rest over e) (
            keeps_last fuel (evict_oldest sha256 os s j c) k n l'
              (evict_oldest-IsValid sha256 os c s j rest v e) seen fits' own'
            ∙ kept)
    ]
  ]

track-OwnName :
    (sha256 : Bytes → Bytes) (k : ChunkKey) (n : ℕ) (c : DiskCache)
    → OwnName sha256 k c.entries
    → OwnName sha256 k (track k n c).entries
unfolding track
track-OwnName sha256 k n c own j e found other =
    own j e
      (ground (
        arith,
        get-insert key_discrete j k (record { size = n; last_access_seq = wrapping_add c.seq 1 })
            c.entries,
      ))
      other

-- The file of an inserted chunk is there after the eviction.
insert_chunk-stored :
    (sha256 : Bytes → Bytes) (os : Os) (tmp : Bytes) (c : DiskCache) (k : ChunkKey) (b : Bytes)
    → IsValid c
    → HasRoom c (length b)
    → length b ≤ c.max_bytes
    → OwnName sha256 k c.entries
    → get name_discrete (path_for sha256 k) (insert_chunk sha256 os written tmp k b c).0.files
      ≡ some (regular b)
unfolding insert_chunk write_chunk register evict_if_needed
insert_chunk-stored sha256 os tmp c k b v room fits own =
    let c' = wrote sha256 tmp k b c in
    let entered = publish_bytes (track k (length b) c') in
    keeps_last sha256 os (length entered.lru) entered k (length b) (remove key_discrete k (view c'))
      (track-IsValid c' k (length b) v room.0 room.1) (track-view c' k (length b) v room.0)
      (unfold track in fits) (track-OwnName sha256 k (length b) c' own)
    ∙ (unfold track in
        (get-insert name_discrete (path_for sha256 k) (path_for sha256 k) (regular b)
            (remove name_discrete tmp c.files)
          ∙ if_pos (name_discrete (path_for sha256 k) (path_for sha256 k)) refl _ _))

try_get_stored :
    (sha256 : Bytes → Bytes) (os : Os) (c : DiskCache) (k : ChunkKey) (e : Entry) (b : Bytes)
    → get key_discrete k c.entries ≡ some e
    → get name_discrete (path_for sha256 k) c.files ≡ some (regular b)
    → os.readable (path_for sha256 k) ≡ true
    → (try_get sha256 os k c).1 ≡ some b
unfolding try_get read_file
try_get_stored sha256 os c k e b found stored open_ok = ground arith

-- A chunk that fits the cache, once inserted, is what the next read of its key returns, byte for
-- byte, as long as its file can be opened and no other key of the cache has the name of its file.
pub try_get-insert_chunk :
    (sha256 : Bytes → Bytes) (os os' : Os) (tmp : Bytes) (c : DiskCache) (k : ChunkKey) (b : Bytes)
    → IsValid c
    → HasRoom c (length b)
    → length b ≤ c.max_bytes
    → OwnName sha256 k c.entries
    → os'.readable (path_for sha256 k) ≡ true
    → (try_get sha256 os' k (insert_chunk sha256 os written tmp k b c).0).1 ≡ some b
try_get-insert_chunk sha256 os os' tmp c k b v room fits own open_ok =
    let (done, valid, seen, small, shown) = insert_chunk-trim sha256 os tmp c k b v room in
    let (more, last) =
      trim_longest c.max_bytes (remove key_discrete k (view c)) ((k, length b) ∷ [])
        (unfold weight in omega arith) in
    let (e, found) =
      last_tracked (insert_chunk sha256 os written tmp k b c).0 k (length b) more valid
        (seen ∙ last) in
    try_get_stored sha256 os' (insert_chunk sha256 os written tmp k b c).0 k e b found
      (insert_chunk-stored sha256 os tmp c k b v room fits own) open_ok
