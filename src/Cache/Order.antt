-- ===== src/Cache/Order.antt =====
-- `DiskCache` (src/cache.rs) against the order of use: reads and insertions.
use mathlib.Core.Path.{ap₂}
use blobcache.Prelude.{
  ℕ, ◌+◌, ◌≤◌, ◌<◌, ◌≡◌, refl, List, [], ◌∷◌, ◌++◌, none, some, arith, ℕ_discrete, sym, ◌∙◌, Bytes,
  Option-cases, inl, inr, length, ap,
}
use blobcache.Prelude.Assoc.{
  get, remove, insert, modify, get-remove_self, get-insert, get-modify, remove_absent,
}
use blobcache.Prelude.Sorted.{insert_sorted_of-Below, remove-Below}
use blobcache.Prelude.Word.{wrapping_add, u64_mod}
use blobcache.Cache.Key.{ChunkKey, key_discrete}
use blobcache.Cache.State.{DiskCache, Entry, Os, publish_bytes}
use blobcache.Cache.Valid.{IsValid}
use blobcache.Cache.Read.{touch_entry}
use blobcache.Cache.Write.{track, register, evict_if_needed, drop_entry}
use blobcache.Cache.Upkeep.{track-IsValid, track-drop_entry, drop_entry-IsValid, register-IsValid}
use blobcache.Cache.Recency.{
  Recency, weight, trim, used, without, view_of, view, size_of, Misses, untracked-Misses,
  tracked_place, view_of-remove, without-view_of-Misses, view_of-remove_place, weight-trim-le,
}
use blobcache.Cache.Refine.{evict_loop-trim, weight-view}

view_of-append :
    (l m : List (ℕ × ChunkKey)) (entries : List (ChunkKey × Entry))
    → view_of (l ++ m) entries ≡ view_of l entries ++ view_of m entries
unfolding view_of
view_of-append [] m entries = refl
view_of-append ((s, k) ∷ l) m entries = ap (◌∷◌ (k, size_of k entries)) (view_of-append l m entries)

-- The view sees of the entries only their sizes.
view_of-cong :
    (l : List (ℕ × ChunkKey)) (m m' : List (ChunkKey × Entry))
    → ((k : ChunkKey) → size_of k m ≡ size_of k m')
    → view_of l m ≡ view_of l m'
unfolding view_of
view_of-cong [] m m' h = refl
view_of-cong ((s, k) ∷ l) m m' h = ap₂ (λ n r. (k, n) ∷ r) (h k) (view_of-cong l m m' h)

view_of-insert :
    (l : List (ℕ × ChunkKey)) (k : ChunkKey) (e : Entry) (m : List (ChunkKey × Entry))
    → Misses k l
    → view_of l (insert key_discrete k e m) ≡ view_of l m
unfolding view_of size_of
view_of-insert [] k e m h = refl
view_of-insert ((s, j) ∷ l) k e m h =
    ground (arith, view_of-insert l k e m h.1, get-insert key_discrete j k e m)

track_new-view :
    (c : DiskCache) (k : ChunkKey) (n : ℕ)
    → IsValid c
    → c.seq + 1 < u64_mod
    → get key_discrete k c.entries ≡ none
    → view (track k n c) ≡ used k n (view c)
unfolding track
track_new-view c k n v room new =
    let s = c.seq + 1 in
    let next : wrapping_add c.seq 1 ≡ s = omega arith in
    let e : Entry = record { size = n; last_access_seq = s } in
    let misses = untracked-Misses v.linked v.sorted k new in
    let last : size_of k (insert key_discrete k e c.entries) ≡ n =
      unfold size_of in (ground (arith, get-insert key_discrete k k e c.entries)) in
    rw (next, new, insert_sorted_of-Below s k c.lru v.fresh, view_of-append)
      (ap₂ (λ l r. l ++ r)
        (view_of-insert c.lru k e c.entries misses
          ∙ sym (without-view_of-Misses k c.lru c.entries misses))
        (unfold view_of in (ap (λ x. (k, x) ∷ []) last)))

-- A dropped key leaves the view.
pub drop_entry-view :
    (c : DiskCache) (k : ChunkKey) (e : Entry)
    → IsValid c
    → get key_discrete k c.entries ≡ some e
    → view (drop_entry k e c) ≡ without k (view c)
unfolding drop_entry
drop_entry-view c k e v found =
    let d = drop_entry-IsValid c k e v found in
    let gone = get-remove_self key_discrete k c.entries in
    view_of-remove k _ c.entries (untracked-Misses d.linked d.sorted k gone)
    ∙ view_of-remove_place k e.last_access_seq c.lru c.entries
        (tracked_place v.linked v.sorted k e found)

size_of-modify :
    (c : DiskCache) (k : ChunkKey) (s : ℕ) (j : ChunkKey)
    → size_of j (modify key_discrete k (λ x. record x { last_access_seq = s }) c.entries)
      ≡ size_of j c.entries
unfolding size_of
size_of-modify c k s j =
    ground (arith, get-modify key_discrete j k (λ x. record x { last_access_seq = s }) c.entries)

without-without : (k : ChunkKey) (l : Recency) → without k (without k l) ≡ without k l
without-without k l = remove_absent key_discrete k (without k l) (get-remove_self key_discrete k l)

pub track-view :
    (c : DiskCache) (k : ChunkKey) (n : ℕ)
    → IsValid c
    → c.seq + 1 < u64_mod
    → view (track k n c) ≡ used k n (view c)
track-view c k n v room = elim (Option-cases (get key_discrete k c.entries)) [
  | inl new ↦ track_new-view c k n v room new
  | inr (e, found) ↦
      let dropped = drop_entry-view c k e v found in
      rw (← track-drop_entry c k n e found) (
        track_new-view (drop_entry k e c) k n (drop_entry-IsValid c k e v found)
          (unfold drop_entry in room)
          (unfold drop_entry in get-remove_self key_discrete k c.entries)
        ∙ ap (λ l. without k l ++ (k, n) ∷ []) dropped
        ∙ ap (λ l. l ++ (k, n) ∷ []) (without-without k (view c)))
]

-- A read puts its key at the end of the order of use, with its size.
pub touch_entry-view :
    (c : DiskCache) (k : ChunkKey) (e : Entry)
    → IsValid c
    → c.seq + 1 < u64_mod
    → get key_discrete k c.entries ≡ some e
    → view (touch_entry k e c) ≡ used k e.size (view c)
unfolding touch_entry
touch_entry-view c k e v room found =
    let s = c.seq + 1 in
    let next : wrapping_add c.seq 1 ≡ s = omega arith in
    let kept = remove ℕ_discrete e.last_access_seq c.lru in
    let below = remove-Below s e.last_access_seq c.lru v.fresh in
    rw (next, insert_sorted_of-Below s k kept below, view_of-append)
      (ap₂ (λ l r. l ++ r)
        (view_of-cong kept _ c.entries (size_of-modify c k s)
          ∙ view_of-remove_place k e.last_access_seq c.lru c.entries
              (tracked_place v.linked v.sorted k e found))
        (unfold view_of in (ap (λ x. (k, x) ∷ []) (size_of-modify c k s k ∙ rw (found, size_of)))))

-- What an insertion leaves under the lock: the new key is the last used, and the oldest go until
-- the sizes fit.
pub register-view :
    (sha256 : Bytes → Bytes) (os : Os) (c : DiskCache) (k : ChunkKey) (n : ℕ)
    → IsValid c
    → c.seq + 1 < u64_mod
    → c.bytes + n < u64_mod
    → view (register sha256 os k n c) ≡ trim c.max_bytes (used k n (view c))
register-view sha256 os c k n v room fits =
    unfold register evict_if_needed in
    (evict_loop-trim sha256 os (length (track k n c).lru) (publish_bytes (track k n c))
        (track-IsValid c k n v room fits) (omega arith)
      ∙ ap₂ trim (unfold track in refl) (track-view c k n v room))

pub register-le :
    (sha256 : Bytes → Bytes) (os : Os) (c : DiskCache) (k : ChunkKey) (n : ℕ)
    → IsValid c
    → c.seq + 1 < u64_mod
    → c.bytes + n < u64_mod
    → (register sha256 os k n c).bytes ≤ c.max_bytes
register-le sha256 os c k n v room fits =
    let after = register-IsValid sha256 os c k n v room fits in
    omega (
      arith,
      after.counted,
      weight-view _ _ after.linked after.sorted after.distinct,
      ap weight (register-view sha256 os c k n v room fits),
      weight-trim-le c.max_bytes (used k n (view c)),
    )
