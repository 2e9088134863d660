-- ===== src/Cache/Upkeep.antt =====
-- Every critical section of `DiskCache` keeps its bookkeeping (src/cache.rs).
use blobcache.Prelude.{
  ℕ, zero, suc, ◌+◌, ◌≤◌, ◌<◌, ◌≡◌, refl, List, [], ◌∷◌, none, some, arith, ℕ_discrete, sym, ◌∙◌,
  Bytes, Option-cases, inl, inr, length, dec_lt, List-cases,
}
use blobcache.Prelude.Assoc.{
  get, remove, insert, get-remove_self, remove-Distinct, insert-Distinct, modify-Distinct,
  total-remove, total-modify, total-insert_new, remove_absent,
}
use blobcache.Prelude.Sorted.{
  get-Below, Below-mono, remove-Below, remove-IsSorted, insert_sorted-IsSorted, insert_sorted-Below,
}
use blobcache.Prelude.Word.{wrapping_add, u64_mod}
use blobcache.Cache.Key.{ChunkKey, key_discrete}
use blobcache.Cache.State.{DiskCache, Entry, Os}
use blobcache.Cache.Read.{touch_entry, touch_lru}
use blobcache.Cache.Write.{
  drop_entry, evict_oldest, evict_loop, evict_if_needed, track, register, forget,
}
use blobcache.Cache.Valid.{IsValid, remove-Linked, touch-Linked, insert-Linked}

-- An entry that leaves both maps takes its size along.
pub drop_entry-IsValid :
    (c : DiskCache) (k : ChunkKey) (e : Entry)
    → IsValid c
    → get key_discrete k c.entries ≡ some e
    → IsValid (drop_entry k e c)
unfolding drop_entry
drop_entry-IsValid c k e v found = record {
  distinct = remove-Distinct key_discrete k c.entries v.distinct;
  sorted = remove-IsSorted e.last_access_seq c.lru v.sorted;
  fresh = remove-Below (c.seq + 1) e.last_access_seq c.lru v.fresh;
  linked = remove-Linked v.linked k e found;
  counted =
      omega
        (arith, v.counted, total-remove key_discrete (λ x. x.size) k e c.entries v.distinct found);
}

pub touch_entry-IsValid :
    (c : DiskCache) (k : ChunkKey) (e : Entry)
    → IsValid c
    → get key_discrete k c.entries ≡ some e
    → c.seq + 1 < u64_mod
    → IsValid (touch_entry k e c)
unfolding touch_entry
touch_entry-IsValid c k e v found room =
    let s = c.seq + 1 in
    let next : wrapping_add c.seq 1 ≡ s = omega arith in
    let kept = remove ℕ_discrete e.last_access_seq c.lru in
    let below = remove-Below s e.last_access_seq c.lru v.fresh in
    rw next (record {
      distinct =
          modify-Distinct key_discrete k (λ x. record x { last_access_seq = s }) c.entries
            v.distinct;
      sorted = insert_sorted-IsSorted s k kept (remove-IsSorted e.last_access_seq c.lru v.sorted);
      fresh =
          insert_sorted-Below (s + 1) s k kept (omega arith)
            (Below-mono s (s + 1) kept (omega arith) below);
      linked = touch-Linked v.linked k e s found (get-Below s c.lru v.fresh);
      counted =
          v.counted
          ∙ sym (
              total-modify key_discrete (λ x. x.size) k (λ x. record x { last_access_seq = s })
                c.entries (λ x. refl));
    })

-- A read that finds its key moves it to the end of the order; one that does not changes no map.
pub touch_lru-IsValid :
    (c : DiskCache) (k : ChunkKey) → IsValid c → c.seq + 1 < u64_mod → IsValid (touch_lru k c).0
unfolding touch_lru
touch_lru-IsValid c k v room = elim (Option-cases (get key_discrete k c.entries)) [
  | inl missing ↦ rw (missing, touch_lru) v
  | inr (e, found) ↦ rw (found, touch_lru) (touch_entry-IsValid c k e v found room)
]

module _ (sha256 : Bytes → Bytes) (os : Os) where
  -- The first of the order is a tracked key, and its round of the loop is a `drop_entry`.
  pub evict_oldest-IsValid :
      (c : DiskCache) (s : ℕ) (k : ChunkKey) (rest : List (ℕ × ChunkKey))
      → IsValid c
      → c.lru ≡ (s, k) ∷ rest
      → IsValid (evict_oldest sha256 os s k c)
  unfolding evict_oldest get drop_entry
  evict_oldest-IsValid c s k rest v e =
      let first : get ℕ_discrete s c.lru ≡ some k = rw e (ground arith) in
      let (entry, found, same) = v.linked.tracked s k first in
      rw (found, evict_oldest) (rw (← same) (drop_entry-IsValid c k entry v found))

  -- The three ways of a round: the loop ends by its test, for want of entries, or goes on.
  pub evict_loop_fits :
      (fuel : ℕ) (c : DiskCache) → c.bytes ≤ c.max_bytes → evict_loop sha256 os fuel c ≡ c
  unfolding evict_loop
  evict_loop_fits zero c h = refl
  evict_loop_fits (suc fuel) c h = ground arith

  pub evict_loop_empty : (fuel : ℕ) (c : DiskCache) → c.lru ≡ [] → evict_loop sha256 os fuel c ≡ c
  unfolding evict_loop
  evict_loop_empty zero c h = refl
  evict_loop_empty (suc fuel) c h = ground arith

  pub evict_loop_next :
      (fuel : ℕ) (c : DiskCache) (s : ℕ) (k : ChunkKey) (rest : List (ℕ × ChunkKey))
      → c.max_bytes < c.bytes
      → c.lru ≡ (s, k) ∷ rest
      → evict_loop sha256 os (suc fuel) c ≡ evict_loop sha256 os fuel (evict_oldest sha256 os s k c)
  unfolding evict_loop
  evict_loop_next fuel c s k rest h e = ground arith

  pub evict_loop-IsValid :
      (fuel : ℕ) (c : DiskCache) → IsValid c → IsValid (evict_loop sha256 os fuel c)
  evict_loop-IsValid zero c v = unfold evict_loop in v
  evict_loop-IsValid (suc fuel) c v = elim (dec_lt c.max_bytes c.bytes) [
    | no fits ↦ rw (evict_loop_fits (suc fuel) c (omega arith)) v
    | yes over ↦ elim (List-cases c.lru) [
      | inl empty ↦ rw (evict_loop_empty (suc fuel) c empty) v
      | inr ((s, k), rest, e) ↦ rw (evict_loop_next fuel c s k rest over e) (
          evict_loop-IsValid fuel (evict_oldest sha256 os s k c)
            (evict_oldest-IsValid c s k rest v e))
    ]
  ]

  -- The state that `insert` hands to the eviction.
  pub evict_if_needed-IsValid : (c : DiskCache) → IsValid c → IsValid (evict_if_needed sha256 os c)
  unfolding evict_if_needed
  evict_if_needed-IsValid c v = evict_loop-IsValid (length c.lru) c v

-- Inserting over a tracked key is dropping it and inserting a new one.
pub track-drop_entry :
    (c : DiskCache) (k : ChunkKey) (n : ℕ) (e : Entry)
    → get key_discrete k c.entries ≡ some e
    → track k n (drop_entry k e c) ≡ track k n c
unfolding track drop_entry insert
track-drop_entry c k n e found =
    let gone = get-remove_self key_discrete k c.entries in
    rw (found, gone, remove_absent key_discrete k (remove key_discrete k c.entries) gone)

track_new-IsValid :
    (c : DiskCache) (k : ChunkKey) (n : ℕ)
    → IsValid c
    → c.seq + 1 < u64_mod
    → c.bytes + n < u64_mod
    → get key_discrete k c.entries ≡ none
    → IsValid (track k n c)
unfolding track
track_new-IsValid c k n v room fits new =
    let s = c.seq + 1 in
    let next : wrapping_add c.seq 1 ≡ s = omega arith in
    let grown : wrapping_add c.bytes n ≡ c.bytes + n = omega arith in
    let e : Entry = record { size = n; last_access_seq = s } in
    rw (next, new, grown)
      (record {
        distinct = insert-Distinct key_discrete k e c.entries v.distinct;
        sorted = insert_sorted-IsSorted s k c.lru v.sorted;
        fresh =
            insert_sorted-Below (s + 1) s k c.lru (omega arith)
              (Below-mono s (s + 1) c.lru (omega arith) v.fresh);
        linked = insert-Linked v.linked k e new (get-Below s c.lru v.fresh);
        counted =
            omega (arith, v.counted, total-insert_new key_discrete (λ x. x.size) k e c.entries new);
      })

-- Room in the two counters is all that an insertion asks for.
pub track-IsValid :
    (c : DiskCache) (k : ChunkKey) (n : ℕ)
    → IsValid c
    → c.seq + 1 < u64_mod
    → c.bytes + n < u64_mod
    → IsValid (track k n c)
track-IsValid c k n v room fits = elim (Option-cases (get key_discrete k c.entries)) [
  | inl new ↦ track_new-IsValid c k n v room fits new
  | inr (e, found) ↦ rw (← track-drop_entry c k n e found) (
      track_new-IsValid (drop_entry k e c) k n (drop_entry-IsValid c k e v found)
        (unfold drop_entry in room) (unfold drop_entry in (omega arith))
        (unfold drop_entry in get-remove_self key_discrete k c.entries))
]

pub register-IsValid :
    (sha256 : Bytes → Bytes) (os : Os) (c : DiskCache) (k : ChunkKey) (n : ℕ)
    → IsValid c
    → c.seq + 1 < u64_mod
    → c.bytes + n < u64_mod
    → IsValid (register sha256 os k n c)
register-IsValid sha256 os c k n v room fits =
    unfold register in evict_if_needed-IsValid sha256 os _ (track-IsValid c k n v room fits)

pub forget-IsValid : (c : DiskCache) (k : ChunkKey) → IsValid c → IsValid (forget k c)
unfolding forget
forget-IsValid c k v = elim (Option-cases (get key_discrete k c.entries)) [
  | inl missing ↦ rw (missing, forget) v
  | inr (e, found) ↦ rw (found, forget) (drop_entry-IsValid c k e v found)
]
