-- ===== src/Cache/Passes.antt =====
-- The passes over all entries of `DiskCache` (src/cache.rs): what they drop, and that they keep the
-- bookkeeping.
use blobcache.Prelude.{
  ℕ, ◌≤◌, ◌≡◌, refl, List, [], ◌∷◌, map, some, arith, sym, ◌∙◌, Bytes, Option-cases, inl, inr, Bool,
  true, false, ap, List-cases, subst,
}
use blobcache.Prelude.Assoc.{
  get, remove, remove_all, remove_all_keys, remove_absent, get-remove, get-remove_all-none,
}
use blobcache.Prelude.Result.{ok}
use blobcache.Prelude.Assoc.{total}
use blobcache.Cache.Key.{ChunkKey, key_discrete}
use blobcache.Cache.State.{DiskCache, Entry, Os, Files, exists}
use blobcache.Cache.Read.{path_for, live_keys}
use blobcache.Cache.Write.{drop_entry}
use blobcache.Cache.Sweep.{
  Tally, find_missing, drop_one, drop_all, drop_missing, clear_one, clear_each, clear_tracked,
  reconcile_with_disk, open_cache, opened,
}
use blobcache.Cache.Valid.{IsValid, Consistent}
use blobcache.Cache.Upkeep.{drop_entry-IsValid}

-- A round of the second loop of `reconcile_with_disk`.
drop_one_lem :
    (k : ChunkKey) (s : DiskCache × Tally)
    → IsValid s.0
    → IsValid (drop_one k s).0
      × ((drop_one k s).0.entries ≡ remove key_discrete k s.0.entries)
      × ((drop_one k s).0.files ≡ s.0.files)
      × ((drop_one k s).0.max_bytes ≡ s.0.max_bytes)
      × ((drop_one k s).0.bytes ≤ s.0.bytes)
unfolding drop_one drop_entry
drop_one_lem k (c, tally) v = elim (Option-cases (get key_discrete k c.entries)) [
  | inl new ↦
      rw (new, drop_one)
        (v, sym (remove_absent key_discrete k c.entries new), refl, refl, omega arith)
  | inr (e, found) ↦
      rw (found, drop_one) (drop_entry-IsValid c k e v found, refl, refl, refl, omega arith)
]

drop_all_lem :
    (ks : List ChunkKey) (s : DiskCache × Tally)
    → IsValid s.0
    → IsValid (drop_all ks s).0
      × ((drop_all ks s).0.entries ≡ remove_all key_discrete ks s.0.entries)
      × ((drop_all ks s).0.files ≡ s.0.files)
      × ((drop_all ks s).0.max_bytes ≡ s.0.max_bytes)
      × ((drop_all ks s).0.bytes ≤ s.0.bytes)
unfolding drop_all remove_all
drop_all_lem [] s v = (v, refl, refl, refl, omega arith)
drop_all_lem (k ∷ ks) s v =
    let (v', entries, files, cap, less) = drop_one_lem k s v in
    let (v'', entries', files', cap', less') = drop_all_lem ks (drop_one k s) v' in
    (
      v'',
      entries' ∙ ap (remove_all key_discrete ks) entries,
      files' ∙ files,
      cap' ∙ cap,
      omega arith,
    )

pub drop_missing_lem :
    (ks : List ChunkKey) (c : DiskCache)
    → IsValid c
    → IsValid (drop_missing ks c).0
      × ((drop_missing ks c).0.entries ≡ remove_all key_discrete ks c.entries)
      × ((drop_missing ks c).0.files ≡ c.files)
      × ((drop_missing ks c).0.max_bytes ≡ c.max_bytes)
      × ((drop_missing ks c).0.bytes ≤ c.bytes)
      × ((drop_missing ks c).0.stats.bytes_in_use ≡ (drop_missing ks c).0.bytes)
unfolding drop_missing
drop_missing_lem ks c v =
    let (v', entries, files, cap, less) = drop_all_lem ks (c, (0, 0)) v in
    (v', entries, files, cap, less, refl)

module _ (sha256 : Bytes → Bytes) (files : Files) (k : ChunkKey) where
  -- A key that is still there after the missing keys were removed has its file.
  kept-exists :
      (m m' : List (ChunkKey × Entry)) (e e' : Entry)
      → get key_discrete k m ≡ some e
      → get key_discrete k
          (remove_all key_discrete (find_missing sha256 files (map (λ x. x.0) m)) m')
        ≡ some e'
      → exists (path_for sha256 k) files ≡ true
  unfolding get find_missing remove_all
  kept-exists [] m' e e' h h' = cc
  kept-exists ((j, x) ∷ m) m' e e' h h' =
      let ks = find_missing sha256 files (map (λ x. x.0) m) in
      ground (
        arith,
        kept-exists m m' e e',
        kept-exists m (remove key_discrete j m') e e',
        get-remove_all-none key_discrete ks k (remove key_discrete j m'),
        get-remove key_discrete k j m',
      )

  -- A key whose file exists stays.
  exists-kept :
      (ks : List ChunkKey) (m : List (ChunkKey × Entry))
      → exists (path_for sha256 k) files ≡ true
      → get key_discrete k (remove_all key_discrete (find_missing sha256 files ks) m)
        ≡ get key_discrete k m
  unfolding find_missing remove_all
  exists-kept [] m h = refl
  exists-kept (j ∷ ks) m h = ground (
    arith,
    exists-kept ks m h,
    exists-kept ks (remove key_discrete j m) h,
    get-remove key_discrete k j m,
  )

module _ (sha256 : Bytes → Bytes) (c : DiskCache) (v : IsValid c) where
  reconciled_lem :
      IsValid (reconcile_with_disk sha256 c).0
      × ((reconcile_with_disk sha256 c).0.entries
          ≡ remove_all key_discrete (find_missing sha256 c.files (live_keys c)) c.entries)
      × ((reconcile_with_disk sha256 c).0.files ≡ c.files)
  unfolding reconcile_with_disk remove_all
  reconciled_lem = elim (List-cases (find_missing sha256 c.files (live_keys c))) [
    | inl e ↦ rw (e, reconcile_with_disk) (v, refl, refl)
    | inr (k, ks, e) ↦
        let (v', entries, files, cap, less, shown) = drop_missing_lem (k ∷ ks) c v in
        rw (e, reconcile_with_disk) (v', entries, files)
  ]

  -- After `reconcile_with_disk` the bookkeeping holds and every tracked key has a file; a key whose
  -- file was there is tracked as before.
  pub reconcile_with_disk-exists :
      (k : ChunkKey)
      → let c' = (reconcile_with_disk sha256 c).0 in
        IsValid c'
        × ((e : Entry)
            → get key_discrete k c'.entries ≡ some e
            → exists (path_for sha256 k) c'.files ≡ true)
        × (exists (path_for sha256 k) c.files ≡ true
            → get key_discrete k c'.entries ≡ get key_discrete k c.entries)
  unfolding live_keys
  reconcile_with_disk-exists k =
      let (valid, entries, files) = reconciled_lem in
      (
        valid,
        λ e found. rw files (tracked-exists e (ap (get key_discrete k) (sym entries) ∙ found)),
        λ h.
            ap (get key_discrete k) entries
            ∙ exists-kept sha256 c.files k (live_keys c) c.entries h,
      )
    where
      tracked-exists :
          (e : Entry)
          → get key_discrete k
              (remove_all key_discrete (find_missing sha256 c.files (live_keys c)) c.entries)
            ≡ some e
          → exists (path_for sha256 k) c.files ≡ true
      tracked-exists e found = elim (Option-cases (get key_discrete k c.entries)) [
        | inl new ↦ ground (
          arith,
          get-remove_all-none key_discrete (find_missing sha256 c.files (live_keys c)) k c.entries,
        )
        | inr (x, held) ↦ kept-exists sha256 c.files k c.entries c.entries x e held found
      ]

clear_one_lem :
    (sha256 : Bytes → Bytes) (os : Os) (k : ChunkKey) (s : DiskCache × Tally)
    → ((clear_one sha256 os k s).0.entries ≡ remove key_discrete k s.0.entries)
      × ((clear_one sha256 os k s).0.max_bytes ≡ s.0.max_bytes)
unfolding clear_one
clear_one_lem sha256 os k (c, tally) = elim (Option-cases (get key_discrete k c.entries)) [
  | inl new ↦ rw (new, clear_one) (sym (remove_absent key_discrete k c.entries new), refl)
  | inr (e, found) ↦ rw (found, clear_one) (refl, refl)
]

-- The loop of `clear_all` empties `entries`.
clear_each-entries :
    (sha256 : Bytes → Bytes) (os : Os) (ks : List ChunkKey) (s : DiskCache × Tally)
    → ((clear_each sha256 os ks s).0.entries ≡ remove_all key_discrete ks s.0.entries)
      × ((clear_each sha256 os ks s).0.max_bytes ≡ s.0.max_bytes)
unfolding clear_each remove_all
clear_each-entries sha256 os [] s = (refl, refl)
clear_each-entries sha256 os (k ∷ ks) s =
    let (entries, cap) = clear_one_lem sha256 os k s in
    let (entries', cap') = clear_each-entries sha256 os ks (clear_one sha256 os k s) in
    (entries' ∙ ap (remove_all key_discrete ks) entries, cap' ∙ cap)

empty_maps : (seq : ℕ) → Consistent [] [] seq 0
unfolding get total
empty_maps seq = record {
  distinct = tt;
  sorted = tt;
  fresh = tt;
  linked = record { placed = λ k e h. cc; tracked = λ s k h. cc };
  counted = refl;
}

-- The locked part of `clear_all` leaves nothing tracked and no byte counted.
pub clear_tracked_lem :
    (sha256 : Bytes → Bytes) (os : Os) (c : DiskCache)
    → let c' = (clear_tracked sha256 os c).0 in
      (c'.entries ≡ [])
      × IsValid c'
      × (c'.bytes ≡ 0)
      × (c'.stats.bytes_in_use ≡ 0)
      × (c'.max_bytes ≡ c.max_bytes)
unfolding clear_tracked live_keys
clear_tracked_lem sha256 os c =
    let (entries, cap) = clear_each-entries sha256 os (live_keys c) (c, (0, 0)) in
    let none_left = entries ∙ remove_all_keys key_discrete c.entries in
    (none_left, rw none_left (empty_maps _), refl, refl, cap)

-- `open` starts with a consistent and empty cache.
pub open_cache-IsValid :
    (os : Os) (create_ok list_ok : Bool) (max_bytes : ℕ) (files : Files) {c : DiskCache}
    → open_cache os create_ok list_ok max_bytes files ≡ ok c
    → IsValid c × (c.bytes ≡ 0) × (c.stats.bytes_in_use ≡ 0)
unfolding open_cache
open_cache-IsValid os true true max_bytes files {c} e =
    let same : opened os max_bytes files ≡ c = cc in
    subst (λ x. IsValid x × (x.bytes ≡ 0) × (x.stats.bytes_in_use ≡ 0)) same
      (empty_maps 0, refl, refl)
open_cache-IsValid os true false max_bytes files e = cc
open_cache-IsValid os false list_ok max_bytes files e = cc
