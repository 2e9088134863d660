-- ===== src/Cache/Sweep.antt =====
-- The passes of `DiskCache` over all entries or files (src/cache.rs): `open` with `scan_existing`,
-- `reconcile_with_disk` and `clear_all`.
use blobcache.Prelude.{
  ℕ, List, [], ◌∷◌, map, Bool, Bytes, none, some, if◌then◌else◌, ℕ_discrete, ◌&&◌,
}
use blobcache.Prelude.Assoc.{get, remove}
use blobcache.Prelude.Word.{wrapping_add, saturating_add}
use blobcache.Prelude.Result.{BcError, Result, ok, err}
use blobcache.Cache.Key.{ChunkKey, key_discrete, name_discrete}
use blobcache.Cache.Read.{path_for, live_keys}
use blobcache.Cache.State.{DiskCache, CacheStats, Os, Files, exists, remove_file, removes}
use blobcache.Cache.Write.{drop_entry}

-- The loops over `read_dir`: an entry whose metadata or name cannot be read is passed over, and so
-- is what is no file.
unfoldable pub sweep_file : Os → Bytes → Files → Files
sweep_file os name files = elim (get name_discrete name files) [
  | none ↦ files
  | some node ↦ if os.readable name && node.is_file then remove_file os name files else files
]

unfoldable pub sweep_files : Os → List Bytes → Files → Files
unfolding sweep_file
sweep_files os [] files = files
sweep_files os (name ∷ names) files = sweep_files os names (sweep_file os name files)

abbrev names_of : Files → List Bytes
names_of files = map (λ f. f.0) files

abbrev zero_stats : CacheStats
zero_stats = record {
  hits = 0;
  misses = 0;
  evictions = 0;
  bytes_in_use = 0;
  inserts = 0;
  reconcile_drops = 0;
}

-- The state that `open` and `scan_existing` build.
abbrev pub opened : Os → ℕ → Files → DiskCache
opened os max_bytes files = record {
  max_bytes = max_bytes;
  entries = [];
  lru = [];
  seq = 0;
  bytes = 0;
  stats = zero_stats;
  files = sweep_files os (names_of files) files;
}

-- `open(root, max_bytes)` over the files that stand under `root`; `create_ok` and `list_ok` tell
-- whether the directory could be made and listed.
unfoldable pub open_cache : Os → Bool → Bool → ℕ → Files → Result DiskCache
open_cache os create_ok list_ok max_bytes files =
    if create_ok && list_ok then ok (opened os max_bytes files) else err (BcError.io [])

-- The counters of a pass: how many, and how many bytes.
abbrev pub Tally : Type 0
Tally = ℕ × ℕ

module _ (sha256 : Bytes → Bytes) where
  -- The first loop of `reconcile_with_disk`.
  unfoldable pub find_missing : Files → List ChunkKey → List ChunkKey
  find_missing files [] = []
  find_missing files (k ∷ keys) =
      let rest = find_missing files keys in
      if exists (path_for sha256 k) files then rest else k ∷ rest

-- One round of the second loop, under the lock.
unfoldable pub drop_one : ChunkKey → DiskCache × Tally → DiskCache × Tally
drop_one k (c, tally) = elim (get key_discrete k c.entries) [
  | none ↦ (c, tally)
  | some e ↦ (drop_entry k e c, (wrapping_add tally.0 1, saturating_add tally.1 e.size))
]

unfoldable pub drop_all : List ChunkKey → DiskCache × Tally → DiskCache × Tally
unfolding drop_one
drop_all [] s = s
drop_all (k ∷ keys) s = drop_all keys (drop_one k s)

-- The second part of `reconcile_with_disk`: the keys that were found missing leave the maps.
unfoldable pub drop_missing : List ChunkKey → DiskCache → DiskCache × Tally
unfolding drop_all
drop_missing keys c =
    let (c', tally) = drop_all keys (c, (0, 0)) in
    (
      record c' {
        stats = record c'.stats {
          bytes_in_use = c'.bytes;
          reconcile_drops = wrapping_add c'.stats.reconcile_drops tally.0;
        };
      },
      tally,
    )

-- One round of the loop of `clear_all`, under the lock.
unfoldable pub clear_one : (Bytes → Bytes) → Os → ChunkKey → DiskCache × Tally → DiskCache × Tally
clear_one sha256 os k (c, tally) = elim (get key_discrete k c.entries) [
  | none ↦ (c, tally)
  | some e ↦
      let name = path_for sha256 k in
      (
        record c {
          entries = remove key_discrete k c.entries;
          lru = remove ℕ_discrete e.last_access_seq c.lru;
          files = remove_file os name c.files;
        },
        if removes os name c.files
            then (wrapping_add tally.0 1, saturating_add tally.1 e.size)
            else tally,
      )
]

unfoldable pub clear_each :
    (Bytes → Bytes) → Os → List ChunkKey → DiskCache × Tally → DiskCache × Tally
unfolding clear_one
clear_each sha256 os [] s = s
clear_each sha256 os (k ∷ keys) s = clear_each sha256 os keys (clear_one sha256 os k s)

-- `reconcile_with_disk()`
unfoldable pub reconcile_with_disk : (Bytes → Bytes) → DiskCache → DiskCache × Tally
unfolding drop_missing
reconcile_with_disk sha256 c = elim (find_missing sha256 c.files (live_keys c)) [
  | [] ↦ (c, (0, 0))
  | k ∷ missing ↦ drop_missing (k ∷ missing) c
]

module _ (sha256 : Bytes → Bytes) (os : Os) where
  -- The part of `clear_all` under the lock.
  unfoldable pub clear_tracked : DiskCache → DiskCache × Tally
  unfolding clear_each
  clear_tracked c =
      let (c', tally) = clear_each sha256 os (live_keys c) (c, (0, 0)) in
      (record c' { bytes = 0; lru = []; stats = record c'.stats { bytes_in_use = 0 } }, tally)

  -- The sweep of stray files that follows; nothing where the directory cannot be listed.
  unfoldable pub clear_stray : Bool → DiskCache → DiskCache
  unfolding sweep_files
  clear_stray list_ok c =
      if list_ok then record c { files = sweep_files os (names_of c.files) c.files } else c

  -- `clear_all()`, which always answers `Ok`.
  unfoldable pub clear_all : Bool → DiskCache → DiskCache × Tally
  unfolding clear_tracked clear_stray
  clear_all list_ok c = let (c', tally) = clear_tracked c in (clear_stray list_ok c', tally)
