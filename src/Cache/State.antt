-- ===== src/Cache/State.antt =====
-- The state of `DiskCache` (src/cache.rs): `Entry`, `Inner`, `CacheStats`, the files under `root`.
-- A path is a file's name below `root`. Counters are `u64`.
use blobcache.Prelude.{ℕ, List, Bool, Bytes, Option, none, some, true, false, if◌then◌else◌, ◌&&◌}
use blobcache.Prelude.Assoc.{get, remove}
use blobcache.Prelude.Word.{wrapping_add}
use blobcache.Cache.Key.{ChunkKey, name_discrete}

pub record CacheStats : Type 0 where
  pub hits : ℕ
  pub misses : ℕ
  pub evictions : ℕ
  pub bytes_in_use : ℕ
  pub inserts : ℕ
  pub reconcile_drops : ℕ

pub record Entry : Type 0 where
  pub size : ℕ
  pub last_access_seq : ℕ

-- What stands under a name in the cache directory.
pub record FileNode : Type 0 where
  pub is_file : Bool
  pub content : Bytes

abbrev pub Files : Type 0
Files = List (Bytes × FileNode)

-- What the operating system answers during one call: which names can be opened and read, and which
-- removed.
pub record Os : Type 0 where
  pub readable : Bytes → Bool
  pub removable : Bytes → Bool

pub record DiskCache : Type 0 where
  pub max_bytes : ℕ
  pub entries : List (ChunkKey × Entry)
  pub lru : List (ℕ × ChunkKey)
  pub seq : ℕ
  pub bytes : ℕ
  pub stats : CacheStats
  pub files : Files

-- `std::fs::read`: the content of a regular file.
unfoldable pub read_file : Os → Bytes → Files → Option Bytes
read_file os name files = elim (get name_discrete name files) [
  | none ↦ none
  | some node ↦ if node.is_file && os.readable name then some node.content else none
]

-- `Path::exists`
unfoldable pub exists : Bytes → Files → Bool
exists name files = elim (get name_discrete name files) [ none ↦ false | some _ ↦ true ]

-- `std::fs::remove_file(p).is_ok()`
unfoldable pub removes : Os → Bytes → Files → Bool
removes os name files = elim (get name_discrete name files) [
  | none ↦ false
  | some node ↦ node.is_file && os.removable name
]

-- `let _ = std::fs::remove_file(p)`: the files that stay.
unfoldable pub remove_file : Os → Bytes → Files → Files
unfolding removes
remove_file os name files = if removes os name files then remove name_discrete name files else files

-- `stats.misses.fetch_add(1)`, and the other counters alike.
abbrev pub count_miss : DiskCache → DiskCache
count_miss c = record c { stats = record c.stats { misses = wrapping_add c.stats.misses 1 } }

abbrev pub count_hit : DiskCache → DiskCache
count_hit c = record c { stats = record c.stats { hits = wrapping_add c.stats.hits 1 } }

-- `stats.bytes_in_use.store(g.bytes)`
abbrev pub publish_bytes : DiskCache → DiskCache
publish_bytes c = record c { stats = record c.stats { bytes_in_use = c.bytes } }
