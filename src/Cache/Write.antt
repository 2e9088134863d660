-- ===== src/Cache/Write.antt =====
-- The writes of `DiskCache` (src/cache.rs): insert with eviction, remove, clear, and the pass that
-- drops entries whose file has gone.
use blobcache.Prelude.{
  ℕ, zero, suc, List, [], ◌∷◌, Bool, Bytes, none, some, true, false, if◌then◌else◌, ltb, ℕ_discrete,
  length, take,
}
use blobcache.Prelude.Assoc.{get, remove, insert}
use blobcache.Prelude.Sorted.{insert_sorted}
use blobcache.Prelude.Word.{wrapping_add, saturating_sub}
use blobcache.Prelude.Result.{BcError, Result, ok, err}
use blobcache.Cache.Key.{ChunkKey, key_discrete, name_discrete}
use blobcache.Cache.Read.{path_for}
use blobcache.Cache.State.{DiskCache, Entry, Os, Files, FileNode, remove_file, publish_bytes}

-- How far the file operations of one `insert` come.
pub data WriteOutcome : Type 0 where
  create_fails : WriteOutcome
  write_fails : ℕ → WriteOutcome
  sync_fails rename_fails written : WriteOutcome

abbrev pub regular : Bytes → FileNode
regular b = record { is_file = true; content = b }

-- Create, write, sync and rename the temporary file `tmp`.
unfoldable pub write_chunk : WriteOutcome → Bytes → Bytes → Bytes → Files → Files × Bool
write_chunk create_fails tmp path b files = (files, false)
write_chunk (write_fails n) tmp path b files =
    (insert name_discrete tmp (regular (take n b)) files, false)
write_chunk sync_fails tmp path b files = (insert name_discrete tmp (regular b) files, false)
write_chunk rename_fails tmp path b files = (insert name_discrete tmp (regular b) files, false)
write_chunk written tmp path b files =
    (insert name_discrete path (regular b) (remove name_discrete tmp files), true)

-- An entry leaves the maps: `entries.remove`, `lru.remove`, `bytes.saturating_sub`.
unfoldable pub drop_entry : ChunkKey → Entry → DiskCache → DiskCache
drop_entry key e c = record c {
  entries = remove key_discrete key c.entries;
  lru = remove ℕ_discrete e.last_access_seq c.lru;
  bytes = saturating_sub c.bytes e.size;
}

-- The new entry of `insert` in the maps, before the eviction.
unfoldable pub track : ChunkKey → ℕ → DiskCache → DiskCache
track key size c =
    let new_seq = wrapping_add c.seq 1 in
    let prev = get key_discrete key c.entries in
    let kept : List (ℕ × ChunkKey) = elim prev [
      | none ↦ c.lru
      | some p ↦ remove ℕ_discrete p.last_access_seq c.lru
    ] in
    let rest : ℕ = elim prev [ none ↦ c.bytes | some p ↦ saturating_sub c.bytes p.size ] in
    record c {
      seq = new_seq;
      entries =
          insert key_discrete key (record { size = size; last_access_seq = new_seq }) c.entries;
      lru = insert_sorted new_seq key kept;
      bytes = wrapping_add rest size;
      stats = record c.stats { inserts = wrapping_add c.stats.inserts 1 };
    }

-- The part of `remove` under the lock.
unfoldable pub forget : ChunkKey → DiskCache → DiskCache
unfolding drop_entry
forget key c = elim (get key_discrete key c.entries) [
  | none ↦ c
  | some e ↦ publish_bytes (drop_entry key e c)
]

module _ (sha256 : Bytes → Bytes) (os : Os) where
  -- One round of the loop: the first key of `lru` goes.
  unfoldable pub evict_oldest : ℕ → ChunkKey → DiskCache → DiskCache
  evict_oldest s key c =
      let popped = record c { lru = remove ℕ_discrete s c.lru } in
      elim (get key_discrete key popped.entries) [
        | none ↦ popped
        | some e ↦ record popped {
          entries = remove key_discrete key popped.entries;
          files = remove_file os (path_for sha256 key) popped.files;
          bytes = saturating_sub popped.bytes e.size;
          stats = record popped.stats { evictions = wrapping_add popped.stats.evictions 1 };
        }
      ]

  -- The loop, with the number of `lru` entries as fuel: a round takes one away.
  unfoldable pub evict_loop : ℕ → DiskCache → DiskCache
  evict_loop zero c = c
  evict_loop (suc fuel) c = elim (ltb c.max_bytes c.bytes) [
    | false ↦ c
    | true ↦ elim c.lru [ [] ↦ c | (s, key) ∷ _ ↦ evict_loop fuel (evict_oldest s key c) ]
  ]

  unfoldable pub evict_if_needed : DiskCache → DiskCache
  evict_if_needed c = publish_bytes (evict_loop (length c.lru) c)

  -- The part of `insert` under the lock.
  unfoldable pub register : ChunkKey → ℕ → DiskCache → DiskCache
  unfolding evict_if_needed track
  register key size c = evict_if_needed (publish_bytes (track key size c))

  -- `insert(key, data)`, whose temporary file is named `tmp`.
  unfoldable pub insert_chunk :
      WriteOutcome → Bytes → ChunkKey → Bytes → DiskCache → DiskCache × Result (Unit {0})
  unfolding register
  insert_chunk outcome tmp key b c =
      let (files, renamed) = write_chunk outcome tmp (path_for sha256 key) b c.files in
      let c' = record c { files = files } in
      if renamed then (register key (length b) c', ok tt) else (c', err (BcError.io []))

  -- `remove(key)`, which always answers `Ok`.
  unfoldable pub remove_chunk : ChunkKey → DiskCache → DiskCache
  unfolding forget
  remove_chunk key c =
      forget key (record c { files = remove_file os (path_for sha256 key) c.files })
