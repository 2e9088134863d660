-- ===== src/Cache/Read.antt =====
-- The reads of `DiskCache` (src/cache.rs). A read looks the key up under the lock, reads the file
-- without it, and takes the lock again in `touch_lru`.
use mathlib.Core.Bool.{not}
use blobcache.Prelude.{
  ℕ, ◌+◌, ◌==◌, List, [], map, Bool, Bytes, Option, none, some, true, false, if◌then◌else◌, ltb,
  leb, ℕ_discrete, length, take, drop,
}
use blobcache.Prelude.Assoc.{get, remove, modify}
use blobcache.Prelude.Sorted.{insert_sorted}
use blobcache.Prelude.Word.{wrapping_add, saturating_add}
use blobcache.Cache.Key.{ChunkKey, key_discrete, cache_filename}
use blobcache.Cache.State.{DiskCache, Entry, Os, Files, read_file, exists, count_miss, count_hit}

abbrev entry_of : ChunkKey → DiskCache → Option Entry
entry_of key c = get key_discrete key c.entries

-- The new access number of a tracked key, under the lock.
unfoldable pub touch_entry : ChunkKey → Entry → DiskCache → DiskCache
touch_entry key e c =
    let new_seq = wrapping_add c.seq 1 in
    record c {
      seq = new_seq;
      entries =
          modify key_discrete key (λ entry. record entry { last_access_seq = new_seq }) c.entries;
      lru = insert_sorted new_seq key (remove ℕ_discrete e.last_access_seq c.lru);
    }

unfoldable pub touch_lru : ChunkKey → DiskCache → DiskCache × Bool
unfolding touch_entry
touch_lru key c = elim (get key_discrete key c.entries) [
  | none ↦ (count_miss c, false)
  | some e ↦ (touch_entry key e c, true)
]

-- The end of every read: a key that was evicted in the meantime is a miss.
unfoldable pub finish_read {ℓ} : {A : Type ℓ} → ChunkKey → A → DiskCache → DiskCache × Option A
unfolding touch_lru
finish_read key a c =
    let (c', touched) = touch_lru key c in if touched then (count_hit c', some a) else (c', none)

-- `read_exact_at`: `n` bytes from `start`, or an error where the file is shorter.
unfoldable pub read_exact_at : Os → Bytes → ℕ → ℕ → Files → Option Bytes
unfolding read_file
read_exact_at os name start n files = elim (read_file os name files) [
  | none ↦ none
  | some b ↦ if leb (start + n) (length b) then some (take n (drop start b)) else none
]

module _ (sha256 : Bytes → Bytes) where
  abbrev pub path_for : ChunkKey → Bytes
  path_for key = cache_filename sha256 key

  unfoldable pub try_get : Os → ChunkKey → DiskCache → DiskCache × Option Bytes
  unfolding finish_read
  try_get os key c = elim (get key_discrete key c.entries) [
    | none ↦ (count_miss c, none)
    | some _ ↦ elim (read_file os (path_for key) c.files) [
      | none ↦ (count_miss c, none)
      | some d ↦ finish_read key d c
    ]
  ]

  -- `try_get_range(key, range_offset, range_len)`
  unfoldable pub try_get_range : Os → ChunkKey → ℕ → ℕ → DiskCache → DiskCache × Option Bytes
  unfolding finish_read
  try_get_range os key range_offset range_len c =
      if range_len == 0 then (c, some []) else elim (get key_discrete key c.entries) [
        | none ↦ (count_miss c, none)
        | some e ↦
            if ltb e.size (saturating_add range_offset range_len)
            then (count_miss c, none)
            else elim (read_exact_at os (path_for key) range_offset range_len c.files) [
              | none ↦ (count_miss c, none)
              | some b ↦ finish_read key b c
            ]
      ]

  -- `try_get_into_slice(key, dst)` at a slice of `dst_len` bytes: what it then holds.
  unfoldable pub try_get_into_slice : Os → ChunkKey → ℕ → DiskCache → DiskCache × Option Bytes
  unfolding finish_read
  try_get_into_slice os key dst_len c = elim (get key_discrete key c.entries) [
    | none ↦ (count_miss c, none)
    | some e ↦
        if not (dst_len == e.size)
        then (c, none)
        else elim (read_exact_at os (path_for key) 0 dst_len c.files) [
          | none ↦ (count_miss c, none)
          | some b ↦ finish_read key b c
        ]
  ]

  -- `local_path(key)`
  unfoldable pub local_path : ChunkKey → DiskCache → Option Bytes
  local_path key c = if exists (path_for key) c.files then some (path_for key) else none

unfoldable pub entry_size : ChunkKey → DiskCache → Option ℕ
entry_size key c = elim (get key_discrete key c.entries) [ none ↦ none | some e ↦ some e.size ]

unfoldable pub live_keys : DiskCache → List ChunkKey
live_keys c = map (λ e. e.0) c.entries
