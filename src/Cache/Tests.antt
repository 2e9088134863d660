-- ===== src/Cache/Tests.antt =====
-- The theorems on src/cache.rs at concrete inputs, and runs of the code.
use blobcache.Prelude.{
  ℕ, ◌≤◌, ◌≡◌, ◌≢◌, refl, [], ◌∷◌, some, arith, Bytes, true, ℕ_discrete, dec_lt, length, ap, ◌∙◌,
  take, drop,
}
use blobcache.Prelude.Assoc.{get, remove, insert, modify, total}
use blobcache.Prelude.Sorted.{insert_sorted}
use blobcache.Prelude.Endian.{to_le_bytes}
use blobcache.Prelude.Result.{BcError, ok, err}
use blobcache.Cache.Key.{ChunkKey, key_discrete, name_discrete, cache_filename, preimage, hex}
use blobcache.Cache.State.{DiskCache, Entry, Os, exists, read_file}
use blobcache.Cache.Read.{read_exact_at, try_get, try_get_range, path_for, live_keys, touch_lru}
use blobcache.Cache.Write.{
  written, sync_fails, insert_chunk, register, remove_chunk, write_chunk, evict_loop, evict_oldest,
}
use blobcache.Cache.Sweep.{
  find_missing, drop_all, drop_missing, clear_tracked, opened, open_cache, reconcile_with_disk,
  clear_all, sweep_files,
}
use blobcache.Cache.Valid.{IsValid}
use blobcache.Cache.Names
use blobcache.Cache.Passes
use blobcache.Cache.Insert
use blobcache.Cache.RoundTrip
use blobcache.Cache.Interleave
use blobcache.Cache.Interleave.{IsSafe, Step, Reach, here, next, registers, touches}
use blobcache.Cache.Recency.{trim, used, view, view_of, weight}

program : Unit {0}
unfolding insert_chunk try_get try_get_range remove_chunk open_cache reconcile_with_disk clear_all
    get remove insert modify insert_sorted ℕ_discrete dec_lt key_discrete name_discrete
    cache_filename preimage hex to_le_bytes read_file exists sweep_files live_keys trim weight total
    view_of write_chunk evict_loop evict_oldest read_exact_at find_missing drop_all drop_missing
    clear_tracked
program = tt

abbrev healthy : Os
healthy = record { readable = λ _. true; removable = λ _. true }

-- A stand-in for the hash that keeps its input.
abbrev plain : Bytes → Bytes
plain b = b

abbrev key_at : ℕ → ChunkKey
key_at o = record { mount = b'm' ∷ []; blob = b'b' ∷ []; offset = o }

abbrev tmp : Bytes
tmp = b'.' ∷ b't' ∷ []

abbrev empty : DiskCache
empty = opened healthy 5 []

abbrev one : DiskCache
one = (insert_chunk plain healthy written tmp (key_at 0) (1 ∷ 2 ∷ 3 ∷ []) empty).0

abbrev two : DiskCache
two = (insert_chunk plain healthy written tmp (key_at 9) (7 ∷ 8 ∷ []) one).0

abbrev three : DiskCache
three = (insert_chunk plain healthy written tmp (key_at 4) (5 ∷ []) two).0

-- The oldest of three chunks goes when five bytes are too few.
evicts_oldest : view three ≡ (key_at 9, 2) ∷ (key_at 4, 1) ∷ []
unfolding program
evicts_oldest = refl

-- A read in between spares it.
read_spares :
    view
      (insert_chunk plain healthy written tmp
        (key_at 4)
        (5 ∷ [])
        (try_get plain healthy (key_at 0) two).0).0
    ≡ (key_at 0, 3) ∷ (key_at 4, 1) ∷ []
unfolding program
read_spares = refl

range_read : (try_get_range plain healthy (key_at 0) 1 2 two).1 ≡ some (2 ∷ 3 ∷ [])
unfolding program
range_read = refl

failed_write :
    (insert_chunk plain healthy sync_fails tmp (key_at 4) (5 ∷ []) one).1 ≡ err (BcError.io [])
unfolding program
failed_write = refl

empty-IsValid : IsValid empty
empty-IsValid =
    (Passes.open_cache-IsValid healthy true true 5 [] {c = empty} (unfold open_cache in refl)).0

cache_filename-ne_example : cache_filename plain (key_at 0) ≢ cache_filename plain (key_at 4)
unfolding program
cache_filename-ne_example =
    Names.cache_filename-ne plain (key_at 0) (key_at 4) (omega arith) (λ e. e) (omega arith)
      (omega arith) (λ e. ground arith)

insert_chunk-trim_example :
    let (c', r) = insert_chunk plain healthy written tmp (key_at 0) (1 ∷ 2 ∷ 3 ∷ []) empty in
    (r ≡ ok tt)
    × IsValid c'
    × (view c' ≡ trim 5 (used (key_at 0) 3 (view empty)))
    × (c'.bytes ≤ 5)
    × (c'.stats.bytes_in_use ≡ c'.bytes)
insert_chunk-trim_example =
    Insert.insert_chunk-trim plain healthy tmp empty (key_at 0) (1 ∷ 2 ∷ 3 ∷ []) empty-IsValid
      (omega arith)

one-IsValid : IsValid one
one-IsValid = insert_chunk-trim_example.1

insert_chunk_fails_example :
    let (c', r) = insert_chunk plain healthy sync_fails tmp (key_at 4) (5 ∷ []) one in
    ((e : BcError) × (r ≡ err e))
    × (c'.entries ≡ one.entries)
    × (c'.lru ≡ one.lru)
    × (c'.bytes ≡ one.bytes)
    × (c'.seq ≡ one.seq)
    × (c'.stats ≡ one.stats)
    × (get name_discrete (path_for plain (key_at 0)) c'.files
        ≡ get name_discrete (path_for plain (key_at 0)) one.files)
unfolding program
insert_chunk_fails_example =
    Insert.insert_chunk_fails plain healthy sync_fails tmp (path_for plain (key_at 0)) one
      (key_at 4) (5 ∷ []) (λ e. cc) (λ e. cc)

one_entries : one.entries ≡ (key_at 0, record { size = 3; last_access_seq = 1 }) ∷ []
unfolding program
one_entries = refl

own_name : RoundTrip.OwnName plain (key_at 4) one.entries
unfolding get
own_name j e found other same =
    let held = rw one_entries at found in
    let first : key_at 0 ≡ j = ground arith in
    cache_filename-ne_example (ap (cache_filename plain) first ∙ same)

try_get-insert_chunk_example :
    (try_get plain healthy
      (key_at 4)
      (insert_chunk plain healthy written tmp (key_at 4) (5 ∷ []) one).0).1
    ≡ some (5 ∷ [])
try_get-insert_chunk_example =
    RoundTrip.try_get-insert_chunk plain healthy healthy tmp one (key_at 4) (5 ∷ []) one-IsValid
      (unfold program in omega arith) (unfold program in omega arith) own_name refl

try_get_cases_example : Insert.Answers plain healthy (key_at 0) one
try_get_cases_example =
    Insert.try_get_cases plain healthy (key_at 0) one one-IsValid (unfold program in omega arith)

range_start : (try_get_range plain healthy (key_at 0) 1 2 one).1 ≡ some (2 ∷ 3 ∷ [])
unfolding program
range_start = refl

try_get_range-try_get_example :
    (full : Bytes) × ((try_get plain healthy (key_at 0) one).1 ≡ some full)
    × (2 ∷ 3 ∷ [] ≡ take 2 (drop 1 full))
    × (3 ≤ length full)
try_get_range-try_get_example =
    Insert.try_get_range-try_get plain healthy (key_at 0) 1 2 one (2 ∷ 3 ∷ []) (λ e. omega arith)
      range_start

reconcile_with_disk-exists_example :
    let c' = (reconcile_with_disk plain one).0 in
    IsValid c'
    × ((e : Entry)
        → get key_discrete (key_at 0) c'.entries ≡ some e
        → exists (path_for plain (key_at 0)) c'.files ≡ true)
    × (exists (path_for plain (key_at 0)) one.files ≡ true
        → get key_discrete (key_at 0) c'.entries ≡ get key_discrete (key_at 0) one.entries)
reconcile_with_disk-exists_example =
    Passes.reconcile_with_disk-exists plain one one-IsValid (key_at 0)

open_cache-Reach-IsSafe_example :
    IsSafe (register plain healthy (key_at 0) 3 (touch_lru (key_at 4) empty).0)
unfolding open_cache touch_lru get
open_cache-Reach-IsSafe_example =
    Interleave.open_cache-Reach-IsSafe plain healthy true true 5 [] {c = empty} refl (
      next (next here (touches (key_at 4) (omega arith)))
        (registers healthy (key_at 0) 3 (omega arith)))
