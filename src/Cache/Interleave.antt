-- ===== src/Cache/Interleave.antt =====
-- The threads of the daemon share one `DiskCache` (src/cache.rs). Between two critical sections of
-- one call, any other thread may run. A step is one critical section, one change of the files, or
-- one count; a history is any sequence of steps.
use blobcache.Prelude.{
  ℕ, ◌+◌, ◌≤◌, ◌<◌, ◌≡◌, refl, List, arith, sym, ◌∙◌, Bytes, Bool, inl, inr, length, dec_lt,
  List-cases, zero, suc,
}
use blobcache.Prelude.Result.{ok}
use blobcache.Prelude.Word.{u64_mod}
use blobcache.Cache.Key.{ChunkKey}
use blobcache.Cache.State.{DiskCache, Os, Files, publish_bytes, count_miss, count_hit}
use blobcache.Cache.Read.{touch_lru, touch_entry}
use blobcache.Cache.Write.{
  register, forget, drop_entry, track, evict_if_needed, evict_loop, evict_oldest,
}
use blobcache.Cache.Sweep.{drop_missing, clear_tracked, open_cache}
use blobcache.Cache.Valid.{IsValid}
use blobcache.Cache.Upkeep.{
  touch_lru-IsValid, register-IsValid, forget-IsValid, evict_loop_fits, evict_loop_empty,
  evict_loop_next,
}
use blobcache.Cache.Order.{register-le}
use blobcache.Cache.Passes.{drop_missing_lem, clear_tracked_lem, open_cache-IsValid}
use blobcache.Cache.Insert.{HasRoom}

-- What every thread finds when it takes the lock: the bookkeeping, the byte limit, and the gauge
-- that shows the bytes.
pub record IsSafe (c : DiskCache) : Type 0 where
  pub valid : IsValid c
  pub bounded : c.bytes ≤ c.max_bytes
  pub shown : c.stats.bytes_in_use ≡ c.bytes

module _ (sha256 : Bytes → Bytes) where
  pub data Step : DiskCache → DiskCache → Type 0 where
    touches : {c : DiskCache} (k : ChunkKey) → c.seq + 1 < u64_mod → Step c (touch_lru k c).0
    registers :
        {c : DiskCache} (os : Os) (k : ChunkKey) (n : ℕ)
        → HasRoom c n
        → Step c (register sha256 os k n c)
    forgets : {c : DiskCache} (k : ChunkKey) → Step c (forget k c)
    drops : {c : DiskCache} (ks : List ChunkKey) → Step c (drop_missing ks c).0
    clears : {c : DiskCache} (os : Os) → Step c (clear_tracked sha256 os c).0
    files_change : {c : DiskCache} (files : Files) → Step c (record c { files = files })
    counts_miss : {c : DiskCache} → Step c (count_miss c)
    counts_hit : {c : DiskCache} → Step c (count_hit c)

  pub data Reach (c : DiskCache) : DiskCache → Type 0 where
    here : Reach c c
    next : {d e : DiskCache} → Reach c d → Step d e → Reach c e

touch_lru-IsSafe :
    (c : DiskCache) (k : ChunkKey) → c.seq + 1 < u64_mod → IsSafe c → IsSafe (touch_lru k c).0
unfolding touch_lru touch_entry
touch_lru-IsSafe c k room s = record {
  valid = touch_lru-IsValid c k s.valid room;
  bounded = ground arith;
  shown = ground arith;
}

evict_oldest-max :
    (sha256 : Bytes → Bytes) (os : Os) (s : ℕ) (k : ChunkKey) (c : DiskCache)
    → (evict_oldest sha256 os s k c).max_bytes ≡ c.max_bytes
unfolding evict_oldest
evict_oldest-max sha256 os s k c = ground arith

evict_loop-max :
    (sha256 : Bytes → Bytes) (os : Os) (fuel : ℕ) (c : DiskCache)
    → (evict_loop sha256 os fuel c).max_bytes ≡ c.max_bytes
evict_loop-max sha256 os zero c = unfold evict_loop in refl
evict_loop-max sha256 os (suc fuel) c = elim (dec_lt c.max_bytes c.bytes) [
  | no fits ↦ rw (evict_loop_fits sha256 os (suc fuel) c (omega arith))
  | yes over ↦ elim (List-cases c.lru) [
    | inl e ↦ rw (evict_loop_empty sha256 os (suc fuel) c e)
    | inr ((s, k), rest, e) ↦ rw (evict_loop_next sha256 os fuel c s k rest over e) (
        evict_loop-max sha256 os fuel (evict_oldest sha256 os s k c)
        ∙ evict_oldest-max sha256 os s k c)
  ]
]

register-IsSafe :
    (sha256 : Bytes → Bytes) (os : Os) (c : DiskCache) (k : ChunkKey) (n : ℕ)
    → HasRoom c n
    → IsSafe c
    → IsSafe (register sha256 os k n c)
unfolding register evict_if_needed track
register-IsSafe sha256 os c k n room s = record {
  valid = register-IsValid sha256 os c k n s.valid room.0 room.1;
  bounded = omega (
    arith,
    register-le sha256 os c k n s.valid room.0 room.1,
    evict_loop-max sha256 os (length (track k n c).lru) (publish_bytes (track k n c)),
  );
  shown = refl;
}

forget-IsSafe : (c : DiskCache) (k : ChunkKey) → IsSafe c → IsSafe (forget k c)
unfolding forget drop_entry
forget-IsSafe c k s = record {
  valid = forget-IsValid c k s.valid;
  bounded = ground arith;
  shown = ground arith;
}

drop_missing-IsSafe : (c : DiskCache) (ks : List ChunkKey) → IsSafe c → IsSafe (drop_missing ks c).0
drop_missing-IsSafe c ks s =
    let (valid, entries, files, cap, less, shown) = drop_missing_lem ks c s.valid in
    record { valid = valid; bounded = omega arith; shown = shown }

module _ (sha256 : Bytes → Bytes) where
  clear_tracked-IsSafe : (os : Os) (c : DiskCache) → IsSafe (clear_tracked sha256 os c).0
  clear_tracked-IsSafe os c =
      let (gone, valid, zero_bytes, zero_shown, cap) = clear_tracked_lem sha256 os c in
      record { valid = valid; bounded = omega arith; shown = zero_shown ∙ sym zero_bytes }

  Step-IsSafe : {c d : DiskCache} → Step sha256 c d → IsSafe c → IsSafe d
  Step-IsSafe (touches {c} k room) s = touch_lru-IsSafe c k room s
  Step-IsSafe (registers {c} os k n room) s = register-IsSafe sha256 os c k n room s
  Step-IsSafe (forgets {c} k) s = forget-IsSafe c k s
  Step-IsSafe (drops {c} ks) s = drop_missing-IsSafe c ks s
  Step-IsSafe (clears {c} os) s = clear_tracked-IsSafe os c
  Step-IsSafe (files_change files) s = record {
    valid = s.valid;
    bounded = s.bounded;
    shown = s.shown;
  }
  Step-IsSafe counts_miss s = record { valid = s.valid; bounded = s.bounded; shown = s.shown }
  Step-IsSafe counts_hit s = record { valid = s.valid; bounded = s.bounded; shown = s.shown }

  Reach-IsSafe : {c d : DiskCache} → IsSafe c → Reach sha256 c d → IsSafe d
  Reach-IsSafe s here = s
  Reach-IsSafe s (next r st) = Step-IsSafe st (Reach-IsSafe s r)

  -- However the critical sections of any number of calls follow one another after `open`, each
  -- thread finds the maps in agreement, the bytes within the limit, and the gauge at the bytes.
  pub open_cache-Reach-IsSafe :
      (os : Os) (create_ok list_ok : Bool) (max_bytes : ℕ) (files : Files) {c d : DiskCache}
      → open_cache os create_ok list_ok max_bytes files ≡ ok c
      → Reach sha256 c d
      → IsSafe d
  open_cache-Reach-IsSafe os create_ok list_ok max_bytes files e r =
      let (valid, zero_bytes, zero_shown) =
        open_cache-IsValid os create_ok list_ok max_bytes files e in
      Reach-IsSafe
        (record { valid = valid; bounded = omega arith; shown = zero_shown ∙ sym zero_bytes }) r
