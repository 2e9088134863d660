-- ===== src/Fetcher/Prefetch.antt =====
-- `maybe_trigger_prefetch` of src/fetcher.rs, and the end of a write to the cache.
use Prim.Native.Nat.{zero, suc, min, ◌/◌, ◌%◌}
use blobcache.Prelude.{
  ℕ, ◌+◌, ◌-◌, ◌*◌, List, [], ◌∷◌, Bytes, Bool, true, false, ltb, leb, ◌==◌, ◌&&◌, ◌||◌, Option,
  none, some, if◌then◌else◌,
}
use blobcache.Prelude.Assoc.{get, insert, remove}
use blobcache.Prelude.Result.{ok, err, BcError}
use blobcache.Prelude.Word.{wrapping_add, u64_mod}
use blobcache.Cache.Key.{ChunkKey, key_discrete}
use blobcache.Cache.Read.{entry_size}
use blobcache.Cache.Write.{insert_chunk, WriteOutcome}
use blobcache.Cluster.State.{text_discrete}
use blobcache.PeerIndex.Bloom.{key_digest}
use blobcache.PeerIndex.State.{note_local_insert}
use blobcache.Fetcher.State.{
  Fetcher, Settings, World, SeqState, stream_key, stream_of, count, record_insert_failure,
  writes_ended, cache_insert_failures, prefetch_skipped_not_origin, prefetch_skipped_cached,
  prefetch_skipped_inflight, prefetch_spawned,
}

-- A read that begins where the last one ended, or up to a chunk behind, goes on with the stream.
unfoldable pub note_read : ℕ → ℕ → ℕ → SeqState → SeqState
note_read cs req_offset req_end s = record s {
  last_end = req_end;
  consecutive =
      if leb s.last_end req_offset && leb (req_offset - s.last_end) cs
      then min (s.consecutive + 1) 4294967295
      else 1;
}

-- What a prefetch is spawned for: a chunk's offset and length.
abbrev pub Spawned : Type 0
Spawned = List (ℕ × ℕ)

abbrev pub has : {V : Type 0} → ChunkKey → List (ChunkKey × V) → Bool
has key m = elim (get key_discrete key m) [ none ↦ false | some _ ↦ true ]

abbrev pub consed : Option (ℕ × ℕ) → Spawned → Spawned
consed none l = l
consed (some x) l = x ∷ l

module _ {C : Type 0} (set : Settings) where
  -- A chunk that is neither here nor on its way is spawned.
  unfoldable pub consider : ChunkKey → ℕ → Fetcher C → Fetcher C × Option (ℕ × ℕ)
  consider key file_size f = elim (entry_size key f.cache) [
    | some size ↦ (count prefetch_skipped_cached f, none)
    | none ↦
        if has key f.inflight_writes || has key f.inflight
        then (count prefetch_skipped_inflight f, none)
        else (
          count prefetch_spawned f,
          some (key.offset, min set.chunk_size (file_size - key.offset)),
        )
  ]

  -- The `for i in 1..=prefetch_depth`, from `i` on, with the sum and the product of `u64`.
  unfoldable pub spawn_from : Bytes → Bytes → ℕ → ℕ → ℕ → ℕ → Fetcher C → Fetcher C × Spawned
  unfolding consider
  spawn_from mount_name blob_path file_size cur_chunk zero i f = (f, [])
  spawn_from mount_name blob_path file_size cur_chunk (suc n) i f =
      let off = wrapping_add cur_chunk ((i * set.chunk_size) % u64_mod) in
      let (f', spawned) =
        consider (record { mount = mount_name; blob = blob_path; offset = off }) file_size f in
      let (g, rest) = spawn_from mount_name blob_path file_size cur_chunk n (i + 1) f' in
      if leb file_size off then (f, []) else (g, consed spawned rest)

  unfoldable pub maybe_trigger_prefetch :
      Bytes → Bytes → ℕ → ℕ → ℕ → Fetcher C → Fetcher C × Spawned
  unfolding note_read spawn_from
  maybe_trigger_prefetch mount_name blob_path req_offset req_end file_size f =
      let key = stream_key mount_name blob_path in
      let s = note_read set.chunk_size req_offset req_end (stream_of key f.seq_state) in
      let g : Fetcher C = record f { seq_state = insert text_discrete key s f.seq_state } in
      let cur_chunk = ((req_end - 1) / set.chunk_size) * set.chunk_size in
      if set.prefetch_depth == 0
      then (f, [])
      else if ltb s.consecutive set.prefetch_threshold
      then (g, [])
      else if set.prefetch_origin_only && s.blob_streak == 0
      then (count prefetch_skipped_not_origin g, [])
      else spawn_from mount_name blob_path file_size cur_chunk set.prefetch_depth 1 g

-- The task of `spawn_insert`: the chunk is written, and peers are told of it, or the failure is kept.
module _ {C : Type 0} (sha256 : Bytes → Bytes) (text : BcError → Bytes) (w : World) where
  unfoldable pub finish_insert : WriteOutcome → Bytes → ChunkKey → Bytes → Fetcher C → Fetcher C
  finish_insert outcome tmp key chunk f =
      let (cache, written) = insert_chunk sha256 w.os outcome tmp key chunk f.cache in
      let g : Fetcher C = record f { cache = cache } in
      let h = elim written as (λ x. Fetcher C) [
        | ok _ ↦ record g {
          peer_index = (note_local_insert (key_digest sha256 key) g.peer_index).0;
        }
        | err e ↦ count cache_insert_failures (record_insert_failure key (text e) g)
      ] in
      count writes_ended (record h { inflight_writes = remove key_discrete key h.inflight_writes })
