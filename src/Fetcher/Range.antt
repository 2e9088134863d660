-- ===== src/Fetcher/Range.antt =====
-- `fetch_range` of src/fetcher.rs: a range of a file from slices of its chunks. `fetch_chunk_range` is an
-- argument: the answer for a chunk's offset, a slice of it, and the chunk's length.
use Prim.Native.Nat.{zero, suc, min, max, ◌/◌}
use blobcache.Prelude.{ℕ, ◌+◌, ◌-◌, ◌*◌, List, [], ◌∷◌, ◌++◌, Bytes, ltb, leb, ◌==◌, if◌then◌else◌}
use blobcache.Prelude.Word.{saturating_add, u64_mod}
use blobcache.Prelude.Result.{Result, ok, err, other}
use blobcache.Fetcher.State.{Fetcher, Settings}
use blobcache.Fetcher.Prefetch.{Spawned, maybe_trigger_prefetch}
use blobcache.Fetcher.Sources.{Complaint, read_length}

abbrev pub max_read_bytes : ℕ
max_read_bytes = 64 * 1024 * 1024

-- A slice of a chunk: `o`, `take_start`, `sub_len` and `chunk_len`.
pub record Piece : Type 0 where
  pub chunk : ℕ
  pub take_start : ℕ
  pub sub_len : ℕ
  pub chunk_len : ℕ

-- The place of a chunk, and the bytes of its piece.
abbrev pub Fetched : Type 0
Fetched = ℕ × Bytes

module _ (cs offset end file_size : ℕ) where
  abbrev pub piece_of : ℕ → Piece
  piece_of o =
      let chunk_len = min cs (file_size - o) in
      let take_start = max offset o - o in
      let take_end = min end (o + chunk_len) - o in
      record {
        chunk = o;
        take_start = take_start;
        sub_len = take_end - take_start;
        chunk_len = chunk_len;
      }

  abbrev pub first_chunk : ℕ
  first_chunk = (offset / cs) * cs

  abbrev pub last_chunk : ℕ
  last_chunk = ((end - 1) / cs) * cs

  -- The `while`, on fuel.
  unfoldable pub pieces_from : ℕ → ℕ → List Piece
  pieces_from zero o = []
  pieces_from (suc fuel) o =
      let rest = pieces_from fuel (o + cs) in
      if leb o last_chunk then piece_of o ∷ (if ltb (o + cs) u64_mod then rest else []) else []

  -- The fuel is one more than the chunks.
  unfoldable pub pieces : List Piece
  unfolding pieces_from
  pieces = pieces_from (suc (suc ((end - 1) / cs - offset / cs))) first_chunk

unfoldable pub insert_by_chunk : Fetched → List Fetched → List Fetched
insert_by_chunk c [] = c ∷ []
insert_by_chunk c (d ∷ l) =
    let rest = insert_by_chunk c l in if leb c.0 d.0 then c ∷ d ∷ l else d ∷ rest

-- `sort_by_key(|(o, _)| *o)`, a stable sort.
unfoldable pub sort_by_chunk : List Fetched → List Fetched
unfolding insert_by_chunk
sort_by_chunk [] = []
sort_by_chunk (c ∷ l) = insert_by_chunk c (sort_by_chunk l)

unfoldable pub concat_chunks : List Fetched → Bytes
concat_chunks [] = []
concat_chunks (c ∷ l) = c.1 ++ concat_chunks l

abbrev pub joined : List Fetched → Bytes
joined (c ∷ []) = c.1
joined l = concat_chunks l

module _ (read : Piece → Result Bytes) where
  -- The tasks, awaited in order: the first that failed is the result.
  unfoldable pub await_all : List Piece → Result (List Fetched)
  await_all [] = ok []
  await_all (p ∷ l) = elim (read p) [
    | err e ↦ err e
    | ok b ↦ elim (await_all l) [ err e ↦ err e | ok rest ↦ ok ((p.chunk, b) ∷ rest) ]
  ]

-- `fetch_range`: what the prefetch leaves and spawns, and the bytes. The prefetch comes before the tasks,
-- and only for a range that is not empty.
module _ {C : Type 0} (set : Settings) (read : Piece → Result Bytes) where
  unfoldable pub fetch_range :
      (Complaint → Bytes)
      → Bytes
      → Bytes
      → ℕ
      → ℕ
      → ℕ
      → Fetcher C
      → (Fetcher C × Spawned) × Result Bytes
  unfolding pieces await_all sort_by_chunk concat_chunks maybe_trigger_prefetch
  fetch_range say mount_name blob_path offset len file_size f =
      let end = min (saturating_add offset len) file_size in
      let prefetched = maybe_trigger_prefetch set mount_name blob_path offset end file_size f in
      if len == 0
      then ((f, []), ok [])
      else if ltb max_read_bytes len
      then ((f, []), err (other (say (read_length len))))
      else if leb end offset
      then ((f, []), ok [])
      else (
        prefetched,
        elim (await_all read (pieces set.chunk_size offset end file_size)) [
          | err e ↦ err e
          | ok chunks ↦ ok (joined (sort_by_chunk chunks))
        ],
      )
