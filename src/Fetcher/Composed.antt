-- ===== src/Fetcher/Composed.antt =====
-- `fetch_range` of src/fetcher.rs over `fetch_chunk_range_inner`: a read of a file, from the sources of its
-- chunks to the bytes that the reader gets.
use Prim.Native.Nat.{min}
use blobcache.Prelude.{
  ℕ, ◌-◌, ◌<◌, ◌≤◌, ◌≡◌, refl, sym, ap, ◌∙◌, [], Bytes, false, ltb, leb, ◌==◌, length, take, drop,
  arith, Bool-cases, inl, inr,
}
use blobcache.Prelude.Word.{u64_mod}
use blobcache.Prelude.Result.{Result, ok}
use blobcache.Cache.Key.{ChunkKey}
use blobcache.Config.Fields.{MountConfig}
use blobcache.Fetcher.PeerLru.{LruCache, IsLru}
use blobcache.Fetcher.State.{Fetcher, Settings, World}
use blobcache.Fetcher.Sources.{Complaint}
use blobcache.Fetcher.Chunk.{Broadcast, fetch_chunk_range_inner}
use blobcache.Fetcher.Parts.{take-drop-take, take_nil}
use blobcache.Fetcher.Here.{Faith}
use blobcache.Fetcher.Faithful.{PeersAreHonest}
use blobcache.Fetcher.Fetched.{BlobsAreRight}
use blobcache.Fetcher.Right.{IsRightBroadcast, fetch_chunk_range_inner-IsSlice}
use blobcache.Fetcher.Range.{Piece, fetch_range, max_read_bytes}
use blobcache.Fetcher.Whole.{drop_sum, meant, IsPiece}
use blobcache.Fetcher.Served.{IsRange, is_range, stop, chunks-IsRange, drop_enough}

module _ {C : Type 0} (set : Settings) (read : Piece → Result Bytes) (say : Complaint → Bytes)
    (mount_name blob_path file : Bytes) (offset len : ℕ) (room : length file < u64_mod)
    (pos : 0 < set.chunk_size) (small : len ≤ max_read_bytes) (f : Fetcher C) where
  -- A range that is read holds the bytes of the file from its start on, as many as were asked for or as
  -- the file has, when each slice of a chunk of the file that was fetched is right; and it is read, when
  -- each slice of the range could be fetched. The chunk size is not zero, the file's size is a `u64`,
  -- and the range is not longer than the limit.
  pub fetch_range-IsRange :
      ((p : Piece) (b : Bytes) → IsPiece file set.chunk_size p → read p ≡ ok b → b ≡ meant file p)
      → IsRange file room set.chunk_size offset len pos read
          (fetch_range set read say mount_name blob_path offset len (length file) f).1
  unfolding fetch_range
  fetch_range-IsRange right =
      let cs = set.chunk_size in
      let end = stop file room cs offset len pos in
      let few : ltb max_read_bytes len ≡ false = ground arith in
      elim (Bool-cases (len == 0)) [
        | inl nothing ↦
            rw (nothing, fetch_range)
              (is_range file room cs offset len pos read []
                (let none : 0 ≡ len = ground arith in ap (λ n. take n (drop offset file)) none))
        | inr some_len ↦ elim (Bool-cases (leb end offset)) [
          | inl past ↦
              rw (some_len, few, past, fetch_range)
                (is_range file room cs offset len pos read []
                  (sym (ap (take len) (drop_enough offset file (ground arith)) ∙ take_nil len)))
          | inr in_range ↦
              rw (some_len, few, in_range, fetch_range)
                (chunks-IsRange file room cs offset len pos read right (ground arith) _ refl)
        ]
      ]

module _ {C : Type 0} (lru : LruCache C) (laws : IsLru lru) (sha256 : Bytes → Bytes)
    (content : ChunkKey → Bytes) (say : Complaint → Bytes) (set : Settings) (w : World)
    (mount : MountConfig) (blob_path file : Bytes) (broadcast : Piece → Broadcast)
    (before : Piece → Fetcher C) where
  abbrev pub chunk_key : ℕ → ChunkKey
  chunk_key o = record { mount = mount.name; blob = blob_path; offset = o }

  -- The content of a chunk is its part of the file.
  abbrev pub HasFile : Type 0
  HasFile =
      (o : ℕ) → content (chunk_key o) ≡ take (min set.chunk_size (length file - o)) (drop o file)

  -- The task for a piece. The tasks run at the same time as others: each starts in a state of its own, and
  -- has what a leader of its own sends.
  abbrev pub read_piece : Piece → Result Bytes
  read_piece p =
      (fetch_chunk_range_inner lru sha256 say set w mount blob_path p.chunk p.take_start p.sub_len
        p.chunk_len (broadcast p) (before p)).1

  -- A read of a file gives its bytes from the offset on, as many as were asked for or as the file has,
  -- if it gives any, and it does when each slice of the range could be fetched: when the contents of the
  -- chunks are the parts of the file, each task starts in a state in which what the fetcher has of
  -- chunks is right, the peers and the leaders send right bytes, and the blob store has them. The
  -- chunk size is not zero, the file's size is a `u64`, and the range is not longer than the limit.
  pub fetch_range_of_chunks-IsRange :
      (offset len : ℕ)
      → HasFile
      → ((p : Piece) → Faith lru laws sha256 content (before p))
      → PeersAreHonest lru laws sha256 content say set w
      → BlobsAreRight lru laws sha256 content say set w mount blob_path
      → ((p : Piece)
          → IsRightBroadcast lru laws sha256 content say set w (chunk_key p.chunk) (broadcast p))
      → (f : Fetcher C) (room : length file < u64_mod) (pos : 0 < set.chunk_size)
        (small : len ≤ max_read_bytes)
      → IsRange file room set.chunk_size offset len pos read_piece
          (fetch_range set read_piece say mount.name blob_path offset len (length file) f).1
  fetch_range_of_chunks-IsRange offset len has faith honest blobs leaders f room pos small =
      fetch_range-IsRange set read_piece say mount.name blob_path file offset len room pos small f
        (λ p b is_piece e.
          fetch_chunk_range_inner-IsSlice lru laws sha256 content say set w mount blob_path p.chunk
            p.chunk_len (broadcast p) honest blobs (leaders p) p.take_start p.sub_len (before p)
            (faith p) b e
          ∙ ap (λ x. take p.sub_len (drop p.take_start x)) (has p.chunk)
          ∙ take-drop-take (min set.chunk_size (length file - p.chunk)) p.take_start p.sub_len
              (drop p.chunk file) (ground (arith, is_piece))
          ∙ ap (take p.sub_len) (drop_sum p.take_start p.chunk file))
