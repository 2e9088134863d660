-- ===== src/Hydrate/Shared.antt =====
-- The chunks of `run_coordinator` in src/hydrate.rs cover each blob, and the buckets hold each chunk once.
use Prim.Native.Nat.{zero, suc, min, ◌%◌}
use native.Mathlib.Nat.{mod-lt}
use blobcache.Prelude.{
  ℕ, ◌+◌, ◌-◌, ◌<◌, ◌≤◌, ◌≡◌, refl, ◌∙◌, List, [], ◌∷◌, ◌++◌, Bytes, Bool, true, ltb, ◌==◌,
  if◌then◌else◌, arith, Bool-cases, inl, inr,
}
use blobcache.Config.Fields.{MountConfig}
use blobcache.Hydrate.Plan.{
  ChunkSpec, ListedBlob, chunks_from, chunks_of, blob_path_of, bucket_from, buckets_below, buckets,
}

-- Chunks that follow each other from one place to another, each of the blob, not empty, and not longer
-- than a chunk.
unfoldable pub Tiles : ℕ → Bytes → ℕ → ℕ → List ChunkSpec → Type 0
Tiles chunk_size blob from to [] = from ≡ to
Tiles chunk_size blob from to (c ∷ l) =
    (c.blob ≡ blob)
    × (c.offset ≡ from)
    × (0 < c.len)
    × (c.len ≤ chunk_size)
    × Tiles chunk_size blob (from + c.len) to l

chunks_from-Tiles :
    (chunk_size : ℕ) (blob : Bytes) (n fuel off : ℕ)
    → 0 < chunk_size
    → off ≤ n
    → n ≤ off + fuel
    → Tiles chunk_size blob off n (chunks_from chunk_size blob n fuel off)
unfolding Tiles chunks_from
chunks_from-Tiles chunk_size blob n zero off pos low high = omega arith
chunks_from-Tiles chunk_size blob n (suc fuel) off pos low high = elim (Bool-cases (ltb off n)) [
  | inr over ↦ rw (over, chunks_from) (ground arith)
  | inl inside ↦
      rw (inside, chunks_from)
        (
          refl,
          refl,
          ground arith,
          omega arith,
          chunks_from-Tiles chunk_size blob n fuel (off + min chunk_size (n - off)) pos
              (ground arith) (ground arith),
        )
]

-- The chunks of a blob follow each other from its start to its end without a gap, none is empty, and
-- none is longer than the chunk size, which is not zero.
pub chunks_of-Tiles :
    (chunk_size : ℕ) (mount : MountConfig) (b : ListedBlob)
    → 0 < chunk_size
    → Tiles chunk_size (blob_path_of mount b.name) 0 b.content_length (chunks_of chunk_size mount b)
unfolding chunks_of
chunks_of-Tiles chunk_size mount b pos =
    chunks_from-Tiles chunk_size (blob_path_of mount b.name) b.content_length b.content_length 0 pos
      (omega arith) (omega arith)

-- How many chunks of a list have a property.
unfoldable pub count_of : (ChunkSpec → Bool) → List ChunkSpec → ℕ
count_of test [] = 0
count_of test (c ∷ l) = (if test c then 1 else 0) + count_of test l

unfoldable pub count_all : (ChunkSpec → Bool) → List (List ChunkSpec) → ℕ
unfolding count_of
count_all test [] = 0
count_all test (l ∷ ls) = count_of test l + count_all test ls

count_all-append :
    (test : ChunkSpec → Bool) (ls ms : List (List ChunkSpec))
    → count_all test (ls ++ ms) ≡ count_all test ls + count_all test ms
unfolding count_all
count_all-append test [] ms = omega arith
count_all-append test (l ∷ ls) ms = omega (arith, count_all-append test ls ms)

unfoldable sum_below : ℕ → (ℕ → ℕ) → ℕ
sum_below zero f = 0
sum_below (suc k) f = sum_below k f + f k

module _ (test : ChunkSpec → Bool) (n : ℕ) where
  -- How many chunks of the `j`-th bucket have the property, when the first chunk is the `i`-th.
  abbrev counts : ℕ → List ChunkSpec → ℕ → ℕ
  counts i chunks j = count_of test (bucket_from n j i chunks)

  count_all-buckets_below :
      (k : ℕ) (chunks : List ChunkSpec)
      → count_all test (buckets_below n k chunks) ≡ sum_below k (counts 0 chunks)
  unfolding count_all buckets_below sum_below
  count_all-buckets_below zero chunks = refl
  count_all-buckets_below (suc k) chunks =
      count_all-append test (buckets_below n k chunks) (bucket_from n k 0 chunks ∷ [])
      ∙ omega (arith, count_all-buckets_below k chunks)

  one_of :
      (i j : ℕ) (c : ChunkSpec) (chunks : List ChunkSpec)
      → counts i (c ∷ chunks) j
        ≡ (if i % n == j then count_of test (c ∷ []) else 0) + counts (i + 1) chunks j
  unfolding bucket_from count_of
  one_of i j c chunks = elim (Bool-cases (i % n == j)) [
    | inl here ↦ rw (here, bucket_from) (omega arith)
    | inr there ↦ rw (there, bucket_from) (omega arith)
  ]

  sum_below-counts :
      (k i : ℕ) (c : ChunkSpec) (chunks : List ChunkSpec)
      → sum_below k (counts i (c ∷ chunks))
        ≡ (if ltb (i % n) k then count_of test (c ∷ []) else 0)
          + sum_below k (counts (i + 1) chunks)
  unfolding sum_below
  sum_below-counts zero i c chunks = ground arith
  sum_below-counts (suc k) i c chunks =
      let last = one_of i k c chunks in let ih = sum_below-counts k i c chunks in ground arith

  sum_below_nil : (k i : ℕ) → sum_below k (counts i []) ≡ 0
  unfolding sum_below bucket_from count_of
  sum_below_nil zero i = refl
  sum_below_nil (suc k) i = omega (arith, sum_below_nil k i)

  sum_below-count_of :
      (i : ℕ) (chunks : List ChunkSpec)
      → 0 < n
      → sum_below n (counts i chunks) ≡ count_of test chunks
  unfolding count_of
  sum_below-count_of i [] pos = sum_below_nil n i
  sum_below-count_of i (c ∷ chunks) pos =
      let small : i % n < n = mod-lt i pos in
      let inside : ltb (i % n) n ≡ true = ground arith in
      let first = sum_below-counts n i c chunks in
      let rest = sum_below-count_of (i + 1) chunks pos in ground arith

  -- Each chunk is in one bucket, once: of the chunks with a property, whichever it is, the buckets of one
  -- or more targets hold together as many as the plan has.
  pub count_all-buckets :
      (chunks : List ChunkSpec) → 0 < n → count_all test (buckets n chunks) ≡ count_of test chunks
  unfolding buckets
  count_all-buckets chunks pos = count_all-buckets_below n chunks ∙ sum_below-count_of 0 chunks pos
