-- ===== src/Hydrate/Tests.antt =====
-- The theorems on src/hydrate.rs at concrete inputs, and runs of the code.
use blobcache.Prelude.{ℕ, ◌≡◌, refl, [], ◌∷◌, none, arith, List, Bool, ◌==◌}
use blobcache.Config.Fields.{MountConfig}
use blobcache.Fetcher.State.{trim_end}
use blobcache.Hydrate.Plan.{
  ChunkSpec, ListedBlob, chunks_from, chunks_of, blob_path_of, starts_with, trim_start, bucket_from,
  buckets_below, buckets, combined_prefix,
}
use blobcache.Hydrate.Shared.{Tiles, count_of, count_all}
use blobcache.Hydrate.Shared

program : Unit {0}
unfolding chunks_from chunks_of blob_path_of starts_with trim_start bucket_from buckets_below
    buckets Tiles count_of count_all combined_prefix trim_end
program = tt

abbrev mount : MountConfig
mount = record {
  name = b'm' ∷ [];
  mountpoint = [];
  account = [];
  container = [];
  prefix = b'd' ∷ b'/' ∷ [];
  sas_token = none;
}

abbrev listed : ListedBlob
listed = record { name = b'd' ∷ b'/' ∷ b'x' ∷ []; content_length = 7 }

listing : combined_prefix mount (b'x' ∷ []) ≡ b'd' ∷ b'/' ∷ b'x' ∷ []
unfolding program
listing = refl

abbrev chunk_at : ℕ → ℕ → ChunkSpec
chunk_at offset len = record { blob = b'x' ∷ []; offset = offset; len = len }

abbrev plan : List ChunkSpec
plan = chunk_at 0 3 ∷ chunk_at 3 3 ∷ chunk_at 6 1 ∷ []

planned : chunks_of 3 mount listed ≡ plan
unfolding program
planned = refl

shared : buckets 2 plan ≡ (chunk_at 0 3 ∷ chunk_at 6 1 ∷ []) ∷ (chunk_at 3 3 ∷ []) ∷ []
unfolding program
shared = refl

chunks_of-Tiles_example : Tiles 3 (b'x' ∷ []) 0 7 plan
unfolding program
chunks_of-Tiles_example = Shared.chunks_of-Tiles 3 mount listed (omega arith)

abbrev is_last : ChunkSpec → Bool
is_last c = c.offset == 6

count_all-buckets_example : count_all is_last (buckets 2 plan) ≡ 1
unfolding program
count_all-buckets_example = Shared.count_all-buckets is_last 2 plan (omega arith)
