-- ===== src/Hydrate/Plan.antt =====
-- The plan of `run_coordinator` in src/hydrate.rs: the chunks of the listed blobs, and who fetches which.
use Prim.Native.Nat.{zero, suc, min, ◌%◌}
use blobcache.Prelude.{
  ℕ, ◌+◌, ◌-◌, List, [], ◌∷◌, ◌++◌, Bytes, Bool, true, false, not, ltb, ◌==◌, ◌&&◌, Option, none,
  some, if◌then◌else◌, length, drop,
}
use blobcache.Cluster.State.{NodeInfo, same_text, is_alive}
use blobcache.Config.Fields.{MountConfig, is_empty}
use blobcache.Fetcher.State.{trim_end}

pub record ChunkSpec : Type 0 where
  pub blob : Bytes
  pub offset : ℕ
  pub len : ℕ

-- A blob of a listing.
pub record ListedBlob : Type 0 where
  pub name : Bytes
  pub content_length : ℕ

unfoldable pub starts_with : Bytes → Bytes → Bool
starts_with [] text = true
starts_with (c ∷ prefix) [] = false
starts_with (c ∷ prefix) (d ∷ text) = (c == d) && starts_with prefix text

-- `trim_start_matches('/')`
unfoldable pub trim_start : Bytes → Bytes
trim_start [] = []
trim_start (c ∷ text) = let rest = trim_start text in if c == b'/' then rest else c ∷ text

-- What is listed: the mount's prefix and the path.
unfoldable pub combined_prefix : MountConfig → Bytes → Bytes
unfolding trim_end starts_with
combined_prefix mount path =
    if is_empty mount.prefix
    then path
    else if is_empty path
    then mount.prefix
    else trim_end mount.prefix ++ (if starts_with (b'/' ∷ []) path then path else b'/' ∷ path)

-- The name of a blob below the mount.
unfoldable pub blob_path_of : MountConfig → Bytes → Bytes
unfolding starts_with trim_start
blob_path_of mount name =
    if not (is_empty mount.prefix) && starts_with mount.prefix name
    then trim_start (drop (length mount.prefix) name)
    else name

-- The `while off < b.content_length`, on fuel.
unfoldable pub chunks_from : ℕ → Bytes → ℕ → ℕ → ℕ → List ChunkSpec
chunks_from chunk_size blob content_length zero off = []
chunks_from chunk_size blob content_length (suc fuel) off =
    let len = min chunk_size (content_length - off) in
    let rest = chunks_from chunk_size blob content_length fuel (off + len) in
    if ltb off content_length then record { blob = blob; offset = off; len = len } ∷ rest else []

-- The fuel is the length of the blob, of which each round takes a byte or more.
unfoldable pub chunks_of : ℕ → MountConfig → ListedBlob → List ChunkSpec
unfolding chunks_from blob_path_of
chunks_of chunk_size mount b =
    chunks_from chunk_size (blob_path_of mount b.name) b.content_length b.content_length 0

unfoldable pub all_chunks : ℕ → MountConfig → List ListedBlob → List ChunkSpec
unfolding chunks_of
all_chunks chunk_size mount [] = []
all_chunks chunk_size mount (b ∷ listed) =
    let rest = all_chunks chunk_size mount listed in
    if b.content_length == 0 then rest else chunks_of chunk_size mount b ++ rest

-- Who fetches: this node first, then the others that are alive.
pub record Target : Type 0 where
  pub node_id : Bytes
  pub transport_url : Option Bytes
  pub ucx_worker_addr_b64 : Option Bytes

unfoldable pub find_worker : Bytes → List NodeInfo → Option Bytes
find_worker me_id [] = none
find_worker me_id (n ∷ nodes) =
    if same_text n.id me_id then n.ucx_worker_addr_b64 else find_worker me_id nodes

unfoldable pub other_targets : Bytes → List NodeInfo → List Target
other_targets me_id [] = []
other_targets me_id (n ∷ nodes) =
    let rest = other_targets me_id nodes in
    if is_alive n.state && not (same_text n.id me_id)
    then record {
      node_id = n.id;
      transport_url = some n.transport_url;
      ucx_worker_addr_b64 = n.ucx_worker_addr_b64;
    }
      ∷ rest
    else rest

unfoldable pub targets : Bytes → List NodeInfo → List Target
unfolding find_worker other_targets
targets me_id members =
    record {
      node_id = me_id;
      transport_url = none;
      ucx_worker_addr_b64 = find_worker me_id members;
    }
    ∷ other_targets me_id members

-- `buckets[i % n].push(c)` for each chunk `c`, the `i`-th: what the bucket `j` gets.
unfoldable pub bucket_from : ℕ → ℕ → ℕ → List ChunkSpec → List ChunkSpec
bucket_from n j i [] = []
bucket_from n j i (c ∷ chunks) =
    let rest = bucket_from n j (i + 1) chunks in if i % n == j then c ∷ rest else rest

unfoldable pub buckets_below : ℕ → ℕ → List ChunkSpec → List (List ChunkSpec)
unfolding bucket_from
buckets_below n zero chunks = []
buckets_below n (suc j) chunks = buckets_below n j chunks ++ bucket_from n j 0 chunks ∷ []

unfoldable pub buckets : ℕ → List ChunkSpec → List (List ChunkSpec)
unfolding buckets_below
buckets n chunks = buckets_below n n chunks
