-- ===== src/Fetcher/Tests.antt =====
-- The theorems on src/fetcher.rs at concrete inputs, and runs of the code.
use Prim.Native.Nat.{min}
use blobcache.Prelude.{
  ◌<◌, sym, ◌-◌, drop, take, ℕ, ◌≤◌, ◌≡◌, refl, subst, [], ◌∷◌, some, none, arith, Bytes, All, true,
  false, ℕ_discrete, ltb,
}
use blobcache.Prelude.Assoc.{get, insert, remove}
use blobcache.Prelude.Result.{Result, ok, err, other}
use blobcache.Cluster.State.{text_discrete}
use blobcache.Cache.Key.{ChunkKey, key_discrete, name_discrete}
use blobcache.Cache.State.{Os, read_file}
use blobcache.Cache.Read.{entry_size}
use blobcache.Cache.Sweep.{opened, sweep_files}
use blobcache.Config.Fields.{MountConfig}
use blobcache.PeerIndex.State
use blobcache.Fetcher.PeerLru.{
  Chunks, LruCache, IsLru, newest, front, behind, PeerLru, new_lru, get_lru, put_lru, put_unbounded,
  evict_over,
}
use blobcache.Fetcher.Accounted.{newest_within, held_bytes}
use blobcache.Fetcher.Bounded
use blobcache.Fetcher.Bounded.{IsBounded, chunks}
use blobcache.Fetcher.State.{Fetcher, Settings, World, real_path, spawn_insert, note_fetch_origin}
use blobcache.PeerIndex.Rank.{rank_candidates, admit_all, sort_ranked}
use blobcache.Cache.Read.{try_get, try_get_range}
use blobcache.Fetcher.Sources.{do_fetch, fetch_from_peers, try_peers, fetch_blob_direct, Complaint}
use blobcache.Fetcher.Chunk.{
  find_here, read_lru, read_cache, read_cache_or_evict, disarm, gone, fetch_chunk_inner,
  fetch_chunk_range_inner,
}
use blobcache.Fetcher.Faithful.{IsFaithful, PeersAreHonest}
use blobcache.Fetcher.Fetched.{IsRight, BlobsAreRight}
use blobcache.Fetcher.Parts.{take_all, IsPart}
use blobcache.Fetcher.Right
use blobcache.Fetcher.Range.{max_read_bytes, Piece, pieces, pieces_from, fetch_range}
use blobcache.Fetcher.Served
use blobcache.Fetcher.Composed
use blobcache.Prelude.Word.{u64_mod}
use blobcache.Fetcher.Prefetch.{maybe_trigger_prefetch, spawn_from, consider, note_read}
use blobcache.Fetcher.Ahead

program : Unit {0}
unfolding text_discrete key_discrete name_discrete ℕ_discrete get insert remove read_file
    sweep_files entry_size new_lru get_lru put_lru put_unbounded evict_over newest_within held_bytes
    maybe_trigger_prefetch spawn_from consider note_read fetch_chunk_range_inner fetch_chunk_inner
    find_here read_lru read_cache read_cache_or_evict disarm do_fetch fetch_from_peers try_peers
    fetch_blob_direct real_path spawn_insert note_fetch_origin try_get try_get_range rank_candidates
    admit_all sort_ranked pieces pieces_from
program = tt

-- An implementation of the interface: the list itself.
abbrev lists : LruCache Chunks
lists = record {
  unbounded = [];
  read = λ k c. (newest k (get key_discrete k c) c, get key_discrete k c);
  put = λ k b c. (newest k (some b) c, get key_discrete k c);
  pop_lru = λ c. (behind c, front c);
  clear = λ c. [];
  entries = λ c. c;
}

lists-IsLru : IsLru lists
lists-IsLru = record {
  starts_empty = refl;
  clear_empties = λ c. refl;
  read_finds = λ k c. refl;
  read_uses = λ k c. refl;
  put_replaces = λ k b c. refl;
  put_adds = λ k b c. refl;
  pops_front = λ c. refl;
  pop_leaves = λ c. refl;
}

abbrev key_at : ℕ → ChunkKey
key_at o = record { mount = b'm' ∷ []; blob = b'b' ∷ []; offset = o }

-- Five bytes of two chunks, with room for six.
abbrev kept : PeerLru Chunks
kept = record {
  inner = (key_at 0, 1 ∷ 2 ∷ 3 ∷ []) ∷ (key_at 3, 4 ∷ 5 ∷ []) ∷ [];
  bytes = 5;
  cap_bytes = 6;
}

kept-IsBounded : IsBounded lists kept
unfolding program
kept-IsBounded = record { counted = refl; within = omega arith; distinct = (refl, (refl, tt)) }

put_lru-newest_within_example :
    (chunks lists (put_lru lists (key_at 6) (7 ∷ 8 ∷ []) kept)
      ≡ (key_at 3, 4 ∷ 5 ∷ []) ∷ (key_at 6, 7 ∷ 8 ∷ []) ∷ [])
    × IsBounded lists (put_lru lists (key_at 6) (7 ∷ 8 ∷ []) kept)
    × (2 ≤ 6
        → (get_lru lists (key_at 6) (put_lru lists (key_at 6) (7 ∷ 8 ∷ []) kept)).1
          ≡ some (7 ∷ 8 ∷ []))
unfolding program
put_lru-newest_within_example =
    Bounded.put_lru-newest_within lists lists-IsLru (key_at 6) (7 ∷ 8 ∷ []) kept kept-IsBounded
      (omega arith)

-- Two chunks of five bytes, and room for four.
abbrev crowded : PeerLru Chunks
crowded = record {
  inner = (key_at 0, 1 ∷ 2 ∷ 3 ∷ []) ∷ (key_at 3, 4 ∷ 5 ∷ []) ∷ [];
  bytes = 5;
  cap_bytes = 4;
}

crowded_counted : 5 ≡ held_bytes crowded.inner
unfolding program
crowded_counted = refl

evict_over-ends_example :
    ltb (evict_over lists 2 crowded).cap_bytes (evict_over lists 2 crowded).bytes ≡ false
evict_over-ends_example =
    Bounded.evict_over-ends lists lists-IsLru 2 crowded (omega arith) crowded_counted

abbrev healthy : Os
healthy = record { readable = λ name. true; removable = λ name. true }

abbrev plain : Bytes → Bytes
plain b = b

abbrev quiet : Complaint → Bytes
quiet complaint = []

abbrev mount : MountConfig
mount = record {
  name = b'm' ∷ [];
  mountpoint = [];
  account = [];
  container = [];
  prefix = [];
  sas_token = none;
}

abbrev settings : Settings
settings = record {
  chunk_size = 3;
  peer_max_yes_attempts = 1;
  peer_max_maybe_attempts = 1;
  stampede_wait_ms = 0;
  mounts = [];
  prefetch_depth = 2;
  prefetch_threshold = 1;
  prefetch_origin_only = false;
  cache_on_peer_fetch = true;
}

-- A node alone, and a blob store whose chunks are all the same.
abbrev world : World
world = record {
  os = healthy;
  alive = [];
  is_rdma = false;
  decode_base64 = λ b. some b;
  peer_chunk = λ n addr key len wait_ms. err (other []);
  blob_range = λ m path offset len. ok (1 ∷ 2 ∷ 3 ∷ []);
}

abbrev fresh : Fetcher Chunks
fresh = record {
  cache = opened healthy 9 [];
  inflight = [];
  inflight_writes = [];
  insert_failures = [];
  seq_state = [];
  peer_lru = some (new_lru lists 6);
  peer_index = State.new [] 64;
  stats = [];
}

abbrev content : ChunkKey → Bytes
content key = 1 ∷ 2 ∷ 3 ∷ []

fresh-IsFaithful : IsFaithful lists lists-IsLru plain content fresh
unfolding program
fresh-IsFaithful = record { on_disk = λ os key b e. ground arith; in_memory = tt; in_writes = tt }

honest : PeersAreHonest lists lists-IsLru plain content quiet settings world
honest n addr key len wait_ms b e = ground arith

same_bytes : (b : Bytes) → Path (Result Bytes) (ok (1 ∷ 2 ∷ 3 ∷ [])) (ok b) → (1 ∷ 2 ∷ 3 ∷ []) ≡ b
same_bytes b e = ground arith

blobs : BlobsAreRight lists lists-IsLru plain content quiet settings world mount (b'b' ∷ [])
blobs offset b e = subst (IsPart content (key_at offset)) (same_bytes b e) refl

no_leader :
    Right.IsRightBroadcast lists lists-IsLru plain content quiet settings world (key_at 0) gone
no_leader b e = ground arith

fetch_chunk_inner-IsRight_example :
    IsRight lists lists-IsLru plain content quiet settings world
      (key_at 0)
      3
      (fetch_chunk_inner lists plain quiet settings world mount (b'b' ∷ []) 0 3 false gone fresh)
fetch_chunk_inner-IsRight_example =
    Right.fetch_chunk_inner-IsRight lists lists-IsLru plain content quiet settings world mount
      (b'b' ∷ []) 0 3 gone honest blobs no_leader false fresh fresh-IsFaithful

sliced :
    (fetch_chunk_range_inner lists plain quiet settings world mount
      (b'b' ∷ [])
      0
      1
      2
      3
      gone
      fresh).1
    ≡ ok (2 ∷ 3 ∷ [])
unfolding program
sliced = refl

fetch_chunk_range_inner-IsSlice_example : (2 ∷ 3 ∷ []) ≡ take 2 (drop 1 (content (key_at 0)))
fetch_chunk_range_inner-IsSlice_example =
    Right.fetch_chunk_range_inner-IsSlice lists lists-IsLru plain content quiet settings world mount
      (b'b' ∷ []) 0 3 gone honest blobs no_leader 1 2 fresh fresh-IsFaithful (2 ∷ 3 ∷ []) sliced

abbrev file : Bytes
file = 10 ∷ 11 ∷ 12 ∷ 13 ∷ 14 ∷ 15 ∷ 16 ∷ []

-- A node alone, and a blob store that has the file in chunks of three bytes.
abbrev part_at : ChunkKey → Bytes
part_at key = take (min 3 (7 - key.offset)) (drop key.offset file)

abbrev store : World
store = record world { blob_range = λ m path offset len. ok (part_at (key_at offset)) }

fresh_parts : IsFaithful lists lists-IsLru plain part_at fresh
unfolding program
fresh_parts = record { on_disk = λ os key b e. ground arith; in_memory = tt; in_writes = tt }

honest_parts : PeersAreHonest lists lists-IsLru plain part_at quiet settings store
honest_parts n addr key len wait_ms b e = ground arith

stored : (d b : Bytes) → Path (Result Bytes) (ok d) (ok b) → d ≡ b
stored d b e = ground arith

blobs_parts : BlobsAreRight lists lists-IsLru plain part_at quiet settings store mount (b'b' ∷ [])
blobs_parts offset b e =
    subst (IsPart part_at (key_at offset)) (stored (part_at (key_at offset)) b e)
      (sym (take_all (part_at (key_at offset))))

no_leaders :
    (p : Piece)
    → Right.IsRightBroadcast lists lists-IsLru plain part_at quiet settings store
        (key_at p.chunk)
        gone
no_leaders p b e = ground arith

room : 7 < u64_mod
room = omega arith

some_size : 0 < 3
some_size = omega arith

few : 4 ≤ max_read_bytes
few = omega arith

abbrev reads : Piece → Result Bytes
reads =
    Composed.read_piece lists lists-IsLru plain part_at quiet settings store mount (b'b' ∷ []) file
      (λ p. gone) (λ p. fresh)

fetch_range_of_chunks-IsRange_example :
    Served.IsRange file room 3 2 4 some_size reads
      (fetch_range settings reads quiet (b'm' ∷ []) (b'b' ∷ []) 2 4 7 fresh).1
fetch_range_of_chunks-IsRange_example =
    Composed.fetch_range_of_chunks-IsRange lists lists-IsLru plain part_at quiet settings store
      mount (b'b' ∷ []) file (λ p. gone) (λ p. fresh) 2 4 (λ o. refl) (λ p. fresh_parts)
      honest_parts blobs_parts no_leaders fresh room some_size few

-- Each slice of the range is fetched, so that the range is read.
slices_come :
    All (λ p. (b : Bytes) × (reads p ≡ ok b)) (pieces 3 2 (Served.stop file room 3 2 4 some_size) 7)
unfolding program
slices_come = ((12 ∷ [], refl), ((13 ∷ 14 ∷ 15 ∷ [], refl), tt))

range_read :
    (fetch_range settings reads quiet (b'm' ∷ []) (b'b' ∷ []) 2 4 7 fresh).1
    ≡ ok (12 ∷ 13 ∷ 14 ∷ 15 ∷ [])
range_read = fetch_range_of_chunks-IsRange_example.1 slices_come
