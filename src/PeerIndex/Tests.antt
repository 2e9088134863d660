-- ===== src/PeerIndex/Tests.antt =====
-- The theorems on src/peerindex.rs at concrete inputs, and runs of the code.
use blobcache.Prelude.{
  ℕ, ◌<◌, ◌≤◌, ◌≡◌, ◌≢◌, refl, [], ◌∷◌, ◌++◌, List, some, none, Bytes, Bool, true, false, ◌⊎◌,
  arith, ℕ_discrete, take, replicate, map, sym, ap, inl, inr, ◌∙◌,
}
use blobcache.Prelude.Assoc.{get, insert, remove}
use blobcache.Prelude.Endian.{to_le_bytes, from_le_bytes}
use blobcache.Cache.Key.{ChunkKey, key_discrete, preimage}
use blobcache.Cluster.State.{alive, NodeInfo, text_discrete}
use blobcache.PeerIndex.Bloom.{
  Bloom, contains, from_bytes, to_bytes, key_digest, set_bit, has_bit, IsFilter,
}
use blobcache.PeerIndex.Bloom
use blobcache.PeerIndex.Wire
use blobcache.PeerIndex.State.{
  PeerIndex, new, ingest_remote, local_snapshot, push_pending, publish_insert, swap_bloom,
  build_bloom, RemoteBloom,
}
use blobcache.PeerIndex.Rank.{hrw_score, best_of, hrw_top_id, rank_candidates}
use blobcache.PeerIndex.Advertise.{mem, here, next, stores, pushes, publishes, begins, swaps}
use blobcache.PeerIndex.Published
use blobcache.PeerIndex.Leader
use blobcache.PeerIndex.Leader.{ids}
use blobcache.PeerIndex.Choice
use blobcache.PeerIndex.Choice.{IsRanked, count_of, picked, claims, unknown}
use blobcache.PeerIndex.Ingest
use blobcache.PeerIndex.Ingest.{IsFrom}

program : Unit {0}
unfolding text_discrete ℕ_discrete get insert remove to_le_bytes from_le_bytes preimage key_discrete
    mem contains from_bytes to_bytes key_digest Bloom.insert Bloom.new new ingest_remote
    local_snapshot push_pending publish_insert swap_bloom build_bloom hrw_score best_of hrw_top_id
    rank_candidates
program = tt

-- A stand-in for the hash that keeps its input.
abbrev plain : Bytes → Bytes
plain b = b

abbrev key : ChunkKey
key = record { mount = b'm' ∷ []; blob = b'b' ∷ []; offset = 3 }

abbrev small : Bloom
small = Bloom.insert (key_digest plain key) (Bloom.new 100)

finds_key : contains (key_digest plain key) small ≡ true
unfolding program
finds_key = refl

misses_other : contains (replicate 32 7) small ≡ false
unfolding program
misses_other = refl

small-IsFilter : IsFilter small
unfolding program
small-IsFilter = record {
  enough = refl;
  least = omega arith;
  fits = omega arith;
  words = (omega arith, (omega arith, tt));
}

from_bytes-to_bytes_example : from_bytes (to_bytes small) ≡ some small
from_bytes-to_bytes_example = Wire.from_bytes-to_bytes small small-IsFilter

abbrev sent : Bytes
sent = 64 ∷ (replicate 7 0 ++ 5 ∷ replicate 7 0)

abbrev sent_bloom : Bloom
sent_bloom = record { bits = 5 ∷ []; m_bits = 64 }

to_bytes-from_bytes_example : (to_bytes sent_bloom ≡ sent) × IsFilter sent_bloom
unfolding program
to_bytes-from_bytes_example = Wire.to_bytes-from_bytes sent sent_bloom (ground arith) refl

ingest_remote-IsFrom_example :
    let (p', taken) = ingest_remote (b'b' ∷ []) 5 sent (new (b'a' ∷ []) 64) in
    ((from_bytes sent ≡ none) × (taken ≡ false) × (p' ≡ new (b'a' ∷ []) 64))
    ⊎ ((taken ≡ true)
        × ((r : RemoteBloom) × (get text_discrete (b'b' ∷ []) p'.remote ≡ some r) × IsFrom 5 sent r)
        × ((q : Bytes)
            → b'b' ∷ [] ≢ q
            → get text_discrete q p'.remote ≡ get text_discrete q (new (b'a' ∷ []) 64).remote))
ingest_remote-IsFrom_example =
    Ingest.ingest_remote-IsFrom (b'b' ∷ []) 5 sent (new (b'a' ∷ []) 64) (ground arith)

-- A chunk is stored and pushed while a rebuild is under way, which ends before the chunk is noted.
start-Reach-contains_example :
    let d = key_digest plain key in
    let pushed = push_pending d (new (b'a' ∷ []) 64) in
    let rebuilt = swap_bloom (build_bloom plain 64 []) pushed in
    (b : Bloom) × (from_bytes (local_snapshot (publish_insert d rebuilt)).1 ≡ some b)
    × (contains d b ≡ true)
unfolding program
start-Reach-contains_example =
    Published.start-Reach-contains plain (b'a' ∷ []) 64 key (omega arith)
      (next
        (next (next (next (next here (begins refl)) (stores key)) (pushes key refl))
          (swaps (build_bloom plain 64 []) refl))
        (publishes key refl))
      refl

abbrev peer : ℕ → NodeInfo
peer name = record {
  id = name ∷ [];
  transport_url = [];
  gossip_url = [];
  cluster_hash = [];
  ucx_worker_addr_b64 = none;
  last_seen_unix = 9;
  state = alive;
  incarnation = 1;
  bloom_version = 0;
}

abbrev index : PeerIndex
index = new (b'a' ∷ []) 64

rank_candidates-picked_example :
    let digest = key_digest plain key in
    let score : NodeInfo → ℕ = λ n. hrw_score plain n.id digest in
    let c = rank_candidates plain key (peer 7 ∷ peer 8 ∷ []) 1 1 index in
    (ranked : List NodeInfo) × IsRanked score ranked
    × ((f : NodeInfo → Bool) → count_of f ranked ≡ count_of f (peer 7 ∷ peer 8 ∷ []))
    × (c.yes_peers ≡ take 1 (picked (claims index digest) ranked))
    × (c.maybe_peers ≡ take 1 (picked (unknown index) ranked))
rank_candidates-picked_example =
    Choice.rank_candidates-picked plain key (peer 7 ∷ peer 8 ∷ []) 1 1 index

chosen :
    map (λ n. n.id) (rank_candidates plain key (peer 7 ∷ peer 8 ∷ []) 1 1 index).maybe_peers
    ≡ (8 ∷ []) ∷ []
unfolding program
chosen = refl

abbrev pair : List Bytes
pair = (b'a' ∷ []) ∷ (7 ∷ []) ∷ []

two_members : (a : Bytes) → mem text_discrete a pair ≡ true → (b'a' ∷ [] ≡ a) ⊎ (7 ∷ [] ≡ a)
unfolding mem
two_members a h = ground arith

swapped : (a : Bytes) → mem text_discrete a pair ≡ mem text_discrete a ((7 ∷ []) ∷ (b'a' ∷ []) ∷ [])
unfolding mem
swapped a = ground arith

abbrev score_of : Bytes → ℕ
score_of a = hrw_score plain a (key_digest plain key)

higher : score_of (7 ∷ []) < score_of (b'a' ∷ [])
unfolding program
higher = omega arith

apart :
    (a b : Bytes)
    → mem text_discrete a pair ≡ true
    → mem text_discrete b pair ≡ true
    → score_of a ≡ score_of b
    → a ≡ b
apart a b h k e = elim (two_members a h) [
  | inl p ↦ elim (two_members b k) [
    | inl q ↦ sym p ∙ q
    | inr q ↦
        let x = ap score_of p in let y = ap score_of q in let z = higher in absurd (omega arith)
  ]
  | inr p ↦ elim (two_members b k) [
    | inl q ↦
        let x = ap score_of p in let y = ap score_of q in let z = higher in absurd (omega arith)
    | inr q ↦ sym p ∙ q
  ]
]

-- Two nodes that know each other choose the same leader.
hrw_top_id-agree_example :
    (hrw_top_id plain key (peer 7 ∷ []) index
      ≡ hrw_top_id plain key (peer b'a' ∷ []) (new (7 ∷ []) 64))
    × (mem text_discrete (hrw_top_id plain key (peer 7 ∷ []) index) pair ≡ true)
    × ((a : Bytes)
        → mem text_discrete a pair ≡ true
        → score_of a ≤ score_of (hrw_top_id plain key (peer 7 ∷ []) index))
unfolding new
hrw_top_id-agree_example =
    Leader.hrw_top_id-agree plain key (peer 7 ∷ []) (peer b'a' ∷ []) index (new (7 ∷ []) 64) swapped
      apart
