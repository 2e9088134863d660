-- ===== src/PeerIndex/Rank.antt =====
-- Rendezvous hashing in `PeerIndex` (src/peerindex.rs): `hrw_top_id` and `rank_candidates`.
use blobcache.Prelude.{
  ℕ, List, [], ◌∷◌, ◌++◌, none, some, Bytes, ltb, leb, ◌&&◌, if◌then◌else◌, length, take,
}
use blobcache.Prelude.Assoc.{get}
use blobcache.Prelude.Endian.{from_le_bytes}
use blobcache.Cache.Key.{ChunkKey}
use blobcache.Cluster.State.{NodeInfo, text_discrete}
use blobcache.PeerIndex.Bloom.{contains, key_digest}
use blobcache.PeerIndex.State.{PeerIndex}

unfoldable pub hrw_score : (Bytes → Bytes) → Bytes → Bytes → ℕ
hrw_score sha256 peer_id digest = from_le_bytes (take 8 (sha256 (peer_id ++ digest)))

-- The loop of `hrw_top_id`, at the best so far.
unfoldable pub best_of : (Bytes → ℕ) → List NodeInfo → Bytes → Bytes
best_of score [] best_id = best_id
best_of score (n ∷ alive) best_id =
    best_of score alive (if ltb (score best_id) (score n.id) then n.id else best_id)

unfoldable pub hrw_top_id : (Bytes → Bytes) → ChunkKey → List NodeInfo → PeerIndex → Bytes
unfolding best_of key_digest
hrw_top_id sha256 key alive p =
    best_of (λ id. hrw_score sha256 id (key_digest sha256 key)) alive p.me_id

-- `sort_by_key` with reversed keys, which is stable: a node goes before the later ones that score
-- no higher.
unfoldable pub insert_ranked : (NodeInfo → ℕ) → NodeInfo → List NodeInfo → List NodeInfo
insert_ranked score n [] = n ∷ []
insert_ranked score n (k ∷ l) =
    let rest = insert_ranked score n l in if leb (score k) (score n) then n ∷ k ∷ l else k ∷ rest

unfoldable pub sort_ranked : (NodeInfo → ℕ) → List NodeInfo → List NodeInfo
unfolding insert_ranked
sort_ranked score [] = []
sort_ranked score (n ∷ l) = insert_ranked score n (sort_ranked score l)

pub record CandidateSet : Type 0 where
  pub yes_peers : List NodeInfo
  pub maybe_peers : List NodeInfo

-- One round of the loop of `rank_candidates`.
unfoldable pub admit : Bytes → ℕ → ℕ → PeerIndex → NodeInfo → CandidateSet → CandidateSet
admit digest max_yes max_maybe p n c = elim (get text_discrete n.id p.remote) [
  | some r ↦
      if contains digest r.bloom && ltb (length c.yes_peers) max_yes
      then record c { yes_peers = c.yes_peers ++ n ∷ [] }
      else c
  | none ↦
      if ltb (length c.maybe_peers) max_maybe
      then record c { maybe_peers = c.maybe_peers ++ n ∷ [] }
      else c
]

unfoldable pub admit_all : Bytes → ℕ → ℕ → PeerIndex → List NodeInfo → CandidateSet → CandidateSet
unfolding admit
admit_all digest max_yes max_maybe p [] c = c
admit_all digest max_yes max_maybe p (n ∷ l) c =
    admit_all digest max_yes max_maybe p l (admit digest max_yes max_maybe p n c)

unfoldable pub rank_candidates :
    (Bytes → Bytes) → ChunkKey → List NodeInfo → ℕ → ℕ → PeerIndex → CandidateSet
unfolding sort_ranked admit_all key_digest
rank_candidates sha256 key alive max_yes max_maybe p =
    let digest = key_digest sha256 key in
    admit_all digest max_yes max_maybe p (sort_ranked (λ n. hrw_score sha256 n.id digest) alive)
      (record { yes_peers = []; maybe_peers = [] })
