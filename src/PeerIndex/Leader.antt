-- ===== src/PeerIndex/Leader.antt =====
-- The leader that `hrw_top_id` (src/peerindex.rs) chooses is the same on every node.
use blobcache.Prelude.{ℕ, ◌≤◌, ◌≡◌, ap, sym, ◌∙◌, List, [], ◌∷◌, Bytes, true, map, arith}
use blobcache.Cache.Key.{ChunkKey}
use blobcache.Cluster.State.{NodeInfo, text_discrete}
use blobcache.PeerIndex.Bloom.{key_digest}
use blobcache.PeerIndex.State.{PeerIndex}
use blobcache.PeerIndex.Advertise.{mem}
use blobcache.PeerIndex.Rank.{hrw_score, best_of, hrw_top_id}

abbrev pub ids : List NodeInfo → List Bytes
ids l = map (λ n. n.id) l

module _ (score : Bytes → ℕ) where
  best_of_max :
      (l : List NodeInfo) (best a : Bytes)
      → mem text_discrete a (best ∷ ids l) ≡ true
      → score a ≤ score (best_of score l best)
  unfolding best_of mem
  best_of_max [] best a h = elim (text_discrete best a) [
    | yes same ↦ let e = ap score same in omega arith
    | no other ↦ ground arith
  ]
  best_of_max (n ∷ l) best a h = ground (
    arith,
    best_of_max l n.id n.id,
    best_of_max l n.id a,
    best_of_max l best best,
    best_of_max l best a,
  )

  best_of_among :
      (l : List NodeInfo) (best : Bytes)
      → mem text_discrete (best_of score l best) (best ∷ ids l) ≡ true
  unfolding best_of mem
  best_of_among [] best = ground arith
  best_of_among (n ∷ l) best = ground (arith, best_of_among l best, best_of_among l n.id)

-- Say the members that two nodes rank, themselves included, are the same, and no two of them have the
-- same score for the key. Then both nodes choose the same leader, which is one of the members, and no
-- member has a higher score.
pub hrw_top_id-agree :
    (sha256 : Bytes → Bytes) (key : ChunkKey) (alive alive' : List NodeInfo) (p p' : PeerIndex)
    → ((a : Bytes)
        → mem text_discrete a (p.me_id ∷ ids alive) ≡ mem text_discrete a (p'.me_id ∷ ids alive'))
    → ((a b : Bytes)
        → mem text_discrete a (p.me_id ∷ ids alive) ≡ true
        → mem text_discrete b (p.me_id ∷ ids alive) ≡ true
        → hrw_score sha256 a (key_digest sha256 key) ≡ hrw_score sha256 b (key_digest sha256 key)
        → a ≡ b)
    → (hrw_top_id sha256 key alive p ≡ hrw_top_id sha256 key alive' p')
      × (mem text_discrete (hrw_top_id sha256 key alive p) (p.me_id ∷ ids alive) ≡ true)
      × ((a : Bytes)
          → mem text_discrete a (p.me_id ∷ ids alive) ≡ true
          → hrw_score sha256 a (key_digest sha256 key)
            ≤ hrw_score sha256 (hrw_top_id sha256 key alive p) (key_digest sha256 key))
unfolding hrw_top_id
hrw_top_id-agree sha256 key alive alive' p p' same apart =
    let score : Bytes → ℕ = λ id. hrw_score sha256 id (key_digest sha256 key) in
    let a = best_of score alive p.me_id in
    let b = best_of score alive' p'.me_id in
    let a_in = best_of_among score alive p.me_id in
    let b_in = best_of_among score alive' p'.me_id in
    let b_here = same b ∙ b_in in
    let up = best_of_max score alive p.me_id b b_here in
    let down = best_of_max score alive' p'.me_id a (sym (same a) ∙ a_in) in
    (apart a b a_in b_here (omega arith), a_in, λ c h. best_of_max score alive p.me_id c h)
