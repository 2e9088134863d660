-- ===== src/PeerIndex/Choice.antt =====
-- The peers that `rank_candidates` (src/peerindex.rs) chooses, within its budgets.
use blobcache.Prelude.{
  ℕ, zero, suc, ◌+◌, ◌≤◌, ◌≡◌, refl, ap, sym, ◌∙◌, subst, List, [], ◌∷◌, ◌++◌, none, some, Bytes,
  Bool, true, false, ltb, inl, inr, if◌then◌else◌, length, take, arith, All, length-append,
  append_assoc, Bool-cases, ◌&&◌,
}
use blobcache.Prelude.Assoc.{get}
use blobcache.Cache.Key.{ChunkKey}
use blobcache.Cluster.State.{NodeInfo, text_discrete}
use blobcache.PeerIndex.Bloom.{contains, key_digest}
use blobcache.PeerIndex.State.{PeerIndex}
use blobcache.PeerIndex.Rank.{
  hrw_score, insert_ranked, sort_ranked, CandidateSet, admit, admit_all, rank_candidates,
}

module _ (score : NodeInfo → ℕ) where
  abbrev pub IsRanked : List NodeInfo → Type 0
  IsRanked [] = Unit
  IsRanked (n ∷ l) = All (λ k. score k ≤ score n) l × IsRanked l

  insert_ranked-All :
      (n : NodeInfo) (l : List NodeInfo) (bound : ℕ)
      → score n ≤ bound
      → All (λ k. score k ≤ bound) l
      → All (λ k. score k ≤ bound) (insert_ranked score n l)
  unfolding insert_ranked
  insert_ranked-All n [] bound h a = (h, tt)
  insert_ranked-All n (k ∷ l) bound h a = ground (arith, insert_ranked-All n l bound h a.1)

  All-mono :
      (l : List NodeInfo) (low high : ℕ)
      → low ≤ high
      → All (λ k. score k ≤ low) l
      → All (λ k. score k ≤ high) l
  All-mono [] low high h a = tt
  All-mono (n ∷ l) low high h a = (omega arith, All-mono l low high h a.1)

  insert_ranked-IsRanked :
      (n : NodeInfo) (l : List NodeInfo) → IsRanked l → IsRanked (insert_ranked score n l)
  unfolding insert_ranked
  insert_ranked-IsRanked n [] r = (tt, tt)
  insert_ranked-IsRanked n (k ∷ l) r = ground (
    arith,
    insert_ranked-IsRanked n l r.1,
    insert_ranked-All n l (score k),
    All-mono l (score k) (score n),
  )

  sort_ranked-IsRanked : (l : List NodeInfo) → IsRanked (sort_ranked score l)
  unfolding sort_ranked
  sort_ranked-IsRanked [] = tt
  sort_ranked-IsRanked (n ∷ l) =
      insert_ranked-IsRanked n (sort_ranked score l) (sort_ranked-IsRanked l)

unfoldable pub count_of : (NodeInfo → Bool) → List NodeInfo → ℕ
count_of f [] = 0
count_of f (n ∷ l) = (if f n then 1 else 0) + count_of f l

module _ (score : NodeInfo → ℕ) (f : NodeInfo → Bool) where
  count_of-insert_ranked :
      (n : NodeInfo) (l : List NodeInfo) → count_of f (insert_ranked score n l) ≡ count_of f (n ∷ l)
  unfolding count_of insert_ranked
  count_of-insert_ranked n [] = refl
  count_of-insert_ranked n (k ∷ l) = ground (arith, count_of-insert_ranked n l)

  count_of-sort_ranked : (l : List NodeInfo) → count_of f (sort_ranked score l) ≡ count_of f l
  unfolding count_of sort_ranked
  count_of-sort_ranked [] = refl
  count_of-sort_ranked (n ∷ l) =
      ground (arith, count_of-insert_ranked n (sort_ranked score l), count_of-sort_ranked l)

-- What a peer is to a digest: its filter has the digest, or there is no filter of it.
abbrev pub claims : PeerIndex → Bytes → NodeInfo → Bool
claims p digest n = elim (get text_discrete n.id p.remote) [
  | none ↦ false
  | some r ↦ contains digest r.bloom
]

abbrev pub unknown : PeerIndex → NodeInfo → Bool
unknown p n = elim (get text_discrete n.id p.remote) [ none ↦ true | some r ↦ false ]

unfoldable pub picked : (NodeInfo → Bool) → List NodeInfo → List NodeInfo
picked f [] = []
picked f (n ∷ l) = if f n then n ∷ picked f l else picked f l

-- A list with room in its budget takes one more that is wanted.
abbrev grow : ℕ → Bool → NodeInfo → List NodeInfo → List NodeInfo
grow m wanted n l = if wanted && ltb (length l) m then l ++ n ∷ [] else l

take_full :
    {A : Type 0} (m : ℕ) (l r r' : List A) → m ≤ length l → take m (l ++ r) ≡ take m (l ++ r')
take_full zero l r r' h = refl
take_full (suc m) [] r r' h = absurd (omega arith)
take_full (suc m) (x ∷ l) r r' h = ap (◌∷◌ x) (take_full m l r r' (omega arith))

take_all : {A : Type 0} (m : ℕ) (l : List A) → length l ≤ m → take m (l ++ []) ≡ l
take_all zero [] h = refl
take_all (suc m) [] h = refl
take_all zero (x ∷ l) h = absurd (omega arith)
take_all (suc m) (x ∷ l) h = ap (◌∷◌ x) (take_all m l (omega arith))

take-grow :
    (m : ℕ) (wanted : Bool) (n : NodeInfo) (l r : List NodeInfo)
    → length l ≤ m
    → (take m (grow m wanted n l ++ r) ≡ take m (l ++ (if wanted then n ∷ r else r)))
      × (length (grow m wanted n l) ≤ m)
take-grow m false n l r h = (refl, h)
take-grow m true n l r h = elim (Bool-cases (ltb (length l) m)) [
  | inl room ↦
      rw (room) (ap (take m) (append_assoc l (n ∷ []) r), ground (arith, length-append l (n ∷ [])))
  | inr full ↦ rw (full) (take_full m l r (n ∷ r) (ground arith), h)
]

module _ (digest : Bytes) (max_yes max_maybe : ℕ) (p : PeerIndex) where
  admit-grow :
      (n : NodeInfo) (c : CandidateSet)
      → ((admit digest max_yes max_maybe p n c).yes_peers
          ≡ grow max_yes (claims p digest n) n c.yes_peers)
        × ((admit digest max_yes max_maybe p n c).maybe_peers
            ≡ grow max_maybe (unknown p n) n c.maybe_peers)
  unfolding admit
  admit-grow n c = ground arith

  admit_all-picked :
      (l : List NodeInfo) (c : CandidateSet)
      → length c.yes_peers ≤ max_yes
      → length c.maybe_peers ≤ max_maybe
      → let r = admit_all digest max_yes max_maybe p l c in
        (r.yes_peers ≡ take max_yes (c.yes_peers ++ picked (claims p digest) l))
        × (r.maybe_peers ≡ take max_maybe (c.maybe_peers ++ picked (unknown p) l))
  unfolding admit_all picked
  admit_all-picked [] c h k =
      (sym (take_all max_yes c.yes_peers h), sym (take_all max_maybe c.maybe_peers k))
  admit_all-picked (n ∷ l) c h k =
      let (first, second) = admit-grow n c in
      let (yes_step, yes_room) =
        take-grow max_yes (claims p digest n) n c.yes_peers (picked (claims p digest) l) h in
      let (maybe_step, maybe_room) =
        take-grow max_maybe (unknown p n) n c.maybe_peers (picked (unknown p) l) k in
      let (yes_rest, maybe_rest) =
        admit_all-picked l (admit digest max_yes max_maybe p n c)
          (subst (λ x. length x ≤ max_yes) (sym first) yes_room)
          (subst (λ x. length x ≤ max_maybe) (sym second) maybe_room) in
      (
        yes_rest ∙ ap (λ x. take max_yes (x ++ picked (claims p digest) l)) first ∙ yes_step,
        maybe_rest ∙ ap (λ x. take max_maybe (x ++ picked (unknown p) l)) second ∙ maybe_step,
      )

-- The candidates are taken from the live peers in falling order of score, each of them as often as it
-- was given: the first `max_yes` whose filter has the chunk, and the first `max_maybe` without a filter.
pub rank_candidates-picked :
    (sha256 : Bytes → Bytes) (key : ChunkKey) (alive : List NodeInfo) (max_yes max_maybe : ℕ)
    (p : PeerIndex)
    → let digest = key_digest sha256 key in
      let score : NodeInfo → ℕ = λ n. hrw_score sha256 n.id digest in
      let c = rank_candidates sha256 key alive max_yes max_maybe p in
      (ranked : List NodeInfo) × IsRanked score ranked
      × ((f : NodeInfo → Bool) → count_of f ranked ≡ count_of f alive)
      × (c.yes_peers ≡ take max_yes (picked (claims p digest) ranked))
      × (c.maybe_peers ≡ take max_maybe (picked (unknown p) ranked))
unfolding rank_candidates
rank_candidates-picked sha256 key alive max_yes max_maybe p =
    let digest = key_digest sha256 key in
    let score : NodeInfo → ℕ = λ n. hrw_score sha256 n.id digest in
    let ranked = sort_ranked score alive in
    let (ys, ms) =
      admit_all-picked digest max_yes max_maybe p ranked
        (record { yes_peers = []; maybe_peers = [] }) (omega arith) (omega arith) in
    (ranked, sort_ranked-IsRanked score alive, λ f. count_of-sort_ranked score f alive, ys, ms)
