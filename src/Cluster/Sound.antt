-- ===== src/Cluster/Sound.antt =====
-- What `Membership` (src/cluster.rs) keeps up: one cluster, records under their own ids, and this
-- node alive.
use blobcache.Prelude.{
  ℕ, ◌≡◌, ◌≢◌, refl, sym, subst, ◌⊎◌, ◌∙◌, ap, List, [], ◌∷◌, Bytes, All, arith, inl, inr,
}
use blobcache.Prelude.Assoc.{insert, remove, modify, Distinct, insert-Distinct, modify-Distinct}
use blobcache.Cluster.State.{alive, NodeInfo, ClusterStats, Membership, new, text_discrete}
use blobcache.Cluster.Merge.{
  Merged, merge_self, merge_other, merge_one, merge_all, merge, touch_peer,
}
use blobcache.Cluster.Precedence.{merge_one_self, merge_one_other, SameSelf}

-- An entry stands under its record's id, belongs to the cluster, and is alive if it is this node's.
abbrev pub IsMember : Membership → Bytes × NodeInfo → Type 0
IsMember m (id, n) =
    (n.id ≡ id) × (n.cluster_hash ≡ m.me_template.cluster_hash) × (id ≡ m.me_id → n.state ≡ alive)

pub record IsSound (m : Membership) : Type 0 where
  pub named : m.me_template.id ≡ m.me_id
  pub distinct : Distinct text_discrete m.members
  pub members : All (IsMember m) m.members

module _ (P : Bytes × NodeInfo → Type 0) where
  All-remove :
      (id : Bytes) (l : List (Bytes × NodeInfo)) → All P l → All P (remove text_discrete id l)
  unfolding remove
  All-remove id [] h = tt
  All-remove id ((j, n) ∷ l) h = ground (arith, All-remove id l h.1)

  All-insert :
      (id : Bytes) (n : NodeInfo) (l : List (Bytes × NodeInfo))
      → P (id, n)
      → All P l
      → All P (insert text_discrete id n l)
  unfolding insert
  All-insert id n l p h = (p, All-remove id l h)

-- A membership is sound if it is like a sound one but for its members, and those are in order.
transfer :
    (m m' : Membership)
    → SameSelf m m'
    → m.me_template.id ≡ m.me_id
    → Distinct text_discrete m'.members
    → All (IsMember m) m'.members
    → IsSound m'
transfer m m' (me, template) named d a = record {
  named = ap (λ t. t.id) template ∙ named ∙ sym me;
  distinct = d;
  members =
      subst
        (λ id.
          All
            (λ e.
              (e.1.id ≡ e.0)
              × (e.1.cluster_hash ≡ m'.me_template.cluster_hash)
              × (e.0 ≡ id → e.1.state ≡ alive))
            m'.members)
        (sym me)
        (subst
          (λ t.
            All
              (λ e.
                (e.1.id ≡ e.0)
                × (e.1.cluster_hash ≡ t.cluster_hash)
                × (e.0 ≡ m.me_id → e.1.state ≡ alive))
              m'.members)
          (sym template) a);
}

merge_self-IsSound :
    (now : ℕ) (n : NodeInfo) (m : Membership) → IsSound m → IsSound (merge_self now n m)
unfolding merge_self
merge_self-IsSound now n m s = record {
  named = s.named;
  distinct = insert-Distinct text_discrete m.me_id _ m.members s.distinct;
  members = All-insert (IsMember m) m.me_id _ m.members (s.named, refl, λ e. refl) s.members;
}

accept :
    (n : NodeInfo) (m m' : Membership)
    → SameSelf m m'
    → IsSound m
    → n.id ≢ m.me_id
    → n.cluster_hash ≡ m.me_template.cluster_hash
    → m'.members ≡ insert text_discrete n.id n m.members
    → IsSound m'
accept n m m' k s other same e =
    transfer m m' k s.named
      (subst (Distinct text_discrete) (sym e)
        (insert-Distinct text_discrete n.id n m.members s.distinct))
      (subst (All (IsMember m)) (sym e)
        (All-insert (IsMember m) n.id n m.members (refl, same, λ e. absurd (other e)) s.members))

merge_other_cases :
    (n : NodeInfo) (s : Merged)
    → ((merge_other n s).0.members ≡ s.0.members)
      ⊎ ((n.cluster_hash ≡ s.0.me_template.cluster_hash)
          × ((merge_other n s).0.members ≡ insert text_discrete n.id n s.0.members))
unfolding merge_other
merge_other_cases n (m, updates) = ground arith

merge_other-SameSelf : (n : NodeInfo) (s : Merged) → SameSelf s.0 (merge_other n s).0
unfolding merge_other
merge_other-SameSelf n (m, updates) = ground arith

merge_other-IsSound :
    (n : NodeInfo) (s : Merged) → n.id ≢ s.0.me_id → IsSound s.0 → IsSound (merge_other n s).0
merge_other-IsSound n s other v = elim (merge_other_cases n s) [
  | inl same ↦
      transfer s.0 (merge_other n s).0 (merge_other-SameSelf n s) v.named
        (subst (Distinct text_discrete) (sym same) v.distinct)
        (subst (All (IsMember s.0)) (sym same) v.members)
  | inr (own, added) ↦ accept n s.0 (merge_other n s).0 (merge_other-SameSelf n s) v other own added
]

merge_one-IsSound :
    (now : ℕ) (n : NodeInfo) (s : Merged) → IsSound s.0 → IsSound (merge_one now n s).0
merge_one-IsSound now n s v = elim (text_discrete n.id s.0.me_id) [
  | yes me ↦
      subst (λ r. IsSound r.0) (sym (merge_one_self now n s me)) (merge_self-IsSound now n s.0 v)
  | no other ↦
      subst (λ r. IsSound r.0) (sym (merge_one_other now n s other))
        (merge_other-IsSound n s other v)
]

merge_all-IsSound :
    (now : ℕ) (l : List NodeInfo) (s : Merged) → IsSound s.0 → IsSound (merge_all now l s).0
unfolding merge_all
merge_all-IsSound now [] s v = v
merge_all-IsSound now (n ∷ l) s v =
    merge_all-IsSound now l (merge_one now n s) (merge_one-IsSound now n s v)

pub merge-IsSound :
    (now : ℕ) (l : List NodeInfo) (m : Membership) → IsSound m → IsSound (merge now l m)
unfolding merge
merge-IsSound now l m v = merge_all-IsSound now l (m, []) v

modify-members :
    (m : Membership) (now : ℕ) (id : Bytes) (l : List (Bytes × NodeInfo))
    → All (IsMember m) l
    → All
        (IsMember m)
        (modify text_discrete id (λ n. record n { last_seen_unix = now; state = alive }) l)
unfolding modify
modify-members m now id [] a = tt
modify-members m now id ((j, n) ∷ l) a = ground (arith, modify-members m now id l a.1)

pub touch_peer-IsSound :
    (now : ℕ) (id : Bytes) (m : Membership) → IsSound m → IsSound (touch_peer now id m)
unfolding touch_peer
touch_peer-IsSound now id m v = record {
  named = v.named;
  distinct = modify-Distinct text_discrete id _ m.members v.distinct;
  members = modify-members m now id m.members v.members;
}

pub new-IsSound : (me : NodeInfo) (stats : ClusterStats) → me.state ≡ alive → IsSound (new me stats)
unfolding new
new-IsSound me stats up = record {
  named = refl;
  distinct = insert-Distinct text_discrete me.id me [] tt;
  members = All-insert _ me.id me [] (refl, refl, λ e. up) tt;
}
