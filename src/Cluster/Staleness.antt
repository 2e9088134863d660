-- ===== src/Cluster/Staleness.antt =====
-- The Bloom version in the entry that `merge` of src/cluster.rs writes for this node itself, and what
-- a peer makes of it.
use blobcache.Prelude.{ℕ, ◌≡◌, ◌≢◌, sym, ◌∙◌, [], ◌∷◌, none, some, arith, refl, ap, false}
use blobcache.Prelude.Assoc.{get, get-insert}
use blobcache.Cluster.State.{
  NodeInfo, Membership, alive, text_discrete, me_snapshot, set_bloom_version,
}
use blobcache.Cluster.Merge.{
  Merged, merge, merge_all, merge_one, merge_self, merge_other, should_update, refute,
}
use blobcache.Cluster.Precedence.{merge_one_self, merge_one_other, merge_one-SameSelf}

-- This node's own entry after it merged a record about itself.
abbrev pub own_entry : ℕ → NodeInfo → Membership → NodeInfo
own_entry now n m = record m.me_template {
  incarnation = refute n m.me_incarnation;
  last_seen_unix = now;
  state = alive;
}

own_entry-merge :
    (now : ℕ) (n : NodeInfo) (m : Membership)
    → n.id ≡ m.me_id
    → merge now (n ∷ []) m ≡ merge_self now n m
unfolding merge merge_all
own_entry-merge now n m me = ap (λ s. s.0) (merge_one_self now n (m, []) me)

get-merge_self :
    (now : ℕ) (n : NodeInfo) (m : Membership)
    → get text_discrete m.me_id (merge_self now n m).members ≡ some (own_entry now n m)
unfolding merge_self
get-merge_self now n m =
    ground (arith, get-insert text_discrete m.me_id m.me_id (own_entry now n m) m.members)

first_sight :
    (n : NodeInfo) (s : Merged)
    → n.cluster_hash ≡ s.0.me_template.cluster_hash
    → get text_discrete n.id s.0.members ≡ none
    → get text_discrete n.id (merge_other n s).0.members ≡ some n
unfolding merge_other
first_sight n (m, updates) own missing =
    ground (arith, get-insert text_discrete n.id n.id n m.members)

no_better :
    (n e : NodeInfo) (s : Merged)
    → n.cluster_hash ≡ s.0.me_template.cluster_hash
    → get text_discrete n.id s.0.members ≡ some e
    → should_update n e ≡ false
    → (merge_other n s).0 ≡ s.0
unfolding merge_other
no_better n e (m, updates) own found worse = ground arith

-- Of two records of a node that is not known yet, the first stays if the second is no better.
first_stays :
    (now : ℕ) (e n : NodeInfo) (peer : Membership)
    → n.id ≡ e.id
    → e.id ≢ peer.me_id
    → e.cluster_hash ≡ peer.me_template.cluster_hash
    → n.cluster_hash ≡ e.cluster_hash
    → get text_discrete e.id peer.members ≡ none
    → should_update n e ≡ false
    → get text_discrete e.id (merge now (e ∷ n ∷ []) peer).members ≡ some e
unfolding merge merge_all
first_stays now e n peer same other own alike missing worse =
    let s : Merged = (peer, []) in
    let t = merge_other e s in
    let (me, template) = merge_one-SameSelf now e s in
    let first = merge_one_other now e s other in
    let me' : t.0.me_id ≡ peer.me_id = ap (λ r. r.0.me_id) (sym first) ∙ me in
    let template' : t.0.me_template ≡ peer.me_template =
      ap (λ r. r.0.me_template) (sym first) ∙ template in
    let found = first_sight e s own missing in
    let second = merge_one_other now n t (λ q. other (sym same ∙ q ∙ me')) in
    ap (λ r. get text_discrete e.id (merge_one now n r).0.members) first
    ∙ ap (λ r. get text_discrete e.id r.0.members) second
    ∙ ap (λ r. get text_discrete e.id r.members)
        (no_better n e t (alike ∙ own ∙ ap (λ i. i.cluster_hash) (sym template'))
          (ap (λ i. get text_discrete i t.0.members) same ∙ found) worse)
    ∙ found

snapshot_no_better :
    (now : ℕ) (n : NodeInfo) (m : Membership)
    → should_update (me_snapshot now (merge_self now n m)) (own_entry now n m) ≡ false
unfolding should_update me_snapshot merge_self
snapshot_no_better now n m = ground arith

snapshot_named :
    (now : ℕ) (n : NodeInfo) (m : Membership)
    → let p = me_snapshot now (merge_self now n m) in
      (p.id ≡ m.me_template.id)
      × (p.cluster_hash ≡ m.me_template.cluster_hash)
      × (p.bloom_version ≡ m.me_bloom_version)
unfolding me_snapshot merge_self
snapshot_named now n m = (refl, refl, refl)

-- Say a node sets its Bloom version and then merges a record about itself. Its own entry then has
-- the Bloom version of its start. A peer of the same cluster that did not know the node and merges
-- that entry and then the node's snapshot of the same time, as in an answer of `/cluster/sync`,
-- keeps the entry with the old version, whatever was set.
pub merge_keeps_start_version :
    (now later version : ℕ) (n : NodeInfo) (m peer : Membership)
    → n.id ≡ m.me_id
    → m.me_template.id ≡ m.me_id
    → m.me_template.cluster_hash ≡ peer.me_template.cluster_hash
    → m.me_id ≢ peer.me_id
    → get text_discrete m.me_id peer.members ≡ none
    → let m' = merge now (n ∷ []) (set_bloom_version version m) in
      (own : NodeInfo) × (get text_discrete m.me_id m'.members ≡ some own)
      × (get text_discrete m.me_id (merge later (own ∷ me_snapshot now m' ∷ []) peer).members
          ≡ some own)
      × (own.bloom_version ≡ m.me_template.bloom_version)
      × ((me_snapshot now m').bloom_version ≡ version)
unfolding set_bloom_version
merge_keeps_start_version now later version n m peer me named own other missing =
    let v = set_bloom_version version m in
    let e = own_entry now n v in
    let p = me_snapshot now (merge_self now n v) in
    let (id, hash, set) = snapshot_named now n v in
    rw (own_entry-merge now n v me) (
      e,
      get-merge_self now n v,
      ap (λ i. get text_discrete i (merge later (e ∷ p ∷ []) peer).members) (sym named)
          ∙ first_stays later e p peer id (λ q. other (sym named ∙ q)) own hash
              (ap (λ i. get text_discrete i peer.members) named ∙ missing)
              (snapshot_no_better now n v),
      refl,
      set,
    )
