-- ===== src/Cluster/Reach.antt =====
-- The steps of `Membership` (src/cluster.rs) in any order, as its lock lets them happen: a gossip
-- server, the gossip loop and the fetches of peers share one membership.
use blobcache.Prelude.{ℕ, ◌≡◌, sym, subst, List, [], ◌∷◌, Bytes, All, arith}
use blobcache.Prelude.Assoc.{Distinct}
use blobcache.Cluster.State.{
  NodeInfo, ClusterStats, Membership, alive, text_discrete, new, set_bloom_version,
}
use blobcache.Cluster.Merge.{merge, touch_peer, sweep}
use blobcache.Cluster.Sound.{IsSound, IsMember, new-IsSound, merge-IsSound, touch_peer-IsSound}
use blobcache.Cluster.Sweep.{swept_members, aged, sweep_members-eq, get-swept_members}
use blobcache.Cluster.Gossip.{count_mismatch}
use blobcache.Cluster.Exchange.{count_mismatch-IsSound}

swept_members-Distinct :
    (now : ℕ) (me : Bytes) (l : List (Bytes × NodeInfo))
    → Distinct text_discrete l
    → Distinct text_discrete (swept_members now me l)
unfolding swept_members
swept_members-Distinct now me [] d = tt
swept_members-Distinct now me ((id, n) ∷ l) (fresh, d) =
    (ground (arith, get-swept_members now me id l), swept_members-Distinct now me l d)

swept_members-members :
    (now : ℕ) (m : Membership) (l : List (Bytes × NodeInfo))
    → All (IsMember m) l
    → All (IsMember m) (swept_members now m.me_id l)
unfolding swept_members aged
swept_members-members now m [] a = tt
swept_members-members now m ((id, n) ∷ l) a = ground (arith, swept_members-members now m l a.1)

sweep-IsSound : (now : ℕ) (m : Membership) → IsSound m → IsSound (sweep now m).0
unfolding sweep
sweep-IsSound now m v =
    let e = sym (sweep_members-eq now m.me_id m.members) in
    record {
      named = v.named;
      distinct =
          subst (Distinct text_discrete) e
            (swept_members-Distinct now m.me_id m.members v.distinct);
      members = subst (All (IsMember m)) e (swept_members-members now m m.members v.members);
    }

-- The steps, each in one hold of the lock. The handlers of a sync and of its answer are `counts`, or
-- `merges` and then `touches`, between which other steps may come.
pub data Step : Membership → Membership → Type 0 where
  merges : {m : Membership} (now : ℕ) (l : List NodeInfo) → Step m (merge now l m)
  touches : {m : Membership} (now : ℕ) (id : Bytes) → Step m (touch_peer now id m)
  sweeps : {m : Membership} (now : ℕ) → Step m (sweep now m).0
  versions : {m : Membership} (v : ℕ) → Step m (set_bloom_version v m)
  counts : {m : Membership} → Step m (count_mismatch m)

pub data Reach : Membership → Membership → Type 0 where
  here : {m : Membership} → Reach m m
  next : {a b c : Membership} → Reach a b → Step b c → Reach a c

Step-IsSound : {a b : Membership} → Step a b → IsSound a → IsSound b
unfolding set_bloom_version
Step-IsSound (merges {m} now l) v = merge-IsSound now l m v
Step-IsSound (touches {m} now id) v = touch_peer-IsSound now id m v
Step-IsSound (sweeps {m} now) v = sweep-IsSound now m v
Step-IsSound (versions {m} version) v = record {
  named = v.named;
  distinct = v.distinct;
  members = v.members;
}
Step-IsSound (counts {m}) v = count_mismatch-IsSound m v

Reach-IsSound : {a b : Membership} → IsSound a → Reach a b → IsSound b
Reach-IsSound v here = v
Reach-IsSound v (next r s) = Step-IsSound s (Reach-IsSound v r)

-- After `new` with a record that is alive, and any steps in any order, no id has two entries, each
-- entry stands under its record's id and belongs to this node's cluster, and this node's own entry
-- is alive.
pub new-Reach-IsSound :
    (me : NodeInfo) (stats : ClusterStats) {m : Membership}
    → me.state ≡ alive
    → Reach (new me stats) m
    → IsSound m
new-Reach-IsSound me stats up r = Reach-IsSound (new-IsSound me stats up) r
