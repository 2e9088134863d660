-- ===== src/Cluster/Refutation.antt =====
-- How `merge` of `Membership` (src/cluster.rs) refutes the claims that this node is down.
use blobcache.Prelude.{
  ℕ, ◌+◌, ◌<◌, ◌≤◌, ◌≡◌, ◌≢◌, refl, sym, Bytes, subst, List, [], ◌∷◌, length, All, true, false, inl,
  inr, ◌⊎◌, arith,
}
use blobcache.Prelude.Word.{u64_mod}
use blobcache.Cluster.State.{
  NodeState, alive, suspect, dead, is_alive, NodeInfo, Membership, me_snapshot, text_discrete,
}
use blobcache.Cluster.Merge.{
  Merged, should_update, refute, merge_self, merge_other, merge_one, merge_all, merge,
}
use blobcache.Cluster.Precedence.{merge_one_self, merge_one_other, merge_one-SameSelf}

-- The incarnation of this node leaves behind one that is claimed for it.
abbrev pub Refutes : ℕ → Bytes → NodeInfo → Type 0
Refutes inc me n = n.id ≡ me → (n.incarnation ≤ inc) × (n.state ≢ alive → n.incarnation < inc)

state_cases : (s : NodeState) → (s ≡ alive) ⊎ (is_alive s ≡ false)
state_cases alive = inl refl
state_cases suspect = inr refl
state_cases dead = inr refl

-- The incarnation only rises, by at most one a record, and leaves the record behind.
abbrev Raised : ℕ → ℕ → ℕ → Type 0
Raised before after bound = (before ≤ after) × (after ≤ bound)

refute_bounds :
    (n : NodeInfo) (inc bound : ℕ)
    → inc ≤ bound
    → n.incarnation ≤ bound
    → bound + 1 < u64_mod
    → Raised inc (refute n inc) (bound + 1) × (n.incarnation ≤ refute n inc)
unfolding refute
refute_bounds n inc bound h k room = ground arith

refute_down :
    (n : NodeInfo) (inc bound : ℕ)
    → inc ≤ bound
    → n.incarnation ≤ bound
    → bound + 1 < u64_mod
    → n.state ≢ alive
    → n.incarnation < refute n inc
unfolding refute
refute_down n inc bound h k room down = elim (state_cases n.state) [
  | inl up ↦ absurd (down up)
  | inr e ↦ ground arith
]

merge_other-incarnation :
    (n : NodeInfo) (s : Merged) → (merge_other n s).0.me_incarnation ≡ s.0.me_incarnation
unfolding merge_other
merge_other-incarnation n (m, updates) = ground arith

merge_self-incarnation :
    (now : ℕ) (n : NodeInfo) (m : Membership)
    → (merge_self now n m).me_incarnation ≡ refute n m.me_incarnation
unfolding merge_self
merge_self-incarnation now n m = refl

-- What a record may say of this node so that its incarnation stays within bounds.
abbrev pub Within : ℕ → Bytes → NodeInfo → Type 0
Within bound me n = n.id ≡ me → n.incarnation ≤ bound

merge_one-incarnation :
    (now : ℕ) (n : NodeInfo) (s : Merged) (bound : ℕ)
    → s.0.me_incarnation ≤ bound
    → Within bound s.0.me_id n
    → bound + 1 < u64_mod
    → Raised s.0.me_incarnation (merge_one now n s).0.me_incarnation (bound + 1)
      × Refutes (merge_one now n s).0.me_incarnation s.0.me_id n
merge_one-incarnation now n s bound h k room = elim (text_discrete n.id s.0.me_id) [
  | yes me ↦
      rw (merge_one_self now n s me, merge_self-incarnation now n s.0)
        (let (raised, above) = refute_bounds n s.0.me_incarnation bound h (k me) room in
          (raised, λ e. (above, refute_down n s.0.me_incarnation bound h (k me) room)))
  | no other ↦
      rw (merge_one_other now n s other, merge_other-incarnation n s)
        ((omega arith, omega arith), λ e. absurd (other e))
]

Refutes-mono :
    (low high : ℕ) (me : Bytes) (n : NodeInfo) → low ≤ high → Refutes low me n → Refutes high me n
Refutes-mono low high me n h r e =
    let (above, beyond) = r e in (omega arith, λ down. let b = beyond down in omega arith)

Within-mono :
    (low high : ℕ) (me : Bytes) (l : List NodeInfo)
    → low ≤ high
    → All (Within low me) l
    → All (Within high me) l
Within-mono low high me [] h a = tt
Within-mono low high me (n ∷ l) h (w, a) =
    (λ e. let below = w e in omega arith, Within-mono low high me l h a)

merge_all-incarnation :
    (now : ℕ) (l : List NodeInfo) (s : Merged) (bound : ℕ)
    → s.0.me_incarnation ≤ bound
    → All (Within bound s.0.me_id) l
    → bound + length l < u64_mod
    → Raised s.0.me_incarnation (merge_all now l s).0.me_incarnation (bound + length l)
      × All (Refutes (merge_all now l s).0.me_incarnation s.0.me_id) l
unfolding merge_all
merge_all-incarnation now [] s bound h a room = ((omega arith, omega arith), tt)
merge_all-incarnation now (n ∷ l) s bound h (w, a) room =
    let t = merge_one now n s in
    let (me, template) = merge_one-SameSelf now n s in
    let ((up, low), refuted) = merge_one-incarnation now n s bound h w (omega arith) in
    let a' =
      subst (λ id. All (Within (bound + 1) id) l) (sym me)
        (Within-mono bound (bound + 1) s.0.me_id l (omega arith) a) in
    let ((up', low'), others) = merge_all-incarnation now l t (bound + 1) low a' (omega arith) in
    (
      (omega arith, omega arith),
      (
        Refutes-mono t.0.me_incarnation (merge_all now l t).0.me_incarnation s.0.me_id n up'
            refuted,
        subst (λ id. All (Refutes (merge_all now l t).0.me_incarnation id) l) me others,
      ),
    )

-- A node that holds a record with a lower incarnation takes the snapshot instead.
abbrev pub Corrects : NodeInfo → Bytes → NodeInfo → Type 0
Corrects snapshot me n = n.id ≡ me → n.state ≢ alive → should_update snapshot n ≡ true

corrects :
    (t : ℕ) (m : Membership) (me : Bytes) (l : List NodeInfo)
    → All (Refutes m.me_incarnation me) l
    → All (Corrects (me_snapshot t m) me) l
unfolding me_snapshot should_update
corrects t m me [] a = tt
corrects t m me (n ∷ l) (r, a) =
    (λ e down. let beyond = (r e).1 down in ground arith, corrects t m me l a)

-- After a merge this node's incarnation is at least what it was, and its next snapshot replaces, at
-- any node and at any time, each merged record that claims this node is not alive. The condition is
-- that incarnations stay below the bound of `u64` for as many steps as there are records.
pub merge_refutes :
    (now t bound : ℕ) (l : List NodeInfo) (m : Membership)
    → m.me_incarnation ≤ bound
    → All (Within bound m.me_id) l
    → bound + length l < u64_mod
    → (m.me_incarnation ≤ (merge now l m).me_incarnation)
      × All (Corrects (me_snapshot t (merge now l m)) m.me_id) l
unfolding merge
merge_refutes now t bound l m h a room =
    let ((up, low), refuted) = merge_all-incarnation now l (m, []) bound h a room in
    (up, corrects t (merge now l m) m.me_id l refuted)
