-- ===== src/Cluster/Sweep.antt =====
-- `sweep` of `Membership` (src/cluster.rs) sets every other member's state from its age alone, and
-- reports each member that turns dead once.
use blobcache.Prelude.{
  ℕ, ◌*◌, ◌-◌, ◌≡◌, refl, List, [], ◌∷◌, Bytes, Option, none, some, Bool, true, false, not, ◌&&◌,
  arith, if◌then◌else◌, ◌==◌, ltb,
}
use mathlib.Core.Option
use blobcache.Prelude.Assoc.{get}
use blobcache.Cluster.State.{
  NodeState, alive, suspect, dead, rank, NodeInfo, text_discrete, same_text,
}
use blobcache.Cluster.Merge.{state_at, sweep_members}

-- A member after a sweep, by its age in seconds: this node stays as it is.
unfoldable pub aged : ℕ → Bytes → Bytes → NodeInfo → NodeInfo
aged now me id n =
    let age = now - n.last_seen_unix in
    if same_text id me
    then n
    else record n { state = if ltb 60 age then dead else if ltb 30 age then suspect else alive }

same_rank : (s t : NodeState) → rank s ≡ rank t → s ≡ t
same_rank alive alive e = refl
same_rank alive suspect e = ground arith
same_rank alive dead e = ground arith
same_rank suspect alive e = ground arith
same_rank suspect suspect e = refl
same_rank suspect dead e = ground arith
same_rank dead alive e = ground arith
same_rank dead suspect e = ground arith
same_rank dead dead e = refl

-- The members after a sweep, without the reports.
unfoldable pub swept_members : ℕ → Bytes → List (Bytes × NodeInfo) → List (Bytes × NodeInfo)
unfolding aged
swept_members now me [] = []
swept_members now me ((id, n) ∷ l) = (id, aged now me id n) ∷ swept_members now me l

pub sweep_members-eq :
    (now : ℕ) (me : Bytes) (l : List (Bytes × NodeInfo))
    → (sweep_members now me l).0 ≡ swept_members now me l
unfolding sweep_members swept_members aged state_at
sweep_members-eq now me [] = refl
sweep_members-eq now me ((id, n) ∷ l) =
    ground (arith, sweep_members-eq now me l, same_rank (state_at (now - n.last_seen_unix)) n.state)

pub get-swept_members :
    (now : ℕ) (me id : Bytes) (l : List (Bytes × NodeInfo))
    → get text_discrete id (swept_members now me l)
      ≡ Option.map (aged now me id) (get text_discrete id l)
unfolding get swept_members
get-swept_members now me id [] = refl
get-swept_members now me id ((j, n) ∷ l) = ground (arith, get-swept_members now me id l)

unfoldable pub listed : Bytes → List Bytes → Bool
listed id [] = false
listed id (j ∷ l) = if same_text j id then true else listed id l

-- Whether a sweep turns a member dead: it is another node, was not seen for more than twice the
-- timeout, and was not dead before.
unfoldable pub dies : ℕ → Bytes → Bytes → Option NodeInfo → Bool
dies now me id none = false
dies now me id (some n) =
    not (same_text id me) && ltb (2 * 30) (now - n.last_seen_unix) && not (rank n.state == 2)
