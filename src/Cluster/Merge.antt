-- ===== src/Cluster/Merge.antt =====
-- `merge`, `touch_peer` and `sweep` of `Membership` (src/cluster.rs).
use blobcache.Prelude.{
  ℕ, ◌-◌, List, [], ◌∷◌, ◌++◌, Option, none, some, Bytes, Bool, true, false, ◌&&◌, ◌||◌,
  if◌then◌else◌, max, not, ◌==◌, ltb, ◌*◌, length,
}
use blobcache.Prelude.Assoc.{get, insert, modify}
use blobcache.Prelude.Word.{wrapping_add}
use blobcache.Cluster.State.{
  NodeState, alive, suspect, dead, rank, is_alive, NodeInfo, Membership, text_discrete, same_text,
}

-- What `merge` changes: the membership, and the peers for the address hook of the `ucx` build.
abbrev pub Merged : Type 0
Merged = Membership × List NodeInfo

-- `should_update`: a higher incarnation, then a fresher sighting, then a worse state.
unfoldable pub should_update : NodeInfo → NodeInfo → Bool
should_update n existing =
    ltb existing.incarnation n.incarnation
    || (n.incarnation == existing.incarnation && ltb existing.last_seen_unix n.last_seen_unix)
    || (n.incarnation == existing.incarnation
        && n.last_seen_unix == existing.last_seen_unix
        && ltb (rank existing.state) (rank n.state))

abbrev pub same_addr : Option Bytes → Option Bytes → Bool
same_addr none none = true
same_addr none (some b) = false
same_addr (some a) none = false
same_addr (some a) (some b) = same_text a b

-- The incarnation after a record about this node: raised above one that is newer, or that claims
-- this node down.
unfoldable pub refute : NodeInfo → ℕ → ℕ
refute n our_inc =
    if ltb our_inc n.incarnation || (n.incarnation == our_inc && not (is_alive n.state))
    then wrapping_add (max n.incarnation our_inc) 1
    else our_inc

-- A record about this node.
unfoldable pub merge_self : ℕ → NodeInfo → Membership → Membership
unfolding refute
merge_self now n m =
    let inc = refute n m.me_incarnation in
    record m {
      me_incarnation = inc;
      members =
          insert text_discrete m.me_id
            (record m.me_template { incarnation = inc; last_seen_unix = now; state = alive })
            m.members;
    }

-- A record about another node.
unfoldable pub merge_other : NodeInfo → Merged → Merged
unfolding should_update
merge_other n (m, updates) =
    if not (same_text n.cluster_hash m.me_template.cluster_hash)
    then (
      record m {
        stats = record m.stats { config_mismatches = wrapping_add m.stats.config_mismatches 1 };
      },
      updates,
    )
    else elim (get text_discrete n.id m.members) [
      | some existing ↦
          if should_update n existing
          then (
            record m { members = insert text_discrete n.id n m.members },
            if same_addr existing.ucx_worker_addr_b64 n.ucx_worker_addr_b64
                then updates
                else updates ++ n ∷ [],
          )
          else (m, updates)
      | none ↦ (
        record m {
          members = insert text_discrete n.id n m.members;
          stats = record m.stats { joins = wrapping_add m.stats.joins 1 };
        },
        updates ++ n ∷ [],
      )
    ]

-- One round of the loop of `merge`.
unfoldable pub merge_one : ℕ → NodeInfo → Merged → Merged
unfolding merge_self merge_other
merge_one now n (m, updates) =
    if same_text n.id m.me_id then (merge_self now n m, updates) else merge_other n (m, updates)

unfoldable pub merge_all : ℕ → List NodeInfo → Merged → Merged
unfolding merge_one
merge_all now [] s = s
merge_all now (n ∷ incoming) s = merge_all now incoming (merge_one now n s)

-- `merge(incoming)`
unfoldable pub merge : ℕ → List NodeInfo → Membership → Membership
unfolding merge_all
merge now incoming m = (merge_all now incoming (m, [])).0

unfoldable pub touch_peer : ℕ → Bytes → Membership → Membership
touch_peer now id m = record m {
  members =
      modify text_discrete id (λ n. record n { last_seen_unix = now; state = alive }) m.members;
}

abbrev pub heartbeat_timeout_secs : ℕ
heartbeat_timeout_secs = 30

-- The state of a member that was last seen `age` seconds ago.
unfoldable pub state_at : ℕ → NodeState
state_at age =
    if ltb (heartbeat_timeout_secs * 2) age
    then dead
    else if ltb heartbeat_timeout_secs age
    then suspect
    else alive

-- Members after a sweep, and the ids that turned dead in it.
abbrev pub Swept : Type 0
Swept = List (Bytes × NodeInfo) × List Bytes

unfoldable pub sweep_members : ℕ → Bytes → List (Bytes × NodeInfo) → Swept
unfolding state_at
sweep_members now me [] = ([], [])
sweep_members now me ((id, n) ∷ l) =
    let (swept, newly_dead) = sweep_members now me l in
    if same_text id me
    then ((id, n) ∷ swept, newly_dead)
    else let new_state = state_at (now - n.last_seen_unix) in
      if rank new_state == rank n.state then ((id, n) ∷ swept, newly_dead) else (
        (id, record n { state = new_state }) ∷ swept,
        if rank new_state == 2 then id ∷ newly_dead else newly_dead,
      )

-- `sweep()`, and the ids that `on_peer_dead` is called for.
unfoldable pub sweep : ℕ → Membership → Membership × List Bytes
unfolding sweep_members
sweep now m =
    let (swept, newly_dead) = sweep_members now m.me_id m.members in
    (
      record m {
        members = swept;
        stats = record m.stats { failures = wrapping_add m.stats.failures (length newly_dead) };
      },
      newly_dead,
    )
