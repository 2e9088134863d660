-- ===== src/Cluster/State.antt =====
-- The state of `Membership` (src/cluster.rs) and the operations that set a field or list members.
-- The time of a call is an argument. The lock on `inner` makes each operation one step.
use blobcache.Prelude.{
  ℕ, List, [], ◌∷◌, Option, Bytes, Bool, true, false, ◌&&◌, if◌then◌else◌, max, map, not,
  ℕ_discrete,
}
use blobcache.Prelude.Assoc.{insert}

pub data NodeState : Type 0 where
  alive suspect dead : NodeState

abbrev pub rank : NodeState → ℕ
rank alive = 0
rank suspect = 1
rank dead = 2

abbrev pub is_alive : NodeState → Bool
is_alive alive = true
is_alive suspect = false
is_alive dead = false

pub record NodeInfo : Type 0 where
  pub id : Bytes
  pub transport_url : Bytes
  pub gossip_url : Bytes
  pub cluster_hash : Bytes
  pub ucx_worker_addr_b64 : Option Bytes
  pub last_seen_unix : ℕ
  pub state : NodeState
  pub incarnation : ℕ
  pub bloom_version : ℕ

-- The counters of `ClusterStats` that this file of the source increments.
pub record ClusterStats : Type 0 where
  pub config_mismatches : ℕ
  pub joins : ℕ
  pub failures : ℕ
  pub gossip_rounds : ℕ

pub record Membership : Type 0 where
  pub me_id : Bytes
  pub me_template : NodeInfo
  pub me_incarnation : ℕ
  pub me_bloom_version : ℕ
  pub members : List (Bytes × NodeInfo)
  pub stats : ClusterStats

-- Equality of texts.
unfoldable pub text_discrete : Discrete Bytes
text_discrete = hlevel ℕ_discrete

abbrev pub same_text : Bytes → Bytes → Bool
same_text a b = elim (text_discrete a b) [ yes _ ↦ true | no _ ↦ false ]

-- `Membership::new(me, stats)`
unfoldable pub new : NodeInfo → ClusterStats → Membership
new me stats = record {
  me_id = me.id;
  me_template = me;
  me_incarnation = max me.incarnation 1;
  me_bloom_version = me.bloom_version;
  members = insert text_discrete me.id me [];
  stats = stats;
}

unfoldable pub me_snapshot : ℕ → Membership → NodeInfo
me_snapshot now m = record m.me_template {
  incarnation = m.me_incarnation;
  bloom_version = m.me_bloom_version;
  last_seen_unix = now;
  state = alive;
}

unfoldable pub set_bloom_version : ℕ → Membership → Membership
set_bloom_version v m = record m { me_bloom_version = v }

unfoldable pub members_all : Membership → List NodeInfo
members_all m = map (λ e. e.1) m.members

-- The test of `members_alive`.
abbrev pub counts_alive : Membership → NodeInfo → Bool
counts_alive m n =
    is_alive n.state
    && not (same_text n.id m.me_id)
    && same_text n.cluster_hash m.me_template.cluster_hash

unfoldable pub keep_alive : Membership → List NodeInfo → List NodeInfo
keep_alive m [] = []
keep_alive m (n ∷ l) = if counts_alive m n then n ∷ keep_alive m l else keep_alive m l

unfoldable pub members_alive : Membership → List NodeInfo
unfolding keep_alive members_all
members_alive m = keep_alive m (members_all m)
