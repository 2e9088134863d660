-- ===== src/Cluster/Tests.antt =====
-- The theorems on src/cluster.rs at concrete inputs, and runs of the code.
use mathlib.Core.Option
use blobcache.Prelude.{
  ℕ, ◌≤◌, ◌≡◌, refl, [], ◌∷◌, List, some, none, arith, ℕ_discrete, length, All, map, if◌then◌else◌,
  leb, ◌⊎◌,
}
use blobcache.Prelude.Assoc.{get, remove, insert, modify}
use blobcache.Prelude.Result.{BcError, ok, err}
use blobcache.Cluster.State.{
  NodeState, alive, suspect, dead, NodeInfo, ClusterStats, Membership, text_discrete, new,
  me_snapshot, set_bloom_version, members_alive, members_all, keep_alive,
}
use blobcache.Cluster.Merge.{
  merge, merge_all, merge_one, merge_self, merge_other, should_update, refute, touch_peer, sweep,
  sweep_members, state_at,
}
use blobcache.Cluster.Records
use blobcache.Cluster.Precedence.{precedes}
use blobcache.Cluster.Records.{held, better, offered, told, NoTie}
use blobcache.Cluster.Sound.{IsSound}
use blobcache.Cluster.Refutation
use blobcache.Cluster.Refutation.{Corrects}
use blobcache.Cluster.Sweep
use blobcache.Cluster.Gossip.{
  GossipPayload, Json, Clock, Response, handle_sync, handle_reply, payload_of,
}
use blobcache.Cluster.Exchange
use blobcache.Cluster.Exchange.{IsAnswered, IsFresh, IsTaken}
use blobcache.Cluster.Staleness
use blobcache.Cluster.Reach
use blobcache.Cluster.Reach.{here, next, merges, sweeps}

program : Unit {0}
unfolding text_discrete ℕ_discrete get remove insert modify new me_snapshot set_bloom_version merge
    merge_all merge_one merge_self merge_other should_update refute touch_peer sweep sweep_members
    state_at members_alive members_all keep_alive handle_sync handle_reply
program = tt

abbrev node : ℕ → ℕ → ℕ → NodeState → NodeInfo
node name seen_at inc state = record {
  id = name ∷ [];
  transport_url = [];
  gossip_url = name ∷ b'/' ∷ [];
  cluster_hash = b'h' ∷ [];
  ucx_worker_addr_b64 = none;
  last_seen_unix = seen_at;
  state = state;
  incarnation = inc;
  bloom_version = 0;
}

abbrev no_stats : ClusterStats
no_stats = record { config_mismatches = 0; joins = 0; failures = 0; gossip_rounds = 0 }

abbrev start : Membership
start = new (node b'a' 100 1 alive) no_stats

abbrev news : List NodeInfo
news = node b'b' 90 1 alive ∷ node b'a' 95 4 dead ∷ node b'c' 30 2 alive ∷ []

-- The claim that this node is dead is refuted, and the others join.
refutes_claim : (merge 101 news start).me_incarnation ≡ 5
unfolding program
refutes_claim = refl

joined : (merge 101 news start).stats.joins ≡ 2
unfolding program
joined = refl

-- One peer was not seen for over 60 seconds.
sweep_reports : (sweep 101 (merge 101 news start)).1 ≡ (b'c' ∷ []) ∷ []
unfolding program
sweep_reports = refl

alive_after_sweep :
    map (λ n. n.id) (members_alive (sweep 101 (merge 101 news start)).0) ≡ (b'b' ∷ []) ∷ []
unfolding program
alive_after_sweep = refl

abbrev stub : Json
stub = record {
  to_vec = λ p. p.from.id;
  from_slice = λ b.
      if leb (length b) 1
      then some (record { from = node b'b' 99 3 alive; members = news })
      else none;
  error = λ b. b;
}

abbrev times : Clock
times = record { at_merge = 101; at_touch = 102; at_snapshot = 103 }

too_short : (handle_sync stub times (1 ∷ 2 ∷ []) start).1.status ≡ 400
unfolding program
too_short = refl

start-IsSound : IsSound start
start-IsSound = Reach.new-Reach-IsSound (node b'a' 100 1 alive) no_stats refl here

new-Reach-IsSound_example : IsSound (sweep 101 (merge 101 news start)).0
new-Reach-IsSound_example =
    Reach.new-Reach-IsSound (node b'a' 100 1 alive) no_stats refl
      (next (next here (merges 101 news)) (sweeps 101))

held-merge_example :
    held (b'b' ∷ []) (merge 101 news start)
    ≡ better (held (b'b' ∷ []) start) (told (b'h' ∷ []) (b'b' ∷ []) news)
unfolding new
held-merge_example = Records.held-merge 101 news start (b'b' ∷ []) (λ e. ground arith)

abbrev later_news : List NodeInfo
later_news = node b'b' 90 1 suspect ∷ node b'd' 99 1 alive ∷ []

-- The two rounds differ in the state that they give to the node.
no_tie : NoTie (told (b'h' ∷ []) (b'b' ∷ []) news) (told (b'h' ∷ []) (b'b' ∷ []) later_news)
unfolding program told offered better precedes
no_tie x y h k e = ground arith

merge_gossip_order_example :
    (held (b'b' ∷ []) (merge 102 later_news (merge 101 news start))
      ≡ held (b'b' ∷ []) (merge 104 news (merge 103 later_news start)))
    × (held (b'b' ∷ []) (merge 104 news (merge 101 news start))
        ≡ held (b'b' ∷ []) (merge 101 news start))
unfolding new
merge_gossip_order_example =
    Records.merge_gossip_order 101 102 104 103 news later_news start (b'b' ∷ []) (λ e. ground arith)
      no_tie

merge_refutes_example :
    (1 ≤ (merge 101 news start).me_incarnation)
    × All (Corrects (me_snapshot 200 (merge 101 news start)) (b'a' ∷ [])) news
unfolding new
merge_refutes_example =
    Refutation.merge_refutes 101 200 4 news start (omega arith)
      (λ e. omega arith, (λ e. omega arith, (λ e. omega arith, tt))) (omega arith)

handle_sync-IsSound_example : IsAnswered start (handle_sync stub times (1 ∷ []) start)
handle_sync-IsSound_example = Exchange.handle_sync-IsSound stub times (1 ∷ []) start start-IsSound

handle_sync-IsFresh_example :
    let (m', r) = handle_sync stub times (1 ∷ []) start in
    (r ≡ record { status = 200; body = stub.to_vec (payload_of 103 m') })
    × IsFresh 102 (node b'b' 99 3 alive) (get text_discrete (b'b' ∷ []) m'.members)
unfolding new
handle_sync-IsFresh_example =
    Exchange.handle_sync-IsFresh stub times (1 ∷ []) start
      (record { from = node b'b' 99 3 alive; members = news }) (omega arith) refl refl
      (λ e. ground arith)

abbrev reply : Response
reply = record { status = 200; body = 1 ∷ [] }

reply_is_taken : (handle_reply stub (λ w b. []) times reply start).1 ≡ ok tt
unfolding program
reply_is_taken = refl

handle_reply-IsFresh_example :
    let (m', r) = handle_reply stub (λ w b. []) times reply start in
    (¬ ((p : GossipPayload) × IsTaken stub reply start p)
      × ((b : BcError) × (r ≡ err b))
      × (m'.members ≡ start.members)
      × (m'.me_incarnation ≡ start.me_incarnation)
      × (m'.stats.gossip_rounds ≡ start.stats.gossip_rounds))
    ⊎ ((p : GossipPayload) × IsTaken stub reply start p
        × (r ≡ ok tt)
        × ((start.me_id ≡ p.from.id) ⊎ IsFresh 102 p.from (get text_discrete p.from.id m'.members)))
handle_reply-IsFresh_example = Exchange.handle_reply-IsFresh stub (λ w b. []) times reply start

merge_keeps_start_version_example :
    let m' = merge 101 (node b'a' 99 1 alive ∷ []) (set_bloom_version 7 start) in
    let peer = new (node b'b' 100 1 alive) no_stats in
    (own : NodeInfo) × (get text_discrete (b'a' ∷ []) m'.members ≡ some own)
    × (get text_discrete (b'a' ∷ []) (merge 102 (own ∷ me_snapshot 101 m' ∷ []) peer).members
        ≡ some own)
    × (own.bloom_version ≡ 0)
    × ((me_snapshot 101 m').bloom_version ≡ 7)
unfolding new
merge_keeps_start_version_example =
    Staleness.merge_keeps_start_version 101 102 7 (node b'a' 99 1 alive) start
      (new (node b'b' 100 1 alive) no_stats) refl refl refl (λ e. ground arith)
      (unfold program in refl)
