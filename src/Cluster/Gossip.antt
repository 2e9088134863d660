-- ===== src/Cluster/Gossip.antt =====
-- One exchange of gossip (src/cluster.rs): the handler of `/cluster/sync` in `GossipServer::serve`,
-- and `gossip_with` and the rounds of `run_gossip_loop`, which ask for it. JSON and the connection
-- are parameters; so are the times at which a call reads the clock, and the chosen target.
use blobcache.Prelude.{
  ℕ, ◌*◌, map, List, [], ◌∷◌, ◌++◌, Bytes, Option, none, some, not, if◌then◌else◌, ltb, leb, length,
  ◌&&◌,
}
use blobcache.Prelude.Result.{cluster, Result, ok, err}
use blobcache.Prelude.Word.{wrapping_add}
use blobcache.Cluster.State.{
  NodeInfo, Membership, same_text, me_snapshot, members_all, members_alive,
}
use blobcache.Cluster.Merge.{merge, touch_peer}

pub record GossipPayload : Type 0 where
  pub from : NodeInfo
  pub members : List NodeInfo

-- `serde_json`, which answers with the text of its error.
pub record Json : Type 0 where
  pub to_vec : GossipPayload → Bytes
  pub from_slice : Bytes → Option GossipPayload
  pub error : Bytes → Bytes

-- What a call reads off the clock as it merges, as it touches the peer and as it answers.
pub record Clock : Type 0 where
  pub at_merge : ℕ
  pub at_touch : ℕ
  pub at_snapshot : ℕ

pub record Response : Type 0 where
  pub status : ℕ
  pub body : Bytes

abbrev pub max_gossip_body_bytes : ℕ
max_gossip_body_bytes = 1024 * 1024

abbrev pub too_large : Bytes
too_large = b't' ∷ b'o' ∷ b'o' ∷ b' ' ∷ b'l' ∷ b'a' ∷ b'r' ∷ b'g' ∷ b'e' ∷ []

abbrev pub bad : Bytes
bad = b'b' ∷ b'a' ∷ b'd' ∷ b':' ∷ b' ' ∷ []

abbrev pub hash_mismatch : Bytes
hash_mismatch =
    b'{' ∷ b'"' ∷ b'e' ∷ b'r' ∷ b'r' ∷ b'o' ∷ b'r' ∷ b'"' ∷ b':' ∷ b'"' ∷ b'c' ∷ b'l' ∷ b'u' ∷ b's'
    ∷ b't' ∷ b'e' ∷ b'r' ∷ b'_' ∷ b'h' ∷ b'a' ∷ b's' ∷ b'h' ∷ b' ' ∷ b'm' ∷ b'i' ∷ b's' ∷ b'm'
    ∷ b'a' ∷ b't' ∷ b'c' ∷ b'h' ∷ b'"' ∷ b'}' ∷ []

abbrev pub count_mismatch : Membership → Membership
count_mismatch m = record m {
  stats = record m.stats { config_mismatches = wrapping_add m.stats.config_mismatches 1 };
}

-- The payload that a node sends.
abbrev pub payload_of : ℕ → Membership → GossipPayload
payload_of now m = record { from = me_snapshot now m; members = members_all m }

-- What both sides do with the other's payload: its own record comes last.
abbrev pub learn : Clock → GossipPayload → Membership → Membership
learn t p m = touch_peer t.at_touch p.from.id (merge t.at_merge (p.members ++ p.from ∷ []) m)

-- Why an answer is refused; the text of the error is made from it and from the answer.
pub data Refusal : Type 0 where
  sync_status decode_reply reply_mismatch : Refusal

module _ (json : Json) where
  -- `POST /cluster/sync`
  unfoldable pub handle_sync : Clock → Bytes → Membership → Membership × Response
  handle_sync t body m =
      if ltb max_gossip_body_bytes (length body)
      then (m, record { status = 413; body = too_large })
      else elim (json.from_slice body) [
        | none ↦ (m, record { status = 400; body = bad ++ json.error body })
        | some payload ↦
            if not (same_text payload.from.cluster_hash m.me_template.cluster_hash)
            then (count_mismatch m, record { status = 409; body = hash_mismatch })
            else let m' = learn t payload m in
              (m', record { status = 200; body = json.to_vec (payload_of t.at_snapshot m') })
      ]

  -- What `gossip_with` does with the answer to the payload that it sent.
  unfoldable pub handle_reply :
      (Refusal → Response → Bytes) → Clock → Response → Membership → Membership × Result (Unit {0})
  handle_reply message t resp m =
      if not (leb 200 resp.status && ltb resp.status 300)
      then (m, err (cluster (message sync_status resp)))
      else elim (json.from_slice resp.body) [
        | none ↦ (m, err (cluster (message decode_reply resp)))
        | some reply ↦
            if not (same_text reply.from.cluster_hash m.me_template.cluster_hash)
            then (count_mismatch m, err (cluster (message reply_mismatch resp)))
            else let m' = learn t reply m in
              (
                record m' {
                  stats = record m'.stats { gossip_rounds = wrapping_add m'.stats.gossip_rounds 1 };
                },
                ok tt,
              )
      ]

  -- `gossip_with`, where `post` sends a body and comes back with the answer or an error,
  -- where no other call comes between the two.
  unfoldable pub gossip_with :
      (Bytes → Result Response)
      → (Refusal → Response → Bytes)
      → Clock
      → Membership
      → Membership × Result (Unit {0})
  unfolding handle_reply
  gossip_with post message t m = elim (post (json.to_vec (payload_of t.at_snapshot m))) [
    | err e ↦ (m, err e)
    | ok resp ↦ handle_reply message t resp m
  ]

-- Whom a round of `run_gossip_loop` may turn to after its sweep: the seeds while nobody is alive.
unfoldable pub targets : List Bytes → Membership → List Bytes
unfolding members_alive
targets seeds m = elim (members_alive m) [
  | [] ↦ seeds
  | n ∷ l ↦ n.gossip_url ∷ map (λ p. p.gossip_url) l
]
