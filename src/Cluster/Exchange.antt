-- ===== src/Cluster/Exchange.antt =====
-- What an exchange of gossip (src/cluster.rs) does to the membership, and what it tells the peer of
-- this node's Bloom filter.
use blobcache.Prelude.{
  ℕ, ◌≤◌, ◌<◌, ◌≡◌, ◌≢◌, refl, sym, ap, ◌∙◌, subst, List, [], ◌∷◌, ◌++◌, Bytes, Option, none, some,
  true, false, not, ltb, length, arith, Option-cases, Bool-cases, inl, inr, leb, ◌&&◌, ◌⊎◌,
}
use blobcache.Prelude.Assoc.{get, get-modify}
use blobcache.Prelude.Result.{BcError, ok, err}
use blobcache.Cluster.State.{NodeInfo, Membership, alive, text_discrete, same_text}
use blobcache.Cluster.Merge.{merge, touch_peer}
use blobcache.Cluster.Precedence.{
  Precedence, precedence_of, join, precedes, seen, heard, offer, seen-merge, join_assoc,
}
use blobcache.Cluster.Sound.{IsSound, merge-IsSound, touch_peer-IsSound}
use blobcache.Cluster.Gossip.{
  GossipPayload, Json, Clock, Response, max_gossip_body_bytes, count_mismatch, payload_of, learn,
  handle_sync, handle_reply, Refusal,
}

pub learn-IsSound :
    (t : Clock) (p : GossipPayload) (m : Membership) → IsSound m → IsSound (learn t p m)
learn-IsSound t p m v =
    touch_peer-IsSound t.at_touch p.from.id (merge t.at_merge (p.members ++ p.from ∷ []) m)
      (merge-IsSound t.at_merge (p.members ++ p.from ∷ []) m v)

pub count_mismatch-IsSound : (m : Membership) → IsSound m → IsSound (count_mismatch m)
count_mismatch-IsSound m v = record { named = v.named; distinct = v.distinct; members = v.members }

-- What a state and its answer have to be, by the status.
abbrev pub IsAnswered : Membership → Membership × Response → Type 0
IsAnswered m (m', r) =
    IsSound m'
    × (r.status ≢ 200 → (m'.members ≡ m.members) × (m'.me_incarnation ≡ m.me_incarnation))

-- Whatever the body of `/cluster/sync` holds, the membership stays sound; and unless the answer is
-- 200, neither a member nor this node's incarnation has changed.
pub handle_sync-IsSound :
    (json : Json) (t : Clock) (body : Bytes) (m : Membership)
    → IsSound m
    → IsAnswered m (handle_sync json t body m)
unfolding handle_sync
handle_sync-IsSound json t body m v = elim (Bool-cases (ltb max_gossip_body_bytes (length body))) [
  | inl large ↦ rw (large) (v, λ e. (refl, refl))
  | inr fits ↦ elim (Option-cases (json.from_slice body)) [
    | inl broken ↦ rw (fits, broken) (v, λ e. (refl, refl))
    | inr (p, read) ↦
        elim (Bool-cases (not (same_text p.from.cluster_hash m.me_template.cluster_hash))) [
          | inl foreign ↦ rw (fits, read, foreign) (count_mismatch-IsSound m v, λ e. (refl, refl))
          | inr own ↦ rw (fits, read, own) (learn-IsSound t p m v, λ e. absurd (e refl))
        ]
  ]
]

-- The join is no lower than its right side.
join_above :
    (p : Option Precedence) (q : Precedence)
    → (r : Precedence) × (join p (some q) ≡ some r) × (q.incarnation ≤ r.incarnation)
unfolding join precedes
join_above none q = (q, refl, omega arith)
join_above (some p) q = elim (Bool-cases (precedes p q)) [
  | inl before ↦ (q, rw (before), omega arith)
  | inr after ↦ (p, rw (after), ground arith)
]

heard_last :
    (hash id : Bytes) (n : NodeInfo) (l : List NodeInfo)
    → n.id ≡ id
    → n.cluster_hash ≡ hash
    → heard hash id (l ++ n ∷ []) ≡ join (heard hash id l) (some (precedence_of n))
unfolding heard offer join
heard_last hash id n [] e own = ground arith
heard_last hash id n (k ∷ l) e own =
    ap (join (offer hash id k)) (heard_last hash id n l e own)
    ∙ sym (join_assoc (offer hash id k) (heard hash id l) (some (precedence_of n)))

-- A member that was seen at a time, is alive, and is no older than a record.
abbrev pub IsFresh : ℕ → NodeInfo → Option NodeInfo → Type 0
IsFresh now n o =
    (e : NodeInfo) × (o ≡ some e)
    × (e.state ≡ alive)
    × (e.last_seen_unix ≡ now)
    × (n.incarnation ≤ e.incarnation)

seen-get :
    (id : Bytes) (m : Membership) (p : Precedence)
    → seen id m ≡ some p
    → (e : NodeInfo) × (get text_discrete id m.members ≡ some e) × (e.incarnation ≡ p.incarnation)
unfolding seen
seen-get id m p h = elim (Option-cases (get text_discrete id m.members)) [
  | inl missing ↦ ground arith
  | inr (e, found) ↦ (e, found, ground arith)
]

get-touch_peer :
    (now : ℕ) (id : Bytes) (m : Membership) (e : NodeInfo)
    → get text_discrete id m.members ≡ some e
    → get text_discrete id (touch_peer now id m).members
      ≡ some (record e { last_seen_unix = now; state = alive })
unfolding touch_peer
get-touch_peer now id m e h = ground (
  arith,
  get-modify text_discrete id id (λ n. record n { last_seen_unix = now; state = alive }) m.members,
)

learn-IsFresh :
    (t : Clock) (p : GossipPayload) (m : Membership)
    → m.me_id ≢ p.from.id
    → p.from.cluster_hash ≡ m.me_template.cluster_hash
    → IsFresh t.at_touch p.from (get text_discrete p.from.id (learn t p m).members)
learn-IsFresh t p m other own =
    let id = p.from.id in
    let hash = m.me_template.cluster_hash in
    let l = p.members ++ p.from ∷ [] in
    let before = join (seen id m) (heard hash id p.members) in
    let (q, best, above) = join_above before (precedence_of p.from) in
    let s : seen id (merge t.at_merge l m) ≡ some q =
      seen-merge t.at_merge l m id other
      ∙ ap (join (seen id m)) (heard_last hash id p.from p.members refl own)
      ∙ sym (join_assoc (seen id m) (heard hash id p.members) (some (precedence_of p.from)))
      ∙ best in
    let (e, found, same) = seen-get id (merge t.at_merge l m) q s in
    (
      record e { last_seen_unix = t.at_touch; state = alive },
      get-touch_peer t.at_touch id (merge t.at_merge l m) e found,
      refl,
      refl,
      subst (λ i. p.from.incarnation ≤ i) (sym same) above,
    )

-- A body within the limit that decodes to the payload of another node of this cluster is answered
-- with 200 and this node's new snapshot and members; and the sender is then a member, alive, last
-- seen when it was touched, and with an incarnation no lower than the one it sent.
pub handle_sync-IsFresh :
    (json : Json) (t : Clock) (body : Bytes) (m : Membership) (p : GossipPayload)
    → length body ≤ max_gossip_body_bytes
    → json.from_slice body ≡ some p
    → p.from.cluster_hash ≡ m.me_template.cluster_hash
    → m.me_id ≢ p.from.id
    → let (m', r) = handle_sync json t body m in
      (r ≡ record { status = 200; body = json.to_vec (payload_of t.at_snapshot m') })
      × IsFresh t.at_touch p.from (get text_discrete p.from.id m'.members)
unfolding handle_sync
handle_sync-IsFresh json t body m p fits read own other =
    let small : ltb max_gossip_body_bytes (length body) ≡ false = ground arith in
    let same : not (same_text p.from.cluster_hash m.me_template.cluster_hash) ≡ false =
      ground arith in
    rw (small, read, same) (refl, learn-IsFresh t p m other own)

-- What an answer to a sync has to be, to be taken: a success that decodes to the payload of a node of
-- this cluster.
abbrev pub IsTaken : Json → Response → Membership → GossipPayload → Type 0
IsTaken json resp m p =
    (200 ≤ resp.status)
    × (resp.status < 300)
    × (json.from_slice resp.body ≡ some p)
    × (p.from.cluster_hash ≡ m.me_template.cluster_hash)

read_same : (p q : GossipPayload) → Path (Option GossipPayload) (some p) (some q) → p ≡ q
read_same p q e = ground arith

-- An answer to a sync is taken, if and only if its status is from 200 to 299 and its body decodes to a
-- payload whose sender is of this cluster; the sender, if it is another node, is then a member, alive,
-- last seen when it was touched, and with an incarnation no lower than the one it sent. Every other answer is an error, which leaves the members and this node's incarnation
-- as they were, and counts no round.
pub handle_reply-IsFresh :
    (json : Json) (message : Refusal → Response → Bytes) (t : Clock) (resp : Response)
    (m : Membership)
    → let (m', r) = handle_reply json message t resp m in
      (¬ ((p : GossipPayload) × IsTaken json resp m p)
        × ((b : BcError) × (r ≡ err b))
        × (m'.members ≡ m.members)
        × (m'.me_incarnation ≡ m.me_incarnation)
        × (m'.stats.gossip_rounds ≡ m.stats.gossip_rounds))
      ⊎ ((p : GossipPayload) × IsTaken json resp m p
          × (r ≡ ok tt)
          × ((m.me_id ≡ p.from.id)
              ⊎ IsFresh t.at_touch p.from (get text_discrete p.from.id m'.members)))
unfolding handle_reply
handle_reply-IsFresh json message t resp m =
    elim (Bool-cases (not (leb 200 resp.status && ltb resp.status 300))) [
      | inl failed ↦ rw (failed) (
          inl (
            (λ (p, taken). let (low, high, read, own) = taken in ground arith),
            (_, refl),
            refl,
            refl,
            refl,
          ))
      | inr fine ↦ elim (Option-cases (json.from_slice resp.body)) [
        | inl broken ↦
            rw (fine, broken)
              (inl (
                (λ (p, taken). let (low, high, read, own) = taken in ground arith),
                (_, refl),
                refl,
                refl,
                refl,
              ))
        | inr (p, read) ↦ elim (text_discrete p.from.cluster_hash m.me_template.cluster_hash) [
          | no foreign ↦
              let h : not (same_text p.from.cluster_hash m.me_template.cluster_hash) ≡ true =
                ground arith in
              rw (fine, read, h)
                (inl (
                  (λ (q, taken).
                      let (low, high, same, own) = taken in
                      foreign (ap (λ x. x.from.cluster_hash) (read_same p q same) ∙ own)),
                  (_, refl),
                  refl,
                  refl,
                  refl,
                ))
          | yes own ↦
              let h : not (same_text p.from.cluster_hash m.me_template.cluster_hash) ≡ false =
                ground arith in
              let fresh : (m.me_id ≡ p.from.id)
                  ⊎ IsFresh t.at_touch p.from (get text_discrete p.from.id (learn t p m).members) =
                elim (text_discrete m.me_id p.from.id) [
                  | yes me ↦ inl me
                  | no other ↦ inr (learn-IsFresh t p m other own)
                ] in
              rw (fine, read, h) (inr (p, (ground arith, ground arith, refl, own), refl, fresh))
        ]
      ]
    ]
