-- ===== src/Cluster/Precedence.antt =====
-- The order in which `merge` of `Membership` (src/cluster.rs) prefers records: the join of a semilattice.
use mathlib.Core.Option
use blobcache.Prelude.{
  ℕ, ◌≡◌, ◌≢◌, refl, sym, ◌∙◌, ap, List, [], ◌∷◌, Option, none, some, Bytes, Bool, true, false,
  ◌&&◌, ◌||◌, if◌then◌else◌, ◌==◌, ltb, arith, if_neg,
}
use blobcache.Prelude.Assoc.{get, get-insert}
use blobcache.Cluster.State.{rank, NodeInfo, Membership, text_discrete, same_text}
use blobcache.Cluster.Merge.{Merged, merge_self, merge_other, merge_one, merge_all, merge}

-- What decides between two records of a node.
pub record Precedence : Type 0 where
  pub incarnation : ℕ
  pub last_seen : ℕ
  pub severity : ℕ

abbrev pub precedence_of : NodeInfo → Precedence
precedence_of n = record {
  incarnation = n.incarnation;
  last_seen = n.last_seen_unix;
  severity = rank n.state;
}

-- `a` comes before `b` in the order of incarnations, then sightings, then severity.
unfoldable pub precedes : Precedence → Precedence → Bool
precedes a b =
    ltb a.incarnation b.incarnation
    || (a.incarnation == b.incarnation
        && (ltb a.last_seen b.last_seen
            || (a.last_seen == b.last_seen && ltb a.severity b.severity)))

-- The better of two, where `none` is the record of a node that is not known.
unfoldable pub join : Option Precedence → Option Precedence → Option Precedence
unfolding precedes
join none q = q
join (some p) none = some p
join (some p) (some q) = if precedes p q then some q else some p

pub join_comm : (p q : Option Precedence) → join p q ≡ join q p
unfolding join
join_comm none none = refl
join_comm none (some q) = refl
join_comm (some p) none = refl
join_comm (some p) (some q) = ground arith

pub precedes_trans :
    (p q r : Precedence) → precedes p q ≡ true → precedes q r ≡ true → precedes p r ≡ true
unfolding precedes
precedes_trans p q r h k = ground arith

pub precedes_negtrans :
    (p q r : Precedence) → precedes p q ≡ false → precedes q r ≡ false → precedes p r ≡ false
unfolding precedes
precedes_negtrans p q r h k = ground arith

join-some : (p q : Precedence) → join (some p) (some q) ≡ (if precedes p q then some q else some p)
unfolding join
join-some p q = refl

join-none : (p : Option Precedence) → join p none ≡ p
unfolding join
join-none none = refl
join-none (some p) = refl

pub join_assoc : (p q r : Option Precedence) → join (join p q) r ≡ join p (join q r)
join_assoc none q r = unfold join in refl
join_assoc (some p) none r = unfold join in refl
join_assoc (some p) (some q) none =
    join-none (join (some p) (some q)) ∙ ap (join (some p)) (sym (join-none (some q)))
join_assoc (some p) (some q) (some r) = ground (
  arith,
  join-some p q,
  join-some q r,
  join-some p r,
  precedes_trans p q r,
  precedes_negtrans p q r,
)

pub join_idem : (p : Option Precedence) → join p p ≡ p
unfolding join
join_idem none = refl
join_idem (some p) = ground arith

-- The best record that a membership holds of a node.
unfoldable pub seen : Bytes → Membership → Option Precedence
seen id m = Option.map precedence_of (get text_discrete id m.members)

-- What a record says of a node to a cluster with this hash: nothing, if it is about another node
-- or comes from another cluster.
unfoldable pub offer : Bytes → Bytes → NodeInfo → Option Precedence
offer hash id n =
    if same_text n.id id && same_text n.cluster_hash hash then some (precedence_of n) else none

-- The best of what a list of records says.
unfoldable pub heard : Bytes → Bytes → List NodeInfo → Option Precedence
unfolding offer
heard hash id [] = none
heard hash id (n ∷ l) = join (offer hash id n) (heard hash id l)

-- What a merge never touches.
abbrev pub SameSelf : Membership → Membership → Type 0
SameSelf m m' = (m'.me_id ≡ m.me_id) × (m'.me_template ≡ m.me_template)

pub merge_one-SameSelf : (now : ℕ) (n : NodeInfo) (s : Merged) → SameSelf s.0 (merge_one now n s).0
unfolding merge_one
merge_one-SameSelf now n (m, updates) = ground arith

seen-merge_self :
    (now : ℕ) (n : NodeInfo) (m : Membership) (id : Bytes)
    → m.me_id ≢ id
    → seen id (merge_self now n m) ≡ seen id m
unfolding seen merge_self
seen-merge_self now n m id other =
    ap (Option.map precedence_of) (
      get-insert text_discrete id m.me_id _ m.members ∙ if_neg (text_discrete m.me_id id) other _ _)

seen-merge_other :
    (n : NodeInfo) (s : Merged) (id : Bytes)
    → seen id (merge_other n s).0 ≡ join (seen id s.0) (offer s.0.me_template.cluster_hash id n)
unfolding seen merge_other offer join
seen-merge_other n (m, updates) id = ground (arith, get-insert text_discrete id n.id n m.members)

offer_ne : (hash id : Bytes) (n : NodeInfo) → n.id ≢ id → offer hash id n ≡ none
unfolding offer
offer_ne hash id n other = ground arith

pub merge_one_self :
    (now : ℕ) (n : NodeInfo) (s : Merged)
    → n.id ≡ s.0.me_id
    → merge_one now n s ≡ (merge_self now n s.0, s.1)
unfolding merge_one
merge_one_self now n (m, updates) e = ground arith

pub merge_one_other :
    (now : ℕ) (n : NodeInfo) (s : Merged) → n.id ≢ s.0.me_id → merge_one now n s ≡ merge_other n s
unfolding merge_one
merge_one_other now n (m, updates) e = ground arith

seen-merge_one :
    (now : ℕ) (n : NodeInfo) (s : Merged) (id : Bytes)
    → s.0.me_id ≢ id
    → seen id (merge_one now n s).0 ≡ join (seen id s.0) (offer s.0.me_template.cluster_hash id n)
seen-merge_one now n (m, updates) id other = elim (text_discrete n.id m.me_id) [
  | yes about_me ↦
      let silent = offer_ne m.me_template.cluster_hash id n (λ e. other (sym about_me ∙ e)) in
      rw (silent, join-none, merge_one_self now n (m, updates) about_me)
        (seen-merge_self now n m id other)
  | no not_me ↦ rw (merge_one_other now n (m, updates) not_me) (seen-merge_other n (m, updates) id)
]

seen-merge_all :
    (now : ℕ) (l : List NodeInfo) (s : Merged) (id : Bytes)
    → s.0.me_id ≢ id
    → seen id (merge_all now l s).0 ≡ join (seen id s.0) (heard s.0.me_template.cluster_hash id l)
unfolding merge_all heard
seen-merge_all now [] s id other = sym (join-none (seen id s.0))
seen-merge_all now (n ∷ l) s id other =
    let (me, template) = merge_one-SameSelf now n s in
    let t = merge_one now n s in
    seen-merge_all now l t id (λ e. other (sym me ∙ e))
    ∙ ap (λ x. join (seen id t.0) (heard x.cluster_hash id l)) template
    ∙ ap (λ p. join p (heard s.0.me_template.cluster_hash id l)) (seen-merge_one now n s id other)
    ∙ join_assoc (seen id s.0) (offer s.0.me_template.cluster_hash id n)
        (heard s.0.me_template.cluster_hash id l)

merge_all-SameSelf : (now : ℕ) (l : List NodeInfo) (s : Merged) → SameSelf s.0 (merge_all now l s).0
unfolding merge_all
merge_all-SameSelf now [] s = (refl, refl)
merge_all-SameSelf now (n ∷ l) s =
    let (me, template) = merge_one-SameSelf now n s in
    let (me', template') = merge_all-SameSelf now l (merge_one now n s) in
    (me' ∙ me, template' ∙ template)

pub merge-SameSelf : (now : ℕ) (l : List NodeInfo) (m : Membership) → SameSelf m (merge now l m)
unfolding merge
merge-SameSelf now l m = merge_all-SameSelf now l (m, [])

pub seen-merge :
    (now : ℕ) (l : List NodeInfo) (m : Membership) (id : Bytes)
    → m.me_id ≢ id
    → seen id (merge now l m) ≡ join (seen id m) (heard m.me_template.cluster_hash id l)
unfolding merge
seen-merge now l m id other = seen-merge_all now l (m, []) id other
