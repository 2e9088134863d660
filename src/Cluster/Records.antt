-- ===== src/Cluster/Records.antt =====
-- The whole record that `merge` of `Membership` (src/cluster.rs) keeps of another node, and what the order
-- of two rounds of gossip changes in it.
use blobcache.Prelude.{
  ℕ, ◌≡◌, ◌≢◌, refl, sym, ◌∙◌, ap, List, [], ◌∷◌, Option, none, some, Bytes, ◌&&◌, if◌then◌else◌,
  arith, if_neg,
}
use blobcache.Prelude.Assoc.{get, get-insert}
use blobcache.Cluster.State.{NodeInfo, Membership, text_discrete, same_text}
use blobcache.Cluster.Merge.{Merged, merge_self, merge_other, merge_one, merge_all, merge}
use blobcache.Cluster.Precedence.{
  precedes, precedence_of, precedes_trans, precedes_negtrans, merge_one_self, merge_one_other,
  merge_one-SameSelf, merge-SameSelf,
}

-- The record of a node in a membership.
unfoldable pub held : Bytes → Membership → Option NodeInfo
held id m = get text_discrete id m.members

-- The better of two records, or the first if neither comes before the other.
unfoldable pub better : Option NodeInfo → Option NodeInfo → Option NodeInfo
unfolding precedes
better none q = q
better (some a) none = some a
better (some a) (some b) = if precedes (precedence_of a) (precedence_of b) then some b else some a

-- What a record says of a node to a cluster with this hash.
unfoldable pub offered : Bytes → Bytes → NodeInfo → Option NodeInfo
offered hash id n = if same_text n.id id && same_text n.cluster_hash hash then some n else none

-- The first of the best records of a list.
unfoldable pub told : Bytes → Bytes → List NodeInfo → Option NodeInfo
unfolding better offered
told hash id [] = none
told hash id (n ∷ l) = better (offered hash id n) (told hash id l)

better-none : (p : Option NodeInfo) → better p none ≡ p
unfolding better
better-none none = refl
better-none (some a) = refl

better-some :
    (a b : NodeInfo)
    → better (some a) (some b)
      ≡ (if precedes (precedence_of a) (precedence_of b) then some b else some a)
unfolding better
better-some a b = refl

better_assoc : (p q r : Option NodeInfo) → better (better p q) r ≡ better p (better q r)
better_assoc none q r = unfold better in refl
better_assoc (some a) none r = unfold better in refl
better_assoc (some a) (some b) none =
    better-none (better (some a) (some b)) ∙ ap (better (some a)) (sym (better-none (some b)))
better_assoc (some a) (some b) (some c) = ground (
  arith,
  better-some a b,
  better-some b c,
  better-some a c,
  precedes_trans (precedence_of a) (precedence_of b) (precedence_of c),
  precedes_negtrans (precedence_of a) (precedence_of b) (precedence_of c),
)

better_idem : (p : Option NodeInfo) → better p p ≡ p
unfolding better
better_idem none = refl
better_idem (some a) = ground arith

held-merge_self :
    (now : ℕ) (n : NodeInfo) (m : Membership) (id : Bytes)
    → m.me_id ≢ id
    → held id (merge_self now n m) ≡ held id m
unfolding held merge_self
held-merge_self now n m id other =
    get-insert text_discrete id m.me_id _ m.members ∙ if_neg (text_discrete m.me_id id) other _ _

held-merge_other :
    (n : NodeInfo) (s : Merged) (id : Bytes)
    → held id (merge_other n s).0 ≡ better (held id s.0) (offered s.0.me_template.cluster_hash id n)
unfolding held merge_other offered better
held-merge_other n (m, updates) id = ground (arith, get-insert text_discrete id n.id n m.members)

offered_ne : (hash id : Bytes) (n : NodeInfo) → n.id ≢ id → offered hash id n ≡ none
unfolding offered
offered_ne hash id n other = ground arith

held-merge_one :
    (now : ℕ) (n : NodeInfo) (s : Merged) (id : Bytes)
    → s.0.me_id ≢ id
    → held id (merge_one now n s).0
      ≡ better (held id s.0) (offered s.0.me_template.cluster_hash id n)
held-merge_one now n (m, updates) id other = elim (text_discrete n.id m.me_id) [
  | yes about_me ↦
      let silent = offered_ne m.me_template.cluster_hash id n (λ e. other (sym about_me ∙ e)) in
      rw (silent, better-none, merge_one_self now n (m, updates) about_me)
        (held-merge_self now n m id other)
  | no not_me ↦ rw (merge_one_other now n (m, updates) not_me) (held-merge_other n (m, updates) id)
]

held-merge_all :
    (now : ℕ) (l : List NodeInfo) (s : Merged) (id : Bytes)
    → s.0.me_id ≢ id
    → held id (merge_all now l s).0 ≡ better (held id s.0) (told s.0.me_template.cluster_hash id l)
unfolding merge_all told
held-merge_all now [] s id other = sym (better-none (held id s.0))
held-merge_all now (n ∷ l) s id other =
    let (me, template) = merge_one-SameSelf now n s in
    let t = merge_one now n s in
    held-merge_all now l t id (λ e. other (sym me ∙ e))
    ∙ ap (λ x. better (held id t.0) (told x.cluster_hash id l)) template
    ∙ ap (λ p. better p (told s.0.me_template.cluster_hash id l)) (held-merge_one now n s id other)
    ∙ better_assoc (held id s.0) (offered s.0.me_template.cluster_hash id n)
        (told s.0.me_template.cluster_hash id l)

-- After a merge the membership holds, of every other node, the whole record that comes first among the
-- best of the one it held and of the given ones of its own cluster, in their order; a record is
-- better by its incarnation, then by the time of its last sighting, then by the severity of its
-- state.
pub held-merge :
    (now : ℕ) (l : List NodeInfo) (m : Membership) (id : Bytes)
    → m.me_id ≢ id
    → held id (merge now l m) ≡ better (held id m) (told m.me_template.cluster_hash id l)
unfolding merge
held-merge now l m id other = held-merge_all now l (m, []) id other

held-merge_twice :
    (t t' : ℕ) (l l' : List NodeInfo) (m : Membership) (id : Bytes)
    → m.me_id ≢ id
    → held id (merge t' l' (merge t l m))
      ≡ better
          (better (held id m) (told m.me_template.cluster_hash id l))
          (told m.me_template.cluster_hash id l')
held-merge_twice t t' l l' m id other =
    let (me, template) = merge-SameSelf t l m in
    held-merge t' l' (merge t l m) id (λ e. other (sym me ∙ e))
    ∙ ap (λ x. better (held id (merge t l m)) (told x.cluster_hash id l')) template
    ∙ ap (λ p. better p (told m.me_template.cluster_hash id l')) (held-merge t l m id other)

-- Two records of which neither is better are the same.
abbrev pub NoTie : Option NodeInfo → Option NodeInfo → Type 0
NoTie p q = (a b : NodeInfo) → p ≡ some a → q ≡ some b → precedence_of a ≡ precedence_of b → a ≡ b

better_comm : (p q : Option NodeInfo) → NoTie p q → better p q ≡ better q p
unfolding better precedes
better_comm none none same = refl
better_comm none (some b) same = refl
better_comm (some a) none same = refl
better_comm (some a) (some b) same = ground (arith, same a b refl refl)

-- Two rounds of gossip leave the same whole record of every other node in either order and at any times,
-- when the best records about it that the two rounds have, of this node's cluster, are the same if they
-- have the same incarnation, time of the last sighting and state; and a round that is repeated
-- changes nothing in it.
pub merge_gossip_order :
    (t t' u u' : ℕ) (l l' : List NodeInfo) (m : Membership) (id : Bytes)
    → m.me_id ≢ id
    → NoTie (told m.me_template.cluster_hash id l) (told m.me_template.cluster_hash id l')
    → (held id (merge t' l' (merge t l m)) ≡ held id (merge u l (merge u' l' m)))
      × (held id (merge u l (merge t l m)) ≡ held id (merge t l m))
merge_gossip_order t t' u u' l l' m id other same =
    let h = told m.me_template.cluster_hash id l in
    let h' = told m.me_template.cluster_hash id l' in
    (
      held-merge_twice t t' l l' m id other
          ∙ better_assoc (held id m) h h'
          ∙ ap (better (held id m)) (better_comm h h' same)
          ∙ sym (better_assoc (held id m) h' h)
          ∙ sym (held-merge_twice u' u l' l m id other),
      held-merge_twice t u l l m id other
          ∙ better_assoc (held id m) h h
          ∙ ap (better (held id m)) (better_idem h)
          ∙ sym (held-merge t l m id other),
    )
