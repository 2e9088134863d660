-- ===== src/Rdma/Steps.antt =====
-- The life of the endpoints of src/transport_ucx.rs: requests that begin and end, failures that UCX
-- reports, and passes of the reaper, in any order.
use blobcache.Prelude.{
  ℕ, ◌≡◌, ◌≢◌, refl, sym, ◌∙◌, List, [], ◌∷◌, ◌++◌, Option, none, some, Bytes, not, ◌&&◌, ◌==◌, All,
  arith, Option-cases, Bool-cases, inl, inr,
}
use blobcache.Prelude.Assoc.{get, get-remove, get-modify}
use blobcache.Prelude.Result.{Result, ok, err}
use blobcache.Cluster.State.{text_discrete, same_text}
use blobcache.Rdma.Endpoints.{
  EndpointSlot, RuntimeState, CheckedOutEndpoint, RemovedEndpoint, break_slot,
  update_peer_addr_blob, checkout_endpoint, mark_peer_ep_broken, take_broken_peer_eps, new_runtime,
  Busy, begin_use, end_use, closed_first, should_mark_endpoint_broken,
}
use blobcache.Rdma.Flights.{Eps, IsCounted, empty-IsCounted}
use blobcache.Rdma.Reaping.{reap-IsSafe}
use blobcache.Rdma.Closing.{
  IsUnused, opt_list, IsSafe, break-IsCounted, update-IsSafe, IsFresh, taken, checkout-IsCounted,
  release-IsSafe,
}

-- The endpoint that an update removes was its peer's, and it was the peer's only one.
abbrev WasOnly : Bytes → Eps → Eps → RemovedEndpoint → Type 0
WasOnly p before after r =
    (slot : EndpointSlot) × (get text_discrete p before ≡ some slot)
    × (r.ep ≡ slot.ep)
    × (get text_discrete p after ≡ none)

module _ (p addr : Bytes) (s : RuntimeState) where
  update-WasOnly :
      All
        (WasOnly p s.peer_eps (update_peer_addr_blob p addr s).0.peer_eps)
        (opt_list (update_peer_addr_blob p addr s).1)
  unfolding update_peer_addr_blob
  update-WasOnly = elim (Option-cases (get text_discrete p s.peer_eps)) [
    | inl missing ↦ rw (missing, update_peer_addr_blob) tt
    | inr (slot, found) ↦
        elim (Bool-cases (not (same_text slot.peer_addr_blob addr) && slot.in_flight == 0)) [
          | inl stale ↦
              rw (found, stale, update_peer_addr_blob)
                ((slot, found, refl, ground (arith, get-remove text_discrete p p s.peer_eps)), tt)
          | inr kept ↦ elim (Bool-cases (not (same_text slot.peer_addr_blob addr))) [
            | inl moved ↦ rw (found, kept, moved, update_peer_addr_blob) tt
            | inr same ↦ rw (found, kept, same, update_peer_addr_blob) tt
          ]
        ]
  ]

  -- An update creates no endpoint.
  abbrev Before : Eps → Type 0
  Before eps =
      (q : Bytes) (t : EndpointSlot)
      → get text_discrete q eps ≡ some t
      → (u : EndpointSlot) × (get text_discrete q s.peer_eps ≡ some u) × (u.ep ≡ t.ep)

  update-Before : Before (update_peer_addr_blob p addr s).0.peer_eps
  unfolding update_peer_addr_blob
  update-Before = elim (Option-cases (get text_discrete p s.peer_eps)) [
    | inl missing ↦ rw (missing, update_peer_addr_blob) (λ q t e. (t, e, refl))
    | inr (slot, found) ↦
        elim (Bool-cases (not (same_text slot.peer_addr_blob addr) && slot.in_flight == 0)) [
          | inl stale ↦
              rw (found, stale, update_peer_addr_blob)
                (λ q t e. (t, ground (arith, get-remove text_discrete q p s.peer_eps), refl))
          | inr kept ↦ elim (Bool-cases (not (same_text slot.peer_addr_blob addr))) [
            | inl moved ↦
                rw (found, kept, moved, update_peer_addr_blob)
                  (λ q t e. elim (Option-cases (get text_discrete q s.peer_eps)) [
                    | inl none_q ↦
                        ground (arith, get-modify text_discrete q p break_slot s.peer_eps)
                    | inr (u, found_q) ↦ (
                      u,
                      found_q,
                      ground (arith, get-modify text_discrete q p break_slot s.peer_eps),
                    )
                  ])
            | inr same ↦ rw (found, kept, same, update_peer_addr_blob) (λ q t e. (t, e, refl))
          ]
        ]
  ]

checkout-created :
    (message : Busy → Bytes) (p addr : Bytes) (created : Result ℕ) (s : RuntimeState)
    (c : CheckedOutEndpoint)
    → get text_discrete p s.peer_eps ≡ none
    → (checkout_endpoint message p addr created s).1 ≡ ok c
    → created ≡ ok c.ep
unfolding checkout_endpoint
checkout-created message p addr (ok n) s c missing e = ground (arith, missing)
checkout-created message p addr (err x) s c missing e = ground (arith, missing)

module _ (p addr : Bytes) (created : Result ℕ) (s : RuntimeState)
    (used : List CheckedOutEndpoint) where
  still-IsUnused :
      (before after : Eps) (answer : Result CheckedOutEndpoint) (removed : Option RemovedEndpoint)
      → ((ep : ℕ)
          → created ≡ ok ep
          → (q : Bytes) (t : EndpointSlot) → get text_discrete q before ≡ some t
          → t.ep ≢ ep)
      → (get text_discrete p after ≡ none
          → (c : CheckedOutEndpoint) → answer ≡ ok c
          → created ≡ ok c.ep)
      → All (WasOnly p before after) (opt_list removed)
      → All (IsUnused used) (opt_list removed)
      → All (IsUnused (taken used answer)) (opt_list (closed_first answer removed))
  still-IsUnused before after (err e) removed fresh new was idle = tt
  still-IsUnused before after (ok c) none fresh new was idle = tt
  still-IsUnused before after (ok c) (some r) fresh new ((slot, found, same, gone), u) (idle, w) =
      (((λ clash. fresh c.ep (new gone c refl) p slot found (sym (clash ∙ same))), idle), tt)

module _ (message : Busy → Bytes) (p addr : Bytes) (created : Result ℕ) (s : RuntimeState)
    (used : List CheckedOutEndpoint) (v : IsCounted s.peer_eps used) where
  begin-IsSafe :
      IsFresh message p addr created s used v
      → IsSafe
          (begin_use message p addr created s).0.peer_eps
          (taken used (begin_use message p addr created s).1)
          (opt_list (begin_use message p addr created s).2)
  unfolding begin_use
  begin-IsSafe fresh =
      let s' = (update_peer_addr_blob p addr s).0 in
      let (v', idle) = update-IsSafe p addr s used v in
      let fresh' : (ep : ℕ)
          → created ≡ ok ep
          → (q : Bytes) (t : EndpointSlot) → get text_discrete q s'.peer_eps ≡ some t
          → t.ep ≢ ep =
        λ ep made q t e.
          let (u, found, same) = update-Before p addr s q t e in
          λ clash. fresh ep made q u found (same ∙ clash) in
      (
        checkout-IsCounted message p addr created s' used v' fresh',
        still-IsUnused p addr created s used s.peer_eps s'.peer_eps
            (checkout_endpoint message p addr created s').1 (update_peer_addr_blob p addr s).1 fresh
            (λ gone c e. checkout-created message p addr created s' c gone e)
            (update-WasOnly p addr s) idle,
      )

module _ {A : Type 0} (result : Result A) (c : CheckedOutEndpoint) (l r : List CheckedOutEndpoint)
    (s : RuntimeState) (v : IsCounted s.peer_eps (l ++ c ∷ r)) where
  end-IsSafe : IsSafe (end_use c result s).0.peer_eps (l ++ r) (opt_list (end_use c result s).1)
  unfolding end_use mark_peer_ep_broken
  end-IsSafe = elim (Bool-cases (should_mark_endpoint_broken result)) [
    | inl bad ↦ rw bad (release-IsSafe c l r _ (break-IsCounted c.peer_id s.peer_eps _ v))
    | inr good ↦ rw good (release-IsSafe c l r s v)
  ]

-- A state, and the requests that have an endpoint.
abbrev pub World : Type 0
World = RuntimeState × List CheckedOutEndpoint

-- One step, and the endpoints that it closes. UCX answers a handle that no open endpoint has.
pub data Step (message : Busy → Bytes) : World → List RemovedEndpoint → World → Type 1 where
  begins :
      {s : RuntimeState} {used : List CheckedOutEndpoint} (p addr : Bytes) (created : Result ℕ)
      → ((ep : ℕ)
          → created ≡ ok ep
          → (q : Bytes) (t : EndpointSlot) → get text_discrete q s.peer_eps ≡ some t
          → t.ep ≢ ep)
      → Step message
          (s, used)
          (opt_list (begin_use message p addr created s).2)
          (
            (begin_use message p addr created s).0,
            taken used (begin_use message p addr created s).1,
          )
  ends :
      {s : RuntimeState} {A : Type 0} (l r : List CheckedOutEndpoint) (c : CheckedOutEndpoint)
      (result : Result A)
      → Step message
          (s, l ++ c ∷ r)
          (opt_list (end_use c result s).1)
          ((end_use c result s).0, l ++ r)
  breaks :
      {s : RuntimeState} {used : List CheckedOutEndpoint} (p : Bytes)
      → Step message (s, used) [] (mark_peer_ep_broken p s, used)
  reaps :
      {s : RuntimeState} {used : List CheckedOutEndpoint}
      → Step message (s, used) (take_broken_peer_eps s).1 ((take_broken_peer_eps s).0, used)

pub data Reach (message : Busy → Bytes) : World → World → Type 1 where
  here : {w : World} → Reach message w w
  next :
      {a b c : World} {closed : List RemovedEndpoint}
      → Reach message a b
      → Step message b closed c
      → Reach message a c

module _ (message : Busy → Bytes) where
  Step-IsSafe :
      {a b : World} {closed : List RemovedEndpoint}
      → Step message a closed b
      → IsCounted a.0.peer_eps a.1
      → IsSafe b.0.peer_eps b.1 closed
  unfolding mark_peer_ep_broken
  Step-IsSafe (begins {s} {used} p addr created fresh) v =
      begin-IsSafe message p addr created s used v fresh
  Step-IsSafe (ends {s} l r c result) v = end-IsSafe result c l r s v
  Step-IsSafe (breaks {s} {used} p) v = (break-IsCounted p s.peer_eps used v, tt)
  Step-IsSafe (reaps {s} {used}) v = reap-IsSafe s used v

  Reach-IsCounted :
      {a b : World} → IsCounted a.0.peer_eps a.1 → Reach message a b → IsCounted b.0.peer_eps b.1
  Reach-IsCounted v here = v
  Reach-IsCounted v (next r s) = (Step-IsSafe s (Reach-IsCounted v r)).0

  -- From a new state, through requests that begin and end with any result, failures and passes of
  -- the reaper, in any order: each count in the map is the number of requests that have that
  -- endpoint, each request's endpoint is its peer's, and no step closes an endpoint that a request
  -- has after the step; when UCX only answers handles that no endpoint of the map has.
  pub new_runtime-Step-IsSafe :
      (me : Bytes) {a b : World} {closed : List RemovedEndpoint}
      → Reach message (new_runtime me, []) a
      → Step message a closed b
      → IsSafe b.0.peer_eps b.1 closed
  unfolding new_runtime
  new_runtime-Step-IsSafe me r s = Step-IsSafe s (Reach-IsCounted empty-IsCounted r)
