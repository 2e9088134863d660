-- ===== src/Rdma/Closing.antt =====
-- No endpoint of src/transport_ucx.rs is closed while a request has it, in whatever order requests,
-- updates of addresses, failures and the reaping of broken endpoints take the state.
use blobcache.Prelude.{
  ℕ, ◌-◌, ◌≡◌, ◌≢◌, refl, subst, List, [], ◌∷◌, ◌++◌, Option, none, some, Bytes, not, ◌&&◌, ◌==◌,
  All, arith, Option-cases, Bool-cases, inl, inr, ◌⊎◌,
}
use blobcache.Prelude.Assoc.{get, modify, get-modify, remove-modify}
use blobcache.Prelude.Result.{Result, ok, err, BcError}
use blobcache.Cluster.State.{text_discrete, same_text}
use blobcache.Rdma.Endpoints.{
  EndpointSlot, RuntimeState, CheckedOutEndpoint, RemovedEndpoint, one_more, one_less, break_slot,
  update_peer_addr_blob, checkout_endpoint, release_endpoint, verify_lane_once, Busy,
}
use blobcache.Rdma.Flights.{
  Eps, flights, flights_add, IsHeld, IsCounted, remove-IsCounted, unused, modify-IsCounted,
  IsHeld-modify, insert-IsCounted,
}

-- None of the endpoints to close is one that a request has.
abbrev pub IsUnused : List CheckedOutEndpoint → RemovedEndpoint → Type 0
IsUnused used r = All (λ c. c.ep ≢ r.ep) used

abbrev pub opt_list {ℓ} : {A : Type ℓ} → Option A → List A
opt_list none = []
opt_list (some a) = a ∷ []

-- What every step keeps, and what it may close.
abbrev pub IsSafe : Eps → List CheckedOutEndpoint → List RemovedEndpoint → Type 0
IsSafe eps used closed = IsCounted eps used × All (IsUnused used) closed

pub break-IsCounted :
    (p : Bytes) (eps : Eps) (used : List CheckedOutEndpoint)
    → IsCounted eps used
    → IsCounted (modify text_discrete p break_slot eps) used
break-IsCounted p eps used v =
    modify-IsCounted p break_slot (λ s. refl) eps used used (λ q s e. ground arith)
      (IsHeld-modify p break_slot (λ s. refl) eps used v.held) v

pub update-IsSafe :
    (p addr : Bytes) (s : RuntimeState) (used : List CheckedOutEndpoint)
    → IsCounted s.peer_eps used
    → IsSafe
        (update_peer_addr_blob p addr s).0.peer_eps
        used
        (opt_list (update_peer_addr_blob p addr s).1)
unfolding update_peer_addr_blob
update-IsSafe p addr s used v = elim (Option-cases (get text_discrete p s.peer_eps)) [
  | inl missing ↦ rw (missing, update_peer_addr_blob) (v, tt)
  | inr (slot, found) ↦
      elim (Bool-cases (not (same_text slot.peer_addr_blob addr) && slot.in_flight == 0)) [
        | inl stale ↦
            let idle : flights p used ≡ 0 = ground (arith, v.counted p slot found) in
            rw (found, stale, update_peer_addr_blob)
              (
                remove-IsCounted s.peer_eps used v p slot found idle,
                (unused s.peer_eps used v p slot found idle, tt),
              )
        | inr kept ↦ elim (Bool-cases (not (same_text slot.peer_addr_blob addr))) [
          | inl moved ↦
              rw (found, kept, moved, update_peer_addr_blob)
                (break-IsCounted p s.peer_eps used v, tt)
          | inr same ↦ rw (found, kept, same, update_peer_addr_blob) (v, tt)
        ]
      ]
]

-- The requests that have an endpoint, after one more began with this answer.
abbrev pub taken : List CheckedOutEndpoint → Result CheckedOutEndpoint → List CheckedOutEndpoint
taken used (ok c) = c ∷ used
taken used (err e) = used

failed_or_not : (r : Result ℕ) → ((n : ℕ) × (r ≡ ok n)) ⊎ ((e : BcError) × (r ≡ err e))
failed_or_not (ok n) = inl (n, refl)
failed_or_not (err e) = inr (e, refl)

verified : (s : RuntimeState) → (verify_lane_once s).peer_eps ≡ s.peer_eps
unfolding verify_lane_once
verified s = elim (Bool-cases s.lane_verified) [ inl h ↦ rw h | inr h ↦ rw h ]

module _ (message : Busy → Bytes) (p addr : Bytes) (created : Result ℕ) (s : RuntimeState)
    (used : List CheckedOutEndpoint) (v : IsCounted s.peer_eps used) where
  -- UCX does not create an endpoint that there is.
  abbrev pub IsFresh : Type 0
  IsFresh =
      (ep : ℕ)
      → created ≡ ok ep
      → (q : Bytes) (t : EndpointSlot) → get text_discrete q s.peer_eps ≡ some t
      → t.ep ≢ ep

  pub checkout-IsCounted :
      IsFresh
      → IsCounted
          (checkout_endpoint message p addr created s).0.peer_eps
          (taken used (checkout_endpoint message p addr created s).1)
  unfolding checkout_endpoint flights
  checkout-IsCounted fresh = elim (Option-cases (get text_discrete p s.peer_eps)) [
    | inr (slot, found) ↦ elim (Bool-cases slot.broken) [
      | inl bad ↦ rw (found, bad, checkout_endpoint) v
      | inr good ↦ elim (Bool-cases (not (same_text slot.peer_addr_blob addr))) [
        | inl moved ↦ rw (found, good, moved, checkout_endpoint) v
        | inr same ↦
            rw (found, good, same, checkout_endpoint)
              (modify-IsCounted p one_more (λ t. refl) s.peer_eps used _ (λ q t e. ground arith)
                (
                  (
                    one_more slot,
                    ground (arith, get-modify text_discrete p p one_more s.peer_eps),
                    refl,
                  ),
                  IsHeld-modify p one_more (λ t. refl) s.peer_eps used v.held,
                )
                v)
      ]
    ]
    | inl missing ↦ elim (failed_or_not created) [
      | inl (ep, made) ↦
          rw (missing, made, checkout_endpoint, verified)
            (insert-IsCounted s.peer_eps p missing _ used refl (fresh ep made) v)
      | inr (e, failed) ↦ rw (missing, failed, checkout_endpoint) v
    ]
  ]

module _ (P : CheckedOutEndpoint → Type 0) (c : CheckedOutEndpoint)
    (r : List CheckedOutEndpoint) where
  All_at : (l : List CheckedOutEndpoint) → All P (l ++ c ∷ r) → P c
  All_at [] (h, hs) = h
  All_at (d ∷ l) (h, hs) = All_at l hs

  All-rest : (l : List CheckedOutEndpoint) → All P (l ++ c ∷ r) → All P (l ++ r)
  All-rest [] (h, hs) = hs
  All-rest (d ∷ l) (h, hs) = (h, All-rest l hs)

module _ (c : CheckedOutEndpoint) (l r : List CheckedOutEndpoint) (s : RuntimeState)
    (v : IsCounted s.peer_eps (l ++ c ∷ r)) where
  fewer : IsCounted (modify text_discrete c.peer_id one_less s.peer_eps) (l ++ r)
  fewer =
      modify-IsCounted c.peer_id one_less (λ t. refl) s.peer_eps (l ++ c ∷ r) (l ++ r)
        (λ q t e. ground (arith, flights_add q l r c))
        (IsHeld-modify c.peer_id one_less (λ t. refl) s.peer_eps (l ++ r)
          (All-rest (IsHeld s.peer_eps) c r l v.held))
        v

  pub release-IsSafe :
      IsSafe (release_endpoint c s).0.peer_eps (l ++ r) (opt_list (release_endpoint c s).1)
  unfolding release_endpoint
  release-IsSafe =
      let (slot, found, same) = All_at (IsHeld s.peer_eps) c r l v.held in
      let lowered : get text_discrete c.peer_id (modify text_discrete c.peer_id one_less s.peer_eps)
          ≡ some (one_less slot) =
        ground (arith, get-modify text_discrete c.peer_id c.peer_id one_less s.peer_eps) in
      elim (Bool-cases ((slot.in_flight - 1 == 0) && slot.broken)) [
        | inl last ↦
            let idle : flights c.peer_id (l ++ r) ≡ 0 =
              ground (arith, fewer.counted c.peer_id (one_less slot) lowered) in
            rw (found, last, release_endpoint)
              (
                subst (λ eps. IsCounted eps (l ++ r))
                    (remove-modify text_discrete c.peer_id one_less s.peer_eps)
                    (remove-IsCounted _ (l ++ r) fewer c.peer_id (one_less slot) lowered idle),
                (unused _ (l ++ r) fewer c.peer_id (one_less slot) lowered idle, tt),
              )
        | inr on ↦ rw (found, on, release_endpoint) (fewer, tt)
      ]
