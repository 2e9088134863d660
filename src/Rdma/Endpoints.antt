-- ===== src/Rdma/Endpoints.antt =====
-- `RuntimeState` of src/transport_ucx.rs: the endpoints to the peers. A handle of UCX is a number; what
-- `ucp_ep_create` answers is an argument. The flag `broken` is also set by UCX, in `break_endpoint`.
use blobcache.Prelude.{
  ℕ, ◌+◌, ◌-◌, List, [], ◌∷◌, Option, none, some, Bytes, Bool, true, false, not, ◌&&◌, ◌==◌,
  if◌then◌else◌, map,
}
use blobcache.Prelude.Assoc.{get, insert, remove, modify}
use blobcache.Prelude.Result.{peer, not_found, Result, ok, err}
use blobcache.Cluster.State.{text_discrete, same_text}

pub record EndpointSlot : Type 0 where
  pub ep : ℕ
  pub broken : Bool
  pub peer_addr_blob : Bytes
  pub in_flight : ℕ

pub record RuntimeState : Type 0 where
  pub local_peer_id : Bytes
  pub peer_eps : List (Bytes × EndpointSlot)
  pub peer_addr_blobs : List (Bytes × Bytes)
  pub lane_verified : Bool

pub record CheckedOutEndpoint : Type 0 where
  pub peer_id : Bytes
  pub ep : ℕ

-- An endpoint that the caller has to close, by force if it is broken.
pub record RemovedEndpoint : Type 0 where
  pub ep : ℕ
  pub broken : Bool

abbrev pub from_slot : EndpointSlot → RemovedEndpoint
from_slot slot = record { ep = slot.ep; broken = slot.broken }

unfoldable pub new_runtime : Bytes → RuntimeState
new_runtime local_peer_id = record {
  local_peer_id = local_peer_id;
  peer_eps = [];
  peer_addr_blobs = [];
  lane_verified = false;
}

abbrev pub break_slot : EndpointSlot → EndpointSlot
break_slot slot = record slot { broken = true }

unfoldable pub mark_peer_ep_broken : Bytes → RuntimeState → RuntimeState
mark_peer_ep_broken peer_id s = record s {
  peer_eps = modify text_discrete peer_id break_slot s.peer_eps;
}

unfoldable pub update_peer_addr_blob :
    Bytes → Bytes → RuntimeState → RuntimeState × Option RemovedEndpoint
unfolding mark_peer_ep_broken
update_peer_addr_blob peer_id addr s =
    let s' = record s { peer_addr_blobs = insert text_discrete peer_id addr s.peer_addr_blobs } in
    elim (get text_discrete peer_id s'.peer_eps) [
      | none ↦ (s', none)
      | some slot ↦
          if not (same_text slot.peer_addr_blob addr) && slot.in_flight == 0
          then (
            record s' { peer_eps = remove text_discrete peer_id s'.peer_eps },
            some (from_slot slot),
          )
          else if not (same_text slot.peer_addr_blob addr)
          then (mark_peer_ep_broken peer_id s', none)
          else (s', none)
    ]

-- What the refusals of `checkout_endpoint` are about.
pub data Busy : Type 0 where
  endpoint_broken update_in_flight : Busy

abbrev pub one_more : EndpointSlot → EndpointSlot
one_more slot = record slot { in_flight = slot.in_flight + 1 }

unfoldable pub verify_lane_once : RuntimeState → RuntimeState
verify_lane_once s = if s.lane_verified then s else record s { lane_verified = true }

-- `created` is the answer of `create_peer_ep`, which is only called for a peer without an endpoint.
unfoldable pub checkout_endpoint :
    (Busy → Bytes)
    → Bytes
    → Bytes
    → Result ℕ
    → RuntimeState
    → RuntimeState × Result CheckedOutEndpoint
unfolding verify_lane_once
checkout_endpoint message peer_id addr created s = elim (get text_discrete peer_id s.peer_eps) [
  | some slot ↦
      if slot.broken
      then (s, err (peer (message endpoint_broken)))
      else if not (same_text slot.peer_addr_blob addr)
      then (s, err (peer (message update_in_flight)))
      else (
        record s { peer_eps = modify text_discrete peer_id one_more s.peer_eps },
        ok (record { peer_id = peer_id; ep = slot.ep }),
      )
  | none ↦ elim created [
    | err e ↦ (s, err e)
    | ok ep ↦ (
      verify_lane_once (record s {
        peer_eps =
            insert text_discrete peer_id
              (record { ep = ep; broken = false; peer_addr_blob = addr; in_flight = 1 }) s.peer_eps;
      }),
      ok (record { peer_id = peer_id; ep = ep }),
    )
  ]
]

abbrev pub one_less : EndpointSlot → EndpointSlot
one_less slot = record slot { in_flight = slot.in_flight - 1 }

unfoldable pub release_endpoint :
    CheckedOutEndpoint → RuntimeState → RuntimeState × Option RemovedEndpoint
release_endpoint c s = elim (get text_discrete c.peer_id s.peer_eps) [
  | none ↦ (s, none)
  | some slot ↦
      if (slot.in_flight - 1 == 0) && slot.broken
      then (
        record s { peer_eps = remove text_discrete c.peer_id s.peer_eps },
        some (from_slot (one_less slot)),
      )
      else (record s { peer_eps = modify text_discrete c.peer_id one_less s.peer_eps }, none)
]

abbrev pub is_stale : EndpointSlot → Bool
is_stale slot = slot.in_flight == 0 && slot.broken

-- The pass of `take_broken_peer_eps`: what stays, and what is removed.
unfoldable pub part_stale :
    List (Bytes × EndpointSlot) → List (Bytes × EndpointSlot) × List RemovedEndpoint
part_stale [] = ([], [])
part_stale ((peer_id, slot) ∷ eps) =
    let (kept, removed) = part_stale eps in
    if is_stale slot then (kept, from_slot slot ∷ removed) else ((peer_id, slot) ∷ kept, removed)

unfoldable pub take_broken_peer_eps : RuntimeState → RuntimeState × List RemovedEndpoint
unfolding part_stale
take_broken_peer_eps s =
    let (kept, removed) = part_stale s.peer_eps in (record s { peer_eps = kept }, removed)

unfoldable pub take_all_peer_eps : RuntimeState → RuntimeState × List RemovedEndpoint
take_all_peer_eps s = (record s { peer_eps = [] }, map (λ e. from_slot e.1) s.peer_eps)

-- An error returns before the removed endpoint is closed.
abbrev pub closed_first {ℓ} : {A : Type ℓ} → Result CheckedOutEndpoint → Option A → Option A
closed_first (ok c) removed = removed
closed_first (err e) removed = none

-- How `client_fetch`, `client_health` and `server_send_response` begin: with the endpoint to use, or an
-- error; and the endpoint that they close before, if any.
unfoldable pub begin_use :
    (Busy → Bytes)
    → Bytes
    → Bytes
    → Result ℕ
    → RuntimeState
    → RuntimeState × Result CheckedOutEndpoint × Option RemovedEndpoint
unfolding update_peer_addr_blob checkout_endpoint
begin_use message peer_id addr created s =
    let (s', removed) = update_peer_addr_blob peer_id addr s in
    let (t, answer) = checkout_endpoint message peer_id addr created s' in
    (t, answer, closed_first answer removed)

abbrev pub should_mark_endpoint_broken {ℓ} : {A : Type ℓ} → Result A → Bool
should_mark_endpoint_broken (ok a) = false
should_mark_endpoint_broken (err (not_found text)) = false
should_mark_endpoint_broken (err e) = true

-- How a request ends, with this result.
unfoldable pub end_use {ℓ} :
    {A : Type ℓ}
    → CheckedOutEndpoint
    → Result A
    → RuntimeState
    → RuntimeState × Option RemovedEndpoint
unfolding mark_peer_ep_broken release_endpoint
end_use c result s =
    release_endpoint c
      (if should_mark_endpoint_broken result then mark_peer_ep_broken c.peer_id s else s)
