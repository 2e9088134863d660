-- ===== src/Rdma/Reaping.antt =====
-- The passes of `take_broken_peer_eps` of src/transport_ucx.rs only remove endpoints that no request has.
use blobcache.Prelude.{
  ◌≤◌, ◌≡◌, refl, List, [], ◌∷◌, Option, none, some, Bytes, if◌then◌else◌, All, arith, Bool-cases,
  inl, inr,
}
use blobcache.Prelude.Assoc.{get, Distinct}
use blobcache.Cluster.State.{text_discrete}
use blobcache.Rdma.Endpoints.{
  EndpointSlot, RuntimeState, CheckedOutEndpoint, is_stale, take_broken_peer_eps, part_stale,
}
use blobcache.Rdma.Flights.{Eps, flights, IsHeld, IsCounted, unused}
use blobcache.Rdma.Closing.{IsUnused, IsSafe}

-- A pass over the endpoints, by peer.
abbrev unless_stale : Option EndpointSlot → Option EndpointSlot
unless_stale none = none
unless_stale (some t) = if is_stale t then none else some t

get-part_stale :
    (p : Bytes) (eps : Eps)
    → Distinct text_discrete eps
    → get text_discrete p (part_stale eps).0 ≡ unless_stale (get text_discrete p eps)
unfolding part_stale get
get-part_stale p [] d = refl
get-part_stale p ((q, slot) ∷ eps) (new, d) = ground (arith, get-part_stale p eps d)

part_stale-Distinct :
    (eps : Eps) → Distinct text_discrete eps → Distinct text_discrete (part_stale eps).0
unfolding part_stale
part_stale-Distinct [] d = tt
part_stale-Distinct ((q, slot) ∷ eps) (new, d) =
    ground (arith, part_stale-Distinct eps d, get-part_stale q eps d)

module _ (eps : Eps) (used : List CheckedOutEndpoint) (v : IsCounted eps used) where
  kept :
      (p : Bytes) (t : EndpointSlot)
      → get text_discrete p (part_stale eps).0 ≡ some t
      → get text_discrete p eps ≡ some t
  kept p t e = ground (arith, get-part_stale p eps v.distinct)

  IsHeld-part :
      (l : List CheckedOutEndpoint)
      → ((p : Bytes) → flights p l ≤ flights p used)
      → All (IsHeld eps) l
      → All (IsHeld (part_stale eps).0) l
  unfolding flights
  IsHeld-part [] le h = tt
  IsHeld-part (c ∷ l) le ((t, e, same), h) = (
    (
      t,
      ground (arith, get-part_stale c.peer_id eps v.distinct, v.counted c.peer_id t, le c.peer_id),
      same,
    ),
    IsHeld-part l (λ p. ground (arith, le p)) h,
  )

  part_stale-IsCounted : IsCounted (part_stale eps).0 used
  part_stale-IsCounted = record {
    distinct = part_stale-Distinct eps v.distinct;
    apart = λ q r t u e f. v.apart q r t u (kept q t e) (kept r u f);
    counted = λ q t e. v.counted q t (kept q t e);
    held = IsHeld-part used (λ p. omega arith) v.held;
  }

  -- The endpoints that the pass removes, for a part of the map.
  removed-IsUnused :
      (part : Eps)
      → Distinct text_discrete part
      → ((p : Bytes) (t : EndpointSlot)
          → get text_discrete p part ≡ some t
          → get text_discrete p eps ≡ some t)
      → All (IsUnused used) (part_stale part).1
  unfolding part_stale get
  removed-IsUnused [] d sub = tt
  removed-IsUnused ((q, slot) ∷ part) (new, d) sub =
      let rest = removed-IsUnused part d (λ p t e. sub p t (ground arith)) in
      elim (Bool-cases (is_stale slot)) [
        | inl stale ↦
            let found : get text_discrete q eps ≡ some slot = sub q slot (ground arith) in
            let idle : flights q used ≡ 0 = ground (arith, v.counted q slot found) in
            rw stale (unused eps used v q slot found idle, rest)
        | inr live ↦ rw live rest
      ]

pub reap-IsSafe :
    (s : RuntimeState) (used : List CheckedOutEndpoint)
    → IsCounted s.peer_eps used
    → IsSafe (take_broken_peer_eps s).0.peer_eps used (take_broken_peer_eps s).1
unfolding take_broken_peer_eps
reap-IsSafe s used v = (
  part_stale-IsCounted s.peer_eps used v,
  removed-IsUnused s.peer_eps used v s.peer_eps v.distinct (λ p t e. e),
)
