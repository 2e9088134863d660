-- ===== src/Rdma/Flights.antt =====
-- The requests that use an endpoint of src/transport_ucx.rs, and its count of them.
use blobcache.Prelude.{
  ℕ, ◌+◌, ◌≡◌, ◌≢◌, refl, ap, ◌∙◌, List, [], ◌∷◌, ◌++◌, none, some, Bytes, if◌then◌else◌, All,
  arith, Option-cases, inl, inr,
}
use blobcache.Prelude.Assoc.{
  get, insert, remove, modify, Distinct, get-insert, get-remove, get-modify, insert-Distinct,
  remove-Distinct, modify-Distinct,
}
use blobcache.Cluster.State.{text_discrete, same_text}
use blobcache.Rdma.Endpoints.{EndpointSlot, CheckedOutEndpoint}

abbrev pub Eps : Type 0
Eps = List (Bytes × EndpointSlot)

-- How many requests to a peer have its endpoint.
unfoldable pub flights : Bytes → List CheckedOutEndpoint → ℕ
flights p [] = 0
flights p (c ∷ used) = (if same_text c.peer_id p then 1 else 0) + flights p used

pub flights-append :
    (p : Bytes) (l r : List CheckedOutEndpoint) → flights p (l ++ r) ≡ flights p l + flights p r
unfolding flights
flights-append p [] r = omega arith
flights-append p (c ∷ l) r = omega (arith, flights-append p l r)

pub flights_add :
    (p : Bytes) (l r : List CheckedOutEndpoint) (c : CheckedOutEndpoint)
    → flights p (l ++ c ∷ r) ≡ (if same_text c.peer_id p then 1 else 0) + flights p (l ++ r)
flights_add p l r c =
    unfold flights in omega (arith, flights-append p l (c ∷ r), flights-append p l r)

-- A request has the endpoint that its peer has.
abbrev pub IsHeld : Eps → CheckedOutEndpoint → Type 0
IsHeld eps c =
    (slot : EndpointSlot) × (get text_discrete c.peer_id eps ≡ some slot) × (slot.ep ≡ c.ep)

-- Each peer has one endpoint, of its own, whose count is that of the requests that have it.
pub record IsCounted (eps : Eps) (used : List CheckedOutEndpoint) : Type 0 where
  pub distinct : Distinct text_discrete eps
  pub apart :
      (p q : Bytes) (s t : EndpointSlot)
      → get text_discrete p eps ≡ some s
      → get text_discrete q eps ≡ some t
      → s.ep ≡ t.ep
      → p ≡ q
  pub counted :
      (p : Bytes) (s : EndpointSlot)
      → get text_discrete p eps ≡ some s
      → s.in_flight ≡ flights p used
  pub held : All (IsHeld eps) used

pub empty-IsCounted : IsCounted [] []
unfolding get
empty-IsCounted = record {
  distinct = tt;
  apart = λ p q t u e f same. ground arith;
  counted = λ p t e. ground arith;
  held = tt;
}

no_flights :
    (p : Bytes) (used : List CheckedOutEndpoint)
    → flights p used ≡ 0
    → All (λ c. c.peer_id ≢ p) used
unfolding flights
no_flights p [] e = tt
no_flights p (c ∷ used) e = ground (arith, no_flights p used)

-- What a removed endpoint of a peer with no flights leaves.
module _ (eps : Eps) (used : List CheckedOutEndpoint) (v : IsCounted eps used) (p : Bytes)
    (s : EndpointSlot) (found : get text_discrete p eps ≡ some s) where
  found_remove :
      (q : Bytes) (t : EndpointSlot)
      → get text_discrete q (remove text_discrete p eps) ≡ some t
      → (p ≢ q) × (get text_discrete q eps ≡ some t)
  found_remove q t e = ground (arith, get-remove text_discrete q p eps)

  IsHeld-remove :
      (l : List CheckedOutEndpoint)
      → All (λ c. c.peer_id ≢ p) l
      → All (IsHeld eps) l
      → All (IsHeld (remove text_discrete p eps)) l
  IsHeld-remove [] a h = tt
  IsHeld-remove (c ∷ l) (other, a) ((t, e, same), h) =
      ((t, ground (arith, get-remove text_discrete c.peer_id p eps), same), IsHeld-remove l a h)

  pub remove-IsCounted : flights p used ≡ 0 → IsCounted (remove text_discrete p eps) used
  remove-IsCounted idle = record {
    distinct = remove-Distinct text_discrete p eps v.distinct;
    apart = λ q r t u e f same. v.apart q r t u (found_remove q t e).1 (found_remove r u f).1 same;
    counted = λ q t e. v.counted q t (found_remove q t e).1;
    held = IsHeld-remove used (no_flights p used idle) v.held;
  }

  -- No request has the endpoint.
  not_held :
      (l : List CheckedOutEndpoint)
      → All (λ c. c.peer_id ≢ p) l
      → All (IsHeld eps) l
      → All (λ c. c.ep ≢ s.ep) l
  not_held [] a h = tt
  not_held (c ∷ l) (other, a) ((t, e, same), h) =
      (λ clash. other (v.apart c.peer_id p t s e found (same ∙ clash)), not_held l a h)

  pub unused : flights p used ≡ 0 → All (λ c. c.ep ≢ s.ep) used
  unused idle = not_held used (no_flights p used idle) v.held

-- A change of a slot that leaves its endpoint.
module _ (p : Bytes) (f : EndpointSlot → EndpointSlot)
    (same_ep : (s : EndpointSlot) → (f s).ep ≡ s.ep) where
  found_modify :
      (eps : Eps) (q : Bytes) (t : EndpointSlot)
      → get text_discrete q (modify text_discrete p f eps) ≡ some t
      → (s : EndpointSlot) × (get text_discrete q eps ≡ some s)
        × (t ≡ (if same_text p q then f s else s))
  found_modify eps q t e = elim (Option-cases (get text_discrete q eps)) [
    | inl missing ↦ ground (arith, get-modify text_discrete q p f eps)
    | inr (s, found) ↦ (s, found, ground (arith, get-modify text_discrete q p f eps))
  ]

  pub IsHeld-modify :
      (eps : Eps) (l : List CheckedOutEndpoint)
      → All (IsHeld eps) l
      → All (IsHeld (modify text_discrete p f eps)) l
  IsHeld-modify eps [] h = tt
  IsHeld-modify eps (c ∷ l) ((s, found, same), h) = (
    (
      (if same_text p c.peer_id then f s else s),
      ground (arith, get-modify text_discrete c.peer_id p f eps),
      ground (arith, same_ep s),
    ),
    IsHeld-modify eps l h,
  )

  pub modify-IsCounted :
      (eps : Eps) (used used' : List CheckedOutEndpoint)
      → ((q : Bytes) (s : EndpointSlot)
          → s.in_flight ≡ flights q used
          → (if same_text p q then f s else s).in_flight ≡ flights q used')
      → All (IsHeld (modify text_discrete p f eps)) used'
      → IsCounted eps used
      → IsCounted (modify text_discrete p f eps) used'
  modify-IsCounted eps used used' step h v = record {
    distinct = modify-Distinct text_discrete p f eps v.distinct;
    apart = λ q r t u e g same.
        let (s, s_found, s_is) = found_modify eps q t e in
        let (w, w_found, w_is) = found_modify eps r u g in
        v.apart q r s w s_found w_found (ground (arith, same_ep s, same_ep w));
    counted = λ q t e.
        let (s, s_found, s_is) = found_modify eps q t e in
        ap (λ x. x.in_flight) s_is ∙ step q s (v.counted q s s_found);
    held = h;
  }

-- A slot for a peer that had none, with a new endpoint and its first request.
module _ (eps : Eps) (p : Bytes) (missing : get text_discrete p eps ≡ none)
    (slot : EndpointSlot) where
  strangers : (l : List CheckedOutEndpoint) → All (IsHeld eps) l → All (λ c. c.peer_id ≢ p) l
  strangers [] h = tt
  strangers (c ∷ l) ((s, found, same), h) = (ground arith, strangers l h)

  no_flights_of : (l : List CheckedOutEndpoint) → All (λ c. c.peer_id ≢ p) l → flights p l ≡ 0
  unfolding flights
  no_flights_of [] a = refl
  no_flights_of (c ∷ l) (other, a) = ground (arith, no_flights_of l a)

  IsHeld-insert :
      (l : List CheckedOutEndpoint)
      → All (λ c. c.peer_id ≢ p) l
      → All (IsHeld eps) l
      → All (IsHeld (insert text_discrete p slot eps)) l
  IsHeld-insert [] a h = tt
  IsHeld-insert (c ∷ l) (other, a) ((s, found, same), h) = (
    (s, ground (arith, get-insert text_discrete c.peer_id p slot eps), same),
    IsHeld-insert l a h,
  )

  pub insert-IsCounted :
      (used : List CheckedOutEndpoint)
      → slot.in_flight ≡ 1
      → ((q : Bytes) (t : EndpointSlot) → get text_discrete q eps ≡ some t → t.ep ≢ slot.ep)
      → IsCounted eps used
      → IsCounted (insert text_discrete p slot eps) (record { peer_id = p; ep = slot.ep } ∷ used)
  unfolding flights
  insert-IsCounted used one fresh v =
      let alone = strangers used v.held in
      record {
        distinct = insert-Distinct text_discrete p slot eps v.distinct;
        apart = λ q r t u e f same. ground (
          arith,
          get-insert text_discrete q p slot eps,
          get-insert text_discrete r p slot eps,
          v.apart q r t u,
          fresh q t,
          fresh r u,
        );
        counted = λ q t e.
            ground (
              arith,
              get-insert text_discrete q p slot eps,
              v.counted q t,
              no_flights_of used alone,
            );
        held = (
          (slot, ground (arith, get-insert text_discrete p p slot eps), refl),
          IsHeld-insert used alone v.held,
        );
      }
