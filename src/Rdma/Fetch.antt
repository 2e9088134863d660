-- ===== src/Rdma/Fetch.antt =====
-- A fetch over UCX from end to end, src/transport_ucx.rs: what the client gets is what the server has.
use blobcache.Prelude.{
  ℕ, ◌<◌, ◌≤◌, ◌≡◌, refl, sym, ap, ◌∙◌, [], Bytes, true, false, ◌||◌, ◌==◌, ltb, Option, none, some,
  if◌then◌else◌, length, length-take, length-drop, drop, arith, Option-cases, Bool-cases, inl, inr,
}
use blobcache.Prelude.Result.{Result, ok, err, not_found}
use blobcache.Cache.State.{DiskCache, Os, Files, read_file}
use blobcache.Cache.Read.{entry_size, try_get_into_slice, read_exact_at, finish_read, path_for}
use blobcache.Cache.Key.{ChunkKey, key_discrete}
use blobcache.Prelude.Assoc.{get}
use blobcache.Rdma.Wire.{
  Fault, ChunkRequest, encode_request, encode_response, decode_response, status_ok, status_miss,
  max_response_bytes, refuse, payload_size, peer_miss,
}
use blobcache.Rdma.Request.{IsSendable, decode_request-encode_request}
use blobcache.Rdma.Reply.{decode_response-encode_response}
use blobcache.Rdma.Serve.{
  Server, ChunkProvider, chunk_response, cached_response, provided_payload, respond_uncached,
  respond, handle_inbound_request, fetch_with,
}

-- A chunk that may be sent: not longer than was asked for.
abbrev within : ℕ → Option Bytes → Option Bytes
within len none = none
within len (some b) = if ltb len (length b) then none else some b

-- What the cache has of the chunk, if its entry is not longer than was asked for.
abbrev cached : (Bytes → Bytes) → Os → ChunkRequest → DiskCache → Option Bytes
cached sha256 os request cache = elim (entry_size request.key cache) [
  | none ↦ none
  | some size ↦
      if ltb request.len size then none else (try_get_into_slice sha256 os request.key size cache).1
]

abbrev either_of {ℓ} : {A : Type ℓ} → Option A → Option A → Option A
either_of (some a) b = some a
either_of none b = b

-- What a server has of the chunk: in its cache, or else from its provider.
abbrev pub available :
    (Bytes → Bytes) → Os → Option ChunkProvider → ChunkRequest → DiskCache → Option Bytes
available sha256 os provider request cache =
    either_of (cached sha256 os request cache)
      (within request.len (provided_payload provider request))

read_exact_at-length :
    (os : Os) (name : Bytes) (start n : ℕ) (files : Files) (b : Bytes)
    → read_exact_at os name start n files ≡ some b
    → length b ≡ n
unfolding read_exact_at
read_exact_at-length os name start n files b e = elim (Option-cases (read_file os name files)) [
  | inl missing ↦ ground (arith, missing)
  | inr (content, found) ↦
      ground (arith, found, length-take n (drop start content), length-drop start content)
]

finish_read-some :
    (key : ChunkKey) (a b : Bytes) (c : DiskCache) → (finish_read key a c).1 ≡ some b → a ≡ b
unfolding finish_read
finish_read-some key a b c e = ground arith

read-length :
    (sha256 : Bytes → Bytes) (os : Os) (key : ChunkKey) (size : ℕ) (cache : DiskCache) (b : Bytes)
    → (try_get_into_slice sha256 os key size cache).1 ≡ some b
    → length b ≡ size
unfolding try_get_into_slice
read-length sha256 os key size cache b e =
    elim (Option-cases (get key_discrete key cache.entries)) [
      | inl missing ↦ ground (arith, missing)
      | inr (entry, found) ↦
          elim (Option-cases (read_exact_at os (path_for sha256 key) 0 size cache.files)) [
            | inl bad ↦ ground (arith, found, bad)
            | inr (content, read) ↦ ground (
              arith,
              found,
              read,
              read_exact_at-length os (path_for sha256 key) 0 size cache.files content read,
              finish_read-some key content b cache,
            )
          ]
    ]

module _ (message : Fault → Bytes) where
  -- What the client makes of it.
  abbrev pub received : Option Bytes → Result Bytes
  received none = err (not_found (message peer_miss))
  received (some b) = if length b == 0 then err (refuse message (payload_size 0)) else ok b

  chunk_response-received :
      (b : Bytes) (len : ℕ)
      → length b ≤ len
      → len ≤ max_response_bytes
      → decode_response message (chunk_response (length b) b) len ≡ received (some b)
  unfolding chunk_response encode_response
  chunk_response-received b len fits small =
      decode_response-encode_response message status_ok b _ len (omega arith) (ground arith)
      ∙ ground arith

  encode_miss : (b : Bytes) × (encode_response message status_miss [] ≡ ok b)
  unfolding encode_response
  encode_miss = (_, refl)

  miss-received :
      (b : Bytes) (len : ℕ)
      → encode_response message status_miss [] ≡ ok b
      → decode_response message b len ≡ received none
  miss-received b len e =
      decode_response-encode_response message status_miss [] b len (omega arith) e ∙ ground arith

  -- A server answers with a response that the client reads so.
  abbrev Answers : Result Bytes → ℕ → Option Bytes → Type 0
  Answers answer len b =
      (resp : Bytes) × (answer ≡ ok resp) × (decode_response message resp len ≡ received b)

  respond_uncached-Answers :
      (provider : Option ChunkProvider) (r : ChunkRequest) (s : Server)
      → r.len ≤ max_response_bytes
      → Answers
          (respond_uncached message provider r s).1
          r.len
          (within r.len (provided_payload provider r))
  unfolding respond_uncached
  respond_uncached-Answers provider r s small =
      let (miss, made) = encode_miss in
      elim (Option-cases (provided_payload provider r)) [
        | inl nothing ↦ rw (nothing, respond_uncached) (miss, made, miss-received miss r.len made)
        | inr (b, given) ↦ elim (Bool-cases (ltb r.len (length b))) [
          | inl long ↦
              rw (given, long, respond_uncached) (miss, made, miss-received miss r.len made)
          | inr fits ↦
              rw (given, fits, respond_uncached)
                (_, refl, chunk_response-received b r.len (ground arith) small)
        ]
      ]

  respond-Answers :
      (sha256 : Bytes → Bytes) (os : Os) (provider : Option ChunkProvider) (r : ChunkRequest)
      (s : Server)
      → r.len ≤ max_response_bytes
      → Answers
          (respond message sha256 os provider r s).1
          r.len
          (available sha256 os provider r s.cache)
  unfolding respond cached_response
  respond-Answers sha256 os provider r s small = elim (Option-cases (entry_size r.key s.cache)) [
    | inl missing ↦
        rw (missing, available, cached, either_of, cached_response, respond)
          (respond_uncached-Answers provider r _ small)
    | inr (size, found) ↦ elim (Bool-cases (ltb r.len size)) [
      | inl long ↦
          rw (found, long, available, cached, either_of, cached_response, respond)
            (respond_uncached-Answers provider r _ small)
      | inr fits ↦ elim (Option-cases (try_get_into_slice sha256 os r.key size s.cache).1) [
        | inl lost ↦
            rw (found, fits, lost, available, cached, either_of, cached_response, respond)
              (respond_uncached-Answers provider r _ small)
        | inr (b, read) ↦
            let n = read-length sha256 os r.key size s.cache b read in
            rw (found, fits, read, available, cached, either_of, cached_response, respond)
              (
                _,
                refl,
                ap (λ k. decode_response message (chunk_response k b) r.len) (sym n)
                    ∙ chunk_response-received b r.len (ground arith) small,
              )
      ]
    ]
  ]

  -- A request of texts and numbers in their range, whose request id has only ASCII letters, digits
  -- and `-`, whose names fit their length fields and whose length is valid, reaches a server that reads its cache without a panic, and a transfer that
  -- delivers the server's answer: the fetch returns the bytes of the chunk in the server's cache, if
  -- its entry is not longer than was asked for; or else what the provider gives for a request that
  -- waits, if that is not longer; or else that the peer misses it. Empty bytes are an error.
  pub fetch_with-handle_inbound_request :
      (sha256 : Bytes → Bytes) (os : Os) (provider : Option ChunkProvider) (r : ChunkRequest)
      (s : Server) (transfer : Bytes → Result Bytes) (req : Bytes)
      → IsSendable message r
      → encode_request message r.key r.len r.requester_peer_id r.wait_ms r.request_id ≡ ok req
      → 0 < r.len
      → r.len ≤ max_response_bytes
      → ((b resp who : Bytes)
          → (handle_inbound_request message sha256 os provider true b s).1 ≡ ok (some (who, resp))
          → transfer b ≡ ok resp)
      → fetch_with message transfer r.key r.len r.wait_ms r.requester_peer_id r.request_id
        ≡ received (available sha256 os provider r s.cache)
  unfolding fetch_with handle_inbound_request
  fetch_with-handle_inbound_request sha256 os provider r s transfer req sendable encoded some_len
        small delivers =
      let (resp, answered, reads) = respond-Answers sha256 os provider r s small in
      let decoded = decode_request-encode_request message r req sendable encoded in
      let valid : (r.len == 0 || ltb max_response_bytes r.len) ≡ false = ground arith in
      let sent : transfer req ≡ ok resp =
        delivers req resp r.requester_peer_id
          (rw (decoded, valid, answered, handle_inbound_request)) in
      rw (valid, encoded, sent, fetch_with) reads
