-- ===== src/Rdma/Serve.antt =====
-- `handle_inbound_request` and `client_fetch_inner` of src/transport_ucx.rs: a peer's answer to a request,
-- and the client's part. The transfer of the bytes and the provider of chunks are arguments.
use mathlib.Core.Option
use blobcache.Prelude.{
  [], ℕ, ◌++◌, Bytes, Bool, ◌&&◌, ◌||◌, ◌==◌, ltb, Option, none, some, if◌then◌else◌, length,
}
use blobcache.Prelude.Word.{wrapping_add}
use blobcache.Prelude.Endian.{to_le_bytes}
use blobcache.Prelude.Result.{Result, ok, err, peer}
use blobcache.Cache.Key.{ChunkKey}
use blobcache.Cache.State.{DiskCache, Os}
use blobcache.Cache.Read.{entry_size, try_get_into_slice}
use blobcache.Rdma.Wire.{
  Fault, ChunkRequest, encode_request, decode_request, encode_response, decode_response, status_ok,
  status_miss, status_err, max_response_bytes,
}

-- What a handler works on: the cache, and the counter `PeerStats::chunk_bytes_served`.
pub record Server : Type 0 where
  pub cache : DiskCache
  pub chunk_bytes_served : ℕ

-- `ChunkProvider`: a key, a length and the time to wait
abbrev pub ChunkProvider : Type 0
ChunkProvider = ChunkKey → ℕ → ℕ → Option Bytes

-- The header and the payload that are sent for a chunk.
unfoldable pub chunk_response : ℕ → Bytes → Bytes
chunk_response size payload = to_le_bytes 4 status_ok ++ (to_le_bytes 4 size ++ payload)

abbrev pub count_served : ℕ → Server → Server
count_served n s = record s { chunk_bytes_served = wrapping_add s.chunk_bytes_served n }

module _ (sha256 : Bytes → Bytes) (os : Os) where
  -- The response with the chunk of the cache and its size, if it is not longer than was asked for.
  unfoldable pub cached_response : ChunkKey → ℕ → DiskCache → DiskCache × Option (Bytes × ℕ)
  unfolding chunk_response
  cached_response key req_len cache = elim (entry_size key cache) [
    | none ↦ (cache, none)
    | some size ↦
        if ltb req_len size
        then (cache, none)
        else let (cache', read) = try_get_into_slice sha256 os key size cache in
          (cache', Option.map (λ payload. (chunk_response size payload, size)) read)
  ]

unfoldable pub provided_payload : Option ChunkProvider → ChunkRequest → Option Bytes
provided_payload none request = none
provided_payload (some provider) request =
    if ltb 0 request.wait_ms && ltb 0 request.len
    then provider request.key request.len request.wait_ms
    else none

module _ (message : Fault → Bytes) where
  -- The answer on a miss of the cache.
  unfoldable pub respond_uncached :
      Option ChunkProvider → ChunkRequest → Server → Server × Result Bytes
  unfolding provided_payload chunk_response
  respond_uncached provider request s = elim (provided_payload provider request) [
    | none ↦ (s, encode_response message status_miss [])
    | some b ↦
        if ltb request.len (length b)
        then (s, encode_response message status_miss [])
        else (count_served (length b) s, ok (chunk_response (length b) b))
  ]

  unfoldable pub respond :
      (Bytes → Bytes) → Os → Option ChunkProvider → ChunkRequest → Server → Server × Result Bytes
  respond sha256 os provider request s =
      let (cache, cached) = cached_response sha256 os request.key request.len s.cache in
      elim cached [
        | some (buf, served) ↦ (count_served served (record s { cache = cache }), ok buf)
        | none ↦ respond_uncached provider request (record s { cache = cache })
      ]

  -- The whole handler: an error, or no answer, or an answer for this peer. `joined` tells whether the
  -- task that reads the cache ends without a panic.
  unfoldable pub handle_inbound_request :
      (Bytes → Bytes)
      → Os
      → Option ChunkProvider
      → Bool
      → Bytes
      → Server
      → Server × Result (Option (Bytes × Bytes))
  unfolding respond
  handle_inbound_request sha256 os provider joined buf s = elim (decode_request message buf) [
    | err e ↦ (s, err e)
    | ok request ↦
        if request.len == 0 || ltb max_response_bytes request.len
        then (s, ok none)
        else let (s', response) =
            if joined
            then respond sha256 os provider request s
            else (s, encode_response message status_err []) in
          (s', elim response [ err e ↦ err e | ok b ↦ ok (some (request.requester_peer_id, b)) ])
  ]

  -- `client_fetch_inner` after the check of the length in `client_fetch`; `transfer` sends a request and
  -- receives the response, or fails.
  unfoldable pub fetch_with :
      (Bytes → Result Bytes) → ChunkKey → ℕ → ℕ → Bytes → Bytes → Result Bytes
  fetch_with transfer key len wait_ms requester_peer_id request_id =
      if len == 0 || ltb max_response_bytes len
      then err (peer (message (Fault.bad_length len)))
      else elim (encode_request message key len requester_peer_id wait_ms request_id) [
        | err e ↦ err e
        | ok req ↦ elim (transfer req) [
          | err e ↦ err e
          | ok resp ↦ decode_response message resp len
        ]
      ]
