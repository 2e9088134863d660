-- ===== src/Rdma/Tests.antt =====
-- The theorems on src/transport_ucx.rs at concrete inputs, and runs of the code.
use blobcache.Prelude.{
  ℕ, ◌≤◌, ◌<◌, ◌≡◌, ◌≢◌, ◌⊎◌, ◌+◌, ◌*◌, ap, refl, [], ◌∷◌, some, none, arith, Bytes, true,
  ℕ_discrete, drop, Option,
}
use blobcache.Prelude.Assoc.{get, insert, remove, modify}
use blobcache.Prelude.Endian.{to_be_bytes, from_be_bytes, to_le_bytes, from_le_bytes}
use blobcache.Prelude.Utf8.{is_utf8}
use blobcache.Prelude.Result.{Result, ok, err, peer}
use blobcache.Cluster.State.{text_discrete}
use blobcache.Cache.Key.{key_discrete}
use blobcache.Cache.State.{Os}
use blobcache.Cache.Read.{entry_size, try_get_into_slice}
use blobcache.Cache.Sweep.{opened, sweep_files}
use blobcache.Rdma.Wire.{
  Fault, ChunkRequest, encode_request, decode_request, encode_response, decode_response,
  judge_response, read_be, read_slice, read_u8, read_utf8, read_wait, read_rid, read_rid_text,
  read_fields, read_request, is_rid, status_ok,
}
use blobcache.Rdma.Request
use blobcache.Rdma.Request.{IsSendable}
use blobcache.Rdma.Reply
use blobcache.Rdma.Endpoints
use blobcache.Rdma.Endpoints.{
  RuntimeState, CheckedOutEndpoint, RemovedEndpoint, Busy, begin_use, end_use, new_runtime,
  update_peer_addr_blob, checkout_endpoint, release_endpoint, verify_lane_once, mark_peer_ep_broken,
  take_broken_peer_eps, part_stale,
}
use blobcache.Rdma.Closing.{IsSafe}
use blobcache.Rdma.Steps
use blobcache.Rdma.Steps.{World}
use blobcache.Rdma.Serve.{
  Server, ChunkProvider, chunk_response, cached_response, provided_payload, respond_uncached,
  respond, handle_inbound_request, fetch_with,
}
use blobcache.Rdma.Fetch
use blobcache.Rdma.Slab.{
  RecvSlab, new_slab, slots_from, checkout, drop_slot, desync, occurs, as_mut_slice,
}
use blobcache.Rdma.Slab

program : Unit {0}
unfolding text_discrete key_discrete ℕ_discrete get insert remove modify to_be_bytes from_be_bytes
    to_le_bytes from_le_bytes is_utf8 encode_request decode_request encode_response decode_response
    judge_response read_be read_slice read_u8 read_utf8 read_wait read_rid read_rid_text read_fields
    read_request is_rid begin_use end_use new_runtime update_peer_addr_blob checkout_endpoint
    release_endpoint verify_lane_once mark_peer_ep_broken take_broken_peer_eps part_stale entry_size
    try_get_into_slice sweep_files chunk_response cached_response provided_payload respond_uncached
    respond handle_inbound_request fetch_with new_slab slots_from checkout drop_slot occurs
program = tt

abbrev silent : Fault → Bytes
silent fault = []

abbrev quiet : Busy → Bytes
quiet busy = []

abbrev request : ChunkRequest
request = record {
  key = record { mount = b'm' ∷ []; blob = b'b' ∷ []; offset = 4096 };
  len = 3;
  requester_peer_id = b'p' ∷ [];
  wait_ms = 50;
  request_id = b'7' ∷ [];
}

abbrev sent : Bytes
sent =
    0xBC ∷ 0x10 ∷ 0xC0 ∷ 0x01 ∷ 1 ∷ b'm' ∷ 0 ∷ 1 ∷ b'b' ∷ 0 ∷ 0 ∷ 0 ∷ 0 ∷ 0 ∷ 0 ∷ 16 ∷ 0 ∷ 0 ∷ 0 ∷ 0
    ∷ 3 ∷ 0 ∷ 1 ∷ b'p' ∷ 0 ∷ 0 ∷ 0 ∷ 50 ∷ 0 ∷ 1 ∷ b'7' ∷ []

encoded :
    encode_request silent request.key request.len request.requester_peer_id request.wait_ms
      request.request_id
    ≡ ok sent
unfolding program
encoded = refl

request-IsSendable : IsSendable silent request
unfolding program
request-IsSendable = record {
  mount_text = refl;
  blob_text = refl;
  requester_text = refl;
  offset_word = omega arith;
  len_word = omega arith;
  wait_word = omega arith;
  rid_text = refl;
}

decode_request-encode_request_example : decode_request silent sent ≡ ok request
decode_request-encode_request_example =
    Request.decode_request-encode_request silent request sent request-IsSendable encoded

-- A response with the bytes 8 and 9.
abbrev reply : Bytes
reply = 0 ∷ 0 ∷ 0 ∷ 0 ∷ 2 ∷ 0 ∷ 0 ∷ 0 ∷ 8 ∷ 9 ∷ []

reply_encoded : encode_response silent status_ok (8 ∷ 9 ∷ []) ≡ ok reply
unfolding program
reply_encoded = refl

decode_response-encode_response_example : decode_response silent reply 3 ≡ ok (8 ∷ 9 ∷ [])
decode_response-encode_response_example =
    Reply.decode_response-encode_response silent status_ok (8 ∷ 9 ∷ []) reply 3 (omega arith)
      reply_encoded

reply_decoded : decode_response silent reply 3 ≡ ok (8 ∷ 9 ∷ [])
unfolding program
reply_decoded = refl

decode_response-accepts_example :
    ((8 ∷ 9 ∷ []) ≡ drop 8 reply) × (0 < 2) × (2 ≤ 3) × (2 ≤ 64 * 1024 * 1024)
decode_response-accepts_example =
    Reply.decode_response-accepts silent reply (8 ∷ 9 ∷ []) 3 reply_decoded

-- A server whose cache is empty, and whose provider has three bytes of each chunk.
abbrev healthy : Os
healthy = record { readable = λ name. true; removable = λ name. true }

abbrev server : Server
server = record { cache = opened healthy 9 []; chunk_bytes_served = 0 }

abbrev plain : Bytes → Bytes
plain b = b

abbrev provide : ChunkProvider
provide key len wait_ms = some (4 ∷ 5 ∷ 6 ∷ [])

abbrev provider : Option ChunkProvider
provider = some provide

abbrev transfer_of : Result (Option (Bytes × Bytes)) → Result Bytes
transfer_of (ok (some (who, resp))) = ok resp
transfer_of (ok none) = err (peer [])
transfer_of (err e) = err e

abbrev transfer : Bytes → Result Bytes
transfer b = transfer_of (handle_inbound_request silent plain healthy provider true b server).1

delivers :
    (b resp who : Bytes)
    → (handle_inbound_request silent plain healthy provider true b server).1 ≡ ok (some (who, resp))
    → transfer b ≡ ok resp
delivers b resp who e = ap transfer_of e

fetch_with-handle_inbound_request_example :
    fetch_with silent transfer request.key 3 50 (b'p' ∷ []) (b'7' ∷ []) ≡ ok (4 ∷ 5 ∷ 6 ∷ [])
unfolding program
fetch_with-handle_inbound_request_example =
    Fetch.fetch_with-handle_inbound_request silent plain healthy provider request server transfer
      sent request-IsSendable encoded (omega arith) (omega arith) delivers

-- A request to a new peer fails, and its endpoint is closed.
abbrev me : Bytes
me = b'a' ∷ []

abbrev peer_b : Bytes
peer_b = b'b' ∷ []

abbrev busy : RuntimeState
busy = (begin_use quiet peer_b [] (ok 7) (new_runtime me)).0

abbrev use_b : CheckedOutEndpoint
use_b = record { peer_id = peer_b; ep = 7 }

abbrev fails : Result Bytes
fails = err (peer [])

nothing_open :
    (ep : ℕ)
    → Path (Result ℕ) (ok 7) (ok ep)
    → (q : Bytes) (t : Endpoints.EndpointSlot)
    → get text_discrete q (new_runtime me).peer_eps ≡ some t
    → t.ep ≢ ep
unfolding program
nothing_open ep made q t e same = ground arith

begun : Steps.Reach quiet (new_runtime me, []) (busy, use_b ∷ [])
unfolding program
begun = Steps.next Steps.here (Steps.begins peer_b [] (ok 7) nothing_open)

new_runtime-Step-IsSafe_example :
    IsSafe (end_use use_b fails busy).0.peer_eps [] (record { ep = 7; broken = true } ∷ [])
unfolding program
new_runtime-Step-IsSafe_example =
    Steps.new_runtime-Step-IsSafe quiet me begun (Steps.ends [] [] use_b fails)

-- Two slots of four bytes.
abbrev slab : RecvSlab
slab = record { slot_size = 4; n_slots = 2; free = 0 ∷ 1 ∷ []; permits = 2 }

abbrev used_up : RecvSlab
used_up = record { slot_size = 4; n_slots = 2; free = []; permits = 0 }

slab_made : new_slab 2 4 ≡ some slab
unfolding program
slab_made = refl

two_held : Slab.Reach (slab, []) (used_up, 1 ∷ 0 ∷ [])
unfolding program
two_held = Slab.next (Slab.next Slab.here (Slab.takes refl)) (Slab.takes refl)

one_more_held : 0 < occurs 0 (0 ∷ [])
unfolding program
one_more_held = omega arith

new_slab-Reach-IsShared_example :
    ((checkout used_up).1 ≢ desync) × ((4 + 3 ≤ 0) ⊎ (0 + 4 ≤ 4)) × (4 + 3 ≤ 8)
new_slab-Reach-IsShared_example =
    Slab.new_slab-Reach-IsShared 2 4 slab used_up [] (0 ∷ []) 1 0 3 4 slab_made two_held
      one_more_held (omega arith) (omega arith)
