-- ===== src/Rdma/Reply.antt =====
-- What a client of src/transport_ucx.rs makes of a response.
use blobcache.Prelude.{
  ℕ, ◌^◌, ◌<◌, ◌≤◌, ◌≡◌, ap, sym, ◌∙◌, ◌++◌, Bytes, false, ◌==◌, ltb, if◌then◌else◌, length, take,
  drop, arith,
}
use blobcache.Prelude.Result.{not_found, Result, ok, err}
use blobcache.Prelude.Endian.{to_le_bytes, from_le_bytes, from-to_le_bytes}
use blobcache.Rdma.Wire.{
  Fault, encode_response, decode_response, judge_response, check_payload, status_ok, status_miss,
  status_err, max_response_bytes, refuse, peer_miss, peer_error, status_value,
}

module _ (message : Fault → Bytes) where
  -- What the client answers to a response with this status and payload.
  abbrev pub meaning : ℕ → Bytes → ℕ → Result Bytes
  meaning status payload expected_len =
      if status == status_ok
      then check_payload message expected_len (length payload) payload
      else if status == status_miss
      then err (not_found (message peer_miss))
      else if status == status_err
      then err (refuse message peer_error)
      else err (refuse message (status_value status))

  encoded :
      (status : ℕ) (payload b : Bytes)
      → encode_response message status payload ≡ ok b
      → (length payload ≤ max_response_bytes)
        × (to_le_bytes 4 status ++ (to_le_bytes 4 (length payload) ++ payload) ≡ b)
  unfolding encode_response
  encoded status payload b e = ground arith

  judge-meaning :
      (status : ℕ) (payload : Bytes) (expected_len : ℕ)
      → judge_response message status (length payload) payload expected_len
        ≡ meaning status payload expected_len
  unfolding judge_response
  judge-meaning status payload expected_len = ground arith

  read_header :
      (status : ℕ) (payload : Bytes) (expected_len : ℕ)
      → status < 256 ^ 4
      → length payload < 256 ^ 4
      → decode_response message
          (to_le_bytes 4 status ++ (to_le_bytes 4 (length payload) ++ payload))
          expected_len
        ≡ meaning status payload expected_len
  unfolding decode_response to_le_bytes
  read_header status payload expected_len s p =
      let b : Bytes = to_le_bytes 4 status ++ (to_le_bytes 4 (length payload) ++ payload) in
      let long : ltb (length b) 8 ≡ false = ground arith in
      rw (long, decode_response)
        (ap (λ x. judge_response message x (from_le_bytes (take 4 (drop 4 b))) payload expected_len)
            (from-to_le_bytes 4 status s)
          ∙ ap (λ y. judge_response message status y payload expected_len)
              (from-to_le_bytes 4 (length payload) p)
          ∙ judge-meaning status payload expected_len)

  -- A response that could be encoded is decoded as its status says: its payload, if that is neither
  -- empty nor larger than was asked for; a miss; or an error.
  pub decode_response-encode_response :
      (status : ℕ) (payload b : Bytes) (expected_len : ℕ)
      → status < 256 ^ 4
      → encode_response message status payload ≡ ok b
      → decode_response message b expected_len ≡ meaning status payload expected_len
  decode_response-encode_response status payload b expected_len s e =
      let (fits, same) = encoded status payload b e in
      ap (λ x. decode_response message x expected_len) (sym same)
      ∙ read_header status payload expected_len s (omega arith)

  -- Whatever arrives, a client only accepts the body of a response that is not empty and no longer
  -- than it asked for.
  pub decode_response-accepts :
      (b payload : Bytes) (expected_len : ℕ)
      → decode_response message b expected_len ≡ ok payload
      → (payload ≡ drop 8 b)
        × (0 < length payload)
        × (length payload ≤ expected_len)
        × (length payload ≤ max_response_bytes)
  unfolding decode_response
  decode_response-accepts b payload expected_len e = ground arith
