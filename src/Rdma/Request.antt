-- ===== src/Rdma/Request.antt =====
-- A request of src/transport_ucx.rs that was encoded is decoded to itself.
use blobcache.Prelude.{
  ℕ, ◌%◌, ◌^◌, ◌<◌, ◌≤◌, ◌≡◌, refl, ap, sym, ◌∙◌, [], ◌∷◌, ◌++◌, Bytes, true, false, ltb, leb,
  if◌then◌else◌, length, take, drop, arith, length-append, append-nil, take-append, drop-append,
}
use blobcache.Prelude.Result.{ok, err}
use blobcache.Prelude.Endian.{to_be_bytes, from_be_bytes, length-to_be_bytes, from-to_be_bytes}
use blobcache.Prelude.Utf8.{is_utf8, is_utf8-cons}
use blobcache.Rdma.Wire.{
  ChunkRequest, Fault, Field, magic_number, is_rid, encode_request, decode_request, read_request,
  Reader, ◌>>=◌, done, fail, not_utf8, rid_field, mount_field, blob_field, requester_field,
  rid_chars, read_rid_text, read_fields, read_be, read_slice, read_u8, read_utf8, read_wait,
  read_rid,
}

is_rid-utf8 : (s : Bytes) → is_rid s ≡ true → is_utf8 s ≡ true
unfolding is_rid
is_rid-utf8 [] h = unfold is_utf8 in refl
is_rid-utf8 (c ∷ s) h = ground (arith, is_utf8-cons c s, is_rid-utf8 s)

-- A reader that is done goes on with the next.
bind_ok :
    {A B : Type 0} (r : Reader A) (next : A → Reader B) (from to : Bytes) (a : A)
    → r from ≡ ok (a, to)
    → (r >>= next) from ≡ next a to
bind_ok r next from to a e = ap (λ x. elim x [ ok (a, to) ↦ next a to | err e ↦ err e ]) e

module _ (message : Fault → Bytes) where
  read_slice-prefix :
      (n : ℕ) (xs rest : Bytes) → length xs ≡ n → read_slice message n (xs ++ rest) ≡ ok (xs, rest)
  unfolding read_slice
  read_slice-prefix n xs rest e =
      let enough : ltb (length (xs ++ rest)) n ≡ false = ground (arith, length-append xs rest) in
      rw (enough) (
        ap (λ k. ok (take k (xs ++ rest), drop k (xs ++ rest))) (sym e)
        ∙ rw (take-append xs rest, drop-append xs rest))

  read_be-prefix :
      (w n : ℕ) (rest : Bytes)
      → n < 256 ^ w
      → read_be message w (to_be_bytes w n ++ rest) ≡ ok (n, rest)
  unfolding read_be
  read_be-prefix w n rest h =
      bind_ok (read_slice message w) (λ bytes. done (from_be_bytes bytes)) (to_be_bytes w n ++ rest)
        rest (to_be_bytes w n) (read_slice-prefix w (to_be_bytes w n) rest (length-to_be_bytes w n))
      ∙ ap (λ k. ok (k, rest)) (from-to_be_bytes w n h)

  read_utf8-prefix :
      (n : ℕ) (field : Field) (xs rest : Bytes)
      → length xs ≡ n
      → is_utf8 xs ≡ true
      → read_utf8 message n field (xs ++ rest) ≡ ok (xs, rest)
  unfolding read_utf8
  read_utf8-prefix n field xs rest e h =
      bind_ok (read_slice message n)
        (λ bytes. if is_utf8 bytes then done bytes else fail message (not_utf8 field)) (xs ++ rest)
        rest xs (read_slice-prefix n xs rest e)
      ∙ rw (h)

  read_wait-prefix :
      (n : ℕ) (rest : Bytes)
      → n < 256 ^ 4
      → read_wait message (to_be_bytes 4 n ++ rest) ≡ ok (n, rest)
  unfolding read_wait
  read_wait-prefix n rest h =
      let enough : leb 4 (length (to_be_bytes 4 n ++ rest)) ≡ true =
        ground (arith, length-append (to_be_bytes 4 n) rest, length-to_be_bytes 4 n) in
      rw (enough) (read_be-prefix 4 n rest h)

  read_rid-whole :
      (rid : Bytes)
      → length rid ≤ 128
      → is_rid rid ≡ true
      → read_rid message (to_be_bytes 2 (length rid) ++ rid) ≡ ok (rid, [])
  unfolding read_rid read_rid_text
  read_rid-whole rid short valid =
      let enough : leb 2 (length (to_be_bytes 2 (length rid) ++ rid)) ≡ true = ground (
        arith,
        length-append (to_be_bytes 2 (length rid)) rid,
        length-to_be_bytes 2 (length rid),
      ) in
      let fits : ltb 128 (length rid) ≡ false = ground arith in
      let text : read_utf8 message (length rid) rid_field rid ≡ ok (rid, []) =
        ap (read_utf8 message (length rid) rid_field) (sym (append-nil rid))
        ∙ read_utf8-prefix (length rid) rid_field rid [] refl (is_rid-utf8 rid valid) in
      let checked : read_rid_text message (length rid) rid ≡ ok (rid, []) = rw (fits) (
        bind_ok (read_utf8 message (length rid) rid_field)
          (λ s. if is_rid s then done s else fail message rid_chars) rid [] rid text
        ∙ rw (valid)) in
      rw (enough) (
        bind_ok (read_be message 2) (read_rid_text message) (to_be_bytes 2 (length rid) ++ rid) rid
          (length rid) (read_be-prefix 2 (length rid) rid (omega arith))
        ∙ checked)

  -- What a request has to hold to come through: texts, numbers that fit their words, and a request id
  -- of ASCII letters, digits and `-` only, as every `RequestId` is.
  pub record IsSendable (r : ChunkRequest) : Type 0 where
    pub mount_text : is_utf8 r.key.mount ≡ true
    pub blob_text : is_utf8 r.key.blob ≡ true
    pub requester_text : is_utf8 r.requester_peer_id ≡ true
    pub offset_word : r.key.offset < 256 ^ 8
    pub len_word : r.len < 256 ^ 4
    pub wait_word : r.wait_ms < 256 ^ 4
    pub rid_text : is_rid r.request_id ≡ true

  -- The bytes after the magic number.
  abbrev fields_of : ChunkRequest → Bytes
  fields_of r =
      (length r.key.mount % 256)
      ∷ (r.key.mount
          ++ (to_be_bytes 2 (length r.key.blob)
              ++ (r.key.blob
                  ++ (to_be_bytes 8 r.key.offset
                      ++ (to_be_bytes 4 r.len
                          ++ (to_be_bytes 2 (length r.requester_peer_id)
                              ++ (r.requester_peer_id
                                  ++ (to_be_bytes 4 r.wait_ms
                                      ++ (to_be_bytes 2 (length r.request_id)
                                          ++ r.request_id)))))))))

  read_fields-whole :
      (r : ChunkRequest)
      → IsSendable r
      → length r.key.mount ≤ 255
      → length r.key.blob ≤ 65535
      → length r.requester_peer_id ≤ 65535
      → length r.request_id ≤ 128
      → read_fields message (fields_of r) ≡ ok (r, [])
  unfolding read_fields read_u8
  read_fields-whole r s m b q i = rw (
    read_utf8-prefix (length r.key.mount % 256) mount_field r.key.mount _ (omega arith)
        s.mount_text,
    read_be-prefix 2 (length r.key.blob) _ (omega arith),
    read_utf8-prefix (length r.key.blob) blob_field r.key.blob _ refl s.blob_text,
    read_be-prefix 8 r.key.offset _ s.offset_word,
    read_be-prefix 4 r.len _ s.len_word,
    read_be-prefix 2 (length r.requester_peer_id) _ (omega arith),
    read_utf8-prefix (length r.requester_peer_id) requester_field r.requester_peer_id _ refl
        s.requester_text,
    read_wait-prefix r.wait_ms _ s.wait_word,
    read_rid-whole r.request_id i s.rid_text,
    ◌>>=◌,
    read_fields,
  )

  -- What a request that was encoded fits in, and its bytes.
  encoded :
      (r : ChunkRequest) (b : Bytes)
      → encode_request message r.key r.len r.requester_peer_id r.wait_ms r.request_id ≡ ok b
      → (length r.key.mount ≤ 255)
        × (length r.key.blob ≤ 65535)
        × (length r.requester_peer_id ≤ 65535)
        × (length r.request_id ≤ 128)
        × (to_be_bytes 4 magic_number ++ fields_of r ≡ b)
  unfolding encode_request
  encoded r b e = ground arith

  -- Every request that is encoded is decoded to itself, when its mount, blob and requester are UTF-8, its
  -- numbers fit their words, and its request id has only ASCII letters, digits and `-`.
  pub decode_request-encode_request :
      (r : ChunkRequest) (b : Bytes)
      → IsSendable r
      → encode_request message r.key r.len r.requester_peer_id r.wait_ms r.request_id ≡ ok b
      → decode_request message b ≡ ok r
  unfolding encode_request decode_request read_request
  decode_request-encode_request r b s e =
      let (m, q, i, k, same) = encoded r b e in
      rw (
        ← same,
        read_be-prefix 4 magic_number (fields_of r) (omega arith),
        read_fields-whole r s m q i k,
        ◌>>=◌,
        read_request,
        decode_request,
      )
