-- ===== src/Rdma/Wire.antt =====
-- The messages of src/transport_ucx.rs: requests and responses as bytes. A position in the data is the
-- rest of the data from there on. The text of an error is made from what it is about.
use blobcache.Prelude.{
  ℕ, ◌*◌, ◌%◌, [], ◌∷◌, ◌++◌, Bytes, Bool, true, not, ◌&&◌, ◌||◌, ◌==◌, ltb, leb, if◌then◌else◌,
  length, take, drop,
}
use blobcache.Prelude.Result.{BcError, peer, not_found, Result, ok, err}
use blobcache.Prelude.Endian.{to_be_bytes, from_be_bytes, to_le_bytes, from_le_bytes}
use blobcache.Prelude.Utf8.{is_utf8}
use blobcache.Cache.Key.{ChunkKey}

abbrev pub magic_number : ℕ
magic_number = 0xBC10_C001

abbrev pub status_ok : ℕ
status_ok = 0

abbrev pub status_miss : ℕ
status_miss = 1

abbrev pub status_err : ℕ
status_err = 2

abbrev pub max_response_bytes : ℕ
max_response_bytes = 64 * 1024 * 1024

pub record ChunkRequest : Type 0 where
  pub key : ChunkKey
  pub len : ℕ
  pub requester_peer_id : Bytes
  pub wait_ms : ℕ
  pub request_id : Bytes

pub data Field : Type 0 where
  mount_field blob_field requester_field rid_field : Field

-- What an error is about.
pub data Fault : Type 0 where
  too_long not_utf8 : Field → Fault
  bad_length bad_magic response_size payload_size status_value : ℕ → Fault
  short_response rid_chars trailing unexpected_end peer_miss peer_error : Fault
  length_mismatch larger_than_requested : ℕ → ℕ → Fault

-- `read_*(data, &mut idx)`
abbrev pub Reader {ℓ} : Type ℓ → Type ℓ
Reader A = Bytes → Result (A × Bytes)

infixl 5 ◌>>=◌
abbrev pub ◌>>=◌ {ℓ} : {A B : Type ℓ} → Reader A → (A → Reader B) → Reader B
◌>>=◌ r next rest = elim (r rest) [ ok (a, rest') ↦ next a rest' | err e ↦ err e ]

abbrev pub done {ℓ} : {A : Type ℓ} → A → Reader A
done a rest = ok (a, rest)

-- `char::is_ascii_alphanumeric` or a dash, of every character.
abbrev pub is_rid_char : ℕ → Bool
is_rid_char c =
    leb b'0' c && leb c b'9' || leb b'A' c && leb c b'Z' || leb b'a' c && leb c b'z' || c == b'-'

unfoldable pub is_rid : Bytes → Bool
is_rid [] = true
is_rid (c ∷ s) = is_rid_char c && is_rid s

module _ (message : Fault → Bytes) where
  abbrev pub refuse : Fault → BcError
  refuse f = peer (message f)

  unfoldable pub encode_request : ChunkKey → ℕ → Bytes → ℕ → Bytes → Result Bytes
  encode_request key len requester_peer_id wait_ms rid =
      if ltb 255 (length key.mount)
      then err (refuse (too_long mount_field))
      else if ltb 65535 (length key.blob)
      then err (refuse (too_long blob_field))
      else if ltb 65535 (length requester_peer_id)
      then err (refuse (too_long requester_field))
      else if ltb 128 (length rid)
      then err (refuse (too_long rid_field))
      else ok (
          to_be_bytes 4 magic_number
          ++ ((length key.mount % 256)
              ∷ (key.mount
                  ++ (to_be_bytes 2 (length key.blob)
                      ++ (key.blob
                          ++ (to_be_bytes 8 key.offset
                              ++ (to_be_bytes 4 len
                                  ++ (to_be_bytes 2 (length requester_peer_id)
                                      ++ (requester_peer_id
                                          ++ (to_be_bytes 4 wait_ms
                                              ++ (to_be_bytes 2 (length rid) ++ rid)))))))))))

  unfoldable pub read_slice : ℕ → Reader Bytes
  read_slice n rest =
      if ltb (length rest) n then err (refuse unexpected_end) else ok (take n rest, drop n rest)

  -- `read_be_u16`, `read_be_u32` and `read_be_u64`, at their width.
  unfoldable pub read_be : ℕ → Reader ℕ
  unfolding read_slice from_be_bytes
  read_be w = do bytes ← read_slice w; done (from_be_bytes bytes)

  unfoldable pub read_u8 : Reader ℕ
  read_u8 [] = err (refuse unexpected_end)
  read_u8 (b ∷ rest) = ok (b, rest)

  abbrev pub fail {ℓ} : {A : Type ℓ} → Fault → Reader A
  fail f rest = err (refuse f)

  unfoldable pub read_utf8 : ℕ → Field → Reader Bytes
  unfolding read_slice
  read_utf8 n field = do
    bytes ← read_slice n
    if is_utf8 bytes then done bytes else fail (not_utf8 field)

  -- Requests of older clients end before this field, or before the next.
  unfoldable pub read_wait : Reader ℕ
  unfolding read_be
  read_wait rest = if leb 4 (length rest) then read_be 4 rest else ok (0, rest)

  unfoldable pub read_rid_text : ℕ → Reader Bytes
  unfolding read_utf8
  read_rid_text n =
      if ltb 128 n
      then fail (too_long rid_field)
      else do s ← read_utf8 n rid_field; if is_rid s then done s else fail rid_chars

  unfoldable pub read_rid : Reader Bytes
  unfolding read_be read_rid_text
  read_rid rest =
      let present = (do n ← read_be 2; read_rid_text n) rest in
      if leb 2 (length rest) then present else ok ([], rest)

  -- What follows the magic number.
  unfoldable pub read_fields : Reader ChunkRequest
  read_fields = do
    mount_len ← read_u8
    mount ← read_utf8 mount_len mount_field
    blob_len ← read_be 2
    blob ← read_utf8 blob_len blob_field
    offset ← read_be 8
    len ← read_be 4
    requester_len ← read_be 2
    requester ← read_utf8 requester_len requester_field
    wait ← read_wait
    rid ← read_rid
    done (record {
      key = record { mount = mount; blob = blob; offset = offset };
      len = len;
      requester_peer_id = requester;
      wait_ms = wait;
      request_id = rid;
    })

  unfoldable pub read_request : Reader ChunkRequest
  read_request = do
    magic ← read_be 4
    if not (magic == magic_number) then fail (bad_magic magic) else read_fields

  unfoldable pub decode_request : Bytes → Result ChunkRequest
  decode_request b = elim (read_request b) [
    | err e ↦ err e
    | ok (request, rest) ↦ if length rest == 0 then ok request else err (refuse trailing)
  ]

  unfoldable pub encode_response : ℕ → Bytes → Result Bytes
  unfolding to_le_bytes
  encode_response status payload =
      if ltb max_response_bytes (length payload)
      then err (refuse (response_size (length payload)))
      else ok (to_le_bytes 4 status ++ (to_le_bytes 4 (length payload) ++ payload))

  abbrev pub check_payload : ℕ → ℕ → Bytes → Result Bytes
  check_payload expected_len payload_len payload =
      if payload_len == 0 || ltb max_response_bytes payload_len
      then err (refuse (payload_size payload_len))
      else if ltb expected_len payload_len
      then err (refuse (larger_than_requested payload_len expected_len))
      else ok payload

  -- What the header and the body of a response say.
  unfoldable pub judge_response : ℕ → ℕ → Bytes → ℕ → Result Bytes
  judge_response status payload_len payload expected_len =
      if not (payload_len == length payload)
      then err (refuse (length_mismatch payload_len (length payload)))
      else if status == status_ok
      then check_payload expected_len payload_len payload
      else if status == status_miss
      then err (not_found (message peer_miss))
      else if status == status_err
      then err (refuse peer_error)
      else err (refuse (status_value status))

  unfoldable pub decode_response : Bytes → ℕ → Result Bytes
  unfolding from_le_bytes judge_response
  decode_response b expected_len =
      if ltb (length b) 8
      then err (refuse short_response)
      else judge_response (from_le_bytes (take 4 b)) (from_le_bytes (take 4 (drop 4 b))) (drop 8 b)
          expected_len
