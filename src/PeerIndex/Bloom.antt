-- ===== src/PeerIndex/Bloom.antt =====
-- `Bloom` (src/peerindex.rs): the filter, and its bytes. A `usize` is a `u64`.
use Prim.Native.Nat.{bit_and, bit_or}
use blobcache.Prelude.{
  ℕ, zero, suc, ◌+◌, ◌-◌, ◌*◌, ◌/◌, ◌%◌, ◌^◌, ◌<◌, ◌≤◌, ◌≡◌, max, List, [], ◌∷◌, ◌++◌, Option, none,
  some, Bytes, Bool, true, false, not, ltb, ◌==◌, if◌then◌else◌, length, take, drop, get_or, set,
  replicate, All,
}
use blobcache.Prelude.Word.{u64_mod, wrapping_add}
use blobcache.Prelude.Endian.{to_le_bytes, from_le_bytes}
use blobcache.Cache.Key.{ChunkKey, preimage}

abbrev pub bloom_k : ℕ
bloom_k = 4

pub record Bloom : Type 0 where
  pub bits : List ℕ
  pub m_bits : ℕ

-- `m_bits.div_ceil(64)`
abbrev pub words_for : ℕ → ℕ
words_for m_bits = (m_bits + 63) / 64

unfoldable pub new : ℕ → Bloom
new m_bits = let m = max m_bits 64 in record { bits = replicate (words_for m) 0; m_bits = m }

-- `chunks_exact(8)` of this many words, each read.
unfoldable pub read_words : ℕ → Bytes → List ℕ
unfolding from_le_bytes
read_words zero payload = []
read_words (suc n) payload = from_le_bytes (take 8 payload) ∷ read_words n (drop 8 payload)

unfoldable pub from_bytes : Bytes → Option Bloom
unfolding read_words
from_bytes b =
    if ltb (length b) 8
    then none
    else let m_bits = from_le_bytes (take 8 b) in
      if ltb m_bits 64
      then none
      else let words = words_for m_bits in
        let payload = drop 8 b in
        if not (length payload == words * 8)
        then none
        else some (record { bits = read_words words payload; m_bits = m_bits })

unfoldable pub write_words : List ℕ → Bytes
unfolding to_le_bytes
write_words [] = []
write_words (w ∷ bits) = to_le_bytes 8 w ++ write_words bits

unfoldable pub to_bytes : Bloom → Bytes
unfolding write_words
to_bytes b = to_le_bytes 8 b.m_bits ++ write_words b.bits

unfoldable pub bit_pos : Bytes → ℕ → ℕ → ℕ
unfolding from_le_bytes
bit_pos d i m =
    let h1 = from_le_bytes (take 8 d) in
    let h2 = from_le_bytes (take 8 (drop 8 d)) in wrapping_add h1 ((i * h2) % u64_mod) % m

-- One round of `insert`.
unfoldable pub set_bit : ℕ → Bloom → Bloom
set_bit pos b = record b {
  bits = set b.bits (pos / 64) (bit_or (get_or b.bits (pos / 64) 0) (2 ^ (pos % 64)));
}

-- The test of one round of `contains`.
unfoldable pub has_bit : ℕ → Bloom → Bool
has_bit pos b = not (bit_and (get_or b.bits (pos / 64) 0) (2 ^ (pos % 64)) == 0)

-- The rounds that are left, the last of which is number `bloom_k - 1`.
unfoldable pub insert_from : ℕ → Bytes → Bloom → Bloom
unfolding set_bit bit_pos
insert_from zero d b = b
insert_from (suc left) d b =
    insert_from left d (set_bit (bit_pos d (bloom_k - suc left) b.m_bits) b)

unfoldable pub contains_from : ℕ → Bytes → Bloom → Bool
unfolding has_bit bit_pos
contains_from zero d b = true
contains_from (suc left) d b =
    let rest = contains_from left d b in
    if not (has_bit (bit_pos d (bloom_k - suc left) b.m_bits) b) then false else rest

unfoldable pub insert : Bytes → Bloom → Bloom
unfolding insert_from
insert d b = insert_from bloom_k d b

unfoldable pub contains : Bytes → Bloom → Bool
unfolding contains_from
contains d b = contains_from bloom_k d b

unfoldable pub insert_all : List Bytes → Bloom → Bloom
unfolding insert
insert_all [] b = b
insert_all (d ∷ ds) b = insert_all ds (insert d b)

unfoldable pub key_digest : (Bytes → Bytes) → ChunkKey → Bytes
key_digest sha256 key = sha256 (preimage key)

-- A filter whose words hold all of its bits.
pub record IsFilter (b : Bloom) : Type 0 where
  pub enough : length b.bits ≡ words_for b.m_bits
  pub least : 64 ≤ b.m_bits
  pub fits : b.m_bits < u64_mod
  pub words : All (λ w. w < u64_mod) b.bits
