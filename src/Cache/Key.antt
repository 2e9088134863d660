-- ===== src/Cache/Key.antt =====
-- `ChunkKey` and the name of its file (src/cache.rs). The bytes that the name hashes are also what
-- `key_digest` of src/peerindex.rs hashes. SHA-256 belongs to another library: it is a parameter.
use Prim.Native.Nat.{bit_and}
use blobcache.Prelude.{ℕ, ◌/◌, ◌^◌, [], ◌∷◌, ◌++◌, Bytes, ℕ_discrete, get_or}
use blobcache.Prelude.Endian.{to_le_bytes}

pub record ChunkKey : Type 0 where
  pub mount : Bytes
  pub blob : Bytes
  pub offset : ℕ

-- `#[derive(Eq)]`
unfoldable pub key_discrete : Discrete ChunkKey
key_discrete = hlevel ℕ_discrete

unfoldable pub name_discrete : Discrete Bytes
name_discrete = hlevel ℕ_discrete

-- What the hash of a key reads: mount, NUL, blob, NUL, offset.
unfoldable pub preimage : ChunkKey → Bytes
preimage k = k.mount ++ 0 ∷ (k.blob ++ 0 ∷ to_le_bytes 8 k.offset)

-- `b"0123456789abcdef"`
abbrev pub hex_table : Bytes
hex_table =
    b'0' ∷ b'1' ∷ b'2' ∷ b'3' ∷ b'4' ∷ b'5' ∷ b'6' ∷ b'7' ∷ b'8' ∷ b'9' ∷ b'a' ∷ b'b' ∷ b'c' ∷ b'd'
    ∷ b'e' ∷ b'f' ∷ []

-- An index is below 16 when the bytes are below 256; the default is never read.
abbrev pub hex_digit : ℕ → ℕ
hex_digit n = get_or hex_table n 0

unfoldable pub hex : Bytes → Bytes
hex [] = []
hex (x ∷ b) = hex_digit (x / 2 ^ 4) ∷ hex_digit (bit_and x 0xf) ∷ hex b

unfoldable pub cache_filename : (Bytes → Bytes) → ChunkKey → Bytes
cache_filename sha256 k = hex (sha256 (preimage k))
