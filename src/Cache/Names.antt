-- ===== src/Cache/Names.antt =====
-- Different keys have different file names (`cache_filename` of src/cache.rs).
use Prim.Native.Nat.{bit_and}
use blobcache.Prelude.{
  ℕ, ◌-◌, ◌/◌, ◌*◌, ◌+◌, ◌^◌, ◌<◌, ◌≡◌, refl, ap, ◌≢◌, [], ◌∷◌, ◌++◌, Bytes, ◌==◌, ==_iff, true,
  ltb, if◌then◌else◌, All, ◌∙◌, sym,
}
use blobcache.Prelude.Table.{all_below, all_below_sound}
use blobcache.Prelude.Endian.{from_le_bytes, from-to_le_bytes, IsByte}
use blobcache.Cache.Key.{ChunkKey, preimage, hex_digit, hex, cache_filename}

abbrev pub IsNulFree : Bytes → Type 0
IsNulFree = All (λ b. b ≢ 0)

digit_value : ℕ → ℕ
digit_value c = if ltb c b'a' then c - b'0' else c - 87

unhex : Bytes → Bytes
unfolding digit_value
unhex [] = []
unhex (c ∷ []) = []
unhex (c ∷ d ∷ b) = (16 * digit_value c + digit_value d) ∷ unhex b

pair_table :
    all_below
      (λ x. 16 * digit_value (hex_digit (x / 2 ^ 4)) + digit_value (hex_digit (bit_and x 0xf)) == x)
      256
    ≡ true
unfolding all_below digit_value
pair_table = refl

unhex-hex : (b : Bytes) → All IsByte b → unhex (hex b) ≡ b
unfolding unhex hex
unhex-hex [] h = refl
unhex-hex (x ∷ b) h = rw ((==_iff _ x).0 (all_below_sound _ 256 x pair_table h.0), unhex-hex b h.1)

nul_split :
    (m m' : Bytes) {r r' : Bytes}
    → IsNulFree m
    → IsNulFree m'
    → m ++ 0 ∷ r ≡ m' ++ 0 ∷ r'
    → (m ≡ m') × (r ≡ r')
nul_split [] [] f f' e = (refl, cc)
nul_split [] (x ∷ m') f f' e = absurd (f'.0 (cc))
nul_split (x ∷ m) [] f f' e = absurd (f.0 (cc))
nul_split (x ∷ m) (y ∷ m') {r} {r'} f f' e =
    let tails : m ++ 0 ∷ r ≡ m' ++ 0 ∷ r' = cc in
    let rest = nul_split m m' f.1 f'.1 tails in (cc rest.0, rest.1)

-- Keys of text without NUL and of a 64-bit offset are told apart by what is hashed.
preimage-injective :
    (k k' : ChunkKey)
    → IsNulFree k.mount
    → IsNulFree k.blob
    → IsNulFree k'.mount
    → IsNulFree k'.blob
    → k.offset < 2 ^ 64
    → k'.offset < 2 ^ 64
    → preimage k ≡ preimage k'
    → k ≡ k'
unfolding preimage
preimage-injective k k' m b m' b' o o' e =
    let first = nul_split k.mount k'.mount m m' e in
    let second = nul_split k.blob k'.blob b b' first.1 in
    let same =
      sym (from-to_le_bytes 8 k.offset o)
      ∙ ap from_le_bytes second.1
      ∙ from-to_le_bytes 8 k'.offset o' in
    λ i. record { mount = first.0 i; blob = second.0 i; offset = same i }

-- Two different keys, with NUL-free texts and 64-bit offsets, have different file names, unless the
-- hash collides on what is hashed for them.
pub cache_filename-ne :
    (sha256 : Bytes → Bytes) (k k' : ChunkKey)
    → All IsByte (sha256 (preimage k)) × All IsByte (sha256 (preimage k'))
    → (sha256 (preimage k) ≡ sha256 (preimage k') → preimage k ≡ preimage k')
    → IsNulFree k.mount × IsNulFree k.blob × (k.offset < 2 ^ 64)
    → IsNulFree k'.mount × IsNulFree k'.blob × (k'.offset < 2 ^ 64)
    → k ≢ k'
    → cache_filename sha256 k ≢ cache_filename sha256 k'
unfolding cache_filename
cache_filename-ne sha256 k k' bytes free key key' other e = other (
    preimage-injective k k' key.0 key.1 key'.0 key'.1 key.2 key'.2
      (free (sym (unhex-hex _ bytes.0) ∙ ap unhex e ∙ unhex-hex _ bytes.1)))
