-- ===== src/Prelude/Endian.antt =====
-- Little-endian and big-endian bytes of a number, at a width in bytes.
use Prim.Native.Nat.{ℕ, zero, suc, ◌+◌, ◌*◌, ◌/◌, ◌%◌, ◌<◌, ◌^◌}
use mathlib.Core.List.{[], ◌∷◌, reverse, reverse-cons, reverse-reverse}
use mathlib.Core.Path.{◌≡◌, refl, ap, ◌∙◌}
use native.Mathlib.Nat.{pow-suc}
use native.Mathlib.Omega.{arith}
use blobcache.Prelude.Lists.{Bytes, All, length, length-append}

unfoldable pub to_le_bytes : ℕ → ℕ → Bytes
to_le_bytes zero n = []
to_le_bytes (suc w) n = (n % 256) ∷ to_le_bytes w (n / 256)

unfoldable pub from_le_bytes : Bytes → ℕ
from_le_bytes [] = 0
from_le_bytes (b ∷ bs) = b + 256 * from_le_bytes bs

abbrev pub IsByte : ℕ → Type 0
IsByte b = b < 256

pub length-to_le_bytes : (w n : ℕ) → length (to_le_bytes w n) ≡ w
unfolding to_le_bytes
length-to_le_bytes zero n = refl
length-to_le_bytes (suc w) n = omega (arith, length-to_le_bytes w (n / 256))

pub to_le_bytes-IsByte : (w n : ℕ) → All IsByte (to_le_bytes w n)
unfolding to_le_bytes
to_le_bytes-IsByte zero n = tt
to_le_bytes-IsByte (suc w) n = (omega arith, to_le_bytes-IsByte w (n / 256))

pub from-to_le_bytes : (w n : ℕ) → n < 256 ^ w → from_le_bytes (to_le_bytes w n) ≡ n
unfolding to_le_bytes from_le_bytes
from-to_le_bytes zero n h = omega arith
from-to_le_bytes (suc w) n h =
    let fits : n / 256 < 256 ^ w = omega (arith, pow-suc 256 w) in
    omega (arith, from-to_le_bytes w (n / 256) fits)

pub to-from_le_bytes :
    (bs : Bytes) → All IsByte bs → to_le_bytes (length bs) (from_le_bytes bs) ≡ bs
unfolding to_le_bytes from_le_bytes
to-from_le_bytes [] h = refl
to-from_le_bytes (b ∷ bs) h =
    let low : (b + 256 * from_le_bytes bs) % 256 ≡ b = omega arith in
    let high : (b + 256 * from_le_bytes bs) / 256 ≡ from_le_bytes bs = omega arith in
    rw (low, high, to-from_le_bytes bs h.1)

-- `to_be_bytes` and `from_be_bytes`
unfoldable pub to_be_bytes : ℕ → ℕ → Bytes
unfolding to_le_bytes
to_be_bytes w n = reverse (to_le_bytes w n)

unfoldable pub from_be_bytes : Bytes → ℕ
unfolding from_le_bytes
from_be_bytes bs = from_le_bytes (reverse bs)

length-reverse : (bs : Bytes) → length (reverse bs) ≡ length bs
length-reverse [] = refl
length-reverse (b ∷ bs) =
    ap length (reverse-cons b bs)
    ∙ omega (arith, length-append (reverse bs) (b ∷ []), length-reverse bs)

pub length-to_be_bytes : (w n : ℕ) → length (to_be_bytes w n) ≡ w
unfolding to_be_bytes
length-to_be_bytes w n = length-reverse (to_le_bytes w n) ∙ length-to_le_bytes w n

pub from-to_be_bytes : (w n : ℕ) → n < 256 ^ w → from_be_bytes (to_be_bytes w n) ≡ n
unfolding to_be_bytes from_be_bytes
from-to_be_bytes w n h =
    ap from_le_bytes (reverse-reverse (to_le_bytes w n)) ∙ from-to_le_bytes w n h
