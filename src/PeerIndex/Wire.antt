-- ===== src/PeerIndex/Wire.antt =====
-- The bytes of a Bloom filter (src/peerindex.rs) are read back, and only they are read.
use native.Mathlib.Nat.{pow-suc}
use blobcache.Prelude.{
  ℕ, zero, suc, ◌*◌, ◌^◌, ◌<◌, ◌≤◌, ◌≡◌, refl, ap, sym, subst, ◌∙◌, List, [], ◌∷◌, ◌++◌, Bytes,
  some, false, not, ltb, ◌==◌, length, take, drop, All, arith, max, replicate, length-append,
  length-take, length-drop, take-append, drop-append, Bool-cases, inl, inr,
}
use blobcache.Prelude.Word.{u64_mod}
use blobcache.Prelude.Endian.{
  to_le_bytes, from_le_bytes, IsByte, length-to_le_bytes, from-to_le_bytes, to-from_le_bytes,
}
use blobcache.PeerIndex.Bloom.{
  Bloom, new, words_for, read_words, write_words, from_bytes, to_bytes, IsFilter,
}

module _ {ℓ} {A : Type ℓ} where
  take_prefix : (n : ℕ) (xs ys : List A) → length xs ≡ n → take n (xs ++ ys) ≡ xs
  take_prefix n xs ys e = ap (λ k. take k (xs ++ ys)) (sym e) ∙ take-append xs ys

  drop_prefix : (n : ℕ) (xs ys : List A) → length xs ≡ n → drop n (xs ++ ys) ≡ ys
  drop_prefix n xs ys e = ap (λ k. drop k (xs ++ ys)) (sym e) ∙ drop-append xs ys

  take-drop : (n : ℕ) (xs : List A) → take n xs ++ drop n xs ≡ xs
  take-drop zero xs = refl
  take-drop (suc n) [] = refl
  take-drop (suc n) (x ∷ xs) = ap (◌∷◌ x) (take-drop n xs)

  All-take : (P : A → Type 0) (n : ℕ) (xs : List A) → All P xs → All P (take n xs)
  All-take P zero xs a = tt
  All-take P (suc n) [] a = tt
  All-take P (suc n) (x ∷ xs) a = (a.0, All-take P n xs a.1)

  All-drop : (P : A → Type 0) (n : ℕ) (xs : List A) → All P xs → All P (drop n xs)
  All-drop P zero xs a = a
  All-drop P (suc n) [] a = tt
  All-drop P (suc n) (x ∷ xs) a = All-drop P n xs a.1

  length-replicate : (n : ℕ) (a : A) → length (replicate n a) ≡ n
  length-replicate zero a = refl
  length-replicate (suc n) a = ap suc (length-replicate n a)

  All-replicate : (P : A → Type 0) (n : ℕ) (a : A) → P a → All P (replicate n a)
  All-replicate P zero a p = tt
  All-replicate P (suc n) a p = (p, All-replicate P n a p)

pub new-IsFilter : (m_bits : ℕ) → m_bits < u64_mod → IsFilter (new m_bits)
unfolding new
new-IsFilter m_bits h = record {
  enough = length-replicate (words_for (max m_bits 64)) 0;
  least = omega arith;
  fits = omega arith;
  words = All-replicate (λ w. w < u64_mod) (words_for (max m_bits 64)) 0 (omega arith);
}

read-write_words :
    (bits : List ℕ)
    → All (λ w. w < u64_mod) bits
    → read_words (length bits) (write_words bits) ≡ bits
unfolding read_words write_words
read-write_words [] a = refl
read-write_words (w ∷ bits) a =
    ap (λ x. x ∷ read_words (length bits) (write_words bits)) (from-to_le_bytes 8 w a.0)
    ∙ ap (◌∷◌ w) (read-write_words bits a.1)

length-write_words : (bits : List ℕ) → length (write_words bits) ≡ length bits * 8
unfolding write_words
length-write_words [] = refl
length-write_words (w ∷ bits) = omega (
  arith,
  length-append (to_le_bytes 8 w) (write_words bits),
  length-to_le_bytes 8 w,
  length-write_words bits,
)

-- A filter that was written is read back.
pub from_bytes-to_bytes : (b : Bloom) → IsFilter b → from_bytes (to_bytes b) ≡ some b
unfolding from_bytes to_bytes
from_bytes-to_bytes b f =
    let head = to_le_bytes 8 b.m_bits in
    let tail = write_words b.bits in
    let long = length-to_le_bytes 8 b.m_bits in
    let total = length-append head tail in
    let enough : ltb (length (head ++ tail)) 8 ≡ false = ground (arith, total, long) in
    let size : from_le_bytes (take 8 (head ++ tail)) ≡ b.m_bits =
      ap from_le_bytes (take_prefix 8 head tail long) ∙ from-to_le_bytes 8 b.m_bits f.fits in
    let least : ltb b.m_bits 64 ≡ false = ground (arith, f.least) in
    let whole : not (length tail == words_for b.m_bits * 8) ≡ false =
      ground (arith, length-write_words b.bits, f.enough) in
    rw (enough, size, least, drop_prefix 8 head tail long, whole)
      (ap (λ bits. some (record { bits = bits; m_bits = b.m_bits }))
        (ap (λ n. read_words n tail) (sym f.enough) ∙ read-write_words b.bits f.words))

from_le_bytes-lt : (bs : Bytes) → All IsByte bs → from_le_bytes bs < 256 ^ length bs
unfolding from_le_bytes
from_le_bytes-lt [] a = omega arith
from_le_bytes-lt (b ∷ bs) a = omega (arith, from_le_bytes-lt bs a.1, pow-suc 256 (length bs))

read_words-lt :
    (n : ℕ) (p : Bytes) → All IsByte p → length p ≡ n * 8 → All (λ w. w < u64_mod) (read_words n p)
unfolding read_words
read_words-lt zero p a e = tt
read_words-lt (suc n) p a e =
    let eight : length (take 8 p) ≡ 8 = omega (arith, length-take 8 p) in
    let low =
      subst (λ k. from_le_bytes (take 8 p) < 256 ^ k) eight
        (from_le_bytes-lt (take 8 p) (All-take IsByte 8 p a)) in
    (low, read_words-lt n (drop 8 p) (All-drop IsByte 8 p a) (omega (arith, length-drop 8 p)))

length-read_words : (n : ℕ) (p : Bytes) → length (read_words n p) ≡ n
unfolding read_words
length-read_words zero p = refl
length-read_words (suc n) p = ap suc (length-read_words n (drop 8 p))

eight_bytes :
    (p : Bytes) → All IsByte p → 8 ≤ length p → to_le_bytes 8 (from_le_bytes (take 8 p)) ≡ take 8 p
eight_bytes p a h =
    let eight : length (take 8 p) ≡ 8 = omega (arith, length-take 8 p) in
    subst (λ k. to_le_bytes k (from_le_bytes (take 8 p)) ≡ take 8 p) eight
      (to-from_le_bytes (take 8 p) (All-take IsByte 8 p a))

empty_list : (p : Bytes) → length p ≡ 0 → p ≡ []
empty_list [] e = refl
empty_list (x ∷ p) e = absurd (omega arith)

write-read_words :
    (n : ℕ) (p : Bytes) → All IsByte p → length p ≡ n * 8 → write_words (read_words n p) ≡ p
unfolding read_words write_words
write-read_words zero p a e = sym (empty_list p e)
write-read_words (suc n) p a e =
    let rest =
      write-read_words n (drop 8 p) (All-drop IsByte 8 p a) (omega (arith, length-drop 8 p)) in
    ap (λ h. h ++ write_words (read_words n (drop 8 p))) (eight_bytes p a (omega arith))
    ∙ ap (λ t. take 8 p ++ t) rest
    ∙ take-drop 8 p

-- What is read off bytes that pass the tests.
read_back :
    (bs : Bytes)
    → All IsByte bs
    → 8 ≤ length bs
    → 64 ≤ from_le_bytes (take 8 bs)
    → length (drop 8 bs) ≡ words_for (from_le_bytes (take 8 bs)) * 8
    → let m = from_le_bytes (take 8 bs) in
      let b : Bloom = record { bits = read_words (words_for m) (drop 8 bs); m_bits = m } in
      (to_bytes b ≡ bs) × IsFilter b
unfolding to_bytes
read_back bs a long least whole =
    let m = from_le_bytes (take 8 bs) in
    let p = drop 8 bs in
    let eight : length (take 8 bs) ≡ 8 = omega (arith, length-take 8 bs) in
    let payload = All-drop IsByte 8 bs a in
    (
      ap (λ h. h ++ write_words (read_words (words_for m) p)) (eight_bytes bs a long)
          ∙ ap (λ t. take 8 bs ++ t) (write-read_words (words_for m) p payload whole)
          ∙ take-drop 8 bs,
      record {
        enough = length-read_words (words_for m) p;
        least = least;
        fits =
            subst (λ k. m < 256 ^ k) eight (from_le_bytes-lt (take 8 bs) (All-take IsByte 8 bs a));
        words = read_words-lt (words_for m) p payload whole;
      },
    )

-- Bytes that are read as a filter are the bytes of that filter, which is well formed.
pub to_bytes-from_bytes :
    (bs : Bytes) (b : Bloom)
    → All IsByte bs
    → from_bytes bs ≡ some b
    → (to_bytes b ≡ bs) × IsFilter b
unfolding from_bytes to_bytes
to_bytes-from_bytes bs b a e = elim (Bool-cases (ltb (length bs) 8)) [
  | inl short ↦ ground (arith)
  | inr long ↦ elim (Bool-cases (ltb (from_le_bytes (take 8 bs)) 64)) [
    | inl small ↦ ground arith
    | inr least ↦
        elim (Bool-cases (not (length (drop 8 bs) == words_for (from_le_bytes (take 8 bs)) * 8))) [
          | inl ragged ↦ ground arith
          | inr whole ↦
              let m = from_le_bytes (take 8 bs) in
              let c : Bloom = record { bits = read_words (words_for m) (drop 8 bs); m_bits = m } in
              let read : from_bytes bs ≡ some c = rw (long, least, whole) in
              let same : c ≡ b = ground (arith, read) in
              subst (λ b. (to_bytes b ≡ bs) × IsFilter b) same
                (read_back bs a (ground arith) (ground arith) (ground arith))
        ]
  ]
]
