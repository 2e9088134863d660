-- ===== src/PeerIndex/Filter.antt =====
-- A Bloom filter (src/peerindex.rs) never denies what was inserted.
use Prim.Native.Nat.{bit_and, bit_or}
use native.Mathlib.Nat.{pow-le-pow_right, mod-lt}
use blobcache.Prelude.{
  ℕ, zero, suc, ◌-◌, ◌/◌, ◌%◌, ◌^◌, ◌<◌, ◌≤◌, ◌≡◌, ◌≢◌, refl, ap, sym, ◌∙◌, List, [], ◌∷◌, Bytes,
  true, not, ◌==◌, length, get_or, set, All, arith, length-set, ℕ_discrete, Bool-cases, inl, inr,
}
use blobcache.Prelude.Word.{u64_mod}
use blobcache.Prelude.Bits.{or-and_bit, bit-and_self, or-lt}
use blobcache.PeerIndex.Bloom.{
  Bloom, bit_pos, set_bit, has_bit, insert_from, contains_from, insert, contains, IsFilter, bloom_k,
}

module _ {ℓ} {A : Type ℓ} where
  get_or-set_self : (l : List A) (i : ℕ) (v d : A) → i < length l → get_or (set l i v) i d ≡ v
  get_or-set_self [] i v d h = absurd (omega arith)
  get_or-set_self (x ∷ l) zero v d h = refl
  get_or-set_self (x ∷ l) (suc i) v d h = get_or-set_self l i v d (omega arith)

  get_or-set_ne : (l : List A) (i j : ℕ) (v d : A) → i ≢ j → get_or (set l i v) j d ≡ get_or l j d
  get_or-set_ne [] i j v d h = refl
  get_or-set_ne (x ∷ l) zero zero v d h = absurd (h refl)
  get_or-set_ne (x ∷ l) zero (suc j) v d h = refl
  get_or-set_ne (x ∷ l) (suc i) zero v d h = refl
  get_or-set_ne (x ∷ l) (suc i) (suc j) v d h = get_or-set_ne l i j v d (λ e. h (ap suc e))

All-set : (P : ℕ → Type 0) (l : List ℕ) (i v : ℕ) → All P l → P v → All P (set l i v)
All-set P [] i v a p = tt
All-set P (x ∷ l) zero v a p = (p, a.1)
All-set P (x ∷ l) (suc i) v a p = (a.0, All-set P l i v a.1 p)

All-get_or : (P : ℕ → Type 0) (l : List ℕ) (i d : ℕ) → All P l → P d → P (get_or l i d)
All-get_or P [] i d a p = p
All-get_or P (x ∷ l) zero d a p = a.0
All-get_or P (x ∷ l) (suc i) d a p = All-get_or P l i d a.1 p

bit_lt : (p : ℕ) → 2 ^ (p % 64) < u64_mod
bit_lt p =
    let top = pow-le-pow_right {n = 2} (omega arith) {i = p % 64} {j = 63} (omega arith) in
    omega (arith, top)

bit_pos_lt : (k : ℕ) → 0 < 2 ^ k
bit_pos_lt k = pow-le-pow_right {n = 2} (omega arith) {i = 0} {j = k} (omega arith)

nonzero : (n : ℕ) → 0 < n → not (n == 0) ≡ true
nonzero n h = ground arith

set_bit-IsFilter : (p : ℕ) (b : Bloom) → IsFilter b → IsFilter (set_bit p b)
unfolding set_bit
set_bit-IsFilter p b f = record {
  enough = length-set b.bits (p / 64) _ ∙ f.enough;
  least = f.least;
  fits = f.fits;
  words =
      All-set (λ w. w < u64_mod) b.bits (p / 64) _ f.words
        (or-lt 64 (get_or b.bits (p / 64) 0) (2 ^ (p % 64))
          (All-get_or (λ w. w < u64_mod) b.bits (p / 64) 0 f.words (omega arith)) (bit_lt p));
}

has_bit-set_self : (p : ℕ) (b : Bloom) → p / 64 < length b.bits → has_bit p (set_bit p b) ≡ true
unfolding has_bit set_bit
has_bit-set_self p b h =
    let w = get_or b.bits (p / 64) 0 in
    rw
      (
        get_or-set_self b.bits (p / 64) (bit_or w (2 ^ (p % 64))) 0 h,
        or-and_bit (p % 64) w (2 ^ (p % 64)),
        bit-and_self (p % 64),
      )
      (nonzero _ (omega (arith, bit_pos_lt (p % 64))))

has_bit-set_mono :
    (p q : ℕ) (b : Bloom)
    → p / 64 < length b.bits
    → has_bit q b ≡ true
    → has_bit q (set_bit p b) ≡ true
unfolding has_bit set_bit
has_bit-set_mono p q b h k =
    let w = get_or b.bits (p / 64) 0 in
    elim (ℕ_discrete (p / 64) (q / 64)) [
      | yes same ↦
          let held : not (bit_and w (2 ^ (q % 64)) == 0) ≡ true =
            ap (λ i. not (bit_and (get_or b.bits i 0) (2 ^ (q % 64)) == 0)) same ∙ k in
          rw
            (
              sym same,
              get_or-set_self b.bits (p / 64) (bit_or w (2 ^ (p % 64))) 0 h,
              or-and_bit (q % 64) w (2 ^ (p % 64)),
            )
            (ground arith)
      | no other ↦ rw (get_or-set_ne b.bits (p / 64) (q / 64) (bit_or w (2 ^ (p % 64))) 0 other) k
    ]

bit_pos-lt : (d : Bytes) (i m : ℕ) → 64 ≤ m → bit_pos d i m < m
unfolding bit_pos
bit_pos-lt d i m h = mod-lt _ (omega arith)

-- The word of a position is there.
has_word : (d : Bytes) (i : ℕ) (b : Bloom) → IsFilter b → bit_pos d i b.m_bits / 64 < length b.bits
has_word d i b f = omega (arith, bit_pos-lt d i b.m_bits f.least, f.enough)

insert_from-IsFilter :
    (left : ℕ) (d : Bytes) (b : Bloom) → IsFilter b → IsFilter (insert_from left d b)
unfolding insert_from
insert_from-IsFilter zero d b f = f
insert_from-IsFilter (suc left) d b f =
    let p = bit_pos d (bloom_k - suc left) b.m_bits in
    insert_from-IsFilter left d (set_bit p b) (set_bit-IsFilter p b f)

m_bits-insert_from : (left : ℕ) (d : Bytes) (b : Bloom) → (insert_from left d b).m_bits ≡ b.m_bits
unfolding insert_from set_bit
m_bits-insert_from zero d b = refl
m_bits-insert_from (suc left) d b =
    m_bits-insert_from left d (set_bit (bit_pos d (bloom_k - suc left) b.m_bits) b)

has_bit-insert_from :
    (left : ℕ) (d : Bytes) (q : ℕ) (b : Bloom)
    → IsFilter b
    → has_bit q b ≡ true
    → has_bit q (insert_from left d b) ≡ true
unfolding insert_from
has_bit-insert_from zero d q b f h = h
has_bit-insert_from (suc left) d q b f h =
    let p = bit_pos d (bloom_k - suc left) b.m_bits in
    has_bit-insert_from left d q (set_bit p b) (set_bit-IsFilter p b f)
      (has_bit-set_mono p q b (has_word d (bloom_k - suc left) b f) h)

contains_round :
    (left p : ℕ) (e : Bytes) (b : Bloom)
    → p ≡ bit_pos e (bloom_k - suc left) b.m_bits
    → has_bit p b ≡ true
    → contains_from left e b ≡ true
    → contains_from (suc left) e b ≡ true
unfolding contains_from
contains_round left p e b at_p first rest =
    let here : has_bit (bit_pos e (bloom_k - suc left) b.m_bits) b ≡ true =
      ap (λ i. has_bit i b) (sym at_p) ∙ first in
    rw (here, rest)

-- A digest is in a filter of the same size that has all its bits.
contains_from_mono :
    (left : ℕ) (e : Bytes) (b c : Bloom)
    → c.m_bits ≡ b.m_bits
    → ((q : ℕ) → has_bit q b ≡ true → has_bit q c ≡ true)
    → contains_from left e b ≡ true
    → contains_from left e c ≡ true
unfolding contains_from
contains_from_mono zero e b c size more h = refl
contains_from_mono (suc left) e b c size more h =
    let p = bit_pos e (bloom_k - suc left) b.m_bits in
    elim (Bool-cases (has_bit p b)) [
      | inl found ↦
          let held : contains_from left e b ≡ true = ground arith in
          contains_round left p e c (ap (bit_pos e (bloom_k - suc left)) (sym size)) (more p found)
            (contains_from_mono left e b c size more held)
      | inr clear ↦ ground arith
    ]

contains-insert_from :
    (left : ℕ) (d : Bytes) (b : Bloom)
    → IsFilter b
    → contains_from left d (insert_from left d b) ≡ true
unfolding insert_from contains_from
contains-insert_from zero d b f = refl
contains-insert_from (suc left) d b f =
    let i = bloom_k - suc left in
    let p = bit_pos d i b.m_bits in
    let first =
      has_bit-insert_from left d p (set_bit p b) (set_bit-IsFilter p b f)
        (has_bit-set_self p b (has_word d i b f)) in
    contains_round left p d (insert_from left d (set_bit p b))
      (ap (bit_pos d i) (sym (m_bits-insert_from left d (set_bit p b)))) first
      (contains-insert_from left d (set_bit p b) (set_bit-IsFilter p b f))

pub insert-IsFilter : (d : Bytes) (b : Bloom) → IsFilter b → IsFilter (insert d b)
unfolding insert
insert-IsFilter d b f = insert_from-IsFilter bloom_k d b f

pub contains-insert_self : (d : Bytes) (b : Bloom) → IsFilter b → contains d (insert d b) ≡ true
unfolding contains insert
contains-insert_self d b f = contains-insert_from bloom_k d b f

pub contains-insert_mono :
    (d e : Bytes) (b : Bloom) → IsFilter b → contains e b ≡ true → contains e (insert d b) ≡ true
unfolding contains insert
contains-insert_mono d e b f h =
    contains_from_mono bloom_k e b (insert_from bloom_k d b) (m_bits-insert_from bloom_k d b)
      (λ q k. has_bit-insert_from bloom_k d q b f k) h
