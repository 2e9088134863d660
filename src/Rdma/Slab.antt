-- ===== src/Rdma/Slab.antt =====
-- `RecvSlab` and `SlabSlot` of src/transport_ucx.rs: the slots of one buffer that responses are received
-- into. The semaphore of tokio is its number of free permits.
use Prim.Native.Nat.{zero, suc}
use native.Mathlib.Nat.{mul-le-mul_right}
use blobcache.Prelude.{
  ℕ, ◌+◌, ◌-◌, ◌*◌, ◌<◌, ◌≤◌, ◌≡◌, ◌≢◌, refl, ◌∙◌, List, [], ◌∷◌, ◌++◌, Option, none, some, ◌==◌,
  ltb, if◌then◌else◌, length, arith, Bool-cases, List-cases, inl, inr, ◌⊎◌,
}

-- The last index of the free list comes first.
pub record RecvSlab : Type 0 where
  pub slot_size : ℕ
  pub n_slots : ℕ
  pub free : List ℕ
  pub permits : ℕ

-- `(first..first + n).rev()`, the last first.
unfoldable pub slots_from : ℕ → ℕ → List ℕ
slots_from first zero = []
slots_from first (suc n) = first ∷ slots_from (first + 1) n

-- `n_slots.checked_mul(slot_size)` of a `usize` of 64 bits: no slab where the buffer is too large.
unfoldable pub new_slab : ℕ → ℕ → Option RecvSlab
unfolding slots_from
new_slab n_slots slot_size =
    if ltb (n_slots * slot_size) 18446744073709551616
    then some (record {
      slot_size = slot_size;
      n_slots = n_slots;
      free = slots_from 0 n_slots;
      permits = n_slots;
    })
    else none

-- How `checkout` ends: it waits for a permit, finds no slot, or has one.
pub data Checkout : Type 0 where
  waits desync : Checkout
  slot : ℕ → Checkout

unfoldable pub checkout : RecvSlab → RecvSlab × Checkout
checkout s = if s.permits == 0 then (s, waits) else elim s.free [
  | [] ↦ (s, desync)
  | idx ∷ free ↦ (record s { free = free; permits = s.permits - 1 }, slot idx)
]

-- A slot is dropped: first its index is free again, then its permit.
unfoldable pub drop_slot : ℕ → RecvSlab → RecvSlab
drop_slot idx s = record s { free = idx ∷ s.free; permits = s.permits + 1 }

-- `as_mut_slice(len)`: where the slice starts and ends in the buffer.
abbrev pub as_mut_slice : RecvSlab → ℕ → ℕ → ℕ × ℕ
as_mut_slice s idx len = (idx * s.slot_size, idx * s.slot_size + len)

unfoldable pub occurs : ℕ → List ℕ → ℕ
occurs i [] = 0
occurs i (j ∷ l) = (if j == i then 1 else 0) + occurs i l

-- Each index is free or held once, and a permit stands for each free one.
pub record IsShared (n size : ℕ) (s : RecvSlab) (held : List ℕ) : Type 0 where
  pub slots : s.n_slots ≡ n
  pub sized : s.slot_size ≡ size
  pub permitted : s.permits ≡ length s.free
  pub once : (i : ℕ) → occurs i s.free + occurs i held ≡ (if ltb i s.n_slots then 1 else 0)

-- A slab, and the slots that are held.
pub data Step : RecvSlab × List ℕ → RecvSlab × List ℕ → Type 0 where
  takes :
      {s s' : RecvSlab} {held : List ℕ} {idx : ℕ}
      → checkout s ≡ (s', slot idx)
      → Step (s, held) (s', idx ∷ held)
  drops : {s : RecvSlab} (l r : List ℕ) (idx : ℕ) → Step (s, l ++ idx ∷ r) (drop_slot idx s, l ++ r)

pub data Reach : RecvSlab × List ℕ → RecvSlab × List ℕ → Type 0 where
  here : {w : RecvSlab × List ℕ} → Reach w w
  next : {a b c : RecvSlab × List ℕ} → Reach a b → Step b c → Reach a c

occurs-slots_from :
    (i first n : ℕ)
    → occurs i (slots_from first n)
      ≡ (if ltb i first then 0 else if ltb i (first + n) then 1 else 0)
unfolding occurs slots_from
occurs-slots_from i first zero = ground arith
occurs-slots_from i first (suc n) = ground (arith, occurs-slots_from i (first + 1) n)

length-slots_from : (first n : ℕ) → length (slots_from first n) ≡ n
unfolding slots_from
length-slots_from first zero = refl
length-slots_from first (suc n) = ground (arith, length-slots_from (first + 1) n)

occurs_add :
    (i j : ℕ) (l r : List ℕ) → occurs i (l ++ j ∷ r) ≡ (if j == i then 1 else 0) + occurs i (l ++ r)
unfolding occurs
occurs_add i j [] r = refl
occurs_add i j (k ∷ l) r = omega (arith, occurs_add i j l r)

checkout-slot :
    (s s' : RecvSlab) (idx : ℕ)
    → checkout s ≡ (s', slot idx)
    → (s.free ≡ idx ∷ s'.free)
      × (s.permits ≡ s'.permits + 1)
      × (s'.n_slots ≡ s.n_slots)
      × (s'.slot_size ≡ s.slot_size)
unfolding checkout
checkout-slot s s' idx e = elim (List-cases s.free) [
  | inl empty ↦ ground (arith, empty)
  | inr (i, free, full) ↦ ground (arith, full)
]

module _ (n size : ℕ) where
  new_slab-IsShared : (s : RecvSlab) → new_slab n size ≡ some s → IsShared n size s []
  unfolding new_slab occurs
  new_slab-IsShared s e = record {
    slots = ground arith;
    sized = ground arith;
    permitted = ground (arith, length-slots_from 0 n);
    once = λ i. ground (arith, occurs-slots_from i 0 n);
  }

  Step-IsShared :
      {a b : RecvSlab × List ℕ} → Step a b → IsShared n size a.0 a.1 → IsShared n size b.0 b.1
  unfolding drop_slot occurs
  Step-IsShared (takes {s} {s'} {held} {idx} e) v =
      let (free, permits, slots, sized) = checkout-slot s s' idx e in
      record {
        slots = slots ∙ v.slots;
        sized = sized ∙ v.sized;
        permitted = ground (arith, v.permitted, free);
        once = λ i. ground (arith, v.once i, free);
      }
  Step-IsShared (drops {s} l r idx) v = record {
    slots = v.slots;
    sized = v.sized;
    permitted = ground (arith, v.permitted);
    once = λ i. ground (arith, v.once i, occurs_add i idx l r);
  }

  Reach-IsShared :
      {a b : RecvSlab × List ℕ} → IsShared n size a.0 a.1 → Reach a b → IsShared n size b.0 b.1
  Reach-IsShared v here = v
  Reach-IsShared v (next r s) = Step-IsShared s (Reach-IsShared v r)

  -- A held index is in the slab.
  held_lt :
      (s : RecvSlab) (held : List ℕ) (i : ℕ) → IsShared n size s held → 0 < occurs i held → i < n
  held_lt s held i v h = ground (arith, v.once i, v.slots)

  never_desync : (s : RecvSlab) (held : List ℕ) → IsShared n size s held → (checkout s).1 ≢ desync
  unfolding checkout
  never_desync s held v e = elim (List-cases s.free) [
    | inl empty ↦ ground (arith, empty, v.permitted)
    | inr (i, free, full) ↦ ground (arith, full)
  ]

ltb_cases : (i j : ℕ) → (i < j) ⊎ (j ≤ i)
ltb_cases i j = elim (Bool-cases (ltb i j)) [
  | inl h ↦ inl (ground arith)
  | inr h ↦ inr (ground arith)
]

-- A slice of a slot ends before the next slot begins.
slices_lt : (i j len size : ℕ) → len ≤ size → i < j → i * size + len ≤ j * size
slices_lt i j len size fits lt =
    let whole : (i + 1) * size ≤ j * size = mul-le-mul_right size (omega arith) in omega arith

-- From a new slab, through any slots taken and dropped: whoever has a permit finds a free slot, and the
-- slices of two slots that are held at once, no longer than a slot, do not overlap and end in the
-- buffer.
pub new_slab-Reach-IsShared :
    (n size : ℕ) (start s : RecvSlab) (l r : List ℕ) (i j x y : ℕ)
    → new_slab n size ≡ some start
    → Reach (start, []) (s, l ++ i ∷ r)
    → 0 < occurs j (l ++ r)
    → x ≤ size
    → y ≤ size
    → ((checkout s).1 ≢ desync)
      × (((as_mut_slice s i x).1 ≤ (as_mut_slice s j y).0)
          ⊎ ((as_mut_slice s j y).1 ≤ (as_mut_slice s i x).0))
      × ((as_mut_slice s i x).1 ≤ n * size)
unfolding occurs
new_slab-Reach-IsShared n size start s l r i j x y made reach other fits fits' =
    let v = Reach-IsShared n size (new_slab-IsShared n size start made) reach in
    let i_lt = held_lt n size s (l ++ i ∷ r) i v (ground (arith, occurs_add i i l r)) in
    let apart : i ≢ j = λ same. ground (arith, v.once j, occurs_add j i l r) in
    (
      never_desync n size s (l ++ i ∷ r) v,
      elim (ltb_cases i j) [
        | inl lt ↦ inl (slices_lt i j x s.slot_size (ground (arith, v.sized)) lt)
        | inr ge ↦ inr (slices_lt j i y s.slot_size (ground (arith, v.sized)) (ground arith))
      ],
      rw v.sized (slices_lt i n x size fits i_lt),
    )
