-- ===== src/Fetcher/Accounted.antt =====
-- What `PeerLru` of src/fetcher.rs is to keep of its chunks.
use blobcache.Prelude.{
  ℕ, ◌+◌, ◌≤◌, ◌≡◌, refl, [], ◌∷◌, ◌++◌, Bytes, ltb, Option, none, some, if◌then◌else◌, length,
  arith,
}
use blobcache.Prelude.Assoc.{get, remove, Distinct, remove-Distinct, get-remove, remove_absent}
use blobcache.Cache.Key.{ChunkKey, key_discrete}
use blobcache.Fetcher.PeerLru.{Chunks, newest}

unfoldable pub held_bytes : Chunks → ℕ
held_bytes [] = 0
held_bytes ((k, b) ∷ l) = length b + held_bytes l

-- The oldest chunks go until the rest fits.
unfoldable pub newest_within : ℕ → Chunks → Chunks
newest_within cap [] = []
newest_within cap ((k, b) ∷ l) =
    if ltb cap (length b + held_bytes l) then newest_within cap l else (k, b) ∷ l

pub held_bytes-append : (l m : Chunks) → held_bytes (l ++ m) ≡ held_bytes l + held_bytes m
unfolding held_bytes
held_bytes-append [] m = omega arith
held_bytes-append ((k, b) ∷ l) m = omega (arith, held_bytes-append l m)

pub held_bytes-remove :
    (k : ChunkKey) (l : Chunks)
    → Distinct key_discrete l
    → held_bytes (remove key_discrete k l)
        + elim (get key_discrete k l) as (λ x. ℕ) [ none ↦ 0 | some b ↦ length b ]
      ≡ held_bytes l
unfolding held_bytes remove get
held_bytes-remove k [] d = refl
held_bytes-remove k ((j, b) ∷ l) (new, d) = elim (key_discrete j k) [
  | yes same ↦ ground (arith, remove_absent key_discrete k l)
  | no other ↦ ground (arith, held_bytes-remove k l d)
]

pub newest_within_fits : (cap : ℕ) (l : Chunks) → held_bytes (newest_within cap l) ≤ cap
unfolding held_bytes newest_within
newest_within_fits cap [] = omega arith
newest_within_fits cap ((k, b) ∷ l) = ground (arith, newest_within_fits cap l)

get-newest_within :
    (cap : ℕ) (l : Chunks) (q : ChunkKey)
    → get key_discrete q l ≡ none
    → get key_discrete q (newest_within cap l) ≡ none
unfolding newest_within get
get-newest_within cap [] q e = refl
get-newest_within cap ((k, b) ∷ l) q e = ground (arith, get-newest_within cap l q)

pub newest_within-Distinct :
    (cap : ℕ) (l : Chunks) → Distinct key_discrete l → Distinct key_discrete (newest_within cap l)
unfolding newest_within
newest_within-Distinct cap [] d = tt
newest_within-Distinct cap ((k, b) ∷ l) (new, d) = ground (arith, newest_within-Distinct cap l d)

get-append_end :
    (l : Chunks) (q k : ChunkKey) (b : Bytes)
    → get key_discrete q (l ++ (k, b) ∷ []) ≡ elim (get key_discrete q l) as (λ x. Option Bytes) [
      | some c ↦ some c
      | none ↦ get key_discrete q ((k, b) ∷ [])
    ]
unfolding get
get-append_end [] q k b = refl
get-append_end ((j, c) ∷ l) q k b = ground (arith, get-append_end l q k b)

append_end-Distinct :
    (l : Chunks) (k : ChunkKey) (b : Bytes)
    → get key_discrete k l ≡ none
    → Distinct key_discrete l
    → Distinct key_discrete (l ++ (k, b) ∷ [])
unfolding get
append_end-Distinct [] k b e d = (refl, tt)
append_end-Distinct ((j, c) ∷ l) k b e (new, d) =
    (ground (arith, get-append_end l j k b), append_end-Distinct l k b (ground arith) d)

pub newest-Distinct :
    (k : ChunkKey) (b : Option Bytes) (l : Chunks)
    → Distinct key_discrete l
    → Distinct key_discrete (newest k b l)
newest-Distinct k none l d = d
newest-Distinct k (some b) l d =
    append_end-Distinct (remove key_discrete k l) k b
      (ground (arith, get-remove key_discrete k k l)) (remove-Distinct key_discrete k l d)

-- The chunk at the end stays, if it fits.
pub newest_within_keeps :
    (cap : ℕ) (l : Chunks) (k : ChunkKey) (b : Bytes)
    → get key_discrete k l ≡ none
    → length b ≤ cap
    → get key_discrete k (newest_within cap (l ++ (k, b) ∷ [])) ≡ some b
unfolding newest_within held_bytes get
newest_within_keeps cap [] k b e fits = ground arith
newest_within_keeps cap ((j, c) ∷ l) k b e fits =
    ground (arith, newest_within_keeps cap l k b, get-append_end l k k b)
