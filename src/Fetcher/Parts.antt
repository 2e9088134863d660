-- ===== src/Fetcher/Parts.antt =====
-- Chunks that are part of the contents that they stand for, in what src/fetcher.rs reads.
use Prim.Native.Nat.{zero, suc}
use blobcache.Prelude.{
  ℕ, ◌+◌, ◌≤◌, ◌≡◌, refl, sym, ap, ◌∙◌, subst, [], ◌∷◌, ◌++◌, Bytes, ltb, Option, none, some,
  length, take, drop, All, arith, Option-cases, Bool-cases, inl, inr,
}
use blobcache.Prelude.Assoc.{get, remove, insert}
use blobcache.Cache.Key.{ChunkKey, key_discrete}
use blobcache.Fetcher.PeerLru.{
  Chunks, LruCache, IsLru, PeerLru, get_lru, put_lru, put_unbounded, evict_over, newest, behind,
}

pub take_nil : (n : ℕ) → take {A = ℕ} n [] ≡ []
take_nil zero = refl
take_nil (suc n) = refl

pub drop_nil : (n : ℕ) → drop {A = ℕ} n [] ≡ []
drop_nil zero = refl
drop_nil (suc n) = refl

pub take-drop-take :
    (m s n : ℕ) (b : Bytes) → s + n ≤ m → take n (drop s (take m b)) ≡ take n (drop s b)
take-drop-take m s n [] h = ap (λ x. take n (drop s x)) (take_nil m)
take-drop-take zero s zero (c ∷ b) h = refl
take-drop-take zero s (suc n) (c ∷ b) h = ground arith
take-drop-take (suc m) zero zero (c ∷ b) h = refl
take-drop-take (suc m) zero (suc n) (c ∷ b) h =
    ap (λ r. c ∷ r) (take-drop-take m 0 n b (omega arith))
take-drop-take (suc m) (suc s) n (c ∷ b) h = take-drop-take m s n b (omega arith)

pub take_all : (b : Bytes) → take (length b) b ≡ b
take_all [] = refl
take_all (c ∷ b) = ap (λ r. c ∷ r) (take_all b)

module _ (content : ChunkKey → Bytes) where
  -- Bytes with which the content of the key begins.
  abbrev pub IsPart : ChunkKey → Bytes → Type 0
  IsPart key b = b ≡ take (length b) (content key)

  pub IsPart-slice :
      (key : ChunkKey) (b : Bytes) (start n : ℕ)
      → IsPart key b
      → start + n ≤ length b
      → take n (drop start b) ≡ take n (drop start (content key))
  IsPart-slice key b start n part fits =
      ap (λ x. take n (drop start x)) part ∙ take-drop-take (length b) start n (content key) fits

  pub IsPart-whole :
      (key : ChunkKey) (b : Bytes)
      → IsPart key b
      → length b ≡ length (content key)
      → b ≡ content key
  IsPart-whole key b part same = part ∙ ap (λ n. take n (content key)) same ∙ take_all (content key)

  abbrev pub AreParts : Chunks → Type 0
  AreParts = All (λ e. IsPart e.0 e.1)

  pub get-IsPart :
      (key : ChunkKey) (b : Bytes) (l : Chunks)
      → AreParts l
      → get key_discrete key l ≡ some b
      → IsPart key b
  unfolding get
  get-IsPart key b [] parts e = ground arith
  get-IsPart key b ((j, c) ∷ l) (part, parts) e = elim (key_discrete j key) [
    | yes same ↦ ground arith
    | no other ↦ get-IsPart key b l parts (ground arith)
  ]

  remove-AreParts :
      (key : ChunkKey) (l : Chunks) → AreParts l → AreParts (remove key_discrete key l)
  unfolding remove
  remove-AreParts key [] parts = tt
  remove-AreParts key ((j, c) ∷ l) (part, parts) = ground (arith, remove-AreParts key l parts)

  pub insert-AreParts :
      (key : ChunkKey) (b : Bytes) (l : Chunks)
      → IsPart key b
      → AreParts l
      → AreParts (insert key_discrete key b l)
  unfolding insert
  insert-AreParts key b l part parts = (part, remove-AreParts key l parts)

  module _ {C : Type 0} (lru : LruCache C) (laws : IsLru lru) where
    abbrev pub LruParts : PeerLru C → Type 0
    LruParts p = AreParts (lru.entries p.inner)

    append_end-AreParts :
        (key : ChunkKey) (b : Bytes) (l : Chunks)
        → IsPart key b
        → AreParts l
        → AreParts (l ++ (key, b) ∷ [])
    append_end-AreParts key b [] part parts = (part, tt)
    append_end-AreParts key b (e ∷ l) part (first, parts) =
        (first, append_end-AreParts key b l part parts)

    behind-AreParts : (l : Chunks) → AreParts l → AreParts (behind l)
    behind-AreParts [] parts = tt
    behind-AreParts (e ∷ l) (first, parts) = parts

    pub get_lru-LruParts :
        (key : ChunkKey) (p : PeerLru C)
        → LruParts p
        → LruParts (get_lru lru key p).0
          × ((b : Bytes) → (get_lru lru key p).1 ≡ some b → IsPart key b)
    unfolding get_lru
    get_lru-LruParts key p parts = (
      subst AreParts (sym (laws.read_uses key p.inner))
          (used (get key_discrete key (lru.entries p.inner)) (λ b e. get-IsPart key b _ parts e)),
      λ b e. get-IsPart key b _ parts (sym (laws.read_finds key p.inner) ∙ e),
    )
      where
        used :
            (hit : Option Bytes)
            → ((b : Bytes) → hit ≡ some b → IsPart key b)
            → AreParts (newest key hit (lru.entries p.inner))
        used none part = parts
        used (some b) part = append_end-AreParts key b _ (part b refl) (remove-AreParts key _ parts)

    evict_over-LruParts : (fuel : ℕ) (p : PeerLru C) → LruParts p → LruParts (evict_over lru fuel p)
    unfolding evict_over
    evict_over-LruParts zero p parts = parts
    evict_over-LruParts (suc fuel) p parts =
        let left =
          subst AreParts (sym (laws.pop_leaves p.inner))
            (behind-AreParts (lru.entries p.inner) parts) in
        elim (Bool-cases (ltb p.cap_bytes p.bytes)) [
          | inr fits ↦ rw (fits, evict_over) parts
          | inl over ↦ elim (Option-cases (lru.pop_lru p.inner).1) [
            | inl nothing ↦ rw (over, nothing, evict_over) left
            | inr (e, popped) ↦ rw (over, popped, evict_over) (evict_over-LruParts fuel _ left)
          ]
        ]

    pub put_lru-LruParts :
        (key : ChunkKey) (b : Bytes) (p : PeerLru C)
        → IsPart key b
        → LruParts p
        → LruParts (put_lru lru key b p)
    unfolding put_lru put_unbounded
    put_lru-LruParts key b p part parts = elim (Bool-cases (ltb p.cap_bytes (length b))) [
      | inl over ↦ rw (over, put_lru) parts
      | inr small ↦
          let q = put_unbounded lru key b p in
          rw (small, put_lru)
            (evict_over-LruParts (suc (length (lru.entries q.inner))) q (
              subst AreParts (sym (laws.put_adds key b p.inner))
                (append_end-AreParts key b _ part (remove-AreParts key _ parts))))
    ]
