-- ===== src/Fetcher/Bounded.antt =====
-- `PeerLru` of src/fetcher.rs keeps what its specification says, and its count of bytes is right.
use Prim.Native.Nat.{zero, suc}
use blobcache.Prelude.{
  ℕ, ◌+◌, ◌<◌, ◌≤◌, ◌≡◌, refl, sym, ap, ◌∙◌, subst, [], ◌∷◌, Bytes, false, ltb, some, if◌then◌else◌,
  length, arith, Option-cases, Bool-cases, List-cases, inl, inr,
}
use blobcache.Prelude.Assoc.{get, remove, Distinct, get-remove}
use blobcache.Prelude.Word.{u64_mod}
use blobcache.Cache.Key.{ChunkKey, key_discrete}
use blobcache.Fetcher.PeerLru.{
  Chunks, LruCache, IsLru, newest, front, behind, PeerLru, get_lru, evict_over, put_unbounded,
  put_lru,
}
use blobcache.Fetcher.Accounted.{
  held_bytes, newest_within, held_bytes-append, held_bytes-remove, newest_within_fits,
  newest_within-Distinct, newest-Distinct, newest_within_keeps,
}

module _ {C : Type 0} (lru : LruCache C) where
  abbrev pub chunks : PeerLru C → Chunks
  chunks p = lru.entries p.inner

  -- The count of bytes is that of the chunks, which are within the bound, and no key has two.
  pub record IsBounded (p : PeerLru C) : Type 0 where
    pub counted : p.bytes ≡ held_bytes (chunks p)
    pub within : p.bytes ≤ p.cap_bytes
    pub distinct : Distinct key_discrete (chunks p)

module _ {C : Type 0} (lru : LruCache C) (laws : IsLru lru) where
  -- How the loop ends, with enough fuel.
  evict_over-newest_within :
      (fuel : ℕ) (p : PeerLru C)
      → length (lru.entries p.inner) ≤ fuel
      → p.bytes ≡ held_bytes (lru.entries p.inner)
      → (lru.entries (evict_over lru fuel p).inner
          ≡ newest_within p.cap_bytes (lru.entries p.inner))
        × ((evict_over lru fuel p).bytes
            ≡ held_bytes (newest_within p.cap_bytes (lru.entries p.inner)))
        × ((evict_over lru fuel p).cap_bytes ≡ p.cap_bytes)
  unfolding evict_over held_bytes newest_within
  evict_over-newest_within zero p few counted = elim (List-cases (lru.entries p.inner)) [
    | inl empty ↦ ground (arith, empty)
    | inr (e, l, full) ↦ ground (arith, full)
  ]
  evict_over-newest_within (suc fuel) p few counted = elim (Bool-cases (ltb p.cap_bytes p.bytes)) [
    | inr fits ↦ elim (List-cases (lru.entries p.inner)) [
      | inl empty ↦ rw (fits, empty, evict_over) (refl, counted ∙ ap held_bytes empty, refl)
      | inr ((k, v), l, full) ↦
          let sum : p.bytes ≡ length v + held_bytes l = counted ∙ ap held_bytes full in
          rw (fits, full, evict_over) (ground arith, ground arith, refl)
    ]
    | inl over ↦ elim (List-cases (lru.entries p.inner)) [
      | inl empty ↦ ground (arith, empty)
      | inr ((k, v), l, full) ↦
          let popped : (lru.pop_lru p.inner).1 ≡ some (k, v) =
            laws.pops_front p.inner ∙ ap front full in
          let left : lru.entries (lru.pop_lru p.inner).0 ≡ l =
            laws.pop_leaves p.inner ∙ ap behind full in
          let sum : p.bytes ≡ length v + held_bytes l = counted ∙ ap held_bytes full in
          let shorter : newest_within p.cap_bytes (lru.entries p.inner)
              ≡ newest_within p.cap_bytes (lru.entries (lru.pop_lru p.inner).0) =
            ap (newest_within p.cap_bytes) full ∙ ground (arith, left) in
          rw (over, popped, shorter, evict_over)
            (evict_over-newest_within fuel _ (ground (arith, full, left)) (ground (arith, left)))
    ]
  ]

  -- With fuel for each chunk, the loop that evicts ends by its own test, and not as the fuel is out: the
  -- bytes are within the bound; when the count of bytes was right.
  pub evict_over-ends :
      (fuel : ℕ) (p : PeerLru C)
      → length (lru.entries p.inner) ≤ fuel
      → p.bytes ≡ held_bytes (lru.entries p.inner)
      → ltb (evict_over lru fuel p).cap_bytes (evict_over lru fuel p).bytes ≡ false
  evict_over-ends fuel p few counted =
      let (kept, bytes, cap) = evict_over-newest_within fuel p few counted in
      let fits = newest_within_fits p.cap_bytes (lru.entries p.inner) in
      let bounded : (evict_over lru fuel p).bytes ≤ (evict_over lru fuel p).cap_bytes =
        rw (bytes, cap) fits in
      ground arith

  -- The chunks once a value was put, before any has to go.
  put_unbounded-newest :
      (key : ChunkKey) (val : Bytes) (p : PeerLru C)
      → IsBounded lru p
      → p.cap_bytes + length val < u64_mod
      → (lru.entries (put_unbounded lru key val p).inner
          ≡ newest key (some val) (lru.entries p.inner))
        × ((put_unbounded lru key val p).bytes
            ≡ held_bytes (newest key (some val) (lru.entries p.inner)))
  unfolding put_unbounded held_bytes
  put_unbounded-newest key val p v room =
      let sum =
        held_bytes-append (remove key_discrete key (lru.entries p.inner)) ((key, val) ∷ []) in
      let less = held_bytes-remove key (lru.entries p.inner) v.distinct in
      (
        laws.put_adds key val p.inner,
        elim (Option-cases (get key_discrete key (lru.entries p.inner))) [
          | inl new ↦
              rw (laws.put_replaces key val p.inner, new)
                (ground (arith, new, sum, less, v.counted, v.within))
          | inr (old, had) ↦
              rw (laws.put_replaces key val p.inner, had)
                (ground (arith, had, sum, less, v.counted, v.within))
        ],
      )

  -- After a put, the chunks are the ones that there were without the key's, and the new one at the end,
  -- less the oldest until the rest fits; but a value over the bound changes nothing. The count of bytes
  -- is then right, and a value that fits is read back.
  pub put_lru-newest_within :
      (key : ChunkKey) (val : Bytes) (p : PeerLru C)
      → IsBounded lru p
      → p.cap_bytes + p.cap_bytes < u64_mod
      → (chunks lru (put_lru lru key val p) ≡ (
          if ltb p.cap_bytes (length val)
          then chunks lru p
          else newest_within p.cap_bytes (newest key (some val) (chunks lru p))))
        × IsBounded lru (put_lru lru key val p)
        × (length val ≤ p.cap_bytes → (get_lru lru key (put_lru lru key val p)).1 ≡ some val)
  unfolding put_lru get_lru
  put_lru-newest_within key val p v room = elim (Bool-cases (ltb p.cap_bytes (length val))) [
    | inl over ↦ rw (over, put_lru) (refl, v, λ fits. ground arith)
    | inr small ↦
        let q = put_unbounded lru key val p in
        let (added, counted) = put_unbounded-newest key val p v (ground arith) in
        let (kept, bytes, cap) =
          evict_over-newest_within (suc (length (lru.entries q.inner))) q (omega arith)
            (counted ∙ ap held_bytes (sym added)) in
        let bounded : (evict_over lru (suc (length (lru.entries q.inner))) q).bytes
            ≤ (evict_over lru (suc (length (lru.entries q.inner))) q).cap_bytes =
          rw (bytes, cap) (newest_within_fits q.cap_bytes (lru.entries q.inner)) in
        let kept' = kept ∙ ap (newest_within p.cap_bytes) added in
        let found : get key_discrete key
              (newest_within p.cap_bytes (newest key (some val) (lru.entries p.inner)))
            ≡ some val =
          newest_within_keeps p.cap_bytes (remove key_discrete key (lru.entries p.inner)) key val
            (ground (arith, get-remove key_discrete key key (lru.entries p.inner)))
            (ground arith) in
        rw (small, put_lru)
          (
            kept',
            record {
              counted = bytes ∙ ap held_bytes (sym kept);
              within = bounded;
              distinct = subst (Distinct key_discrete) (sym kept') (
                  newest_within-Distinct p.cap_bytes _
                    (newest-Distinct key (some val) _ v.distinct));
            },
            λ fits. laws.read_finds key _ ∙ ap (get key_discrete key) kept' ∙ found,
          )
  ]
