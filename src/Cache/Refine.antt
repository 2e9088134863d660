-- ===== src/Cache/Refine.antt =====
-- The eviction loop of `DiskCache` (src/cache.rs) drops what `trim` drops.
use blobcache.Prelude.{
  ℕ, zero, suc, ◌+◌, ◌≤◌, ◌<◌, ◌≡◌, refl, List, [], ◌∷◌, some, arith, ℕ_discrete, sym, ◌∙◌, Bytes,
  inl, inr, length, ap, dec_lt, List-cases, subst,
}
use mathlib.Core.Path.{ap₂}
use blobcache.Prelude.Assoc.{
  get, remove, total, get-remove_self, Distinct, total-remove, remove-Distinct,
}
use blobcache.Prelude.Sorted.{IsSorted, remove_first}
use blobcache.Cache.Key.{ChunkKey, key_discrete}
use blobcache.Cache.State.{DiskCache, Entry, Os}
use blobcache.Cache.Valid.{bytes_total, Linked, IsValid, remove-Linked}
use blobcache.Cache.Write.{evict_oldest, evict_loop}
use blobcache.Cache.Upkeep.{
  evict_oldest-IsValid, evict_loop_fits, evict_loop_empty, evict_loop_next,
}
use blobcache.Cache.Recency.{
  weight, trim, view_of, view, size_of, untracked-Misses, view_of-remove, trim_fits, trim_over,
}

no_entries : (entries : List (ChunkKey × Entry)) → Linked entries [] → entries ≡ []
unfolding get
no_entries [] l = refl
no_entries ((k, e) ∷ m) l = ground (arith, l.placed k e)

-- The first place of the order names a tracked key, and no later place does.
first_place :
    {entries : List (ChunkKey × Entry)} {lru : List (ℕ × ChunkKey)} {s : ℕ} {k : ChunkKey}
    → Linked entries ((s, k) ∷ lru)
    → IsSorted ((s, k) ∷ lru)
    → (e : Entry) × (get key_discrete k entries ≡ some e)
      × (e.last_access_seq ≡ s)
      × Linked (remove key_discrete k entries) lru
unfolding get
first_place {entries} {lru} {s} {k} l h =
    let (e, found, same) = l.tracked s k (ground arith) in
    let gone : remove ℕ_discrete e.last_access_seq ((s, k) ∷ lru) ≡ lru =
      rw same (remove_first s k lru h.0) in
    (
      e,
      found,
      same,
      subst (Linked (remove key_discrete k entries)) gone (remove-Linked l k e found),
    )

-- The weight of the view is the sum of the sizes.
pub weight-view :
    (lru : List (ℕ × ChunkKey)) (entries : List (ChunkKey × Entry))
    → Linked entries lru
    → IsSorted lru
    → Distinct key_discrete entries
    → weight (view_of lru entries) ≡ bytes_total entries
unfolding weight view_of total size_of
weight-view [] entries l h d = rw (no_entries entries l)
weight-view ((s, k) ∷ lru) entries l h d =
    let (e, found, same, rest) = first_place l h in
    let misses = untracked-Misses rest h.1 k (get-remove_self key_discrete k entries) in
    ground (
      arith,
      weight-view lru (remove key_discrete k entries) rest h.1
          (remove-Distinct key_discrete k entries d),
      view_of-remove k lru entries misses,
      total-remove key_discrete (λ x. x.size) k e entries d found,
    )

module _ (sha256 : Bytes → Bytes) (os : Os) where
  pub evict_oldest-lru :
      (c : DiskCache) (s : ℕ) (k : ChunkKey) (rest : List (ℕ × ChunkKey))
      → IsValid c
      → c.lru ≡ (s, k) ∷ rest
      → ((evict_oldest sha256 os s k c).lru ≡ rest)
        × ((evict_oldest sha256 os s k c).max_bytes ≡ c.max_bytes)
        × ((evict_oldest sha256 os s k c).seq ≡ c.seq)
        × (view (evict_oldest sha256 os s k c) ≡ view_of rest c.entries)
  unfolding evict_oldest
  evict_oldest-lru c s k rest v e =
      let l = subst (Linked c.entries) e v.linked in
      let h = subst IsSorted e v.sorted in
      let (x, found, same, linked) = first_place l h in
      let misses = untracked-Misses linked h.1 k (get-remove_self key_discrete k c.entries) in
      let gone : remove ℕ_discrete s c.lru ≡ rest = rw e (remove_first s k rest h.0) in
      rw (found, evict_oldest) (gone, refl, refl, rw gone (view_of-remove k rest c.entries misses))

  over_weight :
      (c : DiskCache) (s : ℕ) (k : ChunkKey) (rest : List (ℕ × ChunkKey))
      → IsValid c
      → c.lru ≡ (s, k) ∷ rest
      → size_of k c.entries + weight (view_of rest c.entries) ≡ c.bytes
  unfolding weight view_of
  over_weight c s k rest v e = omega (
    arith,
    ap (λ l. weight (view_of l c.entries)) e,
    weight-view c.lru c.entries v.linked v.sorted v.distinct,
    v.counted,
  )

  -- With as much fuel as the order has places, the loop leaves what `trim` leaves.
  pub evict_loop-trim :
      (fuel : ℕ) (c : DiskCache)
      → IsValid c
      → length c.lru ≤ fuel
      → view (evict_loop sha256 os fuel c) ≡ trim c.max_bytes (view c)
  unfolding view_of
  evict_loop-trim zero c v enough = elim (List-cases c.lru) [
    | inl e ↦ rw (evict_loop_empty sha256 os zero c e, e) (unfold trim in refl)
    | inr (a, rest, e) ↦ absurd (omega (arith, ap length e))
  ]
  evict_loop-trim (suc fuel) c v enough = elim (List-cases c.lru) [
    | inl e ↦ rw (evict_loop_empty sha256 os (suc fuel) c e, e) (unfold trim in refl)
    | inr ((s, k), rest, e) ↦ elim (dec_lt c.max_bytes c.bytes) [
      | no fits ↦ rw (evict_loop_fits sha256 os (suc fuel) c (omega arith)) (
          sym (
            trim_fits c.max_bytes (view c)
              (omega (arith, weight-view c.lru c.entries v.linked v.sorted v.distinct, v.counted))))
      | yes over ↦
          let (shorter, same_max, same_seq, seen) = evict_oldest-lru c s k rest v e in
          let ih =
            evict_loop-trim fuel (evict_oldest sha256 os s k c)
              (evict_oldest-IsValid sha256 os c s k rest v e)
              (omega (arith, ap length shorter, ap length e)) in
          evict_loop_view s k rest over e (ih ∙ ap₂ trim same_max seen)
    ]
  ]
    where
      evict_loop_view :
          (s : ℕ) (k : ChunkKey) (rest : List (ℕ × ChunkKey))
          → c.max_bytes < c.bytes
          → c.lru ≡ (s, k) ∷ rest
          → view (evict_loop sha256 os fuel (evict_oldest sha256 os s k c))
            ≡ trim c.max_bytes (view_of rest c.entries)
          → view (evict_loop sha256 os (suc fuel) c) ≡ trim c.max_bytes (view c)
      evict_loop_view s k rest over e ih =
          rw (evict_loop_next sha256 os fuel c s k rest over e, ih)
            (sym (
              ap (λ l. trim c.max_bytes (view_of l c.entries)) e
              ∙ trim_over c.max_bytes k _ _ (omega (arith, over_weight c s k rest v e))))
