-- ===== src/Cache/Recency.antt =====
-- The specification of `DiskCache` (src/cache.rs): the keys with their sizes, least recently used
-- first. A read moves a key to the end; an insertion puts one there and drops the oldest until the
-- sizes fit.
use blobcache.Prelude.{
  ℕ, ◌+◌, ◌≤◌, ◌<◌, ◌≡◌, ◌≢◌, refl, List, [], ◌∷◌, ◌++◌, none, some, arith, ℕ_discrete, ◌∙◌, ltb,
  ap, dec_lt, All, if◌then◌else◌, ◌↔◌,
}
use blobcache.Prelude.Assoc.{get, remove, get-remove_ne}
use blobcache.Prelude.Sorted.{IsSorted, get-Above}
use blobcache.Cache.Key.{ChunkKey, key_discrete}
use blobcache.Cache.State.{DiskCache, Entry}
use blobcache.Cache.Valid.{Linked}

-- Keys and sizes, least recently used first.
abbrev pub Recency : Type 0
Recency = List (ChunkKey × ℕ)

unfoldable pub weight : Recency → ℕ
weight [] = 0
weight ((k, n) ∷ l) = n + weight l

-- The oldest go until the rest fits.
unfoldable pub trim : ℕ → Recency → Recency
trim max [] = []
trim max ((k, n) ∷ l) = if ltb max (n + weight l) then trim max l else (k, n) ∷ l

abbrev pub without : ChunkKey → Recency → Recency
without = remove key_discrete

abbrev pub used : ChunkKey → ℕ → Recency → Recency
used k n l = without k l ++ (k, n) ∷ []

-- What the cache holds, in the order of use.
unfoldable pub size_of : ChunkKey → List (ChunkKey × Entry) → ℕ
size_of k entries = elim (get key_discrete k entries) [ none ↦ 0 | some e ↦ e.size ]

unfoldable pub view_of : List (ℕ × ChunkKey) → List (ChunkKey × Entry) → Recency
unfolding size_of
view_of [] entries = []
view_of ((s, k) ∷ lru) entries = (k, size_of k entries) ∷ view_of lru entries

abbrev pub view : DiskCache → Recency
view c = view_of c.lru c.entries

-- A statement about every place of a sorted order.
All-places :
    (P : ℕ → ChunkKey → Type 0) (lru : List (ℕ × ChunkKey))
    → IsSorted lru
    → ((s : ℕ) (k : ChunkKey) → get ℕ_discrete s lru ≡ some k → P s k)
    → All (λ x. P x.0 x.1) lru
unfolding get
All-places P [] h f = tt
All-places P ((s, k) ∷ lru) h f = (
  f s k (ground arith),
  All-places P lru h.1 (λ t j e. f t j (ground (arith, get-Above s lru h.0))),
)

-- A place names `k` exactly if it is the place of `k`.
abbrev pub IsPlaceOf : ChunkKey → ℕ → List (ℕ × ChunkKey) → Type 0
IsPlaceOf k s = All (λ x. (x.1 ≡ k) ↔ (x.0 ≡ s))

abbrev pub Misses : ChunkKey → List (ℕ × ChunkKey) → Type 0
Misses k = All (λ x. x.1 ≢ k)

module _ {entries : List (ChunkKey × Entry)} {lru : List (ℕ × ChunkKey)} (l : Linked entries lru)
    (sorted : IsSorted lru) (k : ChunkKey) where
  pub tracked_place :
      (e : Entry) → get key_discrete k entries ≡ some e → IsPlaceOf k e.last_access_seq lru
  tracked_place e found =
      All-places (λ s j. (j ≡ k) ↔ (s ≡ e.last_access_seq)) lru sorted
        λ s j h. (λ q. ground (arith, l.tracked s j h), λ q. ground (arith, l.placed k e))

  pub untracked-Misses : get key_discrete k entries ≡ none → Misses k lru
  untracked-Misses new =
      All-places (λ s j. j ≢ k) lru sorted λ s j h q. ground (arith, l.tracked s j h)

pub view_of-remove :
    (k : ChunkKey) (lru : List (ℕ × ChunkKey)) (entries : List (ChunkKey × Entry))
    → Misses k lru
    → view_of lru (remove key_discrete k entries) ≡ view_of lru entries
unfolding view_of
view_of-remove k [] entries m = refl
view_of-remove k ((s, j) ∷ lru) entries m =
    ground (arith, view_of-remove k lru entries m.1, get-remove_ne key_discrete j k entries)

pub without-view_of-Misses :
    (k : ChunkKey) (lru : List (ℕ × ChunkKey)) (entries : List (ChunkKey × Entry))
    → Misses k lru
    → without k (view_of lru entries) ≡ view_of lru entries
unfolding view_of remove
without-view_of-Misses k [] entries m = refl
without-view_of-Misses k ((s, j) ∷ lru) entries m =
    ground (arith, without-view_of-Misses k lru entries m.1)

-- Dropping the place of a key drops the key from the view.
pub view_of-remove_place :
    (k : ChunkKey) (s : ℕ) (lru : List (ℕ × ChunkKey)) (entries : List (ChunkKey × Entry))
    → IsPlaceOf k s lru
    → view_of (remove ℕ_discrete s lru) entries ≡ without k (view_of lru entries)
unfolding view_of remove
view_of-remove_place k s [] entries p = refl
view_of-remove_place k s ((t, j) ∷ lru) entries p =
    ground (arith, p.0.0, p.0.1, view_of-remove_place k s lru entries p.1)

pub trim_fits : (max : ℕ) (l : Recency) → weight l ≤ max → trim max l ≡ l
unfolding weight trim
trim_fits max [] h = refl
trim_fits max ((k, n) ∷ l) h = ground arith

pub trim_over :
    (max : ℕ) (k : ChunkKey) (n : ℕ) (l : Recency)
    → max < n + weight l
    → trim max ((k, n) ∷ l) ≡ trim max l
unfolding trim
trim_over max k n l h = ground arith

pub weight-trim-le : (max : ℕ) (l : Recency) → weight (trim max l) ≤ max
unfolding weight trim
weight-trim-le max [] = omega arith
weight-trim-le max ((k, n) ∷ l) = ground (arith, weight-trim-le max l)

-- What `trim` leaves is an end of the list, and every end that fits is part of it.
pub trim_suffix : (max : ℕ) (l : Recency) → (gone : Recency) × (l ≡ gone ++ trim max l)
unfolding trim
trim_suffix max [] = ([], refl)
trim_suffix max ((k, n) ∷ l) = elim (dec_lt max (n + weight l)) [
  | yes over ↦
      let (gone, e) = trim_suffix max l in
      ((k, n) ∷ gone, rw (trim_over max k n l over) (ap (◌∷◌ (k, n)) e))
  | no fits ↦ ([], ground arith)
]

weight-append : (l m : Recency) → weight (l ++ m) ≡ weight l + weight m
unfolding weight
weight-append [] m = omega arith
weight-append ((k, n) ∷ l) m = omega (arith, weight-append l m)

pub trim_longest :
    (max : ℕ) (gone kept : Recency)
    → weight kept ≤ max
    → (more : Recency) × (trim max (gone ++ kept) ≡ more ++ kept)
trim_longest max [] kept h = ([], trim_fits max kept h)
trim_longest max ((k, n) ∷ gone) kept h = elim (dec_lt max (n + weight (gone ++ kept))) [
  | yes over ↦
      let (more, e) = trim_longest max gone kept h in
      (more, trim_over max k n (gone ++ kept) over ∙ e)
  | no fits ↦ ((k, n) ∷ gone, trim_fits max ((k, n) ∷ gone ++ kept) (unfold weight in omega arith))
]
