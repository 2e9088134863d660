-- ===== src/Cache/Valid.antt =====
-- The bookkeeping of `DiskCache`: what ties `entries`, `lru`, `seq` and `bytes` together, and that
-- each change of the maps keeps it.
use blobcache.Prelude.{ℕ, ◌+◌, ◌≡◌, List, none, some, arith, ℕ_discrete}
use blobcache.Prelude.Assoc.{
  get, remove, insert, modify, Distinct, get-remove, get-insert, get-modify, total,
}
use blobcache.Prelude.Sorted.{insert_sorted, Below, IsSorted, get-insert_sorted}
use blobcache.Cache.Key.{ChunkKey, key_discrete}
use blobcache.Cache.State.{DiskCache, Entry}

abbrev pub bytes_total : List (ChunkKey × Entry) → ℕ
bytes_total = total key_discrete (λ e. e.size)

-- Every tracked key has its place in the order of use, and every place its key.
pub record Linked (entries : List (ChunkKey × Entry)) (lru : List (ℕ × ChunkKey)) : Type 0 where
  pub placed :
      (k : ChunkKey) (e : Entry)
      → get key_discrete k entries ≡ some e
      → get ℕ_discrete e.last_access_seq lru ≡ some k
  pub tracked :
      (s : ℕ) (k : ChunkKey)
      → get ℕ_discrete s lru ≡ some k
      → (e : Entry) × (get key_discrete k entries ≡ some e) × (e.last_access_seq ≡ s)

-- The maps agree, the order of use rises, and `bytes` is the sum of the sizes.
pub record Consistent (entries : List (ChunkKey × Entry)) (lru : List (ℕ × ChunkKey))
    (seq bytes : ℕ) : Type 0 where
  pub distinct : Distinct key_discrete entries
  pub sorted : IsSorted lru
  pub fresh : Below (seq + 1) lru
  pub linked : Linked entries lru
  pub counted : bytes ≡ bytes_total entries

abbrev pub IsValid : DiskCache → Type 0
IsValid c = Consistent c.entries c.lru c.seq c.bytes

module _ {entries : List (ChunkKey × Entry)} {lru : List (ℕ × ChunkKey)} (l : Linked entries lru)
    (k : ChunkKey) (e : Entry) (found : get key_discrete k entries ≡ some e) where
  -- Dropping a tracked key from both maps keeps them linked.
  pub remove-Linked :
      Linked (remove key_discrete k entries) (remove ℕ_discrete e.last_access_seq lru)
  remove-Linked = record {
    placed = λ k' e' h. ground (
      arith,
      get-remove key_discrete k' k entries,
      get-remove ℕ_discrete e'.last_access_seq e.last_access_seq lru,
      l.placed k e,
      l.placed k' e',
    );
    tracked = λ s k' h. ground (
      arith,
      get-remove key_discrete k' k entries,
      get-remove ℕ_discrete s e.last_access_seq lru,
      l.tracked s k',
    );
  }

-- A new access number for a tracked key.
pub touch-Linked :
    {entries : List (ChunkKey × Entry)} {lru : List (ℕ × ChunkKey)}
    → Linked entries lru
    → (k : ChunkKey) (e : Entry) (s : ℕ) → get key_discrete k entries ≡ some e
    → get ℕ_discrete s lru ≡ none
    → Linked
        (modify key_discrete k (λ x. record x { last_access_seq = s }) entries)
        (insert_sorted s k (remove ℕ_discrete e.last_access_seq lru))
touch-Linked {entries} {lru} l k e s found free = record {
  placed = λ k' e' h. ground (
    arith,
    get-modify key_discrete k' k (λ x. record x { last_access_seq = s }) entries,
    get-insert_sorted e'.last_access_seq s k (remove ℕ_discrete e.last_access_seq lru),
    get-remove ℕ_discrete e'.last_access_seq e.last_access_seq lru,
    l.placed k e,
    l.placed k' e',
  );
  tracked = λ s' k' h. ground (
    arith,
    get-modify key_discrete k' k (λ x. record x { last_access_seq = s }) entries,
    get-insert_sorted s' s k (remove ℕ_discrete e.last_access_seq lru),
    get-remove ℕ_discrete s' e.last_access_seq lru,
    l.tracked s' k',
  );
}

-- A new access number for a key that is not in the maps.
pub insert-Linked :
    {entries : List (ChunkKey × Entry)} {lru : List (ℕ × ChunkKey)}
    → Linked entries lru
    → (k : ChunkKey) (e : Entry) → get key_discrete k entries ≡ none
    → get ℕ_discrete e.last_access_seq lru ≡ none
    → Linked (insert key_discrete k e entries) (insert_sorted e.last_access_seq k lru)
insert-Linked {entries} {lru} l k e new free = record {
  placed = λ k' e' h. ground (
    arith,
    get-insert key_discrete k' k e entries,
    get-insert_sorted e'.last_access_seq e.last_access_seq k lru,
    l.placed k' e',
  );
  tracked = λ s k' h. ground (
    arith,
    get-insert key_discrete k' k e entries,
    get-insert_sorted s e.last_access_seq k lru,
    l.tracked s k',
  );
}
