-- ===== src/PeerIndex/Advertise.antt =====
-- No chunk that this node noted is lost to its peers (src/peerindex.rs), whatever the order in which
-- inserts, evictions and one rebuild at a time take the locks.
use blobcache.Prelude.{
  ℕ, ◌<◌, ◌≡◌, refl, List, [], ◌∷◌, ◌++◌, Option, none, some, Bytes, Bool, true, false, ◌⊎◌,
  if◌then◌else◌, map, ite, arith, ap, subst, ◌||◌,
}
use blobcache.Prelude.Word.{u64_mod}
use blobcache.Cache.Key.{ChunkKey, key_discrete}
use blobcache.Cluster.State.{text_discrete}
use blobcache.PeerIndex.Bloom.{Bloom, insert, insert_all, contains, key_digest, IsFilter}
use blobcache.PeerIndex.Filter.{insert-IsFilter, contains-insert_self, contains-insert_mono}
use blobcache.PeerIndex.State.{
  PeerIndex, new, push_pending, publish_insert, build_bloom, swap_bloom,
}

module _ {A : Type 0} (dec : Discrete A) where
  unfoldable pub mem : A → List A → Bool
  mem a [] = false
  mem a (b ∷ l) = if elim (dec b a) [ yes _ ↦ true | no _ ↦ false ] then true else mem a l

  unfoldable pub without : A → List A → List A
  without a [] = []
  without a (b ∷ l) =
      if elim (dec b a) [ yes _ ↦ true | no _ ↦ false ] then without a l else b ∷ without a l

  pub mem-without : (q a : A) (l : List A) → mem q (without a l) ≡ ite (dec a q) false (mem q l)
  unfolding mem without
  mem-without q a [] = ground arith
  mem-without q a (b ∷ l) = ground (arith, mem-without q a l)

  pub mem-append : (q : A) (l r : List A) → mem q (l ++ r) ≡ (mem q l || mem q r)
  unfolding mem
  mem-append q [] r = refl
  mem-append q (b ∷ l) r = ground (arith, mem-append q l r)

pub insert_all-IsFilter : (ds : List Bytes) (b : Bloom) → IsFilter b → IsFilter (insert_all ds b)
unfolding insert_all
insert_all-IsFilter [] b f = f
insert_all-IsFilter (d ∷ ds) b f = insert_all-IsFilter ds (insert d b) (insert-IsFilter d b f)

pub contains-insert_all_mono :
    (ds : List Bytes) (e : Bytes) (b : Bloom)
    → IsFilter b
    → contains e b ≡ true
    → contains e (insert_all ds b) ≡ true
unfolding insert_all
contains-insert_all_mono [] e b f h = h
contains-insert_all_mono (d ∷ ds) e b f h =
    contains-insert_all_mono ds e (insert d b) (insert-IsFilter d b f)
      (contains-insert_mono d e b f h)

pub contains-insert_all :
    (ds : List Bytes) (e : Bytes) (b : Bloom)
    → IsFilter b
    → mem text_discrete e ds ≡ true
    → contains e (insert_all ds b) ≡ true
unfolding insert_all mem
contains-insert_all [] e b f h = ground arith
contains-insert_all (d ∷ ds) e b f h = elim (text_discrete d e) [
  | yes same ↦
      contains-insert_all_mono ds e (insert d b) (insert-IsFilter d b f)
        (subst (λ x. contains x (insert d b) ≡ true) same (contains-insert_self d b f))
  | no other ↦ contains-insert_all ds e (insert d b) (insert-IsFilter d b f) (ground arith)
]

pub mem-map_digest :
    (sha256 : Bytes → Bytes) (k : ChunkKey) (l : List ChunkKey)
    → mem key_discrete k l ≡ true
    → mem text_discrete (key_digest sha256 k) (map (key_digest sha256) l) ≡ true
unfolding mem
mem-map_digest sha256 k [] h = ground arith
mem-map_digest sha256 k (j ∷ l) h = elim (key_discrete j k) [
  | yes same ↦ let e = ap (key_digest sha256) same in ground arith
  | no other ↦ let rest = mem-map_digest sha256 k l (ground arith) in ground arith
]

-- The node as the threads share it. `pushed` and `noted` are the live keys for which a call of
-- `note_local_insert` has done its first lock, and both; `building` is the filter that a rebuild has
-- made of its snapshot.
pub record World : Type 0 where
  pub live : List ChunkKey
  pub pushed : List ChunkKey
  pub noted : List ChunkKey
  pub building : Option Bloom
  pub index : PeerIndex

abbrev pub start : Bytes → ℕ → World
start me_id bloom_bits = record {
  live = [];
  pushed = [];
  noted = [];
  building = none;
  index = new me_id bloom_bits;
}

abbrev pub Has : ChunkKey → List ChunkKey → Type 0
Has k l = mem key_discrete k l ≡ true

module _ (sha256 : Bytes → Bytes) where
  pub data Step : World → World → Type 0 where
    -- `DiskCache::insert` is done.
    stores : {w : World} (k : ChunkKey) → Step w (record w { live = k ∷ w.live })
    -- A chunk leaves the cache.
    drops :
        {w : World} (k : ChunkKey)
        → Step w (record w {
          live = without key_discrete k w.live;
          pushed = without key_discrete k w.pushed;
          noted = without key_discrete k w.noted;
        })
    pushes :
        {w : World} (k : ChunkKey)
        → Has k w.live
        → Step w
            (record w { pushed = k ∷ w.pushed; index = push_pending (key_digest sha256 k) w.index })
    publishes :
        {w : World} (k : ChunkKey)
        → Has k w.pushed
        → Step w
            (record w { noted = k ∷ w.noted; index = publish_insert (key_digest sha256 k) w.index })
    -- The same for a chunk that has left the cache since.
    pushes_late :
        {w : World} (k : ChunkKey)
        → Step w (record w { index = push_pending (key_digest sha256 k) w.index })
    publishes_late :
        {w : World} (k : ChunkKey)
        → Step w (record w { index = publish_insert (key_digest sha256 k) w.index })
    begins :
        {w : World}
        → w.building ≡ none
        → Step w (record w { building = some (build_bloom sha256 w.index.bloom_bits w.live) })
    swaps :
        {w : World} (built : Bloom)
        → w.building ≡ some built
        → Step w (record w { building = none; index = swap_bloom built w.index })

  pub data Reach : World → World → Type 0 where
    here : {w : World} → Reach w w
    next : {a b c : World} → Reach a b → Step b c → Reach a c

  -- What holds between steps: a filter that is being built, and what is pending, have every pushed
  -- key; the published filter has every noted key.
  pub record IsAdvertised (w : World) : Type 0 where
    pub sized : w.index.bloom_bits < u64_mod
    pub filter : IsFilter w.index.bloom
    pub stored : (k : ChunkKey) → Has k w.pushed → Has k w.live
    pub earlier : (k : ChunkKey) → Has k w.noted → Has k w.pushed
    pub shown : (k : ChunkKey) → Has k w.noted → contains (key_digest sha256 k) w.index.bloom ≡ true
    pub built : (b : Bloom) → w.building ≡ some b → IsFilter b
    pub kept :
        (b : Bloom)
        → w.building ≡ some b
        → (k : ChunkKey) → Has k w.pushed
        → (contains (key_digest sha256 k) b ≡ true)
          ⊎ (mem text_discrete (key_digest sha256 k) w.index.pending ≡ true)
