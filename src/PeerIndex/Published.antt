-- ===== src/PeerIndex/Published.antt =====
-- Every step keeps what PeerIndex/Advertise says of the shared node (src/peerindex.rs), so that a peer
-- that pulls the filter finds in it each chunk that was noted.
use blobcache.Prelude.{
  ℕ, ◌<◌, ◌≡◌, [], ◌∷◌, some, Bytes, true, ◌⊎◌, inl, inr, map, arith, subst, ◌++◌, List,
}
use blobcache.Prelude.Word.{u64_mod}
use blobcache.Cache.Key.{ChunkKey, key_discrete}
use blobcache.Cluster.State.{text_discrete}
use blobcache.PeerIndex.Bloom.{
  Bloom, insert, insert_all, contains, key_digest, IsFilter, from_bytes,
}
use blobcache.PeerIndex.Bloom
use blobcache.PeerIndex.Filter.{insert-IsFilter, contains-insert_self, contains-insert_mono}
use blobcache.PeerIndex.Wire.{new-IsFilter, from_bytes-to_bytes}
use blobcache.PeerIndex.State.{
  new, push_pending, publish_insert, build_bloom, swap_bloom, local_snapshot,
}
use blobcache.PeerIndex.Advertise.{
  World, Step, stores, drops, pushes, publishes, pushes_late, publishes_late, begins, swaps, Reach,
  here, next, IsAdvertised, Has, start, mem, without, mem-without, mem-append, insert_all-IsFilter,
  contains-insert_all, contains-insert_all_mono, mem-map_digest,
}

more : (q k : ChunkKey) (l : List ChunkKey) → Has q l → Has q (k ∷ l)
unfolding mem
more q k l h = ground arith

first_or : (q k : ChunkKey) (l : List ChunkKey) → Has q (k ∷ l) → (k ≡ q) ⊎ Has q l
unfolding mem
first_or q k l h = ground arith

kept_without : (q k : ChunkKey) (l : List ChunkKey) → Has q (without key_discrete k l) → Has q l
kept_without q k l h = ground (arith, mem-without key_discrete q k l)

without_mono :
    (q k : ChunkKey) (l r : List ChunkKey)
    → (Has q l → Has q r)
    → Has q (without key_discrete k l)
    → Has q (without key_discrete k r)
without_mono q k l r f h =
    ground (arith, mem-without key_discrete q k l, mem-without key_discrete q k r, f)

in_last : (d : Bytes) (l : List Bytes) → mem text_discrete d (l ++ d ∷ []) ≡ true
unfolding mem
in_last d l = ground (arith, mem-append text_discrete d l (d ∷ []))

in_front :
    (d e : Bytes) (l : List Bytes)
    → mem text_discrete d l ≡ true
    → mem text_discrete d (l ++ e ∷ []) ≡ true
in_front d e l h = ground (arith, mem-append text_discrete d l (e ∷ []))

module _ (sha256 : Bytes → Bytes) where
  build_bloom-contains :
      (k : ChunkKey) (bits : ℕ) (live : List ChunkKey)
      → bits < u64_mod
      → Has k live
      → contains (key_digest sha256 k) (build_bloom sha256 bits live) ≡ true
  unfolding build_bloom
  build_bloom-contains k bits live room h =
      contains-insert_all (map (key_digest sha256) live) (key_digest sha256 k) (Bloom.new bits)
        (new-IsFilter bits room) (mem-map_digest sha256 k live h)

  build_bloom-IsFilter :
      (bits : ℕ) (live : List ChunkKey) → bits < u64_mod → IsFilter (build_bloom sha256 bits live)
  unfolding build_bloom
  build_bloom-IsFilter bits live room =
      insert_all-IsFilter (map (key_digest sha256) live) (Bloom.new bits) (new-IsFilter bits room)

  Step-IsAdvertised :
      {v w : World} → Step sha256 v w → IsAdvertised sha256 v → IsAdvertised sha256 w
  unfolding push_pending publish_insert swap_bloom
  Step-IsAdvertised (stores {w} k) a = record {
    sized = a.sized;
    filter = a.filter;
    stored = λ q h. more q k w.live (a.stored q h);
    earlier = a.earlier;
    shown = a.shown;
    built = a.built;
    kept = a.kept;
  }
  Step-IsAdvertised (drops {w} k) a = record {
    sized = a.sized;
    filter = a.filter;
    stored = λ q h. without_mono q k w.pushed w.live (a.stored q) h;
    earlier = λ q h. without_mono q k w.noted w.pushed (a.earlier q) h;
    shown = λ q h. a.shown q (kept_without q k w.noted h);
    built = a.built;
    kept = λ b e q h. a.kept b e q (kept_without q k w.pushed h);
  }
  Step-IsAdvertised (pushes {w} k live) a = record {
    sized = a.sized;
    filter = a.filter;
    stored = λ q h. elim (first_or q k w.pushed h) [
      | inl same ↦ subst (λ x. Has x w.live) same live
      | inr old ↦ a.stored q old
    ];
    earlier = λ q h. more q k w.pushed (a.earlier q h);
    shown = a.shown;
    built = a.built;
    kept = λ b e q h. elim (first_or q k w.pushed h) [
      | inl same ↦ inr (
          subst
            (λ x.
              mem text_discrete (key_digest sha256 x) (w.index.pending ++ key_digest sha256 k ∷ [])
              ≡ true)
            same (in_last (key_digest sha256 k) w.index.pending))
      | inr old ↦ elim (a.kept b e q old) [
        | inl there ↦ inl there
        | inr waits ↦
            inr (in_front (key_digest sha256 q) (key_digest sha256 k) w.index.pending waits)
      ]
    ];
  }
  Step-IsAdvertised (publishes {w} k pushed) a = record {
    sized = a.sized;
    filter = insert-IsFilter (key_digest sha256 k) w.index.bloom a.filter;
    stored = a.stored;
    earlier = λ q h. elim (first_or q k w.noted h) [
      | inl same ↦ subst (λ x. Has x w.pushed) same pushed
      | inr old ↦ a.earlier q old
    ];
    shown = λ q h. elim (first_or q k w.noted h) [
      | inl same ↦
          subst
            (λ x.
              contains (key_digest sha256 x) (insert (key_digest sha256 k) w.index.bloom) ≡ true)
            same (contains-insert_self (key_digest sha256 k) w.index.bloom a.filter)
      | inr old ↦
          contains-insert_mono (key_digest sha256 k) (key_digest sha256 q) w.index.bloom a.filter
            (a.shown q old)
    ];
    built = a.built;
    kept = a.kept;
  }
  Step-IsAdvertised (pushes_late {w} k) a = record {
    sized = a.sized;
    filter = a.filter;
    stored = a.stored;
    earlier = a.earlier;
    shown = a.shown;
    built = a.built;
    kept = λ b e q h. elim (a.kept b e q h) [
      | inl there ↦ inl there
      | inr waits ↦ inr (in_front (key_digest sha256 q) (key_digest sha256 k) w.index.pending waits)
    ];
  }
  Step-IsAdvertised (publishes_late {w} k) a = record {
    sized = a.sized;
    filter = insert-IsFilter (key_digest sha256 k) w.index.bloom a.filter;
    stored = a.stored;
    earlier = a.earlier;
    shown = λ q h.
        contains-insert_mono (key_digest sha256 k) (key_digest sha256 q) w.index.bloom a.filter
          (a.shown q h);
    built = a.built;
    kept = a.kept;
  }
  Step-IsAdvertised (begins {w} idle) a = record {
    sized = a.sized;
    filter = a.filter;
    stored = a.stored;
    earlier = a.earlier;
    shown = a.shown;
    built = λ b e.
        let same : build_bloom sha256 w.index.bloom_bits w.live ≡ b = ground arith in
        subst IsFilter same (build_bloom-IsFilter w.index.bloom_bits w.live a.sized);
    kept = λ b e q h.
        let same : build_bloom sha256 w.index.bloom_bits w.live ≡ b = ground arith in
        inl (
          subst (λ x. contains (key_digest sha256 q) x ≡ true) same
            (build_bloom-contains q w.index.bloom_bits w.live a.sized (a.stored q h)));
  }
  Step-IsAdvertised (swaps {w} b e) a = record {
    sized = a.sized;
    filter = insert_all-IsFilter w.index.pending b (a.built b e);
    stored = a.stored;
    earlier = a.earlier;
    shown = λ q h. elim (a.kept b e q (a.earlier q h)) [
      | inl there ↦
          contains-insert_all_mono w.index.pending (key_digest sha256 q) b (a.built b e) there
      | inr waits ↦ contains-insert_all w.index.pending (key_digest sha256 q) b (a.built b e) waits
    ];
    built = λ c f. ground arith;
    kept = λ c f q h. ground arith;
  }

  Reach-IsAdvertised :
      {v w : World} → IsAdvertised sha256 v → Reach sha256 v w → IsAdvertised sha256 w
  Reach-IsAdvertised a here = a
  Reach-IsAdvertised a (next r s) = Step-IsAdvertised s (Reach-IsAdvertised a r)

  start-IsAdvertised :
      (me_id : Bytes) (bits : ℕ) → bits < u64_mod → IsAdvertised sha256 (start me_id bits)
  unfolding new mem
  start-IsAdvertised me_id bits room = record {
    sized = room;
    filter = new-IsFilter bits room;
    stored = λ k h. h;
    earlier = λ k h. h;
    shown = λ k h. ground arith;
    built = λ b e. ground arith;
    kept = λ b e k h. ground arith;
  }

  -- Say inserts, evictions and rebuilds take their locks in any order, one rebuild at a time. A peer
  -- that then asks for the filter can read the bytes that it gets, and finds in them the digest of
  -- every chunk that was noted and has not left the cache since. The filter has fewer than 2 ^ 64 bits.
  pub start-Reach-contains :
      (me_id : Bytes) (bits : ℕ) {w : World} (k : ChunkKey)
      → bits < u64_mod
      → Reach sha256 (start me_id bits) w
      → Has k w.noted
      → (b : Bloom) × (from_bytes (local_snapshot w.index).1 ≡ some b)
        × (contains (key_digest sha256 k) b ≡ true)
  unfolding local_snapshot
  start-Reach-contains me_id bits {w} k room r h =
      let a = Reach-IsAdvertised (start-IsAdvertised me_id bits room) r in
      (w.index.bloom, from_bytes-to_bytes w.index.bloom a.filter, a.shown k h)
