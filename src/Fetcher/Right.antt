-- ===== src/Fetcher/Right.antt =====
-- The chunks and slices that `fetch_chunk_inner`, `fetch_chunk_range_inner` and `serve_peer_chunk` of
-- src/fetcher.rs give are right.
use Prim.Native.Nat.{zero, suc}
use blobcache.Prelude.{
  ltb, ℕ, ◌+◌, ◌≡◌, refl, sym, ap, ◌∙◌, subst, [], Bytes, Bool, true, false, leb, ◌==◌, Option,
  none, some, length, take, drop, arith, Option-cases, Bool-cases, inl, inr,
}
use blobcache.Prelude.Assoc.{get}
use blobcache.Prelude.Word.{u64_mod}
use blobcache.Prelude.Result.{Result, ok, err}
use blobcache.Cache.Key.{ChunkKey, key_discrete}
use blobcache.Cache.State.{read_file}
use blobcache.Cache.Read.{path_for, try_get_range}
use blobcache.Config.Fields.{MountConfig}
use blobcache.Fetcher.PeerLru.{LruCache, IsLru}
use blobcache.Fetcher.State.{Counter, Fetcher, Settings, World, count}
use blobcache.Fetcher.Sources.{Complaint}
use blobcache.Fetcher.Chunk.{
  Broadcast, sent, gone, of_length, slice_of, read_lru, read_cache, find_here, follow, lead, disarm,
  fetch_chunk_inner, fetch_chunk_range_inner,
}
use blobcache.Fetcher.Parts.{IsPart, get-IsPart, IsPart-slice}
use blobcache.Fetcher.Disk.{try_get_range-file}
use blobcache.Fetcher.Faithful.{Result-cases, given_same, given, PeersAreHonest}
use blobcache.Fetcher.Fetched.{BlobsAreRight, IsRight, do_fetch-IsRight}
use blobcache.Fetcher.Here.{
  Faith, read_lru-IsRead, read_cache-IsRead, of_length-right, find_here-IsGood,
}

ok_same : {a b : Bytes} → Path (Result Bytes) (ok a) (ok b) → a ≡ b
ok_same e = ground arith

zero_slice : (n : ℕ) (b : Bytes) → (n == 0) ≡ true → [] ≡ take n b
zero_slice zero b h = refl
zero_slice (suc n) b h = ground arith

module _ {C : Type 0} (lru : LruCache C) (laws : IsLru lru) (sha256 : Bytes → Bytes)
    (content : ChunkKey → Bytes) (say : Complaint → Bytes) (set : Settings) (w : World) where
  -- A leader of a fetch sends right bytes.
  abbrev pub IsRightBroadcast : ChunkKey → Broadcast → Type 0
  IsRightBroadcast key broadcast = (b : Bytes) → broadcast ≡ sent (ok b) → IsPart content key b

  follow-IsRight :
      (key : ChunkKey) (len : ℕ) (broadcast : Broadcast) (f : Fetcher C)
      → IsRightBroadcast key broadcast
      → Faith lru laws sha256 content f
      → IsRight lru laws sha256 content say set w key len
          (follow lru sha256 say set w key len broadcast f)
  unfolding follow
  follow-IsRight key len (sent (ok b)) f right v = elim (Bool-cases (length b == len)) [
    | inl long ↦
        rw (long, follow)
          (
            v,
            λ d e.
                given lru laws sha256 content b d len key (ground arith) (right b refl)
                  (ground arith),
          )
    | inr wrong ↦ rw (wrong, follow) (v, λ d e. ground arith)
  ]
  follow-IsRight key len (sent (err x)) f right v = (v, λ d e. ground arith)
  follow-IsRight key len gone f right v =
      let r = read_cache lru sha256 say set w key f in
      let (kept, part) = read_cache-IsRead lru laws sha256 content say set w key f v in
      elim (Option-cases (of_length len r.1)) [
        | inl missed ↦ rw (missed, follow) (kept, λ d e. ground arith)
        | inr (b, got) ↦
            rw (got, follow)
              (
                kept,
                λ d e.
                    of_length-right lru laws sha256 content say set w key len _ d part
                      (ground (arith, got)),
              )
      ]

  disarm-IsFaithful :
      (key : ChunkKey) (f : Fetcher C)
      → Faith lru laws sha256 content f
      → Faith lru laws sha256 content (disarm lru sha256 say set w key f)
  unfolding disarm
  disarm-IsFaithful key f v = elim (Option-cases (get key_discrete key f.inflight)) [
    | inl nobody ↦ rw (nobody, disarm) v
    | inr (u, led) ↦ rw (led, disarm) v
  ]

  module _ (mount : MountConfig) (blob_path : Bytes) (offset len : ℕ) (broadcast : Broadcast)
      (honest : PeersAreHonest lru laws sha256 content say set w)
      (blobs : BlobsAreRight lru laws sha256 content say set w mount blob_path)
      (leader : IsRightBroadcast
        (record { mount = mount.name; blob = blob_path; offset = offset })
        broadcast) where
    -- A chunk that is found on this node, sent by a leader, or fetched from a peer or the blob store has
    -- the length that was asked for and is part of the chunk's content, and the fetcher stays faithful;
    -- when it was, when the peers and the leader send right bytes and the blob store has them.
    pub fetch_chunk_inner-IsRight :
        (bypass_peers : Bool) (f : Fetcher C)
        → Faith lru laws sha256 content f
        → IsRight lru laws sha256 content say set w
            (record { mount = mount.name; blob = blob_path; offset = offset })
            len
            (fetch_chunk_inner lru sha256 say set w mount blob_path offset len bypass_peers
              broadcast f)
    unfolding fetch_chunk_inner
    fetch_chunk_inner-IsRight bypass_peers f v =
        let key : ChunkKey = record { mount = mount.name; blob = blob_path; offset = offset } in
        let r = find_here lru sha256 say set w key len f in
        let (kept, right) = find_here-IsGood lru laws sha256 content say set w key len f v in
        elim (Option-cases r.1) [
          | inr (b, got) ↦ rw (got, fetch_chunk_inner) (kept, λ d e. right d (ground (arith, got)))
          | inl missed ↦ elim (Option-cases (get key_discrete key r.0.inflight)) [
            | inr (u, led) ↦
                rw (missed, led, fetch_chunk_inner)
                  (follow-IsRight key len broadcast (count Counter.singleflight_waits r.0) leader
                    kept)
            | inl free ↦
                let (fetched, good) =
                  do_fetch-IsRight lru laws sha256 content say set w mount blob_path blobs offset
                    len bypass_peers (lead lru sha256 say set w key r.0) honest kept in
                rw (missed, free, fetch_chunk_inner) (disarm-IsFaithful key _ fetched, good)
          ]
        ]

    slice_of-right :
        (start n : ℕ) (hit : Option Bytes) (b : Bytes)
        → ((d : Bytes)
            → hit ≡ some d
            → IsPart content (record { mount = mount.name; blob = blob_path; offset = offset }) d)
        → slice_of lru sha256 say set w start n hit ≡ some (ok b)
        → b
          ≡ take n (
              drop start
                (content (record { mount = mount.name; blob = blob_path; offset = offset })))
    slice_of-right start n none b part e = ground arith
    slice_of-right start n (some d) b part e = elim (Bool-cases (ltb (start + n) u64_mod)) [
      | inl whole ↦ elim (Bool-cases (leb (start + n) (length d))) [
        | inl fits ↦ ground (arith, whole, fits, IsPart-slice content _ d start n (part d refl))
        | inr short ↦ ground (arith, whole, short)
      ]
      | inr wraps ↦ ground (arith, wraps)
    ]

    of_length-IsPart :
        (hit : Option Bytes) (b : Bytes)
        → ((d : Bytes)
            → hit ≡ some d
            → IsPart content (record { mount = mount.name; blob = blob_path; offset = offset }) d)
        → of_length len hit ≡ some b
        → IsPart content (record { mount = mount.name; blob = blob_path; offset = offset }) b
    of_length-IsPart hit b part e =
        (of_length-right lru laws sha256 content say set w _ len hit b part e).1

    abbrev pub IsSlice : ℕ → ℕ → Fetcher C × Result Bytes → Type 0
    IsSlice start n r =
        (b : Bytes)
        → r.1 ≡ ok b
        → b
          ≡ take n (
              drop start
                (content (record { mount = mount.name; blob = blob_path; offset = offset })))

    -- A slice of a chunk is that slice of the chunk's content, wherever it is read: on its way to the
    -- disk, in memory, on disk, or in the chunk that is fetched; when what the fetcher has of chunks is
    -- right, the peers and the leader send right bytes, and the blob store has them.
    pub fetch_chunk_range_inner-IsSlice :
        (start n : ℕ) (f : Fetcher C)
        → Faith lru laws sha256 content f
        → IsSlice start n (
            fetch_chunk_range_inner lru sha256 say set w mount blob_path offset start n len
              broadcast f)
    unfolding fetch_chunk_range_inner
    fetch_chunk_range_inner-IsSlice start n f v =
        let key : ChunkKey = record { mount = mount.name; blob = blob_path; offset = offset } in
        let written = λ (d : Bytes) (e : get key_discrete key f.inflight_writes ≡ some d).
          get-IsPart content key d f.inflight_writes v.in_writes e in
        let r = read_lru lru sha256 say set w key f in
        let (kept, part) = read_lru-IsRead lru laws sha256 content say set w key f v in
        let (same, file) = try_get_range-file sha256 w.os key r.0.cache start n in
        let c = try_get_range sha256 w.os key start n r.0.cache in
        let g : Fetcher C = record r.0 { cache = c.0 } in
        let after : Faith lru laws sha256 content g = record {
          on_disk = λ os k b e.
              kept.on_disk os k b (ap (read_file os (path_for sha256 k)) (sym same) ∙ e);
          in_memory = kept.in_memory;
          in_writes = kept.in_writes;
        } in
        let full =
          fetch_chunk_inner lru sha256 say set w mount blob_path offset len false broadcast g in
        let (then_kept, right) = fetch_chunk_inner-IsRight false g after in
        elim (Bool-cases (n == 0)) [
          | inl empty ↦
              rw (empty, fetch_chunk_range_inner) (λ b e. sym (ok_same e) ∙ zero_slice n _ empty)
          | inr asked ↦
              elim (Option-cases
                (slice_of lru sha256 say set w start n (get key_discrete key f.inflight_writes))) [
                  | inr (d, got) ↦
                      rw (asked, got, fetch_chunk_range_inner)
                        (λ b e. slice_of-right start n _ b written (got ∙ ap some e))
                  | inl unwritten ↦
                      elim (Option-cases
                        (slice_of lru sha256 say set w start n (of_length len r.1))) [
                          | inr (d, got) ↦
                              rw (asked, unwritten, got, fetch_chunk_range_inner)
                                (λ b e.
                                  slice_of-right start n _ b (λ x h. of_length-IsPart r.1 x part h)
                                    (got ∙ ap some e))
                          | inl unkept ↦ elim (Option-cases c.1) [
                            | inr (d, got) ↦
                                rw (asked, unwritten, unkept, got, fetch_chunk_range_inner)
                                  (λ b e.
                                    let (whole, read, fits, is) = file d asked got in
                                    sym (ok_same e)
                                    ∙ is
                                    ∙ IsPart-slice content key whole start n
                                        (kept.on_disk w.os key whole read) fits)
                            | inl uncached ↦ elim (Result-cases full.1) [
                              | inr (x, failed) ↦
                                  rw
                                    (
                                      asked, unwritten, unkept, uncached, failed,
                                      fetch_chunk_range_inner,
                                    )
                                    (λ b e. ground arith)
                              | inl (whole, fetched) ↦
                                  let is_part =
                                    λ (x : Bytes) (h : Path (Option Bytes) (some whole) (some x)).
                                      subst (IsPart content key) (given_same whole x h)
                                        (right whole fetched).1 in
                                  elim (Option-cases
                                    (slice_of lru sha256 say set w start n (some whole))) [
                                      | inl short ↦
                                          rw
                                            (
                                              asked, unwritten, unkept, uncached, fetched, short,
                                              fetch_chunk_range_inner,
                                            )
                                            (λ b e. ground arith)
                                      | inr (d, got) ↦
                                          rw
                                            (
                                              asked, unwritten, unkept, uncached, fetched, got,
                                              fetch_chunk_range_inner,
                                            )
                                            (λ b e.
                                              slice_of-right start n (some whole) b is_part
                                                (got ∙ ap some e))
                                    ]
                            ]
                          ]
                        ]
                ]
        ]
