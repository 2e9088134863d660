-- ===== src/PeerIndex/Ingest.antt =====
-- What `ingest_remote` (src/peerindex.rs) takes from a peer.
use blobcache.Prelude.{
  ◌≡◌, ◌≢◌, ◌⊎◌, inl, inr, refl, ◌∙◌, ℕ, Bytes, All, none, some, true, false, arith, if_neg,
  Option-cases,
}
use blobcache.Prelude.Assoc.{get, get-insert}
use blobcache.Prelude.Endian.{IsByte}
use blobcache.Cluster.State.{text_discrete}
use blobcache.PeerIndex.Bloom.{from_bytes, to_bytes, IsFilter}
use blobcache.PeerIndex.Wire.{to_bytes-from_bytes}
use blobcache.PeerIndex.State.{PeerIndex, RemoteBloom, ingest_remote}

-- A filter of a peer as it was sent.
abbrev pub IsFrom : ℕ → Bytes → RemoteBloom → Type 0
IsFrom version b r = (r.version ≡ version) × (to_bytes r.bloom ≡ b) × IsFilter r.bloom

-- What a peer sends is either not a filter, and nothing changes; or it is the bytes of a well formed
-- filter, which is then the peer's, under the version that came with it, while the filters of the
-- other peers stay.
pub ingest_remote-IsFrom :
    (peer_id : Bytes) (version : ℕ) (b : Bytes) (p : PeerIndex)
    → All IsByte b
    → let (p', taken) = ingest_remote peer_id version b p in
      ((from_bytes b ≡ none) × (taken ≡ false) × (p' ≡ p))
      ⊎ ((taken ≡ true)
          × ((r : RemoteBloom) × (get text_discrete peer_id p'.remote ≡ some r)
              × IsFrom version b r)
          × ((q : Bytes)
              → peer_id ≢ q
              → get text_discrete q p'.remote ≡ get text_discrete q p.remote))
unfolding ingest_remote
ingest_remote-IsFrom peer_id version b p a = elim (Option-cases (from_bytes b)) [
  | inl refused ↦ rw (refused, ingest_remote) (inl (refl, refl, refl))
  | inr (bloom, read) ↦
      let (same, whole) = to_bytes-from_bytes b bloom a read in
      let r : RemoteBloom = record { version = version; bloom = bloom } in
      rw (read, ingest_remote)
        (inr (
          refl,
          (
            r,
            ground (arith, get-insert text_discrete peer_id peer_id r p.remote),
            (refl, same, whole),
          ),
          λ q other.
              get-insert text_discrete q peer_id r p.remote
              ∙ if_neg (text_discrete peer_id q) other _ _,
        ))
]
