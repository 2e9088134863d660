-- ===== src/PeerIndex/State.antt =====
-- `PeerIndex` (src/peerindex.rs): this node's filter, what is pending, and the peers' filters. What
-- runs under the write lock on `local` is one function; SHA-256 is a parameter.
use blobcache.Prelude.{ℕ, List, [], ◌∷◌, ◌++◌, Option, none, some, Bytes, Bool, true, false, map}
use blobcache.Prelude.Assoc.{get, insert, remove}
use blobcache.Prelude.Word.{saturating_add}
use blobcache.Cache.Key.{ChunkKey}
use blobcache.Cluster.State.{text_discrete}
use blobcache.PeerIndex.Bloom.{Bloom, insert_all, contains, from_bytes, to_bytes, key_digest}
use blobcache.PeerIndex.Bloom

pub record RemoteBloom : Type 0 where
  pub version : ℕ
  pub bloom : Bloom

pub record PeerIndex : Type 0 where
  pub me_id : Bytes
  pub bloom_bits : ℕ
  pub version : ℕ
  pub bloom : Bloom
  pub pending : List Bytes
  pub remote : List (Bytes × RemoteBloom)

unfoldable pub new : Bytes → ℕ → PeerIndex
new me_id bloom_bits = record {
  me_id = me_id;
  bloom_bits = bloom_bits;
  version = 1;
  bloom = Bloom.new bloom_bits;
  pending = [];
  remote = [];
}

-- The two locks that `note_local_insert` takes in turn. It then calls the hook with the new version.
unfoldable pub push_pending : Bytes → PeerIndex → PeerIndex
push_pending d p = record p { pending = p.pending ++ d ∷ [] }

unfoldable pub publish_insert : Bytes → PeerIndex → PeerIndex
publish_insert d p = record p {
  bloom = Bloom.insert d p.bloom;
  version = saturating_add p.version 1;
}

unfoldable pub note_local_insert : Bytes → PeerIndex → PeerIndex × ℕ
unfolding push_pending publish_insert
note_local_insert d p = let p' = publish_insert d (push_pending d p) in (p', p'.version)

-- The two parts of `rebuild_local_from_cache`: the filter of a snapshot of the live keys, and its
-- swap for the one that is there.
unfoldable pub build_bloom : (Bytes → Bytes) → ℕ → List ChunkKey → Bloom
unfolding insert_all
build_bloom sha256 bloom_bits keys =
    insert_all (map (key_digest sha256) keys) (Bloom.new bloom_bits)

unfoldable pub swap_bloom : Bloom → PeerIndex → PeerIndex
swap_bloom built p = record p {
  bloom = insert_all p.pending built;
  pending = [];
  version = saturating_add p.version 1;
}

unfoldable pub rebuild_local : (Bytes → Bytes) → List ChunkKey → PeerIndex → PeerIndex × ℕ
unfolding build_bloom swap_bloom
rebuild_local sha256 live p =
    let p' = swap_bloom (build_bloom sha256 p.bloom_bits live) p in (p', p'.version)

unfoldable pub local_snapshot : PeerIndex → ℕ × Bytes
local_snapshot p = (p.version, to_bytes p.bloom)

unfoldable pub ingest_remote : Bytes → ℕ → Bytes → PeerIndex → PeerIndex × Bool
ingest_remote peer_id version b p = elim (from_bytes b) [
  | none ↦ (p, false)
  | some bloom ↦ (
    record p {
      remote = insert text_discrete peer_id (record { version = version; bloom = bloom }) p.remote;
    },
    true,
  )
]

unfoldable pub remote_version : Bytes → PeerIndex → Option ℕ
remote_version peer_id p = elim (get text_discrete peer_id p.remote) [
  | none ↦ none
  | some r ↦ some r.version
]

unfoldable pub drop_remote : Bytes → PeerIndex → PeerIndex
drop_remote peer_id p = record p { remote = remove text_discrete peer_id p.remote }
