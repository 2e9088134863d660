-- ===== src/Config/Accepted.antt =====
-- `validate` (src/config.rs) accepts exactly the configurations that meet all of its conditions.
use blobcache.Prelude.{
  ℕ, ◌%◌, ◌<◌, ◌≤◌, ◌≡◌, ◌≢◌, refl, ◌⊎◌, ◌↔◌, List, [], ◌∷◌, Bytes, Bool, true, false, not, ◌||◌,
  All, arith,
}
use blobcache.Prelude.Result.{Result, ok, err, BcError, ensure, ◌>>◌}
use blobcache.Cluster.State.{same_text}
use blobcache.Config.Fields.{
  Config, MountConfig, Fault, tcp, rdma, check_mounts, check_blocks, validate, is_empty,
}

abbrev pub IsNamed : MountConfig → Type 0
IsNamed m = (m.name ≢ []) × (m.account ≢ []) × (m.container ≢ [])

-- The conditions on the sizes and the workers.
abbrev pub IsSized : Config → Type 0
IsSized c =
    (0 < c.cache.chunk_size)
    × (c.cache.chunk_size % 4096 ≡ 0)
    × (0 < c.azure.pool_max_idle_per_host)
    × (0 < c.azure.workers)
    × (0 < c.azure.main_worker_threads)
    × ((c.azure.block_size ≡ 0)
        ⊎ ((c.cache.chunk_size ≤ c.azure.block_size)
            × (c.azure.block_size % c.cache.chunk_size ≡ 0)))

abbrev pub IsAccepted : Config → Type 0
IsAccepted c =
    IsSized c
    × (c.mounts ≢ [])
    × All IsNamed c.mounts
    × ((c.transport.kind ≡ tcp) ⊎ (c.transport.kind ≡ rdma))

module _ (message : Fault → Bytes) where
  empty_iff : (b : Bytes) → (is_empty b ≡ false) ↔ (b ≢ [])
  empty_iff [] = ground arith
  empty_iff (x ∷ b) = ground arith

  check_mounts_iff : (l : List MountConfig) → (check_mounts message l ≡ ok tt) ↔ All IsNamed l
  unfolding check_mounts
  check_mounts_iff [] = (λ e. tt, λ a. refl)
  check_mounts_iff (m ∷ l) =
      ground
        (arith, check_mounts_iff l, empty_iff m.name, empty_iff m.account, empty_iff m.container)

  both_iff : (r s : Result (Unit {0})) → ((r >> s) ≡ ok tt) ↔ ((r ≡ ok tt) × (s ≡ ok tt))
  both_iff (ok a) s = ground arith
  both_iff (err e) s = ground arith

  ensure_iff : (b : Bool) (e : BcError) → (ensure b e ≡ ok tt) ↔ (b ≡ true)
  ensure_iff true e = ground arith
  ensure_iff false e = ground arith

  check_blocks_iff :
      (block_size chunk_size : ℕ)
      → (check_blocks message block_size chunk_size ≡ ok tt)
        ↔ ((block_size ≡ 0) ⊎ ((chunk_size ≤ block_size) × (block_size % chunk_size ≡ 0)))
  check_blocks_iff block_size chunk_size = ground arith

  kind_iff :
      (kind : Bytes)
      → ((same_text tcp kind || same_text rdma kind) ≡ true) ↔ ((kind ≡ tcp) ⊎ (kind ≡ rdma))
  kind_iff kind = ground arith

  mounts_iff : (l : List MountConfig) → (not (is_empty l) ≡ true) ↔ (l ≢ [])
  mounts_iff [] = ground arith
  mounts_iff (m ∷ l) = ground arith

  -- A configuration is accepted if and only if: the size of a chunk is a positive multiple of 4096; the
  -- pool, the workers and the threads are at least one; the size of a block is 0, or a multiple of a
  -- chunk's and no less; there is a mount, and each has a name, an account and a container; and the
  -- transport is tcp or rdma.
  pub validate_iff : (c : Config) → (validate message c ≡ ok tt) ↔ IsAccepted c
  unfolding validate
  validate_iff c =
      let mounts = check_mounts_iff c.mounts in
      let some_mount = mounts_iff c.mounts in
      let blocks = check_blocks_iff c.azure.block_size c.cache.chunk_size in
      let kind = kind_iff c.transport.kind in ground arith
