-- ===== src/Config/Fields.antt =====
-- `Config` (src/config.rs) and `validate`. Of `Config` and `TransportConfig` the fields stand here that
-- `validate` reads.
use blobcache.Prelude.{
  ℕ, ◌%◌, List, [], ◌∷◌, Bytes, Bool, true, false, not, ◌||◌, ◌==◌, ltb, if◌then◌else◌, Option,
}
use blobcache.Prelude.Result.{BcError, config, Result, ok, err, ensure, ◌>>◌}
use blobcache.Cluster.State.{same_text}

pub record CacheConfig : Type 0 where
  pub dir : Bytes
  pub max_bytes : ℕ
  pub chunk_size : ℕ
  pub cache_on_peer_fetch : Bool
  pub peer_lru_bytes : ℕ

pub record AzureConfig : Type 0 where
  pub pool_max_idle_per_host : ℕ
  pub block_size : ℕ
  pub workers : ℕ
  pub main_worker_threads : ℕ

pub record TransportConfig : Type 0 where
  pub kind : Bytes

pub record MountConfig : Type 0 where
  pub name : Bytes
  pub mountpoint : Bytes
  pub account : Bytes
  pub container : Bytes
  pub prefix : Bytes
  pub sas_token : Option Bytes

pub record Config : Type 0 where
  pub cache : CacheConfig
  pub azure : AzureConfig
  pub transport : TransportConfig
  pub mounts : List MountConfig

-- What a refusal is about; its text is made from this.
pub data Fault : Type 0 where
  chunk_size_multiple pool_size no_workers no_threads block_small block_multiple no_mounts : Fault
  mount_fields : MountConfig → Fault
  unknown_kind : Bytes → Fault

abbrev pub tcp : Bytes
tcp = b't' ∷ b'c' ∷ b'p' ∷ []

abbrev pub rdma : Bytes
rdma = b'r' ∷ b'd' ∷ b'm' ∷ b'a' ∷ []

abbrev pub is_empty {ℓ} : {A : Type ℓ} → List A → Bool
is_empty [] = true
is_empty (x ∷ l) = false

module _ (message : Fault → Bytes) where
  abbrev pub refuse : Fault → BcError
  refuse fault = config (message fault)

  unfoldable pub check_mounts : List MountConfig → Result (Unit {0})
  check_mounts [] = ok tt
  check_mounts (m ∷ mounts) =
      let rest = check_mounts mounts in
      if is_empty m.name || is_empty m.account || is_empty m.container
      then err (refuse (mount_fields m))
      else rest

  abbrev pub check_blocks : ℕ → ℕ → Result (Unit {0})
  check_blocks block_size chunk_size =
      if not (block_size == 0)
      then ensure (not (ltb block_size chunk_size)) (refuse block_small)
        >> ensure (block_size % chunk_size == 0) (refuse block_multiple)
      else ok tt

  unfoldable pub validate : Config → Result (Unit {0})
  unfolding check_mounts
  validate c =
      ensure (not (c.cache.chunk_size == 0 || not (c.cache.chunk_size % 4096 == 0)))
        (refuse chunk_size_multiple)
      >> ensure (not (c.azure.pool_max_idle_per_host == 0)) (refuse pool_size)
      >> ensure (not (c.azure.workers == 0)) (refuse no_workers)
      >> ensure (not (c.azure.main_worker_threads == 0)) (refuse no_threads)
      >> check_blocks c.azure.block_size c.cache.chunk_size
      >> ensure (not (is_empty c.mounts)) (refuse no_mounts)
      >> check_mounts c.mounts
      >> ensure (same_text tcp c.transport.kind || same_text rdma c.transport.kind)
          (refuse (unknown_kind c.transport.kind))
