-- ===== src/Config/Tests.antt =====
-- The theorem on `validate` (src/config.rs) at a concrete configuration, and runs of the code.
use blobcache.Prelude.{◌≡◌, refl, ◌↔◌, [], ◌∷◌, ◌*◌, Bytes, ℕ_discrete, true, none}
use blobcache.Prelude.Result.{config, ok, err}
use blobcache.Cluster.State.{text_discrete}
use blobcache.Config.Fields.{Config, MountConfig, Fault, tcp, validate, check_mounts}
use blobcache.Config.Accepted
use blobcache.Config.Accepted.{IsAccepted}

program : Unit {0}
unfolding validate check_mounts text_discrete ℕ_discrete
program = tt

abbrev mount : MountConfig
mount = record {
  name = b'm' ∷ [];
  mountpoint = b'/' ∷ [];
  account = b'a' ∷ [];
  container = b'c' ∷ [];
  prefix = [];
  sas_token = none;
}

abbrev good : Config
good = record {
  cache = record {
    dir = [];
    max_bytes = 100;
    chunk_size = 4096;
    cache_on_peer_fetch = true;
    peer_lru_bytes = 0;
  };
  azure = record {
    pool_max_idle_per_host = 512;
    block_size = 3 * 4096;
    workers = 1;
    main_worker_threads = 8;
  };
  transport = record { kind = tcp };
  mounts = mount ∷ [];
}

abbrev ragged : Config
ragged = record good { azure = record good.azure { block_size = 5000 } }

abbrev no_text : Fault → Bytes
no_text f = []

accepts : validate no_text good ≡ ok tt
unfolding program
accepts = refl

refuses : validate no_text ragged ≡ err (config [])
unfolding program
refuses = refl

validate_iff_example : (validate no_text good ≡ ok tt) ↔ IsAccepted good
validate_iff_example = Accepted.validate_iff no_text good
