-- ===== src/Fetcher/Ahead.antt =====
-- What `maybe_trigger_prefetch` of src/fetcher.rs spawns.
use blobcache.Prelude.{ℕ, ◌+◌, ◌<◌, ◌≤◌, ◌≡◌, Bytes, none}
use blobcache.Cache.State.{DiskCache}
use blobcache.Cache.Read.{entry_size}
use blobcache.Fetcher.State.{Fetcher}

-- A chunk behind a place, in the file, of the length that it has there, and not in the cache.
abbrev pub IsAhead : Bytes → Bytes → ℕ → ℕ → DiskCache → ℕ × ℕ → Type 0
IsAhead mount_name blob_path file_size from cache (off, len) =
    (from ≤ off)
    × (0 < len)
    × (off + len ≤ file_size)
    × (entry_size (record { mount = mount_name; blob = blob_path; offset = off }) cache ≡ none)
