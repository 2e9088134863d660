-- ===== src/Fetcher/Disk.antt =====
-- What the cache on disk gives to src/fetcher.rs, by the files that it reads.
use blobcache.Prelude.{
  ℕ, ◌+◌, ◌≤◌, ◌≡◌, refl, sym, ap, ◌∙◌, Bytes, false, ltb, ◌==◌, some, length, take, drop, arith,
  Option-cases, Bool-cases, inl, inr,
}
use blobcache.Prelude.Assoc.{get, remove, get-remove}
use blobcache.Prelude.Word.{saturating_add}
use blobcache.Cache.Key.{ChunkKey, key_discrete, name_discrete}
use blobcache.Cache.State.{DiskCache, Os, Files, read_file, remove_file, removes}
use blobcache.Cache.Read.{try_get, try_get_range, path_for, read_exact_at, touch_lru, finish_read}
use blobcache.Cache.Write.{remove_chunk, forget, drop_entry}

finish_read-files :
    (key : ChunkKey) (a b : Bytes) (c : DiskCache)
    → ((finish_read key a c).0.files ≡ c.files) × ((finish_read key a c).1 ≡ some b → a ≡ b)
unfolding finish_read touch_lru
finish_read-files key a b c = elim (Option-cases (get key_discrete key c.entries)) [
  | inl missing ↦ rw (missing, touch_lru, finish_read) (refl, λ e. ground arith)
  | inr (entry, found) ↦ rw (found, touch_lru, finish_read) (refl, λ e. ground arith)
]

module _ (sha256 : Bytes → Bytes) (os : Os) (key : ChunkKey) (c : DiskCache) where
  pub try_get-file :
      ((try_get sha256 os key c).0.files ≡ c.files)
      × ((b : Bytes)
          → (try_get sha256 os key c).1 ≡ some b
          → read_file os (path_for sha256 key) c.files ≡ some b)
  unfolding try_get
  try_get-file = elim (Option-cases (get key_discrete key c.entries)) [
    | inl missing ↦ rw (missing, try_get) (refl, λ b e. ground arith)
    | inr (entry, found) ↦ elim (Option-cases (read_file os (path_for sha256 key) c.files)) [
      | inl bad ↦ rw (found, bad, try_get) (refl, λ b e. ground arith)
      | inr (b, read) ↦
          rw (found, read, try_get)
            ((finish_read-files key b b c).0, λ d e. ap some ((finish_read-files key b d c).1 e))
    ]
  ]

  -- A slice that the cache gives is one of the file.
  abbrev IsSliceOfFile : ℕ → ℕ → Bytes → Type 0
  IsSliceOfFile start n b =
      (whole : Bytes) × (read_file os (path_for sha256 key) c.files ≡ some whole)
      × (start + n ≤ length whole)
      × (b ≡ take n (drop start whole))

  read_exact_at-IsSliceOfFile :
      (start n : ℕ) (b : Bytes)
      → read_exact_at os (path_for sha256 key) start n c.files ≡ some b
      → IsSliceOfFile start n b
  unfolding read_exact_at
  read_exact_at-IsSliceOfFile start n b e =
      elim (Option-cases (read_file os (path_for sha256 key) c.files)) [
        | inl bad ↦ ground (arith, bad)
        | inr (whole, read) ↦ (whole, read, ground (arith, read), ground (arith, read))
      ]

  pub try_get_range-file :
      (start n : ℕ)
      → ((try_get_range sha256 os key start n c).0.files ≡ c.files)
        × ((b : Bytes)
            → (n == 0) ≡ false
            → (try_get_range sha256 os key start n c).1 ≡ some b
            → IsSliceOfFile start n b)
  unfolding try_get_range
  try_get_range-file start n = elim (Bool-cases (n == 0)) [
    | inl none_asked ↦ rw (none_asked, try_get_range) (refl, λ b some_asked. ground arith)
    | inr asked ↦ elim (Option-cases (get key_discrete key c.entries)) [
      | inl missing ↦ rw (asked, missing, try_get_range) (refl, λ b h e. ground arith)
      | inr (entry, found) ↦ elim (Bool-cases (ltb entry.size (saturating_add start n))) [
        | inl short ↦ rw (asked, found, short, try_get_range) (refl, λ b h e. ground arith)
        | inr long ↦ elim (Option-cases (read_exact_at os (path_for sha256 key) start n c.files)) [
          | inl bad ↦ rw (asked, found, long, bad, try_get_range) (refl, λ b h e. ground arith)
          | inr (b, read) ↦
              rw (asked, found, long, read, try_get_range)
                (
                  (finish_read-files key b b c).0,
                  λ d h e.
                      read_exact_at-IsSliceOfFile start n d
                        (read ∙ ap some ((finish_read-files key b d c).1 e)),
                )
        ]
      ]
    ]
  ]

remove-file :
    (os : Os) (path name : Bytes) (files : Files) (b : Bytes)
    → read_file os name (remove name_discrete path files) ≡ some b
    → read_file os name files ≡ some b
unfolding read_file
remove-file os path name files b e = elim (name_discrete path name) [
  | yes same ↦ ground (arith, get-remove name_discrete name path files)
  | no other ↦ ground (arith, get-remove name_discrete name path files)
]

remove_file-file :
    (os os' : Os) (path name : Bytes) (files : Files) (b : Bytes)
    → read_file os' name (remove_file os path files) ≡ some b
    → read_file os' name files ≡ some b
unfolding remove_file
remove_file-file os os' path name files b e = elim (Bool-cases (removes os path files)) [
  | inl gone ↦ remove-file os' path name files b (ground (arith, gone))
  | inr kept ↦ ground (arith, kept)
]

remove_chunk-files :
    (sha256 : Bytes → Bytes) (os : Os) (key : ChunkKey) (c : DiskCache)
    → (remove_chunk sha256 os key c).files ≡ remove_file os (path_for sha256 key) c.files
unfolding remove_chunk forget drop_entry
remove_chunk-files sha256 os key c = elim (Option-cases (get key_discrete key c.entries)) [
  | inl missing ↦ rw (missing, forget, remove_chunk)
  | inr (entry, found) ↦ rw (found, forget, remove_chunk)
]

-- A file that is there after a removal was there before.
pub remove_chunk-file :
    (sha256 : Bytes → Bytes) (os os' : Os) (key : ChunkKey) (c : DiskCache) (name b : Bytes)
    → read_file os' name (remove_chunk sha256 os key c).files ≡ some b
    → read_file os' name c.files ≡ some b
remove_chunk-file sha256 os os' key c name b e =
    remove_file-file os os' (path_for sha256 key) name c.files b
      (ap (read_file os' name) (sym (remove_chunk-files sha256 os key c)) ∙ e)
