-- ===== src/Fetcher/Whole.antt =====
-- `fetch_range` of src/fetcher.rs gives the range of the file, when the slices of its chunks are right.
use Prim.Native.Nat.{zero, suc, min, max}
use native.Mathlib.Nat.{add-mul}
use blobcache.Prelude.{
  All, ℕ, ◌+◌, ◌-◌, ◌*◌, ◌<◌, ◌≤◌, ◌≡◌, refl, sym, ap, ◌∙◌, List, [], ◌∷◌, ◌++◌, Bytes, true, false,
  ltb, leb, length, take, drop, arith, Bool-cases, inl, inr,
}
use blobcache.Prelude.Word.{u64_mod}
use blobcache.Fetcher.Range.{Piece, piece_of, last_chunk, pieces_from}
use blobcache.Fetcher.Parts.{take_nil, drop_nil}

pub append_nil : (l : Bytes) → l ++ [] ≡ l
append_nil [] = refl
append_nil (x ∷ l) = ap (λ r. x ∷ r) (append_nil l)

take_sum : (a b : ℕ) (l : Bytes) → take a l ++ take b (drop a l) ≡ take (a + b) l
take_sum zero b l = ap (λ n. take n l) (omega arith)
take_sum (suc a) b [] = take_nil b ∙ sym (take_nil (suc a + b))
take_sum (suc a) b (x ∷ l) =
    let grow : suc (a + b) ≡ suc a + b = omega arith in
    ap (λ r. x ∷ r) (take_sum a b l) ∙ ap (λ n. take n (x ∷ l)) grow

pub drop_sum : (a b : ℕ) (l : Bytes) → drop a (drop b l) ≡ drop (b + a) l
drop_sum a zero l = ap (λ n. drop n l) (omega arith)
drop_sum a (suc b) [] = drop_nil a ∙ sym (drop_nil (suc b + a))
drop_sum a (suc b) (x ∷ l) =
    let grow : suc (b + a) ≡ suc b + a = omega arith in
    drop_sum a b l ∙ ap (λ n. drop n (x ∷ l)) grow

module _ (file : Bytes) where
  -- The bytes from one place to another.
  abbrev pub between : ℕ → ℕ → Bytes
  between a b = take (b - a) (drop a file)

  between_join : (a b c : ℕ) → a ≤ b → b ≤ c → between a b ++ between b c ≡ between a c
  between_join a b c ab bc =
      ap (λ x. between a b ++ take (c - b) x)
        (ap (λ n. drop n file) (omega arith) ∙ sym (drop_sum (b - a) a file))
      ∙ take_sum (b - a) (c - b) (drop a file)
      ∙ ap (λ n. take n (drop a file)) (omega arith)

  -- The bytes that a piece stands for.
  abbrev pub meant : Piece → Bytes
  meant p = take p.sub_len (drop (p.chunk + p.take_start) file)

  unfoldable pub all_meant : List Piece → Bytes
  all_meant [] = []
  all_meant (p ∷ l) = meant p ++ all_meant l

  -- A slice of a chunk of the file, with the length that the chunk has.
  abbrev pub IsPiece : ℕ → Piece → Type 0
  IsPiece cs p =
      (p.chunk_len ≡ min cs (length file - p.chunk)) × (p.take_start + p.sub_len ≤ p.chunk_len)

  -- The pieces of the chunks from one that the range reaches into.
  module _ (cs offset end : ℕ) (in_file : end ≤ length file) (room : length file < u64_mod) where
    abbrev last : ℕ
    last = last_chunk cs offset end (length file)

    abbrev from : ℕ → ℕ → List Piece
    from = pieces_from cs offset end (length file)

    from_stop : (fuel o : ℕ) → last < o → from fuel o ≡ []
    unfolding pieces_from
    from_stop zero o past = refl
    from_stop (suc fuel) o past =
        let over : leb o last ≡ false = ground arith in rw (over, pieces_from)

    from_last :
        (fuel o : ℕ)
        → o ≤ last
        → last < o + cs
        → from (suc fuel) o ≡ piece_of cs offset end (length file) o ∷ []
    unfolding pieces_from
    from_last fuel o here past =
        let reached : leb o last ≡ true = ground arith in
        elim (Bool-cases (ltb (o + cs) u64_mod)) [
          | inl small ↦
              rw (reached, small, pieces_from)
                (ap (λ l. piece_of cs offset end (length file) o ∷ l)
                  (from_stop fuel (o + cs) past))
          | inr large ↦ rw (reached, large, pieces_from)
        ]

    from_next :
        (fuel o : ℕ)
        → o ≤ last
        → o + cs < u64_mod
        → from (suc fuel) o ≡ piece_of cs offset end (length file) o ∷ from fuel (o + cs)
    unfolding pieces_from
    from_next fuel o here room =
        let reached : leb o last ≡ true = ground arith in
        let small : ltb (o + cs) u64_mod ≡ true = ground arith in rw (reached, small, pieces_from)

    meant-piece_of :
        (o stop : ℕ)
        → max offset o ≤ stop
        → min end (o + min cs (length file - o)) ≡ stop
        → meant (piece_of cs offset end (length file) o) ≡ between (max offset o) stop
    meant-piece_of o stop le is =
        ap (λ n. take n (drop (o + (max offset o - o)) file)) (omega arith)
        ∙ ap (λ k. take (stop - max offset o) (drop k file)) (omega arith)

    pub pieces_from-between :
        (m o : ℕ)
        → 0 < cs
        → last ≡ o + m * cs
        → max offset o < end
        → offset < o + cs
        → last < end
        → end ≤ last + cs
        → all_meant (from (suc (suc m)) o) ≡ between (max offset o) end
    unfolding all_meant
    pieces_from-between zero o pos at reach near before after =
        ap all_meant (from_last 1 o (omega arith) (omega arith))
        ∙ append_nil (meant (piece_of cs offset end (length file) o))
        ∙ meant-piece_of o end (omega arith) (omega arith)
    pieces_from-between (suc m) o pos at reach near before after =
        let one : suc m ≡ m + 1 = omega arith in
        let unroll : (suc m) * cs ≡ m * cs + 1 * cs = ap (λ n. n * cs) one ∙ add-mul m 1 cs in
        let ih =
          pieces_from-between m (o + cs) pos (omega arith) (omega arith) (omega arith) before
            after in
        ap all_meant (from_next (suc (suc m)) o (omega arith) (omega arith))
        ∙ ap (λ x. meant (piece_of cs offset end (length file) o) ++ x)
            (ih ∙ ap (λ k. between k end) (omega arith))
        ∙ ap (λ x. x ++ between (o + cs) end)
            (meant-piece_of o (o + cs) (omega arith) (omega arith))
        ∙ between_join (max offset o) (o + cs) end (omega arith) (omega arith)

    pub from-IsPiece :
        (fuel o : ℕ) → offset < o + cs → offset < end → last < end → All (IsPiece cs) (from fuel o)
    unfolding pieces_from
    from-IsPiece zero o near reach before = tt
    from-IsPiece (suc fuel) o near reach before = elim (Bool-cases (leb o last)) [
      | inr over ↦ rw (over, pieces_from) tt
      | inl here ↦
          let inside : o ≤ last = ground arith in
          let is_piece : IsPiece cs (piece_of cs offset end (length file) o) =
            (refl, omega arith) in
          elim (Bool-cases (ltb (o + cs) u64_mod)) [
            | inl small ↦
                rw (here, small, pieces_from)
                  (is_piece, from-IsPiece fuel (o + cs) (omega arith) reach before)
            | inr large ↦ rw (here, large, pieces_from) (is_piece, tt)
          ]
    ]
