-- ===== src/Fetcher/Served.antt =====
-- The range that `fetch_range` of src/fetcher.rs gives to a reader.
use Prim.Native.Nat.{zero, suc, min, ◌/◌, ◌%◌}
use native.Mathlib.Nat.{add-mul, div-add-mod', mod-lt, mul-le-mul_right}
use blobcache.Prelude.{
  All, ℕ, ◌+◌, ◌-◌, ◌*◌, ◌<◌, ◌≤◌, ◌≡◌, refl, sym, ap, ◌∙◌, subst, List, [], ◌∷◌, ◌++◌, Bytes, true,
  ltb, leb, if◌then◌else◌, length, take, drop, length-drop, arith, Bool-cases, inl, inr, ◌⊎◌,
}
use blobcache.Prelude.Word.{saturating_add, u64_mod}
use blobcache.Prelude.Result.{Result, ok, err, BcError}
use blobcache.Fetcher.Range.{
  Piece, Fetched, piece_of, first_chunk, last_chunk, pieces_from, pieces, insert_by_chunk,
  sort_by_chunk, concat_chunks, joined, await_all,
}
use blobcache.Fetcher.Whole.{
  between, meant, all_meant, pieces_from-between, IsPiece, from-IsPiece, append_nil,
}
use blobcache.Fetcher.Faithful.{Result-cases}

-- The chunk of a place begins at it or before, and ends behind it.
pub div_bounds : (n cs : ℕ) → 0 < cs → ((n / cs) * cs ≤ n) × (n < (n / cs) * cs + cs)
div_bounds n cs pos =
    let whole = div-add-mod' n cs in
    let small : n % cs < cs = mod-lt n pos in (omega arith, omega arith)

div_le : (a b cs : ℕ) → 0 < cs → a ≤ b → a / cs ≤ b / cs
div_le a b cs pos le = elim (Bool-cases (ltb (b / cs) (a / cs))) [
  | inr fine ↦ ground arith
  | inl over ↦
      let next : (b / cs + 1) * cs ≤ (a / cs) * cs = mul-le-mul_right cs (ground arith) in
      let (low, high) = div_bounds a cs pos in
      let (low', high') = div_bounds b cs pos in let unroll = add-mul (b / cs) 1 cs in omega arith
]

-- Fetched pieces in the order of their chunks, from a place on.
Rising : ℕ → List Fetched → Type 0
Rising lo [] = Unit
Rising lo (c ∷ l) = (lo ≤ c.0) × Rising c.0 l

Rising-weaken : (lo lo' : ℕ) (l : List Fetched) → lo ≤ lo' → Rising lo' l → Rising lo l
unfolding Rising
Rising-weaken lo lo' [] le r = tt
Rising-weaken lo lo' (c ∷ l) le (low, r) = (omega arith, r)

sort-Rising : (lo : ℕ) (l : List Fetched) → Rising lo l → sort_by_chunk l ≡ l
unfolding Rising sort_by_chunk insert_by_chunk
sort-Rising lo [] r = refl
sort-Rising lo (c ∷ []) r = refl
sort-Rising lo (c ∷ d ∷ l) (low, r) =
    let first : leb c.0 d.0 ≡ true = ground (arith, r.0) in
    ap (insert_by_chunk c) (sort-Rising c.0 (d ∷ l) r) ∙ rw (first, insert_by_chunk)

joined-concat_chunks : (l : List Fetched) → joined l ≡ concat_chunks l
unfolding concat_chunks
joined-concat_chunks [] = refl
joined-concat_chunks (c ∷ []) = sym (append_nil c.1)
joined-concat_chunks (c ∷ d ∷ l) = refl

Results-cases :
    (r : Result (List Fetched)) → ((l : List Fetched) × (r ≡ ok l)) ⊎ ((e : BcError) × (r ≡ err e))
Results-cases (ok l) = inl (l, refl)
Results-cases (err e) = inr (e, refl)

ok_same : (d b : Bytes) → Path (Result Bytes) (ok d) (ok b) → d ≡ b
ok_same d b e = ground arith

ok_nil : (cs : List Fetched) → Path (Result (List Fetched)) (ok []) (ok cs) → [] ≡ cs
ok_nil cs e = ground arith

module _ (read : Piece → Result Bytes) where
  await-first :
      (p : Piece) (l : List Piece) (cs : List Fetched)
      → await_all read (p ∷ l) ≡ ok cs
      → (b : Bytes) × (rest : List Fetched) × (read p ≡ ok b)
        × (await_all read l ≡ ok rest)
        × ((p.chunk, b) ∷ rest ≡ cs)
  unfolding await_all
  await-first p l cs e = elim (Result-cases (read p)) [
    | inr (x, failed) ↦ ground (arith, failed)
    | inl (b, came) ↦ elim (Results-cases (await_all read l)) [
      | inr (x, failed) ↦ ground (arith, came, failed)
      | inl (rest, all) ↦ (b, rest, came, all, ground (arith, came, all))
    ]
  ]

  await-ok :
      (l : List Piece)
      → All (λ p. (b : Bytes) × (read p ≡ ok b)) l
      → (chunks : List Fetched) × (await_all read l ≡ ok chunks)
  unfolding await_all
  await-ok [] all = ([], refl)
  await-ok (p ∷ l) ((b, came), all) =
      let (rest, done) = await-ok l all in ((p.chunk, b) ∷ rest, rw (came, done, await_all))

  await-meant :
      (size : ℕ) (file : Bytes) (l : List Piece) (cs : List Fetched)
      → ((p : Piece) (b : Bytes) → IsPiece file size p → read p ≡ ok b → b ≡ meant file p)
      → All (IsPiece file size) l
      → await_all read l ≡ ok cs
      → concat_chunks cs ≡ all_meant file l
  unfolding all_meant concat_chunks await_all
  await-meant size file [] cs right are e = ap concat_chunks (sym (ok_nil cs e))
  await-meant size file (p ∷ l) cs right (is_piece, are) e =
      let (b, rest, came, all, is) = await-first p l cs e in
      ap concat_chunks (sym is)
      ∙ ap (λ x. x ++ concat_chunks rest) (right p b is_piece came)
      ∙ ap (λ x. meant file p ++ x) (await-meant size file l rest right are all)

  module _ (cs offset end size : ℕ) where
    await-Rising :
        (fuel o : ℕ) (l : List Fetched)
        → await_all read (pieces_from cs offset end size fuel o) ≡ ok l
        → Rising o l
    unfolding pieces_from Rising await_all
    await-Rising zero o l e = subst (Rising o) (ok_nil l e) tt
    await-Rising (suc fuel) o l e = elim (Bool-cases (leb o (last_chunk cs offset end size))) [
      | inr over ↦ subst (Rising o) (ok_nil l (ground (arith, over))) tt
      | inl here ↦
          let p = piece_of cs offset end size o in
          let more : List Piece =
            if ltb (o + cs) u64_mod then pieces_from cs offset end size fuel (o + cs) else [] in
          let (b, rest, came, all, is) = await-first p more l (ground (arith, here)) in
          let later : Rising (o + cs) rest = elim (Bool-cases (ltb (o + cs) u64_mod)) [
            | inl small ↦ await-Rising fuel (o + cs) rest (ground (arith, small))
            | inr large ↦ subst (Rising (o + cs)) (ok_nil rest (ground (arith, large))) tt
          ] in
          subst (Rising o) is (omega arith, Rising-weaken o (o + cs) rest (omega arith) later)
    ]

take_enough : (n : ℕ) (l : Bytes) → length l ≤ n → take n l ≡ l
take_enough zero [] h = refl
take_enough zero (x ∷ l) h = ground arith
take_enough (suc n) [] h = refl
take_enough (suc n) (x ∷ l) h = ap (λ r. x ∷ r) (take_enough n l (omega arith))

pub drop_enough : (n : ℕ) (l : Bytes) → length l ≤ n → drop n l ≡ []
drop_enough zero [] h = refl
drop_enough zero (x ∷ l) h = ground arith
drop_enough (suc n) [] h = refl
drop_enough (suc n) (x ∷ l) h = drop_enough n l (omega arith)

module _ (file : Bytes) (room : length file < u64_mod) (cs offset len : ℕ) (pos : 0 < cs) where
  -- The end of the range.
  abbrev pub stop : ℕ
  stop = min (saturating_add offset len) (length file)

  pieces-between :
      offset < stop
      → all_meant file (pieces cs offset stop (length file)) ≡ between file offset stop
  unfolding pieces
  pieces-between some_range =
      let (low, high) = div_bounds offset cs pos in
      let (low', high') = div_bounds (stop - 1) cs pos in
      let ordered = div_le offset (stop - 1) cs pos (omega arith) in
      let apart = add-mul (offset / cs) ((stop - 1) / cs - offset / cs) cs in
      let whole : (stop - 1) / cs ≡ offset / cs + ((stop - 1) / cs - offset / cs) = omega arith in
      let at = ap (λ k. k * cs) whole ∙ apart in
      pieces_from-between file cs offset stop (omega arith) room ((stop - 1) / cs - offset / cs)
        ((offset / cs) * cs) pos at (omega arith) (omega arith) (omega arith) (omega arith)
      ∙ ap (λ k. between file k stop) (omega arith)

  pieces-IsPiece : offset < stop → All (IsPiece file cs) (pieces cs offset stop (length file))
  unfolding pieces
  pieces-IsPiece some_range =
      let (low, high) = div_bounds offset cs pos in
      let (low', high') = div_bounds (stop - 1) cs pos in
      from-IsPiece file cs offset stop (omega arith) room
        (suc (suc ((stop - 1) / cs - offset / cs))) ((offset / cs) * cs) (omega arith) some_range
        (omega arith)

  between-stop : offset < stop → between file offset stop ≡ take len (drop offset file)
  between-stop some_range = elim (Bool-cases (leb (offset + len) (length file))) [
    | inl inside ↦ ap (λ n. take n (drop offset file)) (ground arith)
    | inr over ↦
        let rest = length-drop offset file in
        take_enough (stop - offset) (drop offset file) (ground arith)
        ∙ sym (take_enough len (drop offset file) (ground arith))
  ]

  module _ (read : Piece → Result Bytes) where
    -- A result is the range, if it is one; and it is one, when each slice of the range could be fetched.
    abbrev pub IsRange : Result Bytes → Type 0
    IsRange r =
        ((b : Bytes) → r ≡ ok b → b ≡ take len (drop offset file))
        × (All (λ p. (b : Bytes) × (read p ≡ ok b)) (pieces cs offset stop (length file))
            → r ≡ ok (take len (drop offset file)))

    pub is_range : (d : Bytes) → d ≡ take len (drop offset file) → IsRange (ok d)
    unfolding pieces
    is_range d same = (λ b e. sym (ok_same d b e) ∙ same, λ all. ap ok same)

    pub chunks-IsRange :
        ((p : Piece) (b : Bytes) → IsPiece file cs p → read p ≡ ok b → b ≡ meant file p)
        → offset < stop
        → (r : Result (List Fetched)) → await_all read (pieces cs offset stop (length file)) ≡ r
        → IsRange (elim r as (λ x. Result Bytes) [
          | err e ↦ err e
          | ok chunks ↦ ok (joined (sort_by_chunk chunks))
        ])
    unfolding pieces
    chunks-IsRange right some_range (err x) e = (
      (λ b h. ground arith),
      λ all.
          let (l, came) = await-ok read (pieces cs offset stop (length file)) all in ground arith,
    )
    chunks-IsRange right some_range (ok chunks) e =
        let rises =
          await-Rising read cs offset stop (length file) (suc (suc ((stop - 1) / cs - offset / cs)))
            (first_chunk cs offset stop (length file)) chunks e in
        is_range _ (
          ap joined (sort-Rising _ chunks rises)
          ∙ joined-concat_chunks chunks
          ∙ await-meant read cs file (pieces cs offset stop (length file)) chunks right
              (pieces-IsPiece some_range) e
          ∙ pieces-between some_range
          ∙ between-stop some_range)
