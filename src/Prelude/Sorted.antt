-- ===== src/Prelude/Sorted.antt =====
-- A `BTreeMap` with numbers for keys, as an association list in rising order of the keys.
use mathlib.Core.List.{List, [], ◌∷◌, ◌++◌}
use mathlib.Core.Logic.{ite}
use mathlib.Core.Option.{none, some}
use mathlib.Core.Path.{◌≡◌, refl}
use Prim.Native.Nat.{ℕ, ◌<◌, ◌≤◌}
use native.Mathlib.Decide.{dec_lt, ℕ_discrete}
use native.Mathlib.Omega.{arith}
use blobcache.Prelude.Assoc.{get, remove}

module _ {V : Type 0} where
  -- `m.insert(k, v)`
  unfoldable pub insert_sorted : ℕ → V → List (ℕ × V) → List (ℕ × V)
  insert_sorted k v [] = (k, v) ∷ []
  insert_sorted k v ((j, w) ∷ m) =
      ite (dec_lt k j) ((k, v) ∷ (j, w) ∷ m)
        (ite (ℕ_discrete j k) ((k, v) ∷ m) ((j, w) ∷ insert_sorted k v m))

  -- All keys are above `k`; all are below `k`.
  abbrev pub Above : ℕ → List (ℕ × V) → Type 0
  Above k [] = Unit
  Above k ((j, v) ∷ m) = (k < j) × Above k m

  abbrev pub Below : ℕ → List (ℕ × V) → Type 0
  Below k [] = Unit
  Below k ((j, v) ∷ m) = (j < k) × Below k m

  abbrev pub IsSorted : List (ℕ × V) → Type 0
  IsSorted [] = Unit
  IsSorted ((k, v) ∷ m) = Above k m × IsSorted m

  pub get-Above : (k : ℕ) (m : List (ℕ × V)) → Above k m → get ℕ_discrete k m ≡ none
  unfolding get
  get-Above k [] a = refl
  get-Above k ((j, v) ∷ m) a = ground (arith, get-Above k m a.1)

  pub get-Below : (k : ℕ) (m : List (ℕ × V)) → Below k m → get ℕ_discrete k m ≡ none
  unfolding get
  get-Below k [] a = refl
  get-Below k ((j, v) ∷ m) a = ground (arith, get-Below k m a.1)

  pub Below-mono : (k l : ℕ) (m : List (ℕ × V)) → k ≤ l → Below k m → Below l m
  Below-mono k l [] h b = tt
  Below-mono k l ((j, v) ∷ m) h b = (omega arith, Below-mono k l m h b.1)

  pub remove-Above : (k s : ℕ) (m : List (ℕ × V)) → Above k m → Above k (remove ℕ_discrete s m)
  unfolding remove
  remove-Above k s [] a = tt
  remove-Above k s ((j, v) ∷ m) a = ground (arith, remove-Above k s m a.1)

  pub remove-Below : (k s : ℕ) (m : List (ℕ × V)) → Below k m → Below k (remove ℕ_discrete s m)
  unfolding remove
  remove-Below k s [] a = tt
  remove-Below k s ((j, v) ∷ m) a = ground (arith, remove-Below k s m a.1)

  pub remove-IsSorted : (s : ℕ) (m : List (ℕ × V)) → IsSorted m → IsSorted (remove ℕ_discrete s m)
  unfolding remove
  remove-IsSorted s [] a = tt
  remove-IsSorted s ((j, v) ∷ m) a = ground (arith, remove-Above j s m a.0, remove-IsSorted s m a.1)

  remove_of-Above : (k : ℕ) (m : List (ℕ × V)) → Above k m → remove ℕ_discrete k m ≡ m
  unfolding remove
  remove_of-Above k [] a = refl
  remove_of-Above k ((j, v) ∷ m) a = ground (arith, remove_of-Above k m a.1)

  -- The first entry of a sorted map goes by itself.
  pub remove_first :
      (k : ℕ) (v : V) (m : List (ℕ × V)) → Above k m → remove ℕ_discrete k ((k, v) ∷ m) ≡ m
  unfolding remove
  remove_first k v m a = ground (arith, remove_of-Above k m a)

  -- A key above all others goes to the end.
  pub insert_sorted_of-Below :
      (k : ℕ) (v : V) (m : List (ℕ × V)) → Below k m → insert_sorted k v m ≡ m ++ (k, v) ∷ []
  unfolding insert_sorted
  insert_sorted_of-Below k v [] b = refl
  insert_sorted_of-Below k v ((j, w) ∷ m) b = ground (arith, insert_sorted_of-Below k v m b.1)

  insert_sorted-Above :
      (j k : ℕ) (v : V) (m : List (ℕ × V)) → j < k → Above j m → Above j (insert_sorted k v m)
  unfolding insert_sorted
  insert_sorted-Above j k v [] h a = (h, tt)
  insert_sorted-Above j k v ((i, w) ∷ m) h a = ground (arith, insert_sorted-Above j k v m h a.1)

  Above-mono : (k l : ℕ) (m : List (ℕ × V)) → k ≤ l → Above l m → Above k m
  Above-mono k l [] h b = tt
  Above-mono k l ((j, v) ∷ m) h b = (omega arith, Above-mono k l m h b.1)

  pub insert_sorted-IsSorted :
      (k : ℕ) (v : V) (m : List (ℕ × V)) → IsSorted m → IsSorted (insert_sorted k v m)
  unfolding insert_sorted
  insert_sorted-IsSorted k v [] a = (tt, tt)
  insert_sorted-IsSorted k v ((j, w) ∷ m) a =
      ground
        (arith, insert_sorted-IsSorted k v m a.1, insert_sorted-Above j k v m, Above-mono k j m)

  pub insert_sorted-Below :
      (l k : ℕ) (v : V) (m : List (ℕ × V)) → k < l → Below l m → Below l (insert_sorted k v m)
  unfolding insert_sorted
  insert_sorted-Below l k v [] h b = (h, tt)
  insert_sorted-Below l k v ((j, w) ∷ m) h b = ground (arith, insert_sorted-Below l k v m h b.1)

  pub get-insert_sorted :
      (q k : ℕ) (v : V) (m : List (ℕ × V))
      → get ℕ_discrete q (insert_sorted k v m) ≡ ite (ℕ_discrete k q) (some v) (get ℕ_discrete q m)
  unfolding get insert_sorted
  get-insert_sorted q k v [] = ground arith
  get-insert_sorted q k v ((j, w) ∷ m) = ground (arith, get-insert_sorted q k v m)
