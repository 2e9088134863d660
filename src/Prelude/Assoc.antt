-- ===== src/Prelude/Assoc.antt =====
-- A `HashMap` as an association list.
use mathlib.Core.List.{List, [], ◌∷◌, map}
use mathlib.Core.Logic.{ite, ◌≢◌}
use mathlib.Core.Option
use mathlib.Core.Option.{Option, none, some}
use mathlib.Core.Path.{◌≡◌, refl, ap, ◌∙◌}
use Prim.Native.Nat.{ℕ, ◌+◌}
use native.Mathlib.Omega.{arith}

module _ {ℓ} {K V : Type ℓ} (dec : Discrete K) where
  -- `m.get(k)`
  unfoldable pub get : K → List (K × V) → Option V
  get k [] = none
  get k ((j, v) ∷ m) = ite (dec j k) (some v) (get k m)

  -- `m.remove(k)`: the map that stays
  unfoldable pub remove : K → List (K × V) → List (K × V)
  remove k [] = []
  remove k ((j, v) ∷ m) = ite (dec j k) (remove k m) ((j, v) ∷ remove k m)

  -- `m.insert(k, v)`
  unfoldable pub insert : K → V → List (K × V) → List (K × V)
  insert k v m = (k, v) ∷ remove k m

  -- A write through `m.get_mut(k)`: nothing where the key is missing.
  unfoldable pub modify : K → (V → V) → List (K × V) → List (K × V)
  modify k f [] = []
  modify k f ((j, v) ∷ m) = ite (dec j k) ((j, f v) ∷ modify k f m) ((j, v) ∷ modify k f m)

  -- The map after the keys of a list were removed in turn.
  unfoldable pub remove_all : List K → List (K × V) → List (K × V)
  remove_all [] m = m
  remove_all (k ∷ ks) m = remove_all ks (remove k m)

  -- No key twice.
  abbrev pub Distinct : List (K × V) → Type ℓ
  Distinct [] = Unit
  Distinct ((k, v) ∷ m) = (get k m ≡ none) × Distinct m

module _ {ℓ} {K V : Type ℓ} (dec : Discrete K) where
  pub get-remove :
      (q k : K) (m : List (K × V)) → get dec q (remove dec k m) ≡ ite (dec k q) none (get dec q m)
  unfolding get remove
  get-remove q k [] = ground arith
  get-remove q k ((j, v) ∷ m) = ground (arith, get-remove q k m)

  pub get-remove_self : (k : K) (m : List (K × V)) → get dec k (remove dec k m) ≡ none
  get-remove_self k m = ground (arith, get-remove k k m)

  pub get-remove_ne :
      (q k : K) (m : List (K × V)) → k ≢ q → get dec q (remove dec k m) ≡ get dec q m
  get-remove_ne q k m h = ground (arith, get-remove q k m)

  pub get-insert :
      (q k : K) (v : V) (m : List (K × V))
      → get dec q (insert dec k v m) ≡ ite (dec k q) (some v) (get dec q m)
  unfolding get insert
  get-insert q k v m = ground (arith, get-remove q k m)

  pub get-modify :
      (q k : K) (f : V → V) (m : List (K × V))
      → get dec q (modify dec k f m) ≡ ite (dec k q) (Option.map f (get dec q m)) (get dec q m)
  unfolding get modify
  get-modify q k f [] = ground arith
  get-modify q k f ((j, w) ∷ m) = ground (arith, get-modify q k f m)

  pub remove-Distinct : (k : K) (m : List (K × V)) → Distinct dec m → Distinct dec (remove dec k m)
  unfolding remove
  remove-Distinct k [] d = tt
  remove-Distinct k ((j, v) ∷ m) d = ground (arith, remove-Distinct k m d.1, get-remove j k m)

  pub insert-Distinct :
      (k : K) (v : V) (m : List (K × V)) → Distinct dec m → Distinct dec (insert dec k v m)
  unfolding insert
  insert-Distinct k v m d = (get-remove_self k m, remove-Distinct k m d)

  pub remove_absent : (k : K) (m : List (K × V)) → get dec k m ≡ none → remove dec k m ≡ m
  unfolding get remove
  remove_absent k [] h = refl
  remove_absent k ((j, v) ∷ m) h = ground (arith, remove_absent k m)

  pub modify-Distinct :
      (k : K) (f : V → V) (m : List (K × V)) → Distinct dec m → Distinct dec (modify dec k f m)
  unfolding modify
  modify-Distinct k f [] d = tt
  modify-Distinct k f ((j, v) ∷ m) d = ground (arith, modify-Distinct k f m d.1, get-modify j k f m)

  -- A sum over the values of a map whose keys differ.
  module _ (size : V → ℕ) where
    unfoldable pub total : List (K × V) → ℕ
    total [] = 0
    total ((j, v) ∷ m) = size v + total m

    pub total-remove :
        (k : K) (v : V) (m : List (K × V))
        → Distinct dec m
        → get dec k m ≡ some v
        → total (remove dec k m) + size v ≡ total m
    unfolding total get remove
    total-remove k v [] d h = cc
    total-remove k v ((j, w) ∷ m) d h = elim (dec j k) [
      | yes p ↦ ground (arith, remove_absent k m)
      | no p ↦ ground (arith, total-remove k v m d.1)
    ]

    pub total-modify :
        (k : K) (f : V → V) (m : List (K × V))
        → ((v : V) → size (f v) ≡ size v)
        → total (modify dec k f m) ≡ total m
    unfolding total modify
    total-modify k f [] h = refl
    total-modify k f ((j, w) ∷ m) h = ground (arith, total-modify k f m h, h w)

    pub total-insert_new :
        (k : K) (v : V) (m : List (K × V))
        → get dec k m ≡ none
        → total (insert dec k v m) ≡ size v + total m
    unfolding total insert
    total-insert_new k v m h = rw (remove_absent k m h)

  remove-remove :
      (j k : K) (m : List (K × V)) → remove dec j (remove dec k m) ≡ remove dec k (remove dec j m)
  unfolding remove
  remove-remove j k [] = refl
  remove-remove j k ((i, v) ∷ m) = ground (arith, remove-remove j k m)

  remove_all-remove :
      (ks : List K) (k : K) (m : List (K × V))
      → remove_all dec ks (remove dec k m) ≡ remove dec k (remove_all dec ks m)
  unfolding remove_all
  remove_all-remove [] k m = refl
  remove_all-remove (j ∷ ks) k m =
      ap (remove_all dec ks) (remove-remove j k m) ∙ remove_all-remove ks k (remove dec j m)

  -- Nothing is left of a map without its keys.
  pub remove_all_keys : (m : List (K × V)) → remove_all dec (map (λ e. e.0) m) m ≡ []
  unfolding remove_all remove
  remove_all_keys [] = refl
  remove_all_keys ((k, v) ∷ m) =
      let first : remove dec k ((k, v) ∷ m) ≡ remove dec k m = ground arith in
      ap (remove_all dec (map (λ e. e.0) m)) first
      ∙ remove_all-remove (map (λ e. e.0) m) k m
      ∙ ap (remove dec k) (remove_all_keys m)

  pub get-remove_all-none :
      (ks : List K) (k : K) (m : List (K × V))
      → get dec k m ≡ none
      → get dec k (remove_all dec ks m) ≡ none
  unfolding remove_all
  get-remove_all-none [] k m h = h
  get-remove_all-none (j ∷ ks) k m h =
      get-remove_all-none ks k (remove dec j m) (ground (arith, get-remove k j m))

  pub remove-modify :
      (k : K) (f : V → V) (m : List (K × V)) → remove dec k (modify dec k f m) ≡ remove dec k m
  unfolding remove modify
  remove-modify k f [] = refl
  remove-modify k f ((j, v) ∷ m) = ground (arith, remove-modify k f m)
