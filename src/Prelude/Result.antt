-- ===== src/Prelude/Result.antt =====
-- src/error.rs: the errors of the daemon, and its `Result`.
use Prim.Native.Nat.{ℕ}
use mathlib.Core.Bool.{Bool, true, false}
use blobcache.Prelude.Lists.{Bytes}

-- A message is a list of bytes. The payload of `http` and `io` is an error of another library, of
-- which the code only passes on the text.
pub data BcError : Type 0 where
  auth http io config invalid_url xml : Bytes → BcError
  storage : ℕ → Bytes → BcError
  not_found peer cluster other : Bytes → BcError

pub data Result {ℓ} (A : Type ℓ) : Type ℓ where
  ok : A → Result A
  err : BcError → Result A

-- `e?` and what follows it.
infixl 5 ◌>>=◌ ◌>>◌
abbrev pub ◌>>=◌ {ℓ κ} : {A : Type ℓ} {B : Type κ} → Result A → (A → Result B) → Result B
◌>>=◌ r k = elim r [ ok value ↦ k value | err failure ↦ err failure ]

abbrev pub ◌>>◌ {ℓ} : {B : Type ℓ} → Result (Unit {0}) → Result B → Result B
◌>>◌ r rest = elim r [ ok _ ↦ rest | err failure ↦ err failure ]

-- `if !b { return Err(e) }`
abbrev pub ensure : Bool → BcError → Result (Unit {0})
ensure true e = ok tt
ensure false e = err e
