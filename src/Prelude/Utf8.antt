-- ===== src/Prelude/Utf8.antt =====
-- Which bytes are UTF-8: what `String::from_utf8` accepts.
use mathlib.Core.Bool.{Bool, true, false, ◌&&◌}
use mathlib.Core.List.{List, [], ◌∷◌}
use mathlib.Core.Option.{Option, none, some}
use mathlib.Core.Path.{◌≡◌}
use Prim.Native.Nat.{ℕ}
use blobcache.Prelude.Tests.{leb, if◌then◌else◌}
use blobcache.Prelude.Lists.{Bytes}

-- The range of a byte that has to follow.
abbrev Range : Type 0
Range = ℕ × ℕ

abbrev any_tail : Range
any_tail = (0x80, 0xbf)

-- What has to follow a first byte; `none` where no character starts with it.
unfoldable pub followers : ℕ → Option (List (ℕ × ℕ))
followers b =
    if leb b 0x7f
    then some []
    else if leb b 0xc1
    then none
    else if leb b 0xdf
    then some (any_tail ∷ [])
    else if leb b 0xe0
    then some ((0xa0, 0xbf) ∷ any_tail ∷ [])
    else if leb b 0xec
    then some (any_tail ∷ any_tail ∷ [])
    else if leb b 0xed
    then some ((0x80, 0x9f) ∷ any_tail ∷ [])
    else if leb b 0xef
    then some (any_tail ∷ any_tail ∷ [])
    else if leb b 0xf0
    then some ((0x90, 0xbf) ∷ any_tail ∷ any_tail ∷ [])
    else if leb b 0xf3
    then some (any_tail ∷ any_tail ∷ any_tail ∷ [])
    else if leb b 0xf4
    then some ((0x80, 0x8f) ∷ any_tail ∷ any_tail ∷ [])
    else none

unfoldable pub utf8_after : List (ℕ × ℕ) → Bytes → Bool
unfolding followers
utf8_after [] [] = true
utf8_after (r ∷ due) [] = false
utf8_after ((lo, hi) ∷ due) (b ∷ bs) = leb lo b && leb b hi && utf8_after due bs
utf8_after [] (b ∷ bs) = elim (followers b) [ none ↦ false | some due ↦ utf8_after due bs ]

unfoldable pub is_utf8 : Bytes → Bool
unfolding utf8_after
is_utf8 bs = utf8_after [] bs

-- ASCII bytes are UTF-8.
pub is_utf8-cons : (b : ℕ) (bs : Bytes) → leb b 0x7f ≡ true → is_utf8 (b ∷ bs) ≡ is_utf8 bs
unfolding is_utf8
is_utf8-cons b bs h = rw (h, utf8_after)
