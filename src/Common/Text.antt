-- ===== src/Common/Text.antt =====
-- The text functions of JavaScript that the program calls: splitting at a character, and the
-- decimal text of a number.
use Prim.Native.Nat.{ℕ, ◌+◌}
use Prim.Native.Char.{Char, code}
use Prim.Native.String
use Prim.Native.String.{String}
use mathlib.Core.List.{List, [], ◌∷◌}
use mathlib.Core.Option.{Option, none, some}
use capstone_home_care_be_mi.Common.Tests.{◌==◌, ltb, if◌then◌else◌}

abbrev pub push : String → Char → String
push s c = String.◌++◌ s (String.◌∷◌ c String.[])

-- `s.split(sep)` for a separator of one character; `cur` is the piece read so far.
unfoldable pub split_from : ℕ → String → String → List String
split_from sep cur String.[] = cur ∷ []
split_from sep cur (String.◌∷◌ c s) =
    let closed = cur ∷ split_from sep String.[] s in
    let longer = split_from sep (push cur c) s in if code c == sep then closed else longer

unfoldable pub split : ℕ → String → List String
unfolding split_from
split sep s = split_from sep String.[] s

-- `xs[1]`
abbrev pub second {ℓ} : {A : Type ℓ} → List A → Option A
second [] = none
second (x ∷ []) = none
second (x ∷ y ∷ xs) = some y

-- `s.length`: the UTF-16 units of a text.
abbrev pub utf16_length : String → ℕ
utf16_length String.[] = 0
utf16_length (String.◌∷◌ c s) = (if ltb (code c) 0x10000 then 1 else 2) + utf16_length s
