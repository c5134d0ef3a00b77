-- ===== src/Prelude/Texts.antt =====
-- Operations of Python's `str`.
use Prim.Native.Nat.{ℕ, zero, suc}
use Prim.Native.Char.{Char, code}
use Prim.Native.String.{String, [], ◌∷◌, ◌++◌, count}
use mathlib.Core.Bool.{Bool, true, false, ◌&&◌, ◌||◌}
use mathlib.Core.Option.{Option, none, some}
use eldridge.Prelude.Tests.{◌==◌, nat_eq, if◌then◌else◌}

-- `len(text)`
abbrev pub len : String → ℕ
len s = count s

-- `text[:n]`
unfoldable pub prefix : ℕ → String → String
prefix zero s = []
prefix (suc n) [] = []
prefix (suc n) (c ∷ s) = c ∷ prefix n s

-- `all(test(character) for character in text)`
unfoldable pub all_chars : (Char → Bool) → String → Bool
all_chars p [] = true
all_chars p (c ∷ s) = p c && all_chars p s

-- `character in text`
unfoldable pub has_char : String → Char → Bool
has_char [] d = false
has_char (c ∷ s) d = code c == code d || has_char s d

-- `text.removeprefix(start)`, if the text starts so
unfoldable pub after_prefix : String → String → Option String
after_prefix [] s = some s
after_prefix (c ∷ start) [] = none
after_prefix (c ∷ start) (d ∷ s) =
    let rest = after_prefix start s in if code c == code d then rest else none

-- `a + b` of texts
unfoldable pub text_append : String → String → String
text_append a b = a ++ b
