-- ===== src/Prelude/Text.antt =====
-- Text as the source uses it: lower case, prefix tests and concatenation.
use Prim.Native.Char.{Char, code}
use Prim.Native.String
use Prim.Native.String.{String, [], ◌∷◌, char_at, slice}
use Prim.Native.Nat.{ℕ, suc, ◌+◌, ◌-◌, ◌/◌, ◌%◌}
use mathlib.Core.Bool.{Bool, ◌&&◌}
use mathlib.Core.List.{List}
use text.Mathlib.Text
use ai_neobank.Prelude.Tests.{leb, nat_beq, if◌then◌else◌}

infixr 65 ◌++ₜ◌
abbrev pub ◌++ₜ◌ : String → String → String
s ++ₜ t = String.◌++◌ s t

abbrev pub starts_with : String → String → Bool
starts_with s prefix = Text.starts_with s prefix

-- `toLowerCase` and SQL's `lower`, on the ASCII letters; addresses hold no others.
lower_char : Char → Char
lower_char c =
    if leb b'A' (code c) && leb (code c) b'Z'
    then char_at "abcdefghijklmnopqrstuvwxyz" (code c - b'A')
    else c

unfoldable pub to_lower : String → String
unfolding lower_char
to_lower [] = []
to_lower (c ∷ s) = lower_char c ∷ to_lower s

-- JavaScript's truthiness of a string: the empty one is false.
abbrev pub is_blank : String → Bool
is_blank [] = Bool.true
is_blank (c ∷ s) = Bool.false

-- `slice(0, n)`, in code units of the text
abbrev pub first : ℕ → String → String
first n s = slice s 0 n

-- `Array.prototype.join`
unfoldable pub join : String → List String → String
join separator List.[] = ""
join separator (List.◌∷◌ s List.[]) = s
join separator (List.◌∷◌ s (List.◌∷◌ t rest)) = s ++ₜ separator ++ₜ join separator (List.◌∷◌ t rest)

-- `toString` of a number, in decimal. A number has at most as many digits as its successor counts.
digit : ℕ → String
digit n = slice "0123456789" (n % 10) (n % 10 + 1)

decimal_from : ℕ → ℕ → String → String
decimal_from ℕ.zero n acc = acc
decimal_from (suc fuel) n acc =
    let rest = decimal_from fuel (n / 10) (digit n ++ₜ acc) in
    if nat_beq (n / 10) 0 then digit n ++ₜ acc else rest

unfoldable pub decimal : ℕ → String
unfolding digit decimal_from
decimal n = decimal_from (suc n) n ""

abbrev text_length : String → ℕ
text_length [] = 0
text_length (c ∷ s) = suc (text_length s)

abbrev repeated : ℕ → String → String
repeated ℕ.zero s = ""
repeated (suc n) s = s ++ₜ repeated n s

-- `padStart`, with a filler of one character
abbrev pub pad_start : ℕ → String → String → String
pad_start n filler s = repeated (n - text_length s) filler ++ₜ s
