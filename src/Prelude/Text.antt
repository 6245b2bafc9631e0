-- ===== src/Prelude/Text.antt =====
-- Decimal numerals and joined texts, as template literals such as `${id}-${seq}` print them.
use Prim.Native.Nat.{ℕ, zero, suc, ◌/◌, ◌%◌}
use Prim.Native.String.{String, ◌++◌ as text_append}
use Prim.Native.Char.{code}
use mathlib.Core.List.{List, [], ◌∷◌, reverse}
use mathlib.Core.Bool.{Bool, ◌&&◌, ◌||◌}
use mathlib.Core.Path.{◌≡◌, refl}
use hugin_agent.Prelude.Tests.{ltb, leb, ◌==◌, if◌then◌else◌}

-- The code points of a text: its bytes, if it is ASCII.
abbrev pub codes : String → List ℕ
codes String.[] = []
codes (String.◌∷◌ c s) = code c ∷ codes s

infixr 65 ◌<>◌
-- `+` on texts.
unfoldable pub ◌<>◌ : String → String → String
a <> b = text_append a b

digit : ℕ → String
digit d =
    if d == 0
    then "0"
    else if d == 1
    then "1"
    else if d == 2
    then "2"
    else if d == 3
    then "3"
    else if d == 4
    then "4"
    else if d == 5
    then "5"
    else if d == 6
    then "6"
    else if d == 7
    then "7"
    else if d == 8
    then "8"
    else "9"

decimal_from : ℕ → ℕ → String
unfolding digit ◌<>◌
decimal_from zero n = digit n
decimal_from (suc f) n =
    let more = decimal_from f (n / 10) <> digit (n % 10) in if ltb n 10 then digit n else more

-- A number has fewer digits than its value plus one, so the fuel `n` is enough.
unfoldable pub decimal : ℕ → String
unfolding decimal_from
decimal n = decimal_from n n

decimal_example : "att" <> "-" <> decimal 120 ≡ "att-120"
unfolding decimal ◌<>◌
decimal_example = refl

-- The white space and line ends that `trim` takes away.
abbrev is_space : ℕ → Bool
is_space c =
    (leb 9 c && leb c 13)
    || c == 32
    || c == 160
    || c == 5760
    || (leb 8192 c && leb c 8202)
    || c == 8232
    || c == 8233
    || c == 8239
    || c == 8287
    || c == 12288
    || c == 65279

trim_start : List ℕ → List ℕ
trim_start [] = []
trim_start (c ∷ cs) = let rest = trim_start cs in if is_space c then rest else c ∷ cs

-- `trim`, on UTF-16 units.
unfoldable pub trim : List ℕ → List ℕ
unfolding trim_start
trim s = reverse (trim_start (reverse (trim_start s)))
