-- ===== src/Common/Texts.antt =====
-- What the program uses of `strings`, `strconv` and `fmt` on whole texts.
use aks_engine.Common.Tests.{if◌then◌else◌, nat_beq, ltb}
use Prim.Native.Nat.{ℕ, zero, suc, ◌+◌, ◌/◌, ◌%◌}
use Prim.Native.Char.{code}
use mathlib.Core.Bool.{Bool, true, false, ◌&&◌, ◌||◌}
use Prim.Native.String.{String, ◌++◌}

abbrev pub is_empty : String → Bool
is_empty String.[] = true
is_empty (String.◌∷◌ c s) = false

-- strings.TrimPrefix(s, "v")
abbrev pub trim_prefix_v : String → String
trim_prefix_v String.[] = ""
trim_prefix_v (String.◌∷◌ c s) = if nat_beq (code c) b'v' then s else String.◌∷◌ c s

unfoldable pub digit : ℕ → String
digit zero = "0"
digit (suc zero) = "1"
digit (suc (suc zero)) = "2"
digit (suc (suc (suc zero))) = "3"
digit (suc (suc (suc (suc zero)))) = "4"
digit (suc (suc (suc (suc (suc zero))))) = "5"
digit (suc (suc (suc (suc (suc (suc zero)))))) = "6"
digit (suc (suc (suc (suc (suc (suc (suc zero))))))) = "7"
digit (suc (suc (suc (suc (suc (suc (suc (suc zero)))))))) = "8"
digit _ = "9"

-- The quotient by ten falls below the fuel in each round, so `n + 1` rounds are enough.
unfoldable pub decimal_from : ℕ → ℕ → String
decimal_from zero n = ""
decimal_from (suc f) n =
    let rest = decimal_from f (n / 10) ++ digit (n % 10) in if ltb n 10 then digit n else rest

-- strconv.FormatUint(n, 10), and `%d`
unfoldable pub decimal : ℕ → String
unfolding decimal_from digit
decimal n = decimal_from (n + 1) n

infixl 65 ◌<>◌
abbrev pub ◌<>◌ : String → String → String
s <> t = s ++ t

-- strings.HasPrefix(s, prefix)
unfoldable pub has_prefix : String → String → Bool
has_prefix s String.[] = true
has_prefix String.[] (String.◌∷◌ d t) = false
has_prefix (String.◌∷◌ c s) (String.◌∷◌ d t) = nat_beq (code c) (code d) && has_prefix s t

-- strings.Contains(s, part)
unfoldable pub contains : String → String → Bool
unfolding has_prefix
contains String.[] part = has_prefix String.[] part
contains (String.◌∷◌ c s) part = has_prefix (String.◌∷◌ c s) part || contains s part
