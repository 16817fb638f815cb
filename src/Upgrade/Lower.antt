-- ===== src/Upgrade/Lower.antt =====
-- strings.ToLower on the names of machines, which are in ASCII.
use Prim.Native.Char.{Char, code}
use aks_engine.Common.{String, ℕ, ◌+◌, ◌&&◌, leb, if◌then◌else◌, nat_beq}

-- The small letter of a capital one, by the alphabet.
letter : String → ℕ → Char → Char
letter String.[] c other = other
letter (String.◌∷◌ x s) c other =
    let rest = letter s c other in if nat_beq (code x) (c + 32) then x else rest

lower_char : Char → Char
unfolding letter
lower_char c =
    if leb b'A' (code c) && leb (code c) b'Z'
    then letter "abcdefghijklmnopqrstuvwxyz" (code c) c
    else c

unfoldable pub to_lower : String → String
unfolding lower_char
to_lower String.[] = String.[]
to_lower (String.◌∷◌ c s) = String.◌∷◌ (lower_char c) (to_lower s)
