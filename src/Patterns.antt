-- ===== src/Patterns.antt =====
-- The building blocks of regular expressions: classes of characters and runs of them.
use Prim.Native.Char.{Char, code}
use aks_engine.Common.{
  ℕ, zero, suc, ◌+◌, ◌-◌, ◌*◌, String, Bool, true, ◌&&◌, ◌||◌, not, Option, none, some, leb,
  nat_beq, if◌then◌else◌, is_empty,
}

unfoldable pub is_digit : Char → Bool
is_digit c = leb b'0' (code c) && leb (code c) b'9'

unfoldable pub is_hex : Char → Bool
unfolding is_digit
is_hex c =
    is_digit c || leb b'a' (code c) && leb (code c) b'f' || leb b'A' (code c) && leb (code c) b'F'

unfoldable pub is_alnum : Char → Bool
unfolding is_digit
is_alnum c =
    is_digit c || leb b'a' (code c) && leb (code c) b'z' || leb b'A' (code c) && leb (code c) b'Z'

-- `[…]+$`: a text of one or more characters of a class.
unfoldable pub all_of : (Char → Bool) → String → Bool
all_of p String.[] = true
all_of p (String.◌∷◌ c s) = p c && all_of p s

unfoldable pub some_of : (Char → Bool) → String → Bool
unfolding all_of
some_of p s = not (is_empty s) && all_of p s

-- `[…]{n}`: the first n characters, if they are of the class, and the rest.
abbrev pub put_first : Char → Option (String × String) → Option (String × String)
put_first c none = none
put_first c (some (s, rest)) = some (String.◌∷◌ c s, rest)

unfoldable pub take_run : ℕ → (Char → Bool) → String → Option (String × String)
take_run zero p s = some (String.[], s)
take_run (suc n) p String.[] = none
take_run (suc n) p (String.◌∷◌ c s) =
    let rest = take_run n p s in if p c then put_first c rest else none

-- `[…]+`, up to the first character of another class.
unfoldable pub take_while : (Char → Bool) → String → String × String
take_while p String.[] = (String.[], String.[])
take_while p (String.◌∷◌ c s) =
    let rest = take_while p s in
    if p c then (String.◌∷◌ c rest.0, rest.1) else (String.[], String.◌∷◌ c s)

unfoldable pub drop_dash : String → Option String
drop_dash String.[] = none
drop_dash (String.◌∷◌ c s) = if nat_beq (code c) b'-' then some s else none

-- `-{0,2}`
abbrev pub drop_optional : String → Option String → String
drop_optional s none = s
drop_optional s (some t) = t

unfoldable pub drop_dashes : String → String
unfolding drop_dash
drop_dashes s =
    let t = drop_optional s (drop_dash s) in
    elim (drop_dash s) [ none ↦ s | some u ↦ drop_optional t (drop_dash t) ]

-- strconv.Atoi on a text of digits.
unfoldable pub number_from : ℕ → String → ℕ
number_from n String.[] = n
number_from n (String.◌∷◌ c s) = number_from (n * 10 + (code c - 48)) s
