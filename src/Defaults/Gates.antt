-- ===== src/Defaults/Gates.antt =====
-- pkg/api/defaults.go: feature gates, a text of assignments such as "A=true,B=false".
use Prim.Native.Nat.{Ordering}
use Prim.Native.Char.{Char, code}
use Prim.Native.String.{compare}
use aks_engine.Common.{
  ℕ, String, Bool, true, false, Option, none, some, List, [], ◌∷◌, nat_beq, if◌then◌else◌, lookup,
  insert, string_eq, sort_by, is_empty, ◌<>◌,
}
use aks_engine.Defaults.Overlay.{Flags}
use aks_engine.Versions.Semver.{Semver}
use aks_engine.Versions.Select.{is_kubernetes_version_ge}

-- strings.Split(s, sep), for one character
abbrev to_first : Char → List String → List String
to_first c [] = String.◌∷◌ c String.[] ∷ []
to_first c (s ∷ ss) = String.◌∷◌ c s ∷ ss

unfoldable pub split : ℕ → String → List String
split sep String.[] = String.[] ∷ []
split sep (String.◌∷◌ c s) =
    let rest = split sep s in if nat_beq (code c) sep then String.[] ∷ rest else to_first c rest

-- strings.Trim(s, " ")
unfoldable pub trim_left : String → String
trim_left String.[] = String.[]
trim_left (String.◌∷◌ c s) =
    let rest = trim_left s in if nat_beq (code c) b' ' then rest else String.◌∷◌ c s

abbrev keep_unless_blank : Char → String → String
keep_unless_blank c String.[] = if nat_beq (code c) b' ' then String.[] else String.◌∷◌ c String.[]
keep_unless_blank c (String.◌∷◌ d s) = String.◌∷◌ c (String.◌∷◌ d s)

unfoldable pub trim_right : String → String
trim_right String.[] = String.[]
trim_right (String.◌∷◌ c s) = keep_unless_blank c (trim_right s)

abbrev put_parts : List String → Flags → Flags
put_parts (key ∷ value ∷ []) m = insert key value m
put_parts _ m = m

unfoldable pub put_values : List String → Flags → Flags
unfolding split trim_left trim_right
put_values [] m = m
put_values (value ∷ values) m =
    put_values values (put_parts (split b'=' (trim_right (trim_left value))) m)

unfoldable pub apply_value_string_to_map : Flags → String → Flags
unfolding put_values
apply_value_string_to_map m input = put_values (split b',' input) m

-- sort.Strings
abbrev less_text : String × String → String × String → Bool
less_text a b = elim (compare a.0 b.0) [ Ordering.lt ↦ true | _ ↦ false ]

-- Each assignment but the last ends in a comma.
unfoldable pub join : Flags → String
join [] = ""
join ((k, v) ∷ []) = k <> "=" <> v
join ((k, v) ∷ e ∷ m) = k <> "=" <> v <> "," <> join (e ∷ m)

unfoldable pub map_to_string : Flags → String
unfolding join sort_by
map_to_string m = join (sort_by less_text m)

unfoldable pub combine_values : String → String → String
unfolding apply_value_string_to_map map_to_string
combine_values first second =
    map_to_string (apply_value_string_to_map (apply_value_string_to_map [] first) second)

abbrev pub text_or_empty : Option String → String
text_or_empty none = ""
text_or_empty (some s) = s

module _ (semver : Semver) where
  -- A minimal version "" means all versions.
  abbrev pub gates_for : String → String → String → String
  gates_for version min_version defaults =
      if is_empty min_version
      then defaults
      else if is_kubernetes_version_ge semver version min_version
      then defaults
      else ""

  unfoldable pub add_default_feature_gates : Flags → String → String → String → Flags
  unfolding combine_values
  add_default_feature_gates m version min_version defaults =
      insert "--feature-gates"
        (combine_values (text_or_empty (lookup "--feature-gates" m))
          (gates_for version min_version defaults))
        m
