-- ===== src/Transform/FlagValues.antt =====
-- pkg/engine/transform/apimodel_merger.go: the values of the flag `--set`, "key=value,…", with values
-- in quotes where they contain commas.
pub mod Quoted
use Prim.Native.Char.{Char, code}
use aks_engine.Common.{
  String, Bool, true, false, not, ◌&&◌, ◌||◌, List, [], ◌∷◌, nat_beq, if◌then◌else◌, ◌==◌,
  string_eq, insert, is_empty, ◌<>◌,
}

-- The variables of the loop of `parseKeyValuePairs`.
pub record Scan : Type 0 where
  pub in_quote_literal : Bool
  pub in_dbl_quote_literal : Bool
  pub in_key : Bool
  pub kvp_map : List (String × String)
  pub current_key : String
  pub current_value : String

abbrev pub one : Char → String
one c = String.◌∷◌ c String.[]

abbrev pub to_value : Scan → Char → Scan
to_value s c = record s { current_value = s.current_value <> one c }

abbrev pub to_key : Scan → Char → Scan
to_key s c = record s { current_key = s.current_key <> one c }

abbrev pub on_quote : Scan → Scan
on_quote s =
    if not s.in_quote_literal && not s.in_dbl_quote_literal
    then record s { in_quote_literal = true; in_key = false }
    else if s.in_quote_literal
    then record s { in_quote_literal = false; in_key = true }
    else s

abbrev pub on_dbl_quote : Scan → Scan
on_dbl_quote s =
    if not s.in_dbl_quote_literal && not s.in_quote_literal
    then record s { in_dbl_quote_literal = true; in_key = false }
    else if s.in_dbl_quote_literal
    then record s { in_dbl_quote_literal = false; in_key = true }
    else s

abbrev pub on_comma : Scan → Char → Scan
on_comma s c = if s.in_quote_literal || s.in_dbl_quote_literal then to_value s c else record s {
  kvp_map = insert s.current_key s.current_value s.kvp_map;
  current_key = "";
  current_value = "";
  in_key = true;
}

abbrev pub on_equals : Scan → Char → Scan
on_equals s c =
    if s.in_quote_literal || s.in_dbl_quote_literal || not s.in_key
    then to_value s c
    else record s { in_key = false }

unfoldable pub scan_char : Scan → Char → Scan
scan_char s c =
    if nat_beq (code c) b'\''
    then on_quote s
    else if nat_beq (code c) b'"'
    then on_dbl_quote s
    else if nat_beq (code c) b','
    then on_comma s c
    else if nat_beq (code c) b'='
    then on_equals s c
    else if s.in_key
    then to_key s c
    else to_value s c

unfoldable pub scan_literal : Scan → String → Scan
scan_literal s String.[] = s
scan_literal s (String.◌∷◌ c cs) = scan_literal (scan_char s c) cs

abbrev pub initial : List (String × String) → Scan
initial m = record {
  in_quote_literal = false;
  in_dbl_quote_literal = false;
  in_key = true;
  kvp_map = m;
  current_key = "";
  current_value = "";
}

-- The last pair is pushed if it has a key.
abbrev pub push_last : Scan → List (String × String)
push_last s =
    if is_empty s.current_key then s.kvp_map else insert s.current_key s.current_value s.kvp_map

unfoldable pub parse_key_value_pairs : String → List (String × String)
unfolding scan_char scan_literal
parse_key_value_pairs literal = push_last (scan_literal (initial []) literal)
