-- ===== src/Transform/FlagValues/Quoted.antt =====
-- Pairs with values in quotes, read back by `parseKeyValuePairs`.
use Prim.Native.Char.{Char, code}
use Prim.Native.String.{◌++◌}
use Prim.Native.String.append
use text.Mathlib.TextLemmas.{append_assoc as text_append_assoc, append-nil as text_append-nil}
use aks_engine.Common.{
  ◌≡◌, refl, ap, ◌∙◌, String, Bool, true, false, not, ◌&&◌, ◌||◌, List, [], ◌∷◌, nat_beq, All,
  insert, string_eq, is_empty, arith,
}
use aks_engine.Transform.FlagValues.{
  Scan, one, initial, push_last, scan_char, scan_literal, parse_key_value_pairs,
}

-- A key has none of the characters with a meaning; a value in quotes may have all but quotes.
abbrev pub is_plain : String → Bool
is_plain String.[] = true
is_plain (String.◌∷◌ c s) =
    not (
      nat_beq (code c) b'\''
      || nat_beq (code c) b'"'
      || nat_beq (code c) b','
      || nat_beq (code c) b'=')
    && is_plain s

abbrev pub has_no_quote : String → Bool
has_no_quote String.[] = true
has_no_quote (String.◌∷◌ c s) =
    not (nat_beq (code c) b'\'' || nat_beq (code c) b'"') && has_no_quote s

-- k1='v1',k2='v2',…
abbrev pub assignment : String × String → String → String
assignment (k, v) rest = k ++ ("='" ++ (v ++ ("'" ++ rest)))

abbrev pub assignments : List (String × String) → String
assignments [] = ""
assignments (e ∷ []) = assignment e ""
assignments (e ∷ f ∷ es) = assignment e ("," ++ assignments (f ∷ es))

abbrev pub AreWritable : List (String × String) → Type 0
AreWritable es =
    All (λ e. (is_plain e.0 ≡ true) × (is_empty e.0 ≡ false) × (has_no_quote e.1 ≡ true)) es

one_more : (a : String) (c : Char) (k : String) → (a ++ one c) ++ k ≡ a ++ String.◌∷◌ c k
one_more a c k = text_append_assoc a (one c) k ∙ rw (append.cons c "" k, append.nil k) refl

-- Within a key, and within a value in quotes.
abbrev key_state : List (String × String) → String → Scan
key_state m k = record (initial m) { current_key = k }

abbrev quoted_state : List (String × String) → String → String → Scan
quoted_state m k v = record (initial m) {
  in_quote_literal = true;
  in_key = false;
  current_key = k;
  current_value = v;
}

scan_char-key :
    (m : List (String × String)) (a : String) (c : Char) (k : String)
    → is_plain (String.◌∷◌ c k) ≡ true
    → scan_char (key_state m a) c ≡ key_state m (a ++ one c)
unfolding scan_char
scan_char-key m a c k h = ground (arith, h)

scan_char-quoted :
    (m : List (String × String)) (k a : String) (c : Char) (v : String)
    → has_no_quote (String.◌∷◌ c v) ≡ true
    → scan_char (quoted_state m k a) c ≡ quoted_state m k (a ++ one c)
unfolding scan_char
scan_char-quoted m k a c v h = ground (arith, h)

scan-key :
    (m : List (String × String)) (a k rest : String)
    → is_plain k ≡ true
    → scan_literal (key_state m a) (k ++ rest) ≡ scan_literal (key_state m (a ++ k)) rest
unfolding scan_literal
scan-key m a String.[] rest h = rw (append.nil, text_append-nil) refl
scan-key m a (String.◌∷◌ c k) rest h = rw append.cons (
    ap (λ s. scan_literal s (k ++ rest)) (scan_char-key m a c k h)
    ∙ scan-key m (a ++ one c) k rest (ground (arith, h))
    ∙ ap (λ b. scan_literal (key_state m b) rest) (one_more a c k))

scan-quoted :
    (m : List (String × String)) (k a v rest : String)
    → has_no_quote v ≡ true
    → scan_literal (quoted_state m k a) (v ++ rest) ≡ scan_literal (quoted_state m k (a ++ v)) rest
unfolding scan_literal
scan-quoted m k a String.[] rest h = rw (append.nil, text_append-nil) refl
scan-quoted m k a (String.◌∷◌ c v) rest h = rw append.cons (
    ap (λ s. scan_literal s (v ++ rest)) (scan_char-quoted m k a c v h)
    ∙ scan-quoted m k (a ++ one c) v rest (ground (arith, h))
    ∙ ap (λ b. scan_literal (quoted_state m k b) rest) (one_more a c v))

-- One whole pair.
scan-assignment :
    (m : List (String × String)) (k v rest : String)
    → is_plain k ≡ true
    → has_no_quote v ≡ true
    → scan_literal (initial m) (assignment (k, v) rest)
      ≡ scan_literal (record (initial m) { current_key = k; current_value = v }) rest
unfolding scan_literal scan_char
scan-assignment m k v rest h q =
    let tail = "'" ++ rest in
    let middle = v ++ tail in
    scan-key m "" k ("='" ++ middle) h
    ∙ rw (append.nil k, append.cons "=" "'" middle, append.cons "'" "" middle, append.nil middle)
        (scan-quoted m k "" v tail q
          ∙ rw (append.nil v, append.cons "'" "" rest, append.nil rest) refl)

unfoldable pub insert_each :
    List (String × String) → List (String × String) → List (String × String)
insert_each [] m = m
insert_each ((k, v) ∷ es) m = insert_each es (insert k v m)

scan-assignments :
    (m es : List (String × String))
    → AreWritable es
    → push_last (scan_literal (initial m) (assignments es)) ≡ insert_each es m
unfolding scan_literal scan_char insert_each
scan-assignments m [] h = refl
scan-assignments m ((k, v) ∷ []) h =
    ap push_last (scan-assignment m k v "" h.0.0 h.0.2) ∙ ground (arith, h.0.1)
scan-assignments m ((k, v) ∷ f ∷ es) h =
    let later = assignments (f ∷ es) in
    ap push_last (scan-assignment m k v ("," ++ later) h.0.0 h.0.2)
    ∙ rw (append.cons "," "" later, append.nil later) (scan-assignments (insert k v m) (f ∷ es) h.1)

-- What is written as `k1='v1',k2='v2',…` is read back as these pairs, written into a map in their
-- order: keys are not empty and have no quotes, commas or equals signs, and values have no quotes,
-- though they may have commas and equals signs.
pub parse_key_value_pairs-assignments :
    (es : List (String × String))
    → AreWritable es
    → parse_key_value_pairs (assignments es) ≡ insert_each es []
unfolding parse_key_value_pairs
parse_key_value_pairs-assignments es h = scan-assignments [] es h
