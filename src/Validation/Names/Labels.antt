-- ===== src/Validation/Names/Labels.antt =====
-- The rule for the values of labels, against the regular expression that checks them.
use Prim.Native.Char.{Char}
use aks_engine.Common.{
  ℕ, zero, suc, ◌+◌, ◌≡◌, refl, String, Bool, true, false, not, ◌&&◌, ◌||◌, leb, is_empty,
  if◌then◌else◌, Bool-cases, inl, inr, arith,
}
use aks_engine.Patterns.{is_alnum, all_of}
use aks_engine.Validation.{refuse_if}
use aks_engine.Validation.Names.{
  ends_after, is_label_char, is_label, validate_kubernetes_label_value, invalid_label_value,
}

-- The number of characters.
unfoldable pub size : String → ℕ
size String.[] = 0
size (String.◌∷◌ c s) = size s + 1

abbrev pub starts_with : (Char → Bool) → String → Bool
starts_with p String.[] = false
starts_with p (String.◌∷◌ c s) = p c

unfoldable pub ends_with : (Char → Bool) → String → Bool
ends_with p String.[] = false
ends_with p (String.◌∷◌ c s) = let later = ends_with p s in if is_empty s then p c else later

-- Where the last characters are among those in the middle, no choice of a match matters.
ends_after_lem :
    (n : ℕ) (middle last : Char → Bool) (s : String)
    → ((c : Char) → last c ≡ true → middle c ≡ true)
    → ends_after n middle last s ≡ (leb (size s) (n + 1) && ends_with last s && all_of middle s)
unfolding ends_after size ends_with all_of
ends_after_lem n middle last String.[] h = ground arith
ends_after_lem zero middle last (String.◌∷◌ c String.[]) h = elim (Bool-cases (last c)) [
  | inl t ↦ ground (arith, t, h c t)
  | inr f ↦ ground (arith, f)
]
ends_after_lem zero middle last (String.◌∷◌ c (String.◌∷◌ d s)) h = ground arith
ends_after_lem (suc n) middle last (String.◌∷◌ c String.[]) h = elim (Bool-cases (last c)) [
  | inl t ↦ ground (arith, t, h c t, ends_after_lem n middle last String.[] h)
  | inr f ↦ ground (arith, f, ends_after_lem n middle last String.[] h)
]
ends_after_lem (suc n) middle last (String.◌∷◌ c (String.◌∷◌ d s)) h =
    ground (arith, ends_after_lem n middle last (String.◌∷◌ d s) h)

-- The rule that the message of the check tells.
abbrev pub is_valid_label : String → Bool
is_valid_label v =
    is_empty v
    || (leb (size v) 63 && starts_with is_alnum v && ends_with is_alnum v && all_of is_label_char v)

is_label_lem : (v : String) → (is_empty v || is_label v) ≡ is_valid_label v
unfolding is_label size ends_with all_of
is_label_lem String.[] = refl
is_label_lem (String.◌∷◌ c String.[]) = elim (Bool-cases (is_alnum c)) [
  | inl t ↦ ground (arith, t)
  | inr f ↦ ground (arith, f)
]
is_label_lem (String.◌∷◌ c (String.◌∷◌ d s)) =
    let rest =
      ends_after_lem 61 is_label_char is_alnum (String.◌∷◌ d s) (λ c h. ground (arith, h)) in
    elim (Bool-cases (is_alnum c)) [ inl t ↦ ground (arith, t, rest) | inr f ↦ ground (arith, f) ]

-- `validateKubernetesLabelValue` accepts exactly the values that its message describes: those that
-- are empty, or have at most 63 characters, start and end with a letter or a digit, and have only
-- letters, digits, dashes, underscores and dots.
pub validate_label_value-eq-rule :
    (v : String)
    → validate_kubernetes_label_value v ≡ refuse_if (not (is_valid_label v)) (invalid_label_value v)
unfolding validate_kubernetes_label_value
validate_label_value-eq-rule v = ground (arith, is_label_lem v)
