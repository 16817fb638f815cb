-- ===== src/Names/Decimals.antt =====
-- Decimal numerals, read back by `strconv.Atoi`.
use Prim.Native.Nat.{◌/◌, ◌%◌}
use Prim.Native.Char.{Char, code}
use Prim.Native.String.{◌++◌}
use Prim.Native.String.append
use aks_engine.Common.{
  ◌≡◌, refl, ℕ, zero, suc, ◌+◌, ◌-◌, ◌*◌, ◌≤◌, ◌<◌, String, Bool, true, false, ◌&&◌, ltb,
  Bool-cases, inl, inr, decimal, decimal_from, digit, ok, arith, is_empty,
}
use aks_engine.Patterns.{is_digit, all_of, number_from}
use aks_engine.Names.{atoi, length_of}

-- One digit is one character.
record IsDigitOf (d : ℕ) (s : String) : Type 0 where
  char : Char
  is_char : s ≡ String.◌∷◌ char String.[]
  has_code : code char ≡ 48 + d

digit-IsDigitOf : (d : ℕ) → d < 10 → IsDigitOf d (digit d)
unfolding digit
digit-IsDigitOf zero h = record { char = "0"; is_char = refl; has_code = refl }
digit-IsDigitOf (suc zero) h = record { char = "1"; is_char = refl; has_code = refl }
digit-IsDigitOf (suc (suc zero)) h = record { char = "2"; is_char = refl; has_code = refl }
digit-IsDigitOf (suc (suc (suc zero))) h = record { char = "3"; is_char = refl; has_code = refl }
digit-IsDigitOf (suc (suc (suc (suc zero)))) h = record {
  char = "4";
  is_char = refl;
  has_code = refl;
}
digit-IsDigitOf (suc (suc (suc (suc (suc zero))))) h = record {
  char = "5";
  is_char = refl;
  has_code = refl;
}
digit-IsDigitOf (suc (suc (suc (suc (suc (suc zero)))))) h = record {
  char = "6";
  is_char = refl;
  has_code = refl;
}
digit-IsDigitOf (suc (suc (suc (suc (suc (suc (suc zero))))))) h = record {
  char = "7";
  is_char = refl;
  has_code = refl;
}
digit-IsDigitOf (suc (suc (suc (suc (suc (suc (suc (suc zero)))))))) h = record {
  char = "8";
  is_char = refl;
  has_code = refl;
}
digit-IsDigitOf (suc (suc (suc (suc (suc (suc (suc (suc (suc zero))))))))) h = record {
  char = "9";
  is_char = refl;
  has_code = refl;
}
digit-IsDigitOf (suc (suc (suc (suc (suc (suc (suc (suc (suc (suc n)))))))))) h =
    absurd (omega arith)

-- A text of digits, by its number and its length.
pub record IsNumeral (n : ℕ) (s : String) : Type 0 where
  pub number : number_from 0 s ≡ n
  pub digits : all_of is_digit s ≡ true
  pub filled : is_empty s ≡ false

number_from-append :
    (acc : ℕ) (c : Char) (s : String)
    → number_from acc (s ++ String.◌∷◌ c String.[]) ≡ number_from acc s * 10 + (code c - 48)
unfolding number_from
number_from-append acc c String.[] = rw append.nil refl
number_from-append acc c (String.◌∷◌ d s) =
    rw append.cons (number_from-append (acc * 10 + (code d - 48)) c s)

all_of-append :
    (p : Char → Bool) (c : Char) (s : String)
    → all_of p (s ++ String.◌∷◌ c String.[]) ≡ (all_of p s && p c)
unfolding all_of
all_of-append p c String.[] = rw append.nil (ground arith)
all_of-append p c (String.◌∷◌ d s) = rw append.cons (ground (arith, all_of-append p c s))

pub filled-append : (s t : String) → is_empty s ≡ false → is_empty (s ++ t) ≡ false
filled-append String.[] t h = absurd (ground (arith, h))
filled-append (String.◌∷◌ c s) t h = rw append.cons refl

length_of-append : (s t : String) → length_of (s ++ t) ≡ length_of s + length_of t
length_of-append String.[] t = rw append.nil (omega arith)
length_of-append (String.◌∷◌ c s) t = rw append.cons (omega (arith, length_of-append s t))

digit-IsNumeral : (d : ℕ) → d < 10 → IsNumeral d (digit d)
unfolding number_from all_of is_digit
digit-IsNumeral d h =
    let r = digit-IsDigitOf d h in
    let q = r.is_char in
    rw q record {
      number = ground (arith, r.has_code);
      digits = ground (arith, r.has_code);
      filled = refl;
    }

append-digit :
    (n d : ℕ) (s : String) → d < 10 → IsNumeral n s → IsNumeral (n * 10 + d) (s ++ digit d)
unfolding all_of is_digit
append-digit n d s h r =
    let one = digit-IsDigitOf d h in
    rw one.is_char record {
      number = omega (arith, number_from-append 0 one.char s, r.number, one.has_code);
      digits = ground (arith, all_of-append is_digit one.char s, r.digits, one.has_code);
      filled = filled-append s (String.◌∷◌ one.char String.[]) r.filled;
    }

decimal_from-IsNumeral : (f n : ℕ) → n < f → IsNumeral n (decimal_from f n)
unfolding decimal_from
decimal_from-IsNumeral zero n h = absurd (omega arith)
decimal_from-IsNumeral (suc f) n h = elim (Bool-cases (ltb n 10)) [
  | inl small ↦ rw small (digit-IsNumeral n (ground (arith, small)))
  | inr large ↦
      let whole : n / 10 * 10 + n % 10 ≡ n = omega arith in
      rw large (
        rw whole at (
          append-digit (n / 10) (n % 10) (decimal_from f (n / 10)) (omega arith)
            (decimal_from-IsNumeral f (n / 10) (ground (arith, large)))))
]

pub decimal-IsNumeral : (n : ℕ) → IsNumeral n (decimal n)
unfolding decimal
decimal-IsNumeral n = decimal_from-IsNumeral (n + 1) n (omega arith)

-- 10 ^ k
pub power_of_ten : ℕ → ℕ
power_of_ten zero = 1
power_of_ten (suc k) = power_of_ten k * 10

length_of-decimal_from :
    (f k n : ℕ) → n < power_of_ten (suc k) → length_of (decimal_from f n) ≤ suc k
unfolding decimal_from power_of_ten
length_of-decimal_from zero k n h = omega arith
length_of-decimal_from (suc f) zero n h = elim (Bool-cases (ltb n 10)) [
  | inl small ↦
      let one = digit-IsDigitOf n (ground (arith, small)) in rw small (rw one.is_char (omega arith))
  | inr large ↦ absurd (ground (arith, large))
]
length_of-decimal_from (suc f) (suc k) n h = elim (Bool-cases (ltb n 10)) [
  | inl small ↦
      let one = digit-IsDigitOf n (ground (arith, small)) in rw small (rw one.is_char (omega arith))
  | inr large ↦
      let last = digit-IsDigitOf (n % 10) (omega arith) in
      rw (large, last.is_char)
        (omega (
          arith,
          length_of-append (decimal_from f (n / 10)) (String.◌∷◌ last.char String.[]),
          length_of-decimal_from f k (n / 10) (omega arith),
        ))
]

-- An index below 100,000,000 has at most eight digits.
pub length_of-decimal : (n : ℕ) → n < 100000000 → length_of (decimal n) ≤ 8
unfolding decimal power_of_ten
length_of-decimal n h = length_of-decimal_from (n + 1) 7 n h

pub atoi-decimal : (n : ℕ) → n < 100000000 → atoi (decimal n) ≡ ok n
unfolding atoi
atoi-decimal n h = let r = decimal-IsNumeral n in ground (arith, r.number, r.digits, r.filled)
