-- ===== src/Names/Tails.antt =====
-- Where the tail `-([0-9a-fA-F]{8})-{0,2}([0-9]+)$` of a Linux machine's name matches.
use Prim.Native.Char.{Char, code}
use Prim.Native.String.{◌++◌}
use Prim.Native.String.append
use aks_engine.Common.{
  ◌≡◌, refl, ℕ, zero, suc, ◌≤◌, String, Bool, true, false, not, ◌&&◌, none, ◌⊎◌, some, nat_beq,
  Bool-cases, inl, inr, is_empty, arith,
}
use aks_engine.Patterns.{is_digit, is_hex, all_of, take_run, drop_dash, drop_dashes}
use aks_engine.Names.{linux_tail, length_of, pool_before}

dash-not-hex : (c : Char) → is_hex c ≡ true → nat_beq (code c) b'-' ≡ false
unfolding is_hex
dash-not-hex c h = ground (arith, h)

digit-hex : (c : Char) → is_digit c ≡ true → is_hex c ≡ true
unfolding is_hex
digit-hex c h = ground (arith, h)

all_digits-hex : (s : String) → all_of is_digit s ≡ true → all_of is_hex s ≡ true
unfolding all_of
all_digits-hex String.[] h = refl
all_digits-hex (String.◌∷◌ c s) h = ground (arith, h, digit-hex c, all_digits-hex s)

-- Only a dash starts a tail.
linux_tail-not_dash :
    (c : Char) (s : String) → nat_beq (code c) b'-' ≡ false → linux_tail (String.◌∷◌ c s) ≡ none
unfolding linux_tail
linux_tail-not_dash c s h = rw h refl

-- `[…]{8}` of a text that starts with eight characters of the class.
pub take_run-append :
    (n : ℕ) (p : Char → Bool) (s t : String)
    → all_of p s ≡ true
    → length_of s ≡ n
    → take_run n p (s ++ t) ≡ some (s, t)
unfolding all_of take_run
take_run-append zero p String.[] t h k = rw append.nil refl
take_run-append zero p (String.◌∷◌ c s) t h k = absurd (omega arith)
take_run-append (suc n) p String.[] t h k = absurd (omega arith)
take_run-append (suc n) p (String.◌∷◌ c s) t h k =
    rw append.cons (ground (arith, h, take_run-append n p s t (ground (arith, h)) (omega arith)))

-- A text that is too short leaves nothing behind, if it has a run at all.
take_run-short :
    (n : ℕ) (p : Char → Bool) (s : String)
    → length_of s ≤ n
    → (take_run n p s ≡ none) ⊎ ((run : String) × (take_run n p s ≡ some (run, String.[])))
unfolding take_run
take_run-short zero p String.[] h = inr (String.[], refl)
take_run-short zero p (String.◌∷◌ c s) h = absurd (omega arith)
take_run-short (suc n) p String.[] h = inl refl
take_run-short (suc n) p (String.◌∷◌ c s) h = elim (take_run-short n p s (omega arith)) [
  | inl e ↦ inl (ground (arith, e))
  | inr (run, e) ↦ elim (Bool-cases (p c)) [
    | inl t ↦ inr (String.◌∷◌ c run, rw (t, e) refl)
    | inr f ↦ inl (rw f refl)
  ]
]

-- A dash and at most eight characters are no tail.
linux_tail-short : (s : String) → length_of s ≤ 8 → linux_tail ("-" ++ s) ≡ none
unfolding linux_tail
linux_tail-short s h = elim (take_run-short 8 is_hex s h) [
  | inl e ↦ rw (append.cons, append.nil, e) refl
  | inr (run, e) ↦ rw (append.cons, append.nil, e) refl
]

drop_dashes-digits :
    (s : String) → all_of is_digit s ≡ true → is_empty s ≡ false → drop_dashes ("-" ++ s) ≡ s
unfolding drop_dashes is_digit all_of drop_dash
drop_dashes-digits String.[] h k = absurd (ground (arith, k))
drop_dashes-digits (String.◌∷◌ c s) h k = rw (append.cons, append.nil) (ground (arith, h))

-- The tail of a name whose identifier has eight characters.
pub linux_tail-append :
    (id s : String)
    → all_of is_hex id ≡ true
    → length_of id ≡ 8
    → all_of is_digit s ≡ true
    → is_empty s ≡ false
    → linux_tail ("-" ++ (id ++ ("-" ++ s))) ≡ some (id, s)
unfolding linux_tail
linux_tail-append id s hex eight digits filled =
    rw
      (
        append.cons,
        append.nil,
        take_run-append 8 is_hex id ("-" ++ s) hex eight,
        drop_dashes-digits s digits filled,
      )
      (ground (arith, digits, filled))

-- No tail starts behind any character of a text.
abbrev NoTail : String → Type 0
NoTail String.[] = Unit
NoTail (String.◌∷◌ c s) = (linux_tail s ≡ none) × NoTail s

pool_before-NoTail : (s : String) → NoTail s → pool_before linux_tail s ≡ none
unfolding pool_before
pool_before-NoTail String.[] h = refl
pool_before-NoTail (String.◌∷◌ c s) h = ground (arith, pool_before-NoTail s h.1, h.0)

linux_tail-digits : (s : String) → all_of is_hex s ≡ true → linux_tail s ≡ none
unfolding all_of
linux_tail-digits String.[] h = unfold linux_tail in refl
linux_tail-digits (String.◌∷◌ c s) h = linux_tail-not_dash c s (dash-not-hex c (ground (arith, h)))

NoTail-digits : (s : String) → all_of is_hex s ≡ true → NoTail s
unfolding all_of
NoTail-digits String.[] h = tt
NoTail-digits (String.◌∷◌ c s) h =
    (linux_tail-digits s (ground (arith, h)), NoTail-digits s (ground (arith, h)))

linux_tail-hex_append :
    (x s : String) → all_of is_hex x ≡ true → length_of s ≤ 8 → linux_tail (x ++ ("-" ++ s)) ≡ none
unfolding all_of
linux_tail-hex_append String.[] s h le = rw append.nil (linux_tail-short s le)
linux_tail-hex_append (String.◌∷◌ c x) s h le =
    rw append.cons (linux_tail-not_dash c (x ++ ("-" ++ s)) (dash-not-hex c (ground (arith, h))))

NoTail-append :
    (x s : String)
    → all_of is_hex x ≡ true
    → all_of is_digit s ≡ true
    → length_of s ≤ 8
    → NoTail (x ++ ("-" ++ s))
unfolding all_of
NoTail-append String.[] s h digits le =
    rw (append.nil, append.cons, append.nil)
      (linux_tail-digits s (all_digits-hex s digits), NoTail-digits s (all_digits-hex s digits))
NoTail-append (String.◌∷◌ c x) s h digits le = rw append.cons (
  linux_tail-hex_append x s (ground (arith, h)) le,
  NoTail-append x s (ground (arith, h)) digits le,
)

-- Behind the dash of the right tail there is no other.
pool_before-dash :
    (id s : String)
    → all_of is_hex id ≡ true
    → all_of is_digit s ≡ true
    → length_of s ≤ 8
    → pool_before linux_tail ("-" ++ (id ++ ("-" ++ s))) ≡ none
pool_before-dash id s hex digits le =
    let behind = id ++ ("-" ++ s) in
    let none_behind : NoTail ("-" ++ behind) =
      rw (append.cons "-" "" behind, append.nil behind)
        (linux_tail-hex_append id s hex le, NoTail-append id s hex digits le) in
    pool_before-NoTail ("-" ++ behind) none_behind

abbrev pub no_newline : String → Bool
no_newline String.[] = true
no_newline (String.◌∷◌ c s) = not (nat_beq (code c) 10) && no_newline s

-- The greedy group takes exactly the pool, if the index has at most eight digits.
pub pool_before-append :
    (pool id s : String)
    → is_empty pool ≡ false
    → no_newline pool ≡ true
    → all_of is_hex id ≡ true
    → length_of id ≡ 8
    → all_of is_digit s ≡ true
    → is_empty s ≡ false
    → length_of s ≤ 8
    → pool_before linux_tail (pool ++ ("-" ++ (id ++ ("-" ++ s)))) ≡ some (pool, id, s)
unfolding pool_before
pool_before-append String.[] id s named line hex eight digits filled le =
    absurd (ground (arith, named))
pool_before-append (String.◌∷◌ c String.[]) id s named line hex eight digits filled le =
    rw (append.cons, append.nil)
      (ground (
        arith,
        line,
        pool_before-dash id s hex digits le,
        linux_tail-append id s hex eight digits filled,
      ))
pool_before-append (String.◌∷◌ c (String.◌∷◌ d pool)) id s named line hex eight digits filled le =
    rw append.cons (
      ground (
        arith,
        line,
        pool_before-append (String.◌∷◌ d pool) id s refl (ground (arith, line)) hex eight digits
            filled le,
      ))
