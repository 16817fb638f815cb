-- ===== src/Transform/Removal/Indexes.antt =====
-- Lists of indexes to remove that grow by one index at a time, which need not come last.
use aks_engine.Common.{
  ℕ, suc, ◌≤◌, ◌<◌, ◌≡◌, refl, Bool, true, false, ◌&&◌, ◌||◌, List, [], ◌∷◌, ◌++◌, elem,
  elem-append, All, IsDistinct, ◌⊎◌, inl, inr, ◌==◌, nat_eq, arith,
}

-- Noting a resource puts its index among those to remove, or leaves them as they are.
pub record Inserts (index : ℕ) (before after : List ℕ) : Type 0 where
  pub front : List ℕ
  pub back : List ℕ
  pub before_is : before ≡ front ++ back
  pub after_is : after ≡ front ++ index ∷ back

unfoldable pub Noted : ℕ → Bool → List ℕ → List ℕ → Type 0
Noted index unwanted before after =
    ((unwanted ≡ true) × Inserts index before after) ⊎ ((unwanted ≡ false) × (after ≡ before))

-- Distinct indexes below a bound.
pub record Fresh (bound : ℕ) (is : List ℕ) : Type 0 where
  pub distinct : IsDistinct is
  pub below : All (λ i. i < bound) is

elem-insert : (i j : ℕ) (xs ys : List ℕ) → elem j (xs ++ i ∷ ys) ≡ (elem j (xs ++ ys) || j == i)
elem-insert i j xs ys = ground (arith, elem-append j xs (i ∷ ys), elem-append j xs ys)

IsDistinct-insert :
    (i : ℕ) (xs ys : List ℕ)
    → IsDistinct (xs ++ ys)
    → elem i (xs ++ ys) ≡ false
    → IsDistinct (xs ++ i ∷ ys)
IsDistinct-insert i [] ys d e = (e, d)
IsDistinct-insert i (x ∷ xs) ys d e = (
  ground (arith, elem-insert i x xs ys, d.0, e),
  IsDistinct-insert i xs ys d.1 (ground (arith, e)),
)

All-insert :
    (i n : ℕ) (xs ys : List ℕ)
    → i < n
    → All (λ j. j < n) (xs ++ ys)
    → All (λ j. j < n) (xs ++ i ∷ ys)
All-insert i n [] ys h k = (h, k)
All-insert i n (x ∷ xs) ys h k = (k.0, All-insert i n xs ys h k.1)

pub elem-below : (j n : ℕ) (is : List ℕ) → n ≤ j → All (λ i. i < n) is → elem j is ≡ false
elem-below j n [] le h = refl
elem-below j n (i ∷ is) le h = ground (arith, elem-below j n is le h.1, h.0)

All-below_suc : (n : ℕ) (is : List ℕ) → All (λ i. i < n) is → All (λ i. i < suc n) is
All-below_suc n [] h = tt
All-below_suc n (i ∷ is) h = (omega arith, All-below_suc n is h.1)

pub Noted-Fresh :
    (index : ℕ) (unwanted : Bool) (before after : List ℕ)
    → Noted index unwanted before after
    → Fresh index before
    → Fresh (suc index) after
unfolding Noted
Noted-Fresh index unwanted before after (inl (u, ins)) fresh = rw ins.after_is record {
  distinct =
      IsDistinct-insert index ins.front ins.back (rw ins.before_is at fresh.distinct)
        (rw ins.before_is at (elem-below index index before (omega arith) fresh.below));
  below =
      All-insert index (suc index) ins.front ins.back (omega arith)
        (rw ins.before_is at (All-below_suc index before fresh.below));
}
Noted-Fresh index unwanted before after (inr (u, same)) fresh =
    rw same record { distinct = fresh.distinct; below = All-below_suc index before fresh.below }

pub Noted-elem :
    (index j : ℕ) (unwanted : Bool) (before after : List ℕ)
    → Noted index unwanted before after
    → elem j after ≡ (elem j before || (j == index && unwanted))
unfolding Noted
Noted-elem index j unwanted before after (inl (u, ins)) =
    rw (ins.after_is, ins.before_is, u) (ground (arith, elem-insert index j ins.front ins.back))
Noted-elem index j unwanted before after (inr (u, same)) = rw (same, u) (ground arith)
