-- ===== src/Cloud/Effects.antt =====
-- How many machines an action deletes and makes, exactly if it succeeds, and at most if it fails.
use aks_engine.Common.{ℕ, ◌+◌, ◌≤◌, ◌≡◌, Bool, true, false, arith, Result, ok, err}
use mathlib.Core.Path.{subst}
use aks_engine.Cloud.{History}
use aks_engine.Cloud.Actions.{
  Failure, Action, pure, fail, request, when◌take◌otherwise◌, ignore, and_then, ◌>>=◌,
}
use aks_engine.Cloud.{Call, Reply}
use aks_engine.Cloud.Counts.{kind, deletes, creates, deleted, created, Quiet}

abbrev pub succeeds : {A : Type 0} → Result Failure A × History → Bool
succeeds (ok a, h) = true
succeeds (err e, h) = false

-- The counts after a run, from the counts before it: `dels` deletions and `made` creations if it
-- succeeds; in any case no more than `top` deletions and `made` creations.
abbrev pub Within : {A : Type 0} → ℕ → ℕ → ℕ → History → Result Failure A × History → Type 0
Within dels made top h r =
    (deleted h ≤ deleted r.1)
    × (deleted r.1 ≤ deleted h + top)
    × (created h ≤ created r.1)
    × (created r.1 ≤ created h + made)
    × (succeeds r ≡ true → deleted r.1 ≡ deleted h + dels)
    × (succeeds r ≡ true → created r.1 ≡ created h + made)

pub record Effect {A : Type 0} (dels made top : ℕ) (m : Action A) : Type 0 where
  pub at : (h : History) → Within dels made top h (m h)

module _ {A : Type 0} where
  pub Effect-Quiet : (m : Action A) → Quiet m → Effect 0 0 0 m
  Effect-Quiet m q = record { at = λ h. ground (arith, q.at h) }

  pub Effect-weaken :
      (dels made top top' : ℕ) (m : Action A)
      → top ≤ top'
      → Effect dels made top m
      → Effect dels made top' m
  Effect-weaken dels made top top' m le e = record { at = λ h. ground (arith, e.at h) }

  pub Effect-fail : (dels made top : ℕ) (e : Failure) → Effect {A = A} dels made top (fail e)
  unfolding fail
  Effect-fail dels made top e = record { at = λ h. ground arith }

  pub Effect-when :
      (dels made top : ℕ) (b : Bool) (m n : Action A)
      → Effect dels made top m
      → Effect dels made top n
      → Effect dels made top (when b take m otherwise n)
  unfolding when◌take◌otherwise◌
  Effect-when dels made top true m n p q = p
  Effect-when dels made top false m n p q = q

  pub Effect-delete :
      (c : Call) (answer : History → Reply A) → kind c ≡ deletes → Effect 1 0 1 (request c answer)
  unfolding request
  Effect-delete c answer e = record { at = λ h. ground (arith, e) }

  pub Effect-create :
      (c : Call) (answer : History → Reply A) → kind c ≡ creates → Effect 0 1 0 (request c answer)
  unfolding request
  Effect-create c answer e = record { at = λ h. ground (arith, e) }

module _ {A B : Type 0} (d₁ c₁ t₁ d₂ c₂ t₂ top : ℕ) where
  Within-and_then :
      (h : History) (r : Result Failure A × History) (f : A → Action B)
      → t₁ ≤ top
      → d₁ + t₂ ≤ top
      → Within d₁ c₁ t₁ h r
      → ((a : A) → Effect d₂ c₂ t₂ (f a))
      → Within (d₁ + d₂) (c₁ + c₂) top h (and_then r f fail)
  unfolding fail
  Within-and_then h (ok a, h') f le le' w e = ground (arith, w, (e a).at h')
  Within-and_then h (err x, h') f le le' w e = ground (arith, w)

  pub Effect-bind :
      (m : Action A) (f : A → Action B)
      → t₁ ≤ top
      → d₁ + t₂ ≤ top
      → Effect d₁ c₁ t₁ m
      → ((a : A) → Effect d₂ c₂ t₂ (f a))
      → Effect (d₁ + d₂) (c₁ + c₂) top (m >>= f)
  unfolding ◌>>=◌
  Effect-bind m f le le' p q = record { at = λ h. Within-and_then h (m h) f le le' (p.at h) q }

module _ {A B : Type 0} (d₁ c₁ t₁ d₂ c₂ t₂ dels made top : ℕ) where
  -- `Effect-bind`, with the sums worked out.
  pub Effect-sum :
      (m : Action A) (f : A → Action B)
      → (t₁ ≤ top) × (d₁ + t₂ ≤ top) × (d₁ + d₂ ≡ dels) × (c₁ + c₂ ≡ made)
      → Effect d₁ c₁ t₁ m
      → ((a : A) → Effect d₂ c₂ t₂ (f a))
      → Effect dels made top (m >>= f)
  Effect-sum m f (le, le', d, c) p q =
      subst (λ n. Effect n made top (m >>= f)) d
        (subst (λ n. Effect (d₁ + d₂) n top (m >>= f)) c
          (Effect-bind d₁ c₁ t₁ d₂ c₂ t₂ top m f le le' p q))

module _ {A : Type 0} where
  -- A clean-up whose error is dropped, behind which the action fails in any case.
  pub Effect-ignore-fail :
      (dels made top : ℕ) (e : Failure) (m : Action A)
      → Effect dels 0 top m
      → Effect {A = Unit {0}} 0 made top (ignore m >>= λ _. fail e)
  unfolding ◌>>=◌
  Effect-ignore-fail dels made top e m p = record { at = λ h. after h (m h) (p.at h) }
    where
      after :
          (h : History) (r : Result Failure A × History)
          → Within dels 0 top h r
          → Within {A = Unit {0}} 0 made top h
              (and_then (and_then r (λ _. pure tt) (λ _. pure tt)) (λ _. fail e) fail)
      after h (ok a, h') w = ground (arith, w)
      after h (err x, h') w = ground (arith, w)
