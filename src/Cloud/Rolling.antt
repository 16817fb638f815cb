-- ===== src/Cloud/Rolling.antt =====
-- Actions that replace machines one at a time: how many are missing, wherever such an action ends.
use aks_engine.Common.{ℕ, ◌+◌, ◌≤◌, ◌≡◌, refl, Bool, true, false, arith, Result, ok, err}
use mathlib.Core.Path.{subst}
use aks_engine.Cloud.{History}
use aks_engine.Cloud.Actions.{Failure, Action, pure, fail, when◌take◌otherwise◌, and_then, ◌>>=◌}
use aks_engine.Cloud.Counts.{deleted, created, Quiet}
use aks_engine.Cloud.Effects.{Effect, succeeds}

-- What a rolling replacement keeps. With `owed` machines missing before and `left` behind it if it
-- succeeds, never more than one is missing, wherever it ends.
abbrev pub Steady : {A : Type 0} → ℕ → ℕ → History → Result Failure A × History → Type 0
Steady owed left h r =
    (deleted r.1 + created h + owed ≤ created r.1 + deleted h + 1)
    × (succeeds r ≡ true → deleted r.1 + created h + owed ≤ created r.1 + deleted h + left)

pub record Rolling {A : Type 0} (owed left : ℕ) (m : Action A) : Type 0 where
  pub at : (h : History) → Steady owed left h (m h)

module _ {A : Type 0} where
  pub Rolling-Quiet : (owed : ℕ) (m : Action A) → owed ≤ 1 → Quiet m → Rolling owed owed m
  Rolling-Quiet owed m le q = record { at = λ h. ground (arith, q.at h) }

  pub Rolling-delete : (m : Action A) → Effect 1 0 1 m → Rolling 0 1 m
  Rolling-delete m e = record { at = λ h. ground (arith, e.at h) }

  pub Rolling-create : (m : Action A) → Effect 0 1 0 m → Rolling 1 0 m
  Rolling-create m e = record { at = λ h. ground (arith, e.at h) }

  -- An extra machine is made while none is missing.
  pub Rolling-extra : (m : Action A) → Effect 0 1 0 m → Rolling 0 0 m
  Rolling-extra m e = record { at = λ h. ground (arith, e.at h) }

  pub Rolling-validate : (m : Action A) → Effect 0 0 1 m → Rolling 0 0 m
  Rolling-validate m e = record { at = λ h. ground (arith, e.at h) }

  pub Rolling-fail : (owed left : ℕ) (e : Failure) → owed ≤ 1 → Rolling {A = A} owed left (fail e)
  unfolding fail
  Rolling-fail owed left e le = record { at = λ h. ground (arith, le) }

  pub Rolling-when :
      (owed left : ℕ) (b : Bool) (m n : Action A)
      → Rolling owed left m
      → Rolling owed left n
      → Rolling owed left (when b take m otherwise n)
  unfolding when◌take◌otherwise◌
  Rolling-when owed left true m n p q = p
  Rolling-when owed left false m n p q = q

  pub Rolling-weaken :
      (owed owed' left left' : ℕ) (m : Action A)
      → owed' ≤ owed
      → left ≤ left'
      → Rolling owed left m
      → Rolling owed' left' m
  Rolling-weaken owed owed' left left' m lo le r = record { at = λ h. ground (arith, r.at h) }

-- What holds of the value that an action returns.
pub record Returns {A : Type 0} (P : A → Type 0) (m : Action A) : Type 0 where
  pub at : (h : History) (a : A) → (m h).0 ≡ ok a → P a

module _ {A B : Type 0} (P : A → Type 0) (owed mid left : ℕ) where
  Steady-returned :
      (h : History) (r : Result Failure A × History) (f : A → Action B)
      → Steady owed mid h r
      → ((a : A) → r.0 ≡ ok a → P a)
      → ((a : A) → P a → Rolling mid left (f a))
      → Steady owed left h (and_then r f fail)
  unfolding fail
  Steady-returned h (ok a, h') f w p e = ground (arith, w, (e a (p a refl)).at h')
  Steady-returned h (err x, h') f w p e = ground (arith, w)

  -- `Rolling-bind`, where the first action tells something of its value.
  pub Rolling-returned :
      (m : Action A) (f : A → Action B)
      → Rolling owed mid m
      → Returns P m
      → ((a : A) → P a → Rolling mid left (f a))
      → Rolling owed left (m >>= f)
  unfolding ◌>>=◌
  Rolling-returned m f p r q = record { at = λ h. Steady-returned h (m h) f (p.at h) (r.at h) q }

pub Returns-pure : {A : Type 0} (P : A → Type 0) (a : A) → P a → Returns P (pure a)
unfolding pure
Returns-pure P a p = record { at = λ h c e. subst P (cc e) p }

pub Returns-weaken :
    {A : Type 0} (P Q : A → Type 0) (m : Action A)
    → ((a : A) → P a → Q a)
    → Returns P m
    → Returns Q m
Returns-weaken P Q m f r = record { at = λ h a e. f a (r.at h a e) }

Returns-failed :
    {B : Type 0} (P : B → Type 0) (x : Failure) (h : History) (b : B)
    → (fail {A = B} x h).0 ≡ ok b
    → P b
unfolding fail
Returns-failed P x h b e = cc e

module _ {A B : Type 0} (P : B → Type 0) where
  pub Returns-bind :
      (m : Action A) (f : A → Action B) → ((a : A) → Returns P (f a)) → Returns P (m >>= f)
  unfolding ◌>>=◌
  Returns-bind m f q = record { at = λ h. returned (m h) }
    where
      returned : (r : Result Failure A × History) (b : B) → (and_then r f fail).0 ≡ ok b → P b
      returned (ok a, h') b e = (q a).at h' b e
      returned (err x, h') b e = Returns-failed P x h' b e

module _ {A B : Type 0} (owed mid left : ℕ) where
  Steady-and_then :
      (h : History) (r : Result Failure A × History) (f : A → Action B)
      → Steady owed mid h r
      → ((a : A) → Rolling mid left (f a))
      → Steady owed left h (and_then r f fail)
  unfolding fail
  Steady-and_then h (ok a, h') f w e = ground (arith, w, (e a).at h')
  Steady-and_then h (err x, h') f w e = ground (arith, w)

  pub Rolling-bind :
      (m : Action A) (f : A → Action B)
      → Rolling owed mid m
      → ((a : A) → Rolling mid left (f a))
      → Rolling owed left (m >>= f)
  unfolding ◌>>=◌
  Rolling-bind m f p q = record { at = λ h. Steady-and_then h (m h) f (p.at h) q }
