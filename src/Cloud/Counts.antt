-- ===== src/Cloud/Counts.antt =====
-- How many machines a history of calls deletes and makes, and which actions do neither.
use aks_engine.Common.{ℕ, ◌+◌, ◌≡◌, refl, ◌∙◌, Bool, true, false, [], ◌∷◌, arith, Result, ok, err}
use aks_engine.Cloud.{
  Call, delete_vm, deploy_master, deploy_agent, delete_scale_set_vm, History, Reply,
}
use aks_engine.Cloud.Actions.{
  Failure, Action, pure, fail, request, with_history, recover, when◌take◌otherwise◌, and_then,
  ◌>>=◌,
}

-- Calls that delete a machine, calls that make one, and all others.
pub data Kind : Type 0 where
  deletes creates neither : Kind

abbrev pub kind : Call → Kind
kind (delete_vm name) = deletes
kind (delete_scale_set_vm vmss id) = deletes
kind (deploy_master offset count) = creates
kind (deploy_agent pool count offset) = creates
kind _ = neither

abbrev deletion : Kind → ℕ
deletion deletes = 1
deletion _ = 0

abbrev creation : Kind → ℕ
creation creates = 1
creation _ = 0

abbrev pub deleted : History → ℕ
deleted [] = 0
deleted (c ∷ h) = deleted h + deletion (kind c)

abbrev pub created : History → ℕ
created [] = 0
created (c ∷ h) = created h + creation (kind c)

-- An action that, returning or failing, deletes and makes nothing.
pub record Quiet {A : Type 0} (m : Action A) : Type 0 where
  pub at : (h : History) → (deleted (m h).1 ≡ deleted h) × (created (m h).1 ≡ created h)

module _ {A : Type 0} where
  pub Quiet-pure : (a : A) → Quiet (pure a)
  unfolding pure
  Quiet-pure a = record { at = λ h. (refl, refl) }

  pub Quiet-fail : (e : Failure) → Quiet {A = A} (fail e)
  unfolding fail
  Quiet-fail e = record { at = λ h. (refl, refl) }

  pub Quiet-request :
      (c : Call) (answer : History → Reply A) → kind c ≡ neither → Quiet (request c answer)
  unfolding request
  Quiet-request c answer e = record { at = λ h. (ground (arith, e), ground (arith, e)) }

  pub Quiet-with_history :
      (f : History → Action A) → ((h : History) → Quiet (f h)) → Quiet (with_history f)
  unfolding with_history
  Quiet-with_history f q = record { at = λ h. (q h).at h }

  pub Quiet-when :
      (b : Bool) (m n : Action A) → Quiet m → Quiet n → Quiet (when b take m otherwise n)
  unfolding when◌take◌otherwise◌
  Quiet-when true m n p q = p
  Quiet-when false m n p q = q

module _ {A B : Type 0} where
  Quiet-and_then :
      (r : Result Failure A) (h h' : History) (f : A → Action B) (g : Failure → Action B)
      → (deleted h' ≡ deleted h) × (created h' ≡ created h)
      → ((a : A) → Quiet (f a))
      → ((e : Failure) → Quiet (g e))
      → (deleted (and_then (r, h') f g).1 ≡ deleted h)
        × (created (and_then (r, h') f g).1 ≡ created h)
  Quiet-and_then (ok a) h h' f g p q r = (((q a).at h').0 ∙ p.0, ((q a).at h').1 ∙ p.1)
  Quiet-and_then (err e) h h' f g p q r = (((r e).at h').0 ∙ p.0, ((r e).at h').1 ∙ p.1)

  pub Quiet-recover :
      (m : Action A) (f : A → Action B) (g : Failure → Action B)
      → Quiet m
      → ((a : A) → Quiet (f a))
      → ((e : Failure) → Quiet (g e))
      → Quiet (recover m f g)
  unfolding recover
  Quiet-recover m f g p q r = record { at = λ h. Quiet-and_then (m h).0 h (m h).1 f g (p.at h) q r }

  pub Quiet-bind :
      (m : Action A) (f : A → Action B) → Quiet m → ((a : A) → Quiet (f a)) → Quiet (m >>= f)
  unfolding ◌>>=◌
  Quiet-bind m f p q = Quiet-recover m f fail p q (λ e. unfold fail in Quiet-fail e)

pub ruleset quiet_rules = (
  Quiet-pure, Quiet-fail, Quiet-request, Quiet-with_history, Quiet-when, Quiet-recover, Quiet-bind,
)
