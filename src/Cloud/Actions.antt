-- ===== src/Cloud/Actions.antt =====
-- Actions: Go functions that make calls and may return an error. The history of calls is kept
-- beside the error too. The errors are the program's own, by their format strings, and those of
-- calls.
use aks_engine.Common.{Bool, true, false, String, ℕ, ◌≡◌, ap, ◌∷◌, Result, ok, err}
use aks_engine.OrchestratorData.{OrchestratorError}
use aks_engine.Cloud.{ApiError, Call, History, Reply}

pub data Failure : Type 0 where
  api : ApiError → Failure
  empty_vm_name : Failure
  no_os_disk : Failure
  no_resource_name : Failure
  bad_blob_uri : Failure
  node_not_ready : Failure
  too_many_masters : ℕ → ℕ → Failure
  no_vm_name : Failure
  copy_timeout : Failure
  no_last_vm : String → Failure
  cannot_upgrade : String → String → Failure
  no_upgrade_info : OrchestratorError → Failure  -- the error of GetOrchestratorVersionProfile
  no_client : Failure
  panic : Failure

abbrev pub Action : Type 0 → Type 0
Action A = History → Result Failure A × History

abbrev pub reply_result : {A : Type 0} → Reply A → Result Failure A
reply_result (ok a) = ok a
reply_result (err e) = err (api e)

abbrev pub and_then :
    {A B : Type 0}
    → Result Failure A × History
    → (A → Action B)
    → (Failure → Action B)
    → Result Failure B × History
and_then (ok a, h) f g = f a h
and_then (err e, h) f g = g e h

module _ {A : Type 0} where
  unfoldable pub pure : A → Action A
  pure a h = (ok a, h)

  unfoldable pub fail : Failure → Action A
  fail e h = (err e, h)

  -- One call, with its answer, which is taken at the history that ends in the call.
  unfoldable pub request : Call → (History → Reply A) → Action A
  request c answer h = (reply_result (answer (c ∷ h)), c ∷ h)

  -- What depends on the calls made so far.
  unfoldable pub with_history : (History → Action A) → Action A
  with_history f h = f h h

  -- `if` between actions, shut so that a rule about it can be applied.
  infix 1 when◌take◌otherwise◌
  unfoldable pub when◌take◌otherwise◌ : Bool → Action A → Action A → Action A
  when true take m otherwise n = m
  when false take m otherwise n = n

  pub when-true : (b : Bool) (m n : Action A) → b ≡ true → (when b take m otherwise n) ≡ m
  unfolding when◌take◌otherwise◌
  when-true b m n e = cc e

  pub when-false : (b : Bool) (m n : Action A) → b ≡ false → (when b take m otherwise n) ≡ n
  unfolding when◌take◌otherwise◌
  when-false b m n e = cc e

module _ {A B : Type 0} where
  -- `if err != nil { g } else { f }`
  unfoldable pub recover : Action A → (A → Action B) → (Failure → Action B) → Action B
  recover m f g h = and_then (m h) f g

  -- Opening this opens the other ways to build an action too.
  infixl 5 ◌>>=◌
  unfoldable pub ◌>>=◌ : Action A → (A → Action B) → Action B
  unfolding pure fail request with_history recover when◌take◌otherwise◌
  ◌>>=◌ m f = recover m f fail

module _ {A B : Type 0} (m : Action A) (f : A → Action B) (h h' : History) where
  -- A failing action is all that is run.
  pub bind_err : (e : Failure) → m h ≡ (err e, h') → (m >>= f) h ≡ (err e, h')
  unfolding ◌>>=◌
  bind_err e q = ap (λ r. and_then r f fail) q

  pub bind_ok : (a : A) → m h ≡ (ok a, h') → (m >>= f) h ≡ f a h'
  unfolding ◌>>=◌
  bind_ok a q = ap (λ r. and_then r f fail) q

-- A successful action, taken apart.
pub bind_succeeded :
    {A B : Type 0} (m : Action A) (f : A → Action B) (h h' : History) (b : B)
    → (m >>= f) h ≡ (ok b, h')
    → (a : A) × (h₁ : History) × (m h ≡ (ok a, h₁)) × (f a h₁ ≡ (ok b, h'))
unfolding ◌>>=◌ fail
bind_succeeded {A} {B} m f h h' b e = apart (m h) (λ i. m h) e
  where
    apart :
        (r : Result Failure A × History)
        → m h ≡ r
        → and_then r f fail ≡ (ok b, h')
        → (a : A) × (h₁ : History) × (m h ≡ (ok a, h₁)) × (f a h₁ ≡ (ok b, h'))
    apart (ok a, h₁) q e = (a, h₁, q, e)
    apart (err x, h₁) q e = absurd (cc e)

infixl 5 ◌>>◌
abbrev pub ◌>>◌ : {B : Type 0} → Action (Unit {0}) → Action B → Action B
m >> k = m >>= λ _. k

-- `err` is only logged, and the function goes on.
abbrev pub ignore : {A : Type 0} → Action A → Action (Unit {0})
ignore m = recover m (λ _. pure tt) (λ _. pure tt)
