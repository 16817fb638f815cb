-- ===== src/Upgrade/Autoscaler/Resumed.antt =====
-- The autoscaler is paused before the upgrade and set back after it: what `UpgradeCluster` promises,
-- by the tries that fail and the one that succeeds.
use aks_engine.Common.{
  ℕ, zero, suc, ◌<◌, ◌≡◌, refl, ap, ◌∙◌, Bool, true, false, ◌∷◌, arith, Result, ok, err,
}
use aks_engine.Cloud.{ApiError, Env, History, Reply, get_autoscaler, update_autoscaler}
use aks_engine.Cloud.Actions.{
  Failure, no_client, Action, pure, fail, request, reply_result, when◌take◌otherwise◌, recover,
  ignore, and_then, ◌>>=◌,
}
use aks_engine.Upgrade.Autoscaler.{
  attempts, set_cluster_autoscaler_replica_count, autoscaler_retries, deferred, while_paused,
}

-- Without a client there is no try.
abbrev pub tries_with : Bool → ℕ
tries_with true = autoscaler_retries
tries_with false = 0

module _ (env : Env) where
  -- So many tries in a row, each of which fails to read the replicas or to write `n`, with the calls
  -- before and after them.
  pub data Failing (n : ℕ) : ℕ → History → History → Type 0 where
    over : {h : History} → Failing n zero h h
    unread :
        {k : ℕ} {h h' : History} (e : ApiError)
        → env.autoscaler_replicas (get_autoscaler ∷ h) ≡ err e
        → Failing n k (get_autoscaler ∷ h) h'
        → Failing n (suc k) h h'
    unwritten :
        {k : ℕ} {h h' : History} (count : ℕ) (e : ApiError)
        → env.autoscaler_replicas (get_autoscaler ∷ h) ≡ ok count
        → env.answer (update_autoscaler n ∷ get_autoscaler ∷ h) ≡ err e
        → Failing n k (update_autoscaler n ∷ get_autoscaler ∷ h) h'
        → Failing n (suc k) h h'

  -- Behind fewer than `tries` failing tries, the replicas are read as `count` and written as `n`.
  pub record Scaled (n count tries : ℕ) (h h' : History) : Type 0 where
    pub failed : ℕ
    pub before : History
    pub in_time : failed < tries
    pub failures : Failing n failed h before
    pub read : env.autoscaler_replicas (get_autoscaler ∷ before) ≡ ok count
    pub written : env.answer (update_autoscaler n ∷ get_autoscaler ∷ before) ≡ ok tt
    pub ends : h' ≡ update_autoscaler n ∷ get_autoscaler ∷ before

  -- What setting the replicas to `n` ends with, with so many tries.
  data Tried (n tries : ℕ) (h : History) (r : Result Failure ℕ × History) : Type 0 where
    scaled :
        (count : ℕ) (h' : History)
        → Scaled n count tries h h'
        → r ≡ (ok count, h')
        → Tried n tries h r
    exhausted :
        (e : Failure) (h' : History) → Failing n tries h h' → r ≡ (err e, h') → Tried n tries h r

  Tried-unread :
      (n k : ℕ) (h : History) (r : Result Failure ℕ × History) (e : ApiError)
      → env.autoscaler_replicas (get_autoscaler ∷ h) ≡ err e
      → Tried n k (get_autoscaler ∷ h) r
      → Tried n (suc k) h r
  Tried-unread n k h r e no_count (scaled count h' s q) =
      let later : Scaled n count (suc k) h h' = record {
        failed = suc s.failed;
        before = s.before;
        in_time = omega (arith, s.in_time);
        failures = unread e no_count s.failures;
        read = s.read;
        written = s.written;
        ends = s.ends;
      } in
      scaled count h' later q
  Tried-unread n k h r e no_count (exhausted x h' f q) = exhausted x h' (unread e no_count f) q

  Tried-unwritten :
      (n k : ℕ) (h : History) (r : Result Failure ℕ × History) (found : ℕ) (e : ApiError)
      → env.autoscaler_replicas (get_autoscaler ∷ h) ≡ ok found
      → env.answer (update_autoscaler n ∷ get_autoscaler ∷ h) ≡ err e
      → Tried n k (update_autoscaler n ∷ get_autoscaler ∷ h) r
      → Tried n (suc k) h r
  Tried-unwritten n k h r found e read no_write (scaled count h' s q) =
      let later : Scaled n count (suc k) h h' = record {
        failed = suc s.failed;
        before = s.before;
        in_time = omega (arith, s.in_time);
        failures = unwritten found e read no_write s.failures;
        read = s.read;
        written = s.written;
        ends = s.ends;
      } in
      scaled count h' later q
  Tried-unwritten n k h r found e read no_write (exhausted x h' f q) =
      exhausted x h' (unwritten found e read no_write f) q

  -- The first try, by the answers to its two calls, with the tries behind it.
  by_write :
      (n k count : ℕ) (h : History) (u : Reply (Unit {0}))
      → env.autoscaler_replicas (get_autoscaler ∷ h) ≡ ok count
      → env.answer (update_autoscaler n ∷ get_autoscaler ∷ h) ≡ u
      → ((x : Failure) (h₁ : History) → Tried n k h₁ (attempts env n k x h₁))
      → Tried n (suc k) h (
          and_then
            (and_then
              (reply_result u, update_autoscaler n ∷ get_autoscaler ∷ h)
              (λ _. pure count)
              fail)
            pure
            (attempts env n k))
  unfolding pure fail
  by_write n k count h (ok _) read written more =
      let once : Scaled n count (suc k) h (update_autoscaler n ∷ get_autoscaler ∷ h) = record {
        failed = 0;
        before = h;
        in_time = omega arith;
        failures = over;
        read = read;
        written = written;
        ends = refl;
      } in
      scaled count (update_autoscaler n ∷ get_autoscaler ∷ h) once refl
  by_write n k count h (err e) read written more =
      Tried-unwritten n k h _ count e read written (more _ _)

  by_read :
      (n k : ℕ) (h : History) (g : Reply ℕ)
      → env.autoscaler_replicas (get_autoscaler ∷ h) ≡ g
      → ((x : Failure) (h₁ : History) → Tried n k h₁ (attempts env n k x h₁))
      → Tried n (suc k) h (
          and_then
            (and_then
              (reply_result g, get_autoscaler ∷ h)
              (λ count. request (update_autoscaler n) env.answer >>= λ _. pure count)
              fail)
            pure
            (attempts env n k))
  unfolding ◌>>=◌
  by_read n k h (ok count) read more = by_write n k count h _ read refl more
  by_read n k h (err e) read more = Tried-unread n k h _ e read (more _ _)

  attempts-Tried :
      (n tries : ℕ) (last : Failure) (h : History) → Tried n tries h (attempts env n tries last h)
  unfolding attempts ◌>>=◌
  attempts-Tried n zero last h = exhausted last h over refl
  attempts-Tried n (suc tries) last h =
      by_read n tries h _ refl (λ x h₁. attempts-Tried n tries x h₁)

  set-Tried :
      (n : ℕ) (has_client : Bool) (h : History)
      → Tried n (tries_with has_client) h (set_cluster_autoscaler_replica_count env n has_client h)
  unfolding set_cluster_autoscaler_replica_count when◌take◌otherwise◌ fail
  set-Tried n true h = attempts-Tried n autoscaler_retries no_client h
  set-Tried n false h = exhausted no_client h over refl

resumed_with :
    (s : Result Failure ℕ × History) (a : Result Failure (Unit {0}))
    → and_then (and_then s (λ _. pure tt) (λ _. pure tt)) (λ _. λ h. (a, h)) fail ≡ (a, s.1)
unfolding pure
resumed_with (ok n, h) a = refl
resumed_with (err x, h) a = refl

resumed :
    (r : Result Failure (Unit {0}) × History) (k : Action ℕ)
    → and_then r (λ a. ignore k >>= λ _. pure a) (λ e. ignore k >>= λ _. fail e) ≡ (r.0, (k r.1).1)
unfolding ◌>>=◌
resumed (ok a, h) k = resumed_with (k h) (ok a)
resumed (err x, h) k = resumed_with (k h) (err x)

module _ (env : Env) (force has_client : Bool) (run : Action (Unit {0})) (h : History) where
  -- How an upgrade ends during which the autoscaler is to be paused. In the first two cases it was
  -- paused, and `count` is what the try that paused it had read.
  pub data Outcome (r : Result Failure (Unit {0}) × History) : Type 0 where
    restored :
        (count found : ℕ) (paused last : History)
        → Scaled env 0 count (tries_with has_client) h paused
        → Scaled env count found (tries_with has_client) (run paused).1 last
        → r ≡ ((run paused).0, last)
        → Outcome r
    left_paused :
        (count : ℕ) (paused last : History)
        → Scaled env 0 count (tries_with has_client) h paused
        → Failing env count (tries_with has_client) (run paused).1 last
        → r ≡ ((run paused).0, last)
        → Outcome r
    forced :
        (before : History)
        → force ≡ true
        → Failing env 0 (tries_with has_client) h before
        → r ≡ run before
        → Outcome r
    refused :
        (e : Failure) (before : History)
        → force ≡ false
        → Failing env 0 (tries_with has_client) h before
        → r ≡ (err e, before)
        → Outcome r

  resume : ℕ → Action ℕ
  resume count = set_cluster_autoscaler_replica_count env count has_client

  while_paused_resumes :
      (count : ℕ) (h₁ : History)
      → set_cluster_autoscaler_replica_count env 0 has_client h ≡ (ok count, h₁)
      → while_paused env force has_client run h ≡ ((run h₁).0, (resume count (run h₁).1).1)
  unfolding while_paused recover resume
  while_paused_resumes count h₁ e =
      ap
        (λ r. and_then r (λ n. deferred run (resume n)) (λ x. when force take run otherwise fail x))
        e
      ∙ resumed (run h₁) (resume count)

  by_resume :
      (count : ℕ) (paused : History) (r : Result Failure (Unit {0}) × History)
      → Scaled env 0 count (tries_with has_client) h paused
      → r ≡ ((run paused).0, (resume count (run paused).1).1)
      → Tried env count (tries_with has_client) (run paused).1 (resume count (run paused).1)
      → Outcome r
  by_resume count paused r s w (scaled found last s' e) =
      restored count found paused last s s' (w ∙ ap (λ x. ((run paused).0, x.1)) e)
  by_resume count paused r s w (exhausted x last f e) =
      left_paused count paused last s f (w ∙ ap (λ x. ((run paused).0, x.1)) e)

  by_force :
      (b : Bool) (x : Failure) (before : History) (r : Result Failure (Unit {0}) × History)
      → force ≡ b
      → Failing env 0 (tries_with has_client) h before
      → r ≡ (when b take run otherwise fail x) before
      → Outcome r
  unfolding when◌take◌otherwise◌ fail
  by_force true x before r q f e = forced before q f e
  by_force false x before r q f e = refused x before q f e

  by_pause :
      Tried env 0
        (tries_with has_client)
        h
        (set_cluster_autoscaler_replica_count env 0 has_client h)
      → Outcome (while_paused env force has_client run h)
  unfolding while_paused recover resume
  by_pause (scaled count paused s e) =
      by_resume count paused _ s (while_paused_resumes count paused e)
        (set-Tried env count has_client (run paused).1)
  by_pause (exhausted x before f e) = by_force force x before _ refl f (
      ap
        (λ r. and_then r (λ n. deferred run (resume n)) (λ x. when force take run otherwise fail x))
        e)

  -- An upgrade that pauses the autoscaler ends in one of four ways. Unless ten tries to pause
  -- fail in a row, a try behind fewer than ten failing ones reads the replicas and writes 0; the
  -- upgrade runs next, and its result, also an error, is the result of the whole; after it a try
  -- behind fewer than ten failing ones writes back the replicas that the pause had read, or else
  -- ten tries to do so fail. If ten tries to pause fail, or if there is no client, then with
  -- `force` the upgrade is all that follows, and without it the upgrade does not run and the
  -- result is an error.
  pub while_paused-Outcome : Outcome (while_paused env force has_client run h)
  while_paused-Outcome = by_pause (set-Tried env 0 has_client h)
