-- ===== src/Operations/Draining.antt =====
-- Which pods a drain deletes, where the API server does not support evictions.
use aks_engine.Common.{
  ◌≡◌, refl, sym, ap, ◌∙◌, String, Bool, true, false, ◌&&◌, List, [], ◌∷◌, filter, is_empty, Result,
  ok, err,
}
use aks_engine.Cloud.{Env, Pod, list_pods, support_eviction, evict_pods, wait_for_delete, History}
use aks_engine.Cloud.Actions.{
  Failure, Action, pure, fail, request, reply_result, recover, when◌take◌otherwise◌, when-true,
  and_then, bind_ok, bind_succeeded, ◌>>=◌,
}
use aks_engine.Operations.Drain.{
  mirror_pod_filter, daemon_set_pod_filter, get_pods_for_deletion, delete_pods,
  delete_or_evict_pods, delete_or_evict_pods_simple,
}
use aks_engine.Operations.Cordon.{calls_of, delete_each_calls}

-- A pod that is neither a mirror pod nor a pod of a daemon set.
abbrev pub deletable : Pod → Bool
deletable pod = mirror_pod_filter pod && daemon_set_pod_filter pod

failed_ok :
    {A : Type 0} (x : Failure) (h h' : History) (a : A) → (fail {A = A} x) h ≡ (ok a, h') → ⊥
unfolding fail
failed_ok x h h' a e = cc e

-- A fallback that fails in any case adds no success.
recover_succeeded :
    {A B : Type 0} (m : Action A) (k : Action B) (h h' : History) (a : A)
    → recover m pure (λ e. k >>= λ _. fail e) h ≡ (ok a, h')
    → m h ≡ (ok a, h')
unfolding recover pure
recover_succeeded {A} {B} m k h h' a e = apart (m h) e
  where
    apart :
        (r : Result Failure A × History)
        → and_then r pure (λ e. k >>= λ _. fail e) ≡ (ok a, h')
        → r ≡ (ok a, h')
    apart (ok b, h₁) q = q
    apart (err x, h₁) q =
        let (_, h₂, _, last) = bind_succeeded k (λ _. fail x) h₁ h' a q in
        absurd (failed_ok x h₂ h' a last)

-- The history after the deletion of some pods, one by one.
abbrev pub after_deleting : String → List Pod → History → History
after_deleting node [] h = list_pods node ∷ h
after_deleting node (pod ∷ pods) h =
    wait_for_delete (pod ∷ pods) false
    ∷ calls_of (pod ∷ pods) (support_eviction "policy" ∷ list_pods node ∷ h)

module _ (env : Env) where
  delete_pods_calls :
      (pods : List Pod) (h h' : History)
      → delete_pods env pods h ≡ (ok tt, h')
      → h' ≡ wait_for_delete pods false ∷ calls_of pods h
  unfolding delete_pods request
  delete_pods_calls pods h h' e =
      let (_, h₁, deleted, waited) = bind_succeeded _ _ h h' tt e in
      sym (ap (λ r. r.1) waited)
      ∙ ap (λ l. wait_for_delete pods false ∷ l) (delete_each_calls env pods h h₁ deleted)

  delete_or_evict_calls :
      (node : String) (pods : List Pod) (h h' : History)
      → env.eviction_version (support_eviction "policy" ∷ list_pods node ∷ h) ≡ ok ""
      → delete_or_evict_pods env pods (list_pods node ∷ h) ≡ (ok tt, h')
      → h' ≡ after_deleting node pods h
  unfolding delete_or_evict_pods pure request
  delete_or_evict_calls node [] h h' none e = sym (ap (λ r. r.1) e)
  delete_or_evict_calls node (pod ∷ pods) h h' none e =
      let before = list_pods node ∷ h in
      let asked = support_eviction "policy" ∷ before in
      let by_version : String → Action (Unit {0}) = λ version.
        when is_empty version
        take delete_pods env (pod ∷ pods)
        otherwise request (evict_pods (pod ∷ pods) version)
            (λ h. env.eviction_result h (pod ∷ pods)) in
      delete_pods_calls (pod ∷ pods) asked h' (
        sym (ap (λ m. m asked) (when-true true _ _ refl))
        ∙ sym (
            bind_ok (request (support_eviction "policy") env.eviction_version) by_version before
              asked "" (ap (λ r. (reply_result r, asked)) none))
        ∙ e)

  get_pods_found :
      (node : String) (listed : List Pod) (h : History)
      → env.pods_on (list_pods node ∷ h) node ≡ ok listed
      → get_pods_for_deletion env node h ≡ (ok (filter deletable listed), list_pods node ∷ h)
  unfolding get_pods_for_deletion request pure ◌>>=◌
  get_pods_found node listed h found =
      ap
        (λ r.
          and_then (reply_result r, list_pods node ∷ h) (λ pods. pure (filter deletable pods)) fail)
        found

  -- If the API server supports no evictions, draining the pods of a node that succeeds has asked
  -- for the deletion of each pod that is neither a mirror pod nor a pod of a daemon set, in the
  -- order of the listing and for no other, and then for the wait for exactly these pods; with no
  -- such pod it only lists.
  pub delete_or_evict_pods_simple_calls :
      (node : String) (listed : List Pod) (h h' : History)
      → env.pods_on (list_pods node ∷ h) node ≡ ok listed
      → env.eviction_version (support_eviction "policy" ∷ list_pods node ∷ h) ≡ ok ""
      → delete_or_evict_pods_simple env node h ≡ (ok tt, h')
      → h' ≡ after_deleting node (filter deletable listed) h
  unfolding delete_or_evict_pods_simple
  delete_or_evict_pods_simple_calls node listed h h' found none e =
      let pods = filter deletable listed in
      let fallback : List Pod → Action (Unit {0}) = λ ps.
        recover (delete_or_evict_pods env ps) pure
          (λ x. get_pods_for_deletion env node >>= λ _. fail x) in
      delete_or_evict_calls node pods h h' none (
        recover_succeeded (delete_or_evict_pods env pods) (get_pods_for_deletion env node)
          (list_pods node ∷ h) h' tt
          (sym (
              bind_ok (get_pods_for_deletion env node) fallback h (list_pods node ∷ h) pods
                (get_pods_found node listed h found))
            ∙ e))
