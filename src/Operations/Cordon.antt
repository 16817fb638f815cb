-- ===== src/Operations/Cordon.antt =====
-- What is known of a node once it is cordoned, and which pods of it are deleted.
use mathlib.Core.Path.{subst}
use aks_engine.Common.{
  ℕ, zero, suc, ◌≡◌, refl, sym, ap, ◌∙◌, String, true, Option, none, some, List, [], ◌∷◌, ok, err,
}
use aks_engine.Cloud.{
  Env, Node, Pod, Call, get_node, update_node, delete_pod, History, modified, not_found, Reply,
}
use aks_engine.Cloud.Actions.{
  Failure, Action, pure, fail, request, reply_result, recover, when◌take◌otherwise◌, and_then,
  ◌>>=◌,
}
use aks_engine.Operations.Drain.{cordon, delete_each, is_not_found, is_modified}

-- The newest call marks a node as unschedulable.
unfoldable pub Cordoned : History → Type 0
Cordoned [] = ⊥
Cordoned (update_node n ∷ h) = n.unschedulable ≡ true
Cordoned (_ ∷ h) = ⊥

-- The calls that delete pods, before a history.
abbrev pub calls_of : List Pod → History → History
calls_of [] h = h
calls_of (pod ∷ pods) h = calls_of pods (delete_pod pod ∷ h)

-- What an action that gets a node, marks it and goes on ends with.
written :
    (u : Reply Node) (n : Node) (h h' : History) (node : Node) (m : Action (Option Node))
    → n.unschedulable ≡ true
    → ((h'' : History) → m h'' ≡ (ok (some node), h') → Cordoned h')
    → recover
        (request (update_node n) (λ _. u))
        (λ updated. pure (some updated))
        (λ e. when is_modified e take m otherwise fail e)
        h
      ≡ (ok (some node), h')
    → Cordoned h'
unfolding Cordoned recover request pure fail when◌take◌otherwise◌
written (ok u) n h h' node m marked again e = subst Cordoned (ap (λ r. r.1) e) marked
written (err modified) n h h' node m marked again e = again _ e
written (err x) n h h' node m marked again e = cc e

-- What an action that first gets a node ends with.
got :
    (r : Reply Node) (h h' : History) (node : Node) (f : Node → Action (Option Node))
    → ((n : Node) → f n h ≡ (ok (some node), h') → Cordoned h')
    → and_then (reply_result r, h) f fail ≡ (ok (some node), h')
    → Cordoned h'
unfolding fail
got (ok n) h h' node f go e = go n e
got (err x) h h' node f go e = cc e

-- After a deletion the loop goes on, if it succeeds.
goes_on :
    (r : Reply (Unit {0})) (h h' : History) (c : Call) (rest : Action (Unit {0}))
    → recover
        (request c (λ _. r))
        (λ _. rest)
        (λ e. when is_not_found e take rest otherwise fail e)
        h
      ≡ (ok tt, h')
    → rest (c ∷ h) ≡ (ok tt, h')
unfolding recover request when◌take◌otherwise◌ fail
goes_on (ok _) h h' c rest e = e
goes_on (err not_found) h h' c rest e = e
goes_on (err x) h h' c rest e = cc e

module _ (env : Env) where
  -- If the cordon loop returns a node, its newest call marked a node as unschedulable.
  pub cordon-Cordoned :
      (tries : ℕ) (name : String) (h h' : History) (node : Node)
      → cordon env tries name h ≡ (ok (some node), h')
      → Cordoned h'
  unfolding cordon pure ◌>>=◌
  cordon-Cordoned zero name h h' node e = cc e
  cordon-Cordoned (suc tries) name h h' node e =
      got (env.node_of (get_node name ∷ h) name) (get_node name ∷ h) h' node _
        (λ n e'.
          let cordoned = record n { unschedulable = true } in
          written (env.updated_node (update_node cordoned ∷ get_node name ∷ h) cordoned) cordoned
            (get_node name ∷ h) h' node (cordon env tries name) refl
            (λ h'' e''. cordon-Cordoned tries name h'' h' node e'') e')
        e

  -- If each read of the node succeeds and each write of a node meets a concurrent modification,
  -- the cordon loop ends without an error and without a node, whatever the number of tries.
  pub cordon_conflicts :
      (tries : ℕ) (name : String) (h : History)
      → ((h : History) (n : Node) → env.updated_node h n ≡ err modified)
      → ((h : History) → (n : Node) × (env.node_of h name ≡ ok n))
      → (cordon env tries name h).0 ≡ ok none
  unfolding cordon pure ◌>>=◌
  cordon_conflicts zero name h w r = unfold pure in refl
  cordon_conflicts (suc tries) name h w r =
      let h₁ = get_node name ∷ h in
      let n = (r h₁).0 in
      let cordoned : Node = record n { unschedulable = true } in
      let step : env.updated_node (update_node cordoned ∷ h₁) cordoned ≡ err modified =
        w (update_node cordoned ∷ h₁) cordoned in
      let retry : Failure → Action (Option Node) =
        λ e. when is_modified e take cordon env tries name otherwise fail e in
      let write : Node → Action (Option Node) = λ node.
        let marked : Node = record node { unschedulable = true } in
        recover (request (update_node marked) (λ h. env.updated_node h marked))
          (λ updated. pure (some updated)) retry in
      ap (λ reply. (and_then (reply_result reply, h₁) write fail).0) (r h₁).1
      ∙ ap
          (λ reply.
            (and_then (reply_result reply, update_node cordoned ∷ h₁)
              (λ updated. pure (some updated)) retry).0)
          step
      ∙ cordon_conflicts tries name (update_node cordoned ∷ h₁) w r

  -- If deleting pods one by one succeeds, it asked for the deletion of each of them, in their order,
  -- and for nothing else.
  pub delete_each_calls :
      (pods : List Pod) (h h' : History)
      → delete_each env pods h ≡ (ok tt, h')
      → h' ≡ calls_of pods h
  unfolding delete_each pure request recover
  delete_each_calls [] h h' e = sym (ap (λ r. r.1) e)
  delete_each_calls (pod ∷ pods) h h' e =
      delete_each_calls pods (delete_pod pod ∷ h) h'
        (goes_on (env.answer (delete_pod pod ∷ h)) h h' (delete_pod pod) (delete_each env pods) e)
