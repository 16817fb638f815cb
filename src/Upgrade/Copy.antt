-- ===== src/Upgrade/Copy.antt =====
-- pkg/operations/kubernetesupgrade/upgrader.go: annotations, labels and taints of a node are copied
-- to the node that takes its place.
pub mod Quiet
pub mod Keys
use Prim.Native.Char.{Char, code}
use aks_engine.Common.{
  ℕ, zero, suc, ◌+◌, String, Bool, true, false, Option, none, some, List, [], ◌∷◌, map, nat_beq,
  if◌then◌else◌, string_eq, lookup, insert, ◌<>◌, Result, ok, err,
}
use aks_engine.Cloud.{Call, get_node, update_node, Env, Node, Taint}
use aks_engine.Cloud.Actions.{
  Failure, copy_timeout, Action, pure, fail, request, with_history, recover, ignore, ◌>>=◌, ◌>>◌,
}
use aks_engine.Operations.Drain.{safely_drain_node_with_client}

-- The rest behind a prefix, if the text begins with it.
drop_prefix : String → String → Option String
drop_prefix String.[] s = some s
drop_prefix (String.◌∷◌ c p) String.[] = none
drop_prefix (String.◌∷◌ c p) (String.◌∷◌ d s) =
    let rest = drop_prefix p s in if nat_beq (code c) (code d) then rest else none

length_of : String → ℕ
length_of String.[] = 0
length_of (String.◌∷◌ c s) = suc (length_of s)

-- strings.Replace(s, old, new, -1) where `old` is not empty. Each round takes a character at least.
replace_from : ℕ → String → String → String → String
replace_from zero old new s = s
replace_from (suc fuel) old new String.[] = String.[]
replace_from (suc fuel) old new (String.◌∷◌ c s) = elim (drop_prefix old (String.◌∷◌ c s)) [
  | some rest ↦ new <> replace_from fuel old new rest
  | none ↦ String.◌∷◌ c (replace_from fuel old new s)
]

-- An empty `old` matches before each character and at the end.
spread : String → String → String
spread new String.[] = new
spread new (String.◌∷◌ c s) = new <> String.◌∷◌ c (spread new s)

unfoldable pub replace_all : String → String → String → String
unfolding drop_prefix length_of replace_from spread
replace_all String.[] new s = spread new s
replace_all (String.◌∷◌ c p) new s = replace_from (length_of s + 1) (String.◌∷◌ c p) new s

abbrev pub Strings : Type 0
Strings = List (String × String)

-- The copying loop for annotations and for labels: a key that the new node has is left alone.
unfoldable pub copy_missing : String → String → Strings → Strings → Strings
copy_missing old_name new_name [] target = target
copy_missing old_name new_name ((k, v) ∷ source) target = elim (lookup k target) [
  | some w ↦ copy_missing old_name new_name source target
  | none ↦ copy_missing old_name new_name source (insert k (replace_all old_name new_name v) target)
]

abbrev or_empty_map : Option Strings → Strings
or_empty_map none = []
or_empty_map (some m) = m

-- A nil map of the old node leaves the new node's map as it is.
unfoldable pub copy_map : String → String → Option Strings → Option Strings → Option Strings
unfolding copy_missing
copy_map old_name new_name none target = target
copy_map old_name new_name (some source) target =
    some (copy_missing old_name new_name source (or_empty_map target))

abbrev rename_taint : String → String → Taint → Taint
rename_taint old_name new_name t = record t { value = replace_all old_name new_name t.value }

unfoldable pub copy_taints :
    String → String → Option (List Taint) → Option (List Taint) → Option (List Taint)
copy_taints old_name new_name none target = target
copy_taints old_name new_name (some taints) target =
    some (map (rename_taint old_name new_name) taints)

-- The new node as it is sent first.
unfoldable pub with_properties : String → String → Node → Node → Node
unfolding copy_map copy_taints
with_properties old_name new_name old_node new_node = record new_node {
  annotations = copy_map old_name new_name old_node.annotations new_node.annotations;
  labels = copy_map old_name new_name old_node.labels new_node.labels;
  taints = copy_taints old_name new_name old_node.taints new_node.taints;
}

module _ (env : Env) where
  abbrev update : Node → Action Node
  update n = request (update_node n) (λ h. env.updated_node h n)

  unfoldable pub copy_custom_node_properties : String → String → Node → Node → Action (Unit {0})
  copy_custom_node_properties old_name new_name old_node new_node = do
    stored ← update (with_properties old_name new_name old_node new_node)
    _ ← update (record stored { unschedulable = false })
    pure tt

  -- One round of the goroutine of `copyCustomPropertiesToNewNode`.
  unfoldable pub copy_round : String → String → Action (Unit {0})
  copy_round old_name new_name = do
    old_node ← request (get_node old_name) (λ h. env.node_of h old_name)
    new_node ← request (get_node new_name) (λ h. env.node_of h new_name)
    copy_custom_node_properties old_name new_name old_node new_node

  -- The rounds until one succeeds or the time is over.
  unfoldable pub copy_rounds : ℕ → String → String → Action (Unit {0})
  copy_rounds zero old_name new_name = fail copy_timeout
  copy_rounds (suc rounds) old_name new_name =
      recover (copy_round old_name new_name) pure (λ _. copy_rounds rounds old_name new_name)

  unfoldable pub copy_custom_properties_to_new_node : String → String → Action (Unit {0})
  copy_custom_properties_to_new_node old_name new_name = do
    ignore (safely_drain_node_with_client env new_name)
    with_history (λ h. copy_rounds (env.rounds h) old_name new_name)
