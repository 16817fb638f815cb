-- ===== src/Upgrade/Discovery/Membership.antt =====
-- pkg/operations/kubernetesupgrade/upgradecluster.go: to which pool a machine belongs
-- (`addVMToAgentPool`). Names are in ASCII, so that bytes are characters.
use Prim.Native.Char.{Char, code}
use aks_engine.Common.{
  ℕ, zero, suc, String, Bool, true, false, not, Option, none, some, List, [], ◌∷◌, ◌++◌, map,
  filter, nat_beq, if◌then◌else◌, string_eq, lookup, insert, is_empty, contains, has_prefix, Result,
  ok, err,
}
use aks_engine.Cloud.{VirtualMachine, OsType, linux, windows}
use aks_engine.Names.{NameError, panicked, k8s_linux_vm_name_parts, windows_vm_name_parts}
use aks_engine.OrchestratorData.{equal_fold}
use aks_engine.Upgrade.Agents.{AgentPoolTopology}

-- s[:n]; `none` is a panic.
abbrev push : Char → Option String → Option String
push c none = none
push c (some s) = some (String.◌∷◌ c s)

unfoldable pub first_chars : ℕ → String → Option String
first_chars zero s = some String.[]
first_chars (suc n) String.[] = none
first_chars (suc n) (String.◌∷◌ c s) = push c (first_chars n s)

-- s[n]; `none` is a panic.
unfoldable pub char_at : ℕ → String → Option ℕ
char_at n String.[] = none
char_at zero (String.◌∷◌ c s) = some (code c)
char_at (suc n) (String.◌∷◌ c s) = char_at n s

-- The maps `AgentPoolsToUpgrade` and `AgentPools`.
abbrev pub PoolsToUpgrade : Type 0
PoolsToUpgrade = List (String × Bool)

abbrev pub AgentPools : Type 0
AgentPools = List (String × AgentPoolTopology)

abbrev key : String × Bool → String
key e = e.0

abbrev single : List String → String
single (pool ∷ []) = pool
single _ = ""

-- `vmPoolName`: the tag, or else the only pool that is not a master pool.
unfoldable pub vm_pool_name : PoolsToUpgrade → VirtualMachine → String
vm_pool_name to_upgrade vm = elim vm.pool_name_tag [
  | some name ↦ name
  | none ↦ single (filter (λ k. not (has_prefix k "master")) (map key to_upgrade))
]

abbrev is_set : Option Bool → Bool
is_set none = false
is_set (some b) = b

-- The pool's identifier; `ok none` is a machine that is skipped.
abbrev found : Option String → Result NameError (Option String)
found none = err panicked
found (some identifier) = ok (some identifier)

abbrev windows_identifier : String → Option ℕ → Result NameError (Option String)
windows_identifier name none = err panicked
windows_identifier name (some c) =
    if nat_beq c b'9' then found (first_chars 11 name) else found (first_chars 9 name)

abbrev prefix_or_empty : Result NameError (String × String × ℕ × ℕ) → String
prefix_or_empty (ok (prefix, orch, pool, agent)) = prefix
prefix_or_empty (err e) = ""

abbrev linux_identifier :
    String → Result NameError (String × String × ℕ) → Result NameError (Option String)
linux_identifier name_suffix (err e) = err e
linux_identifier name_suffix (ok (identifier, prefix, index)) =
    if equal_fold name_suffix prefix then ok (some identifier) else ok none

unfoldable pub pool_identifier : String → OsType → String → Result NameError (Option String)
pool_identifier name_suffix windows name =
    if contains name_suffix (prefix_or_empty (windows_vm_name_parts name))
    then windows_identifier name (char_at 8 name)
    else ok none
pool_identifier name_suffix linux name = linux_identifier name_suffix (k8s_linux_vm_name_parts name)

abbrev pool_or_new : String → String → Option AgentPoolTopology → AgentPoolTopology
pool_or_new identifier name (some pool) = pool
pool_or_new identifier name none = record {
  identifier = identifier;
  name = name;
  agent_vms = [];
  upgraded_agent_vms = [];
}

-- The machine is added to those of its pool that are to be upgraded, or that are upgraded.
abbrev pub with_vm : Bool → VirtualMachine → AgentPoolTopology → AgentPoolTopology
with_vm true vm pool = record pool { agent_vms = pool.agent_vms ++ vm ∷ [] }
with_vm false vm pool = record pool { upgraded_agent_vms = pool.upgraded_agent_vms ++ vm ∷ [] }

abbrev join :
    String
    → Bool
    → VirtualMachine
    → AgentPools
    → Result NameError (Option String)
    → Result NameError AgentPools
join name is_upgradable vm pools (err e) = err e
join name is_upgradable vm pools (ok none) = ok pools
join name is_upgradable vm pools (ok (some identifier)) = ok (
    insert identifier
      (with_vm is_upgradable vm (pool_or_new identifier name (lookup identifier pools))) pools)

unfoldable pub add_vm_to_agent_pool :
    PoolsToUpgrade → String → VirtualMachine → Bool → AgentPools → Result NameError AgentPools
add_vm_to_agent_pool to_upgrade name_suffix vm is_upgradable pools =
    let name = vm_pool_name to_upgrade vm in
    if is_empty name
    then ok pools
    else if not (is_set (lookup name to_upgrade))
    then ok pools
    else join name is_upgradable vm pools (pool_identifier name_suffix vm.os_type vm.name)
