-- ===== src/Names/RoundTrip.antt =====
-- The name that `GetK8sVMName` makes for the machine of a Linux pool, read back by
-- `K8sLinuxVMNameParts` and `GetVMNameIndex`.
use Prim.Native.String.{◌++◌}
use Prim.Native.String.append
use text.Mathlib.TextLemmas.{append_assoc as text_append_assoc}
use aks_engine.Common.{
  Bool-cases, ◌≡◌, refl, ℕ, ◌<◌, String, true, false, some, is_empty, decimal, ok, inl, inr,
}
use aks_engine.Patterns.{is_hex, is_alnum, all_of}
use aks_engine.Cloud.{linux}
use aks_engine.Cluster.{
  Properties, AgentPoolProfile, get_agent_vm_prefix, get_agent_pool_index_by_name,
  k8s_orchestrator_name,
}
use aks_engine.Names.{length_of, k8s_linux_vm_name_parts, get_vm_name_index, get_k8s_vm_name}
use aks_engine.Names.Decimals.{filled-append, decimal-IsNumeral, length_of-decimal, atoi-decimal}
use aks_engine.Names.Tails.{no_newline, take_run-append, pool_before-append}

-- Each part of a name is read back: the pool may be any text of one line, the identifier has eight
-- hexadecimal characters, and the index at most eight digits. (With nine digits or more, a dash and
-- the first eight of them would be read as the identifier.)
parts-append :
    (orchestrator pool id : String) (index : ℕ)
    → all_of is_alnum orchestrator ≡ true
    → length_of orchestrator ≡ 3
    → is_empty pool ≡ false
    → no_newline pool ≡ true
    → all_of is_hex id ≡ true
    → length_of id ≡ 8
    → index < 100000000
    → k8s_linux_vm_name_parts
        (orchestrator ++ ("-" ++ (pool ++ ("-" ++ (id ++ ("-" ++ decimal index))))))
      ≡ ok (pool, id, index)
unfolding k8s_linux_vm_name_parts
parts-append orchestrator pool id index letters three named line hex eight le =
    let r = decimal-IsNumeral index in
    let after = pool ++ ("-" ++ (id ++ ("-" ++ decimal index))) in
    rw
      (
        take_run-append 3 is_alnum orchestrator ("-" ++ after) letters three,
        append.cons "-" "" after,
        append.nil after,
        pool_before-append pool id (decimal index) named line hex eight r.digits r.filled
            (length_of-decimal index le),
        atoi-decimal index le,
      )
      refl

-- The orchestrator's part of a name has three letters.
record IsOrchestrator (s : String) : Type 0 where
  letters : all_of is_alnum s ≡ true
  three : length_of s ≡ 3
  named : is_empty s ≡ false

k8s_orchestrator_name-IsOrchestrator :
    (p : Properties) → p.is_kubernetes ≡ true → IsOrchestrator (k8s_orchestrator_name p)
unfolding k8s_orchestrator_name all_of is_alnum
k8s_orchestrator_name-IsOrchestrator p h = elim (Bool-cases p.has_hosted_master_profile) [
  | inl hosted ↦ rw (h, hosted) record { letters = refl; three = refl; named = refl }
  | inr own ↦ rw (h, own) record { letters = refl; three = refl; named = refl }
]

-- The machine that is made for an index of a Linux pool is known by that index: in a Kubernetes
-- cluster whose identifier has eight hexadecimal characters, for a pool of the cluster whose name is
-- one line of text, `GetVMNameIndex` finds in the name that `GetK8sVMName` makes the index it was made
-- for, if that has at most eight digits.
pub get_vm_name_index-get_k8s_vm_name :
    (p : Properties) (profile : AgentPoolProfile) (pool_index index : ℕ)
    → p.is_kubernetes ≡ true
    → all_of is_hex p.cluster_id ≡ true
    → length_of p.cluster_id ≡ 8
    → get_agent_pool_index_by_name p profile.name ≡ some pool_index
    → profile.is_windows ≡ false
    → profile.is_virtual_machine_scale_sets ≡ false
    → is_empty profile.name ≡ false
    → no_newline profile.name ≡ true
    → index < 100000000
    → (name : String) × (get_k8s_vm_name p profile index ≡ ok name)
      × (get_vm_name_index linux name ≡ ok index)
unfolding get_k8s_vm_name get_agent_vm_prefix get_vm_name_index
get_vm_name_index-get_k8s_vm_name p profile pool_index index kube hex eight found linux_pool single
      named line le =
    let orchestrator = k8s_orchestrator_name p in
    let r = k8s_orchestrator_name-IsOrchestrator p kube in
    let tail = "-" ++ (profile.name ++ ("-" ++ (p.cluster_id ++ ("-" ++ decimal index)))) in
    let filled : is_empty
          (orchestrator ++ ("-" ++ (profile.name ++ ("-" ++ (p.cluster_id ++ ("-" ++ ""))))))
        ≡ false =
      filled-append orchestrator ("-" ++ (profile.name ++ ("-" ++ (p.cluster_id ++ ("-" ++ "")))))
        r.named in
    (
      orchestrator ++ tail,
      rw (found, linux_pool, single) (simp text_append_assoc (rw (filled, append.nil) refl)),
      rw
          (parts-append orchestrator profile.name p.cluster_id index r.letters r.three named line
            hex eight le)
          refl,
    )
