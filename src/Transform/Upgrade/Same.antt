-- ===== src/Transform/Upgrade/Same.antt =====
-- What the steps of `NormalizeResourcesForK8sMasterUpgrade` change in a resource.
use aks_engine.Common.{
  ◌≡◌, String, Bool, false, Option, none, some, List, ◌==◌, string_eq, is_empty, ok, bind-eq-ok,
  Bool-cases, inl, inr, arith,
}
use aks_engine.Transform.Json.{Json, obj, strs, Fields, Outcome, get, put, get-put, as_map, as_list}
use aks_engine.Transform.Dependencies.{properties_field, depends_on_field}
use aks_engine.Transform.Upgrade.{
  remove_nsg_dependency, without_nsg, filtered_dependencies, attach_master_disk, in_vm_properties,
  in_storage, attach_first,
}

-- The two maps differ at most in the dependencies and in the properties.
abbrev pub SameFields : Fields → Fields → Type 0
SameFields m m' =
    (k : String)
    → (depends_on_field == k) ≡ false
    → (properties_field == k) ≡ false
    → get k m' ≡ get k m

abbrev pub SameResource : Json → Json → Type 0
SameResource (obj m) (obj m') = SameFields m m'
SameResource r r' = r' ≡ r

without_nsg-SameFields :
    (m m' : Fields) (ds : Option (List Json)) → without_nsg m ds ≡ ok m' → SameFields m m'
without_nsg-SameFields m m' none h k d p = ground (arith, h)
without_nsg-SameFields m m' (some ds) h k d p =
    let (filtered, done, e) =
      bind-eq-ok (filtered_dependencies ds) (λ f. ok (put depends_on_field (strs f) m)) m' h in
    let e' : m' ≡ put depends_on_field (strs filtered) m = cc e in
    rw (e', get-put k depends_on_field (strs filtered) m, d)

pub remove_nsg-SameFields :
    (name : String) (m m' : Fields) → remove_nsg_dependency name m ≡ ok m' → SameFields m m'
unfolding remove_nsg_dependency
remove_nsg-SameFields name m m' h = elim (Bool-cases (is_empty name)) [
  | inl empty ↦ λ k d p. ground (arith, h, empty)
  | inr full ↦ without_nsg-SameFields m m' (as_list (get depends_on_field m)) (rw full at h)
]

in_storage-SameFields :
    (is_managed : Bool) (m m' properties : Fields) (storage : Option Fields)
    → in_storage is_managed m properties storage ≡ ok m'
    → SameFields m m'
in_storage-SameFields is_managed m m' properties none h k d p = ground (arith, h)
in_storage-SameFields is_managed m m' properties (some storage) h k d p =
    let write : Json → Outcome Fields = λ disks. ok (
      put properties_field
        (obj (put "storageProfile" (obj (put "dataDisks" disks storage)) properties)) m) in
    let (disks, done, e) =
      bind-eq-ok (attach_first is_managed (get "dataDisks" storage)) write m' h in
    let e' : m'
        ≡ put properties_field
            (obj (put "storageProfile" (obj (put "dataDisks" disks storage)) properties)) m =
      cc e in
    rw (
      e',
      get-put k properties_field
          (obj (put "storageProfile" (obj (put "dataDisks" disks storage)) properties)) m,
      p,
    )

in_vm-SameFields :
    (is_managed : Bool) (m m' : Fields) (properties : Option Fields)
    → in_vm_properties is_managed m properties ≡ ok m'
    → SameFields m m'
in_vm-SameFields is_managed m m' none h k d p = ground (arith, h)
in_vm-SameFields is_managed m m' (some properties) h k d p =
    in_storage-SameFields is_managed m m' properties (as_map (get "storageProfile" properties)) h k
      d p

pub attach-SameFields :
    (is_managed : Bool) (m m' : Fields) → attach_master_disk is_managed m ≡ ok m' → SameFields m m'
unfolding attach_master_disk
attach-SameFields is_managed m m' h =
    in_vm-SameFields is_managed m m' (as_map (get properties_field m)) h
