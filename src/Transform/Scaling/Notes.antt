-- ===== src/Transform/Scaling/Notes.antt =====
-- What `NormalizeForK8sVMASScalingUp` notes about one resource, by its type.
use aks_engine.Common.{
  ℕ, zero, suc, ◌≡◌, refl, String, Bool, false, ◌||◌, Option, none, some, List, [], ◌∷◌, ◌++◌, ltb,
  inl, inr, Bool-cases, if◌then◌else◌, ◌==◌, nat_eq, string_eq, ok, append_assoc, arith,
}
use aks_engine.Transform.Json.{Outcome}
use aks_engine.Transform.Dependencies.{rt_resource_type, vnet_resource_type, vmas_resource_type}
use aks_engine.Transform.Removal.Indexes.{Noted}
use aks_engine.Transform.Scaling.{
  Found, once, found_index, positive_index, is_scaled_nsg, note, indexes_to_remove,
}

-- The types that scaling takes out of the template. A network security group at the very front
-- stays.
abbrev pub unwanted_kind : ℕ → Option String → String → Bool
unwanted_kind index none name = false
unwanted_kind index (some kind) name =
    if is_scaled_nsg kind name
    then ltb 0 index
    else kind == rt_resource_type || kind == vnet_resource_type || kind == vmas_resource_type

once-eq-ok :
    (kind : String) (o : Option ℕ) (g f' : Found) → once kind o g ≡ ok f' → (o ≡ none) × (f' ≡ g)
once-eq-ok kind none g f' h = (refl, cc h)
once-eq-ok kind (some i) g f' h = absurd (cc h)

nsg-Noted :
    (index : ℕ) (a b c : List ℕ)
    → Noted index
        (ltb 0 index)
        (a ++ (b ++ (c ++ [])))
        (a ++ (b ++ (c ++ positive_index (some index))))
unfolding Noted
nsg-Noted zero a b c = inr (refl, refl)
nsg-Noted (suc i) a b c = inl (
  ground arith,
  record {
    front = a ++ (b ++ c);
    back = [];
    before_is = simp append_assoc;
    after_is = simp append_assoc;
  },
)

-- The types behind the first.
abbrev note_other : ℕ → String → Found → Outcome Found
note_other index kind f =
    if kind == rt_resource_type
    then once rt_resource_type f.rt_index (record f { rt_index = some index })
    else if kind == vnet_resource_type
    then once vnet_resource_type f.vnet_index (record f { vnet_index = some index })
    else if kind == vmas_resource_type
    then ok (record f { vmas_indexes = f.vmas_indexes ++ index ∷ [] })
    else ok f

others-Noted :
    (index : ℕ) (kind : String) (f f' : Found)
    → note_other index kind f ≡ ok f'
    → Noted index
        (kind == rt_resource_type || kind == vnet_resource_type || kind == vmas_resource_type)
        (indexes_to_remove f)
        (indexes_to_remove f')
unfolding indexes_to_remove Noted
others-Noted index kind f f' h = elim (Bool-cases (kind == rt_resource_type)) [
  | inl rt ↦
      let (absent, e) = once-eq-ok _ f.rt_index _ f' (rw rt at h) in
      rw (rt, e, absent)
        (inl (
          refl,
          record {
            front = [];
            back = found_index f.vnet_index ++ (f.vmas_indexes ++ positive_index f.nsg_index);
            before_is = refl;
            after_is = refl;
          },
        ))
  | inr not_rt ↦ elim (Bool-cases (kind == vnet_resource_type)) [
    | inl vnet ↦
        let (absent, e) = once-eq-ok _ f.vnet_index _ f' (rw (not_rt, vnet) at h) in
        rw (not_rt, vnet, e, absent)
          (inl (
            refl,
            record {
              front = found_index f.rt_index;
              back = f.vmas_indexes ++ positive_index f.nsg_index;
              before_is = refl;
              after_is = refl;
            },
          ))
    | inr not_vnet ↦ elim (Bool-cases (kind == vmas_resource_type)) [
      | inl vmas ↦
          let e : f' ≡ record f { vmas_indexes = f.vmas_indexes ++ index ∷ [] } =
            cc (rw (not_rt, not_vnet, vmas) at h) in
          rw (not_rt, not_vnet, vmas, e)
            (inl (
              refl,
              record {
                front = found_index f.rt_index ++ (found_index f.vnet_index ++ f.vmas_indexes);
                back = positive_index f.nsg_index;
                before_is = simp append_assoc;
                after_is = simp append_assoc;
              },
            ))
      | inr not_vmas ↦
          let e : f' ≡ f = cc (rw (not_rt, not_vnet, not_vmas) at h) in
          rw (not_rt, not_vnet, not_vmas, e) (inr (refl, refl))
    ]
  ]
]

pub note-Noted :
    (index : ℕ) (kind : Option String) (name : String) (f f' : Found)
    → note index kind name f ≡ ok f'
    → Noted index (unwanted_kind index kind name) (indexes_to_remove f) (indexes_to_remove f')
unfolding note indexes_to_remove Noted
note-Noted index none name f f' h = let e : f' ≡ f = cc h in inr (refl, rw e)
note-Noted index (some kind) name f f' h = elim (Bool-cases (is_scaled_nsg kind name)) [
  | inl nsg ↦
      let (absent, e) = once-eq-ok _ f.nsg_index _ f' (rw nsg at h) in
      rw (nsg, e, absent)
        (nsg-Noted index (found_index f.rt_index) (found_index f.vnet_index) f.vmas_indexes)
  | inr other ↦ rw other (others-Noted index kind f f' (rw other at h))
]
