-- ===== src/Transform/Scaling/Kept.antt =====
-- Which resources `NormalizeForK8sVMASScalingUp` leaves in a template, told without indexes.
use native.Mathlib.Nat.{add-zero, zero-add}
use aks_engine.Common.{
  ℕ, suc, ◌+◌, ◌<◌, ◌≡◌, refl, ap, sym, ◌∙◌, Bool, true, false, not, Option, none, some, List, [],
  ◌∷◌, elem, length, inr, if◌then◌else◌, nat_eq, string_eq, ◌>>=◌, ok, err, bind-eq-ok, arith,
}
use aks_engine.Transform.Json.{Json, Fields, obj, Outcome, get, as_map, as_string, or_panic}
use aks_engine.Transform.Dependencies.{name_field, type_field, clean_dependencies}
use aks_engine.Transform.Removal.{
  at_positions, remove_indexes_from_array, remove_indexes_from_array_lem,
}
use aks_engine.Transform.Removal.Indexes.{Noted, Fresh, elem-below, Noted-Fresh, Noted-elem}
use aks_engine.Transform.Masters.Scaled.{
  scaled_masters, normalize_master_resources_for_scaling-eq-scaled,
}
use aks_engine.Transform.Scaling.Notes.{unwanted_kind, note-Noted}
use aks_engine.Transform.Scaling.{
  Found, nothing_found, note, drops_for_scaling, visit_map, scan, indexes_to_remove,
  remove_unwanted, normalize_for_k8s_vmas_scaling_up,
}

-- One pass: each resource has its dependencies cleaned, and stays unless it is unwanted.
abbrev kept_here : ℕ → Json → Option Fields → Outcome (Json × Bool)
kept_here index resource none = ok (resource, true)
kept_here index resource (some m) = do
  name ← or_panic (as_string (get name_field m))
  cleaned ← clean_dependencies drops_for_scaling m
  ok (obj cleaned, not (unwanted_kind index (as_string (get type_field m)) name))

unfoldable pub kept : ℕ → List Json → Outcome (List Json)
kept index [] = ok []
kept index (resource ∷ resources) = do
  here ← kept_here index resource (as_map resource)
  rest ← kept (suc index) resources
  ok (if here.1 then here.0 ∷ rest else rest)

visit_map-Noted :
    (index : ℕ) (r : Json) (m : Option Fields) (f f₁ : Found) (c : Json)
    → visit_map index r m f ≡ ok (f₁, c)
    → (unwanted : Bool) × (kept_here index r m ≡ ok (c, not unwanted))
      × Noted index unwanted (indexes_to_remove f) (indexes_to_remove f₁)
unfolding Noted
visit_map-Noted index r none f f₁ c h =
    let e : f₁ ≡ f = cc h in (false, ground (arith, h), inr (refl, rw e))
visit_map-Noted index r (some m) f f₁ c h =
    let kind = as_string (get type_field m) in
    let clean_up : Found → Outcome (Found × Json) =
      λ found. clean_dependencies drops_for_scaling m >>= λ cleaned. ok (found, obj cleaned) in
    let (name, named, h₁) =
      bind-eq-ok (or_panic (as_string (get name_field m)))
        (λ name. note index kind name f >>= clean_up) (f₁, c) h in
    let (found, noted, h₂) = bind-eq-ok (note index kind name f) clean_up (f₁, c) h₁ in
    let (cleaned, clean, h₃) =
      bind-eq-ok (clean_dependencies drops_for_scaling m) (λ cleaned. ok (found, obj cleaned))
        (f₁, c) h₂ in
    let e : f₁ ≡ found = cc h₃ in
    (
      unwanted_kind index (as_string (get type_field m)) name,
      rw (named, clean) (cc h₃),
      note-Noted index (as_string (get type_field m)) name f f₁ (noted ∙ ap ok (sym e)),
    )

record Scanned (index : ℕ) (rs : List Json) (before after : List ℕ) (cs : List Json) : Type 0 where
  fresh : Fresh (index + length cs) after
  earlier : (j : ℕ) → j < index → elem j after ≡ elem j before
  left : kept index rs ≡ ok (at_positions (λ j. not (elem j after)) index cs)

Scanned-cons :
    (index : ℕ) (r : Json) (rs : List Json) (c : Json) (cs : List Json) (unwanted : Bool)
    (before middle after : List ℕ)
    → Fresh index before
    → kept_here index r (as_map r) ≡ ok (c, not unwanted)
    → Noted index unwanted before middle
    → Scanned (suc index) rs middle after cs
    → Scanned index (r ∷ rs) before after (c ∷ cs)
unfolding kept
Scanned-cons index r rs c cs unwanted before middle after fresh here noted rest =
    let decided : elem index after ≡ unwanted = ground (
      arith,
      rest.earlier index (omega arith),
      Noted-elem index index unwanted before middle noted,
      elem-below index index before (omega arith) fresh.below,
    ) in
    let moved : index + suc (length cs) ≡ suc index + length cs = omega arith in
    record {
      fresh = rw moved rest.fresh;
      earlier = λ j lt.
          ground
            (arith, rest.earlier j (omega arith), Noted-elem index j unwanted before middle noted);
      left = rw (here, rest.left, decided) refl;
    }

scan-Scanned :
    (index : ℕ) (rs : List Json) (f f' : Found) (cs : List Json)
    → scan index rs f ≡ ok (f', cs)
    → Fresh index (indexes_to_remove f)
    → Scanned index rs (indexes_to_remove f) (indexes_to_remove f') cs
unfolding scan kept
scan-Scanned index [] f f' cs h fresh =
    let e : cs ≡ [] = cc h in
    let same : f' ≡ f = cc h in
    rw (e, same) record { fresh = simp add-zero fresh; earlier = λ j lt. refl; left = refl }
scan-Scanned index (r ∷ rs) f f' cs h fresh =
    let scan_rest : Found × Json → Outcome (Found × List Json) =
      λ here. scan (suc index) rs here.0 >>= λ later. ok (later.0, here.1 ∷ later.1) in
    let ((f₁, c), visited, h₁) = bind-eq-ok (visit_map index r (as_map r) f) scan_rest (f', cs) h in
    let ((f₂, cs₂), scanned, h₂) =
      bind-eq-ok (scan (suc index) rs f₁) (λ later. ok (later.0, c ∷ later.1)) (f', cs) h₁ in
    let (unwanted, here, noted) = visit_map-Noted index r (as_map r) f f₁ c visited in
    let same : f' ≡ f₂ = cc h₂ in
    let all : cs ≡ c ∷ cs₂ = cc h₂ in
    rw (same, all)
      (Scanned-cons index r rs c cs₂ unwanted (indexes_to_remove f) (indexes_to_remove f₁)
        (indexes_to_remove f₂) fresh here noted
        (scan-Scanned (suc index) rs f₁ f₂ cs₂ scanned
          (Noted-Fresh index unwanted (indexes_to_remove f) (indexes_to_remove f₁) noted fresh)))

-- The loop and the removal by indexes together are one pass over the resources, up to the errors of
-- the loop: no index that it collects is out of range or comes twice.
pub remove_unwanted-eq-kept :
    (resources : List Json)
    → remove_unwanted resources ≡ (scan 0 resources nothing_found >>= λ found. kept 0 resources)
unfolding remove_unwanted indexes_to_remove
remove_unwanted-eq-kept resources = by_result (scan 0 resources nothing_found) refl
  where
    by_result :
        (o : Outcome (Found × List Json))
        → scan 0 resources nothing_found ≡ o
        → (o >>= λ found. or_panic (remove_indexes_from_array found.1 (indexes_to_remove found.0)))
          ≡ (o >>= λ found. kept 0 resources)
    by_result (err e) h = refl
    by_result (ok (f, cs)) h =
        let s =
          scan-Scanned 0 resources nothing_found f cs h (record { distinct = tt; below = tt }) in
        rw
          (remove_indexes_from_array_lem cs (indexes_to_remove f) s.fresh.distinct
            (simp zero-add at s.fresh.below))
          (sym s.left)

-- `NormalizeForK8sVMASScalingUp` is, once the masters are scaled, the loop that collects indexes
-- followed by one pass that cleans the dependencies of each resource and leaves it out if its own
-- type, name and position make it unwanted: the removal by indexes never fails and takes out no
-- other resource. A security group in the first position is not unwanted.
pub normalize_for_k8s_vmas_scaling_up-eq-kept :
    (resources : List Json)
    → normalize_for_k8s_vmas_scaling_up resources ≡ (
        scan 0 (scaled_masters resources) nothing_found >>= λ found.
        kept 0 (scaled_masters resources))
unfolding normalize_for_k8s_vmas_scaling_up
normalize_for_k8s_vmas_scaling_up-eq-kept resources =
    rw (normalize_master_resources_for_scaling-eq-scaled resources)
      (remove_unwanted-eq-kept (scaled_masters resources))
