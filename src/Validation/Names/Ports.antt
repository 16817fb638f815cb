-- ===== src/Validation/Names/Ports.antt =====
-- Which lists of ports are refused.
use aks_engine.Common.{
  ℕ, ◌≡◌, refl, ◌↔◌, String, List, [], ◌∷◌, elem, nat_eq, IsDistinct, AreNew, AreNew-cons,
  AreNew-seen, AreNew-nil, ok, Bool-cases, inl, inr, arith,
}
use aks_engine.Validation.Names.{check_ports, validate_unique_ports}

check_ports_lem :
    (name : String) (seen ps : List ℕ)
    → (check_ports name seen ps ≡ ok tt) ↔ (AreNew seen ps × IsDistinct ps)
unfolding check_ports
check_ports_lem name seen [] = (λ h. (tt, tt), λ h. refl)
check_ports_lem name seen (p ∷ ps) = elim (Bool-cases (elem p seen)) [
  | inl t ↦ rw t (λ h. absurd (cc h), λ h. absurd (ground (arith, h.0.0)))
  | inr f ↦
      let later = check_ports_lem name (p ∷ seen) ps in
      rw f (
        λ h.
            let (new, distinct) = later.0 h in
            let (still, other) = AreNew-cons seen ps p new in ((refl, still), (other, distinct)),
        λ h. later.1 (AreNew-seen seen ps p h.0.1 h.1.0, h.1.1),
      )
]

-- `validateUniquePorts` accepts exactly the lists in which no port comes twice.
pub validate_unique_ports-IsDistinct :
    (ports : List ℕ) (name : String) → (validate_unique_ports ports name ≡ ok tt) ↔ IsDistinct ports
unfolding validate_unique_ports
validate_unique_ports-IsDistinct ports name =
    let r = check_ports_lem name [] ports in (λ h. (r.0 h).1, λ h. r.1 (AreNew-nil ports, h))
