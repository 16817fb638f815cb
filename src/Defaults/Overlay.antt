-- ===== src/Defaults/Overlay.antt =====
-- The two loops over a map of flags that all components share. A Go map has no key twice, so that
-- the order of its entries does not matter.
use aks_engine.Common.{
  ◌≡◌, refl, Bool-cases, inl, inr, eq_iff, String, Option, none, some, List, [], ◌∷◌, lookup,
  insert, lookup-insert, string_eq, ◌==◌, arith,
}

abbrev pub Flags : Type 0
Flags = List (String × String)

abbrev pub or_else : Option String → Option String → Option String
or_else (some v) other = some v
or_else none other = other

abbrev insert_if : Option String → String → String → Flags → Flags
insert_if none k v m = insert k v m
insert_if (some w) k v m = m

-- for key, val := range d { if _, ok := m[key]; !ok { m[key] = val } }
unfoldable pub fill_missing : Flags → Flags → Flags
fill_missing [] m = m
fill_missing ((k, v) ∷ d) m = fill_missing d (insert_if (lookup k m) k v m)

-- for key, val := range s { m[key] = val }
unfoldable pub override : Flags → Flags → Flags
override [] m = m
override ((k, v) ∷ s) m = insert k v (override s m)

pub lookup-fill_missing :
    (k : String) (d m : Flags) → lookup k (fill_missing d m) ≡ or_else (lookup k m) (lookup k d)
unfolding fill_missing
lookup-fill_missing k [] m = ground arith
lookup-fill_missing k ((j, v) ∷ d) m = elim (Bool-cases (j == k)) [
  | inl same ↦
      let q : j ≡ k = (eq_iff j k).0 same in
      ground (
        arith,
        same,
        q,
        lookup-fill_missing k d m,
        lookup-fill_missing k d (insert j v m),
        lookup-insert j k v m,
      )
  | inr other ↦ ground (
    arith,
    other,
    lookup-fill_missing k d m,
    lookup-fill_missing k d (insert j v m),
    lookup-insert j k v m,
  )
]

pub lookup-override :
    (k : String) (s m : Flags) → lookup k (override s m) ≡ or_else (lookup k s) (lookup k m)
unfolding override
lookup-override k [] m = refl
lookup-override k ((j, v) ∷ s) m =
    ground (arith, lookup-insert j k v (override s m), lookup-override k s m)
