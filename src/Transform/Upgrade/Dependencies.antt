-- ===== src/Transform/Upgrade/Dependencies.antt =====
-- How the two transformations of an agent upgrade act on the dependencies of one resource.
use aks_engine.Common.{
  ◌≡◌, refl, String, Bool, false, List, [], ◌∷◌, ◌++◌, map, if◌then◌else◌, string_eq, is_empty, ok,
  arith,
}
use aks_engine.Transform.Json.{str, strs, arr, Fields, get, put, get-put, items, elements-items}
use aks_engine.Transform.Dependencies.{depends_on_field, clean_dependencies}
use aks_engine.Transform.Upgrade.{names_nsg, remove_nsg_dependency, filtered_dependencies}

-- The texts that do not name a security group, from the last to the first.
unfoldable pub backwards : List String → List String
backwards [] = []
backwards (d ∷ ds) = if names_nsg d then backwards ds else backwards ds ++ d ∷ []

filtered_dependencies-texts :
    (ds : List String) → filtered_dependencies (map str ds) ≡ ok (backwards ds)
unfolding filtered_dependencies backwards
filtered_dependencies-texts [] = refl
filtered_dependencies-texts (d ∷ ds) = rw (filtered_dependencies-texts ds) (ground arith)

-- A resource with a name whose list of texts `RemoveNsgDependency` has filtered keeps the others,
-- in reverse order, through the loop that cleans dependencies, whatever that is to drop: the
-- filtered list is a []string, which the loop does not take for a list.
pub clean_dependencies-remove_nsg_dependency :
    (drop : String → Bool) (name : String) (m : Fields) (ds : List String)
    → is_empty name ≡ false
    → get depends_on_field m ≡ arr (items (map str ds))
    → (m' : Fields) × (remove_nsg_dependency name m ≡ ok m')
      × (clean_dependencies drop m' ≡ ok m')
      × (get depends_on_field m' ≡ strs (backwards ds))
unfolding remove_nsg_dependency clean_dependencies
clean_dependencies-remove_nsg_dependency drop name m ds named listed =
    let written = get-put depends_on_field depends_on_field (strs (backwards ds)) m in
    (
      put depends_on_field (strs (backwards ds)) m,
      rw (named, listed, elements-items (map str ds), filtered_dependencies-texts ds) refl,
      rw written refl,
      written,
    )
