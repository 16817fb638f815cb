-- ===== src/Versions/Table.antt =====
-- pkg/api/common/versions.go, the table of Kubernetes versions, and the Windows map derived from it.
use aks_engine.Common.{Bool, true, false, String, List, [], ◌∷◌, insert, delete, string_eq}

-- The Boolean says whether new clusters may be created with the version. The Go map has no order;
-- the entries stand here in the order of the literal.
unfoldable pub all_kubernetes_supported_versions : List (String × Bool)
all_kubernetes_supported_versions =
    ("1.6.6", false)
    ∷ ("1.6.9", true)
    ∷ ("1.6.11", false)
    ∷ ("1.6.12", false)
    ∷ ("1.6.13", false)
    ∷ ("1.7.0", false)
    ∷ ("1.7.1", false)
    ∷ ("1.7.2", false)
    ∷ ("1.7.4", false)
    ∷ ("1.7.5", false)
    ∷ ("1.7.7", false)
    ∷ ("1.7.9", false)
    ∷ ("1.7.10", false)
    ∷ ("1.7.12", false)
    ∷ ("1.7.13", false)
    ∷ ("1.7.14", false)
    ∷ ("1.7.15", false)
    ∷ ("1.7.16", false)
    ∷ ("1.8.0", false)
    ∷ ("1.8.1", false)
    ∷ ("1.8.2", false)
    ∷ ("1.8.4", false)
    ∷ ("1.8.6", false)
    ∷ ("1.8.7", false)
    ∷ ("1.8.8", false)
    ∷ ("1.8.9", false)
    ∷ ("1.8.10", false)
    ∷ ("1.8.11", false)
    ∷ ("1.8.12", false)
    ∷ ("1.8.13", false)
    ∷ ("1.8.14", false)
    ∷ ("1.8.15", false)
    ∷ ("1.9.0", false)
    ∷ ("1.9.1", false)
    ∷ ("1.9.2", false)
    ∷ ("1.9.3", false)
    ∷ ("1.9.4", false)
    ∷ ("1.9.5", false)
    ∷ ("1.9.6", false)
    ∷ ("1.9.7", false)
    ∷ ("1.9.8", false)
    ∷ ("1.9.9", false)
    ∷ ("1.9.10", false)
    ∷ ("1.9.11", false)
    ∷ ("1.10.0-beta.2", false)
    ∷ ("1.10.0-beta.4", false)
    ∷ ("1.10.0-rc.1", false)
    ∷ ("1.10.0", false)
    ∷ ("1.10.1", false)
    ∷ ("1.10.2", false)
    ∷ ("1.10.3", false)
    ∷ ("1.10.4", false)
    ∷ ("1.10.5", false)
    ∷ ("1.10.6", false)
    ∷ ("1.10.7", false)
    ∷ ("1.10.8", false)
    ∷ ("1.10.9", false)
    ∷ ("1.10.12", true)
    ∷ ("1.10.13", true)
    ∷ ("1.11.0-alpha.1", false)
    ∷ ("1.11.0-alpha.2", false)
    ∷ ("1.11.0-beta.1", false)
    ∷ ("1.11.0-beta.2", false)
    ∷ ("1.11.0-rc.1", false)
    ∷ ("1.11.0-rc.2", false)
    ∷ ("1.11.0-rc.3", false)
    ∷ ("1.11.0", false)
    ∷ ("1.11.1", false)
    ∷ ("1.11.2", false)
    ∷ ("1.11.3", false)
    ∷ ("1.11.4", false)
    ∷ ("1.11.5", false)
    ∷ ("1.11.6", false)
    ∷ ("1.11.7", false)
    ∷ ("1.11.8", false)
    ∷ ("1.11.9", true)
    ∷ ("1.11.10", true)
    ∷ ("1.12.0-alpha.1", false)
    ∷ ("1.12.0-beta.0", false)
    ∷ ("1.12.0-beta.1", false)
    ∷ ("1.12.0-rc.1", false)
    ∷ ("1.12.0-rc.2", false)
    ∷ ("1.12.0", false)
    ∷ ("1.12.1", false)
    ∷ ("1.12.2", false)
    ∷ ("1.12.4", false)
    ∷ ("1.12.5", false)
    ∷ ("1.12.6", false)
    ∷ ("1.12.7", true)
    ∷ ("1.12.8", true)
    ∷ ("1.12.9", false)
    ∷ ("1.13.0-alpha.1", false)
    ∷ ("1.13.0-alpha.2", false)
    ∷ ("1.13.1", false)
    ∷ ("1.13.2", false)
    ∷ ("1.13.3", false)
    ∷ ("1.13.4", false)
    ∷ ("1.13.5", false)
    ∷ ("1.13.6", false)
    ∷ ("1.13.7", false)
    ∷ ("1.13.8", false)
    ∷ ("1.13.9", true)
    ∷ ("1.13.10", true)
    ∷ ("1.14.0-alpha.1", false)
    ∷ ("1.14.0-alpha.2", false)
    ∷ ("1.14.0-beta.1", false)
    ∷ ("1.14.0-beta.2", false)
    ∷ ("1.14.0-rc.1", false)
    ∷ ("1.14.0", false)
    ∷ ("1.14.1", false)
    ∷ ("1.14.2", false)
    ∷ ("1.14.3", false)
    ∷ ("1.14.4", false)
    ∷ ("1.14.5", true)
    ∷ ("1.14.6", true)
    ∷ ("1.15.0-alpha.1", false)
    ∷ ("1.15.0-alpha.2", false)
    ∷ ("1.15.0-alpha.3", false)
    ∷ ("1.15.0-beta.1", false)
    ∷ ("1.15.0-beta.2", false)
    ∷ ("1.15.0-rc.1", false)
    ∷ ("1.15.0", false)
    ∷ ("1.15.1", false)
    ∷ ("1.15.2", true)
    ∷ ("1.15.3", true)
    ∷ ("1.16.0-alpha.1", true)
    ∷ ("1.16.0-alpha.2", true)
    ∷ ("1.16.0-alpha.3", true)
    ∷ ("1.16.0-beta.1", true)
    ∷ []

unfoldable pub windows_unsupported : List String
windows_unsupported =
    "1.6.6" ∷ "1.6.9" ∷ "1.6.11" ∷ "1.6.12" ∷ "1.6.13" ∷ "1.7.0" ∷ "1.7.1" ∷ "1.8.13" ∷ "1.8.14"
    ∷ "1.8.15" ∷ "1.10.0-beta.2" ∷ "1.10.0-beta.4" ∷ "1.10.0-rc.1" ∷ "1.11.0-alpha.1"
    ∷ "1.11.0-alpha.2" ∷ []

-- The loop that deletes each version of a list from a map.
unfoldable pub delete_all : List String → List (String × Bool) → List (String × Bool)
delete_all [] m = m
delete_all (v ∷ vs) m = delete_all vs (delete v m)

unfoldable pub get_all_kubernetes_windows_supported_versions_map : List (String × Bool)
unfolding delete_all all_kubernetes_supported_versions windows_unsupported
get_all_kubernetes_windows_supported_versions_map =
    insert "1.8.12" true (delete_all windows_unsupported all_kubernetes_supported_versions)
