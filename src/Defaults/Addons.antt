-- ===== src/Defaults/Addons.antt =====
-- pkg/api/addons.go: the merging of the add-ons that a user gives with the default ones. The default
-- add-ons themselves, which are literals of images and limits, are an argument.
pub mod Names
use aks_engine.Common.{
  ℕ, suc, ◌+◌, String, Bool, true, false, not, ◌&&◌, ◌||◌, Option, none, some, List, [], ◌∷◌, ◌++◌,
  if◌then◌else◌, ◌==◌, string_eq, lookup, insert, is_empty,
}
use aks_engine.Defaults.Overlay.{Flags}

-- KubernetesContainerSpec and KubernetesAddon; `enabled` is a pointer.
pub record Container : Type 0 where
  pub name : String
  pub image : String
  pub cpu_requests : String
  pub memory_requests : String
  pub cpu_limits : String
  pub memory_limits : String

pub record Addon : Type 0 where
  pub name : String
  pub enabled : Option Bool
  pub containers : List Container
  pub config : Option Flags
  pub content : String  -- Data

-- getAddonsIndexByName; `none` is -1.
abbrev pub next_index : Option ℕ → Option ℕ
next_index none = none
next_index (some i) = some (suc i)

unfoldable pub get_addons_index_by_name : List Addon → String → Option ℕ
get_addons_index_by_name [] name = none
get_addons_index_by_name (a ∷ addons) name =
    let later = get_addons_index_by_name addons name in
    if a.name == name then some 0 else next_index later

abbrev pub append_unless : Option ℕ → List Addon → Addon → List Addon
append_unless none addons addon = addons ++ addon ∷ []
append_unless (some i) addons addon = addons

unfoldable pub append_addon_if_not_present : List Addon → Addon → List Addon
unfolding get_addons_index_by_name
append_addon_if_not_present addons addon =
    append_unless (get_addons_index_by_name addons addon.name) addons addon

abbrev pub or_text : String → String → String
or_text given default = if is_empty given then default else given

-- One container with the defaults for what it leaves open; an update takes the default's image.
abbrev pub merge_container : Bool → Container → Container → Container
merge_container is_update c default = record c {
  image = if is_empty c.image || is_update then default.image else c.image;
  cpu_requests = or_text c.cpu_requests default.cpu_requests;
  memory_requests = or_text c.memory_requests default.memory_requests;
  cpu_limits = or_text c.cpu_limits default.cpu_limits;
  memory_limits = or_text c.memory_limits default.memory_limits;
}

-- GetAddonContainersIndexByName and what is done with the index: the first container of the name is
-- merged, or else the default is appended.
unfoldable pub merge_into : Bool → Container → List Container → List Container
merge_into is_update default [] = default ∷ []
merge_into is_update default (c ∷ cs) =
    let later = merge_into is_update default cs in
    if c.name == default.name then merge_container is_update c default ∷ cs else c ∷ later

unfoldable pub merge_containers : Bool → List Container → List Container → List Container
unfolding merge_into
merge_containers is_update [] cs = cs
merge_containers is_update (default ∷ defaults) cs =
    merge_containers is_update defaults (merge_into is_update default cs)

-- A key that the user leaves out or leaves empty has the default.
abbrev fill_empty : Option String → String → String → Flags → Flags
fill_empty none k v m = insert k v m
fill_empty (some w) k v m = if is_empty w then insert k v m else m

unfoldable pub merge_config : Flags → Flags → Flags
merge_config [] m = m
merge_config ((k, v) ∷ defaults) m = merge_config defaults (fill_empty (lookup k m) k v m)

abbrev flags_or_empty : Option Flags → Flags
flags_or_empty none = []
flags_or_empty (some m) = m

-- A nil map stays nil where there is no default.
abbrev merge_config_option : Option Flags → Option Flags → Option Flags
merge_config_option none user = user
merge_config_option (some []) user = user
merge_config_option (some (e ∷ defaults)) user =
    some (merge_config (e ∷ defaults) (flags_or_empty user))

abbrev enabled_or : Option Bool → Option Bool → Option Bool
enabled_or none default = default
enabled_or (some b) default = some b

abbrev to_bool : Option Bool → Bool
to_bool none = false
to_bool (some b) = b

-- A disabled add-on is left with its name only.
unfoldable pub assign_default_addon_vals : Bool → Addon → Addon → Addon
unfolding merge_containers merge_config
assign_default_addon_vals is_update addon defaults =
    let enabled = enabled_or addon.enabled defaults.enabled in
    if to_bool enabled
    then record addon {
      enabled = enabled;
      containers = merge_containers is_update defaults.containers addon.containers;
      config = merge_config_option defaults.config addon.config;
    }
    else record {
      name = addon.name;
      enabled = enabled;
      containers = [];
      config = none;
      content = "";
    }

-- addons[i] = assignDefaultAddonVals(addons[i], addon, isUpdate), for the first of the name
unfoldable pub synthesize_addons_config : Bool → Addon → List Addon → List Addon
unfolding assign_default_addon_vals
synthesize_addons_config is_update default [] = []
synthesize_addons_config is_update default (a ∷ addons) =
    let later = synthesize_addons_config is_update default addons in
    if a.name == default.name
    then assign_default_addon_vals is_update a default ∷ addons
    else a ∷ later

unfoldable pub append_each : List Addon → List Addon → List Addon
unfolding append_addon_if_not_present
append_each [] addons = addons
append_each (d ∷ defaults) addons = append_each defaults (append_addon_if_not_present addons d)

unfoldable pub synthesize_each : Bool → List Addon → List Addon → List Addon
unfolding synthesize_addons_config
synthesize_each is_update [] addons = addons
synthesize_each is_update (d ∷ defaults) addons =
    synthesize_each is_update defaults (synthesize_addons_config is_update d addons)

abbrev pub append_psp : Bool → Option String → List Addon → List Addon
append_psp is_update none addons = addons
append_psp is_update (some base64) addons =
    if is_update
    then append_addon_if_not_present addons (record {
      name = "pod-security-policy";
      enabled = none;
      containers = [];
      config = none;
      content = base64;
    })
    else addons

unfoldable pub find_addon : String → List Addon → Option Addon
find_addon name [] = none
find_addon name (a ∷ addons) =
    let later = find_addon name addons in if a.name == name then some a else later

unfoldable pub enable_calico : Bool → Addon → List Addon → List Addon
enable_calico is_update default [] = []
enable_calico is_update default (a ∷ addons) =
    let later = enable_calico is_update default addons in
    if a.name == "calico-daemonset"
    then assign_default_addon_vals is_update (record a { enabled = some true }) default ∷ addons
    else a ∷ later

-- The first Calico add-on is enabled and has its defaults applied again; the comparison of its
-- `Enabled` with a new pointer is always unequal. `none` is the panic without a default of the name.
abbrev pub calico_with : Bool → Option Addon → List Addon → Option (List Addon)
calico_with is_update none addons = none
calico_with is_update (some default) addons = some (enable_calico is_update default addons)

abbrev pub is_some : Option Addon → Bool
is_some none = false
is_some (some a) = true

abbrev pub given_or_defaults : List Addon → Option (List Addon) → List Addon
given_or_defaults defaults none = defaults
given_or_defaults defaults (some user) = append_each defaults user

-- Without add-ons of the user, the list of the cluster is the list of the defaults itself.
abbrev pub defaults_after : List Addon → List Addon → Option (List Addon) → List Addon
defaults_after defaults addons none = addons
defaults_after defaults addons (some user) = defaults

-- `psp` is the entry "data" of PodSecurityPolicyConfig.
unfoldable pub set_addons_config :
    Bool → Bool → Option String → List Addon → Option (List Addon) → Option (List Addon)
unfolding append_each synthesize_each find_addon append_addon_if_not_present enable_calico
    assign_default_addon_vals
set_addons_config is_update is_calico psp defaults user =
    let merged = synthesize_each is_update defaults (given_or_defaults defaults user) in
    let addons = append_psp is_update psp merged in
    if is_update && is_calico && is_some (find_addon "calico-daemonset" addons)
    then calico_with is_update (find_addon "calico-daemonset" (defaults_after defaults merged user))
        addons
    else some addons
