-- ===== src/Defaults/Addons/Names.antt =====
-- Which add-ons a cluster has after `setAddonsConfig`.
use aks_engine.Common.{
  ◌≡◌, refl, ℕ, map-append, sym, ap, ◌∙◌, String, Bool, true, false, ◌&&◌, ◌||◌, Option, none, some,
  List, [], ◌∷◌, map, elem, elem-append, Bool-cases, Option-cases, inl, inr, ◌==◌, string_eq,
  eq_iff, arith,
}
use aks_engine.Defaults.Addons.{
  Addon, assign_default_addon_vals, get_addons_index_by_name, append_addon_if_not_present,
  append_each, synthesize_addons_config, synthesize_each, enable_calico, calico_with, find_addon,
  is_some, append_psp, given_or_defaults, defaults_after, set_addons_config,
}

abbrev pub names : List Addon → List String
names addons = map (λ a. a.name) addons

assign-name :
    (is_update : Bool) (a d : Addon) → (assign_default_addon_vals is_update a d).name ≡ a.name
unfolding assign_default_addon_vals
assign-name is_update a d = ground arith

names-synthesize :
    (is_update : Bool) (d : Addon) (addons : List Addon)
    → names (synthesize_addons_config is_update d addons) ≡ names addons
unfolding synthesize_addons_config
names-synthesize is_update d [] = refl
names-synthesize is_update d (a ∷ addons) = elim (Bool-cases (a.name == d.name)) [
  | inl t ↦ rw t (ap (λ n. n ∷ names addons) (assign-name is_update a d))
  | inr f ↦ rw f (ap (◌∷◌ a.name) (names-synthesize is_update d addons))
]

names-synthesize_each :
    (is_update : Bool) (ds addons : List Addon)
    → names (synthesize_each is_update ds addons) ≡ names addons
unfolding synthesize_each
names-synthesize_each is_update [] addons = refl
names-synthesize_each is_update (d ∷ ds) addons =
    names-synthesize_each is_update ds (synthesize_addons_config is_update d addons)
    ∙ names-synthesize is_update d addons

names-enable_calico :
    (is_update : Bool) (d : Addon) (addons : List Addon)
    → names (enable_calico is_update d addons) ≡ names addons
unfolding enable_calico
names-enable_calico is_update d [] = refl
names-enable_calico is_update d (a ∷ addons) = elim (Bool-cases (a.name == "calico-daemonset")) [
  | inl t ↦
      rw t (ap (λ n. n ∷ names addons) (assign-name is_update (record a { enabled = some true }) d))
  | inr f ↦ rw f (ap (◌∷◌ a.name) (names-enable_calico is_update d addons))
]

abbrev is_found : Option ℕ → Bool
is_found none = false
is_found (some i) = true

get_addons_index-elem :
    (addons : List Addon) (name : String)
    → is_found (get_addons_index_by_name addons name) ≡ elem name (names addons)
unfolding get_addons_index_by_name
get_addons_index-elem [] name = refl
get_addons_index-elem (a ∷ addons) name =
    elim (Option-cases (get_addons_index_by_name addons name)) [
      | inl e ↦
          ground
            (arith, e, get_addons_index-elem addons name, eq_iff a.name name, eq_iff name a.name)
      | inr (i, e) ↦
          ground
            (arith, e, get_addons_index-elem addons name, eq_iff a.name name, eq_iff name a.name)
    ]

find_addon-elem :
    (name : String) (addons : List Addon)
    → is_some (find_addon name addons) ≡ elem name (names addons)
unfolding find_addon
find_addon-elem name [] = refl
find_addon-elem name (a ∷ addons) =
    ground (arith, find_addon-elem name addons, eq_iff a.name name, eq_iff name a.name)

elem-append_one :
    (addons : List Addon) (a : Addon) (n : String)
    → elem n (names (append_addon_if_not_present addons a)) ≡ (elem n (names addons) || n == a.name)
unfolding append_addon_if_not_present
elem-append_one addons a n = elim (Option-cases (get_addons_index_by_name addons a.name)) [
  | inl e ↦
      rw (e, map-append (λ (b : Addon). b.name) addons (a ∷ []))
        (ground (arith, elem-append n (names addons) (a.name ∷ [])))
  | inr (i, e) ↦
      let present : elem a.name (names addons) ≡ true =
        sym (get_addons_index-elem addons a.name) ∙ ap is_found e in
      elim (Bool-cases (n == a.name)) [
        | inl t ↦
            let q : n ≡ a.name = (eq_iff n a.name).0 t in rw e (rw q (ground (arith, present)))
        | inr f ↦ rw e (ground (arith, f))
      ]
]

elem-append_each :
    (defaults addons : List Addon) (n : String)
    → elem n (names (append_each defaults addons))
      ≡ (elem n (names addons) || elem n (names defaults))
unfolding append_each
elem-append_each [] addons n = ground arith
elem-append_each (d ∷ defaults) addons n = ground (
  arith,
  elem-append_each defaults (append_addon_if_not_present addons d) n,
  elem-append_one addons d n,
)

abbrev pub or_no_addons : Option (List Addon) → List Addon
or_no_addons none = []
or_no_addons (some addons) = addons

elem-given :
    (defaults : List Addon) (user : Option (List Addon)) (n : String)
    → elem n (names (given_or_defaults defaults user))
      ≡ (elem n (names (or_no_addons user)) || elem n (names defaults))
elem-given defaults none n = refl
elem-given defaults (some user) n = elem-append_each defaults user n

-- The add-on for pod security policies is for updates with a policy.
abbrev pub is_psp : Bool → Option String → String → Bool
is_psp is_update none n = false
is_psp is_update (some base64) n = is_update && n == "pod-security-policy"

elem-append_psp :
    (is_update : Bool) (psp : Option String) (addons : List Addon) (n : String)
    → elem n (names (append_psp is_update psp addons))
      ≡ (elem n (names addons) || is_psp is_update psp n)
elem-append_psp is_update none addons n = ground arith
elem-append_psp true (some base64) addons n =
    elem-append_one addons
      (record {
        name = "pod-security-policy";
        enabled = none;
        containers = [];
        config = none;
        content = base64;
      })
      n
elem-append_psp false (some base64) addons n = ground arith

-- Calico's default is there in both representations of the defaults.
find_addon-defaults_after :
    (is_update : Bool) (defaults : List Addon) (user : Option (List Addon)) (n : String)
    → is_some (
        find_addon n (
          defaults_after defaults
            (synthesize_each is_update defaults (given_or_defaults defaults user))
            user))
      ≡ is_some (find_addon n defaults)
find_addon-defaults_after is_update defaults none n =
    find_addon-elem n (synthesize_each is_update defaults defaults)
    ∙ ap (elem n) (names-synthesize_each is_update defaults defaults)
    ∙ sym (find_addon-elem n defaults)
find_addon-defaults_after is_update defaults (some user) n = refl

record Finishes (result : Option (List Addon)) (addons : List Addon) : Type 0 where
  out : List Addon
  result_is : result ≡ some out
  same_names : names out ≡ names addons

calico_with-Finishes :
    (is_update : Bool) (default : Option Addon) (addons : List Addon)
    → is_some default ≡ true
    → Finishes (calico_with is_update default addons) addons
calico_with-Finishes is_update none addons h = absurd (ground (arith, h))
calico_with-Finishes is_update (some d) addons h = record {
  out = enable_calico is_update d addons;
  result_is = refl;
  same_names = names-enable_calico is_update d addons;
}

set_addons_config-Finishes :
    (is_update is_calico : Bool) (psp : Option String) (defaults : List Addon)
    (user : Option (List Addon))
    → is_some (find_addon "calico-daemonset" defaults) ≡ true
    → Finishes (set_addons_config is_update is_calico psp defaults user) (
        append_psp is_update psp
          (synthesize_each is_update defaults (given_or_defaults defaults user)))
unfolding set_addons_config
set_addons_config-Finishes is_update is_calico psp defaults user h =
    let merged = synthesize_each is_update defaults (given_or_defaults defaults user) in
    let addons = append_psp is_update psp merged in
    elim (Bool-cases (is_update && is_calico && is_some (find_addon "calico-daemonset" addons))) [
      | inl t ↦ rw t (
          calico_with-Finishes is_update
            (find_addon "calico-daemonset" (defaults_after defaults merged user)) addons
            (find_addon-defaults_after is_update defaults user "calico-daemonset" ∙ h))
      | inr f ↦ rw f record { out = addons; result_is = refl; same_names = refl }
    ]

-- `setAddonsConfig` succeeds if there is a default for Calico, and the cluster then has an add-on of
-- a name exactly if the user gave one, if there is a default one, or if it is the one for pod security
-- policies and an update has such a policy: no add-on of the user is lost.
pub elem-set_addons_config :
    (is_update is_calico : Bool) (psp : Option String) (defaults : List Addon)
    (user : Option (List Addon))
    → is_some (find_addon "calico-daemonset" defaults) ≡ true
    → (out : List Addon) × (set_addons_config is_update is_calico psp defaults user ≡ some out)
      × ((n : String)
          → elem n (names out) ≡ (
              elem n (names (or_no_addons user))
              || elem n (names defaults)
              || is_psp is_update psp n))
elem-set_addons_config is_update is_calico psp defaults user h =
    let r = set_addons_config-Finishes is_update is_calico psp defaults user h in
    let given = given_or_defaults defaults user in
    (
      r.out,
      r.result_is,
      λ n.
          ap (elem n) r.same_names
          ∙ elem-append_psp is_update psp (synthesize_each is_update defaults given) n
          ∙ ap (λ ns. elem n ns || is_psp is_update psp n)
              (names-synthesize_each is_update defaults given)
          ∙ ground (arith, elem-given defaults user n),
    )
