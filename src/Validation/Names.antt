-- ===== src/Validation/Names.antt =====
-- pkg/api/vlabs/validate.go and pkg/api/common/helper.go: the checks of names, ports, labels and of
-- the versions of etcd and containerd. The regular expressions are recognisers.
pub mod Labels
pub mod Ports
use Prim.Native.Char.{Char, code}
use aks_engine.Common.{
  ℕ, zero, suc, ◌+◌, String, Bool, true, false, not, ◌&&◌, ◌||◌, List, [], ◌∷◌, elem, any,
  if◌then◌else◌, ltb, leb, nat_beq, ◌==◌, string_eq, nat_eq, is_empty, ok, err, ◌>>◌, ◌>>=◌,
}
use aks_engine.Patterns.{is_digit, is_alnum}
use aks_engine.Validation.{
  ValidationError, Check, refuse_if, invalid_pool_name, invalid_dns_prefix, duplicate_port,
  invalid_label_value, invalid_label_key, label_key_prefix_too_long, invalid_etcd_version,
  invalid_containerd_version, image_name_missing, image_group_missing,
}

abbrev pub is_lower : Char → Bool
is_lower c = leb b'a' (code c) && leb (code c) b'z'

abbrev pub is_letter : Char → Bool
is_letter c = is_lower c || leb b'A' (code c) && leb (code c) b'Z'

-- `[…]{0,n}$`
unfoldable pub at_most : ℕ → (Char → Bool) → String → Bool
at_most n p String.[] = true
at_most zero p (String.◌∷◌ c s) = false
at_most (suc n) p (String.◌∷◌ c s) = p c && at_most n p s

-- ^([a-z][a-z0-9]{0,11})$
unfoldable pub is_pool_name : String → Bool
unfolding at_most is_digit
is_pool_name String.[] = false
is_pool_name (String.◌∷◌ c s) = is_lower c && at_most 11 (λ d. is_lower d || is_digit d) s

unfoldable pub validate_pool_name : String → Check
unfolding is_pool_name
validate_pool_name name = refuse_if (not (is_pool_name name)) (invalid_pool_name name)

-- `[middle]{0,n}[last]$`: after at most n characters of a class comes the last one.
unfoldable pub ends_after : ℕ → (Char → Bool) → (Char → Bool) → String → Bool
ends_after n middle last String.[] = false
ends_after zero middle last (String.◌∷◌ c s) = last c && is_empty s
ends_after (suc n) middle last (String.◌∷◌ c s) =
    let later = ends_after n middle last s in last c && is_empty s || middle c && later

-- ^([A-Za-z][A-Za-z0-9-]{1,43}[A-Za-z0-9])$
abbrev dash_or_alnum : Char → Bool
dash_or_alnum c = is_alnum c || nat_beq (code c) b'-'

abbrev is_dns_tail : String → Bool
is_dns_tail String.[] = false
is_dns_tail (String.◌∷◌ c s) = dash_or_alnum c && ends_after 42 dash_or_alnum is_alnum s

unfoldable pub is_dns_prefix : String → Bool
unfolding ends_after is_alnum
is_dns_prefix String.[] = false
is_dns_prefix (String.◌∷◌ c s) = is_letter c && is_dns_tail s

unfoldable pub validate_dns_prefix : String → Check
unfolding is_dns_prefix
validate_dns_prefix name = refuse_if (not (is_dns_prefix name)) (invalid_dns_prefix name)

-- The loop over the ports, with the ports seen before; the type of a port is int, and no negative
-- port gets past the bounds of the field.
unfoldable pub check_ports : String → List ℕ → List ℕ → Check
check_ports name seen [] = ok tt
check_ports name seen (port ∷ ports) =
    let later = check_ports name (port ∷ seen) ports in
    if elem port seen then err (duplicate_port name port) else later

unfoldable pub validate_unique_ports : List ℕ → String → Check
unfolding check_ports
validate_unique_ports ports name = check_ports name [] ports

-- ^([A-Za-z0-9][-A-Za-z0-9_.]{0,61})?[A-Za-z0-9]$
abbrev pub is_label_char : Char → Bool
is_label_char c =
    is_alnum c || nat_beq (code c) b'-' || nat_beq (code c) b'_' || nat_beq (code c) b'.'

unfoldable pub is_label : String → Bool
unfolding ends_after is_alnum
is_label String.[] = false
is_label (String.◌∷◌ c s) = is_alnum c && (is_empty s || ends_after 61 is_label_char is_alnum s)

unfoldable pub validate_kubernetes_label_value : String → Check
unfolding is_label
validate_kubernetes_label_value v =
    refuse_if (not (is_empty v) && not (is_label v)) (invalid_label_value v)

-- (([a-zA-Z0-9-]+[.])*[a-zA-Z0-9-]+[/])?…: a slash ends the prefix, which no dot starts, ends or
-- follows another dot in. The label after it has no slash.
unfoldable pub after_slash : String → Bool × String
after_slash String.[] = (false, String.[])
after_slash (String.◌∷◌ c s) =
    let later = after_slash s in if nat_beq (code c) b'/' then (true, s) else later

-- `fresh` is the state after a dot and at the start.
unfoldable pub is_subdomain : Bool → String → Bool
is_subdomain fresh String.[] = false
is_subdomain fresh (String.◌∷◌ c s) =
    let within = is_subdomain false s in
    let restarted = is_subdomain true s in
    if nat_beq (code c) b'/'
    then not fresh
    else if nat_beq (code c) b'.'
    then not fresh && restarted
    else dash_or_alnum c && within

unfoldable pub is_label_key : String → Bool
unfolding after_slash is_subdomain is_label is_alnum
is_label_key k =
    let (found, name) = after_slash k in
    if found then is_subdomain true k && is_label name else is_label k

-- len(strings.Split(k, "/")[0]); in a key that has matched, all characters are one byte long.
unfoldable pub prefix_length : String → ℕ
prefix_length String.[] = 0
prefix_length (String.◌∷◌ c s) =
    let later = prefix_length s in if nat_beq (code c) b'/' then 0 else later + 1

unfoldable pub validate_kubernetes_label_key : String → Check
unfolding is_label_key prefix_length after_slash
validate_kubernetes_label_key k =
    refuse_if (not (is_label_key k)) (invalid_label_key k)
    >> refuse_if ((after_slash k).0 && ltb 253 (prefix_length k)) (label_key_prefix_too_long k)

abbrev pub etcd_valid_versions : List String
etcd_valid_versions =
    "2.2.5" ∷ "2.3.0" ∷ "2.3.1" ∷ "2.3.2" ∷ "2.3.3" ∷ "2.3.4" ∷ "2.3.5" ∷ "2.3.6" ∷ "2.3.7"
    ∷ "2.3.8" ∷ "3.0.0" ∷ "3.0.1" ∷ "3.0.2" ∷ "3.0.3" ∷ "3.0.4" ∷ "3.0.5" ∷ "3.0.6" ∷ "3.0.7"
    ∷ "3.0.8" ∷ "3.0.9" ∷ "3.0.10" ∷ "3.0.11" ∷ "3.0.12" ∷ "3.0.13" ∷ "3.0.14" ∷ "3.0.15" ∷ "3.0.16"
    ∷ "3.0.17" ∷ "3.1.0" ∷ "3.1.1" ∷ "3.1.2" ∷ "3.1.2" ∷ "3.1.3" ∷ "3.1.4" ∷ "3.1.5" ∷ "3.1.6"
    ∷ "3.1.7" ∷ "3.1.8" ∷ "3.1.9" ∷ "3.1.10" ∷ "3.2.0" ∷ "3.2.1" ∷ "3.2.2" ∷ "3.2.3" ∷ "3.2.4"
    ∷ "3.2.5" ∷ "3.2.6" ∷ "3.2.7" ∷ "3.2.8" ∷ "3.2.9" ∷ "3.2.11" ∷ "3.2.12" ∷ "3.2.13" ∷ "3.2.14"
    ∷ "3.2.15" ∷ "3.2.16" ∷ "3.2.23" ∷ "3.2.24" ∷ "3.2.25" ∷ "3.2.26" ∷ "3.3.0" ∷ "3.3.1" ∷ "3.3.8"
    ∷ "3.3.9" ∷ "3.3.10" ∷ "3.3.13" ∷ []

unfoldable pub validate_etcd_version : String → Check
validate_etcd_version v =
    refuse_if (not (is_empty v) && not (elem v etcd_valid_versions)) (invalid_etcd_version v)

abbrev pub containerd_valid_versions : List String
containerd_valid_versions = "1.1.5" ∷ "1.1.6" ∷ "1.2.4" ∷ []

unfoldable pub validate_containerd_version : String → Check
validate_containerd_version v =
    refuse_if (not (is_empty v) && not (elem v containerd_valid_versions))
      (invalid_containerd_version v)

-- ImageReference: a name and a resource group, both or neither.
unfoldable pub validate_image_name_and_group : String → String → Check
validate_image_name_and_group name group =
    refuse_if (is_empty name && not (is_empty group)) image_name_missing
    >> refuse_if (not (is_empty name) && is_empty group) image_group_missing
