-- ===== src/Names.antt =====
-- pkg/armhelpers/utils/util.go: the parts of the names of virtual machines and of scale sets. The
-- regular expressions are recognisers over the characters of a text: in each of them but the first
-- the groups can match in one way only, and the greedy `(.+)` takes the longest pool name.
mod Examples
pub mod Decimals
pub mod Tails
pub mod RoundTrip
use Prim.Native.Nat.{◌^◌}
use Prim.Native.Char.{Char, code}
use aks_engine.Common.{
  ℕ, zero, suc, ◌+◌, ◌-◌, String, Bool, ◌&&◌, not, Option, none, some, ltb, leb, nat_beq,
  if◌then◌else◌, is_empty, decimal, ◌<>◌, Result, ok, err, ◌>>=◌,
}
use aks_engine.Patterns.{
  is_digit, is_hex, is_alnum, all_of, some_of, take_run, take_while, drop_dash, drop_dashes,
  number_from,
}
use aks_engine.Cloud.{OsType, linux, windows}
use aks_engine.Cluster.{
  Properties, AgentPoolProfile, get_agent_vm_prefix, get_agent_pool_index_by_name,
}

-- "resource name was missing from identifier", the error of `strconv.Atoi` on a number that does
-- not fit an int64, "Failed to reconstruct VM Name", and an index out of range.
pub data NameError : Type 0 where
  missing bad_number no_vm_name panicked : NameError

unfoldable pub atoi : String → Result NameError ℕ
unfolding number_from is_digit some_of
atoi s =
    let n = number_from 0 s in if some_of is_digit s && ltb n (2 ^ 63) then ok n else err bad_number

-- `-([0-9a-fA-F]{8})-{0,2}([0-9]+)$`
unfoldable pub linux_tail : String → Option (String × String)
unfolding take_run is_hex drop_dashes some_of is_digit
linux_tail s = do_tail (drop_dash s)
  where
    after_id : Option (String × String) → Option (String × String)
    after_id none = none
    after_id (some (id, rest)) =
        if some_of is_digit (drop_dashes rest) then some (id, drop_dashes rest) else none

    do_tail : Option String → Option (String × String)
    do_tail none = none
    do_tail (some t) = after_id (take_run 8 is_hex t)

-- `-([0-9a-fA-F]{8})-vmss$`
unfoldable pub vmss_tail : String → Option (String × String)
unfolding take_run is_hex drop_dash
vmss_tail s = do_tail (drop_dash s)
  where
    after_id : Option (String × String) → Option (String × String)
    after_id none = none
    after_id (some (id, rest)) =
        if text.Mathlib.Text.◌==◌ rest "-vmss" then some (id, rest) else none

    do_tail : Option String → Option (String × String)
    do_tail none = none
    do_tail (some t) = after_id (take_run 8 is_hex t)

-- `(.+)` before a tail: the longest text of one or more characters, newlines excluded.
abbrev choose_pool :
    Char
    → Option (String × String × String)
    → Option (String × String)
    → Option (String × String × String)
choose_pool c (some (pool, id, rest)) now = some (String.◌∷◌ c pool, id, rest)
choose_pool c none (some (id, rest)) = some (String.◌∷◌ c String.[], id, rest)
choose_pool c none none = none

unfoldable pub pool_before :
    (String → Option (String × String)) → String → Option (String × String × String)
pool_before tail String.[] = none
pool_before tail (String.◌∷◌ c s) =
    let longer = pool_before tail s in
    if nat_beq (code c) 10 then none else choose_pool c longer (tail s)

-- The result of FindStringSubmatch behind a prefix and a dash.
abbrev pool_after_dash :
    (String → Option (String × String)) → Option String → Option (String × String × String)
pool_after_dash tail none = none
pool_after_dash tail (some s) = pool_before tail s

abbrev linux_groups : Option (String × String) → Option (String × String × String)
linux_groups none = none
linux_groups (some (_, rest)) = pool_after_dash linux_tail (drop_dash rest)

abbrev linux_parts : Option (String × String × String) → Result NameError (String × String × ℕ)
linux_parts none = err missing
linux_parts (some (pool, id, digits)) = atoi digits >>= λ n. ok (pool, id, n)

unfoldable pub k8s_linux_vm_name_parts : String → Result NameError (String × String × ℕ)
unfolding take_run is_alnum linux_tail pool_before drop_dash atoi
k8s_linux_vm_name_parts vm_name = linux_parts (linux_groups (take_run 3 is_alnum vm_name))

abbrev vmss_groups : Option (String × String × String) → Result NameError (String × String)
vmss_groups none = err missing
vmss_groups (some (pool, id, _)) = ok (pool, id)

unfoldable pub vmss_name_parts : String → Result NameError (String × String)
unfolding take_while is_alnum vmss_tail pool_before drop_dash
vmss_name_parts vmss_name =
    let (start, rest) = take_while is_alnum vmss_name in
    if is_empty start then err missing else vmss_groups (pool_after_dash vmss_tail (drop_dash rest))

-- `aks([0-9a-zA-Z]+)$`, found at the leftmost place where it matches.
abbrev drop_aks : String → Option String
drop_aks (String.◌∷◌ a (String.◌∷◌ k (String.◌∷◌ s rest))) =
    if nat_beq (code a) b'a' && nat_beq (code k) b'k' && nat_beq (code s) b's'
    then some rest
    else none
drop_aks _ = none

abbrev pool_here : Option String → Option String
pool_here none = none
pool_here (some rest) = if some_of is_alnum rest then some rest else none

abbrev first_of : Option String → Option String → Option String
first_of (some a) other = some a
first_of none other = other

aks_pool : String → Option String
aks_pool String.[] = none
aks_pool (String.◌∷◌ c s) =
    let later = aks_pool s in first_of (pool_here (drop_aks (String.◌∷◌ c s))) later

abbrev found_or_missing : Option String → Result NameError String
found_or_missing none = err missing
found_or_missing (some s) = ok s

unfoldable pub windows_vmss_name_parts : String → Result NameError String
unfolding aks_pool some_of is_alnum
windows_vmss_name_parts vmss_name = found_or_missing (aks_pool vmss_name)

-- `{lo,hi}$`: a text of a class whose length is in the range.
abbrev length_of : String → ℕ
length_of String.[] = 0
length_of (String.◌∷◌ c s) = suc (length_of s)

run_between : ℕ → ℕ → (Char → Bool) → String → Bool
unfolding all_of
run_between lo hi p s = all_of p s && leb lo (length_of s) && leb (length_of s) hi

starts_with_nine : String → Option String
starts_with_nine String.[] = none
starts_with_nine (String.◌∷◌ c s) = if nat_beq (code c) b'9' then some s else none

-- The groups that are used: the prefix, the orchestrator and the pool's and the machine's index.
abbrev old_info : String → String → Option String → Option (String × String × String)
old_info prefix orch none = none
old_info prefix orch (some info) =
    if run_between 3 5 is_alnum info then some (prefix, orch, info) else none

abbrev old_orch : String → Option (String × String) → Option (String × String × String)
old_orch prefix none = none
old_orch prefix (some (orch, rest)) = old_info prefix orch (starts_with_nine rest)

abbrev old_prefix : Option (String × String) → Option (String × String × String)
old_prefix none = none
old_prefix (some (prefix, rest)) = old_orch prefix (take_run 3 is_alnum rest)

abbrev new_orch : String → Option (String × String) → Option (String × String × String)
new_orch prefix none = none
new_orch prefix (some (orch, info)) =
    if run_between 3 8 is_digit info then some (prefix, orch, info) else none

abbrev new_prefix : Option (String × String) → Option (String × String × String)
new_prefix none = none
new_prefix (some (prefix, rest)) = new_orch prefix (take_run 3 is_alnum rest)

-- The old format is tried first.
abbrev windows_groups :
    Option (String × String × String)
    → Option (String × String × String)
    → Option (String × String × String)
windows_groups (some g) other = some g
windows_groups none other = other

-- poolInfo[:2] and poolInfo[2:]; the text has at least three characters, all in ASCII.
abbrev split_info : String → Result NameError (ℕ × ℕ)
split_info (String.◌∷◌ a (String.◌∷◌ b rest)) =
    atoi (String.◌∷◌ a (String.◌∷◌ b String.[])) >>= λ pool. atoi rest >>= λ agent. ok (pool, agent)
split_info _ = err panicked

abbrev windows_parts :
    Option (String × String × String) → Result NameError (String × String × ℕ × ℕ)
windows_parts none = err missing
windows_parts (some (prefix, orch, info)) =
    split_info info >>= λ indices. ok (prefix, orch, indices.0, indices.1)

unfoldable pub windows_vm_name_parts : String → Result NameError (String × String × ℕ × ℕ)
unfolding take_run is_hex is_alnum is_digit run_between starts_with_nine atoi
windows_vm_name_parts vm_name = windows_parts (
    windows_groups (old_prefix (take_run 5 is_hex vm_name))
      (new_prefix (take_run 4 is_hex vm_name)))

abbrev linux_index : Result NameError (String × String × ℕ) → Result NameError ℕ
linux_index (ok (_, _, n)) = ok n
linux_index (err e) = err e

abbrev windows_index : Result NameError (String × String × ℕ × ℕ) → Result NameError ℕ
windows_index (ok (_, _, _, n)) = ok n
windows_index (err e) = err e

unfoldable pub get_vm_name_index : OsType → String → Result NameError ℕ
get_vm_name_index linux vm_name = linux_index (k8s_linux_vm_name_parts vm_name)
get_vm_name_index windows vm_name = windows_index (windows_vm_name_parts vm_name)

-- index, _ := GetVMNameIndex(…): beside an error the index is 0.
abbrev pub index_or_zero : Result NameError ℕ → ℕ
index_or_zero (ok n) = n
index_or_zero (err e) = 0

abbrev with_index : Option String → ℕ → Result NameError String
with_index none agent_index = err panicked
with_index (some prefix) agent_index =
    if is_empty prefix then err no_vm_name else ok (prefix <> decimal agent_index)

unfoldable pub get_k8s_vm_name : Properties → AgentPoolProfile → ℕ → Result NameError String
get_k8s_vm_name p profile agent_index =
    with_index (get_agent_vm_prefix p profile (get_agent_pool_index_by_name p profile.name))
      agent_index

-- The last segment of a text cut at `/`.
last_segment : String → String → String
last_segment current String.[] = current
last_segment current (String.◌∷◌ c s) =
    last_segment (if nat_beq (code c) b'/' then String.[] else current <> String.◌∷◌ c String.[]) s

unfoldable pub resource_name : String → Result NameError String
unfolding last_segment
resource_name id =
    let name = last_segment String.[] id in if is_empty name then err missing else ok name
