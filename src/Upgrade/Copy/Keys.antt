-- ===== src/Upgrade/Copy/Keys.antt =====
-- What a node's annotations and labels are after the copying, by their keys.
use aks_engine.Common.{
  ◌≡◌, String, Option, none, some, [], ◌∷◌, arith, lookup, insert, lookup-insert, string_eq,
}
use aks_engine.Upgrade.Copy.{Strings, copy_missing, replace_all}

-- The value of a key after the copying: the new node's own, else the old node's with the old name
-- replaced by the new one.
abbrev pub copied_value : String → String → Option String → Option String → Option String
copied_value old_name new_name (some w) source = some w
copied_value old_name new_name none none = none
copied_value old_name new_name none (some v) = some (replace_all old_name new_name v)

-- After the copying, each key that the new node had keeps its value, each other key of the old node
-- has the old node's value with the name replaced, and there are no other keys.
pub lookup-copy_missing :
    (old_name new_name : String) (source target : Strings) (k : String)
    → lookup k (copy_missing old_name new_name source target)
      ≡ copied_value old_name new_name (lookup k target) (lookup k source)
unfolding copy_missing
lookup-copy_missing o n [] target k = ground arith
lookup-copy_missing o n ((j, v) ∷ source) target k = ground (
  arith,
  string_eq.same_iff j k,
  lookup-copy_missing o n source target k,
  lookup-copy_missing o n source (insert j (replace_all o n v) target) k,
  lookup-insert j k (replace_all o n v) target,
)
