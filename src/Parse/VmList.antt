-- ===== src/Parse/VmList.antt =====
-- `parseListVmsOutput` and `parseRunningVmIDs` of parser.go.
use mathlib.Core.Option
use tab_vm.Parse.{prepend}
use tab_vm.Strings.{Text, is_empty, trim_space, drop, take, lines, txt}
use tab_vm.Strings.Search.{index_byte}
use tab_vm.Prelude.{ltb, if◌then◌else◌, length, suc, Option, none, some, List, [], ◌∷◌, ◌==◌}

-- `models.VmInfo`.
pub record VmInfo : Type 0 where
  pub id : Text
  pub name : Text
  pub state : Text

-- What stands between the first `{` and the first `}`, if that comes later.
unfoldable pub between_braces : Text → Option Text
between_braces s = elim (index_byte s b'{') [
  | none ↦ none
  | some i ↦ elim (index_byte s b'}') [
    | none ↦ none
    | some j ↦ if ltb i j then some (drop (suc i) (take j s)) else none
  ]
]

-- Behind the opening quote: the name up to the closing one, and the id in the remainder.
unfoldable pub quoted_vm : Text → Option VmInfo
quoted_vm s = elim (index_byte s b'"') [
  | none ↦ none
  | some n ↦
      let id = Option.get_or (between_braces (drop (suc n) s)) [] in
      some (record { id = id; name = take n s; state = txt "listed" })
]

unfoldable pub vm_of_line : Text → Option VmInfo
vm_of_line [] = none
vm_of_line (c ∷ s) =
    if ltb (length (c ∷ s)) 3 then none else if c == b'"' then quoted_vm s else none

unfoldable pub vms_of_lines : List Text → List VmInfo
vms_of_lines [] = []
vms_of_lines (l ∷ ls) = prepend (vm_of_line (trim_space l)) (vms_of_lines ls)

unfoldable pub parse_list_vms_output : Text → List VmInfo
parse_list_vms_output output = vms_of_lines (lines output)

abbrev pub unless_empty : Option Text → Option Text
unless_empty none = none
unless_empty (some s) = if is_empty s then none else some s

unfoldable pub running_id_of_line : Text → Option Text
running_id_of_line line = if ltb (length line) 3 then none else unless_empty (between_braces line)

unfoldable pub running_ids_of_lines : List Text → List Text
running_ids_of_lines [] = []
running_ids_of_lines (l ∷ ls) =
    prepend (running_id_of_line (trim_space l)) (running_ids_of_lines ls)

unfoldable pub parse_running_vm_ids : Text → List Text
parse_running_vm_ids output = running_ids_of_lines (lines output)
