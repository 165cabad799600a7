-- ===== src/Ops/Storage/Medium.antt =====
-- `showmediuminfo`: `parseSizeWithUnit` of telemetry_parser.go, and the resize policy of storage.go.
-- The parameter `scale` stands for `strconv.ParseFloat` on the number and the product with the
-- unit, cut to an `int64`; `none` is a text that is no number.
use mathlib.Core.Option
use mathlib.Core.List.{foldl}
use tab_vm.Parse.{after_label}
use tab_vm.Strings.{Text, txt, one_of, to_lower, to_upper, trim_space, lines}
use tab_vm.Strings.Search.{contains, fields}
use tab_vm.Prelude.{
  if◌then◌else◌, ℕ, ◌/◌, ◌^◌, Bool, true, false, not, Option, none, some, List, [], ◌∷◌, ◌++◌,
}
use tab_vm.Prelude.Int.{ℤ, pos, negsuc}

pub record MediumDetails : Type 0 where
  pub format : Text
  pub variant : Text
  pub capacity_mb : ℤ
  pub allocated_mb : ℤ
  pub has_children : Bool

unfoldable pub unit_of : Text → ℕ
unit_of u =
    if one_of (txt "kbytes" ∷ txt "kb" ∷ []) u
    then 2 ^ 10
    else if one_of (txt "mbytes" ∷ txt "mb" ∷ []) u
    then 2 ^ 20
    else if one_of (txt "gbytes" ∷ txt "gb" ∷ []) u
    then 2 ^ 30
    else if one_of (txt "tbytes" ∷ txt "tb" ∷ []) u
    then 2 ^ 40
    else 1

-- The first field is the number, and the second, if there is one, the unit.
unfoldable pub parse_size_fields : (Text → ℕ → Option ℤ) → List Text → ℤ
parse_size_fields scale [] = pos 0
parse_size_fields scale (n ∷ []) = Option.get_or (scale n 1) (pos 0)
parse_size_fields scale (n ∷ u ∷ _) = Option.get_or (scale n (unit_of (to_lower u))) (pos 0)

unfoldable pub parse_size_with_unit : (Text → ℕ → Option ℤ) → Text → ℤ
parse_size_with_unit scale s = parse_size_fields scale (fields s)

-- `>> 20` rounds towards minus infinity.
abbrev pub megabytes : ℤ → ℤ
megabytes (pos n) = pos (n / 2 ^ 20)
megabytes (negsuc n) = negsuc (n / 2 ^ 20)

abbrev pub on_label : Option Text → (Text → MediumDetails) → MediumDetails → MediumDetails
on_label none f det = det
on_label (some v) f det = f v

-- One line; the labels are tried in this order.
unfoldable pub medium_line : (Text → ℕ → Option ℤ) → MediumDetails → Text → MediumDetails
medium_line scale det raw =
    let line = trim_space raw in
    on_label (after_label line (txt "Storage format:")) (λ v. record det { format = trim_space v })
      (on_label (after_label line (txt "Format variant:"))
        (λ v. record det { variant = trim_space v })
        (on_label (after_label line (txt "Capacity:"))
          (λ v. record det { capacity_mb = megabytes (parse_size_with_unit scale v) })
          (on_label (after_label line (txt "Size on disk:"))
            (λ v. record det { allocated_mb = megabytes (parse_size_with_unit scale v) })
            (on_label (after_label line (txt "Child UUIDs:"))
              (λ v. record det { has_children = true }) det))))

unfoldable pub parse_medium_details : (Text → ℕ → Option ℤ) → Text → MediumDetails
parse_medium_details scale output =
    foldl (medium_line scale)
      (record {
        format = [];
        variant = [];
        capacity_mb = pos 0;
        allocated_mb = pos 0;
        has_children = false;
      })
      (lines output)

-- The policy, with the reason of a refusal.
unfoldable pub disk_resizable : MediumDetails → Bool → Bool × Text
disk_resizable det editable =
    if not (one_of (txt "VDI" ∷ txt "VHD" ∷ []) (to_upper det.format))
    then (
      false,
      txt "Only VDI and VHD disks can be resized (this one is " ++ (det.format ++ txt ")."),
    )
    else if contains (to_lower det.variant) (txt "fixed")
    then (false, txt "Fixed-size disks cannot be resized.")
    else if det.has_children
    then (false, txt "This disk has snapshots. Delete them before resizing.")
    else if not editable
    then (false, txt "Power off the VM to resize its disks.")
    else (true, [])
