-- ===== src/Parse/Snapshots.antt =====
-- `parseSnapshots` of snapshot_parser.go. The map from suffixes to entries and the order of their
-- first appearance are one association list.
use mathlib.Core.List.{foldl}
use tab_vm.Parse.{machine_pairs, split_machine_readable_raw_key, prepend}
use tab_vm.Strings.{Text, txt, text_eq, is_empty, has_prefix, trim_prefix, lines}
use tab_vm.Prelude.{◌==◌, if◌then◌else◌, ℕ, suc, Bool, not, ◌&&◌, Option, none, some, List, [], ◌∷◌}

pub record Entry : Type 0 where
  pub name : Text
  pub uuid : Text
  pub description : Text

-- `models.Snapshot`.
pub record Snapshot : Type 0 where
  pub name : Text
  pub uuid : Text
  pub description : Text
  pub depth : ℕ
  pub current : Bool

abbrev pub Entries : Type 0
Entries = List (Text × Entry)

abbrev pub no_entry : Entry
no_entry = record { name = []; uuid = []; description = [] }

-- `get(suffix)` and a write of one field: a suffix that is new goes to the end.
unfoldable pub update : Text → (Entry → Entry) → Entries → Entries
update suffix f [] = (suffix, f no_entry) ∷ []
update suffix f ((k, e) ∷ es) =
    if text_eq k suffix then (k, f e) ∷ es else (k, e) ∷ update suffix f es

pub record Scan : Type 0 where
  pub entries : Entries
  pub current : Text

unfoldable pub scan_pair : Scan → Text × Text → Scan
scan_pair s (key, value) =
    if text_eq key (txt "CurrentSnapshotUUID")
    then record s { current = value }
    else if has_prefix key (txt "SnapshotName")
    then record s {
      entries =
          update (trim_prefix key (txt "SnapshotName")) (λ e. record e { name = value }) s.entries;
    }
    else if has_prefix key (txt "SnapshotUUID")
    then record s {
      entries =
          update (trim_prefix key (txt "SnapshotUUID")) (λ e. record e { uuid = value }) s.entries;
    }
    else if has_prefix key (txt "SnapshotDescription")
    then record s {
      entries =
          update (trim_prefix key (txt "SnapshotDescription"))
            (λ e. record e { description = value }) s.entries;
    }
    else s

-- `strings.Count(suffix, "-")`.
unfoldable pub count_dashes : Text → ℕ
count_dashes [] = 0
count_dashes (c ∷ s) = let n = count_dashes s in if c == b'-' then suc n else n

-- An entry with neither a name nor an identifier is dropped.
unfoldable pub snapshot_of : Text → Text × Entry → Option Snapshot
snapshot_of current (suffix, e) =
    if is_empty e.name && is_empty e.uuid
    then none
    else some (record {
      name = e.name;
      uuid = e.uuid;
      description = e.description;
      depth = count_dashes suffix;
      current = not (is_empty current) && text_eq e.uuid current;
    })

unfoldable pub snapshots_of : Text → Entries → List Snapshot
snapshots_of current [] = []
snapshots_of current (e ∷ es) = prepend (snapshot_of current e) (snapshots_of current es)

unfoldable pub parse_snapshots : Text → List Snapshot × Text
parse_snapshots output =
    let s =
      foldl scan_pair (record { entries = []; current = [] })
        (machine_pairs split_machine_readable_raw_key (lines output)) in
    (snapshots_of s.current s.entries, s.current)
