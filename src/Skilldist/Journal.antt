-- ===== src/Skilldist/Journal.antt =====
-- internal/skilldist/store.go: the file of receipts, by its content; a file that is missing is empty.
-- JSON is the parameter `Json`.
pub mod Scan
pub mod Laws
pub mod Samples
use rootline.Skilldist.Receipts.{ReceiptFault, in_list, validate_receipt_semantics}
use rootline.Base.{
  ℕ, String, ◌≡◌, List, [], ◌∷◌, leb, Bool, true, false, not, ◌&&◌, ◌||◌, Option, none, some,
  if◌then◌else◌, ◌==◌, nat_eq,
}
use Prim.Native.String.{◌++◌, slice}
use rootline.Base.Lines.{split_lines, trim_space, byte_length}
use rootline.Base.Dict.{Dict, lookup, has, insert}
use rootline.Base.FilePath.{clean}
use rootline.Query.Text.{contains}
use rootline.Skilldist.{
  Source, DestinationState, OperationError, Backup, ActionResult, Receipt, kind_absent,
  kind_directory, kind_correct_symlink, kind_divergent_symlink, kind_unsupported, operation_install,
  operation_uninstall, operation_restore, action_create_symlink, action_replace_with_symlink,
  action_remove_managed_symlink, action_restore_preimage, action_no_op, is_supported_destination_id,
}

-- encoding/json of a receipt: what a line is read as, and the line that is written.
pub record Json : Type 0 where
  pub parse : String → Option Receipt
  pub print : Receipt → String

pub data JournalFault : Type 0 where
  empty_line bad_json missing_id duplicate_id not_found too_long io : JournalFault
  refused : ReceiptFault → JournalFault

pub data Read (A : Type 0) : Type 0 where
  done : A → Read A
  failed : JournalFault → Read A

abbrev pub and_then : {A B : Type 0} → Read A → (A → Read B) → Read B
and_then (done a) f = f a
and_then (failed fault) f = failed fault

-- Which calls fail: `stops` is where the reading ends with an error, and `writes` how much of a line
-- gets into the file when writing it fails. MkdirAll fails as the opening does.
pub record Disk : Type 0 where
  pub cannot_read : Bool
  pub stops : Option ℕ
  pub cannot_close : Bool
  pub cannot_append : Bool
  pub writes : Option ℕ
  pub cannot_sync : Bool
  pub cannot_finish : Bool

-- bufio.Scanner gives up on a line that fills its buffer.
abbrev pub max_token : ℕ
max_token = 1_048_576

-- One line of the file, after the identifiers seen so far.
unfoldable pub read_line : Json → List String → String → Read Receipt
unfolding validate_receipt_semantics in_list
read_line json seen line = if line == "" then failed empty_line else elim (json.parse line) [
  | none ↦ failed bad_json
  | some receipt ↦
      if receipt.id == "" then failed missing_id else elim (validate_receipt_semantics receipt) [
        | some fault ↦ failed (refused fault)
        | none ↦ if in_list receipt.id seen then failed duplicate_id else done receipt
      ]
]

-- The loop of scanReceipts, and the errors of the scanner and of Close behind it.
unfoldable pub scan_lines : Json → Bool → List String → List String → Read (List Receipt)
unfolding read_line trim_space byte_length
scan_lines json fails seen [] = if fails then failed io else done []
scan_lines json fails seen (line ∷ lines) =
    if leb max_token (byte_length line)
    then failed too_long
    else and_then (read_line json seen (trim_space line)) λ receipt.
      and_then (scan_lines json fails (receipt.id ∷ seen) lines)
        λ receipts. done (receipt ∷ receipts)

abbrev pub reads_less : Option ℕ → String → String
reads_less none content = content
reads_less (some n) content = slice content 0 n

abbrev pub stops_short : Option ℕ → Bool
stops_short none = false
stops_short (some n) = true

unfoldable pub scan_receipts : Json → Disk → String → Read (List Receipt)
unfolding scan_lines split_lines
scan_receipts json disk content =
    if disk.cannot_read
    then failed io
    else scan_lines json (stops_short disk.stops || disk.cannot_close) []
        (split_lines (reads_less disk.stops content))

unfoldable pub find_receipt : String → List Receipt → Option Receipt
find_receipt id [] = none
find_receipt id (receipt ∷ receipts) =
    let rest = find_receipt id receipts in if receipt.id == id then some receipt else rest

unfoldable pub found_or : Option Receipt → Read Receipt
found_or none = failed not_found
found_or (some receipt) = done receipt

unfoldable pub load_receipt : Json → Disk → String → String → Read Receipt
unfolding scan_receipts find_receipt found_or
load_receipt json disk content id =
    and_then (scan_receipts json disk content) λ receipts. found_or (find_receipt id receipts)

unfoldable pub last_receipt : List Receipt → Option Receipt
last_receipt [] = none
last_receipt (receipt ∷ []) = some receipt
last_receipt (receipt ∷ next ∷ receipts) = last_receipt (next ∷ receipts)

unfoldable pub latest : Json → Disk → String → Read (Option Receipt)
unfolding scan_receipts last_receipt
latest json disk content =
    and_then (scan_receipts json disk content) λ receipts. done (last_receipt receipts)

abbrev pub written_part : Option ℕ → String → String
written_part none line = line
written_part (some n) line = slice line 0 n

-- The write at the end of the file, from OpenFile on.
unfoldable pub append_line : Disk → String → String → String × Option JournalFault
append_line disk content line = if disk.cannot_append then (content, some io) else (
  content ++ written_part disk.writes line,
  if stops_short disk.writes || disk.cannot_sync || disk.cannot_finish then some io else none,
)

-- Append: the content of the file after it, and the error.
unfoldable pub append_receipt : Json → Disk → String → Receipt → String × Option JournalFault
unfolding load_receipt append_line
append_receipt json disk content receipt =
    if receipt.id == ""
    then (content, some missing_id)
    else elim (load_receipt json disk content receipt.id) [
      | done _ ↦ (content, some duplicate_id)
      | failed not_found ↦ append_line disk content (json.print receipt ++ "\n")
      | failed empty_line ↦ (content, some empty_line)
      | failed bad_json ↦ (content, some bad_json)
      | failed missing_id ↦ (content, some missing_id)
      | failed duplicate_id ↦ (content, some duplicate_id)
      | failed too_long ↦ (content, some too_long)
      | failed io ↦ (content, some io)
      | failed (refused fault) ↦ (content, some (refused fault))
    ]
