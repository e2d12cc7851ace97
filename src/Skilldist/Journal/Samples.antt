-- ===== src/Skilldist/Journal/Samples.antt =====
-- A small file of receipts: the law of internal/skilldist/store.go at it, and tests.
use rootline.Base.Lines.{trim_space, byte_length, IsTerminated}
use rootline.Base.{◌⊎◌, ◌<◌, ◌≤◌, arith, ◌≡◌, refl, [], ◌∷◌, none, some, if◌then◌else◌, ◌==◌}
use rootline.Base.Dict.{lookup}
use rootline.Base.FilePath.{clean}
use rootline.Skilldist.{Receipt}
use rootline.Skilldist.Planning.Samples.{install_receipt}
use rootline.Skilldist.Receipts.{
  validate_receipt_semantics, validate_store_child_name, validate_source, collect_backups,
}
use rootline.Skilldist.Journal.{
  done, failed, duplicate_id, too_long, Json, scan_receipts, append_receipt, load_receipt, latest,
}
use rootline.Skilldist.Journal.Scan.{quiet, IsWritten}
use rootline.Skilldist.Journal.Laws.{load_receipt-append_receipt}

abbrev second : Receipt
second = record install_receipt { id = "r2" }

-- Two receipts have lines that are read.
abbrev json : Json
json = record {
  parse = λ line.
      if line == "{r1}" then some install_receipt else if line == "{r2}" then some second else none;
  print = λ receipt. if receipt.id == "r1" then "{r1}" else "{r2}";
}

written : IsWritten json second
unfolding validate_receipt_semantics validate_store_child_name validate_source collect_backups clean
    lookup trim_space
written = record {
  one_line = (
    λ e. ground (arith, e),
    (λ e. ground (arith, e), (λ e. ground (arith, e), (λ e. ground (arith, e), tt))),
  );
  bare = refl;
  has_text = refl;
  reads_back = refl;
  acceptable = refl;
}

-- The last line is read without a newline, and the space around a line is left out.
scans : scan_receipts json quiet " {r1}\r\n{r2}" ≡ done (install_receipt ∷ second ∷ [])
unfolding scan_receipts validate_store_child_name validate_source collect_backups clean lookup
scans = refl

scans_one : scan_receipts json quiet "{r1}\n" ≡ done (install_receipt ∷ [])
unfolding scan_receipts validate_store_child_name validate_source collect_backups clean lookup
scans_one = refl

appends : append_receipt json quiet "{r1}\n" second ≡ ("{r1}\n{r2}\n", none)
unfolding append_receipt validate_store_child_name validate_source collect_backups clean lookup
appends = refl

-- Behind a last line without a newline, the two lines run into one.
runs_on : append_receipt json quiet "{r1}" second ≡ ("{r1}{r2}\n", none)
unfolding append_receipt validate_store_child_name validate_source collect_backups clean lookup
runs_on = refl

twice : append_receipt json quiet "{r1}\n" install_receipt ≡ ("{r1}\n", some duplicate_id)
unfolding append_receipt validate_store_child_name validate_source collect_backups clean lookup
twice = refl

load_receipt-append_receipt_example :
    IsTerminated "{r1}\n{r2}\n"
    × (((byte_length "{r2}" < 1_048_576)
          × (scan_receipts json quiet "{r1}\n{r2}\n" ≡ done (install_receipt ∷ second ∷ []))
          × (load_receipt json quiet "{r1}\n{r2}\n" "r2" ≡ done second)
          × (latest json quiet "{r1}\n{r2}\n" ≡ done (some second)))
        ⊎ ((1_048_576 ≤ byte_length "{r2}")
            × (scan_receipts json quiet "{r1}\n{r2}\n" ≡ failed too_long)))
load_receipt-append_receipt_example =
    load_receipt-append_receipt json quiet second "{r1}\n" "{r1}\n{r2}\n" (install_receipt ∷ [])
      written refl scans_one appends
