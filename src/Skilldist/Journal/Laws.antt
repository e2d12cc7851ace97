-- ===== src/Skilldist/Journal/Laws.antt =====
-- The file of receipts (internal/skilldist/store.go): what is appended is read back.
use rootline.Base.{
  String, ◌≡◌, refl, sym, ap, ◌∙◌, ◌⊎◌, inl, inr, arith, List, [], ◌∷◌, ◌++◌, false, none, some,
  Bool-cases, ◌==◌, leb, Bool, ◌||◌, ◌≢◌, ◌<◌, ◌≤◌, subst, Option-cases,
}
use Prim.Native.String.{◌++◌ as ◌⊕◌}
use rootline.Base.Lines.{
  split_lines, trim_space, byte_length, IsTerminated, split_lines-one, split_lines-append,
  IsTerminated-append,
}
use rootline.Skilldist.{Receipt}
use rootline.Skilldist.Receipts.{validate_receipt_semantics, in_list}
use rootline.Skilldist.Journal.{
  done, failed, not_found, too_long, io, empty_line, bad_json, missing_id, duplicate_id, refused,
  Json, Disk, Read, JournalFault, max_token, read_line, scan_lines, scan_receipts, find_receipt,
  found_or, load_receipt, latest, append_receipt, append_line, stops_short, reads_less,
}
use rootline.Skilldist.Journal.Scan.{
  IsWritten, Read-cases, done_inj, failed-ne-done, quiet, read_whole, scan_new, scan_long,
  find_last, last_of,
}

some-ne-none : {A : Type 0} {a : A} → ¬ (some a ≡ none)
some-ne-none h = cc

abbrev fault_of : {A : Type 0} → Read A → JournalFault
fault_of (failed fault) = fault
fault_of (done a) = not_found

failed_inj : {a b : JournalFault} → ◌≡◌ {A = Read (List Receipt)} (failed a) (failed b) → a ≡ b
failed_inj h = ap fault_of h

too_long-ne-not_found : (r : Read (List Receipt)) → r ≡ failed too_long → r ≢ failed not_found
too_long-ne-not_found r e h = ground (arith, e, h)

io-ne-not_found : (r : Read (List Receipt)) → r ≡ failed io → r ≢ failed not_found
io-ne-not_found r e h = ground (arith, e, h)

read_line-found :
    (json : Json) (seen : List String) (line : String)
    → ¬ (read_line json seen line ≡ failed not_found)
unfolding read_line
read_line-found json seen line h = elim (Option-cases (json.parse line)) [
  | inl e ↦ ground (arith, e, h)
  | inr (receipt, e) ↦ elim (Option-cases (validate_receipt_semantics receipt)) [
    | inl k ↦ ground (arith, e, k, h)
    | inr (fault, k) ↦ ground (arith, e, k, h)
  ]
]

scan_lines-found :
    (json : Json) (fails : Bool) (lines seen : List String)
    → ¬ (scan_lines json fails seen lines ≡ failed not_found)
unfolding scan_lines
scan_lines-found json fails [] seen h = ground (arith, h)
scan_lines-found json fails (line ∷ lines) seen h =
    elim (Bool-cases (leb max_token (byte_length line))) [
      | inl long ↦ too_long-ne-not_found (failed too_long) refl (rw long at h)
      | inr fits ↦ elim (Read-cases (read_line json seen (trim_space line))) [
        | inr (fault, e) ↦
            read_line-found json seen (trim_space line)
              (e ∙ ap failed (failed_inj (rw e at (rw fits at h))))
        | inl (first, e) ↦ elim (Read-cases (scan_lines json fails (first.id ∷ seen) lines)) [
          | inr (fault, e') ↦
              scan_lines-found json fails lines (first.id ∷ seen)
                (e' ∙ (rw e' at (rw e at (rw fits at h))))
          | inl (more, e') ↦ failed-ne-done (sym (rw e' at (rw e at (rw fits at h))))
        ]
      ]
    ]

-- A reading that fails does not say that the receipt is missing.
scan_receipts-found :
    (json : Json) (disk : Disk) (content : String)
    → ¬ (scan_receipts json disk content ≡ failed not_found)
unfolding scan_receipts
scan_receipts-found json disk content h = elim (Bool-cases disk.cannot_read) [
  | inl e ↦ io-ne-not_found (failed io) refl (rw e at h)
  | inr e ↦
      scan_lines-found json (stops_short disk.stops || disk.cannot_close)
        (split_lines (reads_less disk.stops content)) [] (rw e at h)
]

loaded :
    (json : Json) (disk : Disk) (content : String) (receipts : List Receipt) (id : String)
    → scan_receipts json disk content ≡ done receipts
    → load_receipt json disk content id ≡ found_or (find_receipt id receipts)
unfolding load_receipt
loaded json disk content receipts id e = rw (e, load_receipt) refl

loaded_not :
    (json : Json) (disk : Disk) (content : String) (fault : JournalFault) (id : String)
    → scan_receipts json disk content ≡ failed fault
    → load_receipt json disk content id ≡ failed fault
unfolding load_receipt
loaded_not json disk content fault id e = rw (e, load_receipt) refl

append_line-whole :
    (disk : Disk) (content line after : String)
    → append_line disk content line ≡ (after, none)
    → after ≡ content ⊕ line
unfolding append_line
append_line-whole disk content line after h = elim (Bool-cases disk.cannot_append) [
  | inl e ↦ absurd (some-ne-none (ap (λ z. z.1) (rw e at h)))
  | inr e ↦ elim (Option-cases disk.writes) [
    | inl q ↦ sym (ap (λ z. z.0) (rw q at (rw e at h)))
    | inr (n, q) ↦ absurd (some-ne-none (ap (λ z. z.1) (rw q at (rw e at h))))
  ]
]

module _ (json : Json) (disk : Disk) (receipt : Receipt) (content after : String) where
  -- An append with another fault than the missing receipt returns it.
  fails_with :
      (fault : JournalFault)
      → (receipt.id == "") ≡ false
      → load_receipt json disk content receipt.id ≡ failed fault
      → fault ≢ not_found
      → ¬ (append_receipt json disk content receipt ≡ (after, none))
  unfolding append_receipt
  fails_with not_found named e other h = other refl
  fails_with empty_line named e other h = some-ne-none (ap (λ z. z.1) (rw e at (rw named at h)))
  fails_with bad_json named e other h = some-ne-none (ap (λ z. z.1) (rw e at (rw named at h)))
  fails_with missing_id named e other h = some-ne-none (ap (λ z. z.1) (rw e at (rw named at h)))
  fails_with duplicate_id named e other h = some-ne-none (ap (λ z. z.1) (rw e at (rw named at h)))
  fails_with too_long named e other h = some-ne-none (ap (λ z. z.1) (rw e at (rw named at h)))
  fails_with io named e other h = some-ne-none (ap (λ z. z.1) (rw e at (rw named at h)))
  fails_with (refused fault) named e other h =
      some-ne-none (ap (λ z. z.1) (rw e at (rw named at h)))

  -- What an append without an error means.
  appended :
      (receipts : List Receipt)
      → scan_receipts json quiet content ≡ done receipts
      → append_receipt json disk content receipt ≡ (after, none)
      → ((receipt.id == "") ≡ false)
        × (find_receipt receipt.id receipts ≡ none)
        × (after ≡ content ⊕ (json.print receipt ⊕ "\n"))
  unfolding append_receipt found_or
  appended receipts scanned h = elim (Bool-cases (receipt.id == "")) [
    | inl e ↦ absurd (some-ne-none (ap (λ z. z.1) (rw e at h)))
    | inr named ↦ elim (Read-cases (scan_receipts json disk content)) [
      | inr (fault, e) ↦ absurd (
          fails_with fault named (loaded_not json disk content fault receipt.id e)
            (λ q. scan_receipts-found json disk content (e ∙ ap failed q)) h)
      | inl (read, e) ↦
          let same : read ≡ receipts =
            done_inj (sym (read_whole json disk content read e) ∙ scanned) in
          elim (Option-cases (find_receipt receipt.id receipts)) [
            | inl absent ↦
                let load =
                  loaded json disk content receipts receipt.id (e ∙ ap done same)
                  ∙ ap found_or absent in
                (
                  named,
                  absent,
                  append_line-whole disk content (json.print receipt ⊕ "\n") after
                      (rw load at (rw named at h)),
                )
            | inr (old, found) ↦
                let load =
                  loaded json disk content receipts receipt.id (e ∙ ap done same)
                  ∙ ap found_or found in
                absurd (some-ne-none (ap (λ z. z.1) (rw load at (rw named at h))))
          ]
    ]
  ]

-- What is appended to the receipts is read back, unless its line is too long. Let every line of the
-- file end with a newline, let the file be readable, and let a receipt that is acceptable, and that
-- is written as one line that is read as it, be appended without an error, whatever the disk. Then
-- every line still ends with a newline. If the line has less than 1048576 bytes in UTF-8, the file is
-- readable and has that receipt after the others; it is found by its identifier, and it is the latest.
-- If the line is longer, the append has succeeded and yet the file cannot be read any more.
pub load_receipt-append_receipt :
    (json : Json) (disk : Disk) (receipt : Receipt) (content after : String)
    (receipts : List Receipt)
    → IsWritten json receipt
    → IsTerminated content
    → scan_receipts json quiet content ≡ done receipts
    → append_receipt json disk content receipt ≡ (after, none)
    → IsTerminated after
      × (((byte_length (json.print receipt) < 1_048_576)
            × (scan_receipts json quiet after ≡ done (receipts ++ receipt ∷ []))
            × (load_receipt json quiet after receipt.id ≡ done receipt)
            × (latest json quiet after ≡ done (some receipt)))
          ⊎ ((1_048_576 ≤ byte_length (json.print receipt))
              × (scan_receipts json quiet after ≡ failed too_long)))
unfolding latest found_or in_list scan_receipts
load_receipt-append_receipt json disk receipt content after receipts written ended scanned h =
    let line = json.print receipt in
    let (named, absent, at_end) = appended json disk receipt content after receipts scanned h in
    let lines : split_lines after ≡ split_lines content ++ line ∷ [] =
      ap split_lines at_end
      ∙ split_lines-append content (line ⊕ "\n") ended
      ∙ ap (λ l. split_lines content ++ l) (split_lines-one line written.one_line) in
    (
      subst IsTerminated (sym at_end) (IsTerminated-append content line),
      elim (Bool-cases (leb max_token (byte_length line))) [
        | inl long ↦ inr (
          ground (arith, long),
          ap (scan_lines json false []) lines
              ∙ scan_long json receipt written (split_lines content) [] receipts long scanned,
        )
        | inr short ↦
            let now : scan_receipts json quiet after ≡ done (receipts ++ receipt ∷ []) =
              ap (scan_lines json false []) lines
              ∙ scan_new json receipt written (split_lines content) [] receipts short named scanned
                  refl absent in
            inl (
              ground (arith, short),
              now,
              loaded json quiet after (receipts ++ receipt ∷ []) receipt.id now
                  ∙ ap found_or (find_last receipts receipt absent),
              rw (now, latest) (ap done (last_of receipts receipt)),
            )
      ],
    )
