-- ===== src/Skilldist/Journal/Scan.antt =====
-- scanReceipts: the lines that are read, and one more behind them.
use rootline.Base.{
  String, ◌≡◌, refl, sym, ap, ◌∙◌, ◌⊎◌, inl, inr, arith, List, [], ◌∷◌, ◌++◌, false, none, some,
  Bool-cases, ◌==◌, eq_refl, leb, ◌||◌, true, Option-cases,
}
use rootline.Base.Lines.{split_lines, trim_space, byte_length, IsOneLine}
use rootline.Skilldist.{Receipt}
use rootline.Skilldist.Receipts.{validate_receipt_semantics, in_list}
use rootline.Skilldist.Journal.{
  done, failed, too_long, Json, Disk, Read, JournalFault, max_token, read_line, scan_lines,
  scan_receipts, find_receipt, last_receipt, stops_short, reads_less,
}

-- The receipt is written as one line, without space around it, that is read as it, and that is
-- acceptable.
pub record IsWritten (json : Json) (receipt : Receipt) : Type 0 where
  pub one_line : IsOneLine (json.print receipt)
  pub bare : trim_space (json.print receipt) ≡ json.print receipt
  pub has_text : (json.print receipt == "") ≡ false
  pub reads_back : json.parse (json.print receipt) ≡ some receipt
  pub acceptable : validate_receipt_semantics receipt ≡ none

pub Read-cases :
    {A : Type 0} (r : Read A)
    → ((a : A) × (r ≡ done a)) ⊎ ((fault : JournalFault) × (r ≡ failed fault))
Read-cases (done a) = inl (a, refl)
Read-cases (failed fault) = inr (fault, refl)

pub done_inj : {A : Type 0} {a b : A} → done a ≡ done b → a ≡ b
done_inj h = cc

pub failed-ne-done : {A : Type 0} {fault : JournalFault} {a : A} → ¬ (failed fault ≡ done a)
failed-ne-done h = cc

-- The first of the lines that are read.
pub first_line_at :
    (json : Json) (line : String) (lines seen : List String) (receipts : List Receipt)
    → scan_lines json false seen (line ∷ lines) ≡ done receipts
    → (first : Receipt) × (more : List Receipt) × (leb max_token (byte_length line) ≡ false)
      × (read_line json seen (trim_space line) ≡ done first)
      × (scan_lines json false (first.id ∷ seen) lines ≡ done more)
      × (first ∷ more ≡ receipts)
unfolding scan_lines
first_line_at json line lines seen receipts scanned =
    elim (Bool-cases (leb max_token (byte_length line))) [
      | inl long ↦ absurd (failed-ne-done (rw long at scanned))
      | inr fits ↦ elim (Read-cases (read_line json seen (trim_space line))) [
        | inr (fault, e) ↦ absurd (failed-ne-done (rw e at (rw fits at scanned)))
        | inl (first, e) ↦ elim (Read-cases (scan_lines json false (first.id ∷ seen) lines)) [
          | inr (fault, e') ↦ absurd (failed-ne-done (rw e' at (rw e at (rw fits at scanned))))
          | inl (more, e') ↦
              (first, more, fits, e, e', done_inj (rw e' at (rw e at (rw fits at scanned))))
        ]
      ]
    ]

-- A reading that fails behind the lines gives no receipts.
pub not_failing :
    (json : Json) (lines seen : List String) (receipts : List Receipt)
    → ¬ (scan_lines json true seen lines ≡ done receipts)
unfolding scan_lines
not_failing json [] seen receipts h = failed-ne-done h
not_failing json (line ∷ lines) seen receipts scanned =
    elim (Bool-cases (leb max_token (byte_length line))) [
      | inl long ↦ failed-ne-done (rw long at scanned)
      | inr fits ↦ elim (Read-cases (read_line json seen (trim_space line))) [
        | inr (fault, e) ↦ failed-ne-done (rw e at (rw fits at scanned))
        | inl (first, e) ↦ elim (Read-cases (scan_lines json true (first.id ∷ seen) lines)) [
          | inr (fault, e') ↦ failed-ne-done (rw e' at (rw e at (rw fits at scanned)))
          | inl (more, e') ↦ not_failing json lines (first.id ∷ seen) more e'
        ]
      ]
    ]

-- No call fails.
abbrev pub quiet : Disk
quiet = record {
  cannot_read = false;
  stops = none;
  cannot_close = false;
  cannot_append = false;
  writes = none;
  cannot_sync = false;
  cannot_finish = false;
}

-- What is read on any disk is all of the file.
pub read_whole :
    (json : Json) (disk : Disk) (content : String) (receipts : List Receipt)
    → scan_receipts json disk content ≡ done receipts
    → scan_receipts json quiet content ≡ done receipts
unfolding scan_receipts
read_whole json disk content receipts h = elim (Bool-cases disk.cannot_read) [
  | inl e ↦ absurd (failed-ne-done (rw e at h))
  | inr e ↦ elim (Bool-cases (stops_short disk.stops || disk.cannot_close)) [
    | inl f ↦ absurd (
        not_failing json (split_lines (reads_less disk.stops content)) [] receipts
          (rw f at (rw e at h)))
    | inr f ↦ elim (Option-cases disk.stops) [
      | inl q ↦ rw q at (rw f at (rw e at h))
      | inr (n, q) ↦ absurd (ground (arith, f, ap stops_short q))
    ]
  ]
]

module _ (json : Json) (receipt : Receipt) (written : IsWritten json receipt) where
  reads_new :
      (seen : List String)
      → (receipt.id == "") ≡ false
      → in_list receipt.id seen ≡ false
      → read_line json seen (json.print receipt) ≡ done receipt
  unfolding read_line
  reads_new seen named fresh =
      rw (written.has_text, read_line)
        (rw written.reads_back (rw named (rw written.acceptable (rw fresh refl))))

  not_first :
      (first : Receipt) (more : List Receipt)
      → find_receipt receipt.id (first ∷ more) ≡ none
      → ((first.id == receipt.id) ≡ false) × (find_receipt receipt.id more ≡ none)
  unfolding find_receipt
  not_first first more absent = ground (arith, absent)

  unseen_next :
      (first : Receipt) (seen : List String)
      → (first.id == receipt.id) ≡ false
      → in_list receipt.id seen ≡ false
      → in_list receipt.id (first.id ∷ seen) ≡ false
  unfolding in_list
  unseen_next first seen other fresh = rw (other, in_list) fresh

  -- One more line, behind lines that are read.
  pub scan_new :
      (lines seen : List String) (receipts : List Receipt)
      → leb max_token (byte_length (json.print receipt)) ≡ false
      → (receipt.id == "") ≡ false
      → scan_lines json false seen lines ≡ done receipts
      → in_list receipt.id seen ≡ false
      → find_receipt receipt.id receipts ≡ none
      → scan_lines json false seen (lines ++ json.print receipt ∷ [])
        ≡ done (receipts ++ receipt ∷ [])
  unfolding scan_lines find_receipt
  scan_new [] seen receipts short named scanned fresh absent =
      let empty : receipts ≡ [] = sym (done_inj scanned) in
      rw short (
        rw written.bare (
          rw (reads_new seen named fresh)
            (ap done (ap (λ (rs : List Receipt). rs ++ receipt ∷ []) (sym empty)))))
  scan_new (line ∷ lines) seen receipts short named scanned fresh absent =
      let (first, more, fits, e, e', all) = first_line_at json line lines seen receipts scanned in
      let (other, absent') = not_first first more (ap (find_receipt receipt.id) all ∙ absent) in
      rw fits (
        rw e (
          rw
            (scan_new lines (first.id ∷ seen) more short named e'
              (unseen_next first seen other fresh) absent')
            (ap done (ap (λ (rs : List Receipt). rs ++ receipt ∷ []) all))))

  pub scan_long :
      (lines seen : List String) (receipts : List Receipt)
      → leb max_token (byte_length (json.print receipt)) ≡ true
      → scan_lines json false seen lines ≡ done receipts
      → scan_lines json false seen (lines ++ json.print receipt ∷ []) ≡ failed too_long
  unfolding scan_lines
  scan_long [] seen receipts long scanned = rw long refl
  scan_long (line ∷ lines) seen receipts long scanned =
      let (first, more, fits, e, e', all) = first_line_at json line lines seen receipts scanned in
      rw fits (rw e (rw (scan_long lines (first.id ∷ seen) more long e') refl))

pub find_last :
    (receipts : List Receipt) (receipt : Receipt)
    → find_receipt receipt.id receipts ≡ none
    → find_receipt receipt.id (receipts ++ receipt ∷ []) ≡ some receipt
unfolding find_receipt
find_last [] receipt h = rw (eq_refl receipt.id)
find_last (first ∷ more) receipt h = ground (arith, h, find_last more receipt)

pub last_of :
    (receipts : List Receipt) (receipt : Receipt)
    → last_receipt (receipts ++ receipt ∷ []) ≡ some receipt
unfolding last_receipt
last_of [] receipt = refl
last_of (first ∷ []) receipt = refl
last_of (first ∷ next ∷ more) receipt = last_of (next ∷ more) receipt
