-- ===== src/Extract/Wikilink.antt =====
-- ContainsWikilink of internal/extract/links.go: whether the regular expression \[\[([^\]]+)\]\]
-- matches somewhere.
use Prim.Native.String.{String, [], ◌∷◌}
use text.Mathlib.Text.{starts_with}
use rootline.Base.{none, some, Bool, true, false, ◌&&◌, ◌||◌, if◌then◌else◌}
use rootline.Query.Text.{trim_prefix}

-- After [[ : characters other than ], at least one if none was seen, and then ]].
unfoldable pub closes : Bool → String → Bool
closes seen [] = false
closes seen (c ∷ s) =
    let rest = closes true s in if starts_with (c ∷ s) "]" then seen && starts_with s "]" else rest

unfoldable pub contains_wikilink : String → Bool
contains_wikilink [] = false
contains_wikilink (c ∷ s) =
    let rest = contains_wikilink s in
    elim (trim_prefix "[[" (c ∷ s)) [ none ↦ rest | some inner ↦ closes false inner || rest ]
