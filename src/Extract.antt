-- ===== src/Extract.antt =====
-- internal/extract: the record that every extractor gives and every other part reads.
pub mod Wikilink
pub mod Section
pub mod Resolve
use rootline.Value.{Value, Fields, get}
use rootline.Base.{ℕ, String, Option, none, some, List}

-- Link.Resolution: what the resolver concluded. The empty text means that nothing resolved it.
abbrev pub link_unchecked : String
link_unchecked = ""

abbrev pub link_resolved : String
link_resolved = "resolved"

abbrev pub link_unresolved : String
link_unresolved = "unresolved"

abbrev pub style_wikilink : String
style_wikilink = "wikilink"

abbrev pub style_markdown : String
style_markdown = "markdown"

-- Link; `kind` is the field Type.
pub record Link : Type 0 where
  pub target : String
  pub kind : String
  pub line : ℕ
  pub source : String
  pub style : String
  pub anchor : String
  pub resolution : String

-- Record; `kind` is the field Type. The Markdown tree and the extraction errors are left out.
pub record Record : Type 0 where
  pub path : String
  pub kind : String
  pub frontmatter : Fields
  pub body : String
  pub links : List Link
  pub derived : Fields

-- EffectiveField: derived fields take precedence over frontmatter.
unfoldable pub effective_field : Record → String → Option Value
effective_field r key = elim (get key r.derived) [ some v ↦ some v | none ↦ get key r.frontmatter ]
