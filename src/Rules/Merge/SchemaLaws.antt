-- ===== src/Rules/Merge/SchemaLaws.antt =====
-- What merging does to one field of the schema.
use rootline.Base.{
  String, ◌≡◌, refl, ◌∙◌, ap, Option, none, some, List, [], ◌∷◌, arith, eq_iff, All,
}
use rootline.Base.Dict.{Dict, lookup, insert, lookup-insert, IsDict}
use rootline.Rules.{SchemaField, StemFile}
use rootline.Rules.Merge.{
  merged_field, overlay_fields, tag_fields, merge_schema_fields, StemEntry, merge_entry,
  merge_entries,
}

-- One field of the parent and of the child.
abbrev pub merged_at : String → Option SchemaField → Option SchemaField → Option SchemaField
merged_at source p none = p
merged_at source p (some v) = some (merged_field source p v)

lookup-overlay_fields :
    (out child : Dict SchemaField) (source k : String)
    → IsDict child
    → lookup k (overlay_fields out child source) ≡ merged_at source (lookup k out) (lookup k child)
unfolding overlay_fields lookup
lookup-overlay_fields out [] source k h = refl
lookup-overlay_fields out ((j, v) ∷ child) source k h =
    lookup-overlay_fields (insert j (merged_field source (lookup j out) v) out) child source k h.1
    ∙ ground (arith, lookup-insert j k (merged_field source (lookup j out) v) out, eq_iff j k, h.0)

lookup-tag_fields :
    (child : Dict SchemaField) (source k : String)
    → lookup k (tag_fields child source) ≡ merged_at source none (lookup k child)
unfolding tag_fields lookup merged_field
lookup-tag_fields [] source k = refl
lookup-tag_fields ((j, v) ∷ child) source k = ground (arith, lookup-tag_fields child source k)

-- Merging two schemas merges each field by itself: a field of one file stays, a field of both is
-- the child's with the source and the severity that it inherits, as long as the child declares no
-- field twice.
pub lookup-merge_schema_fields :
    (parent child : Dict SchemaField) (source k : String)
    → IsDict child
    → lookup k (merge_schema_fields parent child source)
      ≡ merged_at source (lookup k parent) (lookup k child)
unfolding merge_schema_fields
lookup-merge_schema_fields parent [] source k h = unfold lookup in refl
lookup-merge_schema_fields [] (f ∷ child) source k h =
    lookup-tag_fields (f ∷ child) source k ∙ unfold lookup in refl
lookup-merge_schema_fields (e ∷ parent) (f ∷ child) source k h =
    lookup-overlay_fields (e ∷ parent) (f ∷ child) source k h

-- The declarations of one field along the chain, root first.
unfoldable pub field_along : String → Option SchemaField → List StemEntry → Option SchemaField
field_along k acc [] = acc
field_along k acc (e ∷ es) = field_along k (merged_at e.path acc (lookup k e.stem.schema)) es

-- Merging the files of a chain into a result merges each field by itself: it becomes what its
-- declarations along the chain come to one after the other, as long as no file declares a field
-- twice.
pub lookup-merge_entries :
    (k : String) (result : StemFile) (es : List StemEntry)
    → All (λ e. IsDict e.stem.schema) es
    → lookup k (merge_entries result es).schema ≡ field_along k (lookup k result.schema) es
unfolding merge_entries field_along merge_entry
lookup-merge_entries k result [] h = refl
lookup-merge_entries k result (e ∷ es) h =
    lookup-merge_entries k (merge_entry result e) es h.1
    ∙ ap (λ acc. field_along k acc es)
        (lookup-merge_schema_fields result.schema e.stem.schema e.path k h.0)
