-- ===== src/Knowledge/Artifacts/Tokens.antt =====
-- The names that stage gives in kb_mcp/adapters/filesystem_artifact_store.py pass the test that the
-- other operations make of a token.
use mathlib.Core.List.{append_assoc}
use superoffice_ai_support_m.Common.{
  ◌≡◌, refl, ◌∙◌, true, false, [], ◌∷◌, ◌++◌, Text, codes, text_eq, all, take, drop, length,
  starts_with, starts_with_weaken, drop_newline, take_append, drop_append, drop_append_short,
  length-drop, arith, and_parts, ==_iff, is_empty,
}
use superoffice_ai_support_m.Knowledge.Artifacts.Names.{
  is_hex, matches_document_id, matches_staging_id,
}
use superoffice_ai_support_m.Knowledge.Artifacts.Store.{CanonicalDocument}
use superoffice_ai_support_m.Knowledge.Artifacts.Staging.{staging_name}

is_empty-tmp : (s : Text) → is_empty (s ++ codes ".tmp") ≡ false
is_empty-tmp [] = refl
is_empty-tmp (c ∷ s) = refl

drop_newline-tmp : (s : Text) → drop_newline (s ++ codes ".tmp") ≡ (s ++ codes ".tmp")
unfolding drop_newline
drop_newline-tmp [] = refl
drop_newline-tmp (c ∷ s) = rw (is_empty-tmp s, drop_newline-tmp s) refl

-- The parts of a document identifier that does not end in a newline.
document_id_parts :
    (id : Text)
    → matches_document_id id ≡ true
    → drop_newline id ≡ id
    → (starts_with id (codes "doc_") ≡ true) × (all is_hex (drop 4 id) ≡ true) × (length id ≡ 28)
unfolding matches_document_id
document_id_parts id h trimmed =
    let (both, size) = and_parts _ _ (rw trimmed at h) in
    let (prefix, hex) = and_parts _ _ both in (prefix, hex, (==_iff (length id) 28).0 size)

pub matches_staging_id-staging_name :
    (document : CanonicalDocument) (uuid_hex : Text)
    → matches_document_id document.document_id ≡ true
    → drop_newline document.document_id ≡ document.document_id
    → all is_hex uuid_hex ≡ true
    → length uuid_hex ≡ 32
    → matches_staging_id (staging_name document uuid_hex) ≡ true
unfolding matches_staging_id staging_name text_eq
matches_staging_id-staging_name document uuid_hex h trimmed hex size =
    let id = document.document_id in
    let stem : Text = (id ++ codes "_") ++ uuid_hex in
    let tail : Text = codes "_" ++ (uuid_hex ++ codes ".tmp") in
    let (prefix, id_hex, id_size) = document_id_parts id h trimmed in
    let split : (stem ++ codes ".tmp") ≡ (id ++ tail) =
      append_assoc (id ++ codes "_") uuid_hex (codes ".tmp")
      ∙ append_assoc id (codes "_") (uuid_hex ++ codes ".tmp") in
    let whole : drop_newline (stem ++ codes ".tmp") ≡ (id ++ tail) =
      drop_newline-tmp stem ∙ split in
    let first : starts_with (id ++ tail) (codes "doc_") ≡ true =
      starts_with_weaken id tail (codes "doc_") prefix in
    let second : take 24 (drop 4 (id ++ tail)) ≡ drop 4 id =
      rw (drop_append_short 4 id tail (omega (arith, id_size)))
        (take_append 24 (drop 4 id) tail (omega (arith, id_size, length-drop 4 id))) in
    let third : drop 28 (id ++ tail) ≡ tail = drop_append 28 0 id tail (omega (arith, id_size)) in
    let fourth : drop 29 (id ++ tail) ≡ (uuid_hex ++ codes ".tmp") =
      drop_append 29 1 id tail (omega (arith, id_size)) in
    let fifth : drop 61 (id ++ tail) ≡ codes ".tmp" =
      drop_append 61 33 id tail (omega (arith, id_size))
      ∙ drop_append 32 0 uuid_hex (codes ".tmp") (omega (arith, size)) in
    let sixth : take 32 (uuid_hex ++ codes ".tmp") ≡ uuid_hex =
      take_append 32 uuid_hex (codes ".tmp") size in
    rw
      (
        matches_staging_id, staging_name, whole, first, second, third, fourth, fifth, sixth, id_hex,
        hex,
      )
      refl
