-- ===== src/Examples/Documents.antt =====
-- A text, and a document that is built from a payload and stored.
use superoffice_ai_support_m.Common.{
  ◌≡◌, refl, true, none, [], ◌∷◌, codes, all, length, ok, inl, strip, has_key, text_eq, member,
}
use superoffice_ai_support_m.Knowledge.Eligibility.{sop}
use superoffice_ai_support_m.Knowledge.Artifacts.Names.{is_hex}
use superoffice_ai_support_m.Knowledge.Artifacts.Store.{Bytes, linked, written, find_file}
use superoffice_ai_support_m.Knowledge.Artifacts.Staging.{stage, staging_name, token_of}
use superoffice_ai_support_m.Knowledge.Artifacts.Approved.{promote}
use superoffice_ai_support_m.Knowledge.Artifacts.Promotion.{sound_disk, IsPromoted}
use superoffice_ai_support_m.Knowledge.Canonical.{
  SanitizedPayload, document_payload, KnowledgeDocument, build_canonical_document,
}
use superoffice_ai_support_m.Knowledge.Canonical.Identity.{promote-build_canonical_document}
use superoffice_ai_support_m.Knowledge.Normalization.{normalize_text}
use superoffice_ai_support_m.Knowledge.Normalization.Idempotence.{normalize_text-normalize_text}
use superoffice_ai_support_m.Examples.Artifacts.{same_text, small_digest, zeros, uuid, empty_store}

hex : (bytes : Bytes) → all is_hex (small_digest bytes) ≡ true
unfolding is_hex
hex [] = refl
hex (c ∷ bytes) = refl

size : (bytes : Bytes) → length (small_digest bytes) ≡ 64
size [] = refl
size (c ∷ bytes) = refl

abbrev restart : SanitizedPayload
restart = document_payload (record {
  source_name = codes "restart.md";
  corpus_category = sop;
  canonical_text = codes "# Restart";
  source_reference = none;
})

abbrev restart_document : KnowledgeDocument
restart_document = record {
  stored = record {
    document_id = codes "doc_000000000000000000000000";
    document_type = codes "sop";
    canonical_content = codes "# Restart";
    content_hash = zeros;
  };
  title = codes "Restart";
  source_reference = codes "sop://restart";
  corpus_category = sop;
  structured_payload = none;
}

promote-build_canonical_document_example :
    ((stage same_text small_digest empty_store restart_document.stored uuid 10 true written).1
      ≡ ok (token_of restart_document.stored (staging_name restart_document.stored uuid)))
    × IsPromoted same_text small_digest restart_document.stored
        (staging_name restart_document.stored uuid)
        (promote small_digest
          (stage same_text small_digest empty_store restart_document.stored uuid 10 true written).0
          (token_of restart_document.stored (staging_name restart_document.stored uuid))
          restart_document.stored
          sound_disk
          linked)
unfolding build_canonical_document strip is_hex find_file has_key text_eq member
promote-build_canonical_document_example =
    promote-build_canonical_document same_text small_digest hex size restart none none
      restart_document empty_store uuid 10 linked refl refl refl refl refl refl refl (inl refl) tt

normalize_text-normalize_text_example :
    normalize_text (normalize_text (codes "\r\n a \t\r\n\r b\n"))
    ≡ normalize_text (codes "\r\n a \t\r\n\r b\n")
normalize_text-normalize_text_example = normalize_text-normalize_text (codes "\r\n a \t\r\n\r b\n")
