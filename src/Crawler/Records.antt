-- ===== src/Crawler/Records.antt =====
-- `_build_record` and `_emit` of src/core/pipeline.py. What the source fetched and what the extractor
-- gave are arguments, the rounded score with them, and so is the indicator extractor. A field of the page that is
-- named `indicators` is left out.
mod Tests
use ngfw_policy.Prelude.{
  ℕ, Bool, true, false, not, ◌&&◌, List, [], ◌∷◌, Option, none, some, Text, codes, Dict, get, put,
  is_nil, eqb, if◌then◌else◌, list_eq, nat_eq,
}
use ngfw_policy.Crawler.Contract.{ExtractionStatus, success, partial, fail}
use ngfw_policy.Crawler.Outputs.{Value, null, text, texts, number, Document, get_or}

-- What the record takes from a fetch result, with the `feed_entry` of its metadata.
pub record Fetched : Type 0 where
  pub job_id : Text
  pub source_name : Text
  pub url_original : Text
  pub url_final : Text
  pub url_canonical : Text
  pub status_code : ℕ
  pub fetched_at : Text
  pub html : Text
  pub feed_entry : Dict Text Value

pub record Extracted : Type 0 where
  pub status : ExtractionStatus
  pub quality_score : ℕ
  pub missing_fields : List Text
  pub extractor_name : Text
  pub found : Dict Text Value

abbrev status_value : ExtractionStatus → Text
status_value success = codes "SUCCESS"
status_value partial = codes "PARTIAL"
status_value fail = codes "FAIL"

-- `if value`
unfoldable pub is_set : Value → Bool
is_set null = false
is_set (text s) = not (is_nil s)
is_set (texts l) = not (is_nil l)
is_set (number n) = not (eqb n 0)

-- `if not data.get(key) and feed_entry.get(key): data[key] = feed_entry[key]`
unfoldable pub fall_back : Text → Dict Text Value → Dict Text Value → Dict Text Value
unfolding is_set get_or put
fall_back key entry found =
    let v : Value = get_or key null entry in
    if not (is_set (get_or key null found)) && is_set v then put key v found else found

unfoldable pub with_feed : Dict Text Value → Dict Text Value → Dict Text Value
unfolding fall_back
with_feed entry found = fall_back (codes "published") entry (fall_back (codes "title") entry found)

-- `{**base, **data}`
unfoldable pub merge : Dict Text Value → Dict Text Value → Dict Text Value
unfolding put
merge base [] = base
merge base ((k, v) ∷ found) = merge (put k v base) found

abbrev pub base_of : Fetched → Extracted → Dict Text Value
base_of r e =
    (codes "job_id", text r.job_id)
    ∷ (codes "source_name", text r.source_name)
    ∷ (codes "url_original", text r.url_original)
    ∷ (codes "url_final", text r.url_final)
    ∷ (codes "url_canonical", text r.url_canonical)
    ∷ (codes "status_code", number r.status_code)
    ∷ (codes "fetched_at", text r.fetched_at)
    ∷ (codes "status", text (status_value e.status))
    ∷ (codes "quality_score", number e.quality_score)
    ∷ (codes "missing_fields", texts e.missing_fields)
    ∷ (codes "extractor", text e.extractor_name)
    ∷ []

-- `_build_record`
unfoldable pub build_record :
    (Text → Text → Value → Dict Text Value) → Fetched → Extracted → Document
unfolding with_feed merge get_or
build_record indicators r e =
    let found : Dict Text Value = with_feed r.feed_entry e.found in
    record {
      fields = merge (base_of r e) found;
      indicators = indicators r.html r.url_final (get_or (codes "text") (text []) found);
    }

-- `_emit`: an output that raises is left as it is, and the others get the record all the same.
unfoldable pub emit_to {ℓ} : {S : Type ℓ} → (Document → S → Option S) → Document → List S → List S
emit_to write r [] = []
emit_to write r (o ∷ outputs) =
    (elim (write r o) [ none ↦ o | some o' ↦ o' ]) ∷ emit_to write r outputs
