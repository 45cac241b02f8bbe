-- ===== src/Crawler/Records/Tests.antt =====
-- A record whose title comes from the feed, and an output that raises.
use ngfw_policy.Prelude.{
  ℕ, ◌≡◌, refl, [], ◌∷◌, Option, none, some, Text, codes, Dict, get, list_eq, nat_eq, list_beq,
}
use ngfw_policy.Crawler.Contract.{success}
use ngfw_policy.Crawler.Outputs.{Value, text, Document}
use ngfw_policy.Crawler.Records.{Fetched, Extracted, build_record, emit_to}

abbrev fetched : Fetched
fetched = record {
  job_id = codes "1";
  source_name = codes "feed";
  url_original = codes "http://a";
  url_final = codes "http://a";
  url_canonical = codes "http://a/";
  status_code = 200;
  fetched_at = codes "now";
  html = codes "page";
  feed_entry = (codes "title", text (codes "From the feed")) ∷ [];
}

abbrev extracted : Extracted
extracted = record {
  status = success;
  quality_score = 1000;
  missing_fields = [];
  extractor_name = codes "article";
  found = (codes "title", text []) ∷ (codes "status", text (codes "draft")) ∷ [];
}

abbrev no_indicators : Text → Text → Value → Dict Text Value
no_indicators html url body = []

feed_title :
    get (codes "title") (build_record no_indicators fetched extracted).fields
    ≡ some (text (codes "From the feed"))
unfolding build_record get list_beq
feed_title = refl

-- A field of the page takes the place of the record's own.
page_status :
    get (codes "status") (build_record no_indicators fetched extracted).fields
    ≡ some (text (codes "draft"))
unfolding build_record get list_beq
page_status = refl

-- Zero is an output that raises, and any other counts its records.
abbrev count_write : Document → ℕ → Option ℕ
count_write r ℕ.zero = none
count_write r (ℕ.suc n) = some (ℕ.suc (ℕ.suc n))

second_output :
    emit_to count_write (build_record no_indicators fetched extracted) (0 ∷ 4 ∷ []) ≡ 0 ∷ 5 ∷ []
unfolding emit_to
second_output = refl
