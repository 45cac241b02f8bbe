-- ===== src/Measure/Tests.antt =====
-- A small corpus.
use ngfw_policy.Prelude.{
  ℕ, Option, is_nil, ◌+◌, ◌≡◌, refl, true, All, IsUnique, ◌&&◌, ◌||◌, not, List, [], ◌∷◌, none,
  some, Text, codes, length, contains, every, list_eq, nat_eq, ◌==◌, is_space, list_beq,
}
use ngfw_policy.Measure.Normalize.{normalize}
use ngfw_policy.Measure.Sources.{
  extract_ndpi, extract_openappid, extract_odp_taxonomy, extract_mmt_dpi, extract_libprotoident,
}
use ngfw_policy.Measure.Netify.{extract_netify}
use ngfw_policy.Measure.Report.{
  Source, permissive, union_all, union_permissive, overlap, unique_ids, new_names, ceiling,
}
use ngfw_policy.Measure.Counts.{found_in, report-IsConsistent, contains-unique_ids}
use ngfw_policy.Measure.Keys.{AreKeys, AreKeysOf, extracted-AreKeys}

teams_key : normalize (codes "NDPI_PROTOCOL_MS_Teams App") ≡ codes "microsoftteams"
unfolding normalize list_beq is_space
teams_key = refl

abbrev ndpi : Source
ndpi = record {
  name = codes "ndpi";
  license = codes "LGPL-3.0";
  ids = codes "zoom" ∷ codes "dns" ∷ [];
}

abbrev netify : Source
netify = record {
  name = codes "netify";
  license = codes "Apache-2.0";
  ids = codes "zoom" ∷ codes "ring" ∷ [];
}

abbrev corpus : List Source
corpus = ndpi ∷ netify ∷ []

abbrev taxonomy : List (List Text)
taxonomy = (codes "ring" ∷ codes "vudu" ∷ []) ∷ []

three_apps : length (union_all corpus) ≡ 3
unfolding union_all list_beq
three_apps = refl

report-IsConsistent_example :
    ((x : Text)
      → contains x (union_permissive corpus)
        ≡ found_in (λ s. contains s.license permissive) x corpus)
    × ((x : Text) → contains x (union_all corpus) ≡ found_in (λ s. true) x corpus)
    × IsUnique (union_permissive corpus)
    × IsUnique (union_all corpus)
    × (ceiling corpus taxonomy ≡ length (union_all corpus) + length (new_names corpus taxonomy))
    × All (λ a. All (λ b. overlap a b ≡ overlap b a) corpus) corpus
unfolding contains list_beq
report-IsConsistent_example =
    report-IsConsistent corpus taxonomy ((refl, (refl, tt)), ((refl, (refl, tt)), tt))
      ((refl, (refl, tt)), tt)

contains-unique_ids_example : contains (codes "ring") (unique_ids corpus netify) ≡ (
    contains (codes "ring") netify.ids
    && every (λ b. b.name == netify.name || not (contains (codes "ring") b.ids)) corpus)
contains-unique_ids_example = contains-unique_ids (codes "ring") corpus netify

no_number : Text → Option ℕ
no_number t = none

extracted-AreKeys_example :
    AreKeys (extract_ndpi (some (codes "ZOOM" ∷ codes "TLS" ∷ [])) 2).0
    × AreKeysOf (extract_openappid is_nil no_number none)
    × AreKeys (extract_netify (some (codes "app:1:netify.zoom" ∷ codes "dom:1:zoom.us" ∷ []))).0
    × AreKeys (extract_mmt_dpi none).0
    × AreKeys (extract_libprotoident (some (codes "lpi_dns" ∷ [], codes "lpi_dns" ∷ []))).0
    × AreKeys (extract_odp_taxonomy none).0
extracted-AreKeys_example =
    extracted-AreKeys is_nil no_number (some (codes "ZOOM" ∷ codes "TLS" ∷ [])) 2 none
      (some (codes "app:1:netify.zoom" ∷ codes "dom:1:zoom.us" ∷ [])) none
      (some (codes "lpi_dns" ∷ [], codes "lpi_dns" ∷ [])) none
