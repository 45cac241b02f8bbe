-- ===== src/Sigdb/Audit/Tests.antt =====
-- An audit of a small corpus.
use ngfw_policy.Prelude.{
  ◌≡◌, ◌↔◌, refl, true, false, not, ◌&&◌, [], ◌∷◌, Text, codes, every, contains, length, list_eq,
  nat_eq, list_beq,
}
use ngfw_policy.Sigdb.Read.{Corpus}
use ngfw_policy.Sigdb.Audit.{names_of, values, name_key, entries_of, audit}
use ngfw_policy.Sigdb.Audit.Verdict.{audit-passes}

abbrev two_names : Corpus
two_names = record {
  apps =
      record { app_id = 1; name = codes "disneyplus"; license = 0 }
      ∷ record { app_id = 2; name = codes "Disney+"; license = 1 }
      ∷ record { app_id = 3; name = codes "Disney-Plus"; license = 1 }
      ∷ [];
  domains = [];
  cidrs = [];
  payloads = [];
}

one_near_group : length (audit two_names [] [] true).near ≡ 1
unfolding audit list_beq
one_near_group = refl

audit-passes_example :
    let names = values (names_of two_names.apps []) in
    (((audit two_names (codes "_note" ∷ []) (codes "ads" ∷ []) false).bad ≡ false) ↔ (
      (every (λ k. not (contains k names)) (entries_of (codes "ads" ∷ []))
        && every (λ k. not (contains k names)) (entries_of (codes "_note" ∷ [])))
      ≡ true))
    × ((audit two_names (codes "_note" ∷ []) (codes "ads" ∷ []) true).bad ≡ false
        → ((every (λ k. not (contains k names)) (entries_of (codes "ads" ∷ []))
              && every (λ k. not (contains k names)) (entries_of (codes "_note" ∷ [])))
            ≡ true)
          × ((a b : Text)
              → contains a names ≡ true
              → contains b names ≡ true
              → name_key a ≡ name_key b
              → a ≡ b))
audit-passes_example = audit-passes two_names (codes "_note" ∷ []) (codes "ads" ∷ [])
