-- ===== src/Sigdb/Export/Tests.antt =====
-- An export of a small corpus.
use ngfw_policy.Prelude.{
  ℕ, ◌≡◌, refl, Bool, ◌++◌, List, [], ◌∷◌, some, Text, codes, nat_eq, list_eq,
}
use ngfw_policy.Sigdb.Read.{Corpus}
use ngfw_policy.Sigdb.Export.{ExportRow, rows}
use ngfw_policy.Sigdb.Export.Select.{
  Selected, is_exported, DomainRow, CidrRow, PayloadRow, rows-IsSelection,
}

abbrev corpus : Corpus
corpus = record {
  apps = record { app_id = 1; name = codes "zoom"; license = 0 } ∷ [];
  domains =
      record {
        name = codes "zoom.us";
        app_id = 1;
        kind = 0;
        confidence = 85;
        tier = 1;
        license = 0;
      }
      ∷ record {
        name = codes "zoom.com";
        app_id = 1;
        kind = 1;
        confidence = 70;
        tier = 1;
        license = 2;
      }
      ∷ [];
  cidrs = [];
  payloads =
      record {
        value = 0x51 ∷ 0x55 ∷ 0x49 ∷ 0x0a ∷ [];
        mask = 255 ∷ 255 ∷ 255 ∷ 0 ∷ [];
        app_id = 1;
        tier = 0;
        confidence = 90;
        license = 0;
      }
      ∷ [];
}

abbrev no_address : List ℕ → Text
no_address raw = []

abbrev exported : List ExportRow
exported =
    record {
      app = codes "zoom";
      rule_type = codes "name";
      match_kind = codes "suffix";
      value = codes "zoom.us";
      detail = [];
      tier = codes "B";
      confidence = 85;
      license = codes "permissive";
      sources = [];
    }
    ∷ record {
      app = codes "zoom";
      rule_type = codes "payload";
      match_kind = codes "prefix4";
      value = codes "5155490a";
      detail = codes "\"QUI.\" mask=ffffff00";
      tier = codes "A";
      confidence = 90;
      license = codes "permissive";
      sources = [];
    }
    ∷ []

permissive_rows : rows no_address no_address [] 0 corpus ≡ some exported
unfolding rows
permissive_rows = refl

abbrev exportable : ℕ → ℕ → Bool
exportable = is_exported no_address no_address [] 0 corpus

rows-IsSelection_example :
    (ds : List ExportRow) × (cs : List ExportRow) × (ps : List ExportRow) × (exported
      ≡ ds ++ (cs ++ ps))
    × Selected
        (DomainRow no_address no_address [] 0 corpus)
        (λ d. exportable d.app_id d.license)
        corpus.domains
        ds
    × Selected
        (CidrRow no_address no_address [] 0 corpus)
        (λ d. exportable d.app_id d.license)
        corpus.cidrs
        cs
    × Selected
        (PayloadRow no_address no_address [] 0 corpus)
        (λ d. exportable d.app_id d.license)
        corpus.payloads
        ps
rows-IsSelection_example =
    rows-IsSelection no_address no_address [] 0 corpus exported permissive_rows
