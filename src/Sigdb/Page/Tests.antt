-- ===== src/Sigdb/Page/Tests.antt =====
-- A page with two apps, one of them without rules, and a rule without an app.
use ngfw_policy.Prelude.{ℕ, ◌≡◌, refl, List, [], ◌∷◌, codes, list_beq, nat_eq}
use ngfw_policy.Sigc.Builder.{DomainRule}
use ngfw_policy.Sigdb.Read.{Corpus}
use ngfw_policy.Sigdb.Page.{page_of}

abbrev rule_for : ℕ → DomainRule
rule_for aid = record {
  name = codes "a.com";
  app_id = aid;
  kind = 0;
  confidence = 80;
  tier = 1;
  license = 0;
}

abbrev corpus : Corpus
corpus = record {
  apps =
      record { app_id = 1; name = codes "zoom"; license = 0 }
      ∷ record { app_id = 2; name = codes "ssh"; license = 2 }
      ∷ [];
  domains = rule_for 1 ∷ rule_for 7 ∷ [];
  cidrs = [];
  payloads =
      record { value = 1 ∷ []; mask = 255 ∷ []; app_id = 1; tier = 0; confidence = 60; license = 0 }
      ∷ [];
}

page_totals :
    (page_of corpus ((codes "zoom", codes "netify" ∷ codes "ndpi" ∷ []) ∷ [])).1 ≡ record {
      apps = 2;
      domains = 2;
      cidrs = 0;
      payloads = 1;
      by_source = (codes "netify", 1) ∷ (codes "ndpi", 1) ∷ [];
      by_license = (0, 1) ∷ (2, 1) ∷ [];
      multi_source = 1;
      no_rules = 1;
    }
unfolding page_of list_beq
page_totals = refl

abbrev zoom_rules : List DomainRule
zoom_rules = rule_for 1 ∷ []
