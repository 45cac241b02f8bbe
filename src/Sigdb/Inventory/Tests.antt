-- ===== src/Sigdb/Inventory/Tests.antt =====
-- An inventory of two apps, of which the second has too strict a license.
use ngfw_policy.Prelude.{ℕ, ◌≡◌, refl, [], ◌∷◌, All, Text, codes, list_beq}
use ngfw_policy.Sigc.Builder.{Builder, DomainRule, new}
use ngfw_policy.Sigdb.Inventory.{inventory}
use ngfw_policy.Sigdb.Inventory.Agree.{Agrees, inventory-Agrees}

abbrev name_rule : Text → ℕ → DomainRule
name_rule name aid = record {
  name = name;
  app_id = aid;
  kind = 0;
  confidence = 80;
  tier = 1;
  license = 0;
}

abbrev built : Builder
built = record (new [] []) {
  app_meta =
      (2, record { name = codes "ssh"; category = 0; license = 2 })
      ∷ (1, record { name = codes "zoom"; category = 0; license = 0 })
      ∷ [];
  domains =
      name_rule (codes "zoom.us") 1
      ∷ name_rule (codes "ssh.com") 2
      ∷ name_rule (codes "a.io") 1
      ∷ [];
  app_sources = (1, codes "netify" ∷ []) ∷ [];
}

small_inventory :
    inventory 1 built
    ≡ record {
      id = 1;
      name = codes "zoom";
      license = 0;
      sources = codes "netify" ∷ [];
      domains = 2;
      cidrs = 0;
      payloads = 0;
      sample_domains = codes "a.io" ∷ codes "zoom.us" ∷ [];
      sample_payloads = [];
    }
      ∷ []
unfolding inventory new list_beq
small_inventory = refl

inventory-Agrees_example : All (Agrees 1 built) (inventory 1 built)
inventory-Agrees_example = inventory-Agrees 1 built
