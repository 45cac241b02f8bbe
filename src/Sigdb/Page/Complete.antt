-- ===== src/Sigdb/Page/Complete.antt =====
-- The rules that the page of tools/build_page.py shows, against those of the file.
use ngfw_policy.Prelude.{ℕ, List, [], Option, none, some, Dict, get, nat_eq}
use ngfw_policy.Sigdb.Page.{PageApp}

-- One of the lists of an app, and that list of the app with an id, empty where there is none.
module _ {V : Type 0} (part : PageApp → List V) where
  or_empty : Option PageApp → List V
  or_empty none = []
  or_empty (some a) = part a

  unfoldable pub rules_at : ℕ → Dict ℕ PageApp → List V
  unfolding or_empty
  rules_at aid meta = or_empty (get aid meta)
