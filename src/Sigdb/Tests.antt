-- ===== src/Sigdb/Tests.antt =====
-- Runs of the .sigdb writer and readers on small inputs, and their theorems at such inputs.
use mathlib.Core.Path.{subst}
use mathlib.Core.Option.{some-injective}
use ngfw_policy.Prelude.{
  sym, ◌∙◌, ℕ, ◌+◌, ◌≡◌, every, ltb, ◌&&◌, refl, true, false, List, [], ◌∷◌, none, some, Text,
  codes, All, length, map, list_beq, arith,
}
use ngfw_policy.Sigc.Builder.{Builder, new, app}
use ngfw_policy.Sigc.Builder.Identity.{IsValid, new-IsValid}
use ngfw_policy.Sigc.Builder.Calls.{app-IsValid}
use ngfw_policy.Sigc.Rules.{domain, payload}
use ngfw_policy.Sigdb.Struct.{num, bytes, raw, u16, pack, pack_rows, unpack}
use ngfw_policy.Sigdb.Struct.RoundTrip.{unpack-pack}
use ngfw_policy.Sigdb.Pool.{intern_all}
use ngfw_policy.Sigdb.Write.{
  serialize, assemble, rows_at, kept_apps, kept_domains, kept_cidrs, kept_payloads,
}
use ngfw_policy.Sigdb.Write.Kept.{IsShippable, IsShippableRule, kept-IsShippable}
use ngfw_policy.Sigdb.Read.{read_file}
use ngfw_policy.Sigdb.RoundTrip.{IsWritable, read_file-serialize}
use ngfw_policy.Sigdb.RoundTrip.Tables.{app_entry, IsPlain}

packed :
    pack (u16 ∷ raw 3 ∷ []) (num 513 ∷ bytes (7 ∷ 8 ∷ 9 ∷ []) ∷ []) ≡ some (1 ∷ 2 ∷ 7 ∷ 8 ∷ 9 ∷ [])
unfolding pack
packed = refl

too_large : pack (u16 ∷ []) (num 65536 ∷ []) ≡ none
unfolding pack
too_large = refl

unpack-pack_example :
    unpack (u16 ∷ raw 3 ∷ []) (1 ∷ 2 ∷ 7 ∷ 8 ∷ 9 ∷ [])
    ≡ some (num 513 ∷ bytes (7 ∷ 8 ∷ 9 ∷ []) ∷ [])
unpack-pack_example = unpack-pack _ _ _ (tt, (refl, tt)) packed

two_rows : pack_rows (u16 ∷ []) ((num 1 ∷ []) ∷ (num 256 ∷ []) ∷ []) ≡ some (1 ∷ 0 ∷ 0 ∷ 1 ∷ [])
unfolding pack_rows
two_rows = refl

-- A builder with one permissive app, its domain and a rule of a dropped app.
abbrev filled : Builder
filled = elim (app (codes "zoom") 0 0 (new [] [])) [
  | none ↦ new [] []
  | some (aid, b) ↦
      (domain (codes "junk.example") 0 false 1 75 0
        (payload (b'Z' ∷ b'O' ∷ 0 ∷ 0 ∷ []) (255 ∷ 255 ∷ 0 ∷ 0 ∷ []) aid 0 65 0
          (domain (codes "zoom.us") aid false 1 85 0 b).1).1).1
]

abbrev filled_file : List ℕ
filled_file = elim (serialize 1 1000 filled) [ none ↦ [] | some l ↦ l ]

size_of_file : length filled_file ≡ 56 + 12 + 12 + 16 + 14
unfolding serialize app new domain payload list_beq pack_rows rows_at kept_apps intern_all
    kept_domains kept_cidrs kept_payloads assemble
size_of_file = refl

written : serialize 1 1000 filled ≡ some filled_file
unfolding serialize app new domain payload list_beq pack_rows rows_at kept_apps intern_all
    kept_domains kept_cidrs kept_payloads assemble
written = refl

every-IsPlain : (s : Text) → every (λ c. ltb 0 c && ltb c 128) s ≡ true → IsPlain s
unfolding every
every-IsPlain [] h = tt
every-IsPlain (c ∷ s) h = (ground arith, every-IsPlain s (ground arith))

filled-IsWritable : IsWritable filled
unfolding app new domain payload list_beq every
filled-IsWritable = record {
  app_names = (every-IsPlain (codes "zoom") refl, tt);
  domain_names =
      (every-IsPlain (codes "zoom.us") refl, (every-IsPlain (codes "junk.example") refl, tt));
  addresses = tt;
  patterns = ((refl, refl), tt);
}

abbrev with_app : Builder
with_app = elim (app (codes "zoom") 0 0 (new [] [])) [ none ↦ new [] [] | some (aid, b) ↦ b ]

added_app : app (codes "zoom") 0 0 (new [] []) ≡ some (1, with_app)
unfolding app new list_beq
added_app = refl

with_app-IsValid : IsValid with_app
with_app-IsValid =
    let (aid, b, e, v, same) = app-IsValid (codes "zoom") 0 0 (new-IsValid [] []) in
    subst (λ (r : ℕ × Builder). IsValid r.1) (some-injective _ _ (sym e ∙ added_app)) v

filled-IsValid : IsValid filled
unfolding app new domain payload list_beq
filled-IsValid = record {
  positive = with_app-IsValid.positive;
  ids = with_app-IsValid.ids;
  metas = with_app-IsValid.metas;
  injective = with_app-IsValid.injective;
}

kept-IsShippable_example :
    All (IsShippable 1 filled) (kept_apps 1 filled)
    × All (λ d. IsShippableRule 1 filled d.app_id d.license) (kept_domains 1 filled)
    × All (λ c. IsShippableRule 1 filled c.app_id c.license) (kept_cidrs 1 filled)
    × All (λ q. IsShippableRule 1 filled q.app_id q.license) (kept_payloads 1 filled)
kept-IsShippable_example = kept-IsShippable 1 filled-IsValid

abbrev ascii : List ℕ → Text
ascii l = l

read_file-serialize_example :
    read_file ascii filled_file
    ≡ some (record {
      apps = map app_entry (kept_apps 1 filled);
      domains = kept_domains 1 filled;
      cidrs = kept_cidrs 1 filled;
      payloads = kept_payloads 1 filled;
    })
read_file-serialize_example =
    read_file-serialize ascii (λ s h. refl) 1 1000 filled filled_file filled-IsWritable written

dropped_rule_is_left_out : length (kept_domains 1 filled) ≡ 1
unfolding kept_domains app new domain payload list_beq
dropped_rule_is_left_out = refl
