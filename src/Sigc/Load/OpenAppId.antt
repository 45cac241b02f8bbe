-- ===== src/Sigc/Load/OpenAppId.antt =====
-- The OpenAppID loader of tools/sigc.py: `_odp_app_names` and `load_openappid`. A missing tree,
-- which it reports as an error, is `none`; the matches of its regular expressions are given for
-- each file in order.
use ngfw_policy.Prelude.{
  ℕ, ◌+◌, ◌≢◌, Bool, List, [], ◌∷◌, Option, none, some, Text, strip, is_space, is_nil, eqb,
  if◌then◌else◌, Dict, get, put, add, list_eq, nat_eq, Option-cases, inl, inr,
}
use ngfw_policy.Sigc.Slug.{slug}
use ngfw_policy.Sigc.Load.{Load, pure, raise, ◌>>=◌, on_some, for_each, app, domain, count_if}
use ngfw_policy.Sigc.Load.Sound.{Runs, load_rules}

-- `line.split("\t")`
push : ℕ → List Text → List Text
push c [] = (c ∷ []) ∷ []
push c (l ∷ ls) = (c ∷ l) ∷ ls

unfoldable pub columns : Text → List Text
unfolding push
columns [] = [] ∷ []
columns (c ∷ s) = let rest = columns s in if eqb c 9 then [] ∷ rest else push c rest

module _ (is_digits : Text → Bool) (int_of : Text → Option ℕ) where
  name_row : Dict ℕ Text → List Text → Option (Dict ℕ Text)
  name_row out (id ∷ name ∷ more) =
      if is_digits (strip is_space id)
      then (elim (int_of id) [ none ↦ none | some n ↦ some (put n (strip is_space name) out) ])
      else some out
  name_row out _ = some out

  names_from : Dict ℕ Text → List Text → Option (Dict ℕ Text)
  names_from out [] = some out
  names_from out (line ∷ lines) = elim (name_row out (columns line)) [
    | none ↦ none
    | some out' ↦ names_from out' lines
  ]

  -- `_odp_app_names`, from the lines of appMapping.data, with `str.isdigit` and `int`. `none` is the
  -- ValueError of `int` on a text that `isdigit` takes, such as a superscript.
  unfoldable pub odp_app_names : List Text → Option (Dict ℕ Text)
  unfolding names_from name_row columns put
  odp_app_names = names_from []

pub record OpenAppId : Type 0 where
  pub apps : List Text
  pub ssl_rules : ℕ
  pub url_rules : ℕ
  pub unresolved : ℕ

-- `names.get(app_id)`, where an empty name counts as none
unfoldable pub named : Dict ℕ Text → ℕ → Option Text
unfolding get
named names id = elim (get id names) [ none ↦ none | some nm ↦ if is_nil nm then none else some nm ]

odp_ssl : Dict ℕ Text → OpenAppId → ℕ × Text → Load OpenAppId
odp_ssl names st (id, host) =
    on_some (named names id) (pure (record st { unresolved = st.unresolved + 1 })) λ nm. do
      aid ← app (slug nm) 2
      added ← domain host aid 1 80 2
      pure (record st { apps = add (slug nm) st.apps; ssl_rules = count_if added st.ssl_rules })

odp_url : Dict ℕ Text → OpenAppId → Text × ℕ → Load OpenAppId
odp_url names st (host, id) =
    on_some (named names id) (pure (record st { unresolved = st.unresolved + 1 })) λ nm. do
      aid ← app (slug nm) 2
      added ← domain host aid 1 80 2
      pure (record st { apps = add (slug nm) st.apps; url_rules = count_if added st.url_rules })

-- One Lua file: the matches of `_ODP_SSL`, then those of `_ODP_URL`.
odp_file : Dict ℕ Text → OpenAppId → List (ℕ × Text) × List (Text × ℕ) → Load OpenAppId
odp_file names st (ssl, url) = do
  st' ← for_each (odp_ssl names) st ssl
  for_each (odp_url names) st' url

-- `load_openappid`, with `str.isdigit` and `int`
pub load_openappid :
    (Text → Bool)
    → (Text → Option ℕ)
    → Option (List (List (ℕ × Text) × List (Text × ℕ)))
    → List Text
    → Load (Option OpenAppId)
unfolding odp_file
load_openappid is_digits int_of found mapping = on_some found (pure none) λ files.
    on_some (odp_app_names is_digits int_of mapping) raise λ names.
      if is_nil names then pure none else do
        st ←
            for_each (odp_file names)
              (record { apps = []; ssl_rules = 0; url_rules = 0; unresolved = 0 }) files
        pure (some st)

Runs-odp_ssl : (names : Dict ℕ Text) (st : OpenAppId) (m : ℕ × Text) → Runs (odp_ssl names st m)
unfolding odp_ssl
Runs-odp_ssl names st (id, host) = search load_rules

Runs-odp_url : (names : Dict ℕ Text) (st : OpenAppId) (m : Text × ℕ) → Runs (odp_url names st m)
unfolding odp_url
Runs-odp_url names st (host, id) = search load_rules

Runs-odp_file :
    (names : Dict ℕ Text) (st : OpenAppId) (file : List (ℕ × Text) × List (Text × ℕ))
    → Runs (odp_file names st file)
unfolding odp_file
Runs-odp_file names st (ssl, url) = search (load_rules, Runs-odp_ssl, Runs-odp_url)

pub Runs-load_openappid :
    (is_digits : Text → Bool) (int_of : Text → Option ℕ)
    (found : Option (List (List (ℕ × Text) × List (Text × ℕ)))) (mapping : List Text)
    → odp_app_names is_digits int_of mapping ≢ none
    → Runs (load_openappid is_digits int_of found mapping)
unfolding load_openappid
Runs-load_openappid is_digits int_of found mapping numbers =
    elim (Option-cases (odp_app_names is_digits int_of mapping)) [
      | inl raised ↦ absurd (numbers raised)
      | inr (names, e) ↦ rw e (search (load_rules, Runs-odp_file))
    ]
