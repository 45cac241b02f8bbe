-- ===== src/Sigdb/Write/Kept.antt =====
-- What a build may ship: nothing above the license tier, and no rule without its app.
use mathlib.Core.Path.{subst}
use ngfw_policy.Prelude.{
  ◌⊎◌, ap, refl, eqb_iff, ℕ, ◌≤◌, ◌≡◌, ◌≢◌, true, List, [], ◌∷◌, All, map, select, select_sound,
  All-select, contains, has, nat_eq, list_eq, arith, leb, leb→le, Bool-cases, inl, inr, Dict,
  eq_refl, eqb,
}
use ngfw_policy.Sigc.Builder.{Builder, Meta, DomainRule, CidrRule, PayloadRule, dropped}
use ngfw_policy.Sigc.Builder.Identity.{IsValid}
use ngfw_policy.Sigdb.Write.{
  insert_app, sort_apps, kept_apps, is_kept, kept_domains, kept_cidrs, kept_payloads,
}

module _ (P : ℕ × Meta → Type 0) where
  insert_app-All : (a : ℕ × Meta) (xs : List (ℕ × Meta)) → P a → All P xs → All P (insert_app a xs)
  unfolding insert_app
  insert_app-All a [] h k = (h, tt)
  insert_app-All a (x ∷ xs) h k = elim (Bool-cases (leb a.0 x.0)) [
    | inl before ↦ rw before (h, k)
    | inr after ↦ rw after (k.0, insert_app-All a xs h k.1)
  ]

  sort_apps-All : (xs : List (ℕ × Meta)) → All P xs → All P (sort_apps xs)
  unfolding sort_apps
  sort_apps-All [] h = tt
  sort_apps-All (x ∷ xs) h = insert_app-All x (sort_apps xs) h.0 (sort_apps-All xs h.1)

  pub kept_apps-All : (max : ℕ) (b : Builder) → All P b.app_meta → All P (kept_apps max b)
  unfolding kept_apps
  kept_apps-All max b h = sort_apps-All _ (All-select P _ b.app_meta h)

pub kept_domains-All :
    (P : DomainRule → Type 0) (max : ℕ) (b : Builder) → All P b.domains → All P (kept_domains max b)
unfolding kept_domains
kept_domains-All P max b h = All-select P _ _ (All-select P _ b.domains h)

pub kept_cidrs-All :
    (P : CidrRule → Type 0) (max : ℕ) (b : Builder) → All P b.cidrs → All P (kept_cidrs max b)
unfolding kept_cidrs
kept_cidrs-All P max b h = All-select P _ _ (All-select P _ b.cidrs h)

pub kept_payloads-All :
    (P : PayloadRule → Type 0) (max : ℕ) (b : Builder)
    → All P b.payloads
    → All P (kept_payloads max b)
unfolding kept_payloads
kept_payloads-All P max b h = All-select P _ _ (All-select P _ b.payloads h)

module _ {A : Type 0} where
  All-implies : (P Q : A → Type 0) (xs : List A) → ((x : A) → P x → Q x) → All P xs → All Q xs
  All-implies P Q [] f h = tt
  All-implies P Q (x ∷ xs) f h = (f x h.0, All-implies P Q xs f h.1)

  All-both : (P Q : A → Type 0) (xs : List A) → All P xs → All Q xs → All (λ x. P x × Q x) xs
  All-both P Q [] h k = tt
  All-both P Q (x ∷ xs) h k = ((h.0, k.0), All-both P Q xs h.1 k.1)

-- A kept id belongs to an entry of which `P` holds.
find_kept :
    (P : ℕ × Meta → Type 0) (aid : ℕ) (xs : List (ℕ × Meta))
    → All P xs
    → contains aid (map (λ x. x.0) xs) ≡ true
    → (m : Meta) × P (aid, m)
unfolding contains
find_kept P aid [] h k = cc
find_kept P aid ((j, m) ∷ xs) h k = elim (Bool-cases (eqb j aid)) [
  | inl same ↦ (m, subst (λ (z : ℕ). P (z, m)) ((eqb_iff j aid).0 same) h.0)
  | inr other ↦ find_kept P aid xs h.1 (rw other at k)
]

-- A pair is an entry of a dict.
abbrev pub Listed : ℕ × Meta → List (ℕ × Meta) → Type 0
Listed x [] = ⊥
Listed x (y ∷ ys) = (x ≡ y) ⊎ Listed x ys

Listed-All : (xs : List (ℕ × Meta)) → All (λ x. Listed x xs) xs
Listed-All [] = tt
Listed-All (x ∷ xs) = (
  inl refl,
  All-implies (λ y. Listed y xs) (λ y. Listed y (x ∷ xs)) xs (λ y h. inr h) (Listed-All xs),
)

has_of_Listed : (a : ℕ) (m : Meta) (d : Dict ℕ Meta) → Listed (a, m) d → has a d ≡ true
unfolding has
has_of_Listed a m [] h = elim h [ ]
has_of_Listed a m ((k, n) ∷ d) (inl same) = rw (ap (λ (x : ℕ × Meta). x.0) same, eq_refl k) refl
has_of_Listed a m ((k, n) ∷ d) (inr later) = ground (arith, has_of_Listed a m d later)

-- An app that a build may ship: it is no dropped one, it is an entry of `app_meta`, and the license
-- of this entry is allowed.
abbrev pub IsShippable : ℕ → Builder → ℕ × Meta → Type 0
IsShippable max b (aid, m) = (aid ≢ dropped) × Listed (aid, m) b.app_meta × (m.license ≤ max)

-- A rule whose license is allowed, with such an app.
abbrev pub IsShippableRule : ℕ → Builder → ℕ → ℕ → Type 0
IsShippableRule max b aid license = (license ≤ max) × ((m : Meta) × IsShippable max b (aid, m))

module _ (max : ℕ) {b : Builder} (v : IsValid b) where
  apps-IsShippable : All (IsShippable max b) (kept_apps max b)
  unfolding kept_apps
  apps-IsShippable = sort_apps-All (IsShippable max b) _ (
      All-implies (λ x. Listed x b.app_meta × (leb x.1.license max ≡ true)) _ _
        (λ x h.
          let known = v.metas x.0 (has_of_Listed x.0 x.1 b.app_meta h.0) in
          (ground (arith, known), h.0, leb→le _ _ h.1))
        (All-both _ _ _ (All-select (λ x. Listed x b.app_meta) _ b.app_meta (Listed-All b.app_meta))
          (select_sound (λ x. leb x.1.license max) b.app_meta)))

  rules_shippable :
      {A : Type 0} (aid license : A → ℕ) (xs : List A)
      → All
          (λ x. IsShippableRule max b (aid x) (license x))
          (select (λ x. is_kept max b (aid x)) (select (λ x. leb (license x) max) xs))
  unfolding is_kept
  rules_shippable aid license xs =
      All-implies (λ x. (leb (license x) max ≡ true) × (is_kept max b (aid x) ≡ true)) _ _
        (λ x h. (
          leb→le _ _ h.0,
          find_kept (IsShippable max b) (aid x) (kept_apps max b) apps-IsShippable h.1,
        ))
        (All-both _ _ _ (All-select (λ x. leb (license x) max ≡ true) _ _ (select_sound _ xs))
          (select_sound (λ x. is_kept max b (aid x)) _))

  -- Of a valid builder, a file of a license tier holds no app and no rule above the tier, and no
  -- rule of a dropped or unknown app: each rule's app has an entry in `app_meta`, whose license the
  -- tier allows.
  pub kept-IsShippable :
      All (IsShippable max b) (kept_apps max b)
      × All (λ d. IsShippableRule max b d.app_id d.license) (kept_domains max b)
      × All (λ c. IsShippableRule max b c.app_id c.license) (kept_cidrs max b)
      × All (λ q. IsShippableRule max b q.app_id q.license) (kept_payloads max b)
  unfolding kept_domains kept_cidrs kept_payloads
  kept-IsShippable = (
    apps-IsShippable,
    rules_shippable (λ d. d.app_id) (λ d. d.license) b.domains,
    rules_shippable (λ c. c.app_id) (λ c. c.license) b.cidrs,
    rules_shippable (λ q. q.app_id) (λ q. q.license) b.payloads,
  )
