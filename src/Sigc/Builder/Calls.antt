-- ===== src/Sigc/Builder/Calls.antt =====
-- Sequences of `app` calls: ids are stable, and two slugs have one id exactly when they have one key.
use mathlib.Core.Path.{subst}
use mathlib.Core.Option.{some-injective}
use ngfw_policy.Prelude.{
  ℕ, ◌+◌, ◌≡◌, ◌↔◌, refl, sym, ap, ◌∙◌, false, some, Text, get, inl, inr, Bool-cases, nat_eq,
  list_eq, min, get-put, if◌then◌else◌, eqb, has_code, true, arith,
}
use ngfw_policy.Sigc.Slug.{app_key}
use ngfw_policy.Sigc.Builder.{
  Builder, Meta, app, known_app, refresh, note_source, is_dropped, canonical, display_name, dropped,
}
use ngfw_policy.Sigc.Builder.Identity.{IsValid, IsAssigned, rules, app_kept, app_dropped}

-- A state that later calls have led to: still valid, with every id as it was.
pub record Later (b c : Builder) : Type 0 where
  pub valid : IsValid c
  pub kept : (k : Text) (a : ℕ) → get k b.apps ≡ some a → get k c.apps ≡ some a
  pub same_aliases : c.aliases ≡ b.aliases
  pub same_drops : c.drops ≡ b.drops

app-IsAssigned :
    (slug : Text) (l cat : ℕ) {b b' : Builder} {aid : ℕ}
    → IsValid b
    → is_dropped slug b ≡ false
    → app slug l cat b ≡ some (aid, b')
    → IsAssigned (canonical b slug) b aid b'
app-IsAssigned slug l cat {b} v kept h =
    let (aid, b', e, done) = app_kept slug l cat v kept in
    subst (λ (r : ℕ × Builder). IsAssigned (canonical b slug) b r.0 r.1)
      (some-injective _ _ (sym e ∙ h)) done

app-Later :
    (slug : Text) (l cat : ℕ) {b b' : Builder} {aid : ℕ}
    → IsValid b
    → app slug l cat b ≡ some (aid, b')
    → Later b b'
app-Later slug l cat {b} v h = elim (Bool-cases (is_dropped slug b)) [
  | inl gone ↦
      subst (λ (r : ℕ × Builder). Later b r.1)
        (some-injective _ _ (sym (app_dropped slug l cat b gone) ∙ h))
        (record {
          valid = record {
            positive = v.positive;
            ids = v.ids;
            metas = v.metas;
            injective = v.injective;
          };
          kept = λ k a p. p;
          same_aliases = refl;
          same_drops = refl;
        })
  | inr kept ↦
      let done = app-IsAssigned slug l cat v kept h in
      record {
        valid = done.valid;
        kept = done.kept;
        same_aliases = done.same_aliases;
        same_drops = done.same_drops;
      }
]

-- `c` is reached from `b` by calls of `app`.
pub data Calls (b : Builder) : Builder → Type 0 where
  start : Calls b b
  call :
      {c d : Builder} (slug : Text) (l cat aid : ℕ)
      → Calls b c
      → app slug l cat c ≡ some (aid, d)
      → Calls b d

Calls-Later : {b c : Builder} → IsValid b → Calls b c → Later b c
Calls-Later v start = record {
  valid = v;
  kept = λ k a p. p;
  same_aliases = refl;
  same_drops = refl;
}
Calls-Later v (call slug l cat aid before h) =
    let first = Calls-Later v before in
    let last = app-Later slug l cat first.valid h in
    record {
      valid = last.valid;
      kept = λ k a p. last.kept k a (first.kept k a p);
      same_aliases = last.same_aliases ∙ first.same_aliases;
      same_drops = last.same_drops ∙ first.same_drops;
    }

-- In a valid builder `app` never raises; it leaves a valid builder with the same rules.
pub app-IsValid :
    (slug : Text) (l cat : ℕ) {b : Builder}
    → IsValid b
    → (aid : ℕ) × (b' : Builder) × (app slug l cat b ≡ some (aid, b'))
      × IsValid b'
      × (rules b' ≡ rules b)
app-IsValid slug l cat {b} v = elim (Bool-cases (is_dropped slug b)) [
  | inl gone ↦ (
    dropped,
    record b { dropped_hits = b.dropped_hits + 1 },
    app_dropped slug l cat b gone,
    record { positive = v.positive; ids = v.ids; metas = v.metas; injective = v.injective },
    refl,
  )
  | inr kept ↦
      let (aid, b', e, done) = app_kept slug l cat v kept in
      (aid, b', e, done.valid, done.same_rules)
]

canonical_stable : (slug : Text) {b c : Builder} → Later b c → canonical c slug ≡ canonical b slug
unfolding canonical
canonical_stable slug later = rw later.same_aliases

is_dropped_stable :
    (slug : Text) {b c : Builder} → Later b c → is_dropped slug c ≡ is_dropped slug b
unfolding is_dropped
is_dropped_stable slug later = rw later.same_drops

-- From a valid builder, however many calls of `app` lie between, two slugs that curation keeps get
-- the same id exactly when their canonical slugs are equal up to separators.
pub app_identity :
    (s t : Text) (l m cat dog x y : ℕ) {b b₁ b₂ b₃ : Builder}
    → IsValid b
    → is_dropped s b ≡ false
    → is_dropped t b ≡ false
    → app s l cat b ≡ some (x, b₁)
    → Calls b₁ b₂
    → app t m dog b₂ ≡ some (y, b₃)
    → (x ≡ y) ↔ (app_key (canonical b s) ≡ app_key (canonical b t))
app_identity s t l m cat dog x y {b} {b₁} {b₂} {b₃} v ks kt hs calls ht =
    let first = app-IsAssigned s l cat v ks hs in
    let later = Calls-Later first.valid calls in
    let step : Later b b₂ = record {
      valid = later.valid;
      kept = λ k a p. later.kept k a (first.kept k a p);
      same_aliases = later.same_aliases ∙ first.same_aliases;
      same_drops = later.same_drops ∙ first.same_drops;
    } in
    let last = app-IsAssigned t m dog later.valid (is_dropped_stable t step ∙ kt) ht in
    let old : get (app_key (canonical b s)) b₃.apps ≡ some x =
      last.kept _ _ (later.kept _ _ first.found) in
    let new : get (app_key (canonical b t)) b₃.apps ≡ some y =
      subst (λ k. get (app_key k) b₃.apps ≡ some y) (canonical_stable t step) last.found in
    (
      λ same.
          last.valid.injective _ _ y
            (subst (λ z. get (app_key (canonical b s)) b₃.apps ≡ some z) same old) new,
      λ same. some-injective x y (sym old ∙ ap (λ k. get k b₃.apps) same ∙ new),
    )

-- The name behind a claim under `slug`: the slug where it brings a hyphen that the old name has not,
-- and the old name everywhere else.
pub record IsRenamed (slug old name : Text) : Type 0 where
  pub gained : has_code b'-' slug ≡ true → has_code b'-' old ≡ false → name ≡ slug
  pub hyphenated : has_code b'-' old ≡ true → name ≡ old
  pub plain : has_code b'-' slug ≡ false → name ≡ old

display_name-IsRenamed : (slug old : Text) → IsRenamed slug old (display_name slug old)
unfolding display_name
display_name-IsRenamed slug old = record {
  gained = λ h k. rw (h, k) refl;
  hyphenated = λ h. ground (arith, h);
  plain = λ h. rw h refl;
}

-- A second claim on a known app keeps its category, lowers its license to the more permissive of
-- the two, changes its display name to the slug if that brings a hyphen that the name has not, and
-- not otherwise, and touches no other app's entry.
pub refresh_entry :
    (slug : Text) (l aid j : ℕ) (m : Meta) (b : Builder)
    → get aid b.app_meta ≡ some m
    → (b' : Builder) × (name : Text) × (known_app slug l aid b ≡ some (aid, b'))
      × IsRenamed slug m.name name
      × (get j b'.app_meta ≡ (
          if eqb aid j
          then some (record { name = name; category = m.category; license = min l m.license })
          else get j b.app_meta))
unfolding known_app refresh note_source
refresh_entry slug l aid j m b e = (
  refresh slug l aid m (note_source aid b),
  display_name slug m.name,
  rw (e, known_app) refl,
  display_name-IsRenamed slug m.name,
  get-put aid j _ b.app_meta,
)
