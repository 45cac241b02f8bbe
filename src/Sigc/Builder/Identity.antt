-- ===== src/Sigc/Builder/Identity.antt =====
-- Application identity: the invariant of `apps`, `app_meta` and `next_id`, and what `app` returns.
use ngfw_policy.Prelude.{
  ℕ, ◌+◌, ◌≤◌, ◌<◌, ◌≡◌, refl, true, false, none, some, Text, List, Dict, get, has, get-put,
  has-put, get_of_has, arith, inl, inr, Option-cases, nat_eq, list_eq, list_beq_iff, min, eq_refl,
}
use ngfw_policy.Sigc.Slug.{app_key}
use ngfw_policy.Sigc.Builder.{
  Builder, Meta, DomainRule, CidrRule, PayloadRule, app, assign, is_dropped, canonical, count_alias,
  known_app, refresh, new_app, note_source, display_name, dropped, new,
}

-- Ids are handed out from 1 on, every id has its entry in `app_meta`, and two keys never share one.
pub record IsValid (b : Builder) : Type 0 where
  pub positive : 1 ≤ b.next_id
  pub ids :
      (k : Text) (a : ℕ)
      → get k b.apps ≡ some a
      → (1 ≤ a) × (a < b.next_id) × (has a b.app_meta ≡ true)
  pub metas : (a : ℕ) → has a b.app_meta ≡ true → (1 ≤ a) × (a < b.next_id)
  pub injective : (k j : Text) (a : ℕ) → get k b.apps ≡ some a → get j b.apps ≡ some a → k ≡ j

pub new-IsValid : (aliases : Dict Text Text) (drops : List Text) → IsValid (new aliases drops)
unfolding new get has
new-IsValid aliases drops = record {
  positive = omega arith;
  ids = λ k a h. cc;
  metas = λ a h. cc;
  injective = λ k j a h g. cc;
}

-- The six stores of rules.
abbrev pub RuleStores : Type 0
RuleStores =
    List DomainRule
    × List CidrRule
    × List PayloadRule
    × List (Text × ℕ × ℕ)
    × List (List ℕ × ℕ × ℕ × ℕ)
    × List (List ℕ × List ℕ × ℕ)

abbrev pub rules : Builder → RuleStores
rules b = (b.domains, b.cidrs, b.payloads, b.seen, b.seen_cidr, b.seen_pay)

-- What a call that resolves a curated slug to `aid` does to the builder.
pub record IsAssigned (slug : Text) (b : Builder) (aid : ℕ) (b' : Builder) : Type 0 where
  pub valid : IsValid b'
  pub found : get (app_key slug) b'.apps ≡ some aid
  pub kept : (k : Text) (a : ℕ) → get k b.apps ≡ some a → get k b'.apps ≡ some a
  pub same_aliases : b'.aliases ≡ b.aliases
  pub same_drops : b'.drops ≡ b.drops
  pub same_rules : rules b' ≡ rules b

module _ (slug : Text) (license_tier category : ℕ) {b : Builder} (v : IsValid b) where
  new_app-IsAssigned :
      get (app_key slug) b.apps ≡ none
      → let (aid, b') = new_app slug (app_key slug) license_tier category b in
        IsAssigned slug b aid b'
  unfolding new_app note_source
  new_app-IsAssigned fresh =
      let key = app_key slug in
      record {
        valid = record {
          positive = omega arith;
          ids = λ k a h. ground (
            arith,
            get-put key k b.next_id b.apps,
            list_beq_iff key k,
            v.ids k a,
            v.positive,
            has-put b.next_id a
                (record { name = slug; category = category; license = license_tier }) b.app_meta,
          );
          metas = λ a h. ground (
            arith,
            v.metas a,
            v.positive,
            has-put b.next_id a
                (record { name = slug; category = category; license = license_tier }) b.app_meta,
          );
          injective = λ k j a h g. ground (
            arith,
            get-put key k b.next_id b.apps,
            get-put key j b.next_id b.apps,
            list_beq_iff key k,
            list_beq_iff key j,
            v.ids k a,
            v.ids j a,
            v.injective k j a,
          );
        };
        found = rw (get-put, eq_refl key);
        kept = λ k a h. ground (arith, get-put key k b.next_id b.apps, list_beq_iff key k);
        same_aliases = refl;
        same_drops = refl;
        same_rules = refl;
      }

  known_app-IsAssigned :
      (aid : ℕ)
      → get (app_key slug) b.apps ≡ some aid
      → (b' : Builder) × (known_app slug license_tier aid b ≡ some (aid, b'))
        × IsAssigned slug b aid b'
  unfolding known_app refresh note_source
  known_app-IsAssigned aid known =
      let listed = v.ids (app_key slug) aid known in
      let (m, e) = get_of_has aid b.app_meta listed.2 in
      let entry : Meta = record {
        name = display_name slug m.name;
        category = m.category;
        license = min license_tier m.license;
      } in
      (
        refresh slug license_tier aid m (note_source aid b),
        rw (e, known_app),
        record {
          valid = record {
            positive = v.positive;
            ids = λ k a h. ground (arith, v.ids k a h, has-put aid a entry b.app_meta);
            metas = λ a h. ground (arith, listed, v.metas a, has-put aid a entry b.app_meta);
            injective = v.injective;
          };
          found = known;
          kept = λ k a h. h;
          same_aliases = refl;
          same_drops = refl;
          same_rules = refl;
        },
      )

  pub assign-IsAssigned :
      (aid : ℕ) × (b' : Builder) × (assign slug license_tier category b ≡ some (aid, b'))
      × IsAssigned slug b aid b'
  unfolding assign
  assign-IsAssigned = elim (Option-cases (get (app_key slug) b.apps)) [
    | inl fresh ↦
        let (aid, b') = new_app slug (app_key slug) license_tier category b in
        (aid, b', rw (fresh, assign), new_app-IsAssigned fresh)
    | inr (aid, known) ↦
        let (b', e, done) = known_app-IsAssigned aid known in (aid, b', rw (known, assign) e, done)
  ]

count_alias-IsValid : (slug : Text) {b : Builder} → IsValid b → IsValid (count_alias slug b)
unfolding count_alias
count_alias-IsValid slug v = record {
  positive = v.positive;
  ids = v.ids;
  metas = v.metas;
  injective = v.injective;
}

-- `app` on a slug that is not dropped assigns its canonical slug.
pub app_kept :
    (slug : Text) (license_tier category : ℕ) {b : Builder}
    → IsValid b
    → is_dropped slug b ≡ false
    → (aid : ℕ) × (b' : Builder) × (app slug license_tier category b ≡ some (aid, b'))
      × IsAssigned (canonical b slug) b aid b'
unfolding app count_alias
app_kept slug license_tier category {b} v kept =
    let (aid, b', e, done) =
      assign-IsAssigned (canonical b slug) license_tier category (count_alias-IsValid slug v) in
    (
      aid,
      b',
      rw (kept, app) e,
      record {
        valid = done.valid;
        found = done.found;
        kept = done.kept;
        same_aliases = done.same_aliases;
        same_drops = done.same_drops;
        same_rules = done.same_rules;
      },
    )

pub app_dropped :
    (slug : Text) (license_tier category : ℕ) (b : Builder)
    → is_dropped slug b ≡ true
    → app slug license_tier category b
      ≡ some (dropped, record b { dropped_hits = b.dropped_hits + 1 })
unfolding app
app_dropped slug license_tier category b gone = rw gone
