-- ===== src/Sigc/Rules/Unique.antt =====
-- No rule is stored twice: the three `_seen` sets are the keys of the three rule lists.
use ngfw_policy.Prelude.{
  ℕ, ◌-◌, ◌≡◌, ap, ◌∙◌, Bool, List, [], ◌∷◌, ◌++◌, Option, Text, map, map-snoc, contains, IsUnique,
  IsUnique-snoc, arith, Bool-cases, Option-cases, inl, inr, nat_eq, list_eq, triple_eq, quad_eq,
  if◌then◌else◌, length, eqb, strip, is_space,
}
use ngfw_policy.Sigc.Builder.{Builder, DomainRule, CidrRule, PayloadRule, dropped}
use ngfw_policy.Sigc.Rules.{
  clean_name, add_domain, domain, Network, add_cidr, cidr, add_payload, payload, masked, zeros,
}

-- What identifies a rule of each kind.
abbrev pub domain_key : DomainRule → Text × ℕ × ℕ
domain_key r = (r.name, r.kind, r.app_id)

abbrev pub cidr_key : CidrRule → List ℕ × ℕ × ℕ × ℕ
cidr_key r = (r.raw, r.prefixlen, r.af, r.app_id)

abbrev pub payload_key : PayloadRule → List ℕ × List ℕ × ℕ
payload_key r = (r.value, r.mask, r.app_id)

pub record IsIndexed (b : Builder) : Type 0 where
  pub domains_seen : map domain_key b.domains ≡ b.seen
  pub cidrs_seen : map cidr_key b.cidrs ≡ b.seen_cidr
  pub payloads_seen : map payload_key b.payloads ≡ b.seen_pay
  pub domains_unique : IsUnique b.seen
  pub cidrs_unique : IsUnique b.seen_cidr
  pub payloads_unique : IsUnique b.seen_pay

add_domain-IsIndexed :
    (name : Text) (kind app_id tier confidence license_tier : ℕ) {b : Builder}
    → IsIndexed b
    → IsIndexed (add_domain name kind app_id tier confidence license_tier b).1
unfolding add_domain
add_domain-IsIndexed name kind app_id tier confidence license_tier {b} v =
    elim (Bool-cases (contains (name, kind, app_id) b.seen)) [
      | inl old ↦ rw old v
      | inr new ↦ rw new (record {
        domains_seen =
            map-snoc domain_key b.domains _
            ∙ ap (λ l. l ++ (name, kind, app_id) ∷ []) v.domains_seen;
        cidrs_seen = v.cidrs_seen;
        payloads_seen = v.payloads_seen;
        domains_unique = IsUnique-snoc _ b.seen new v.domains_unique;
        cidrs_unique = v.cidrs_unique;
        payloads_unique = v.payloads_unique;
      })
    ]

add_cidr-IsIndexed :
    (net : Network) (app_id tier confidence license_tier : ℕ) {b : Builder}
    → IsIndexed b
    → IsIndexed (add_cidr net app_id tier confidence license_tier b).1
unfolding add_cidr
add_cidr-IsIndexed net app_id tier confidence license_tier {b} v =
    let key : List ℕ × ℕ × ℕ × ℕ = (
      net.packed ++ zeros (16 - length net.packed),
      net.prefixlen,
      if eqb net.version 4 then 4 else 6,
      app_id,
    ) in
    elim (Bool-cases (contains key b.seen_cidr)) [
      | inl old ↦ rw old v
      | inr new ↦ rw new (record {
        domains_seen = v.domains_seen;
        cidrs_seen = map-snoc cidr_key b.cidrs _ ∙ ap (λ l. l ++ key ∷ []) v.cidrs_seen;
        payloads_seen = v.payloads_seen;
        domains_unique = v.domains_unique;
        cidrs_unique = IsUnique-snoc _ b.seen_cidr new v.cidrs_unique;
        payloads_unique = v.payloads_unique;
      })
    ]

add_payload-IsIndexed :
    (value mask : List ℕ) (app_id tier confidence license_tier : ℕ) {b : Builder}
    → IsIndexed b
    → IsIndexed (add_payload value mask app_id tier confidence license_tier b).1
unfolding add_payload
add_payload-IsIndexed value mask app_id tier confidence license_tier {b} v =
    elim (Bool-cases (contains (value, mask, app_id) b.seen_pay)) [
      | inl old ↦ rw old v
      | inr new ↦ rw new (record {
        domains_seen = v.domains_seen;
        cidrs_seen = v.cidrs_seen;
        payloads_seen =
            map-snoc payload_key b.payloads _
            ∙ ap (λ l. l ++ (value, mask, app_id) ∷ []) v.payloads_seen;
        domains_unique = v.domains_unique;
        cidrs_unique = v.cidrs_unique;
        payloads_unique = IsUnique-snoc _ b.seen_pay new v.payloads_unique;
      })
    ]

-- `domain` keeps the stored rules and the sets of seen keys in step: the keys of the stored rules are
-- the seen ones in their order, and no key occurs twice.
pub domain-IsIndexed :
    (raw : Text) (app_id : ℕ) (exact : Bool) (tier confidence license_tier : ℕ) {b : Builder}
    → IsIndexed b
    → IsIndexed (domain raw app_id exact tier confidence license_tier b).1
domain-IsIndexed raw app_id exact tier confidence license_tier v =
    elim (Option-cases (clean_name raw exact)) [
      | inl refused ↦ unfold domain in rw (refused, domain) v
      | inr ((name, kind), e) ↦
          unfold domain in
          rw (e, domain) (add_domain-IsIndexed name kind app_id tier confidence license_tier v)
    ]

-- `cidr` keeps the stored rules and the sets of seen keys in step: the keys of the stored rules are
-- the seen ones in their order, and no key occurs twice.
pub cidr-IsIndexed :
    (ip_network : Text → Option Network) (text : Text) (app_id tier confidence license_tier : ℕ)
    {b : Builder}
    → IsIndexed b
    → IsIndexed (cidr ip_network text app_id tier confidence license_tier b).1
unfolding cidr
cidr-IsIndexed ip_network text app_id tier confidence license_tier {b} v =
    elim (Bool-cases (eqb app_id dropped)) [
      | inl gone ↦ rw gone v
      | inr owned ↦ elim (Option-cases (ip_network (strip is_space text))) [
        | inl refused ↦ rw (owned, refused) v
        | inr (net, e) ↦
            rw (owned, e, cidr) (add_cidr-IsIndexed net app_id tier confidence license_tier v)
      ]
    ]

-- `payload` keeps the stored rules and the sets of seen keys in step: the keys of the stored rules are
-- the seen ones in their order, and no key occurs twice.
pub payload-IsIndexed :
    (value mask : List ℕ) (app_id tier confidence license_tier : ℕ) {b : Builder}
    → IsIndexed b
    → IsIndexed (payload value mask app_id tier confidence license_tier b).1
unfolding payload
payload-IsIndexed value mask app_id tier confidence license_tier {b} v =
    ground
      (arith, add_payload-IsIndexed (masked value mask) mask app_id tier confidence license_tier v)
