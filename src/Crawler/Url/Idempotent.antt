-- ===== src/Crawler/Url/Idempotent.antt =====
-- A canonical URL is its own canonical URL, and what a path of slashes does.
use mathlib.Core.Path.{subst}
use mathlib.Core.Option.{some-injective}
use ngfw_policy.Prelude.{
  ℕ, ◌≤◌, ◌<◌, ◌≡◌, ◌⊎◌, refl, ap, ◌∙◌, Bool, true, false, List, [], ◌∷◌, none, some, Text, lower,
  lower_code, select, every, length, is_nil, strip, is_space, rstrip, eqb, last_is, last_is-rstrip,
  if_cases, Bool-cases, inl, inr, arith, list_eq, nat_eq,
}
use ngfw_policy.Crawler.Url.{
  Port, no_port, some_port, bad_port, Parsed, Canonical, kept_port, clean_path, is_untracked,
  canonical_with, canonical_at, canonicalize, canonicalize_url,
}

-- The parts of a canonical URL, read again: what `urlparse` and `parse_qsl` give of the text that
-- `urlunparse` and `urlencode` print.
abbrev pub reparse : Canonical → Parsed
reparse c = record {
  scheme = c.scheme;
  hostname = some c.host;
  port = c.port;
  path = c.path;
  query = c.query;
}

lower_idem : (s : Text) → lower (lower s) ≡ lower s
lower_idem [] = refl
lower_idem (c ∷ s) =
    let one : lower_code (lower_code c) ≡ lower_code c = unfold lower_code in ground arith in
    rw (one, lower_idem s) refl

select_idem :
    (q : List (Text × Text)) → select is_untracked (select is_untracked q) ≡ select is_untracked q
unfolding select
select_idem [] = refl
select_idem (e ∷ q) = elim (Bool-cases (is_untracked e)) [
  | inl kept ↦ rw kept (rw (kept, select_idem q) refl)
  | inr cut ↦ rw cut (select_idem q)
]

kept_port_idem : (s : Text) (p : ℕ) → (kept_port s p ≡ no_port) ⊎ (kept_port s p ≡ some_port p)
unfolding kept_port
kept_port_idem s p =
    if_cases (λ (r : Port). (r ≡ no_port) ⊎ (r ≡ some_port p)) _ (some_port p) no_port
      (λ _. inr refl) (λ _. inl refl)

abbrev is_slash : ℕ → Bool
is_slash c = eqb c b'/'

-- A path of at most one character, or with another one than slashes.
abbrev pub IsPath : Text → Type 0
IsPath p = (length p ≤ 1) ⊎ (every is_slash p ≡ false)

is_nil-rstrip_slash : (p : Text) → is_nil (rstrip is_slash p) ≡ every is_slash p
unfolding rstrip every
is_nil-rstrip_slash [] = refl
is_nil-rstrip_slash (c ∷ p) = ground (arith, is_nil-rstrip_slash p)

clean_path_kept : (p : Text) → is_nil p ≡ false → last_is is_slash p ≡ false → clean_path p ≡ p
unfolding clean_path
clean_path_kept p filled no_slash = rw (filled, no_slash) (ground arith)

clean_path_cut :
    (p : Text)
    → is_nil p ≡ false
    → 1 < length p
    → last_is is_slash p ≡ true
    → clean_path p ≡ rstrip is_slash p
unfolding clean_path
clean_path_cut p filled long slash = rw (filled, slash) (ground arith)

clean_path_long :
    (p : Text)
    → is_nil p ≡ false
    → 1 < length p
    → every is_slash p ≡ false
    → clean_path (clean_path p) ≡ clean_path p
clean_path_long p filled long other = elim (Bool-cases (last_is is_slash p)) [
  | inr no_slash ↦ ap clean_path (clean_path_kept p filled no_slash)
  | inl slash ↦ rw (clean_path_cut p filled long slash) (
      clean_path_kept (rstrip is_slash p) (is_nil-rstrip_slash p ∙ other)
        (last_is-rstrip is_slash p))
]

clean_path_idem : (p : Text) → IsPath p → clean_path (clean_path p) ≡ clean_path p
clean_path_idem [] h = unfold clean_path in refl
clean_path_idem (c ∷ []) h = unfold clean_path in refl
clean_path_idem (c ∷ d ∷ p) (inl short) = absurd (omega (arith, short))
clean_path_idem (c ∷ d ∷ p) (inr other) = clean_path_long (c ∷ d ∷ p) refl (omega arith) other

nil_of : (p : Text) → is_nil p ≡ true → p ≡ []
nil_of [] h = refl
nil_of (c ∷ p) h = cc

last_is-every : (p : Text) → is_nil p ≡ false → every is_slash p ≡ true → last_is is_slash p ≡ true
unfolding last_is every
last_is-every [] filled h = cc
last_is-every (c ∷ []) filled h = ground arith
last_is-every (c ∷ d ∷ p) filled h = last_is-every (d ∷ p) refl (ground arith)

-- The path of a URL whose path is two slashes or more is lost.
slashes_lost : (p : Text) → 1 < length p → every is_slash p ≡ true → clean_path p ≡ []
slashes_lost [] long all = absurd (omega arith)
slashes_lost (c ∷ []) long all = absurd (omega arith)
slashes_lost (c ∷ d ∷ p) long all =
    clean_path_cut (c ∷ d ∷ p) refl long (last_is-every (c ∷ d ∷ p) refl all)
    ∙ nil_of (rstrip is_slash (c ∷ d ∷ p)) (is_nil-rstrip_slash (c ∷ d ∷ p) ∙ all)

canonical_with_idem :
    (u : Parsed) (port : Port)
    → IsPath u.path
    → canonical_with (reparse (canonical_with u port)) port ≡ canonical_with u port
unfolding canonical_with
canonical_with_idem u port h =
    rw
      (
        lower_idem u.scheme,
        lower_idem (elim u.hostname [ none ↦ [] | some name ↦ name ]),
        clean_path_idem u.path h,
        select_idem u.query,
      )
      refl

-- A port that is kept is kept again.
kept_again :
    (s : Text) (p : ℕ) (v : Parsed)
    → lower v.scheme ≡ s
    → canonical_at v (kept_port s p) ≡ some (canonical_with v (kept_port s p))
unfolding canonical_at
kept_again s p v h = elim (kept_port_idem s p) [
  | inl e ↦ rw e refl
  | inr e ↦ rw e (ap (λ q. some (canonical_with v q)) (ap (λ t. kept_port t p) h ∙ e))
]

canonical_at-some :
    (u : Parsed) (port : Port) {c : Canonical}
    → canonical_at u port ≡ some c
    → (q : Port) × (canonical_with u q ≡ c)
      × ((v : Parsed)
          → lower v.scheme ≡ lower u.scheme
          → canonical_at v q ≡ some (canonical_with v q))
unfolding canonical_at
canonical_at-some u no_port h = (no_port, some-injective _ _ h, λ v e. refl)
canonical_at-some u (some_port p) h =
    (kept_port (lower u.scheme) p, some-injective _ _ h, λ v e. kept_again (lower u.scheme) p v e)
canonical_at-some u bad_port h = cc

canonical_parts :
    (u : Parsed) (c : Canonical)
    → canonicalize u ≡ some c
    → IsPath u.path
    → canonicalize (reparse c) ≡ some c
unfolding canonicalize
canonical_parts u c h path =
    let (q, e, again) = canonical_at-some u u.port h in
    subst (λ (c : Canonical). canonicalize (reparse c) ≡ some c) e
      (again (reparse (canonical_with u q)) (unfold canonical_with in lower_idem u.scheme)
        ∙ ap some (canonical_with_idem u q path))

canonical_root :
    (u : Parsed) (c : Canonical)
    → canonicalize u ≡ some c
    → 1 < length u.path
    → every is_slash u.path ≡ true
    → c.path ≡ []
unfolding canonicalize
canonical_root u c h long all =
    let (q, e, again) = canonical_at-some u u.port h in
    subst (λ (c : Canonical). c.path ≡ []) e (unfold canonical_with in slashes_lost u.path long all)

module _ (urlparse : Text → Parsed) (urlunparse : Canonical → Text) where
  -- `urlparse` reads the printed URL as its parts. It does not where the host is an IPv6 address, whose
  -- brackets are lost, where the last segment of the path has a semicolon, which is split off, or where
  -- the path is empty or ends in a space.
  abbrev pub IsReadable : Canonical → Type 0
  IsReadable c = urlparse (strip is_space (urlunparse c)) ≡ reparse c

  -- Canonicalization is idempotent on a URL whose path is not two or more slashes, where
  -- urllib.parse reads the canonical URL back as the parts that it was printed from: the canonical URL
  -- is its own canonical URL. A path of two or more slashes becomes empty, which is not what the root
  -- path becomes.
  pub canonicalize_idem :
      (url : Text) (c : Canonical)
      → let u = urlparse (strip is_space url) in
        canonicalize u ≡ some c
        → (canonicalize_url urlparse urlunparse url ≡ some (urlunparse c))
          × (IsPath u.path
              → IsReadable c
              → canonicalize_url urlparse urlunparse (urlunparse c) ≡ some (urlunparse c))
          × (1 < length u.path → every (λ x. eqb x b'/') u.path ≡ true → c.path ≡ [])
  unfolding canonicalize_url
  canonicalize_idem url c h =
      let u = urlparse (strip is_space url) in
      (
        rw (h, canonicalize_url) refl,
        λ path read.
            let again : canonicalize (urlparse (strip is_space (urlunparse c))) ≡ some c =
              ap canonicalize read ∙ canonical_parts u c h path in
            rw (again, canonicalize_url) refl,
        λ long all. canonical_root u c h long all,
      )
