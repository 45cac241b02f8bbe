-- ===== src/Sigc/Builder.antt =====
-- The state of class `Builder` of tools/sigc.py and its method `app`. The `json` files of
-- `_load_curation` are the arguments of `new`; the set of a source's names in `app_sources` is a
-- list without repetition.
pub mod Identity
pub mod Calls
use ngfw_policy.Prelude.{
  ℕ, ◌+◌, Bool, true, false, not, ◌&&◌, ◌||◌, List, [], ◌∷◌, Option, none, some, Text, Dict, get,
  has, put, add, contains, has_code, min, if◌then◌else◌, codes, nat_eq, list_eq,
}
use ngfw_policy.Sigc.Slug.{app_key}

-- One entry of `app_meta`.
pub record Meta : Type 0 where
  pub name : Text
  pub category : ℕ
  pub license : ℕ

pub record DomainRule : Type 0 where
  pub name : Text
  pub app_id : ℕ
  pub kind : ℕ
  pub confidence : ℕ
  pub tier : ℕ
  pub license : ℕ

pub record CidrRule : Type 0 where
  pub raw : List ℕ
  pub app_id : ℕ
  pub prefixlen : ℕ
  pub af : ℕ
  pub tier : ℕ
  pub confidence : ℕ
  pub license : ℕ

pub record PayloadRule : Type 0 where
  pub value : List ℕ
  pub mask : List ℕ
  pub app_id : ℕ
  pub tier : ℕ
  pub confidence : ℕ
  pub license : ℕ

pub record Builder : Type 0 where
  pub apps : Dict Text ℕ
  pub app_meta : Dict ℕ Meta
  pub domains : List DomainRule
  pub cidrs : List CidrRule
  pub payloads : List PayloadRule
  pub next_id : ℕ
  pub seen : List (Text × ℕ × ℕ)
  pub seen_cidr : List (List ℕ × ℕ × ℕ × ℕ)
  pub seen_pay : List (List ℕ × List ℕ × ℕ)
  pub aliases : Dict Text Text
  pub drops : List Text
  pub app_sources : Dict ℕ (List Text)
  pub current_source : Text
  pub dropped_hits : ℕ
  pub aliased_hits : ℕ
  pub reserved_dropped : ℕ

-- `Builder.__init__`
unfoldable pub new : Dict Text Text → List Text → Builder
new aliases drops = record {
  apps = [];
  app_meta = [];
  domains = [];
  cidrs = [];
  payloads = [];
  next_id = 1;
  seen = [];
  seen_cidr = [];
  seen_pay = [];
  aliases = aliases;
  drops = drops;
  app_sources = [];
  current_source = codes "?";
  dropped_hits = 0;
  aliased_hits = 0;
  reserved_dropped = 0;
}

-- `Builder.DROPPED`
abbrev pub dropped : ℕ
dropped = 0

-- `self.app_sources.setdefault(aid, set()).add(self._current_source)`
unfoldable pub note_source : ℕ → Builder → Builder
unfolding get put add
note_source aid b =
    let sources : List Text = elim (get aid b.app_sources) [ none ↦ [] | some s ↦ s ] in
    record b { app_sources = put aid (add b.current_source sources) b.app_sources }

-- The display name: the hyphenated spelling is preferred.
unfoldable pub display_name : Text → Text → Text
unfolding has_code
display_name slug name = if has_code b'-' slug && not (has_code b'-' name) then slug else name

-- `if slug in self.drops`
unfoldable pub is_dropped : Text → Builder → Bool
unfolding contains
is_dropped slug b = contains slug b.drops

-- `if slug in self.aliases`: the slug is replaced, and the replacement counted.
unfoldable pub canonical : Builder → Text → Text
unfolding get
canonical b slug = elim (get slug b.aliases) [ none ↦ slug | some target ↦ target ]

unfoldable pub count_alias : Text → Builder → Builder
unfolding has
count_alias slug b = record b {
  aliased_hits = if has slug b.aliases then b.aliased_hits + 1 else b.aliased_hits;
}

-- The entry `m` of a known app is written back: its name, and the more permissive license.
unfoldable pub refresh : Text → ℕ → ℕ → Meta → Builder → Builder
unfolding display_name put
refresh slug license_tier aid m b =
    let entry : Meta = record {
      name = display_name slug m.name;
      category = m.category;
      license = min license_tier m.license;
    } in
    record b { app_meta = put aid entry b.app_meta }

-- `if key in self.apps`; a key without its entry in `app_meta` is Python's KeyError, `none`
unfoldable pub known_app : Text → ℕ → ℕ → Builder → Option (ℕ × Builder)
unfolding note_source refresh get
known_app slug license_tier aid b = elim (get aid b.app_meta) [
  | none ↦ none
  | some m ↦ some (aid, refresh slug license_tier aid m (note_source aid b))
]

unfoldable pub new_app : Text → Text → ℕ → ℕ → Builder → ℕ × Builder
unfolding note_source put
new_app slug key license_tier category b =
    let aid = b.next_id in
    (
      aid,
      note_source aid (record b {
        next_id = aid + 1;
        apps = put key aid b.apps;
        app_meta =
            put aid (record { name = slug; category = category; license = license_tier })
              b.app_meta;
      }),
    )

-- `app` after curation.
unfoldable pub assign : Text → ℕ → ℕ → Builder → Option (ℕ × Builder)
unfolding known_app new_app get
assign slug license_tier category b =
    let key = app_key slug in
    elim (get key b.apps) [
      | some aid ↦ known_app slug license_tier aid b
      | none ↦ some (new_app slug key license_tier category b)
    ]

-- `Builder.app`
unfoldable pub app : Text → ℕ → ℕ → Builder → Option (ℕ × Builder)
unfolding is_dropped canonical count_alias assign
app slug license_tier category b =
    if is_dropped slug b
    then some (dropped, record b { dropped_hits = b.dropped_hits + 1 })
    else assign (canonical b slug) license_tier category (count_alias slug b)
