-- ===== src/Sigc/Load.antt =====
-- The loaders of tools/sigc.py as actions on a builder that may raise (`none`): the methods as
-- actions, and loops with their counters as folds. What a loader reads from the vendored trees,
-- and the matches of its regular expressions in order, are arguments.
pub mod Sound
pub mod Netify
pub mod Hosts
pub mod OpenAppId
pub mod Prefixes
pub mod Feeds
pub mod Harvest
pub mod Compile
use ngfw_policy.Prelude.{ℕ, ◌+◌, if◌then◌else◌, Bool, List, [], ◌∷◌, Option, none, some, Text}
use ngfw_policy.Sigc.Builder.{Builder}
use ngfw_policy.Sigc.Builder
use ngfw_policy.Sigc.Rules
use ngfw_policy.Sigc.Rules.{Network}

abbrev pub Load : Type 0 → Type 0
Load A = Builder → Option (A × Builder)

abbrev pub pure : {A : Type 0} → A → Load A
pure a b = some (a, b)

infixl 5 ◌>>=◌
abbrev pub ◌>>=◌ : {A B : Type 0} → Load A → (A → Load B) → Load B
◌>>=◌ m f b = elim (m b) [ none ↦ none | some (a, b') ↦ f a b' ]

-- An exception.
abbrev pub raise : {A : Type 0} → Load A
raise b = none

-- A branch on a value that may be missing.
abbrev pub on_some : {X A : Type 0} → Option X → Load A → (X → Load A) → Load A
on_some none m f = m
on_some (some x) m f = f x

-- A `for` loop over a list, with the loop's variables as its state.
unfoldable pub for_each : {S X : Type 0} → (S → X → Load S) → S → List X → Load S
for_each body s [] = pure s
for_each body s (x ∷ xs) = body s x >>= λ s'. for_each body s' xs

-- The methods of the builder as actions.
unfoldable pub app : Text → ℕ → Load ℕ
app slug license_tier = Builder.app slug license_tier 0

unfoldable pub domain : Text → ℕ → ℕ → ℕ → ℕ → Load Bool
domain name aid tier confidence license_tier b =
    some (Rules.domain name aid Bool.false tier confidence license_tier b)

unfoldable pub cidr : (Text → Option Network) → Text → ℕ → ℕ → ℕ → ℕ → Load Bool
cidr ip_network text aid tier confidence license_tier b =
    some (Rules.cidr ip_network text aid tier confidence license_tier b)

unfoldable pub payload : List ℕ → List ℕ → ℕ → ℕ → ℕ → ℕ → Load Bool
payload value mask aid tier confidence license_tier b =
    some (Rules.payload value mask aid tier confidence license_tier b)

-- `n += 1` where the method returned True
abbrev pub count_if : Bool → ℕ → ℕ
count_if added n = if added then n + 1 else n
