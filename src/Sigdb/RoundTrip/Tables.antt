-- ===== src/Sigdb/RoundTrip/Tables.antt =====
-- The rows of each table, and what the readers make of them.
use ngfw_policy.Prelude.{
  ℕ, suc, ◌<◌, ◌≡◌, refl, ap, ◌∙◌, List, [], ◌∷◌, Option, some, Text, All, map, length, get,
  list_eq, nat_eq, arith,
}
use ngfw_policy.Sigc.Builder.{Meta, DomainRule, CidrRule, PayloadRule}
use ngfw_policy.Sigdb.Struct.{Field, Value}
use ngfw_policy.Sigdb.Struct.RoundTrip.{FitRows, FitsRow}
use ngfw_policy.Sigdb.Pool.{Pool, encode}
use ngfw_policy.Sigdb.Pool.Strings.{IsStorable, AllAt, IsPool, string_at_lem}
use ngfw_policy.Sigdb.Write.{app_row, dom_row, cidr_row, pay_row, rows_at}
use ngfw_policy.Sigdb.Read.{AppEntry, text_at, app_of, domain_of, cidr_of, payload_of, all_of}

-- ASCII without the zero character.
abbrev pub IsPlain : Text → Type 0
IsPlain = All (λ c. (0 < c) × (c < 128))

plain-IsStorable : (s : Text) → IsPlain s → IsStorable s
plain-IsStorable [] h = tt
plain-IsStorable (c ∷ s) h = (h.0.0, plain-IsStorable s h.1)

-- Plain text is its own encoding.
pub encode-eq_self : (s : Text) → IsPlain s → encode s ≡ s
unfolding encode
encode-eq_self [] h = refl
encode-eq_self (c ∷ s) h = ground (arith, encode-eq_self s h.1, h.0)

abbrev pub app_entry : ℕ × Meta → AppEntry
app_entry (aid, m) = record { app_id = aid; name = m.name; license = m.license }

module _ {A : Type 0} where
  pub length-rows_at :
      (row : A → ℕ → List Value) (name : A → Text) (q : Pool) (xs : List A) (os : List ℕ)
      → AllAt q (map name xs) os
      → length (rows_at row xs os) ≡ length xs
  unfolding rows_at
  length-rows_at row name q [] os h = refl
  length-rows_at row name q (x ∷ xs) [] h = absurd h
  length-rows_at row name q (x ∷ xs) (o ∷ os) h = ap suc (length-rows_at row name q xs os h.1)

  -- A reader of one row that undoes the writer of one row undoes the table.
  pub all_of-rows_at :
      {B : Type 0} (row : A → ℕ → List Value) (name : A → Text) (f : List Value → Option B)
      (g : A → B) (q : Pool) (xs : List A) (os : List ℕ)
      → AllAt q (map name xs) os
      → All (λ x. (o : ℕ) → get (name x) q.offsets ≡ some o → f (row x o) ≡ some (g x)) xs
      → all_of f (rows_at row xs os) ≡ some (map g xs)
  unfolding rows_at all_of
  all_of-rows_at row name f g q [] os h k = refl
  all_of-rows_at row name f g q (x ∷ xs) [] h k = absurd h
  all_of-rows_at row name f g q (x ∷ xs) (o ∷ os) h k =
      rw (k.0 o h.0, all_of-rows_at row name f g q xs os h.1 k.1, all_of) refl

  pub all_of-map :
      (row : A → List Value) (f : List Value → Option A) (xs : List A)
      → All (λ x. f (row x) ≡ some x) xs
      → all_of f (map row xs) ≡ some xs
  unfolding all_of
  all_of-map row f [] h = refl
  all_of-map row f (x ∷ xs) h = rw (h.0, all_of-map row f xs h.1, all_of) refl

  pub FitRows-map :
      (fmt : List Field) (row : A → List Value) (xs : List A)
      → All (λ x. FitsRow fmt (row x)) xs
      → FitRows fmt (map row xs)
  FitRows-map fmt row [] h = tt
  FitRows-map fmt row (x ∷ xs) h = (h.0, FitRows-map fmt row xs h.1)

  pub FitRows-rows_at :
      (fmt : List Field) (row : A → ℕ → List Value) (xs : List A) (os : List ℕ)
      → ((x : A) (o : ℕ) → FitsRow fmt (row x o))
      → FitRows fmt (rows_at row xs os)
  unfolding rows_at
  FitRows-rows_at fmt row [] os h = tt
  FitRows-rows_at fmt row (x ∷ xs) [] h = tt
  FitRows-rows_at fmt row (x ∷ xs) (o ∷ os) h = (h x o, FitRows-rows_at fmt row xs os h)

  All-map : (P : A → Type 0) (h : (x : A) → P x) (xs : List A) → All P xs
  All-map P h [] = tt
  All-map P h (x ∷ xs) = (h x, All-map P h xs)

cidr_rows : (cs : List CidrRule) → All (λ x. cidr_of (cidr_row x) ≡ some x) cs
unfolding cidr_of
cidr_rows cs = All-map _ (λ x. refl) cs

payload_rows : (ps : List PayloadRule) → All (λ x. payload_of (pay_row x) ≡ some x) ps
unfolding payload_of
payload_rows ps = All-map _ (λ x. refl) ps

pub all_of-cidrs : (cs : List CidrRule) → all_of cidr_of (map cidr_row cs) ≡ some cs
all_of-cidrs cs = all_of-map cidr_row cidr_of cs (cidr_rows cs)

pub all_of-payloads : (ps : List PayloadRule) → all_of payload_of (map pay_row ps) ≡ some ps
all_of-payloads ps = all_of-map pay_row payload_of ps (payload_rows ps)

module _ (decode : List ℕ → Text) (ascii : (s : Text) → IsPlain s → decode s ≡ s) where
  text_at_lem :
      (q : Pool) (s : Text) (o : ℕ)
      → IsPool q
      → IsPlain s
      → get s q.offsets ≡ some o
      → text_at decode q.bytes o ≡ some s
  unfolding text_at
  text_at_lem q s o v plain h =
      rw (string_at_lem q.bytes s o (plain-IsStorable s plain) (v.stored s o h), text_at)
        (ap some (ap decode (encode-eq_self s plain) ∙ ascii s plain))

  pub app_rows :
      (q : Pool) (xs : List (ℕ × Meta))
      → IsPool q
      → All (λ x. IsPlain x.1.name) xs
      → All
          (λ x.
            (o : ℕ)
            → get x.1.name q.offsets ≡ some o
            → app_of decode q.bytes (app_row x o) ≡ some (app_entry x))
          xs
  unfolding app_of
  app_rows q [] v plain = tt
  app_rows q (x ∷ xs) v plain =
      (λ o h. rw (text_at_lem q x.1.name o v plain.0 h, app_of) refl, app_rows q xs v plain.1)

  pub domain_rows :
      (q : Pool) (xs : List DomainRule)
      → IsPool q
      → All (λ x. IsPlain x.name) xs
      → All
          (λ x.
            (o : ℕ)
            → get x.name q.offsets ≡ some o
            → domain_of decode q.bytes (dom_row x o) ≡ some x)
          xs
  unfolding domain_of
  domain_rows q [] v plain = tt
  domain_rows q (x ∷ xs) v plain =
      (λ o h. rw (text_at_lem q x.name o v plain.0 h, domain_of) refl, domain_rows q xs v plain.1)
