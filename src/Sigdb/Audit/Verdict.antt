-- ===== src/Sigdb/Audit/Verdict.antt =====
-- What a passed audit shows.
use ngfw_policy.Prelude.{
  ℕ, ◌≤◌, ◌≡◌, ◌↔◌, refl, true, false, not, ◌&&◌, ◌||◌, List, [], ◌∷◌, none, some, Text, Dict, get,
  get-put, add, contains, contains-add, select, every, length, is_nil, ltb, ◌==◌, eq_refl,
  list_beq_iff, nat_eq, list_eq, Bool-cases, Option, if_cases, inl, inr, arith,
}
use ngfw_policy.Sigdb.Read.{Corpus}
use ngfw_policy.Sigdb.Audit.{
  add_to, names_of, values, name_key, group_names, shared, near_groups, entries_of, present_in,
  audit,
}

abbrev or_empty : Option (List Text) → List Text
or_empty none = []
or_empty (some vs) = vs

-- The members of a group.
members : Text → Dict Text (List Text) → List Text
members k d = or_empty (get k d)

members-add_to :
    (k j v w : Text) (d : Dict Text (List Text))
    → contains w (members j (add_to k v d)) ≡ ((k == j && v == w) || contains w (members j d))
unfolding members add_to
members-add_to k j v w d = elim (Bool-cases (k == j)) [
  | inr other ↦ rw (get-put k j (add v (members k d)) d, other, members) refl
  | inl same ↦
      let p : k ≡ j = (list_beq_iff k j).0 same in
      rw (get-put k j (add v (members k d)) d, same, members)
        (rw (contains-add v w (members k d)) (rw p (ground arith)))
]

members-group :
    (j w : Text) (ns : List Text) (d : Dict Text (List Text))
    → contains w (members j (group_names ns d))
      ≡ ((name_key w == j && contains w ns) || contains w (members j d))
unfolding group_names contains
members-group j w [] d = ground arith
members-group j w (n ∷ ns) d = ground (
  arith,
  members-group j w ns (add_to (name_key n) n d),
  members-add_to (name_key n) j n w d,
  list_beq_iff n w,
  list_beq_iff (name_key n) j,
  list_beq_iff (name_key w) j,
)

-- Where no group is shared, none has two members.
members-short :
    (j : Text) (d : Dict Text (List Text)) → is_nil (shared d) ≡ true → length (members j d) ≤ 1
unfolding members shared select get
members-short j [] h = omega arith
members-short j ((k, vs) ∷ d) h = elim (Bool-cases (ltb 1 (length vs))) [
  | inl many ↦ absurd (cc (rw many at h))
  | inr few ↦
      if_cases (λ (o : Option (List Text)). length (or_empty o) ≤ 1) (k == j) (some vs) (get j d)
        (λ _. ground arith) (λ _. members-short j d (rw few at h))
]

one_member :
    (a b : Text) (vs : List Text)
    → length vs ≤ 1
    → contains a vs ≡ true
    → contains b vs ≡ true
    → a ≡ b
unfolding contains
one_member a b [] short ha hb = cc
one_member a b (x ∷ []) short ha hb = ground (arith, list_beq_iff x a, list_beq_iff x b)
one_member a b (x ∷ y ∷ vs) short ha hb = absurd (omega arith)

-- No curated key is a name, if the list of those that are is empty.
present_in_nil :
    (names : Dict ℕ Text) (keys : List Text)
    → is_nil (present_in names keys) ≡ every (λ k. not (contains k (values names))) keys
unfolding present_in select every
present_in_nil names [] = refl
present_in_nil names (k ∷ keys) = ground (arith, present_in_nil names keys)

-- The audit passes without `--strict` exactly if no key of the drops and of the aliases that is no
-- comment is the name of an app of the file. If it passes with `--strict`, this holds too, and no two
-- names of apps differ only in case and in characters outside [a-z0-9].
pub audit-passes :
    (c : Corpus) (aliases drops : List Text)
    → let names = values (names_of c.apps []) in
      (((audit c aliases drops false).bad ≡ false) ↔ (
        (every (λ k. not (contains k names)) (entries_of drops)
          && every (λ k. not (contains k names)) (entries_of aliases))
        ≡ true))
      × ((audit c aliases drops true).bad ≡ false
          → ((every (λ k. not (contains k names)) (entries_of drops)
                && every (λ k. not (contains k names)) (entries_of aliases))
              ≡ true)
            × ((a b : Text)
                → contains a names ≡ true
                → contains b names ≡ true
                → name_key a ≡ name_key b
                → a ≡ b))
unfolding audit near_groups
audit-passes c aliases drops =
    let table : Dict ℕ Text = names_of c.apps [] in
    let names : List Text = values table in
    let groups : Dict Text (List Text) = group_names names [] in
    (
      ground (
        arith,
        present_in_nil table (entries_of drops),
        present_in_nil table (entries_of aliases),
      ),
      λ passed. (
        ground (
          arith,
          passed,
          present_in_nil table (entries_of drops),
          present_in_nil table (entries_of aliases),
        ),
        λ a b ha hb same.
            let none_shared : is_nil (shared groups) ≡ true = ground (arith, passed) in
            one_member a b (members (name_key a) groups)
              (members-short (name_key a) groups none_shared)
              (ground (arith, members-group (name_key a) a names [], eq_refl (name_key a)))
              (ground (
                arith,
                members-group (name_key a) b names [],
                list_beq_iff (name_key b) (name_key a),
              )),
      ),
    )
