-- ===== src/Crawler/Extractors/JsonLd/Objects.antt =====
-- `_iter_objects` ends, and yields every object of a payload once.
use mathlib.Core.List.{append_assoc, append-nil}
use ngfw_policy.Prelude.{
  ℕ, zero, suc, ◌+◌, ◌≤◌, ◌≡◌, refl, sym, ap, ◌∙◌, List, [], ◌∷◌, ◌++◌, if◌then◌else◌, ◌==◌,
  list_eq, nat_eq, Bool-cases, inl, inr, arith,
}
use ngfw_policy.Crawler.Extractors.JsonLd.{
  Json, null, bool, num, str, arr, obj, Items, no_items, item, Fields, no_entries, entry, find,
  graph_key, push_all, push_graph, iter_objects, size, size_items, size_fields,
}

-- The objects of a value: those of a list from its last item to its first, and an object before
-- those of its @graph.
unfoldable mutual
  pub objects : Json → List Fields
  objects (arr xs) = objects_in xs
  objects (obj fs) = fs ∷ graph_objects fs
  objects _ = []

  pub objects_in : Items → List Fields
  objects_in no_items = []
  objects_in (item x xs) = objects_in xs ++ objects x

  pub graph_objects : Fields → List Fields
  graph_objects no_entries = []
  graph_objects (entry k v fs) =
      let here = objects v in let rest = graph_objects fs in if k == graph_key then here else rest

-- The objects of all values on the stack, and their number of values.
pending : List Json → List Fields
pending [] = []
pending (j ∷ stack) = objects j ++ pending stack

weight : List Json → ℕ
weight [] = 0
weight (j ∷ stack) = size j + weight stack

pending-push_all :
    (xs : Items) (stack : List Json) → pending (push_all xs stack) ≡ objects_in xs ++ pending stack
unfolding pending push_all objects_in
pending-push_all no_items stack = refl
pending-push_all (item x xs) stack =
    pending-push_all xs (x ∷ stack) ∙ sym (append_assoc (objects_in xs) (objects x) (pending stack))

weight-push_all :
    (xs : Items) (stack : List Json) → weight (push_all xs stack) ≡ size_items xs + weight stack
unfolding weight push_all size_items
weight-push_all no_items stack = omega arith
weight-push_all (item x xs) stack = omega (arith, weight-push_all xs (x ∷ stack))

-- The graph of an object on the stack.
push_graph_lem :
    (fs : Fields) (stack : List Json)
    → (pending (push_graph (find graph_key fs) stack) ≡ graph_objects fs ++ pending stack)
      × (weight (push_graph (find graph_key fs) stack) ≤ size_fields fs + weight stack)
unfolding find graph_objects size_fields
push_graph_lem no_entries stack = (refl, omega arith)
push_graph_lem (entry k v fs) stack =
    let (same, less) = push_graph_lem fs stack in
    elim (Bool-cases (k == graph_key)) [
      | inl hit ↦ rw hit (unfold pending weight in refl, unfold weight in omega arith)
      | inr miss ↦ rw miss (same, omega (arith, less))
    ]

size-pos : (j : Json) → 1 ≤ size j
unfolding size
size-pos null = omega arith
size-pos (bool b) = omega arith
size-pos (num s b) = omega arith
size-pos (str s) = omega arith
size-pos (arr xs) = omega arith
size-pos (obj fs) = omega arith

iter_objects_lem :
    (fuel : ℕ) (stack : List Json) → weight stack ≤ fuel → iter_objects fuel stack ≡ pending stack
unfolding iter_objects pending weight objects size
iter_objects_lem zero [] h = refl
iter_objects_lem (suc fuel) [] h = refl
iter_objects_lem zero (j ∷ stack) h = absurd (omega (arith, size-pos j))
iter_objects_lem (suc fuel) (arr xs ∷ stack) h =
    iter_objects_lem fuel (push_all xs stack) (omega (arith, weight-push_all xs stack))
    ∙ pending-push_all xs stack
iter_objects_lem (suc fuel) (obj fs ∷ stack) h =
    let (same, less) = push_graph_lem fs stack in
    ap (λ t. fs ∷ t)
      (iter_objects_lem fuel (push_graph (find graph_key fs) stack) (omega (arith, less)) ∙ same)
iter_objects_lem (suc fuel) (null ∷ stack) h = iter_objects_lem fuel stack (omega arith)
iter_objects_lem (suc fuel) (bool b ∷ stack) h = iter_objects_lem fuel stack (omega arith)
iter_objects_lem (suc fuel) (num s b ∷ stack) h = iter_objects_lem fuel stack (omega arith)
iter_objects_lem (suc fuel) (str s ∷ stack) h = iter_objects_lem fuel stack (omega arith)

-- The loop over the stack ends: with as many rounds as the payload has values, or more, it has
-- yielded exactly the objects of the payload, those of a list from the last item to the first
-- and an object before those of its @graph.
pub iter_objects-objects :
    (payload : Json) (fuel : ℕ)
    → size payload ≤ fuel
    → iter_objects fuel (payload ∷ []) ≡ objects payload
iter_objects-objects payload fuel h =
    iter_objects_lem fuel (payload ∷ []) (unfold weight in omega (arith, h))
    ∙ (unfold pending in append-nil (objects payload))
