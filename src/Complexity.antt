-- ===== src/Complexity.antt =====
-- benchhandoff/storage.py: `_validate_json_complexity`, the walk over a JSON value with a stack.
pub mod Measure
pub mod Bounds
use benchhandoff.Prelude.{
  ℕ, zero, suc, ◌+◌, ◌*◌, ◌≡◌, String, Bool, true, false, ◌&&◌, List, [], ◌∷◌, leb,
}
use benchhandoff.Errors.{Result, ok, err, evidence_error, unexpected, ◌>>=◌, ◌>>◌, require}
use benchhandoff.Json.{
  Json, null, bool, int, float, str, arr, obj, Items, nil, cons, Fields, end, field, is_finite,
}

abbrev pub max_json_depth : ℕ
max_json_depth = 64

abbrev pub max_json_nodes : ℕ
max_json_nodes = 100_000

-- The entries of the stack, its top first.
abbrev pub Stack : Type 0
Stack = List (Json × ℕ)

-- stack.extend((child, depth) for child in current)
unfoldable pub push_items : Items → ℕ → Stack → Stack
push_items nil depth stack = stack
push_items (cons child rest) depth stack = push_items rest depth ((child, depth) ∷ stack)

-- stack.extend((child, depth) for child in current.values())
unfoldable pub push_fields : Fields → ℕ → Stack → Stack
push_fields end depth stack = stack
push_fields (field _ child rest) depth stack = push_fields rest depth ((child, depth) ∷ stack)

-- len(current)
unfoldable pub entries : Fields → ℕ
entries end = 0
entries (field _ _ rest) = suc (entries rest)

-- The rest of one round, after its value is counted.
unfoldable pub expand : Json → ℕ → ℕ → Stack → Result (ℕ × Stack)
unfolding push_items push_fields entries is_finite
expand (obj fs) depth nodes stack = do
  require (leb (nodes + entries fs) max_json_nodes) evidence_error
  ok (nodes + entries fs, push_fields fs (depth + 1) stack)
expand (arr items) depth nodes stack = ok (nodes, push_items items (depth + 1) stack)
expand (float bits) depth nodes stack = do
  require (is_finite bits) evidence_error
  ok (nodes, stack)
expand _ depth nodes stack = ok (nodes, stack)

-- The loop; every round counts a node, so that the limit on nodes bounds the rounds.
unfoldable pub walk : ℕ → ℕ → Stack → Result (Unit {0})
unfolding expand
walk fuel nodes [] = ok tt
walk zero nodes (_ ∷ _) = err unexpected
walk (suc fuel) nodes ((current, depth) ∷ stack) = do
  require (leb depth max_json_depth) evidence_error
  require (leb (nodes + 1) max_json_nodes) evidence_error
  (counted, grown) ← expand current depth (nodes + 1) stack
  walk fuel counted grown

unfoldable pub validate_json_complexity : Json → Result (Unit {0})
unfolding walk
validate_json_complexity value = walk (max_json_nodes + 1) 0 ((value, 0) ∷ [])
