-- ===== src/Tests/Complex.antt =====
-- The bound on a JSON value, at a list of one value.
use benchhandoff.Prelude.{◌≤◌, ◌≡◌, ◌↔◌, true}
use benchhandoff.Errors.{ok}
use benchhandoff.Json.{Json, null, arr, cons, nil}
use benchhandoff.Complexity.{validate_json_complexity, max_json_nodes}
use benchhandoff.Complexity.Measure.{weight, is_sound}
use benchhandoff.Complexity.Bounds.{validate_json_complexity_iff}

abbrev listed : Json
listed = arr (cons null nil)

validate_json_complexity_iff_example :
    (validate_json_complexity listed ≡ ok tt)
    ↔ ((weight listed ≤ max_json_nodes) × (is_sound 0 listed ≡ true))
validate_json_complexity_iff_example = validate_json_complexity_iff listed
