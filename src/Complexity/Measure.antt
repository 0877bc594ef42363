-- ===== src/Complexity/Measure.antt =====
-- The size and the depth of a JSON value, and of the values on a stack.
use benchhandoff.Prelude.{
  ℕ, suc, ◌+◌, ◌≤◌, ◌≡◌, refl, ◌∙◌, Bool, true, ◌&&◌, [], ◌∷◌, leb, arith, &&-parts,
}
use benchhandoff.Json.{Json, float, arr, obj, Items, nil, cons, Fields, end, field, is_finite}
use benchhandoff.Complexity.{max_json_depth, Stack, push_items, push_fields, entries}

unfoldable mutual
  -- The nodes of a value: itself, the keys of its dicts, and the nodes below.
  pub weight : Json → ℕ
  weight (obj fs) = suc (weight_fields fs)
  weight (arr items) = suc (weight_items items)
  weight _ = 1

  pub weight_items : Items → ℕ
  weight_items nil = 0
  weight_items (cons child rest) = weight child + weight_items rest

  pub weight_fields : Fields → ℕ
  weight_fields end = 0
  weight_fields (field _ child rest) = suc (weight child + weight_fields rest)

unfoldable mutual
  -- Every node below a depth is within the limit, and every float is finite.
  pub is_sound : ℕ → Json → Bool
  is_sound depth (obj fs) = leb depth max_json_depth && are_sound_fields (depth + 1) fs
  is_sound depth (arr items) = leb depth max_json_depth && are_sound_items (depth + 1) items
  is_sound depth (float bits) = leb depth max_json_depth && is_finite bits
  is_sound depth _ = leb depth max_json_depth

  pub are_sound_items : ℕ → Items → Bool
  are_sound_items depth nil = true
  are_sound_items depth (cons child rest) = is_sound depth child && are_sound_items depth rest

  pub are_sound_fields : ℕ → Fields → Bool
  are_sound_fields depth end = true
  are_sound_fields depth (field _ child rest) = is_sound depth child && are_sound_fields depth rest

abbrev pub weight_stack : Stack → ℕ
weight_stack [] = 0
weight_stack ((value, depth) ∷ stack) = weight value + weight_stack stack

abbrev pub is_sound_stack : Stack → Bool
is_sound_stack [] = true
is_sound_stack ((value, depth) ∷ stack) = is_sound depth value && is_sound_stack stack

pub weight_stack-push_items :
    (items : Items) (depth : ℕ) (stack : Stack)
    → weight_stack (push_items items depth stack) ≡ weight_items items + weight_stack stack
unfolding push_items weight
weight_stack-push_items nil depth stack = omega arith
weight_stack-push_items (cons child rest) depth stack =
    omega (arith, weight_stack-push_items rest depth ((child, depth) ∷ stack))

pub weight_stack-push_fields :
    (fs : Fields) (depth : ℕ) (stack : Stack)
    → entries fs + weight_stack (push_fields fs depth stack) ≡ weight_fields fs + weight_stack stack
unfolding push_fields entries weight
weight_stack-push_fields end depth stack = omega arith
weight_stack-push_fields (field _ child rest) depth stack =
    omega (arith, weight_stack-push_fields rest depth ((child, depth) ∷ stack))

and_swap : (a b c : Bool) → (a && (b && c)) ≡ ((b && a) && c)
and_swap a b c = ground arith

pub is_sound_stack-push_items :
    (items : Items) (depth : ℕ) (stack : Stack)
    → is_sound_stack (push_items items depth stack)
      ≡ (are_sound_items depth items && is_sound_stack stack)
unfolding push_items is_sound
is_sound_stack-push_items nil depth stack = refl
is_sound_stack-push_items (cons child rest) depth stack =
    is_sound_stack-push_items rest depth ((child, depth) ∷ stack)
    ∙ and_swap (are_sound_items depth rest) (is_sound depth child) (is_sound_stack stack)

pub is_sound_stack-push_fields :
    (fs : Fields) (depth : ℕ) (stack : Stack)
    → is_sound_stack (push_fields fs depth stack)
      ≡ (are_sound_fields depth fs && is_sound_stack stack)
unfolding push_fields is_sound
is_sound_stack-push_fields end depth stack = refl
is_sound_stack-push_fields (field _ child rest) depth stack =
    is_sound_stack-push_fields rest depth ((child, depth) ∷ stack)
    ∙ and_swap (are_sound_fields depth rest) (is_sound depth child) (is_sound_stack stack)

pub entries-le-weight_fields : (fs : Fields) → entries fs ≤ weight_fields fs
unfolding entries weight
entries-le-weight_fields end = omega arith
entries-le-weight_fields (field _ child rest) = omega (arith, entries-le-weight_fields rest)

pub weight-pos : (value : Json) → 1 ≤ weight value
unfolding weight
weight-pos (obj fs) = omega arith
weight-pos (arr items) = omega arith
weight-pos _ = omega arith

pub is_sound-depth :
    (value : Json) (depth : ℕ) → is_sound depth value ≡ true → leb depth max_json_depth ≡ true
unfolding is_sound
is_sound-depth (obj fs) depth h = (&&-parts _ _ h).0
is_sound-depth (arr items) depth h = (&&-parts _ _ h).0
is_sound-depth (float bits) depth h = (&&-parts _ _ h).0
is_sound-depth _ depth h = h
