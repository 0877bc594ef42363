-- ===== src/Complexity/Bounds.antt =====
-- What the walk accepts: a value with few nodes, none of them deep, and no float without a value.
use benchhandoff.Prelude.{
  ℕ, zero, suc, ◌+◌, ◌≤◌, ◌<◌, ◌≡◌, ◌↔◌, refl, sym, ◌∙◌, true, ◌&&◌, [], ◌∷◌, leb, arith, leb→le,
  le→leb, &&-parts,
}
use benchhandoff.Errors.{ok, evidence_error, >>=-eq-ok, require-eq-ok, ok-injective}
use benchhandoff.Json.{Json, null, bool, int, float, str, arr, obj, is_finite}
use benchhandoff.Complexity.{
  max_json_depth, max_json_nodes, Stack, push_fields, entries, expand, walk,
  validate_json_complexity,
}
use benchhandoff.Complexity.Measure.{
  weight, is_sound, weight_stack, is_sound_stack, weight_stack-push_items, weight_stack-push_fields,
  is_sound_stack-push_items, is_sound_stack-push_fields, entries-le-weight_fields, weight-pos,
  is_sound-depth,
}

-- What one round does to the counted nodes and the stack.
record Expanded (value : Json) (depth nodes : ℕ) (stack : Stack) (r : ℕ × Stack) : Type 0 where
  grows : nodes ≤ r.0
  bounded : nodes ≤ max_json_nodes → r.0 ≤ max_json_nodes
  total : r.0 + weight_stack r.1 + 1 ≡ nodes + (weight value + weight_stack stack)
  sound :
      (leb depth max_json_depth && is_sound_stack r.1)
      ≡ (is_sound depth value && is_sound_stack stack)

unchanged :
    (value : Json) (depth nodes : ℕ) (stack : Stack) {r : ℕ × Stack}
    → weight value ≡ 1
    → is_sound depth value ≡ leb depth max_json_depth
    → (nodes, stack) ≡ r
    → Expanded value depth nodes stack r
unchanged value depth nodes stack one sound same = rw (← same) (record {
  grows = omega arith;
  bounded = λ few. few;
  total = omega (arith, one);
  sound = rw sound;
})

expand-Expanded :
    (value : Json) (depth nodes : ℕ) (stack : Stack) {r : ℕ × Stack}
    → expand value depth nodes stack ≡ ok r
    → Expanded value depth nodes stack r
unfolding expand weight is_sound
expand-Expanded (obj fs) depth nodes stack h =
    let (within, h) = require-eq-ok (leb (nodes + entries fs) max_json_nodes) evidence_error _ h in
    let weights = weight_stack-push_fields fs (depth + 1) stack in
    let sounds = is_sound_stack-push_fields fs (depth + 1) stack in
    rw (← ok-injective h) (record {
      grows = omega arith;
      bounded = λ few. leb→le (nodes + entries fs) max_json_nodes within;
      total = omega arith;
      sound = ground arith;
    })
expand-Expanded (arr items) depth nodes stack h =
    let weights = weight_stack-push_items items (depth + 1) stack in
    let sounds = is_sound_stack-push_items items (depth + 1) stack in
    rw (← ok-injective h) (record {
      grows = omega arith;
      bounded = λ few. few;
      total = omega arith;
      sound = ground arith;
    })
expand-Expanded (float bits) depth nodes stack h =
    let (finite, h) = require-eq-ok (is_finite bits) evidence_error _ h in
    unchanged (float bits) depth nodes stack refl (ground arith) (ok-injective h)
expand-Expanded null depth nodes stack h =
    unchanged null depth nodes stack refl refl (ok-injective h)
expand-Expanded (bool b) depth nodes stack h =
    unchanged (bool b) depth nodes stack refl refl (ok-injective h)
expand-Expanded (int n) depth nodes stack h =
    unchanged (int n) depth nodes stack refl refl (ok-injective h)
expand-Expanded (str s) depth nodes stack h =
    unchanged (str s) depth nodes stack refl refl (ok-injective h)

-- A round on a value that fits goes on.
expand_fits :
    (value : Json) (depth nodes : ℕ) (stack : Stack)
    → nodes + weight value ≤ max_json_nodes + 1
    → is_sound depth value ≡ true
    → (r : ℕ × Stack) × (expand value depth nodes stack ≡ ok r)
unfolding expand weight is_sound
expand_fits (obj fs) depth nodes stack few sound =
    let below = entries-le-weight_fields fs in
    (
      (nodes + entries fs, push_fields fs (depth + 1) stack),
      rw (le→leb (nodes + entries fs) max_json_nodes (omega arith)) refl,
    )
expand_fits (arr items) depth nodes stack few sound = (_, refl)
expand_fits (float bits) depth nodes stack few sound =
    let finite : is_finite bits ≡ true = ground arith in ((nodes, stack), rw finite refl)
expand_fits null depth nodes stack few sound = (_, refl)
expand_fits (bool b) depth nodes stack few sound = (_, refl)
expand_fits (int n) depth nodes stack few sound = (_, refl)
expand_fits (str s) depth nodes stack few sound = (_, refl)

-- The walk from any stack, with fuel for the nodes that the limit still allows.
abbrev WalkAccepts : ℕ → Type 0
WalkAccepts fuel =
    (nodes : ℕ) (stack : Stack)
    → max_json_nodes < fuel + nodes
    → nodes ≤ max_json_nodes
    → (walk fuel nodes stack ≡ ok tt)
      ↔ ((nodes + weight_stack stack ≤ max_json_nodes) × (is_sound_stack stack ≡ true))

walk_round :
    (fuel nodes : ℕ) (value : Json) (depth : ℕ) (stack : Stack)
    → WalkAccepts fuel
    → max_json_nodes < suc fuel + nodes
    → nodes ≤ max_json_nodes
    → (walk (suc fuel) nodes ((value, depth) ∷ stack) ≡ ok tt) ↔ (
        (nodes + weight_stack ((value, depth) ∷ stack) ≤ max_json_nodes)
        × (is_sound_stack ((value, depth) ∷ stack) ≡ true))
unfolding walk
walk_round fuel nodes value depth stack rounds enough few = (forth, back)
  where
    forth :
        walk (suc fuel) nodes ((value, depth) ∷ stack) ≡ ok tt
        → (nodes + weight_stack ((value, depth) ∷ stack) ≤ max_json_nodes)
          × (is_sound_stack ((value, depth) ∷ stack) ≡ true)
    forth h =
        let (deep, h) = require-eq-ok (leb depth max_json_depth) evidence_error _ h in
        let (more, h) = require-eq-ok (leb (nodes + 1) max_json_nodes) evidence_error _ h in
        let ((counted, grown), e, h) = >>=-eq-ok (expand value depth (nodes + 1) stack) _ h in
        let x = expand-Expanded value depth (nodes + 1) stack e in
        let (light, sound) =
          (rounds counted grown (omega (arith, x.grows))
              (x.bounded (leb→le (nodes + 1) max_json_nodes more))).0
            h in
        let both : (leb depth max_json_depth && is_sound_stack grown) ≡ true =
          rw (deep, sound) refl in
        (omega (arith, x.total), sym x.sound ∙ both)

    back :
        (nodes + weight_stack ((value, depth) ∷ stack) ≤ max_json_nodes)
          × (is_sound_stack ((value, depth) ∷ stack) ≡ true)
        → walk (suc fuel) nodes ((value, depth) ∷ stack) ≡ ok tt
    back (light, sound) =
        let (here, below) = &&-parts (is_sound depth value) (is_sound_stack stack) sound in
        let positive = weight-pos value in
        let deep = is_sound-depth value depth here in
        let more : leb (nodes + 1) max_json_nodes ≡ true = le→leb _ _ (omega arith) in
        let ((counted, grown), e) = expand_fits value depth (nodes + 1) stack (omega arith) here in
        let x = expand-Expanded value depth (nodes + 1) stack e in
        let rest : walk fuel counted grown ≡ ok tt =
          (rounds counted grown (omega (arith, x.grows))
              (x.bounded (leb→le (nodes + 1) max_json_nodes more))).1
            (
              omega (arith, x.total),
              (&&-parts (leb depth max_json_depth) (is_sound_stack grown) (x.sound ∙ sound)).1,
            ) in
        rw (deep, more, e, rest) refl

walk_iff : (fuel : ℕ) → WalkAccepts fuel
unfolding walk
walk_iff fuel nodes [] enough few = ((λ h. (omega arith, refl)), (λ h. refl))
walk_iff zero nodes (entry ∷ stack) enough few = absurd (omega arith)
walk_iff (suc fuel) nodes ((value, depth) ∷ stack) enough few =
    walk_round fuel nodes value depth stack (walk_iff fuel) enough few

-- The walk accepts a value exactly when it has at most `max_json_nodes` nodes, counted with the keys
-- of its dicts, none of them is deeper than `max_json_depth`, and every float is finite. Its fuel,
-- the limit on nodes and one more, is enough.
pub validate_json_complexity_iff :
    (value : Json)
    → (validate_json_complexity value ≡ ok tt)
      ↔ ((weight value ≤ max_json_nodes) × (is_sound 0 value ≡ true))
unfolding validate_json_complexity
validate_json_complexity_iff value =
    let (forth, back) =
      walk_iff (max_json_nodes + 1) 0 ((value, 0) ∷ []) (omega arith) (omega arith) in
    (
      (λ h. let (light, sound) = forth h in (omega arith, (&&-parts _ _ sound).0)),
      (λ (light, sound). back (omega arith, rw sound refl)),
    )
