-- ===== src/Json.antt =====
-- The values that `json.loads` gives and `json.dumps` takes, and the checks that
-- benchhandoff/engine.py makes of one value. A dict has its keys in code-point order, as
-- `json.dumps(sort_keys=True)` writes them; a key stands in it once.
use benchhandoff.Prelude.{
  ℕ, ◌-◌, ◌/◌, ◌%◌, ◌^◌, String, Bool, true, false, not, ◌&&◌, ◌||◌, List, [], ◌∷◌, eqb,
  if◌then◌else◌, ◌==◌, string_eq, nat_eq, contains, all,
}
use Prim.Native.Char.{code}
use benchhandoff.Errors.{Result, ok, err, evidence_error, operational, ◌>>◌, require}

-- `negsuc n` is -(n + 1).
pub data ℤ : Type 0 where
  pos : ℕ → ℤ
  negsuc : ℕ → ℤ

mutual
  -- A float is its IEEE 754 bit pattern of 64 bits.
  pub data Json : Type 0 where
    null : Json
    bool : Bool → Json
    int : ℤ → Json
    float : ℕ → Json
    str : String → Json
    arr : Items → Json
    obj : Fields → Json

  pub data Items : Type 0 where
    nil : Items
    cons : Json → Items → Items

  pub data Fields : Type 0 where
    end : Fields
    field : String → Json → Fields → Fields

-- math.isfinite: the exponent is not all ones.
unfoldable pub is_finite : ℕ → Bool
is_finite bits = not (eqb (bits / 2 ^ 52 % 2 ^ 11) (2 ^ 11 - 1))

unfoldable pub keys : Fields → List String
keys end = []
keys (field k v fs) = k ∷ keys fs

-- `value[key]`; a missing key is a KeyError.
unfoldable pub item : Fields → String → Result Json
item end key = err operational
item (field k v fs) key = if k == key then ok v else item fs key

-- `_exact_keys`
unfoldable pub exact_keys : Fields → List String → List String → Result (Unit {0})
unfolding keys
exact_keys value required optional =
    require
      (all (contains (keys value)) required
        && all (λ key. contains required key || contains optional key) (keys value))
      evidence_error

-- isinstance(value, dict)
unfoldable pub as_object : Json → Result Fields
as_object (obj fs) = ok fs
as_object _ = err evidence_error

-- isinstance(value, str), with `_validate_text` without `allow_empty`
has_nul : String → Bool
has_nul String.[] = false
has_nul (String.◌∷◌ c s) = eqb (code c) 0 || has_nul s

unfoldable pub text_valid : String → Bool
unfolding has_nul
text_valid s = not (has_nul s) && not (s == "")

unfoldable pub validate_text : Json → Result String
unfolding text_valid
validate_text (str s) = do require (text_valid s) evidence_error; ok s
validate_text _ = err evidence_error

-- `_non_bool_int(value)`, with the equation or the bound that the callers test next
unfoldable pub is_int : Json → Bool
is_int (int n) = true
is_int _ = false

unfoldable pub int_equals : Json → ℕ → Bool
int_equals (int (pos n)) m = eqb n m
int_equals _ m = false

unfoldable pub is_natural : Json → Bool
is_natural (int (pos n)) = true
is_natural _ = false

unfoldable pub str_equals : Json → String → Bool
str_equals (str s) t = s == t
str_equals _ t = false
