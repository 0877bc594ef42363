-- ===== src/Text.antt =====
-- Texts as the program walks them: by characters, with the tests of its regular expressions and
-- `str.split`, `str.endswith` and `in`. A text has no surrogates, so `encode("utf-8")` is total.
use Prim.Native.Char.{Char, code}
use benchhandoff.Prelude.{
  ℕ, zero, suc, ◌+◌, ◌-◌, ◌/◌, ◌%◌, ◌<◌, ◌++◌, nat_eq, ◌≡◌, String, Bool, true, false, ◌&&◌, ◌||◌,
  List, [], ◌∷◌, leb, eqb, if◌then◌else◌, Bool-cases, inl, inr, arith, ◌==◌, string_eq, ltb,
}

-- s + t
infixr 65 ◌<>◌
abbrev pub ◌<>◌ : String → String → String
String.[] <> t = t
(String.◌∷◌ c s) <> t = String.◌∷◌ c (s <> t)

unfoldable pub any_char : (ℕ → Bool) → String → Bool
any_char p String.[] = false
any_char p (String.◌∷◌ c s) = p (code c) || any_char p s

unfoldable pub all_chars : (ℕ → Bool) → String → Bool
all_chars p String.[] = true
all_chars p (String.◌∷◌ c s) = p (code c) && all_chars p s

-- `character in s`
unfoldable pub has_char : ℕ → String → Bool
unfolding any_char
has_char b = any_char (eqb b)

-- s.endswith(...) for one of a set of characters
unfoldable pub ends_with : (ℕ → Bool) → String → Bool
ends_with p String.[] = false
ends_with p (String.◌∷◌ c String.[]) = p (code c)
ends_with p (String.◌∷◌ c (String.◌∷◌ d s)) = ends_with p (String.◌∷◌ d s)

abbrev pub starts_with_char : ℕ → String → Bool
starts_with_char b String.[] = false
starts_with_char b (String.◌∷◌ c s) = eqb b (code c)

abbrev pub extend_first : Char → List String → List String
extend_first c [] = String.◌∷◌ c "" ∷ []
extend_first c (part ∷ parts) = String.◌∷◌ c part ∷ parts

-- s.split(separator)
unfoldable pub split : ℕ → String → List String
split b String.[] = "" ∷ []
split b (String.◌∷◌ c s) =
    let parts = split b s in if eqb b (code c) then "" ∷ parts else extend_first c parts

-- separator.join(parts)
unfoldable pub join : String → List String → String
join sep [] = ""
join sep (p ∷ []) = p
join sep (p ∷ q ∷ parts) = p <> (sep <> join sep (q ∷ parts))

-- The part before the first separator.
unfoldable pub first_part : ℕ → String → String
first_part b String.[] = ""
first_part b (String.◌∷◌ c s) = if eqb b (code c) then "" else String.◌∷◌ c (first_part b s)

-- The characters of a text, counted.
unfoldable pub text_length : String → ℕ
text_length String.[] = 0
text_length (String.◌∷◌ c s) = suc (text_length s)

abbrev pub is_digit : ℕ → Bool
is_digit c = leb b'0' c && leb c b'9'

-- [0-9a-f]{64} and [0-9a-f]{32}
abbrev pub is_hex : ℕ → Bool
is_hex c = is_digit c || leb b'a' c && leb c b'f'

unfoldable pub is_sha256 : String → Bool
unfolding all_chars text_length
is_sha256 s = eqb (text_length s) 64 && all_chars is_hex s

unfoldable pub is_run_id : String → Bool
unfolding all_chars text_length
is_run_id s = eqb (text_length s) 32 && all_chars is_hex s

-- Characters of [A-Za-z0-9] and of [A-Za-z0-9_.-].
abbrev pub is_alnum : ℕ → Bool
is_alnum c = is_digit c || leb b'A' c && leb c b'Z' || leb b'a' c && leb c b'z'

abbrev pub is_id_char : ℕ → Bool
is_id_char c = is_alnum c || eqb c b'_' || eqb c b'.' || eqb c b'-'

-- ^[A-Za-z0-9][A-Za-z0-9_.-]{0,63}$, matched in full
unfoldable pub is_task_id : String → Bool
unfolding all_chars text_length
is_task_id String.[] = false
is_task_id (String.◌∷◌ c s) = is_alnum (code c) && all_chars is_id_char s && leb (text_length s) 63

abbrev digit_text : ℕ → String
digit_text n =
    if n == 0
    then "0"
    else if n == 1
    then "1"
    else if n == 2
    then "2"
    else if n == 3
    then "3"
    else if n == 4
    then "4"
    else if n == 5
    then "5"
    else if n == 6
    then "6"
    else if n == 7
    then "7"
    else if n == 8
    then "8"
    else "9"

-- The digits of a number before those in hand; the fuel bounds their count.
decimal_onto : ℕ → ℕ → String → String
decimal_onto zero n digits = digits
decimal_onto (suc fuel) n digits =
    let shown = digit_text (n % 10) <> digits in
    let rest = decimal_onto fuel (n / 10) shown in if ltb n 10 then shown else rest

-- str(n)
unfoldable pub decimal : ℕ → String
unfolding decimal_onto
decimal n = decimal_onto (suc n) n ""

abbrev zeros : ℕ → String
zeros zero = ""
zeros (suc n) = "0" <> zeros n

-- f"{n:0{width}d}"
unfoldable pub zero_padded : ℕ → ℕ → String
unfolding decimal text_length
zero_padded width n = let digits = decimal n in zeros (width - text_length digits) <> digits

abbrev utf8_char : ℕ → List ℕ
utf8_char c =
    if ltb c 0x80
    then c ∷ []
    else if ltb c 0x800
    then (0xc0 + c / 64) ∷ (0x80 + c % 64) ∷ []
    else if ltb c 0x10000
    then (0xe0 + c / 4096) ∷ (0x80 + c / 64 % 64) ∷ (0x80 + c % 64) ∷ []
    else (0xf0 + c / 262144) ∷ (0x80 + c / 4096 % 64) ∷ (0x80 + c / 64 % 64) ∷ (0x80 + c % 64) ∷ []

-- s.encode("utf-8")
unfoldable pub utf8 : String → List ℕ
utf8 String.[] = []
utf8 (String.◌∷◌ c s) = utf8_char (code c) ++ utf8 s

-- A fuel of the number itself, plus one, writes all its digits: what more fuel would write.
decimal_onto_enough :
    (fuel n : ℕ) (digits : String)
    → n < fuel
    → decimal_onto fuel n digits ≡ decimal_onto (suc fuel) n digits
unfolding decimal_onto
decimal_onto_enough zero n digits h = absurd (omega arith)
decimal_onto_enough (suc fuel) n digits h = elim (Bool-cases (ltb n 10)) [
  | inl one ↦ rw one
  | inr more ↦
      rw more (decimal_onto_enough fuel (n / 10) (digit_text (n % 10) <> digits) (ground arith))
]

-- str.isspace for one character
abbrev pub is_space : ℕ → Bool
is_space c =
    leb 9 c && leb c 13
    || leb 0x1c c && leb c 0x20
    || eqb c 0x85
    || eqb c 0xa0
    || eqb c 0x1680
    || leb 0x2000 c && leb c 0x200a
    || eqb c 0x2028
    || eqb c 0x2029
    || eqb c 0x202f
    || eqb c 0x205f
    || eqb c 0x3000

unfoldable pub lstrip : String → String
lstrip String.[] = ""
lstrip (String.◌∷◌ c s) = if is_space (code c) then lstrip s else String.◌∷◌ c s

unfoldable pub rstrip : String → String
rstrip String.[] = ""
rstrip (String.◌∷◌ c s) =
    let rest = rstrip s in if is_space (code c) && rest == "" then "" else String.◌∷◌ c rest

-- s.strip()
unfoldable pub strip : String → String
unfolding lstrip rstrip
strip s = rstrip (lstrip s)
