-- ===== src/Controller/Encoded.antt =====
-- The length of the encoded record: a text of plain characters is written as it is.
use benchhandoff.Prelude.{
  ℕ, ◌+◌, ◌*◌, ◌≤◌, ◌≡◌, refl, String, Bool, true, false, not, ◌&&◌, ◌||◌, Option, none, some, List,
  [], ◌∷◌, leb, ltb, eqb, length, length-append, arith, le→leb, leb→le, &&-parts,
}
use Prim.Native.Char.{code}
use benchhandoff.Errors.{ok}
use benchhandoff.Codec.{newline}
use benchhandoff.Text.{all_chars, text_length}
use benchhandoff.Controller.{Action}
use benchhandoff.Controller.Protocol.{
  Outcome, ErrorCode, Termination, action_text, outcome_text, error_text, protocol, escape_char,
  escape, quoted, member, members, entries, termination_bytes, encoded_termination,
  max_termination_bytes,
}

-- A printable character that JSON does not escape.
abbrev pub is_plain : ℕ → Bool
is_plain c = leb 32 c && ltb c 127 && not (eqb c 0x22) && not (eqb c 0x5c)

-- A plain character meets no test of `escape_char`.
plain-eqb :
    (c k : ℕ) → is_plain c ≡ true → (ltb k 32 || eqb k 0x22 || eqb k 0x5c) ≡ true → eqb c k ≡ false
plain-eqb c k h special = ground arith

plain-printable : (c : ℕ) → is_plain c ≡ true → (ltb c 32 || leb 127 c) ≡ false
plain-printable c h = ground arith

length-escape_char : (c : ℕ) → is_plain c ≡ true → length (escape_char c) ≡ 1
unfolding escape_char
length-escape_char c h =
    rw
      (
        plain-eqb c 0x22 h refl,
        plain-eqb c 0x5c h refl,
        plain-eqb c 10 h refl,
        plain-eqb c 13 h refl,
        plain-eqb c 9 h refl,
        plain-eqb c 8 h refl,
        plain-eqb c 12 h refl,
        plain-printable c h,
      )
      refl

length-escape : (s : String) → all_chars is_plain s ≡ true → length (escape s) ≡ text_length s
unfolding escape all_chars text_length
length-escape String.[] h = refl
length-escape (String.◌∷◌ c s) h =
    let (one, rest) = &&-parts (is_plain (code c)) (all_chars is_plain s) h in
    omega (
      arith,
      length-append (escape_char (code c)) (escape s),
      length-escape_char (code c) one,
      length-escape s rest,
    )

length-quoted : (s : String) → all_chars is_plain s ≡ true → length (quoted s) ≡ text_length s + 2
unfolding quoted
length-quoted s h = omega (arith, length-append (escape s) (0x22 ∷ []), length-escape s h)

length-member :
    (key value : String)
    → all_chars is_plain key ≡ true
    → all_chars is_plain value ≡ true
    → length (member key value) ≡ text_length key + text_length value + 5
unfolding member
length-member key value k v = omega (
  arith,
  length-append (quoted key) (b':' ∷ quoted value),
  length-quoted key k,
  length-quoted value v,
)

-- A text that a record may hold: plain, and of at most 64 characters.
pub record IsShort (s : String) : Type 0 where
  pub plain : all_chars is_plain s ≡ true
  pub few : text_length s ≤ 64

-- A record that holds such texts only.
pub record IsBounded (t : Termination) : Type 0 where
  pub uid : IsShort t.agent_run_uid
  pub spec : IsShort t.execution_spec_sha256
  pub run : IsShort t.run_id
  pub decision : IsShort t.resume_decision_sha256
  pub bundle : IsShort t.bundle_sha256

pub action_text-IsShort : (a : Option Action) → IsShort (action_text a)
unfolding all_chars text_length
action_text-IsShort none = record { plain = refl; few = omega arith }
action_text-IsShort (some Action.start) = record { plain = refl; few = omega arith }
action_text-IsShort (some Action.resume) = record { plain = refl; few = omega arith }
action_text-IsShort (some Action.verify) = record { plain = refl; few = omega arith }

pub outcome_text-IsShort : (o : Outcome) → IsShort (outcome_text o)
unfolding all_chars text_length
outcome_text-IsShort Outcome.awaiting_approval = record { plain = refl; few = omega arith }
outcome_text-IsShort Outcome.completed = record { plain = refl; few = omega arith }
outcome_text-IsShort Outcome.verified = record { plain = refl; few = omega arith }
outcome_text-IsShort Outcome.blocked = record { plain = refl; few = omega arith }

pub error_text-IsShort : (e : Option ErrorCode) → IsShort (error_text e)
unfolding all_chars text_length
error_text-IsShort none = record { plain = refl; few = omega arith }
error_text-IsShort (some ErrorCode.bad_request) = record { plain = refl; few = omega arith }
error_text-IsShort (some ErrorCode.execution_failed) = record { plain = refl; few = omega arith }
error_text-IsShort (some ErrorCode.evidence_invalid) = record { plain = refl; few = omega arith }
error_text-IsShort (some ErrorCode.internal_error) = record { plain = refl; few = omega arith }

protocol-IsShort : IsShort protocol
unfolding all_chars text_length
protocol-IsShort = record { plain = refl; few = omega arith }

-- A key of the record: plain, and of at most 22 characters.
pub record IsKey (s : String) : Type 0 where
  pub plain : all_chars is_plain s ≡ true
  pub few : text_length s ≤ 22

abbrev AllShort : List (String × String) → Type 0
AllShort [] = Unit {0}
AllShort ((key, value) ∷ rest) = IsKey key × IsShort value × AllShort rest

-- Each entry takes at most 92 bytes, with the comma behind it.
length-members-le :
    (ms : List (String × String)) → AllShort ms → length (members ms) ≤ length ms * 92
length-members-le [] h = omega arith
length-members-le ((key, value) ∷ []) (k, v, _) =
    omega (arith, length-member key value k.plain v.plain, k.few, v.few)
length-members-le ((key, value) ∷ m ∷ rest) (k, v, h) = omega (
  arith,
  length-append (member key value) (b',' ∷ members (m ∷ rest)),
  length-member key value k.plain v.plain,
  k.few,
  v.few,
  length-members-le (m ∷ rest) h,
)

plain-IsKey : (s : String) → all_chars is_plain s ≡ true → leb (text_length s) 22 ≡ true → IsKey s
plain-IsKey s plain few = record { plain = plain; few = leb→le (text_length s) 22 few }

entries-AllShort : (t : Termination) → IsBounded t → AllShort (entries t)
unfolding all_chars text_length
entries-AllShort t b = (
  plain-IsKey "action" refl refl,
  action_text-IsShort t.action,
  (
    plain-IsKey "agent_run_uid" refl refl,
    b.uid,
    (
      plain-IsKey "bundle_sha256" refl refl,
      b.bundle,
      (
        plain-IsKey "error_code" refl refl,
        error_text-IsShort t.error_code,
        (
          plain-IsKey "execution_spec_sha256" refl refl,
          b.spec,
          (
            plain-IsKey "outcome" refl refl,
            outcome_text-IsShort t.outcome,
            (
              plain-IsKey "protocol" refl refl,
              protocol-IsShort,
              (
                plain-IsKey "resume_decision_sha256" refl refl,
                b.decision,
                (plain-IsKey "run_id" refl refl, b.run, tt),
              ),
            ),
          ),
        ),
      ),
    ),
  ),
)

pub length-termination_bytes-le :
    (t : Termination) → IsBounded t → length (termination_bytes t) ≤ max_termination_bytes
unfolding termination_bytes
length-termination_bytes-le t b = omega (
  arith,
  length-append (members (entries t)) (b'}' ∷ newline ∷ []),
  length-members-le (entries t) (entries-AllShort t b),
)

-- The cap never cuts off a bounded record.
pub encoded_termination-IsBounded :
    (t : Termination) → IsBounded t → encoded_termination t ≡ ok (termination_bytes t)
unfolding encoded_termination
encoded_termination-IsBounded t b = rw (le→leb _ _ (length-termination_bytes-le t b)) refl
