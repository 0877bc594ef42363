-- ===== src/EventLog.antt =====
-- The append-only log events.jsonl: `_event_log_observation` of benchhandoff/engine.py over the
-- bytes of the file.
pub mod Append
use benchhandoff.Prelude.{
  ℕ, zero, suc, ◌+◌, ◌≡◌, String, Bool, true, false, not, ◌&&◌, ◌||◌, Option, none, some, List, [],
  ◌∷◌, ◌++◌, leb, ltb, eqb, if◌then◌else◌, Eq, ◌==◌, nat_eq, list_eq, length, is_nil,
}
use benchhandoff.Errors.{Result, ok, err, evidence_error, ◌>>=◌, ◌>>◌, require, refuse}
use benchhandoff.Json.{Json}
use benchhandoff.Codec.{Codec, Bytes, newline, canonical_json_bytes}
use benchhandoff.Plan.{Plan, max_event_log_bytes, max_event_bytes, max_event_count}
use benchhandoff.Event.{validate_event_record}
use benchhandoff.RunState.{Observation}

abbrev pub extend_line : ℕ → List Bytes × Bytes → List Bytes × Bytes
extend_line b ([], tail) = ([], b ∷ tail)
extend_line b (line ∷ lines, tail) = ((b ∷ line) ∷ lines, tail)

abbrev pub push_byte : ℕ → List Bytes × Bytes → List Bytes × Bytes
push_byte b (lines, tail) =
    if eqb b newline then ([] ∷ lines, tail) else extend_line b (lines, tail)

-- The lines that `raw.find(b"\n", offset)` finds one after another, each without its newline, and
-- the bytes after the last newline.
unfoldable pub split_lines : Bytes → List Bytes × Bytes
split_lines [] = ([], [])
split_lines (b ∷ bytes) = push_byte b (split_lines bytes)

module _ (c : Codec) (plan : Plan) where
  unfoldable pub decode : Bytes → Result Json
  decode line = elim (c.loads line) [ none ↦ err evidence_error | some value ↦ ok value ]

  -- One round of the loop: the line at hand, after the bytes `seen` with `count` records.
  unfoldable pub check_line : Bytes → ℕ → Bytes → Result (Unit {0})
  unfolding decode
  check_line seen count line = do
    require (ltb count max_event_count) evidence_error
    let raw = line ++ newline ∷ []
    refuse (is_nil line) evidence_error
    require (leb (length raw) max_event_bytes) evidence_error
    event ← decode raw
    validate_event_record c plan (count + 1) (c.sha256 seen) event
    payload ← canonical_json_bytes c event
    require (payload == raw) evidence_error

  -- The loop: the digest is that of the bytes seen so far.
  unfoldable pub scan_lines : Bytes → ℕ → List Bytes → Bytes → Result (Bytes × ℕ)
  scan_lines seen count [] [] = ok (seen, count)
  scan_lines seen count [] (b ∷ tail) = err evidence_error
  scan_lines seen count (line ∷ lines) tail = do
    check_line seen count line
    scan_lines (seen ++ (line ++ newline ∷ [])) (count + 1) lines tail

  unfoldable pub event_log_observation : Bytes → Result Observation
  event_log_observation raw = do
    require (leb (length raw) max_event_log_bytes) evidence_error
    let (lines, tail) = split_lines raw
    (seen, count) ← scan_lines [] 0 lines tail
    ok (record { sha256 = c.sha256 seen; size = length raw; count = count })
