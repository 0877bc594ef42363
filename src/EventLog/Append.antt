-- ===== src/EventLog/Append.antt =====
-- A log grows by whole records: what one appended record does to the observation.
use mathlib.Core.List.{append-nil, append_assoc}
use benchhandoff.Prelude.{
  ℕ, ◌+◌, ◌≤◌, ◌<◌, ◌≡◌, refl, sym, ap, ap₂, ◌∙◌, false, List, [], ◌∷◌, ◌++◌, arith, nat_eq,
  list_eq, contains, length, length-append, eqb_iff, list_beq_refl, le→leb, leb→le, lt→ltb,
}
use benchhandoff.Errors.{ok, >>=-eq-ok, require-eq-ok, ok-injective}
use benchhandoff.Json.{Json}
use benchhandoff.Codec.{canonical_json_bytes-RoundTrips, Codec, Bytes, newline, RoundTrips}
use benchhandoff.Plan.{Plan, max_event_log_bytes, max_event_bytes, max_event_count}
use benchhandoff.Event.{validate_event_record}
use benchhandoff.RunState.{Observation}
use benchhandoff.EventLog.{
  push_byte, split_lines, decode, check_line, scan_lines, event_log_observation,
}

-- One line has no other.
split_lines-line :
    (line : Bytes)
    → contains line newline ≡ false
    → split_lines (line ++ newline ∷ []) ≡ (line ∷ [], [])
unfolding split_lines
split_lines-line [] h = refl
split_lines-line (b ∷ line) h = rw (split_lines-line line (ground arith)) (ground arith)

abbrev then_lines : List Bytes × Bytes → List Bytes × Bytes → List Bytes × Bytes
then_lines (before, _) (lines, tail) = (before ++ lines, tail)

push_byte-tail : (b : ℕ) (r : List Bytes × Bytes) → (push_byte b r).1 ≡ [] → r.1 ≡ []
push_byte-tail b ([], tail) h = ground arith
push_byte-tail b (line ∷ lines, tail) h = ground arith

push_byte-then_lines :
    (b : ℕ) (r s : List Bytes × Bytes)
    → (push_byte b r).1 ≡ []
    → push_byte b (then_lines r s) ≡ then_lines (push_byte b r) s
push_byte-then_lines b ([], tail) (lines, rest) h = ground arith
push_byte-then_lines b (line ∷ before, tail) (lines, rest) h = ground arith

-- Whole lines stay as they are, whatever follows.
split_lines-append :
    (xs ys : Bytes)
    → (split_lines xs).1 ≡ []
    → split_lines (xs ++ ys) ≡ then_lines (split_lines xs) (split_lines ys)
unfolding split_lines
split_lines-append [] ys h = refl
split_lines-append (b ∷ xs) ys h =
    ap (push_byte b) (split_lines-append xs ys (push_byte-tail b (split_lines xs) h))
    ∙ push_byte-then_lines b (split_lines xs) (split_lines ys) h

abbrev unlines : List Bytes → Bytes
unlines [] = []
unlines (line ∷ lines) = (line ++ newline ∷ []) ++ unlines lines

abbrev unsplit : List Bytes × Bytes → Bytes
unsplit (lines, tail) = unlines lines ++ tail

unsplit-push_byte : (b : ℕ) (r : List Bytes × Bytes) → unsplit (push_byte b r) ≡ b ∷ unsplit r
unsplit-push_byte b ([], tail) = ground (arith, eqb_iff b newline)
unsplit-push_byte b (line ∷ lines, tail) = ground (arith, eqb_iff b newline)

-- The lines and the rest are the bytes.
unsplit-split_lines : (xs : Bytes) → unsplit (split_lines xs) ≡ xs
unfolding split_lines
unsplit-split_lines [] = refl
unsplit-split_lines (b ∷ xs) =
    unsplit-push_byte b (split_lines xs) ∙ ap (λ ys. b ∷ ys) (unsplit-split_lines xs)

module _ (c : Codec) (plan : Plan) where
  scan_lines-tail :
      (seen : Bytes) (count : ℕ) (lines : List Bytes) (tail : Bytes) {r : Bytes × ℕ}
      → scan_lines c plan seen count lines tail ≡ ok r
      → tail ≡ []
  unfolding scan_lines
  scan_lines-tail seen count [] [] h = refl
  scan_lines-tail seen count [] (b ∷ tail) h = cc
  scan_lines-tail seen count (line ∷ lines) tail h =
      let (_, _, h) = >>=-eq-ok (check_line c plan seen count line) _ h in
      scan_lines-tail (seen ++ (line ++ newline ∷ [])) (count + 1) lines tail h

  -- What is scanned is what was seen.
  scan_lines-seen :
      (seen : Bytes) (count : ℕ) (lines : List Bytes) {r : Bytes × ℕ}
      → scan_lines c plan seen count lines [] ≡ ok r
      → r.0 ≡ seen ++ unlines lines
  unfolding scan_lines
  scan_lines-seen seen count [] {r} h =
      sym (append-nil seen ∙ ap (λ (s : Bytes × ℕ). s.0) (ok-injective h))
  scan_lines-seen seen count (line ∷ lines) h =
      let (_, _, h) = >>=-eq-ok (check_line c plan seen count line) _ h in
      scan_lines-seen (seen ++ (line ++ newline ∷ [])) (count + 1) lines h
      ∙ append_assoc seen (line ++ newline ∷ []) (unlines lines)

  scan_lines-append :
      (seen : Bytes) (count : ℕ) (lines more : List Bytes) {s : Bytes} {n : ℕ}
      → scan_lines c plan seen count lines [] ≡ ok (s, n)
      → scan_lines c plan seen count (lines ++ more) [] ≡ scan_lines c plan s n more []
  unfolding scan_lines
  scan_lines-append seen count [] more h = cc (ok-injective h)
  scan_lines-append seen count (line ∷ lines) more h =
      let (_, checked, h) = >>=-eq-ok (check_line c plan seen count line) _ h in
      rw checked (scan_lines-append (seen ++ (line ++ newline ∷ [])) (count + 1) lines more h)

  decode-RoundTrips :
      (value : Json) (trip : RoundTrips c value)
      → decode c plan (trip.text ++ newline ∷ []) ≡ ok value
  unfolding decode
  decode-RoundTrips value trip = rw (trip.loaded, decode)

  -- A record that validates against the observed log passes the check of its line.
  check_line-eq-ok :
      (seen : Bytes) (count : ℕ) (value : Json) (trip : RoundTrips c value)
      → count < max_event_count
      → length (trip.text ++ newline ∷ []) ≤ max_event_bytes
      → validate_event_record c plan (count + 1) (c.sha256 seen) value ≡ ok tt
      → check_line c plan seen count trip.text ≡ ok tt
  unfolding check_line
  check_line-eq-ok seen count value trip room small valid = rw (
    lt→ltb _ _ room,
    trip.not_blank,
    le→leb _ _ small,
    decode-RoundTrips value trip,
    valid,
    canonical_json_bytes-RoundTrips c value trip,
    list_beq_refl {A = ℕ} (trip.text ++ newline ∷ []),
  )

  -- What an observation is: whole lines, each checked, counted and hashed together.
  pub record Observed (raw : Bytes) (o : Observation) : Type 0 where
    pub lines : List Bytes
    pub is_split : split_lines raw ≡ (lines, [])
    pub scanned : scan_lines c plan [] 0 lines [] ≡ ok (raw, o.count)
    pub observed_sha256 : o.sha256 ≡ c.sha256 raw
    pub observed_size : o.size ≡ length raw
    pub within_size : length raw ≤ max_event_log_bytes

  pub observation-Observed :
      (raw : Bytes) {o : Observation} → event_log_observation c plan raw ≡ ok o → Observed raw o
  unfolding event_log_observation
  observation-Observed raw {o} h =
      let (size, h) = require-eq-ok _ _ _ h in
      let (r, scanned, h) =
        >>=-eq-ok (scan_lines c plan [] 0 (split_lines raw).0 (split_lines raw).1) _ h in
      let whole = scan_lines-tail [] 0 (split_lines raw).0 (split_lines raw).1 scanned in
      let scanned' : scan_lines c plan [] 0 (split_lines raw).0 [] ≡ ok r = rw whole at scanned in
      let all_seen : r.0 ≡ raw =
        scan_lines-seen [] 0 (split_lines raw).0 scanned'
        ∙ (sym (append-nil (unlines (split_lines raw).0))
            ∙ ap (λ t. unlines (split_lines raw).0 ++ t) (sym whole)
            ∙ unsplit-split_lines raw) in
      let e = ok-injective h in
      record {
        lines = (split_lines raw).0;
        is_split = ground arith;
        scanned = ground arith;
        observed_sha256 = ground arith;
        observed_size = ground arith;
        within_size = leb→le _ _ size;
      }

  pub Observed-observation :
      (raw : Bytes) (o : Observation) → Observed raw o → event_log_observation c plan raw ≡ ok o
  unfolding event_log_observation
  Observed-observation raw o w =
      rw (le→leb _ _ w.within_size)
        (rw w.is_split (rw w.scanned (ground (arith, w.observed_sha256, w.observed_size))))

  scan_lines-line :
      (seen : Bytes) (count : ℕ) (line : Bytes)
      → check_line c plan seen count line ≡ ok tt
      → scan_lines c plan seen count (line ∷ []) [] ≡ ok (seen ++ (line ++ newline ∷ []), count + 1)
  unfolding scan_lines
  scan_lines-line seen count line checked = rw checked

  -- Where the log is observed and has room for one more record, the line fits the limits on a
  -- record and on the log, and the record round-trips through the encoder and passes the checks of
  -- the next record, the log with its line appended is observed as one record more.
  pub event_log_observation-append :
      (raw : Bytes) (o : Observation) (value : Json) (trip : RoundTrips c value)
      → event_log_observation c plan raw ≡ ok o
      → o.count < max_event_count
      → length raw + length (trip.text ++ newline ∷ []) ≤ max_event_log_bytes
      → length (trip.text ++ newline ∷ []) ≤ max_event_bytes
      → validate_event_record c plan (o.count + 1) o.sha256 value ≡ ok tt
      → event_log_observation c plan (raw ++ (trip.text ++ newline ∷ []))
        ≡ ok (record {
          sha256 = c.sha256 (raw ++ (trip.text ++ newline ∷ []));
          size = length raw + length (trip.text ++ newline ∷ []);
          count = o.count + 1;
        })
  event_log_observation-append raw o value trip observed room fits small valid =
      let w = observation-Observed raw observed in
      Observed-observation _ _ (record {
        lines = w.lines ++ trip.text ∷ [];
        is_split =
            split_lines-append raw (trip.text ++ newline ∷ [])
              (ap (λ (r : List Bytes × Bytes). r.1) w.is_split)
            ∙ ap₂ then_lines w.is_split (split_lines-line trip.text trip.one_line);
        scanned =
            scan_lines-append [] 0 w.lines (trip.text ∷ []) w.scanned
            ∙ scan_lines-line raw o.count trip.text (
                check_line-eq-ok raw o.count value trip room small (rw w.observed_sha256 at valid));
        observed_sha256 = refl;
        observed_size = sym (length-append raw (trip.text ++ newline ∷ []));
        within_size = rw (length-append raw (trip.text ++ newline ∷ [])) fits;
      })
