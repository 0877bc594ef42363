-- ===== src/Transition/Disk.antt =====
-- What the status of a transition says of the two files, in both directions.
use benchhandoff.Prelude.{
  ℕ, ◌+◌, ◌≤◌, ◌<◌, ◌≡◌, sym, ap, ◌∙◌, inl, inr, ◌↔◌, String, Bool, true, false, none, some, [],
  ◌∷◌, ◌++◌, length, length-append, arith, Bool-cases, Option-cases, leb, string_eq, nat_eq,
  list_eq, eqb_iff, beq_refl, list_beq_iff, ◌&&◌, leb→le, le→leb, take, drop, take-append_length,
  drop-append_length,
}
use benchhandoff.Errors.{ok, ok-injective, ok-ne-err, >>=-eq-ok, require_last}
use benchhandoff.Json.{Json}
use benchhandoff.Codec.{
  canonical_json_bytes-RoundTrips, Codec, Bytes, newline, canonical_json_bytes, RoundTrips,
}
use benchhandoff.Plan.{Plan, max_event_count, max_event_bytes, max_event_log_bytes}
use benchhandoff.Event.{validate_event_content, validate_event_record}
use benchhandoff.EventLog.{event_log_observation}
use benchhandoff.EventLog.Append.{event_log_observation-append, observation-Observed}
use benchhandoff.RunState.{RunState, Observation}
use benchhandoff.Pending.{
  stable, pending_before_log, pending_after_log, same_observation, is_acknowledged_then,
  pending_status, event_transition_status,
}
use text.Mathlib.TextEquality.{eq_iff}

same_observation-eq : (a b : Observation) → same_observation a b ≡ true → a ≡ b
unfolding same_observation
same_observation-eq a b e =
    ground (arith, eq_iff a.sha256 b.sha256, eqb_iff a.size b.size, eqb_iff a.count b.count)

same_observation_refl : (a : Observation) → same_observation a a ≡ true
unfolding same_observation
same_observation_refl a = ground (arith, beq_refl a.sha256)

all_five :
    (p q r s t : Bool)
    → p ≡ true
    → q ≡ true
    → r ≡ true
    → s ≡ true
    → t ≡ true
    → (p && q && r && s && t) ≡ true
all_five p q r s t hp hq hr hs ht = ground arith

module _ (c : Codec) (plan : Plan) where
  pending_status-ne-stable :
      (raw : Bytes) (actual acknowledged : Observation) (pending : Json)
      → ¬ (pending_status c plan raw actual acknowledged pending ≡ ok stable)
  unfolding pending_status
  pending_status-ne-stable raw actual acknowledged pending e =
      let (bytes, _, e) = >>=-eq-ok (canonical_json_bytes c pending) _ e in ground arith

  -- Both files are in step exactly when nothing is pending and the log is the acknowledged one.
  pub stable_iff :
      (raw : Bytes) (state : RunState)
      → (event_transition_status c plan raw state ≡ ok stable)
        ↔ ((state.pending_event ≡ none) × (event_log_observation c plan raw ≡ ok state.event_log))
  unfolding event_transition_status
  stable_iff raw state = (forth, back)
    where
      forth :
          event_transition_status c plan raw state ≡ ok stable
          → (state.pending_event ≡ none) × (event_log_observation c plan raw ≡ ok state.event_log)
      forth e =
          let (actual, observed, e) = >>=-eq-ok (event_log_observation c plan raw) _ e in
          elim (Option-cases state.pending_event) [
            | inl nothing ↦ elim (Bool-cases (same_observation actual state.event_log)) [
              | inl same ↦
                  (nothing, observed ∙ ap ok (same_observation-eq actual state.event_log same))
              | inr differs ↦ absurd (ok-ne-err (sym (rw (nothing, differs) at e)))
            ]
            | inr (pending, is) ↦
                absurd (pending_status-ne-stable raw actual state.event_log pending (rw is at e))
          ]

      back :
          (state.pending_event ≡ none) × (event_log_observation c plan raw ≡ ok state.event_log)
          → event_transition_status c plan raw state ≡ ok stable
      back (nothing, observed) = rw (observed, nothing, same_observation_refl state.event_log)

  -- A valid record is not over the size limit.
  pub valid_size :
      (number : ℕ) (previous : String) (value : Json) {payload : Bytes}
      → validate_event_record c plan number previous value ≡ ok tt
      → canonical_json_bytes c value ≡ ok payload
      → length payload ≤ max_event_bytes
  unfolding validate_event_record
  valid_size number previous value {payload} valid encoded =
      let (_, _, e) = >>=-eq-ok (validate_event_content plan number previous value) _ valid in
      let (bytes, same, e) = >>=-eq-ok (canonical_json_bytes c value) _ e in
      let fits : leb (length bytes) max_event_bytes ≡ true = require_last _ _ e in
      let equal : bytes ≡ payload = ok-injective (sym same ∙ encoded) in
      leb→le _ _ (rw equal at fits)

  -- The log with the pending event in it, or still without.
  pub announced_status :
      (raw : Bytes) (state : RunState) (pending : Json) {payload : Bytes}
      → event_log_observation c plan raw ≡ ok state.event_log
      → state.pending_event ≡ some pending
      → canonical_json_bytes c pending ≡ ok payload
      → event_transition_status c plan raw state ≡ ok pending_before_log
  unfolding event_transition_status pending_status
  announced_status raw state pending observed is encoded =
      rw (observed, is, encoded, same_observation_refl state.event_log)

  module _ (raw : Bytes) (current : Observation) (value : Json) (trip : RoundTrips c value)
      (observed : event_log_observation c plan raw ≡ ok current)
      (room : current.count < max_event_count)
      (valid : validate_event_record c plan (current.count + 1) current.sha256 value ≡ ok tt)
      (fits : length raw + length (trip.text ++ newline ∷ []) ≤ max_event_log_bytes) where
    abbrev pub record_bytes : Bytes
    record_bytes = trip.text ++ newline ∷ []

    abbrev pub grown : Observation
    grown = record {
      sha256 = c.sha256 (raw ++ record_bytes);
      size = length raw + length record_bytes;
      count = current.count + 1;
    }

    pub grown_observed : event_log_observation c plan (raw ++ record_bytes) ≡ ok grown
    grown_observed =
        event_log_observation-append c plan raw current value trip observed room fits
          (valid_size (current.count + 1) current.sha256 value valid
            (canonical_json_bytes-RoundTrips c value trip))
          valid

    counts_differ : same_observation grown current ≡ false
    unfolding same_observation
    counts_differ = ground arith

    grown_continues : is_acknowledged_then c (raw ++ record_bytes) current record_bytes grown ≡ true
    unfolding is_acknowledged_then
    grown_continues =
        let w = observation-Observed c plan raw observed in
        let size : current.size ≡ length raw = w.observed_size in
        let whole = length-append raw record_bytes in
        let back : drop current.size (raw ++ record_bytes) ≡ record_bytes =
          ap (λ n. drop n (raw ++ record_bytes)) size ∙ drop-append_length raw record_bytes in
        let front : take current.size (raw ++ record_bytes) ≡ raw =
          ap (λ n. take n (raw ++ record_bytes)) size ∙ take-append_length raw record_bytes in
        all_five _ _ _ _ _ (le→leb current.size (length (raw ++ record_bytes)) (omega arith))
          ((eqb_iff (length (raw ++ record_bytes)) (current.size + length record_bytes)).1
            (omega arith))
          ((list_beq_iff _ _).1 back) ((eq_iff _ _).1 (ap c.sha256 front ∙ sym w.observed_sha256))
          (beq_refl (current.count + 1))

    pub appended_status :
        (state : RunState)
        → state.event_log ≡ current
        → state.pending_event ≡ some value
        → event_transition_status c plan (raw ++ record_bytes) state ≡ ok pending_after_log
    unfolding event_transition_status pending_status
    appended_status state same is = rw (
      grown_observed,
      is,
      canonical_json_bytes-RoundTrips c value trip,
      same,
      counts_differ,
      grown_continues,
    )
