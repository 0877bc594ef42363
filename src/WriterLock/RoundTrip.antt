-- ===== src/WriterLock/RoundTrip.antt =====
-- The record of a lock reads back as it was written.
use benchhandoff.Prelude.{
  ℕ, zero, suc, ◌<◌, ◌≡◌, refl, sym, ◌∙◌, String, true, Option, none, some, [], ◌∷◌, ◌++◌, list_eq,
  nat_eq, string_eq, list_beq_refl, beq_refl, arith,
}
use benchhandoff.Errors.{ok, ok-injective}
use benchhandoff.Text.{is_run_id}
use benchhandoff.Json.{int, obj, pos, item, exact_keys, keys, as_object, int_equals, str_equals}
use benchhandoff.Codec.{canonical_json_bytes-RoundTrips, Codec, Bytes, RoundTrips, newline}
use benchhandoff.WriterLock.{
  RunPath, run_text, LockRecord, token_json, token_valid, record_fields, owner_pid_of,
  owner_token_of, nonce_of, decode_fields, decode_record, record_payload,
}

-- What the operating system and `uuid4` give.
pub record IsOwner (r : LockRecord) : Type 0 where
  pub pid_positive : 0 < r.owner_pid
  pub token_bounded : (token : String) → r.owner_token ≡ some token → token_valid token ≡ true
  pub nonce_hex : is_run_id r.nonce ≡ true

owner_pid_of_lem : (pid : ℕ) → 0 < pid → owner_pid_of (int (pos pid)) ≡ ok pid
unfolding owner_pid_of
owner_pid_of_lem zero h = absurd (omega arith)
owner_pid_of_lem (suc n) h = refl

owner_token_of_lem :
    (token : Option String)
    → ((t : String) → token ≡ some t → token_valid t ≡ true)
    → owner_token_of (token_json token) ≡ ok token
unfolding owner_token_of
owner_token_of_lem none h = refl
owner_token_of_lem (some token) h = rw (h token refl) refl

decode_fields-record_fields :
    (run : RunPath) (r : LockRecord) → IsOwner r → decode_fields run (record_fields run r) ≡ ok r
unfolding decode_fields record_fields item exact_keys keys int_equals str_equals nonce_of
decode_fields-record_fields run r owner =
    rw
      (
        beq_refl {A = String} (run_text run),
        owner_pid_of_lem r.owner_pid owner.pid_positive,
        owner_token_of_lem r.owner_token owner.token_bounded,
        owner.nonce_hex,
      )
      refl

module _ (c : Codec) (run : RunPath) (r : LockRecord)
    (trip : RoundTrips c (obj (record_fields run r))) where
  record_payload-RoundTrips : record_payload c run r ≡ ok (trip.text ++ newline ∷ [])
  unfolding record_payload
  record_payload-RoundTrips = canonical_json_bytes-RoundTrips c (obj (record_fields run r)) trip

  -- The bytes of an owner's record are decoded to that record, where the process number is positive,
  -- the start token, if there is one, is bounded, the nonce is of 32 hexadecimal digits, and `json`
  -- gives the dict back.
  pub decode_record-record_payload :
      (payload : Bytes)
      → IsOwner r
      → record_payload c run r ≡ ok payload
      → decode_record c run payload ≡ ok r
  unfolding decode_record as_object
  decode_record-record_payload payload owner h =
      let same : payload ≡ trip.text ++ newline ∷ [] =
        ok-injective (sym h ∙ record_payload-RoundTrips) in
      rw
        (
          same,
          trip.loaded,
          canonical_json_bytes-RoundTrips c (obj (record_fields run r)) trip,
          list_beq_refl (trip.text ++ newline ∷ []),
        )
        (decode_fields-record_fields run r owner)
