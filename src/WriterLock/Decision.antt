-- ===== src/WriterLock/Decision.antt =====
-- `_build_recovery_decision` and `inspect_writer_lock` of benchhandoff/writer_lock.py.
use benchhandoff.Prelude.{String, Bool, true, false}
use benchhandoff.Json.{int, str, obj, pos, Fields, end, field}
use benchhandoff.Codec.{Codec, canonical_json_bytes}
use benchhandoff.Plan.{Identity}
use benchhandoff.Exec.{pure, lift, ◌>>=◌}
use benchhandoff.WriterLock.{
  RunPath, run_text, writer_lock_path, recovery_tombstone_path, LockRecord, record_fields,
  token_json,
}
use benchhandoff.WriterLock.Owner.{
  Seen, seen_alive, seen_dead, seen_unknown, seen_unstable, RecoveryAction, refuse_recovery,
  recover_orphan, Reason, Judgement, owner_observation,
}
use benchhandoff.WriterLock.Files.{Machine, Act, read_writer_lock_snapshot}

abbrev pub seen_text : Seen → String
seen_text seen_alive = "alive"
seen_text seen_dead = "dead"
seen_text seen_unknown = "unknown"
seen_text seen_unstable = "unstable"

abbrev pub action_text : RecoveryAction → String
action_text refuse_recovery = "refuse"
action_text recover_orphan = "recover-orphan"

abbrev pub reason_text : Reason → String
reason_text Reason.owner_liveness_unknown = "owner-liveness-unknown"
reason_text Reason.owner_dead = "owner-dead"
reason_text Reason.owner_observation_changed = "owner-observation-changed"
reason_text Reason.owner_identity_unverifiable = "owner-identity-unverifiable"
reason_text Reason.owner_alive = "owner-alive"
reason_text Reason.owner_pid_reused = "owner-pid-reused"

abbrev pub is_recovery : RecoveryAction → Bool
is_recovery recover_orphan = true
is_recovery refuse_recovery = false

abbrev identity_fields : Identity → Fields
identity_fields i = field "sha256" (str i.sha256) (field "size" (int (pos i.size)) end)

-- The body of a decision, in the order of its keys.
unfoldable pub decision_fields : RunPath → LockRecord → Identity → Judgement → Fields
unfolding record_fields recovery_tombstone_path writer_lock_path
decision_fields run owner identity j = field "action" (str (action_text j.action)) (
    field "kind" (str "benchhandoff-writer-lock-recovery-decision") (
      field "lock_identity" (obj (identity_fields identity)) (
        field "lock_path" (str (writer_lock_path run)) (
          field "lock_record" (obj (record_fields run owner)) (
            field "owner_observation"
              (obj (
                field "liveness" (str (seen_text j.seen))
                  (field "process_start_token" (token_json j.token) end)))
              (field "reason" (str (reason_text j.reason)) (
                field "run_directory" (str (run_text run)) (
                  field "schema_version" (int (pos 1)) (
                    field "tombstone_path" (str (recovery_tombstone_path run identity)) end)))))))))

pub record Decision : Type 0 where
  pub judgement : Judgement
  pub decision_sha256 : String

module _ (m : Machine) (c : Codec) where
  unfoldable pub build_recovery_decision : RunPath → LockRecord → Identity → Act m Decision
  build_recovery_decision run owner identity = do
    judgement ← owner_observation m.processes owner
    bytes ← lift (canonical_json_bytes c (obj (decision_fields run owner identity judgement)))
    pure (record { judgement = judgement; decision_sha256 = c.sha256 bytes })

  -- `inspect_writer_lock`
  unfoldable pub inspect_writer_lock : RunPath → Act m Decision
  inspect_writer_lock run = do
    s ← read_writer_lock_snapshot m c run
    build_recovery_decision run s.owner s.identity
