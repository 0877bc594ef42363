-- ===== src/WriterLock/Owner.antt =====
-- `_owner_observation` of benchhandoff/writer_lock.py: what two looks at the recorded owner allow.
use benchhandoff.Prelude.{
  ℕ, String, Bool, false, not, ◌||◌, Option, none, some, if◌then◌else◌, ◌==◌, string_eq,
}
use benchhandoff.Exec.{Exec, pure, ◌>>=◌}
use benchhandoff.Resume.{Liveness, alive, dead, unknown}
use benchhandoff.WriterLock.{LockRecord}

-- The answers of benchhandoff/processes.py, which may change from call to call.
pub record Processes : Type 1 where
  pub World : Type 0
  pub liveness : ℕ → Exec World Liveness
  pub start_token : ℕ → Exec World (Option String)

pub data Seen : Type 0 where
  seen_alive seen_dead seen_unknown seen_unstable : Seen

pub data RecoveryAction : Type 0 where
  refuse_recovery recover_orphan : RecoveryAction

pub data Reason : Type 0 where
  owner_liveness_unknown owner_dead owner_observation_changed owner_identity_unverifiable : Reason
  owner_alive owner_pid_reused : Reason

-- The observation, the action and the reason.
pub record Judgement : Type 0 where
  pub seen : Seen
  pub token : Option String
  pub action : RecoveryAction
  pub reason : Reason

abbrev pub judge : Seen → RecoveryAction → Reason → Judgement
judge seen action reason = record { seen = seen; token = none; action = action; reason = reason }

-- isinstance(token, str) and token
abbrev pub is_known : Option String → Bool
is_known none = false
is_known (some token) = not (token == "")

-- The last look at a dead owner.
unfoldable pub judge_dead : Liveness → Judgement
judge_dead dead = judge seen_dead recover_orphan owner_dead
judge_dead unknown = judge seen_unknown refuse_recovery owner_liveness_unknown
judge_dead alive = judge seen_unstable refuse_recovery owner_observation_changed

abbrev alive_with : Option String → RecoveryAction → Reason → Judgement
alive_with token action reason = record {
  seen = seen_alive;
  token = token;
  action = action;
  reason = reason;
}

-- The two tokens of a live owner, against the recorded one.
unfoldable pub judge_tokens : Option String → Option String → Option String → Judgement
judge_tokens recorded (some first) (some second) =
    if first == "" || second == ""
    then judge seen_alive refuse_recovery owner_identity_unverifiable
    else if not (first == second)
    then judge seen_unstable refuse_recovery owner_observation_changed
    else elim recorded [
      | none ↦ alive_with (some first) refuse_recovery owner_identity_unverifiable
      | some token ↦
          if token == ""
          then alive_with (some first) refuse_recovery owner_identity_unverifiable
          else if first == token
          then alive_with (some first) refuse_recovery owner_alive
          else alive_with (some first) recover_orphan owner_pid_reused
    ]
judge_tokens recorded _ _ = judge seen_alive refuse_recovery owner_identity_unverifiable

module _ (p : Processes) (r : LockRecord) where
  -- What follows the second look at an owner that was alive at the first.
  unfoldable pub judge_alive : Option String → Liveness → Exec p.World Judgement
  unfolding judge_tokens
  judge_alive first unknown = pure (judge seen_unknown refuse_recovery owner_liveness_unknown)
  judge_alive first dead = pure (judge seen_unstable refuse_recovery owner_observation_changed)
  judge_alive first alive = do
    second ← p.start_token r.owner_pid
    pure (judge_tokens r.owner_token first second)

  -- What follows the first look.
  unfoldable pub judge_first : Liveness → Exec p.World Judgement
  unfolding judge_dead judge_alive
  judge_first unknown = pure (judge seen_unknown refuse_recovery owner_liveness_unknown)
  judge_first dead = do second ← p.liveness r.owner_pid; pure (judge_dead second)
  judge_first alive = do
    token ← p.start_token r.owner_pid
    second ← p.liveness r.owner_pid
    judge_alive token second

  -- `_owner_observation`
  unfoldable pub owner_observation : Exec p.World Judgement
  unfolding judge_first
  owner_observation = do first ← p.liveness r.owner_pid; judge_first first
