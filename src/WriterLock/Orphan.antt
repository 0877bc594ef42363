-- ===== src/WriterLock/Orphan.antt =====
-- Only an owner that is gone may be recovered from.
use benchhandoff.Prelude.{
  ◌≡◌, ◌≢◌, refl, sym, ap, ◌∙◌, ◌⊎◌, inl, inr, String, Option, none, some, ◌==◌, string_eq,
  Bool-cases, arith,
}
use benchhandoff.Errors.{ok, ok-injective}
use benchhandoff.Exec.{resume-eq-ok}
use benchhandoff.Resume.{Liveness, alive, dead, unknown}
use benchhandoff.WriterLock.{LockRecord}
use benchhandoff.WriterLock.Owner.{
  Processes, Judgement, recover_orphan, judge_dead, judge_tokens, judge_alive, judge_first,
  owner_observation,
}

module _ (p : Processes) (r : LockRecord) where
  -- The owner was dead at two looks.
  pub record IsDead (world : p.World) : Type 0 where
    pub first : (p.liveness r.owner_pid world).0 ≡ ok dead
    pub second : (p.liveness r.owner_pid (p.liveness r.owner_pid world).1).0 ≡ ok dead

  -- The number of the owner belonged to another process, alive at two looks and with one start token
  -- that is not the recorded one.
  pub record IsReused (world : p.World) : Type 0 where
    pub token : String
    pub recorded : String
    pub first : (p.liveness r.owner_pid world).0 ≡ ok alive
    pub recorded_is : r.owner_token ≡ some recorded
    pub differs : token ≢ recorded
    pub first_token :
        (p.start_token r.owner_pid (p.liveness r.owner_pid world).1).0 ≡ ok (some token)
    pub second :
        (p.liveness r.owner_pid (p.start_token r.owner_pid (p.liveness r.owner_pid world).1).1).0
        ≡ ok alive
    pub second_token :
        (p.start_token r.owner_pid
          (p.liveness r.owner_pid
            (p.start_token r.owner_pid (p.liveness r.owner_pid world).1).1).1).0
        ≡ ok (some token)

  judge_dead-orphan : (l : Liveness) → (judge_dead l).action ≡ recover_orphan → l ≡ dead
  unfolding judge_dead
  judge_dead-orphan dead h = refl
  judge_dead-orphan alive h = cc
  judge_dead-orphan unknown h = cc

  judge_tokens-orphan :
      (recorded first second : Option String)
      → (judge_tokens recorded first second).action ≡ recover_orphan
      → (token : String) × (known : String) × (first ≡ some token)
        × (second ≡ some token)
        × (recorded ≡ some known)
        × (token ≢ known)
  unfolding judge_tokens
  judge_tokens-orphan (some known) (some first) (some second) h =
      elim (Bool-cases (first == second)) [
        | inl same ↦ (
          first,
          known,
          refl,
          ap some (sym ((string_eq.same_iff first second).0 same)),
          refl,
          λ e. ground (arith, string_eq.same_iff first known),
        )
        | inr differs ↦ absurd (ground arith)
      ]
  judge_tokens-orphan none (some first) (some second) h = absurd (ground arith)
  judge_tokens-orphan recorded none second h = cc
  judge_tokens-orphan recorded (some first) none h = cc

  -- The rest of the observation, after a first look with its answer.
  judge_alive-orphan :
      (first : Option String) (l : Liveness) (world : p.World) {j : Judgement}
      → (judge_alive p r first l world).0 ≡ ok j
      → j.action ≡ recover_orphan
      → (l ≡ alive)
        × (second : Option String) × ((p.start_token r.owner_pid world).0 ≡ ok second)
        × ((judge_tokens r.owner_token first second).action ≡ recover_orphan)
  unfolding judge_alive
  judge_alive-orphan first unknown world h orphan = absurd (ground (arith, ok-injective h))
  judge_alive-orphan first dead world h orphan = absurd (ground (arith, ok-injective h))
  judge_alive-orphan first alive world h orphan =
      let (second, asked, h) = resume-eq-ok _ (p.start_token r.owner_pid world) h in
      (refl, second, asked, ap (λ (k : Judgement). k.action) (ok-injective h) ∙ orphan)

  first-orphan :
      (l : Liveness) (world : p.World) {j : Judgement}
      → (p.liveness r.owner_pid world).0 ≡ ok l
      → (judge_first p r l (p.liveness r.owner_pid world).1).0 ≡ ok j
      → j.action ≡ recover_orphan
      → IsDead world ⊎ IsReused world
  unfolding judge_first
  first-orphan unknown world seen h orphan = absurd (ground (arith, ok-injective h))
  first-orphan dead world seen h orphan =
      let (second, asked, h) =
        resume-eq-ok _ (p.liveness r.owner_pid (p.liveness r.owner_pid world).1) h in
      let gone =
        judge_dead-orphan second (ap (λ (k : Judgement). k.action) (ok-injective h) ∙ orphan) in
      inl (record { first = seen; second = asked ∙ ap ok gone })
  first-orphan alive world seen h orphan =
      let (token, told, h) =
        resume-eq-ok _ (p.start_token r.owner_pid (p.liveness r.owner_pid world).1) h in
      let (second, asked, h) =
        resume-eq-ok _
          (p.liveness r.owner_pid (p.start_token r.owner_pid (p.liveness r.owner_pid world).1).1)
          h in
      let (lives, again, retold, judged) = judge_alive-orphan token second _ h orphan in
      let (same, known, first_is, second_is, recorded_is, differs) =
        judge_tokens-orphan r.owner_token token again judged in
      inr (record {
        token = same;
        recorded = known;
        first = seen;
        recorded_is = recorded_is;
        differs = differs;
        first_token = told ∙ ap ok first_is;
        second = asked ∙ ap ok lives;
        second_token = retold ∙ ap ok second_is;
      })

  -- A recovery is allowed only where the recorded owner is gone: it was dead at two looks, or another
  -- process has its number, alive at two looks and with one start token that is not the recorded one.
  pub owner_observation-orphan :
      (world : p.World) (j : Judgement)
      → (owner_observation p r world).0 ≡ ok j
      → j.action ≡ recover_orphan
      → IsDead world ⊎ IsReused world
  unfolding owner_observation
  owner_observation-orphan world j h orphan =
      let (l, seen, h) = resume-eq-ok _ (p.liveness r.owner_pid world) h in
      first-orphan l world seen h orphan
