-- ===== src/Backups/Laws/Settled.antt =====
-- How the attempts of a backup job end.
use db_backup.Prelude.{
  ℕ, zero, suc, ◌+◌, ◌≤◌, ◌≡◌, refl, sym, subst, ◌⊎◌, inl, inr, true, false, ◌||◌, Option, none,
  some, List, ◌==◌, get, put, remove, get-remove, eq_refl, arith, Option-cases, Bool-cases,
}
use db_backup.Storage.Retention.{completed, failed}
use db_backup.Storage.Quota.{assert_quota_allows_file}
use db_backup.Backups.{World}
use db_backup.Backups.Crypto.{Cipher}
use db_backup.Backups.Worker.{
  Dump, Verification, Outside, Failure, connection_missing, backup_failed, not_a_file,
  quota_exceeded, publish_failed, policy_failed, Step, went, thrown, quota_step, encrypt_step,
  completed_row, finish_step, run_steps, running_row, failed_row, settle, run_backup_job,
}
use db_backup.Backups.Attempts.{after_failure, next, run_attempts, process_backup_job}
use db_backup.Backups.Laws.Stored.{Goes, after_step-Goes}

abbrev IsSettled : World → Type 0
IsSettled w = (w.row.status ≡ completed) ⊎ (w.row.status ≡ failed)

abbrev IsCompleted : World → Unit {0} → Type 0
IsCompleted w done = w.row.status ≡ completed

module _ (cipher : Cipher) (hash : List ℕ → List ℕ) where
  finish_step-IsCompleted :
      (out : Outside) (v : Verification) (s : Step Dump) → Goes IsCompleted (finish_step out v s)
  unfolding finish_step completed_row
  finish_step-IsCompleted out v (thrown w f) = tt
  finish_step-IsCompleted out v (went w kept) =
      after_step-Goes (λ w. w.row.status ≡ completed) out _ refl

  run_steps-IsCompleted :
      (out : Outside) (w : World) → Goes IsCompleted (run_steps cipher hash out w)
  unfolding run_steps quota_step
  run_steps-IsCompleted out w = elim (Option-cases out.dumped) [
    | inl nothing ↦
        let e : run_steps cipher hash out w ≡ thrown w backup_failed = ground (arith, nothing) in
        subst (Goes IsCompleted) (sym e) tt
    | inr (d, dumped) ↦
        let w0 : World = record w { disk = put w.disk d.file_path d.entry } in
        elim (Bool-cases (
          w.row.user_id == ""
          || assert_quota_allows_file out.others w.row.user_id out.quota d.file_size)) [
            | inr over ↦
                let e : run_steps cipher hash out w
                    ≡ thrown (record w0 { disk = remove w0.disk d.file_path }) quota_exceeded =
                  ground (arith, dumped, over) in
                subst (Goes IsCompleted) (sym e) tt
            | inl fits ↦
                let e : run_steps cipher hash out w
                    ≡ finish_step out (out.verify d.entry) (encrypt_step cipher hash out d w0) =
                  ground (arith, dumped, fits) in
                subst (Goes IsCompleted) (sym e)
                  (finish_step-IsCompleted out (out.verify d.entry) _)
          ]
  ]

  -- a job that finds its connection ends in a completed or in a failed row, and tells the queue which
  abbrev Ended : World × Option Failure → Type 0
  Ended (w, none) = w.row.status ≡ completed
  Ended (w, some f) = w.row.status ≡ failed

  settle-Ended : (out : Outside) (s : Step Unit) → Goes IsCompleted s → Ended (settle out s)
  unfolding settle failed_row
  settle-Ended out (went w done) h = h
  settle-Ended out (thrown w f) h = refl

  run_backup_job-Ended :
      (out : Outside) (w : World)
      → out.has_connection ≡ true
      → Ended (run_backup_job cipher hash out w)
  unfolding run_backup_job
  run_backup_job-Ended out w found =
      let s = run_steps cipher hash out (record w { row = running_row w.row }) in
      let e : run_backup_job cipher hash out w ≡ settle out s = ground (arith, found) in
      subst Ended (sym e) (settle-Ended out s (run_steps-IsCompleted out _))

  -- settled, after at most so many attempts
  abbrev Within : ℕ → World × ℕ → Type 0
  Within n (w, k) = IsSettled w × (k ≤ n)

  after_failure-Within :
      (n : ℕ) (f : Failure) (ended retried : World × ℕ)
      → Within n ended
      → Within n retried
      → Within n (after_failure f ended retried)
  after_failure-Within n quota_exceeded ended retried h k = h
  after_failure-Within n connection_missing ended retried h k = k
  after_failure-Within n backup_failed ended retried h k = k
  after_failure-Within n not_a_file ended retried h k = k
  after_failure-Within n publish_failed ended retried h k = k
  after_failure-Within n policy_failed ended retried h k = k

  next-Within :
      (n k : ℕ) (r : World × Option Failure) (retried : World × ℕ)
      → Ended r
      → k + 1 ≤ n
      → (IsSettled r.0 → Within n retried)
      → Within n (next k r retried)
  next-Within n k (w, none) retried h le go = (inl h, le)
  next-Within n k (w, some f) retried h le go =
      after_failure-Within n f (w, k + 1) retried (inr h, le) (go (inr h))

  module _ (outs : ℕ → Outside) (found : (k : ℕ) → (outs k).has_connection ≡ true) where
    run_attempts-Within :
        (n k : ℕ) (w : World) → Within (k + suc n) (run_attempts cipher hash outs (suc n) k w)
    unfolding run_attempts
    run_attempts-Within zero k w =
        let r = run_backup_job cipher hash (outs k) w in
        next-Within (k + 1) k r (r.0, k + 1) (run_backup_job-Ended (outs k) w (found k))
          (omega arith) (λ settled. (settled, omega arith))
    run_attempts-Within (suc n) k w =
        let r = run_backup_job cipher hash (outs k) w in
        let retried = run_attempts cipher hash outs (suc n) (k + 1) r.0 in
        let shift : k + 1 + suc n ≡ k + suc (suc n) = omega arith in
        next-Within (k + suc (suc n)) k r retried (run_backup_job-Ended (outs k) w (found k))
          (omega arith)
          (λ settled. subst (λ m. Within m retried) shift (run_attempts-Within n (k + 1) r.0))

    -- A backup job that finds its connection in every attempt makes at most three, and leaves its row
    -- completed or failed.
    pub process_backup_job-settled :
        (w : World)
        → let (w', made) = process_backup_job cipher hash outs w in
          ((w'.row.status ≡ completed) ⊎ (w'.row.status ≡ failed)) × (made ≤ 3)
    unfolding process_backup_job
    process_backup_job-settled w = run_attempts-Within 2 0 w

-- A dump that does not fit the quota is removed and its row fails; if the message of the failure can
-- be published, it is not tried again.
pub process_backup_job-over_quota :
    (cipher : Cipher) (hash : List ℕ → List ℕ) (outs : ℕ → Outside) (d : Dump) (w : World)
    → (outs 0).has_connection ≡ true
    → (outs 0).dumped ≡ some d
    → (w.row.user_id == "") ≡ false
    → assert_quota_allows_file (outs 0).others w.row.user_id (outs 0).quota d.file_size ≡ false
    → (outs 0).failure_publish_fails ≡ false
    → let (w', made) = process_backup_job cipher hash outs w in
      (w'.row.status ≡ failed) × (get w'.disk d.file_path ≡ none) × (made ≡ 1)
unfolding process_backup_job run_attempts run_backup_job run_steps quota_step settle failed_row
    running_row
process_backup_job-over_quota cipher hash outs d w found dumped user over told =
    let gone = get-remove (put w.disk d.file_path d.entry) d.file_path d.file_path in
    let same = eq_refl d.file_path in
    (
      ground (arith, found, dumped, user, over, told),
      ground (arith, found, dumped, user, over, told, gone, same),
      ground (arith, found, dumped, user, over, told),
    )
