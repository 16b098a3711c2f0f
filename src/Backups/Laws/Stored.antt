-- ===== src/Backups/Laws/Stored.antt =====
-- What a finished backup job leaves behind: a copy on the disk or in the remote storage that the row
-- names, the dump itself or an encryption of it.
use db_backup.Prelude.{
  ℕ, String, ◌≡◌, refl, ◌∙◌, sym, subst, ◌⊎◌, inl, inr, true, false, not, ◌||◌, ◌&&◌, none, some,
  List, ◌==◌, get, put, remove, get-put, get-remove, eq_iff, eq_refl, arith, Option-cases,
  Bool-cases,
}
use db_backup.Sync.Values.{◌<>◌}
use db_backup.Storage.Retention.{completed}
use db_backup.Storage.Quota.{assert_quota_allows_file}
use db_backup.Backups.{file, World}
use db_backup.Backups.Crypto.{Cipher, same_bytes, decrypt_backup_file}
use db_backup.Backups.Worker.{
  Dump, Verification, Remote, Outside, Step, went, thrown, enc_path, encrypt_twice, encrypt_step,
  quota_step, uploaded_entry, upload_step, completed_row, after_step, finish_step, settle,
  run_steps, running_row, run_backup_job, quota_exceeded,
}
use db_backup.Backups.Fetch.{is_remote}
use db_backup.Backups.Laws.Copies.{longer-ne, encrypt_twice-ok, encrypt_twice-kept}

-- what holds of a step that does not throw
abbrev pub Goes : {A : Type 0} → (World → A → Type 0) → Step A → Type 0
Goes P (went w a) = P w a
Goes P (thrown w f) = Unit

-- a step that does not throw, and what holds of it
abbrev pub Surely : {A : Type 0} → (World → A → Type 0) → Step A → Type 0
Surely P (went w a) = P w a
Surely P (thrown w f) = ⊥

-- the dump under its names, or an encryption of it under theirs
abbrev pub KeptAs : Cipher → Outside → Dump → List ℕ → String → String → List ℕ → Type 0
KeptAs cipher out d plain name path bytes =
    ((name ≡ d.file_name) × (path ≡ d.file_path) × (bytes ≡ plain))
    ⊎ ((p : String) × (out.passphrase ≡ some p)
        × (name ≡ d.file_name <> ".enc")
        × (path ≡ enc_path d.file_path)
        × (decrypt_backup_file cipher p bytes ≡ some plain))

abbrev pub Available : World → List ℕ → Type 0
Available w bytes =
    (get w.disk w.row.file_path ≡ some (file bytes))
    ⊎ ((key : String) × (get w.disk w.row.file_path ≡ none)
        × (w.row.storage_key ≡ some key)
        × (is_remote w.row.storage_type ≡ true)
        × ((key == "") ≡ false)
        × (get w.remote key ≡ some (file bytes)))

abbrev pub Stored : Cipher → Outside → Dump → List ℕ → World → Type 0
Stored cipher out d plain w =
    (bytes : List ℕ) × (w.row.status ≡ completed)
    × Available w bytes
    × KeptAs cipher out d plain w.row.file_name w.row.file_path bytes

-- a remote storage that can be read back
abbrev pub Usable : Outside → Type 0
Usable out =
    (r : Remote)
    → out.upload ≡ some r
    → (is_remote r.provider ≡ true) × ((name : String) → (r.key_of name == "") ≡ false)

-- what the last step starts from, it keeps
pub after_step-Goes :
    (P : World → Type 0) (out : Outside) (w : World) → P w → Goes (λ w done. P w) (after_step out w)
unfolding after_step
after_step-Goes P out w h = elim (Bool-cases out.publish_fails) [
  | inl lost ↦ rw lost tt
  | inr sent ↦ elim (Bool-cases (not (w.row.user_id == "") && out.policy_fails)) [
    | inl lost ↦ rw (sent, lost) tt
    | inr found ↦ rw (sent, found) h
  ]
]

module _ (cipher : Cipher) (hash : List ℕ → List ℕ) (out : Outside) (d : Dump) (plain : List ℕ)
    (is_file : d.entry ≡ file plain)
    (no_collision : (copy : List ℕ) → same_bytes (hash copy) (hash plain) ≡ true → copy ≡ plain)
    (usable : Usable out) where
  abbrev pub Held : World → Dump → Type 0
  Held w kept =
      (bytes : List ℕ) × (get w.disk kept.file_path ≡ some (file bytes))
      × KeptAs cipher out d plain kept.file_name kept.file_path bytes

  pub encrypt_step-Held :
      (w : World)
      → get w.disk d.file_path ≡ some (file plain)
      → Surely Held (encrypt_step cipher hash out d w)
  unfolding encrypt_step
  encrypt_step-Held w here =
      let as_it_is : encrypt_step cipher hash out d w ≡ went w d
          → Surely Held (encrypt_step cipher hash out d w) =
        λ e. subst (Surely Held) (sym e) (plain, here, inl (refl, refl, refl)) in
      elim (Bool-cases (w.row.user_id == "")) [
        | inl nobody ↦ as_it_is (ground (arith, nobody))
        | inr user ↦ elim (Option-cases out.passphrase) [
          | inl off ↦ as_it_is (ground (arith, user, off))
          | inr (p, on) ↦
              let tried = encrypt_twice cipher hash out p d.file_path plain w.disk in
              elim (Bool-cases tried.0) [
                | inl ok ↦
                    let (enc, copied, opened) =
                      encrypt_twice-ok cipher hash out p d.file_path plain no_collision w.disk ok in
                    let w1 : World = record w { disk = remove tried.1 d.file_path } in
                    let kept : Dump = record d {
                      file_path = enc_path d.file_path;
                      file_name = d.file_name <> ".enc";
                    } in
                    let e : encrypt_step cipher hash out d w ≡ went w1 kept =
                      ground (arith, user, on, is_file, ok) in
                    let other = longer-ne d.file_path ".enc" refl in
                    let stays : get w1.disk (enc_path d.file_path) ≡ some (file enc) = ground (
                      arith,
                      copied,
                      other,
                      eq_iff (enc_path d.file_path) d.file_path,
                      eq_iff d.file_path (enc_path d.file_path),
                      get-remove tried.1 d.file_path (enc_path d.file_path),
                    ) in
                    subst (Surely Held) (sym e) (enc, stays, inr (p, on, refl, refl, opened))
                | inr unsafe ↦
                    let w1 : World = record w { disk = tried.1 } in
                    let e : encrypt_step cipher hash out d w ≡ went w1 d =
                      ground (arith, user, on, is_file, unsafe) in
                    subst (Surely Held) (sym e) (
                      plain,
                      encrypt_twice-kept cipher hash out p d.file_path plain no_collision w.disk
                          ∙ here,
                      inl (refl, refl, refl),
                    )
              ]
        ]
      ]

  -- the copy after the upload, in the row that names it
  pub upload_step-Available :
      (w : World) (kept : Dump) (bytes : List ℕ) (v : Verification)
      → get w.disk kept.file_path ≡ some (file bytes)
      → let up = upload_step out kept w in
        Available (record up.0 { row = completed_row kept v up.1 up.0.row }) bytes
  unfolding upload_step uploaded_entry completed_row
  upload_step-Available w kept bytes v here = elim (Bool-cases (w.row.user_id == "")) [
    | inl nobody ↦ inl (ground (arith, nobody, here))
    | inr user ↦ elim (Option-cases out.upload) [
      | inl off ↦ inl (ground (arith, user, off, here))
      | inr (r, on) ↦
          let gone = get-remove w.disk kept.file_path kept.file_path in
          let same = eq_refl kept.file_path in
          let key = r.key_of kept.file_name in
          let (remote, nonempty) = usable r on in
          elim (Bool-cases r.delete_local) [
            | inr keeps ↦ inl (ground (arith, user, on, keeps, here))
            | inl deletes ↦ inr (
              key,
              ground (arith, user, on, deletes, gone, same),
              ground (arith, user, on),
              ground (arith, user, on, remote),
              nonempty kept.file_name,
              ground (arith, user, on, here, get-put w.remote key key (file bytes), eq_refl key),
            )
          ]
    ]
  ]

  abbrev Keeps : World → Unit {0} → Type 0
  Keeps w done = Stored cipher out d plain w

  finish_step-Keeps :
      (v : Verification) (s : Step Dump) → Surely Held s → Goes Keeps (finish_step out v s)
  unfolding finish_step completed_row
  finish_step-Keeps v (thrown w f) h = elim h [ ]
  finish_step-Keeps v (went w kept) (bytes, here, as_kept) =
      let (w2, stored) = upload_step out kept w in
      after_step-Goes (Stored cipher out d plain) out _
        (bytes, refl, upload_step-Available w kept bytes v here, as_kept)

  encrypted-Keeps :
      (v : Verification) (w : World)
      → get w.disk d.file_path ≡ some (file plain)
      → Goes Keeps (finish_step out v (encrypt_step cipher hash out d w))
  encrypted-Keeps v w here =
      finish_step-Keeps v (encrypt_step cipher hash out d w) (encrypt_step-Held w here)

  run_steps-Keeps : (w : World) → out.dumped ≡ some d → Goes Keeps (run_steps cipher hash out w)
  unfolding run_steps quota_step
  run_steps-Keeps w dumped =
      let w0 : World = record w { disk = put w.disk d.file_path d.entry } in
      let here : get w0.disk d.file_path ≡ some (file plain) =
        ground
          (arith, is_file, get-put w.disk d.file_path d.file_path d.entry, eq_refl d.file_path) in
      elim (Bool-cases (
        w.row.user_id == ""
        || assert_quota_allows_file out.others w.row.user_id out.quota d.file_size)) [
          | inr over ↦
              let e : run_steps cipher hash out w
                  ≡ thrown (record w0 { disk = remove w0.disk d.file_path }) quota_exceeded =
                ground (arith, dumped, over) in
              subst (Goes Keeps) (sym e) tt
          | inl fits ↦
              let e : run_steps cipher hash out w
                  ≡ finish_step out (out.verify d.entry) (encrypt_step cipher hash out d w0) =
                ground (arith, dumped, fits) in
              subst (Goes Keeps) (sym e) (encrypted-Keeps (out.verify d.entry) w0 here)
        ]

  settle-Keeps :
      (s : Step Unit)
      → Goes Keeps s
      → (settle out s).1 ≡ none
      → Stored cipher out d plain (settle out s).0
  unfolding settle
  settle-Keeps (went w done) h ok = h
  settle-Keeps (thrown w f) h ok = cc

  pub run_backup_job-Stored :
      (w : World)
      → out.dumped ≡ some d
      → (run_backup_job cipher hash out w).1 ≡ none
      → Stored cipher out d plain (run_backup_job cipher hash out w).0
  unfolding run_backup_job
  run_backup_job-Stored w dumped ok = elim (Bool-cases out.has_connection) [
    | inr missing ↦ absurd (ground (arith, missing, ok))
    | inl found ↦
        let w0 : World = record w { row = running_row w.row } in
        let s = run_steps cipher hash out w0 in
        let e : run_backup_job cipher hash out w ≡ settle out s = ground (arith, found) in
        subst (λ r. Stored cipher out d plain r.0) (sym e)
          (settle-Keeps s (run_steps-Keeps w0 dumped) (subst (λ r. r.1 ≡ none) e ok))
  ]
