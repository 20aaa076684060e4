-- ===== src/SshKeys/Safety.antt =====
-- What the ssh:keys:* handlers run, and as whom (internal/agent/sshkeys_handlers.go).
use serverkit_agent.Base.{
  if◌then◌else◌, Bool, true, false, List, [], ◌∷◌, ◌++◌, Option, none, some, Text, codes, text_eq,
  trim_space, has_prefix, ◌≡◌, refl, sym, ap, ◌∙◌, inl, inr, append_assoc, append-nil, All-append,
  Bool-cases,
}
use serverkit_agent.Base.Results.{Result, success, failure, Result-cases}
use serverkit_agent.Base.Steps.{◌>>=◌, check_that, Adds, Adds-follow}
use serverkit_agent.SshKeys.{KeyError, unexpected_temp}
use serverkit_agent.SshKeys.Machine.{Command, KeyLog, Machine, sudo_command}
use serverkit_agent.SshKeys.Handling.{
  SshKeysIo, run_privileged, as_user, io_run, io_read, read_after, is_missing, io_write, or_clean,
  cleaned,
}

module _ (m : Machine) (io : SshKeysIo) where
  -- The command is one that `runuser` runs as the target user.
  abbrev pub AsUser : Command → Type 0
  AsUser c =
      (words : List Text) × (sudo_command m.mode
          (codes "runuser" ∷ codes "-u" ∷ io.name ∷ codes "--" ∷ words)
        ≡ success c.1)

  ran_at :
      (stdin : Option Text) (words full : List Text) (log : KeyLog)
      (r : Result KeyError (List Text))
      → r ≡ success full
      → sudo_command m.mode (as_user m io words) ≡ r
      → (run_privileged m stdin (as_user m io words) log).1 ≡ log ++ (stdin, full) ∷ []
  unfolding run_privileged
  ran_at stdin words full log r q e = rw (e, q, run_privileged) refl

  not_ran_at :
      (stdin : Option Text) (words : List Text) (log : KeyLog) (err : KeyError)
      → sudo_command m.mode (as_user m io words) ≡ failure err
      → (run_privileged m stdin (as_user m io words) log).1 ≡ log
  unfolding run_privileged
  not_ran_at stdin words log err e = rw (e, run_privileged) refl

  module _ (other : text_eq io.name (codes "root") ≡ false) where
    as_user_lem :
        (words : List Text)
        → as_user m io words ≡ codes "runuser" ∷ codes "-u" ∷ io.name ∷ codes "--" ∷ words
    as_user_lem words =
        ap (λ b. if b then words else codes "runuser" ∷ codes "-u" ∷ io.name ∷ codes "--" ∷ words)
          other

    io_run-AsUser :
        (stdin : Option Text) (words : List Text) (log : KeyLog)
        → Adds AsUser log (io_run m io stdin words log)
    unfolding io_run
    io_run-AsUser stdin words log = elim (Result-cases (sudo_command m.mode (as_user m io words))) [
      | inl (full, e) ↦ (
        (stdin, full) ∷ [],
        ran_at stdin words full log _ e refl,
        ((words, ap (sudo_command m.mode) (sym (as_user_lem words)) ∙ e), tt),
      )
      | inr (err, e) ↦ ([], not_ran_at stdin words log err e ∙ sym (append-nil log), tt)
    ]

    read_after-AsUser :
        (log : KeyLog) (r : Result KeyError Text × KeyLog)
        → Adds AsUser log r
        → Adds AsUser log (read_after m io r)
    unfolding read_after
    read_after-AsUser log (success out, mid) h =
        Adds-follow AsUser log (success out, mid)
          (λ o. io_run m io none (codes "cat" ∷ io.file ∷ [])) h
          (λ o l q. io_run-AsUser none (codes "cat" ∷ io.file ∷ []) l)
    read_after-AsUser log (failure e, mid) h = elim (Bool-cases (is_missing m e)) [
      | inl b ↦ rw b h
      | inr b ↦ rw b h
    ]

    cleaned-AsUser :
        (tmp : Text) (log : KeyLog) (r : Result KeyError Text × KeyLog)
        → Adds AsUser log r
        → Adds AsUser log (cleaned m io tmp r)
    unfolding cleaned
    cleaned-AsUser tmp log (success out, mid) h = h
    cleaned-AsUser tmp log (failure e, mid) (ran, q, all) =
        let (more, f, alls) = io_run-AsUser none (codes "rm" ∷ codes "-f" ∷ tmp ∷ []) mid in
        (
          ran ++ more,
          f ∙ ap (λ l. l ++ more) q ∙ append_assoc log ran more,
          All-append AsUser ran more all alls,
        )

    -- Every command that reads the keys of a user other than root is one that runs as that user.
    pub io_read-AsUser : (log : KeyLog) → Adds AsUser log (io_read m io log)
    unfolding io_read
    io_read-AsUser log =
        read_after-AsUser log (io_run m io none (codes "test" ∷ codes "-e" ∷ io.file ∷ []) log)
          (io_run-AsUser none (codes "test" ∷ codes "-e" ∷ io.file ∷ []) log)

    or_clean-AsUser :
        (tmp : Text) (stdin : Option Text) (words : List Text) (log : KeyLog)
        → Adds AsUser log (or_clean m io tmp stdin words log)
    unfolding or_clean
    or_clean-AsUser tmp stdin words log =
        cleaned-AsUser tmp log (io_run m io stdin words log) (io_run-AsUser stdin words log)

    checked-AsUser : (b : Bool) (e : KeyError) (log : KeyLog) → Adds AsUser log (check_that b e log)
    checked-AsUser true e log = ([], sym (append-nil log), tt)
    checked-AsUser false e log = ([], sym (append-nil log), tt)

    -- From the temporary file on.
    replacing :
        (content tmp : Text) (log : KeyLog)
        → Adds AsUser log (
            (check_that (has_prefix tmp (io.dir ++ codes "/")) (unexpected_temp tmp) >>= λ u.
            or_clean m io tmp (some content) (codes "tee" ∷ tmp ∷ []) >>= λ o.
            or_clean m io tmp none (codes "chmod" ∷ codes "600" ∷ tmp ∷ []) >>= λ o.
            or_clean m io tmp none (codes "mv" ∷ codes "-f" ∷ tmp ∷ io.file ∷ []))
              log)
    replacing content tmp log =
        let tee = codes "tee" ∷ tmp ∷ [] in
        let chmod = codes "chmod" ∷ codes "600" ∷ tmp ∷ [] in
        let prefix = has_prefix tmp (io.dir ++ codes "/") in
        Adds-follow AsUser log (check_that prefix (unexpected_temp tmp) log) _
          (checked-AsUser prefix (unexpected_temp tmp) log)
          (λ u l e.
            Adds-follow AsUser l (or_clean m io tmp (some content) tee l) _
              (or_clean-AsUser tmp (some content) tee l)
              (λ o l e.
                Adds-follow AsUser l (or_clean m io tmp none chmod l) _
                  (or_clean-AsUser tmp none chmod l)
                  (λ o l e.
                    or_clean-AsUser tmp none (codes "mv" ∷ codes "-f" ∷ tmp ∷ io.file ∷ []) l)))

    -- Every command that writes the keys of a user other than root is one that runs as that user.
    pub io_write-AsUser :
        (content : Text) (log : KeyLog) → Adds AsUser log (io_write m io content log)
    unfolding io_write
    io_write-AsUser content log =
        let mkdir = codes "mkdir" ∷ codes "-p" ∷ codes "-m" ∷ codes "700" ∷ io.dir ∷ [] in
        let chmod = codes "chmod" ∷ codes "700" ∷ io.dir ∷ [] in
        let mktemp = codes "mktemp" ∷ m.join_path io.dir (codes ".authorized_keys.XXXXXX") ∷ [] in
        Adds-follow AsUser log (io_run m io none mkdir log) _ (io_run-AsUser none mkdir log)
          (λ o l e.
            Adds-follow AsUser l (io_run m io none chmod l) _ (io_run-AsUser none chmod l) (λ o l e.
              Adds-follow AsUser l (io_run m io none mktemp l) _ (io_run-AsUser none mktemp l)
                (λ out l e. replacing content (trim_space out) l)))
