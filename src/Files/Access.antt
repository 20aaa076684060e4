-- ===== src/Files/Access.antt =====
-- Where the paths lead that the file handlers touch (internal/agent/file_handlers.go).
use serverkit_agent.Base.{
  ℕ, zero, suc, ◌<◌, Bool, true, false, not, List, [], ◌∷◌, ◌++◌, Option, none, some, Text, codes,
  length, text_eq, ◌≡◌, refl, inl, inr, arith, Bool-cases,
}
use serverkit_agent.Base.Results.{Result, success, failure}
use serverkit_agent.Base.Steps.{
  check_that, Adds, Adds_nothing, Adds_one, Adds-follow, check_that-Adds,
}
use serverkit_agent.Files.Roots.{Permitted, validate_file_access-Permitted}
use serverkit_agent.Files.{
  FileOp, reads, makes_dirs, writes, lists, FileLog, FileSystem, FileError, path_required, contents,
  do_read, do_write, list_dir, at_root, is_bare_root, make_parent, parent_checked, decoded_content,
  WriteParams, file_mode, validate_file_access, handle_file_read, handle_file_write,
  handle_file_list,
}

module _ (fs : FileSystem) (roots : List Text) where
  -- The path of an operation, which is to be permitted, and the mode of a file, without special bits.
  abbrev pub Contained : FileOp → Type 0
  Contained (reads p) = Permitted fs roots p
  Contained (makes_dirs p) = Permitted fs roots p
  Contained (writes p bytes mode) = Permitted fs roots p × (mode < 0x200)
  Contained (lists p) = Permitted fs roots p

  -- Every path that reading a file touches leads into an allowed root.
  pub handle_file_read-Contained :
      (params : Option Text) (log : FileLog)
      → Adds Contained log (handle_file_read fs roots params log)
  unfolding handle_file_read
  handle_file_read-Contained none log = Adds_nothing Contained log
  handle_file_read-Contained (some p) log =
      Adds-follow Contained log (check_that (not (text_eq p [])) path_required log) _
        (check_that-Adds Contained (not (text_eq p [])) path_required log)
        (λ u l e.
          Adds-follow Contained l (validate_file_access fs roots p, l) _ (Adds_nothing Contained l)
            (λ u l ok.
              Adds-follow Contained l (do_read fs p l) _
                (Adds_one Contained l (reads p) (validate_file_access-Permitted fs roots p ok))
                (λ bytes l e. Adds_nothing Contained l)))

  parent_checked-success :
      (r : Result FileError (Unit {0})) (u : Unit {0})
      → parent_checked fs r ≡ success u
      → r ≡ success tt
  parent_checked-success (success tt) u h = refl
  parent_checked-success (failure e) u h = absurd (cc h)

  make_parent-Contained :
      (p : Text) (create : Bool) (log : FileLog)
      → Adds Contained log (make_parent fs roots p create log)
  unfolding make_parent
  make_parent-Contained p false log = Adds_nothing Contained log
  make_parent-Contained p true log =
      let checked = validate_file_access fs roots (fs.dir p) in
      Adds-follow Contained log (parent_checked fs checked, log) _ (Adds_nothing Contained log)
        (λ u l ok. Adds_one Contained l (makes_dirs (fs.dir p)) (
          validate_file_access-Permitted fs roots (fs.dir p) (parent_checked-success checked u ok)))

  file_mode_bound : (mode : ℕ) → file_mode mode < 0x200
  file_mode_bound zero = omega arith
  file_mode_bound (suc m) = omega arith

  -- Every path that writing a file touches, its parent directory included, leads into an allowed root that is not blank,
  -- and no special bit is set. A path leads to what EvalSymlinks gives; one that EvalSymlinks cannot give, such as that of
  -- a new file, leads to the missing names under the nearest directory above that it can give. A link to nothing counts
  -- as a missing name.
  pub handle_file_write-Contained :
      (params : Option WriteParams) (log : FileLog)
      → Adds Contained log (handle_file_write fs roots params log)
  unfolding handle_file_write
  handle_file_write-Contained none log = Adds_nothing Contained log
  handle_file_write-Contained (some p) log =
      Adds-follow Contained log (check_that (not (text_eq p.path [])) path_required log) _
        (check_that-Adds Contained (not (text_eq p.path [])) path_required log)
        (λ u l e.
          Adds-follow Contained l (validate_file_access fs roots p.path, l) _
            (Adds_nothing Contained l)
            (λ u l ok.
              Adds-follow Contained l (decoded_content fs (fs.decoded p.content), l) _
                (Adds_nothing Contained l)
                (λ bytes l e.
                  Adds-follow Contained l (make_parent fs roots p.path p.create_dirs l) _
                    (make_parent-Contained p.path p.create_dirs l)
                    (λ u l e.
                      Adds-follow Contained l (do_write fs p.path bytes (file_mode p.mode) l) _
                        (Adds_one Contained l (writes p.path bytes (file_mode p.mode)) (
                          validate_file_access-Permitted fs roots p.path ok,
                          file_mode_bound p.mode,
                        ))
                        (λ u l e. Adds_nothing Contained l)))))

  list_dir-Contained : (p : Text) (log : FileLog) → Adds Contained log (list_dir fs roots p log)
  unfolding list_dir
  list_dir-Contained p log =
      Adds-follow Contained log (validate_file_access fs roots p, log) _
        (Adds_nothing Contained log)
        (λ u l ok. Adds_one Contained l (lists p) (validate_file_access-Permitted fs roots p ok))

  at_root-Contained :
      (drives : Option (List Text)) (log : FileLog)
      → Adds Contained log (at_root fs roots drives log)
  unfolding at_root
  at_root-Contained none log = list_dir-Contained (codes "/") log
  at_root-Contained (some drives) log = Adds_nothing Contained log

  -- Every path that listing a directory touches leads into an allowed root.
  pub handle_file_list-Contained :
      (params : Option Text) (log : FileLog)
      → Adds Contained log (handle_file_list fs roots params log)
  unfolding handle_file_list
  handle_file_list-Contained none log = Adds_nothing Contained log
  handle_file_list-Contained (some p) log = elim (Bool-cases (is_bare_root fs (fs.from_slash p))) [
    | inl e ↦ rw e (at_root-Contained fs.drives log)
    | inr e ↦ rw e (list_dir-Contained (fs.from_slash p) log)
  ]

  -- Where the path is permitted, a read answers what the file holds, and a write what it wrote.
  pub handle_file_read_lem :
      (p bytes : Text) (log : FileLog)
      → text_eq p [] ≡ false
      → validate_file_access fs roots p ≡ success tt
      → fs.read_file log p ≡ success bytes
      → handle_file_read fs roots (some p) log
        ≡ (success (contents p (fs.encoded bytes) (length bytes)), log ++ reads p ∷ [])
  unfolding handle_file_read
  handle_file_read_lem p bytes log some_path ok read = rw (some_path, ok, read) refl
