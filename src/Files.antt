-- ===== src/Files.antt =====
-- internal/agent/file_handlers.go: the paths that the panel may use, and the handlers of file:read, file:write, file:list.
pub mod Resolving
pub mod Roots
pub mod Access
use serverkit_agent.Base.{
  ℕ, zero, suc, ◌+◌, ◌%◌, ◌==◌, if◌then◌else◌, Bool, true, false, ◌&&◌, ◌||◌, not, List, [], ◌∷◌,
  ◌++◌, Option, none, some, Text, codes, text_eq, length, trim_space, trim_right_by, has_prefix,
}
use serverkit_agent.Base.Results.{Result, success, failure}
use serverkit_agent.Base.Steps.{Steps, pure, fail_with, follow, ◌>>=◌, ◌>>◌, lift, check_that}

-- What a handler did to the file system.
pub data FileOp : Type 0 where
  reads : Text → FileOp
  makes_dirs : Text → FileOp
  writes : Text → Text → ℕ → FileOp
  lists : Text → FileOp

abbrev pub FileLog : Type 0
FileLog = List FileOp

-- A directory entry, with whether its file info can be read.
pub record DirEntry : Type 0 where
  pub name : Text
  pub is_dir : Bool
  pub info : Option (ℕ × ℕ)

-- What the code uses of path/filepath, os, encoding/base64 and strings.ToLower; `abs_clean` is Abs after Clean, and
-- `none` is an error.
pub record FileSystem : Type 0 where
  pub windows : Bool
  pub separator : ℕ
  pub lowered : Text → Text
  pub abs_clean : Text → Option Text
  pub eval_symlinks : Text → Option Text
  pub dir : Text → Text
  pub base : Text → Text
  pub joined : List Text → Text
  pub from_slash : Text → Text
  pub to_slash : Text → Text
  pub drives : Option (List Text)
  pub decoded : Text → Option Text
  pub encoded : Text → Text
  pub read_file : FileLog → Text → Result Text Text
  pub write_file : FileLog → Text → Option Text
  pub mkdir_all : FileLog → Text → Option Text
  pub read_dir : FileLog → Text → Result Text (List DirEntry)

pub data FileError : Type 0 where
  bad_params : FileError
  path_required : FileError
  no_allowed_paths : FileError
  invalid_path : FileError
  denied : Text → FileError
  invalid_base64 : FileError
  parent_denied : FileError → FileError
  os_error : Text → FileError

pub data FileAnswer : Type 0 where
  contents : Text → Text → ℕ → FileAnswer
  written : Text → ℕ → FileAnswer
  drive_list : List Text → FileAnswer
  listing : Text → List (Text × Text × Bool × ℕ × ℕ) → FileAnswer

pub record WriteParams : Type 0 where
  pub path : Text
  pub content : Text
  pub mode : ℕ
  pub create_dirs : Bool

abbrev pub F : Type 0 → Type 0
F = Steps FileError FileLog

-- The mode, without the bits above the nine permissions; 0o644 if none is given.
abbrev pub file_mode : ℕ → ℕ
file_mode zero = 0x1a4
file_mode (suc m) = suc m % 0x200

module _ (fs : FileSystem) where
  abbrev pub found_parent : Text → Text → Option Text → Option Text → Option Text
  found_parent suffix name (some resolved) rest = some (fs.joined (resolved ∷ name ∷ suffix ∷ []))
  found_parent suffix name none rest = rest

  -- The loop of resolveSymlinkPath; `none` is no more fuel.
  unfoldable pub resolve_from : ℕ → Text → Text → Text → Option Text
  resolve_from zero abs d suffix = none
  resolve_from (suc fuel) abs d suffix =
      let rest = resolve_from fuel abs (fs.dir d) (fs.joined (fs.base d ∷ suffix ∷ [])) in
      if text_eq (fs.dir d) d
      then some abs
      else found_parent suffix (fs.base d) (fs.eval_symlinks (fs.dir d)) rest

  unfoldable pub resolve_abs : Option Text → Text → Option Text
  unfolding resolve_from
  resolve_abs (some resolved) abs = some resolved
  resolve_abs none abs = resolve_from (suc (length abs)) abs abs []

  unfoldable pub after_abs : Option Text → Option Text
  unfolding resolve_abs
  after_abs none = none
  after_abs (some abs) = resolve_abs (fs.eval_symlinks abs) abs

  -- resolveSymlinkPath; `none` is an error.
  unfoldable pub resolve_symlink_path : Text → Option Text
  unfolding after_abs
  resolve_symlink_path p = after_abs (fs.abs_clean p)

  abbrev pub is_separator : ℕ → Bool
  is_separator c = c == fs.separator

  abbrev pub within : Text → Text → Bool
  within target allowed =
      text_eq target allowed
      || has_prefix target (trim_right_by is_separator allowed ++ fs.separator ∷ [])

  unfoldable pub path_within_allowed_root : Text → Text → Bool
  path_within_allowed_root target allowed =
      if fs.windows then within (fs.lowered target) (fs.lowered allowed) else within target allowed

  unfoldable pub root_allows : Text → Option Text → Bool
  unfolding path_within_allowed_root
  root_allows target none = false
  root_allows target (some allowed) = path_within_allowed_root target allowed

  -- The loop over the allowed paths.
  unfoldable pub some_root_allows : Text → List Text → Bool
  unfolding root_allows resolve_symlink_path
  some_root_allows target [] = false
  some_root_allows target (a ∷ as') =
      let rest = some_root_allows target as' in
      if text_eq (trim_space a) []
      then rest
      else root_allows target (resolve_symlink_path a) || rest

  unfoldable pub allowed_target : Text → List Text → Option Text → Result FileError (Unit {0})
  unfolding some_root_allows
  allowed_target path roots none = failure invalid_path
  allowed_target path roots (some target) =
      if some_root_allows target roots then success tt else failure (denied path)

  unfoldable pub validate_file_access : List Text → Text → Result FileError (Unit {0})
  unfolding allowed_target resolve_symlink_path
  validate_file_access [] path = failure no_allowed_paths
  validate_file_access (r ∷ rs) path = allowed_target path (r ∷ rs) (resolve_symlink_path path)

  abbrev of_params : {P : Type 0} → Option P → F P
  of_params none = fail_with bad_params
  of_params (some p) = pure p

  abbrev as_result : Result Text Text → Result FileError Text
  as_result (success t) = success t
  as_result (failure e) = failure (os_error e)

  abbrev os_result : Option Text → Result FileError (Unit {0})
  os_result none = success tt
  os_result (some e) = failure (os_error e)

  abbrev pub do_read : Text → F Text
  do_read p log = (as_result (fs.read_file log p), log ++ reads p ∷ [])

  abbrev pub do_write : Text → Text → ℕ → F (Unit {0})
  do_write p bytes mode log = (os_result (fs.write_file log p), log ++ writes p bytes mode ∷ [])

  abbrev pub do_mkdir : Text → F (Unit {0})
  do_mkdir p log = (os_result (fs.mkdir_all log p), log ++ makes_dirs p ∷ [])

  -- handleFileRead.
  unfoldable pub handle_file_read : List Text → Option Text → F FileAnswer
  unfolding validate_file_access
  handle_file_read roots params = do
    p ← of_params params
    check_that (not (text_eq p [])) path_required
    lift (validate_file_access roots p)
    bytes ← do_read p
    pure (contents p (fs.encoded bytes) (length bytes))

  abbrev pub decoded_content : Option Text → Result FileError Text
  decoded_content none = failure invalid_base64
  decoded_content (some bytes) = success bytes

  abbrev pub parent_checked : Result FileError (Unit {0}) → Result FileError (Unit {0})
  parent_checked (success u) = success tt
  parent_checked (failure e) = failure (parent_denied e)

  unfoldable pub make_parent : List Text → Text → Bool → F (Unit {0})
  unfolding validate_file_access
  make_parent roots p false = pure tt
  make_parent roots p true = do
    lift (parent_checked (validate_file_access roots (fs.dir p)))
    do_mkdir (fs.dir p)

  -- handleFileWrite.
  unfoldable pub handle_file_write : List Text → Option WriteParams → F FileAnswer
  unfolding make_parent validate_file_access
  handle_file_write roots params = do
    p ← of_params params
    check_that (not (text_eq p.path [])) path_required
    lift (validate_file_access roots p.path)
    bytes ← lift (decoded_content (fs.decoded p.content))
    make_parent roots p.path p.create_dirs
    do_write p.path bytes (file_mode p.mode)
    pure (written p.path (length bytes))

  abbrev shown : Text → DirEntry → List (Text × Text × Bool × ℕ × ℕ)
  shown path entry = elim entry.info [
    | none ↦ []
    | some (size, time) ↦
        (entry.name, fs.to_slash (fs.joined (path ∷ entry.name ∷ [])), entry.is_dir, size, time)
        ∷ []
  ]

  unfoldable pub shown_entries : Text → List DirEntry → List (Text × Text × Bool × ℕ × ℕ)
  shown_entries path [] = []
  shown_entries path (e ∷ es) = shown path e ++ shown_entries path es

  unfoldable pub as_listing : Text → Result Text (List DirEntry) → Result FileError FileAnswer
  unfolding shown_entries
  as_listing p (success es) = success (listing (fs.to_slash p) (shown_entries p es))
  as_listing p (failure e) = failure (os_error e)

  unfoldable pub list_dir : List Text → Text → F FileAnswer
  unfolding validate_file_access as_listing
  list_dir roots p = do
    lift (validate_file_access roots p)
    λ log. (as_listing p (fs.read_dir log p), log ++ lists p ∷ [])

  abbrev pub is_bare_root : Text → Bool
  is_bare_root p = text_eq p [] || text_eq p (codes "/") || text_eq p (92 ∷ [])

  unfoldable pub at_root : List Text → Option (List Text) → F FileAnswer
  unfolding list_dir
  at_root roots (some drives) = pure (drive_list drives)
  at_root roots none = list_dir roots (codes "/")

  -- handleFileList.
  unfoldable pub handle_file_list : List Text → Option Text → F FileAnswer
  unfolding at_root list_dir
  handle_file_list roots params = do
    p ← of_params params
    if is_bare_root (fs.from_slash p)
        then at_root roots fs.drives
        else list_dir roots (fs.from_slash p)
