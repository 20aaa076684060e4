-- ===== src/Files/Resolving.antt =====
-- Resolving a path ends (resolveSymlinkPath of internal/agent/file_handlers.go).
use serverkit_agent.Base.{
  ℕ, zero, suc, ◌<◌, [], ◌∷◌, Option, none, some, Text, text_eq, text_eq_iff, length, ◌≡◌, refl, ap,
  ◌∙◌, ◌⊎◌, inl, inr, arith, Bool-cases, Option-cases,
}
use serverkit_agent.Files.{
  FileSystem, resolve_from, resolve_symlink_path, after_abs, found_parent, resolve_abs,
}

-- What filepath.Dir and filepath.Abs document of absolute paths: the parent of one is shorter, or it is the path itself.
pub record Rooted (fs : FileSystem) : Type 1 where
  pub IsRooted : Text → Type 0
  pub abs_rooted : (p a : Text) → fs.abs_clean p ≡ some a → IsRooted a
  pub dir_rooted : (p : Text) → IsRooted p → IsRooted (fs.dir p)
  pub dir_shorter : (p : Text) → IsRooted p → (fs.dir p ≡ p) ⊎ (length (fs.dir p) < length p)

module _ (fs : FileSystem) (rooted : Rooted fs) where
  found_parent_total :
      (suffix name : Text) (o rest : Option Text)
      → ((r : Text) × (rest ≡ some r))
      → (r : Text) × (found_parent fs suffix name o rest ≡ some r)
  found_parent_total suffix name none rest h = h
  found_parent_total suffix name (some resolved) rest h = (_, refl)

  resolve_from-total :
      (fuel : ℕ) (abs d suffix : Text)
      → rooted.IsRooted d
      → length d < fuel
      → (r : Text) × (resolve_from fs fuel abs d suffix ≡ some r)
  unfolding resolve_from
  resolve_from-total zero abs d suffix h n = absurd (omega arith)
  resolve_from-total (suc fuel) abs d suffix h n = elim (rooted.dir_shorter d h) [
    | inl e ↦ (abs, rw ((text_eq_iff (fs.dir d) d).1 e) refl)
    | inr shorter ↦
        let ih =
          resolve_from-total fuel abs (fs.dir d) (fs.joined (fs.base d ∷ suffix ∷ []))
            (rooted.dir_rooted d h) (omega arith) in
        elim (Bool-cases (text_eq (fs.dir d) d)) [
          | inl e ↦ (abs, rw e refl)
          | inr e ↦
              let (r, q) =
                found_parent_total suffix (fs.base d) (fs.eval_symlinks (fs.dir d)) _ ih in
              (r, rw e q)
        ]
  ]

  -- Resolving the symbolic links of a path ends for every path that filepath.Abs accepts, with as many rounds as the
  -- absolute path has characters, and one.
  pub resolve_symlink_path-total :
      (p a : Text) → fs.abs_clean p ≡ some a → (r : Text) × (resolve_symlink_path fs p ≡ some r)
  unfolding resolve_symlink_path after_abs resolve_abs
  resolve_symlink_path-total p a h = elim (Option-cases (fs.eval_symlinks a)) [
    | inl e ↦
        let (r, q) =
          resolve_from-total (suc (length a)) a a [] (rooted.abs_rooted p a h) (omega arith) in
        (r, ap (after_abs fs) h ∙ ap (λ o. resolve_abs fs o a) e ∙ q)
    | inr (resolved, e) ↦ (resolved, ap (after_abs fs) h ∙ ap (λ o. resolve_abs fs o a) e)
  ]
