-- ===== src/Files/Roots.antt =====
-- Which paths the allowed roots let through (internal/agent/file_handlers.go).
use serverkit_agent.Base.Parts.{
  or_cases, or_true, has_prefix_sound, has_prefix-append, trim_right_by-split,
}
use mathlib.Core.Path.{subst}
use serverkit_agent.Base.{
  ℕ, zero, suc, none, length, All, ◌≢◌, if◌then◌else◌, Bool, true, false, ◌||◌, List, [], ◌∷◌, ◌++◌,
  some, Text, text_eq, text_eq_sound, text_eq_iff, text_eq_refl, mem_text, trim_space,
  trim_right_by, has_prefix, ◌≡◌, sym, ap, ◌∙◌, ◌⊎◌, ◌↔◌, inl, inr, arith, Bool-cases, Option-cases,
  ==_iff,
}
use serverkit_agent.Base.Results.{Result, success, failure}
use serverkit_agent.Files.{
  FileSystem, FileError, denied, within, is_separator, root_allows, allowed_target, resolve_from,
  resolve_abs, after_abs, resolve_symlink_path, path_within_allowed_root, some_root_allows,
  validate_file_access,
}

module _ (fs : FileSystem) where
  only_separators :
      (ends : Text) → All (λ c. is_separator fs c ≡ true) ends → All (λ c. c ≡ fs.separator) ends
  only_separators [] h = tt
  only_separators (c ∷ ends) (h, hs) = ((==_iff c fs.separator).0 h, only_separators ends hs)

  within_iff :
      (target allowed : Text)
      → (within fs target allowed ≡ true) ↔ (
          (target ≡ allowed)
          ⊎ ((rest : Text) × (target
                ≡ (trim_right_by (is_separator fs) allowed ++ fs.separator ∷ []) ++ rest)))
  within_iff target allowed =
      let stem = trim_right_by (is_separator fs) allowed ++ fs.separator ∷ [] in
      (
        λ h. elim (or_cases (text_eq target allowed) (has_prefix target stem) h) [
          | inl e ↦ inl (text_eq_sound target allowed e)
          | inr e ↦ inr (has_prefix_sound target stem e)
        ],
        λ c. elim c [
          | inl e ↦ ap (λ b. b || has_prefix target stem) ((text_eq_iff target allowed).1 e)
          | inr (rest, e) ↦
              or_true (text_eq target allowed) (has_prefix target stem)
                (ap (λ t. has_prefix t stem) e ∙ has_prefix-append stem rest)
        ],
      )

  -- On a system that is not Windows, a target is within a root when it is the root or stands under it, the root's
  -- trailing separators aside and with a separator between: `/srv2` is not within `/srv`.
  pub path_within_allowed_root_iff :
      (target allowed : Text)
      → fs.windows ≡ false
      → (path_within_allowed_root fs target allowed ≡ true) ↔ (
          (target ≡ allowed)
          ⊎ ((rest : Text) × (target
                ≡ (trim_right_by (is_separator fs) allowed ++ fs.separator ∷ []) ++ rest)))
  unfolding path_within_allowed_root
  path_within_allowed_root_iff target allowed w =
      let same : path_within_allowed_root fs target allowed ≡ within fs target allowed =
        ap
          (λ b.
            if b
            then within fs (fs.lowered target) (fs.lowered allowed)
            else within fs target allowed)
          w in
      let (forth, back) = within_iff target allowed in
      (λ h. forth (sym same ∙ h), λ c. same ∙ back c)

  -- What stands for a path in a comparison: on Windows in lower case.
  abbrev pub compared : Text → Text
  compared t = if fs.windows then fs.lowered t else t

  -- A path that is a root, or stands under it with a separator between; the root may end in separators.
  abbrev pub Under : Text → Text → Type 0
  Under target root =
      (target ≡ root)
      ⊎ ((stem ends rest : Text) × (root ≡ stem ++ ends)
          × All (λ c. c ≡ fs.separator) ends
          × (target ≡ (stem ++ fs.separator ∷ []) ++ rest))

  -- Where a path that is not there leads, from a directory above it and the names below: to what the nearest directory
  -- that is there evaluates to, with the missing names.
  pub data Nearest (abs : Text) : Text → Text → Text → Type 0 where
    none_there : {d names : Text} → fs.dir d ≡ d → Nearest abs d names abs
    there :
        {d names resolved : Text}
        → fs.dir d ≢ d
        → fs.eval_symlinks (fs.dir d) ≡ some resolved
        → Nearest abs d names (fs.joined (resolved ∷ fs.base d ∷ names ∷ []))
    above :
        {d names target : Text}
        → fs.dir d ≢ d
        → fs.eval_symlinks (fs.dir d) ≡ none
        → Nearest abs (fs.dir d) (fs.joined (fs.base d ∷ names ∷ [])) target
        → Nearest abs d names target

  -- Where a path leads: to what EvalSymlinks gives, or as above where that fails.
  pub data Leads (p : Text) : Text → Type 0 where
    evaluated :
        {abs target : Text}
        → fs.abs_clean p ≡ some abs
        → fs.eval_symlinks abs ≡ some target
        → Leads p target
    missing :
        {abs target : Text}
        → fs.abs_clean p ≡ some abs
        → fs.eval_symlinks abs ≡ none
        → Nearest abs abs [] target
        → Leads p target

  unequal : (a b : Text) → text_eq a b ≡ false → a ≢ b
  unequal a b h e = absurd (cc (sym ((text_eq_iff a b).1 e) ∙ h))

  resolve_from-Nearest :
      (fuel : ℕ) (abs d names target : Text)
      → resolve_from fs fuel abs d names ≡ some target
      → Nearest abs d names target
  unfolding resolve_from
  resolve_from-Nearest zero abs d names target h = absurd (cc h)
  resolve_from-Nearest (suc fuel) abs d names target h = elim (Bool-cases (text_eq (fs.dir d) d)) [
    | inl e ↦
        let same : abs ≡ target = ground arith in
        subst (Nearest abs d names) same (none_there (text_eq_sound (fs.dir d) d e))
    | inr e ↦ elim (Option-cases (fs.eval_symlinks (fs.dir d))) [
      | inl n ↦ above (unequal (fs.dir d) d e) n (
          resolve_from-Nearest fuel abs (fs.dir d) (fs.joined (fs.base d ∷ names ∷ [])) target
            (rw (e, n, resolve_from) at h))
      | inr (resolved, q) ↦
          let same : fs.joined (resolved ∷ fs.base d ∷ names ∷ []) ≡ target = ground arith in
          subst (Nearest abs d names) same (there (unequal (fs.dir d) d e) q)
    ]
  ]

  -- A path that resolves is resolved to where it leads.
  pub resolve_symlink_path-Leads :
      (p target : Text) → resolve_symlink_path fs p ≡ some target → Leads p target
  unfolding resolve_symlink_path after_abs resolve_abs
  resolve_symlink_path-Leads p target h = elim (Option-cases (fs.abs_clean p)) [
    | inl e ↦ absurd (cc (sym (ap (after_abs fs) e) ∙ h))
    | inr (abs, e) ↦ elim (Option-cases (fs.eval_symlinks abs)) [
      | inr (resolved, q) ↦
          let same : some resolved ≡ some target =
            sym (ap (after_abs fs) e ∙ ap (λ o. resolve_abs fs o abs) q) ∙ h in
          evaluated e (q ∙ same)
      | inl q ↦ missing e q (
          resolve_from-Nearest (suc (length abs)) abs abs [] target
            (sym (ap (after_abs fs) e ∙ ap (λ o. resolve_abs fs o abs) q) ∙ h))
    ]
  ]

  within-Under : (target root : Text) → within fs target root ≡ true → Under target root
  within-Under target root h =
      let (pad, e, ends) = trim_right_by-split (is_separator fs) root in
      elim ((within_iff target root).0 h) [
        | inl e ↦ inl e
        | inr (rest, t) ↦
            inr (trim_right_by (is_separator fs) root, pad, rest, e, only_separators pad ends, t)
      ]

  path_within_allowed_root-Under :
      (target root : Text)
      → path_within_allowed_root fs target root ≡ true
      → Under (compared target) (compared root)
  unfolding path_within_allowed_root
  path_within_allowed_root-Under target root h = elim (Bool-cases fs.windows) [
    | inl e ↦ rw e (within-Under (fs.lowered target) (fs.lowered root) (rw e at h))
    | inr e ↦ rw e (within-Under target root (rw e at h))
  ]

  -- A path that leads into what one of the roots leads to, of those that are not blank.
  abbrev pub Permitted : List Text → Text → Type 0
  Permitted roots p =
      (target root real : Text) × Leads p target
      × (mem_text root roots ≡ true)
      × (trim_space root ≢ [])
      × Leads root real
      × Under (compared target) (compared real)

  -- A root that lets a target through.
  abbrev Covers : List Text → Text → Type 0
  Covers roots target =
      (root real : Text) × (mem_text root roots ≡ true)
      × (trim_space root ≢ [])
      × (resolve_symlink_path fs root ≡ some real)
      × (path_within_allowed_root fs target real ≡ true)

  covered_by_rest : (r target : Text) (rs : List Text) → Covers rs target → Covers (r ∷ rs) target
  unfolding mem_text
  covered_by_rest r target rs (root, real, m, b, e, w) =
      (root, real, or_true (text_eq root r) (mem_text root rs) m, b, e, w)

  covered_by_root :
      (r target : Text) (rs : List Text)
      → trim_space r ≢ []
      → root_allows fs target (resolve_symlink_path fs r) ≡ true
      → Covers (r ∷ rs) target
  unfolding mem_text root_allows
  covered_by_root r target rs full h = elim (Option-cases (resolve_symlink_path fs r)) [
    | inl e ↦ absurd (cc (sym (ap (root_allows fs target) e) ∙ h))
    | inr (real, e) ↦ (
      r,
      real,
      ap (λ b. b || mem_text r rs) (text_eq_refl r),
      full,
      e,
      sym (ap (root_allows fs target) e) ∙ h,
    )
  ]

  some_root_allows-Covers :
      (target : Text) (roots : List Text)
      → some_root_allows fs target roots ≡ true
      → Covers roots target
  unfolding some_root_allows
  some_root_allows-Covers target [] h = absurd (cc h)
  some_root_allows-Covers target (r ∷ rs) h = elim (Bool-cases (text_eq (trim_space r) [])) [
    | inl e ↦
        covered_by_rest r target rs
          (some_root_allows-Covers target rs (rw (e, some_root_allows) at h))
    | inr e ↦
        elim (or_cases (root_allows fs target (resolve_symlink_path fs r))
          (some_root_allows fs target rs) (rw (e, some_root_allows) at h)) [
            | inl a ↦ covered_by_root r target rs (unequal (trim_space r) [] e) a
            | inr b ↦ covered_by_rest r target rs (some_root_allows-Covers target rs b)
          ]
  ]

  pub validate_file_access-Permitted :
      (roots : List Text) (p : Text)
      → validate_file_access fs roots p ≡ success tt
      → Permitted roots p
  unfolding validate_file_access allowed_target
  validate_file_access-Permitted [] p h = absurd (cc h)
  validate_file_access-Permitted (r ∷ rs) p h = elim (Option-cases (resolve_symlink_path fs p)) [
    | inl e ↦ absurd (cc (sym (ap (allowed_target fs p (r ∷ rs)) e) ∙ h))
    | inr (target, e) ↦ elim (Bool-cases (some_root_allows fs target (r ∷ rs))) [
      | inl b ↦
          let (root, real, m, full, q, w) = some_root_allows-Covers target (r ∷ rs) b in
          (
            target,
            root,
            real,
            resolve_symlink_path-Leads p target e,
            m,
            full,
            resolve_symlink_path-Leads root real q,
            path_within_allowed_root-Under target real w,
          )
      | inr b ↦
          let answer : Bool → Result FileError (Unit {0}) =
            λ c. if c then success tt else failure (denied p) in
          absurd (cc (sym (ap (allowed_target fs p (r ∷ rs)) e ∙ ap answer b) ∙ h))
    ]
  ]
