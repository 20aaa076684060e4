-- ===== src/SshKeys/Adding.antt =====
-- What adding a key that a request gives does to an authorized_keys file (internal/agent/sshkeys.go).
use serverkit_agent.Base.{
  ◌||◌, Bool, true, false, List, [], none, Text, text_eq, text_eq_refl, mem_text, fields, ◌≡◌, sym,
  ap, ◌∙◌, ◌⊎◌,
}
use mathlib.Core.Path.{subst}
use serverkit_agent.Base.Results.{success}
use serverkit_agent.SshKeys.{
  SshKey, material, parse_public_key, validate_options, format_line, first_is_type, carries,
  same_key, upsert_lines, remove_lines,
}
use serverkit_agent.SshKeys.Lines.{count, upsert_lines-replaced, remove_lines-replaced}
use serverkit_agent.SshKeys.Materials.{materials, materials-upsert_lines}
use serverkit_agent.SshKeys.Format.{parse_line-format_line}

module _ (decodes : Text → Bool) (source : Text) (k : SshKey) (options : List Text) where
  abbrev pub IsPlain : Type 0
  IsPlain = (options ≡ []) ⊎ (first_is_type (fields (format_line k options)) ≡ false)

  carries-format_line :
      parse_public_key decodes source ≡ success k
      → validate_options options ≡ none
      → IsPlain
      → carries k (format_line k options) ≡ true
  unfolding carries
  carries-format_line h v plain =
      ap (λ o. same_key o k) (parse_line-format_line decodes source k options h v plain)
      ∙ text_eq_refl (material k)

  -- Adding a key that a request gives, with options whose first word is no key type, leaves one line of that key, and
  -- the lines of other keys as they were and in their order.
  pub upsert_lines_once :
      (ls : List Text)
      → parse_public_key decodes source ≡ success k
      → validate_options options ≡ none
      → IsPlain
      → (count k (upsert_lines k (format_line k options) false ls).0 ≡ 1)
        × (remove_lines k (upsert_lines k (format_line k options) false ls).0 ≡ remove_lines k ls)
  upsert_lines_once ls h v plain =
      subst (λ out. (count k out ≡ 1) × (remove_lines k out ≡ remove_lines k ls))
        (sym (upsert_lines-replaced k (format_line k options) ls))
        (remove_lines-replaced k (format_line k options) ls (carries-format_line h v plain))

  -- As sets of materials, adding a key that a request gives, with options whose first word is no key type, adds its
  -- material and keeps all others.
  pub materials-upsert :
      (m : Text) (ls : List Text)
      → parse_public_key decodes source ≡ success k
      → validate_options options ≡ none
      → IsPlain
      → mem_text m (materials (upsert_lines k (format_line k options) false ls).0)
        ≡ (text_eq m (material k) || mem_text m (materials ls))
  materials-upsert m ls h v plain =
      materials-upsert_lines m k (format_line k options) ls (carries-format_line h v plain)
