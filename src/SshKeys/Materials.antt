-- ===== src/SshKeys/Materials.antt =====
-- An authorized_keys file as a set of key materials (internal/agent/sshkeys.go).
use serverkit_agent.Base.{
  Bool, true, false, ◌&&◌, ◌||◌, not, List, [], ◌∷◌, ◌++◌, Option, none, some, Text, text_eq,
  text_eq_iff, text_eq_sound, mem_text, mem-append, ◌≡◌, refl, sym, ap, ◌∙◌, arith, Bool-cases, inl,
  inr,
}
use serverkit_agent.SshKeys.{
  SshKey, material, parse_line, carries, same_key, upsert_lines, remove_lines,
}
use serverkit_agent.SshKeys.Lines.{replaced, upsert_lines-replaced}

-- The materials of a file's keys.
abbrev pub material_of : Option (SshKey × Text) → List Text
material_of none = []
material_of (some (k, options)) = material k ∷ []

unfoldable pub materials : List Text → List Text
materials [] = []
materials (l ∷ ls) = material_of (parse_line l) ++ materials ls

or-false : (b : Bool) → (b || false) ≡ b
or-false b = ground arith

mem_none : (m n : Text) → mem_text m [] ≡ (mem_text m [] && not (text_eq m n))
unfolding mem_text
mem_none m n = refl

-- A line that carries the key has the key's material, and any other line has another or none.
same_key-material :
    (m : Text) (k : SshKey) (o : Option (SshKey × Text))
    → same_key o k ≡ true
    → mem_text m (material_of o) ≡ text_eq m (material k)
unfolding mem_text
same_key-material m k none h = absurd (cc h)
same_key-material m k (some (found, options)) h =
    rw (text_eq_sound (material found) (material k) h) (or-false (text_eq m (material k)))

other_key-material :
    (m : Text) (k : SshKey) (o : Option (SshKey × Text))
    → same_key o k ≡ false
    → text_eq m (material k) ≡ true
    → mem_text m (material_of o) ≡ false
unfolding mem_text
other_key-material m k none h e = refl
other_key-material m k (some (found, options)) h e =
    elim (Bool-cases (text_eq m (material found))) [
      | inl q ↦
          let p = text_eq_sound m (material k) e in
          let r = text_eq_sound m (material found) q in
          let s = (text_eq_iff (material found) (material k)).1 (sym r ∙ p) in absurd (cc (h, s))
      | inr q ↦ rw q refl
    ]

carries-material :
    (m : Text) (k : SshKey) (l : Text)
    → carries k l ≡ true
    → mem_text m (material_of (parse_line l)) ≡ text_eq m (material k)
unfolding carries
carries-material m k l h = same_key-material m k (parse_line l) h

not_carries-material :
    (m : Text) (k : SshKey) (l : Text)
    → carries k l ≡ false
    → text_eq m (material k) ≡ true
    → mem_text m (material_of (parse_line l)) ≡ false
unfolding carries
not_carries-material m k l h e = other_key-material m k (parse_line l) h e

materials_cons :
    (m l : Text) (ls : List Text)
    → mem_text m (materials (l ∷ ls))
      ≡ (mem_text m (material_of (parse_line l)) || mem_text m (materials ls))
unfolding materials
materials_cons m l ls = mem-append m (material_of (parse_line l)) (materials ls)

-- As sets of materials, a remove takes the key's material away.
pub materials-remove_lines :
    (m : Text) (k : SshKey) (ls : List Text)
    → mem_text m (materials (remove_lines k ls))
      ≡ (mem_text m (materials ls) && not (text_eq m (material k)))
unfolding remove_lines materials
materials-remove_lines m k [] = mem_none m (material k)
materials-remove_lines m k (l ∷ ls) = elim (Bool-cases (carries k l)) [
  | inl e ↦
      let a = carries-material m k l e in
      let b = materials_cons m l ls in
      let ih = materials-remove_lines m k ls in rw e (ground (arith, a, b, ih))
  | inr e ↦
      let a = not_carries-material m k l e in
      let b = materials_cons m l ls in
      let c = materials_cons m l (remove_lines k ls) in
      let ih = materials-remove_lines m k ls in rw e (ground (arith, a, b, c, ih))
]

materials_one :
    (m : Text) (k : SshKey) (l : Text)
    → carries k l ≡ true
    → mem_text m (materials (l ∷ [])) ≡ (text_eq m (material k) || mem_text m (materials []))
unfolding materials
materials_one m k l h =
    mem-append m (material_of (parse_line l)) []
    ∙ ap (λ b. b || mem_text m []) (carries-material m k l h)

materials-replaced :
    (m : Text) (k : SshKey) (new_line : Text) (ls : List Text)
    → carries k new_line ≡ true
    → mem_text m (materials (replaced k new_line ls))
      ≡ (text_eq m (material k) || mem_text m (materials ls))
unfolding replaced
materials-replaced m k new_line [] h = materials_one m k new_line h
materials-replaced m k new_line (l ∷ ls) h = elim (Bool-cases (carries k l)) [
  | inl e ↦
      let a = carries-material m k new_line h in
      let b = materials_cons m new_line (remove_lines k ls) in
      let c = materials-remove_lines m k ls in
      let d = materials_cons m l ls in
      let f = carries-material m k l e in rw e (ground (arith, a, b, c, d, f))
  | inr e ↦
      let a = materials_cons m l ls in
      let b = materials_cons m l (replaced k new_line ls) in
      let ih = materials-replaced m k new_line ls h in rw e (ground (arith, a, b, ih))
]

-- As sets of materials, an upsert adds the key's material and keeps all others.
pub materials-upsert_lines :
    (m : Text) (k : SshKey) (new_line : Text) (ls : List Text)
    → carries k new_line ≡ true
    → mem_text m (materials (upsert_lines k new_line false ls).0)
      ≡ (text_eq m (material k) || mem_text m (materials ls))
materials-upsert_lines m k new_line ls h =
    ap (λ r. mem_text m (materials r)) (upsert_lines-replaced k new_line ls)
    ∙ materials-replaced m k new_line ls h
