-- ===== src/SshKeys/Lines.antt =====
-- What upserting and removing a key do to the lines of an authorized_keys file (internal/agent/sshkeys.go).
use serverkit_agent.Base.{
  ℕ, suc, ◌+◌, if◌then◌else◌, Bool, true, false, ◌||◌, not, List, [], ◌∷◌, Text, text_eq,
  text_eq_sound, length, ◌≡◌, refl, ap, ◌∙◌, inl, inr, arith, Bool-cases,
}
use serverkit_agent.SshKeys.{SshKey, carries, upsert_lines, remove_lines}

-- How many lines carry the key.
unfoldable pub count : SshKey → List Text → ℕ
count k [] = 0
count k (l ∷ ls) = let rest = count k ls in if carries k l then suc rest else rest

-- The lines of an upsert: the first that carries the key is replaced, the others of it go, and without one the new
-- line stands last.
unfoldable pub replaced : SshKey → Text → List Text → List Text
unfolding remove_lines
replaced k new_line [] = new_line ∷ []
replaced k new_line (l ∷ ls) =
    let rest = replaced k new_line ls in
    if carries k l then new_line ∷ remove_lines k ls else l ∷ rest

upsert_lines-found :
    (k : SshKey) (new_line : Text) (ls : List Text)
    → (upsert_lines k new_line true ls).0 ≡ remove_lines k ls
unfolding upsert_lines remove_lines
upsert_lines-found k new_line [] = refl
upsert_lines-found k new_line (l ∷ ls) = elim (Bool-cases (carries k l)) [
  | inl e ↦ rw e (upsert_lines-found k new_line ls)
  | inr e ↦ rw e (ap (λ r. l ∷ r) (upsert_lines-found k new_line ls))
]

-- The loop of an upsert computes the plain description of its result.
pub upsert_lines-replaced :
    (k : SshKey) (new_line : Text) (ls : List Text)
    → (upsert_lines k new_line false ls).0 ≡ replaced k new_line ls
unfolding upsert_lines replaced
upsert_lines-replaced k new_line [] = refl
upsert_lines-replaced k new_line (l ∷ ls) = elim (Bool-cases (carries k l)) [
  | inl e ↦ rw e (ap (λ r. new_line ∷ r) (upsert_lines-found k new_line ls))
  | inr e ↦ rw e (ap (λ r. l ∷ r) (upsert_lines-replaced k new_line ls))
]

count_other :
    (k : SshKey) (l : Text) (ls : List Text) → carries k l ≡ false → count k (l ∷ ls) ≡ count k ls
unfolding count
count_other k l ls e = rw e refl

remove_lines_other :
    (k : SshKey) (l : Text) (ls : List Text)
    → carries k l ≡ false
    → remove_lines k (l ∷ ls) ≡ l ∷ remove_lines k ls
unfolding remove_lines
remove_lines_other k l ls e = rw e refl

remove_lines_carried :
    (k : SshKey) (l : Text) (ls : List Text)
    → carries k l ≡ true
    → remove_lines k (l ∷ ls) ≡ remove_lines k ls
unfolding remove_lines
remove_lines_carried k l ls e = rw e refl

-- A remove takes every line of the key and no other.
pub count-remove_lines : (k : SshKey) (ls : List Text) → count k (remove_lines k ls) ≡ 0
unfolding count remove_lines
count-remove_lines k [] = refl
count-remove_lines k (l ∷ ls) = elim (Bool-cases (carries k l)) [
  | inl e ↦ rw e (count-remove_lines k ls)
  | inr e ↦ rw e (count_other k l (remove_lines k ls) e ∙ count-remove_lines k ls)
]

pub length-remove_lines :
    (k : SshKey) (ls : List Text) → length (remove_lines k ls) + count k ls ≡ length ls
unfolding count remove_lines
length-remove_lines k [] = refl
length-remove_lines k (l ∷ ls) = elim (Bool-cases (carries k l)) [
  | inl e ↦ rw e (omega (arith, length-remove_lines k ls))
  | inr e ↦ rw e (omega (arith, length-remove_lines k ls))
]

remove_twice :
    (k : SshKey) (ls : List Text) → remove_lines k (remove_lines k ls) ≡ remove_lines k ls
unfolding remove_lines
remove_twice k [] = refl
remove_twice k (l ∷ ls) = elim (Bool-cases (carries k l)) [
  | inl e ↦ rw e (remove_twice k ls)
  | inr e ↦
      rw e (remove_lines_other k l (remove_lines k ls) e ∙ ap (λ r. l ∷ r) (remove_twice k ls))
]

-- The described result has the new line once, and every line of another key where it was.
pub remove_lines-replaced :
    (k : SshKey) (new_line : Text) (ls : List Text)
    → carries k new_line ≡ true
    → (count k (replaced k new_line ls) ≡ 1)
      × (remove_lines k (replaced k new_line ls) ≡ remove_lines k ls)
unfolding count replaced remove_lines
remove_lines-replaced k new_line [] h = (rw h refl, rw h refl)
remove_lines-replaced k new_line (l ∷ ls) h = elim (Bool-cases (carries k l)) [
  | inl e ↦ (rw (e, h) (ap suc (count-remove_lines k ls)), rw (e, h) (remove_twice k ls))
  | inr e ↦
      let (one, others) = remove_lines-replaced k new_line ls h in
      (
        rw e (count_other k l (replaced k new_line ls) e ∙ one),
        rw e (remove_lines_other k l (replaced k new_line ls) e ∙ ap (λ r. l ∷ r) others),
      )
]

neither : (a b : Bool) → (not a || b) ≡ false → (a ≡ true) × (b ≡ false)
neither a b h = ground arith

-- The flag that an upsert returns is false only where the lines are as they were.
pub upsert_lines-same :
    (k : SshKey) (new_line : Text) (found : Bool) (ls : List Text)
    → (upsert_lines k new_line found ls).1 ≡ false
    → (upsert_lines k new_line found ls).0 ≡ ls
unfolding upsert_lines
upsert_lines-same k new_line true [] h = refl
upsert_lines-same k new_line false [] h = absurd (cc h)
upsert_lines-same k new_line true (l ∷ ls) h = elim (Bool-cases (carries k l)) [
  | inl e ↦ absurd (cc (rw (e, upsert_lines) at h))
  | inr e ↦
      rw e (ap (λ r. l ∷ r) (upsert_lines-same k new_line true ls (rw (e, upsert_lines) at h)))
]
upsert_lines-same k new_line false (l ∷ ls) h = elim (Bool-cases (carries k l)) [
  | inl e ↦
      let (same, kept) =
        neither (text_eq l new_line) (upsert_lines k new_line true ls).1
          (rw (e, upsert_lines) at h) in
      rw (e, text_eq_sound l new_line same)
        (ap (λ r. new_line ∷ r) (upsert_lines-same k new_line true ls kept))
  | inr e ↦
      rw e (ap (λ r. l ∷ r) (upsert_lines-same k new_line false ls (rw (e, upsert_lines) at h)))
]
