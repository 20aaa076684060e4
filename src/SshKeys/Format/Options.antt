-- ===== src/SshKeys/Format/Options.antt =====
-- Where the options field of an authorized_keys line ends (internal/agent/sshkeys.go).
use serverkit_agent.Base.{
  ℕ, ◌==◌, Bool, true, false, ◌&&◌, ◌||◌, not, List, [], ◌∷◌, ◌++◌, Option, none, some, Text, codes,
  join, ◌≡◌, refl, sym, ap, ◌∙◌, arith, Bool-cases, inl, inr, append_assoc, append-nil, All,
  &&-eq-true,
}
use serverkit_agent.SshKeys.{
  valid_option, validate_options, option_rest, quoted_value, value_rest, cut_options, push_char,
  option_char, ends,
}

-- A front before what is cut.
abbrev prepend : Text → Option (Text × Text) → Option (Text × Text)
prepend front none = none
prepend front (some (f, r)) = some (front ++ f, r)

push_char-prepend :
    (c : ℕ) (front : Text) (o : Option (Text × Text))
    → push_char c (prepend front o) ≡ prepend (c ∷ front) o
push_char-prepend c front none = refl
push_char-prepend c front (some (f, r)) = refl

prepend_nil : (o : Option (Text × Text)) → prepend [] o ≡ o
prepend_nil none = refl
prepend_nil (some (f, r)) = refl

-- One character of the options field.
abbrev blank : ℕ → Bool
blank c = (c == 32) || (c == 9)

cut_options_inner :
    (q : Bool) (c : ℕ) (s : Text)
    → (c == b'"') ≡ false
    → (not q && blank c) ≡ false
    → cut_options q (c ∷ s) ≡ push_char c (cut_options q s)
unfolding cut_options
cut_options_inner q c s h k = rw (h, k) refl

cut_options_quote :
    (q : Bool) (c : ℕ) (s : Text)
    → (c == b'"') ≡ true
    → cut_options q (c ∷ s) ≡ push_char c (cut_options (not q) s)
unfolding cut_options
cut_options_quote q c s h = rw h refl

-- A quoted value is passed over, to its end.
cut_options-value_rest :
    (v s : Text) → value_rest v ≡ true → cut_options true (v ++ s) ≡ prepend v (cut_options false s)
unfolding value_rest
cut_options-value_rest [] s h = absurd (cc h)
cut_options-value_rest (c ∷ v) s h = elim (Bool-cases (c == b'"')) [
  | inl e ↦ cut_options_quote true c (v ++ s) e ∙ closed c v s (rw (e, value_rest) at h)
  | inr e ↦
      cut_options_inner true c (v ++ s) e refl
      ∙ ap (push_char c)
          (cut_options-value_rest v s (&&-eq-true _ (value_rest v) (rw (e, value_rest) at h)).1)
      ∙ push_char-prepend c v (cut_options false s)
]
  where
    closed :
        (c : ℕ) (v s : Text)
        → ends v ≡ true
        → push_char c (cut_options false (v ++ s)) ≡ prepend (c ∷ v) (cut_options false s)
    closed c [] s h =
        ap (push_char c) (sym (prepend_nil (cut_options false s)))
        ∙ push_char-prepend c [] (cut_options false s)
    closed c (d ∷ v) s h = absurd (cc h)

cut_options-quoted_value :
    (v s : Text)
    → quoted_value v ≡ true
    → cut_options false (v ++ s) ≡ prepend v (cut_options false s)
unfolding quoted_value
cut_options-quoted_value [] s h = absurd (cc h)
cut_options-quoted_value (c ∷ v) s h =
    let (e, rest) = &&-eq-true (c == b'"') (value_rest v) h in
    cut_options_quote false c (v ++ s) e
    ∙ ap (push_char c) (cut_options-value_rest v s rest)
    ∙ push_char-prepend c v (cut_options false s)

option_char_plain : (c : ℕ) → option_char c ≡ true → ((c == b'"') ≡ false) × (blank c ≡ false)
option_char_plain c h = ground arith

equals_plain : (c : ℕ) → (c == b'=') ≡ true → ((c == b'"') ≡ false) × (blank c ≡ false)
equals_plain c h = ground arith

cut_options_plain :
    (c : ℕ) (v s : Text)
    → ((c == b'"') ≡ false) × (blank c ≡ false)
    → cut_options false (v ++ s) ≡ prepend v (cut_options false s)
    → cut_options false (c ∷ (v ++ s)) ≡ prepend (c ∷ v) (cut_options false s)
cut_options_plain c v s (h, k) ih =
    cut_options_inner false c (v ++ s) h k
    ∙ ap (push_char c) ih
    ∙ push_char-prepend c v (cut_options false s)

cut_options-option_rest :
    (v s : Text)
    → option_rest v ≡ true
    → cut_options false (v ++ s) ≡ prepend v (cut_options false s)
unfolding option_rest
cut_options-option_rest [] s h = sym (prepend_nil (cut_options false s))
cut_options-option_rest (c ∷ v) s h = elim (Bool-cases (option_char c)) [
  | inl e ↦
      cut_options_plain c v s (option_char_plain c e)
        (cut_options-option_rest v s (rw (e, option_rest) at h))
  | inr e ↦
      let (q, rest) = &&-eq-true (c == b'=') (quoted_value v) (rw (e, option_rest) at h) in
      cut_options_plain c v s (equals_plain c q) (cut_options-quoted_value v s rest)
]

cut_options-option :
    (v s : Text)
    → valid_option v ≡ true
    → cut_options false (v ++ s) ≡ prepend v (cut_options false s)
unfolding valid_option
cut_options-option [] s h = absurd (cc h)
cut_options-option (c ∷ v) s h =
    let (e, rest) = &&-eq-true _ (option_rest v) h in
    let letter_plain : ((c == b'"') ≡ false) × (blank c ≡ false) = ground arith in
    cut_options_plain c v s letter_plain (cut_options-option_rest v s rest)

abbrev pub IsOption : Text → Type 0
IsOption v = valid_option v ≡ true

pub validate_options-IsOption : (os : List Text) → validate_options os ≡ none → All IsOption os
unfolding validate_options
validate_options-IsOption [] h = tt
validate_options-IsOption (o ∷ os) h = elim (Bool-cases (valid_option o)) [
  | inl e ↦ (e, validate_options-IsOption os (rw (e, validate_options) at h))
  | inr e ↦ absurd (cc (rw (e, validate_options) at h))
]

cut_options_blank : (s : Text) → cut_options false (32 ∷ s) ≡ some ([], 32 ∷ s)
unfolding cut_options
cut_options_blank s = refl

-- Options that are joined by commas are cut at the blank after them.
pub cut_options-join :
    (o : Text) (os : List Text) (s : Text)
    → All IsOption (o ∷ os)
    → cut_options false (join (codes ",") (o ∷ os) ++ 32 ∷ s)
      ≡ some (join (codes ",") (o ∷ os), 32 ∷ s)
unfolding join
cut_options-join o [] s (h, hs) =
    cut_options-option o (32 ∷ s) h
    ∙ ap (prepend o) (cut_options_blank s)
    ∙ ap (λ f. some (f, 32 ∷ s)) (append-nil o)
cut_options-join o (p ∷ os) s (h, hs) =
    let rest = join (codes ",") (p ∷ os) in
    ap (cut_options false)
      (append_assoc (o ++ codes ",") rest (32 ∷ s) ∙ append_assoc o (codes ",") (rest ++ 32 ∷ s))
    ∙ cut_options-option o (44 ∷ (rest ++ 32 ∷ s)) h
    ∙ ap (prepend o) (
        cut_options_inner false 44 (rest ++ 32 ∷ s) refl refl
        ∙ ap (push_char 44) (cut_options-join p os s hs))
    ∙ ap (λ f. some (f, 32 ∷ s)) (sym (append_assoc o (codes ",") rest))
