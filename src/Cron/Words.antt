-- ===== src/Cron/Words.antt =====
-- strings.Fields and strings.TrimSpace on rows of words, as internal/cron/cron_parse.go uses them.
use serverkit_agent.Base.{
  ℕ, if◌then◌else◌, true, false, List, [], ◌∷◌, ◌++◌, Text, is_space, trim_space, trim_left,
  trim_right_by, keep_if, join, fields, cons_first, starts_word, All, Bool-cases, inl, inr,
  append_assoc, ◌≡◌, refl, sym, ap, ◌∙◌,
}
use serverkit_agent.Cron.{space}

-- A word: some characters, none of them a space.
abbrev pub IsWord : Text → Type 0
IsWord [] = ⊥
IsWord (c ∷ s) = (is_space c ≡ false) × All (λ d. is_space d ≡ false) s

pub fields-space : (c : ℕ) (s : Text) → is_space c ≡ true → fields (c ∷ s) ≡ fields s
unfolding fields
fields-space c s h = rw h refl

pub fields-start :
    (c : ℕ) (s : Text)
    → is_space c ≡ false
    → fields (c ∷ s) ≡ (if starts_word s then cons_first c (fields s) else (c ∷ []) ∷ fields s)
unfolding fields
fields-start c s h = rw h refl

-- A character before another of its word.
pub fields-inner :
    (c d : ℕ) (s : Text)
    → is_space c ≡ false
    → is_space d ≡ false
    → fields (c ∷ d ∷ s) ≡ cons_first c (fields (d ∷ s))
fields-inner c d s h hd = fields-start c (d ∷ s) h ∙ rw hd refl

pub space_lem : is_space 32 ≡ true
unfolding is_space
space_lem = refl

-- A word before a space is the first field.
pub fields-word : (w rest : Text) → IsWord w → fields (w ++ 32 ∷ rest) ≡ w ∷ fields rest
fields-word [] rest h = absurd h
fields-word (c ∷ []) rest (h, _) =
    fields-start c (32 ∷ rest) h ∙ rw (space_lem, fields-space 32 rest space_lem) refl
fields-word (c ∷ d ∷ w) rest (h, (hd, hs)) =
    fields-inner c d (w ++ 32 ∷ rest) h hd ∙ ap (cons_first c) (fields-word (d ∷ w) rest (hd, hs))

pub fields-one : (w : Text) → IsWord w → fields w ≡ w ∷ []
unfolding fields
fields-one [] h = absurd h
fields-one (c ∷ []) (h, _) = rw h refl
fields-one (c ∷ d ∷ w) (h, (hd, hs)) =
    fields-inner c d w h hd ∙ ap (cons_first c) (fields-one (d ∷ w) (hd, hs))

pub fields_nil : fields [] ≡ []
unfolding fields
fields_nil = refl

-- Words that are joined by a space are the fields.
pub fields-join : (ws : List Text) → All IsWord ws → fields (join space ws) ≡ ws
unfolding join
fields-join [] h = fields_nil
fields-join (w ∷ []) (h, _) = fields-one w h
fields-join (w ∷ v ∷ ws) (h, hs) =
    ap fields (append_assoc w space (join space (v ∷ ws)))
    ∙ fields-word w (join space (v ∷ ws)) h
    ∙ ap (λ r. w ∷ r) (fields-join (v ∷ ws) hs)

pub cons_first-words :
    (c : ℕ) (ls : List Text) → is_space c ≡ false → All IsWord ls → All IsWord (cons_first c ls)
cons_first-words c [] e h = ((e, tt), tt)
cons_first-words c ([] ∷ ls) e (h, hs) = absurd h
cons_first-words c ((d ∷ l) ∷ ls) e (h, hs) = ((e, h), hs)

-- The fields are words.
pub fields-words : (s : Text) → All IsWord (fields s)
unfolding fields
fields-words [] = tt
fields-words (c ∷ s) = elim (Bool-cases (is_space c)) [
  | inl e ↦ rw e (fields-words s)
  | inr e ↦ elim (Bool-cases (starts_word s)) [
    | inl st ↦ rw (e, st) (cons_first-words c (fields s) e (fields-words s))
    | inr st ↦ rw (e, st) ((e, tt), fields-words s)
  ]
]

pub starts-keep_if : (c : ℕ) (r : Text) → is_space c ≡ false → keep_if is_space c r ≡ c ∷ r
starts-keep_if c [] h = rw h refl
starts-keep_if c (d ∷ r) h = refl

pub trim_left-space : (c : ℕ) (s : Text) → is_space c ≡ true → trim_left (c ∷ s) ≡ trim_left s
unfolding trim_left
trim_left-space c s h = rw h refl

pub trim_left-start : (c : ℕ) (s : Text) → is_space c ≡ false → trim_left (c ∷ s) ≡ c ∷ s
unfolding trim_left
trim_left-start c s h = rw h refl

-- Cutting the spaces around a text changes no field.
pub trim_left_nil : trim_left [] ≡ []
unfolding trim_left
trim_left_nil = refl

pub fields-trim_left : (s : Text) → fields (trim_left s) ≡ fields s
fields-trim_left [] = ap fields trim_left_nil
fields-trim_left (c ∷ s) = elim (Bool-cases (is_space c)) [
  | inl e ↦ ap fields (trim_left-space c s e) ∙ fields-trim_left s ∙ sym (fields-space c s e)
  | inr e ↦ ap fields (trim_left-start c s e)
]

pub starts-keep :
    (c : ℕ) (r : Text) → starts_word (keep_if is_space c r) ≡ (if is_space c then false else true)
starts-keep c [] = elim (Bool-cases (is_space c)) [
  | inl e ↦ rw e refl
  | inr e ↦ ap starts_word (starts-keep_if c [] e)
]
starts-keep c (d ∷ r) = refl

pub starts-trim_right : (s : Text) → starts_word (trim_right_by is_space s) ≡ starts_word s
unfolding trim_right_by
starts-trim_right [] = refl
starts-trim_right (c ∷ s) = starts-keep c (trim_right_by is_space s)

pub fields-keep_if : (c : ℕ) (r : Text) → fields (keep_if is_space c r) ≡ fields (c ∷ r)
fields-keep_if c [] = elim (Bool-cases (is_space c)) [
  | inl e ↦ rw e (sym (fields-space c [] e))
  | inr e ↦ ap fields (starts-keep_if c [] e)
]
fields-keep_if c (d ∷ r) = refl

pub fields_cong :
    (c : ℕ) (s t : Text)
    → fields s ≡ fields t
    → starts_word s ≡ starts_word t
    → fields (c ∷ s) ≡ fields (c ∷ t)
unfolding fields
fields_cong c s t h st = rw (h, st) refl

pub fields-trim_right : (s : Text) → fields (trim_right_by is_space s) ≡ fields s
unfolding trim_right_by
fields-trim_right [] = refl
fields-trim_right (c ∷ s) =
    fields-keep_if c (trim_right_by is_space s)
    ∙ fields_cong c (trim_right_by is_space s) s (fields-trim_right s) (starts-trim_right s)

pub fields-trim_space : (s : Text) → fields (trim_space s) ≡ fields s
unfolding trim_space
fields-trim_space s = fields-trim_right (trim_left s) ∙ fields-trim_left s

-- A text that starts with a word keeps its start.
pub trim_space-start :
    (c : ℕ) (s : Text) → is_space c ≡ false → trim_space (c ∷ s) ≡ c ∷ trim_right_by is_space s
unfolding trim_space trim_left trim_right_by
trim_space-start c s h = rw h (starts-keep_if c (trim_right_by is_space s) h)
