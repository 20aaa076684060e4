-- ===== src/Cron/Rows.antt =====
-- parseLine of internal/cron/cron_parse.go against the rows that the manager writes.
use serverkit_agent.Base.{
  ℕ, zero, suc, ◌≤◌, ◌==◌, ltb, if◌then◌else◌, Bool, true, false, List, [], ◌∷◌, ◌++◌, none, some,
  Text, codes, text_eq, length, take, drop, is_space, trim_space, trim_right_by, has_prefix,
  trim_prefix, join, fields, All, Bool-cases, Option-cases, inl, inr, append_assoc, ◌≡◌, refl, sym,
  ap, ◌∙◌, arith,
}
use serverkit_agent.Cron.{
  Error, field_count, ParsedLine, parse_line, parse_fields, validate_schedule, invalid_in,
  schedule_field, schedule_char, all_chars, row, space,
}
use serverkit_agent.Cron.Words.{
  IsWord, fields-join, fields-space, fields-trim_right, fields-trim_space, fields-words,
  fields_cong, space_lem, starts-trim_right, trim_space-start,
}

-- A text without a space or a comment sign at its start is read as a row that is not commented out.
parse_line-start :
    (c : ℕ) (s : Text)
    → is_space c ≡ false
    → (c == b'#') ≡ false
    → parse_line (c ∷ s) ≡ parse_fields (c ∷ s) true (fields (c ∷ s))
unfolding parse_line text_eq has_prefix
parse_line-start c s h e =
    rw (parse_line, trim_space-start c s h, e)
      (ap (λ fs. parse_fields (c ∷ s) true fs)
        (fields_cong c (trim_right_by is_space s) s (fields-trim_right s) (starts-trim_right s)))

sign_lem : is_space b'#' ≡ false
unfolding is_space
sign_lem = refl

-- The rest of a row that is commented out is read.
parse_line-commented : (s : Text) → parse_line (b'#' ∷ s) ≡ parse_fields (b'#' ∷ s) false (fields s)
unfolding parse_line text_eq has_prefix trim_prefix
parse_line-commented s =
    rw (parse_line, trim_space-start b'#' s sign_lem)
      (ap (λ fs. parse_fields (b'#' ∷ s) false fs)
        (fields-trim_space (trim_right_by is_space s) ∙ fields-trim_right s))

-- What the fields of an entry are.
record IsRow (p : ParsedLine) (fs : List Text) : Type 0 where
  pub words : All IsWord fs
  pub enough : 6 ≤ length fs
  pub valid : validate_schedule (join space (take 5 fs)) ≡ none
  pub timed : p.schedule ≡ join space (take 5 fs)
  pub runs : p.command ≡ join space (drop 5 fs)

parse_fields-IsRow :
    (raw : Text) (enabled : Bool) (fs : List Text)
    → All IsWord fs
    → (parse_fields raw enabled fs).is_entry ≡ true
    → IsRow (parse_fields raw enabled fs) fs
unfolding parse_fields
parse_fields-IsRow raw enabled fs ws h = elim (Bool-cases (ltb (length fs) 6)) [
  | inl e ↦ absurd (ground arith)
  | inr e ↦ elim (Option-cases (validate_schedule (join space (take 5 fs)))) [
    | inr (err, v) ↦ absurd (ground arith)
    | inl v ↦
        rw (e, v)
          (record { words = ws; enough = ground arith; valid = v; timed = refl; runs = refl })
  ]
]

-- The row is what some fields make, whichever way it was read.
IsRow-fields :
    (line raw : Text) (enabled : Bool) (s : Text)
    → (parse_line line).is_entry ≡ true
    → parse_line line ≡ parse_fields raw enabled (fields s)
    → (fs : List Text) × IsRow (parse_line line) fs
IsRow-fields line raw enabled s h q = rw q (
  fields s,
  parse_fields-IsRow raw enabled (fields s) (fields-words s)
      (sym (ap (λ (p : ParsedLine). p.is_entry) q) ∙ h),
)

parse_line-IsRow :
    (line : Text)
    → (parse_line line).is_entry ≡ true
    → (fs : List Text) × IsRow (parse_line line) fs
unfolding parse_line
parse_line-IsRow line h = elim (Bool-cases (text_eq (trim_space line) [])) [
  | inl e ↦ absurd (ground arith)
  | inr e ↦ elim (Bool-cases (has_prefix (trim_space line) (codes "#"))) [
    | inl c ↦
        IsRow-fields line line false (trim_space (trim_prefix (trim_space line) (codes "#"))) h
          (rw (e, c) refl)
    | inr c ↦ IsRow-fields line line true (trim_space line) h (rw (e, c) refl)
  ]
]

join-append :
    (x : Text) (xs : List Text) (y : Text) (ys : List Text)
    → join space ((x ∷ xs) ++ (y ∷ ys)) ≡ join space (x ∷ xs) ++ space ++ join space (y ∷ ys)
unfolding join
join-append x [] y ys = refl
join-append x (w ∷ xs) y ys =
    ap (λ r. x ++ space ++ r) (join-append w xs y ys)
    ∙ sym (append_assoc (x ++ space) (join space (w ∷ xs) ++ space) (join space (y ∷ ys)))
    ∙ ap (λ r. r ++ join space (y ∷ ys))
        (sym (append_assoc (x ++ space) (join space (w ∷ xs)) space))

-- Both halves of six fields or more, with a space between, are all the fields.
join-halves :
    (fs : List Text)
    → 6 ≤ length fs
    → join space (take 5 fs) ++ space ++ join space (drop 5 fs) ≡ join space fs
join-halves [] h = absurd (omega arith)
join-halves (a ∷ []) h = absurd (omega arith)
join-halves (a ∷ b ∷ []) h = absurd (omega arith)
join-halves (a ∷ b ∷ c ∷ []) h = absurd (omega arith)
join-halves (a ∷ b ∷ c ∷ d ∷ []) h = absurd (omega arith)
join-halves (a ∷ b ∷ c ∷ d ∷ e ∷ []) h = absurd (omega arith)
join-halves (a ∷ b ∷ c ∷ d ∷ e ∷ f ∷ fs) h = sym (join-append a (b ∷ c ∷ d ∷ e ∷ []) f fs)

All-take {ℓ κ} : {A : Type ℓ} (P : A → Type κ) (n : ℕ) (xs : List A) → All P xs → All P (take n xs)
All-take P zero xs h = tt
All-take P (suc n) [] h = tt
All-take P (suc n) (x ∷ xs) (h, hs) = (h, All-take P n xs hs)

validate_join :
    (ps : List Text)
    → All IsWord ps
    → validate_schedule (join space ps)
      ≡ (if length ps == 5 then invalid_in ps else some (field_count (length ps)))
unfolding validate_schedule
validate_join ps h = rw (fields-join ps h) refl

first_char :
    (full_length : Bool) (c : ℕ) (w : Text) (ps : List Text) (err : Error)
    → (if full_length then invalid_in ((c ∷ w) ∷ ps) else some err) ≡ none
    → schedule_char c ≡ true
unfolding invalid_in schedule_field all_chars text_eq
first_char full_length c w ps err h = ground arith

schedule_char-sign : (c : ℕ) → schedule_char c ≡ true → (c == b'#') ≡ false
unfolding schedule_char
schedule_char-sign c h = ground arith

-- A schedule does not begin with the comment sign.
valid_start :
    (c : ℕ) (w : Text) (fs : List Text)
    → All IsWord ((c ∷ w) ∷ fs)
    → validate_schedule (join space (take 5 ((c ∷ w) ∷ fs))) ≡ none
    → (c == b'#') ≡ false
valid_start c w fs h v =
    let ps = take 5 ((c ∷ w) ∷ fs) in
    schedule_char-sign c (
      first_char (length ps == 5) c w (take 4 fs) (field_count (length ps))
        (sym (validate_join ps (All-take IsWord 5 ((c ∷ w) ∷ fs) h)) ∙ v))

abbrev pub entry_of : Text → Bool → ParsedLine → ParsedLine
entry_of raw enabled p = record {
  raw = raw;
  schedule = p.schedule;
  command = p.command;
  enabled = enabled;
  is_entry = true;
}

-- The fields of an entry give the entry back.
parse_fields-entry :
    (p : ParsedLine) (raw : Text) (enabled : Bool) (fs : List Text)
    → IsRow p fs
    → parse_fields raw enabled fs ≡ entry_of raw enabled p
unfolding parse_fields
parse_fields-entry p raw enabled fs r =
    let e : ltb (length fs) 6 ≡ false = ground (arith, r.enough) in
    rw (e, r.valid, r.timed, r.runs) refl

text_lem :
    (p : ParsedLine) (fs : List Text)
    → IsRow p fs
    → p.schedule ++ space ++ p.command ≡ join space fs
text_lem p fs r = rw (r.timed, r.runs) (join-halves fs r.enough)

enabled_row :
    (p : ParsedLine) (fs : List Text)
    → IsRow p fs
    → parse_line (join space fs) ≡ entry_of (join space fs) true p
unfolding join
enabled_row p [] r = absurd (omega (arith, r.enough))
enabled_row p ([] ∷ fs) r = absurd r.words.0
enabled_row p ((c ∷ w) ∷ []) r = absurd (omega (arith, r.enough))
enabled_row p ((c ∷ w) ∷ g ∷ fs) r =
    let text = join space ((c ∷ w) ∷ g ∷ fs) in
    parse_line-start c (w ++ space ++ join space (g ∷ fs)) r.words.0.0
      (valid_start c w (g ∷ fs) r.words r.valid)
    ∙ ap (λ gs. parse_fields text true gs) (fields-join ((c ∷ w) ∷ g ∷ fs) r.words)
    ∙ parse_fields-entry p text true ((c ∷ w) ∷ g ∷ fs) r

disabled_row :
    (p : ParsedLine) (fs : List Text)
    → IsRow p fs
    → parse_line (codes "# " ++ join space fs) ≡ entry_of (codes "# " ++ join space fs) false p
disabled_row p fs r =
    parse_line-commented (32 ∷ join space fs)
    ∙ ap (λ gs. parse_fields (b'#' ∷ 32 ∷ join space fs) false gs)
        (fields-space 32 (join space fs) space_lem ∙ fields-join fs r.words)
    ∙ parse_fields-entry p (b'#' ∷ 32 ∷ join space fs) false fs r

row_read :
    (p : ParsedLine) (fs : List Text) (enabled : Bool)
    → IsRow p fs
    → parse_line (row enabled p) ≡ entry_of (row enabled p) enabled p
unfolding row
row_read p fs true r = rw (text_lem p fs r) (enabled_row p fs r)
row_read p fs false r = rw (text_lem p fs r) (disabled_row p fs r)

-- The row that is written for an entry, enabled or commented out, is read as that entry: the same
-- schedule and command, and enabled as it was written.
pub parse_line-row :
    (line : Text) (enabled : Bool)
    → (parse_line line).is_entry ≡ true
    → parse_line (row enabled (parse_line line))
      ≡ entry_of (row enabled (parse_line line)) enabled (parse_line line)
parse_line-row line enabled h =
    let (fs, r) = parse_line-IsRow line h in row_read (parse_line line) fs enabled r
