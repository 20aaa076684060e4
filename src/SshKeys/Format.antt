-- ===== src/SshKeys/Format.antt =====
-- Writing an authorized_keys line and reading it back (internal/agent/sshkeys.go).
pub mod Options
use serverkit_agent.Base.{
  ℕ, ◌==◌, if◌then◌else◌, Bool, true, false, ◌&&◌, ◌||◌, not, List, [], ◌∷◌, ◌++◌, Option, none,
  some, Text, codes, text_eq, text_eq_sound, mem_text, has_prefix, join, fields, is_space,
  trim_space, trim_right_by, keep_if, ◌≡◌, refl, sym, ap, ◌∙◌, ◌⊎◌, arith, Bool-cases, inl, inr,
  append_assoc, append-nil, All, &&-eq-true,
}
use mathlib.Core.Path.{subst}
use serverkit_agent.Base.Results.{Result, success, failure, Ensures, holds, failed, Ensures-success}
use serverkit_agent.Base.Matching.{letter}
use serverkit_agent.Cron.Words.{
  IsWord, fields-words, fields-join, fields-trim_space, fields-space, space_lem, trim_space-start,
  starts-keep_if,
}
use serverkit_agent.SshKeys.Format.Options.{IsOption, validate_options-IsOption, cut_options-join}
use serverkit_agent.SshKeys.{
  SshKey, KeyError, material, key_types, is_key_type, parse_public_key, public_key_of, valid_blob,
  validate_options, format_line, parse_line, first_is_type, key_of, after_options, cut_options,
  comment_part, options_part, single_line, valid_option,
}

abbrev space : Text
space = 32 ∷ []

-- What a parsed key holds.
abbrev pub WellFormed : SshKey → Type 0
WellFormed k =
    (ws : List Text) × (k.comment ≡ join space ws)
    × (is_key_type k.kind ≡ true)
    × IsWord k.kind
    × IsWord k.blob
    × All IsWord ws

public_key_of-Ensures :
    (decodes : Text → Bool) (ws : List Text)
    → All IsWord ws
    → Ensures WellFormed (public_key_of decodes ws)
unfolding public_key_of
public_key_of-Ensures decodes [] h = failed
public_key_of-Ensures decodes (t ∷ []) h = failed
public_key_of-Ensures decodes (t ∷ b ∷ ws) (ht, (hb, hs)) = elim (Bool-cases (is_key_type t)) [
  | inr e ↦ rw e failed
  | inl e ↦ elim (Bool-cases (valid_blob b)) [
    | inr f ↦ rw (e, f) failed
    | inl f ↦ elim (Bool-cases (decodes b)) [
      | inr g ↦ rw (e, f, g) failed
      | inl g ↦ rw (e, f, g) (holds (ws, refl, e, ht, hb, hs))
    ]
  ]
]

parse_public_key-Ensures :
    (decodes : Text → Bool) (line : Text) → Ensures WellFormed (parse_public_key decodes line)
unfolding parse_public_key
parse_public_key-Ensures decodes line =
    elim (Bool-cases (text_eq (trim_space line) [] || not (single_line (trim_space line)))) [
      | inl e ↦ rw e failed
      | inr e ↦ rw e (
          public_key_of-Ensures decodes (fields (trim_space line)) (fields-words (trim_space line)))
    ]

-- A text of words starts with no space.
join-start :
    (w : Text) (ws : List Text)
    → IsWord w
    → (c : ℕ) × (r : Text) × (join space (w ∷ ws) ≡ c ∷ r) × (is_space c ≡ false)
unfolding join
join-start [] ws h = absurd h
join-start (c ∷ s) [] (h, hs) = (c, s, refl, h)
join-start (c ∷ s) (v ∷ ws) (h, hs) = (c, s ++ space ++ join space (v ∷ ws), refl, h)

keep_if-more : (c d : ℕ) (s t : Text) → keep_if is_space c (s ++ d ∷ t) ≡ c ∷ (s ++ d ∷ t)
keep_if-more c d [] t = refl
keep_if-more c d (x ∷ s) t = refl

-- A text whose end is not trimmed keeps its end behind others.
trim_right-kept :
    (s : Text) (d : ℕ) (t : Text)
    → trim_right_by is_space (d ∷ t) ≡ d ∷ t
    → trim_right_by is_space (s ++ d ∷ t) ≡ s ++ d ∷ t
unfolding trim_right_by
trim_right-kept [] d t h = h
trim_right-kept (c ∷ s) d t h =
    ap (keep_if is_space c) (trim_right-kept s d t h) ∙ keep_if-more c d s t

trim_right-word : (w : Text) → All (λ c. is_space c ≡ false) w → trim_right_by is_space w ≡ w
unfolding trim_right_by
trim_right-word [] h = refl
trim_right-word (c ∷ w) (h, hs) =
    ap (keep_if is_space c) (trim_right-word w hs) ∙ starts-keep_if c w h

trim_right-join :
    (ws : List Text) → All IsWord ws → trim_right_by is_space (join space ws) ≡ join space ws
unfolding join
trim_right-join [] h = trim_right-word [] tt
trim_right-join ([] ∷ []) (h, hs) = absurd h
trim_right-join ((c ∷ w) ∷ []) (h, hs) = trim_right-word (c ∷ w) h
trim_right-join (w ∷ v ∷ ws) (h, (hv, hs)) =
    let (c, r, e, n) = join-start v ws hv in
    let ih : trim_right_by is_space (c ∷ r) ≡ c ∷ r =
      subst (λ t. trim_right_by is_space t ≡ t) e (trim_right-join (v ∷ ws) (hv, hs)) in
    subst (λ t. trim_right_by is_space (w ++ space ++ t) ≡ w ++ space ++ t) (sym e)
      (trim_right-kept (w ++ space) c r ih)

comment_part-join :
    (w : Text) (ws : List Text)
    → IsWord w
    → comment_part (join space (w ∷ ws)) ≡ 32 ∷ join space (w ∷ ws)
comment_part-join w ws h =
    let (c, r, e, n) = join-start w ws h in subst (λ t. comment_part t ≡ 32 ∷ t) (sym e) refl

-- The key of a line, written as its words.
words_of :
    (t b : Text) (ws : List Text)
    → All IsWord ws
    → (t ++ 32 ∷ b) ++ comment_part (join space ws) ≡ join space (t ∷ b ∷ ws)
unfolding join
words_of t b [] h = append-nil (t ++ 32 ∷ b) ∙ sym (append_assoc t space b)
words_of t b (w ∷ ws) (h, hs) =
    let j = join space (w ∷ ws) in
    ap (λ c. (t ++ 32 ∷ b) ++ c) (comment_part-join w ws h)
    ∙ append_assoc t (32 ∷ b) (32 ∷ j)
    ∙ ap (λ r. t ++ 32 ∷ r) (sym (append_assoc b space j))
    ∙ sym (append_assoc t space (b ++ space ++ j))

-- No key type starts a comment line.
type_no_comment :
    (t : Text) (ts : List Text)
    → All (λ u. has_prefix u (codes "#") ≡ false) ts
    → mem_text t ts ≡ true
    → has_prefix t (codes "#") ≡ false
unfolding mem_text
type_no_comment t [] h m = absurd (cc m)
type_no_comment t (u ∷ ts) (h, hs) m = elim (Bool-cases (text_eq t u)) [
  | inl e ↦ subst (λ s. has_prefix s (codes "#") ≡ false) (sym (text_eq_sound t u e)) h
  | inr e ↦ type_no_comment t ts hs (rw (e, mem_text) at m)
]

is_key_type_no_comment : (t : Text) → is_key_type t ≡ true → has_prefix t (codes "#") ≡ false
unfolding is_key_type has_prefix
is_key_type_no_comment t h =
    type_no_comment t key_types (refl, (refl, (refl, (refl, (refl, (refl, (refl, tt))))))) h

-- A line that is neither empty nor a comment, by its first character.
abbrev Starts : Text → Type 0
Starts s = (c : ℕ) × (r : Text) × (s ≡ c ∷ r) × (is_space c ≡ false) × ((c == b'#') ≡ false)

parse_line_start :
    (s : Text)
    → Starts s
    → parse_line s ≡ (
        if first_is_type (fields s)
        then key_of [] (fields s)
        else after_options (cut_options false (trim_space s)))
unfolding parse_line text_eq has_prefix
parse_line_start s (c, r, e, n, m) =
    let t : trim_space s ≡ c ∷ trim_right_by is_space r =
      ap trim_space e ∙ trim_space-start c r n in
    let f : fields (trim_space s) ≡ fields s = fields-trim_space s in
    let g : (text_eq (trim_space s) [] || has_prefix (trim_space s) (codes "#")) ≡ false =
      ap (λ x. text_eq x [] || has_prefix x (codes "#")) t ∙ rw m refl in
    rw (g, f) refl

key_start : (t : Text) (rest : Text) → is_key_type t ≡ true → IsWord t → Starts (t ++ rest)
unfolding has_prefix
key_start [] rest k h = absurd h
key_start (c ∷ t) rest k (h, hs) =
    (c, t ++ rest, refl, h, first_false (c == b'#') (is_key_type_no_comment (c ∷ t) k))
  where
    first_false : (b : Bool) → (b && true) ≡ false → b ≡ false
    first_false b h = ground arith

key_of_words :
    (k : SshKey) (ws : List Text) (options : Text)
    → k.comment ≡ join space ws
    → is_key_type k.kind ≡ true
    → key_of options (k.kind ∷ k.blob ∷ ws) ≡ some (k, options)
key_of_words k ws options e t =
    rw t (ap (λ c. some (record { kind = k.kind; blob = k.blob; comment = c }, options)) (sym e))

-- A line without options is read by its words.
parse_bare :
    (k : SshKey) → WellFormed k → parse_line (material k ++ comment_part k.comment) ≡ some (k, [])
parse_bare k (ws, e, t, ht, hb, hs) =
    let line = material k ++ comment_part k.comment in
    let words : line ≡ join space (k.kind ∷ k.blob ∷ ws) =
      ap (λ c. material k ++ comment_part c) e ∙ words_of k.kind k.blob ws hs in
    let split : fields line ≡ k.kind ∷ k.blob ∷ ws =
      ap fields words ∙ fields-join (k.kind ∷ k.blob ∷ ws) (ht, (hb, hs)) in
    let start : Starts line =
      subst Starts (sym (append_assoc k.kind (32 ∷ k.blob) (comment_part k.comment)))
        (key_start k.kind (32 ∷ k.blob ++ comment_part k.comment) t ht) in
    let otherwise = after_options (cut_options false (trim_space line)) in
    parse_line_start line start
    ∙ ap (λ f. if first_is_type f then key_of [] f else otherwise) split
    ∙ ap (λ b. if b then key_of [] (k.kind ∷ k.blob ∷ ws) else otherwise) t
    ∙ key_of_words k ws [] e t

letter_start : (c : ℕ) → letter c ≡ true → (is_space c ≡ false) × ((c == b'#') ≡ false)
unfolding is_space
letter_start c h = (ground arith, ground arith)

join_options_start :
    (o : Text) (os : List Text) (rest : Text)
    → IsOption o
    → Starts (join (codes ",") (o ∷ os) ++ 32 ∷ rest)
unfolding join valid_option
join_options_start [] os rest h = absurd (cc h)
join_options_start (c ∷ v) [] rest h =
    let (n, m) = letter_start c (&&-eq-true (letter c) _ h).0 in (c, v ++ 32 ∷ rest, refl, n, m)
join_options_start (c ∷ v) (p ∷ os) rest h =
    let (n, m) = letter_start c (&&-eq-true (letter c) _ h).0 in
    (c, (v ++ codes "," ++ join (codes ",") (p ∷ os)) ++ 32 ∷ rest, refl, n, m)

format_line_words :
    (k : SshKey) (o : Text) (os ws : List Text)
    → k.comment ≡ join space ws
    → All IsWord ws
    → format_line k (o ∷ os) ≡ join (codes ",") (o ∷ os) ++ 32 ∷ join space (k.kind ∷ k.blob ∷ ws)
unfolding format_line
format_line_words k o os ws e hs =
    append_assoc (join (codes ",") (o ∷ os)) space (material k ++ comment_part k.comment)
    ∙ ap (λ c. join (codes ",") (o ∷ os) ++ 32 ∷ (material k ++ comment_part c)) e
    ∙ ap (λ w. join (codes ",") (o ∷ os) ++ 32 ∷ w) (words_of k.kind k.blob ws hs)

trim_space_kept : (s : Text) → Starts s → trim_right_by is_space s ≡ s → trim_space s ≡ s
unfolding trim_right_by
trim_space_kept s (c, r, e, n, m) h =
    ap trim_space e
    ∙ trim_space-start c r n
    ∙ sym (trim_right_start c r n)
    ∙ ap (trim_right_by is_space) (sym e)
    ∙ h
  where
    trim_right_start :
        (c : ℕ) (r : Text)
        → is_space c ≡ false
        → trim_right_by is_space (c ∷ r) ≡ c ∷ trim_right_by is_space r
    trim_right_start c r n = starts-keep_if c (trim_right_by is_space r) n

-- A line with options is cut after them, and then read by its words.
parse_with_options :
    (k : SshKey) (o : Text) (os : List Text)
    → WellFormed k
    → All IsOption (o ∷ os)
    → first_is_type (fields (format_line k (o ∷ os))) ≡ false
    → parse_line (format_line k (o ∷ os)) ≡ some (k, join (codes ",") (o ∷ os))
parse_with_options k o os (ws, e, t, ht, hb, hs) (valid, valids) other =
    let line = format_line k (o ∷ os) in
    let options = join (codes ",") (o ∷ os) in
    let words = join space (k.kind ∷ k.blob ∷ ws) in
    let whole : line ≡ options ++ 32 ∷ words = format_line_words k o os ws e hs in
    let start : Starts line = subst Starts (sym whole) (join_options_start o os words valid) in
    let (d, rest, q, n) = join-start k.kind (k.blob ∷ ws) ht in
    let kept : trim_right_by is_space words ≡ words =
      trim_right-join (k.kind ∷ k.blob ∷ ws) (ht, (hb, hs)) in
    let blank_kept : trim_right_by is_space (32 ∷ words) ≡ 32 ∷ words =
      subst (λ w. trim_right_by is_space w ≡ w → trim_right_by is_space (32 ∷ w) ≡ 32 ∷ w) (sym q)
        (trim_right-kept (32 ∷ []) d rest) kept in
    let line_kept : trim_right_by is_space line ≡ line =
      subst (λ l. trim_right_by is_space l ≡ l) (sym whole)
        (trim_right-kept options 32 words blank_kept) in
    parse_line_start line start
    ∙ ap
        (λ b.
          if b
          then key_of [] (fields line)
          else after_options (cut_options false (trim_space line)))
        other
    ∙ ap (λ l. after_options (cut_options false l)) (trim_space_kept line start line_kept ∙ whole)
    ∙ ap after_options (cut_options-join o os words (valid, valids))
    ∙ ap (key_of options) (
        fields-trim_space (32 ∷ words)
        ∙ fields-space 32 words space_lem
        ∙ fields-join (k.kind ∷ k.blob ∷ ws) (ht, (hb, hs)))
    ∙ key_of_words k ws options e t

-- A key that a request gives, written with options that a request may give, is read back, unless the line's first word
-- is a key type although it has options.
pub parse_line-format_line :
    (decodes : Text → Bool) (source : Text) (k : SshKey) (options : List Text)
    → parse_public_key decodes source ≡ success k
    → validate_options options ≡ none
    → ((options ≡ []) ⊎ (first_is_type (fields (format_line k options)) ≡ false))
    → parse_line (format_line k options) ≡ some (k, join (codes ",") options)
unfolding join format_line
parse_line-format_line decodes source k [] h v other = parse_bare k (
    Ensures-success (parse_public_key decodes source) k (parse_public_key-Ensures decodes source) h)
parse_line-format_line decodes source k (o ∷ os) h v (inl e) = absurd (cc e)
parse_line-format_line decodes source k (o ∷ os) h v (inr other) =
    parse_with_options k o os
      (Ensures-success (parse_public_key decodes source) k (parse_public_key-Ensures decodes source)
        h)
      (validate_options-IsOption (o ∷ os) v) other
