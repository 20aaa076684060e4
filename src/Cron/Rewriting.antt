-- ===== src/Cron/Rewriting.antt =====
-- The two passes of applyUpdate in internal/cron/cron_parse.go: which line is found, and which lines are written.
use mathlib.Core.Path.{subst, ap₂}
use serverkit_agent.Base.{
  ℕ, suc, ◌+◌, ◌≤◌, ◌<◌, ◌==◌, true, false, List, [], ◌∷◌, ◌++◌, Option, none, some, Text,
  text_eq_iff, length, length-append, trim_space, trim_prefix, has_prefix, Bool-cases, inl, inr,
  ◌⊎◌, ◌≡◌, refl, sym, ap, ◌∙◌, arith, All, All-append, append-nil, append_assoc,
}
use serverkit_agent.Cron.{newline, parse_line, Hash, entry_id, is_target}
use serverkit_agent.Cron.Table.{write_lines, name_line}
use serverkit_agent.Cron.Update.{
  Target, Search, search_line, search, name_sign, named, at_index, rewrite, targeted,
}

-- Whether a line is an entry with the id.
abbrev pub IsEntryOf : Hash → Text → Text → Type 0
IsEntryOf hash id raw =
    ((parse_line raw).is_entry ≡ true)
    × (entry_id hash (parse_line raw).schedule (parse_line raw).command ≡ id)

-- Where the entry of an id stands: the line, with its name if the line before names it, and the lines before and after both.
pub data Located (hash : Hash) (id : Text) (ls : List Text)
    : Target → List Text → List Text → Type 0 where
  unnamed :
      (before : List Text) (raw : Text) (after : List Text)
      → ls ≡ before ++ raw ∷ after
      → IsEntryOf hash id raw
      → Located hash id ls (named (parse_line raw) (length before) none) before after
  with_name :
      (before : List Text) (comment raw : Text) (after : List Text) (name : Text)
      → ls ≡ before ++ comment ∷ raw ∷ after
      → has_prefix (trim_space comment) name_sign ≡ true
      → name ≡ trim_space (trim_prefix (trim_space comment) name_sign)
      → IsEntryOf hash id raw
      → Located hash id ls
          (named (parse_line raw) (suc (length before)) (some (name, length before)))
          before
          after

-- A line that an update passes over.
abbrev pub IsOther : Hash → Text → Text → Type 0
IsOther hash id raw =
    (has_prefix (trim_space raw) name_sign ≡ true) ⊎ (is_target hash id raw ≡ false)

-- What the search knows after some lines.
abbrev pub Pends : List Text → Option (Text × ℕ) → Type 0
Pends seen none = Unit
Pends seen (some (name, at)) =
    (before : List Text) × (comment : Text) × (seen ≡ before ++ comment ∷ [])
    × (at ≡ length before)
    × (has_prefix (trim_space comment) name_sign ≡ true)
    × (name ≡ trim_space (trim_prefix (trim_space comment) name_sign))

abbrev pub Finds : Hash → Text → List Text → Option Target → Type 0
Finds hash id seen none = All (IsOther hash id) seen
Finds hash id seen (some t) = (before after : List Text) × Located hash id seen t before after

module _ (hash : Hash) (id : Text) where
  is_target-IsEntryOf : (raw : Text) → is_target hash id raw ≡ true → IsEntryOf hash id raw
  unfolding is_target
  is_target-IsEntryOf raw h =
      ground
        (arith, text_eq_iff (entry_id hash (parse_line raw).schedule (parse_line raw).command) id)

  Located-append :
      (seen : List Text) (raw : Text) (t : Target) (before after : List Text)
      → Located hash id seen t before after
      → Located hash id (seen ++ raw ∷ []) t before (after ++ raw ∷ [])
  Located-append seen raw _ _ _ (unnamed before l after e h) =
      unnamed before l (after ++ raw ∷ [])
        (ap (λ s. s ++ raw ∷ []) e ∙ append_assoc before (l ∷ after) (raw ∷ [])) h
  Located-append seen raw _ _ _ (with_name before comment l after name e s n h) =
      with_name before comment l (after ++ raw ∷ []) name
        (ap (λ s. s ++ raw ∷ []) e ∙ append_assoc before (comment ∷ l ∷ after) (raw ∷ [])) s n h

  Finds-append :
      (seen : List Text) (raw : Text) (o : Option Target)
      → IsOther hash id raw
      → Finds hash id seen o
      → Finds hash id (seen ++ raw ∷ []) o
  Finds-append seen raw none other f = All-append (IsOther hash id) seen (raw ∷ []) f (other, tt)
  Finds-append seen raw (some t) other (before, after, l) =
      (before, after ++ raw ∷ [], Located-append seen raw t before after l)

  found_here :
      (seen : List Text) (raw : Text) (pending : Option (Text × ℕ))
      → IsEntryOf hash id raw
      → Pends seen pending
      → Finds hash id (seen ++ raw ∷ []) (some (named (parse_line raw) (length seen) pending))
  found_here seen raw none h p = (seen, [], unnamed seen raw [] refl h)
  found_here seen raw (some (name, at)) h (before, comment, e, q, s, n) =
      let count : length seen ≡ suc (length before) =
        ap length e ∙ omega (arith, length-append before (comment ∷ [])) in
      (
        before,
        [],
        subst
            (λ (at : ℕ × ℕ).
              Located hash id (seen ++ raw ∷ []) (named (parse_line raw) at.0 (some (name, at.1)))
                before [])
            (ap₂ (λ (i : ℕ) (j : ℕ). (i, j)) (sym count) (sym q))
            (with_name before comment raw [] name
              (ap (λ s. s ++ raw ∷ []) e ∙ append_assoc before (comment ∷ []) (raw ∷ [])) s n h),
      )

  search_line-Finds :
      (seen : List Text) (raw : Text) (s : Search)
      → Pends seen s.pending
      → Finds hash id seen s.target
      → Pends (seen ++ raw ∷ []) (search_line hash id (length seen) raw s).pending
        × Finds hash id (seen ++ raw ∷ []) (search_line hash id (length seen) raw s).target
  unfolding search_line
  search_line-Finds seen raw s p f = elim (Bool-cases (has_prefix (trim_space raw) name_sign)) [
    | inl e ↦ rw e ((seen, raw, refl, refl, e, refl), Finds-append seen raw s.target (inl e) f)
    | inr e ↦ elim (Bool-cases (is_target hash id raw)) [
      | inl t ↦ rw (e, t) (tt, found_here seen raw s.pending (is_target-IsEntryOf raw t) p)
      | inr t ↦ rw (e, t) (tt, Finds-append seen raw s.target (inr t) f)
    ]
  ]

  search-Finds :
      (seen ls : List Text) (s : Search) (i : ℕ)
      → i ≡ length seen
      → Pends seen s.pending
      → Finds hash id seen s.target
      → Finds hash id (seen ++ ls) (search hash id i ls s).target
  unfolding search
  search-Finds seen [] s i c p f = rw append-nil f
  search-Finds seen (l ∷ ls) s i c p f =
      let (p', f') = search_line-Finds seen l s p f in
      subst (λ r. Finds hash id r (search hash id (suc i) ls (search_line hash id i l s)).target)
        (append_assoc seen (l ∷ []) ls)
        (search-Finds (seen ++ l ∷ []) ls (search_line hash id i l s) (suc i)
          (omega (arith, length-append seen (l ∷ []), c))
          (subst (λ i. Pends (seen ++ l ∷ []) (search_line hash id i l s).pending) (sym c) p')
          (subst (λ i. Finds hash id (seen ++ l ∷ []) (search_line hash id i l s).target) (sym c)
            f'))

  -- The search finds where the entry of the id stands, or none has the id.
  pub targeted-Finds : (ls : List Text) → Finds hash id ls (targeted hash id ls)
  unfolding search
  targeted-Finds ls = search-Finds [] ls (record { pending = none; target = none }) 0 refl tt tt

-- Lines that are neither the entry's nor its name's are written as they are.
module _ (t : Target) (name text : Text) where
  abbrev IsKept : ℕ → Type 0
  IsKept j = (at_index j t.comment_index ≡ false) × ((j == t.index) ≡ false)

  rewrite_kept :
      (i : ℕ) (ls rest : List Text)
      → ((j : ℕ) → i ≤ j → j < i + length ls → IsKept j)
      → rewrite t name text i (ls ++ rest)
        ≡ write_lines ls ++ rewrite t name text (i + length ls) rest
  unfolding rewrite write_lines
  rewrite_kept i [] rest h = ap (λ j. rewrite t name text j rest) (omega arith)
  rewrite_kept i (l ∷ ls) rest h =
      let (not_name, not_row) = h i (omega arith) (omega arith) in
      let others = rewrite_kept (suc i) ls rest (λ j lo hi. h j (omega arith) (omega arith)) in
      let count : suc i + length ls ≡ i + suc (length ls) = omega arith in
      rw (not_name, not_row)
        (append_assoc l (newline ∷ []) (rewrite t name text (suc i) (ls ++ rest))
          ∙ ap (λ r. l ++ newline ∷ r)
              (others ∙ ap (λ j. write_lines ls ++ rewrite t name text j rest) count)
          ∙ sym (
              append_assoc l (newline ∷ write_lines ls)
                (rewrite t name text (i + suc (length ls)) rest)))

  rewrite_after :
      (i : ℕ) (ls : List Text)
      → ((j : ℕ) → i ≤ j → IsKept j)
      → rewrite t name text i ls ≡ write_lines ls
  unfolding rewrite write_lines
  rewrite_after i [] h = refl
  rewrite_after i (l ∷ ls) h =
      let (not_name, not_row) = h i (omega arith) in
      let others = rewrite_after (suc i) ls (λ j lo. h j (omega arith)) in
      rw (not_name, not_row)
        (append_assoc l (newline ∷ []) (rewrite t name text (suc i) ls)
          ∙ ap (λ r. l ++ newline ∷ r) others)

  -- The row of the entry, after the comment of its name.
  abbrev pub new_row : Text
  new_row = name_line name ++ text ++ newline ∷ []

  row_here :
      (i : ℕ) (raw : Text) (after : List Text)
      → at_index i t.comment_index ≡ false
      → (i == t.index) ≡ true
      → rewrite t name text i (raw ∷ after) ≡ new_row ++ rewrite t name text (suc i) after
  unfolding rewrite
  row_here i raw after c r = rw (c, r) refl

  comment_here :
      (i : ℕ) (raw : Text) (after : List Text)
      → at_index i t.comment_index ≡ true
      → rewrite t name text i (raw ∷ after) ≡ rewrite t name text (suc i) after
  unfolding rewrite
  comment_here i raw after c = rw c refl

  -- The lines that the second pass writes: those before, the row, and those after.
  pub rewrite-Located :
      (hash : Hash) (id : Text) (ls : List Text) (old : Target) (before after : List Text)
      → Located hash id ls old before after
      → t.index ≡ old.index
      → t.comment_index ≡ old.comment_index
      → rewrite t name text 0 ls ≡ write_lines before ++ (new_row ++ write_lines after)
  rewrite-Located hash id ls _ _ _ (unnamed before raw after e h) at none_named =
      let i = 0 + length before in
      ap (rewrite t name text 0) e
      ∙ rewrite_kept 0 before (raw ∷ after)
          (λ j lo hi. (ap (at_index j) none_named, ground (arith, at)))
      ∙ ap (λ r. write_lines before ++ r)
          (row_here i raw after (ap (at_index i) none_named) (ground (arith, at))
            ∙ ap (λ r. new_row ++ r)
                (rewrite_after (suc i) after
                  (λ j lo. (ap (at_index j) none_named, ground (arith, at)))))
  rewrite-Located hash id ls _ _ _ (with_name before comment raw after n e s q h) at at_name =
      let i = 0 + length before in
      let other : (j : ℕ) → (j == length before) ≡ false → at_index j t.comment_index ≡ false =
        λ j d. ap (at_index j) at_name ∙ d in
      let here : at_index i t.comment_index ≡ true = ap (at_index i) at_name ∙ ground arith in
      ap (rewrite t name text 0) e
      ∙ rewrite_kept 0 before (comment ∷ raw ∷ after)
          (λ j lo hi. (other j (ground arith), ground (arith, at)))
      ∙ ap (λ r. write_lines before ++ r)
          (comment_here i comment (raw ∷ after) here
            ∙ row_here (suc i) raw after (other (suc i) (ground arith)) (ground (arith, at))
            ∙ ap (λ r. new_row ++ r)
                (rewrite_after (suc (suc i)) after
                  (λ j lo. (other j (ground arith), ground (arith, at)))))
