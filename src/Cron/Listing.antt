-- ===== src/Cron/Listing.antt =====
-- What Remove and Toggle of internal/cron/cron_linux.go do to the entries that List reports.
use serverkit_agent.Base.{
  if◌then◌else◌, Bool, true, false, ◌&&◌, ◌||◌, not, List, [], ◌∷◌, Text, text_eq, Bool-cases, inl,
  inr, select, ◌≡◌, refl, sym, ap, ◌∙◌, arith,
}
use serverkit_agent.Cron.{ParsedLine, parse_line, Hash, row, is_target}
use serverkit_agent.Cron.Rows.{parse_line-row, entry_of}
use serverkit_agent.Cron.Table.{Entry, entry, list_lines, remove_lines, toggle_lines, any_target}

-- Whether an entry has the id.
abbrev pub has_id : Text → Entry → Bool
has_id id e = text_eq e.id id

-- Removing an id takes its entries out of the list, and leaves the others in their order.
pub list_lines-remove_lines :
    (hash : Hash) (id : Text) (ls : List Text)
    → list_lines hash (remove_lines hash id ls)
      ≡ select (λ e. not (has_id id e)) (list_lines hash ls)
unfolding list_lines remove_lines is_target
list_lines-remove_lines hash id [] = refl
list_lines-remove_lines hash id (l ∷ ls) = ground (arith, list_lines-remove_lines hash id ls)

-- The entry as it is after a toggle.
abbrev pub toggled : Text → Bool → Entry → Entry
toggled id enabled e = if has_id id e then record e { enabled = enabled } else e

abbrev pub toggle_each : Text → Bool → List Entry → List Entry
toggle_each id enabled [] = []
toggle_each id enabled (e ∷ es) = toggled id enabled e ∷ toggle_each id enabled es

nothing_listed :
    (hash : Hash) (id : Text) (enabled : Bool)
    → list_lines hash (toggle_lines hash id enabled [])
      ≡ toggle_each id enabled (list_lines hash [])
unfolding list_lines toggle_lines
nothing_listed hash id enabled = refl

list_entry :
    (hash : Hash) (l : Text) (ls : List Text) (p : ParsedLine)
    → parse_line l ≡ p
    → p.is_entry ≡ true
    → list_lines hash (l ∷ ls) ≡ entry hash p ∷ list_lines hash ls
unfolding list_lines
list_entry hash l ls p q e = rw (q, e) refl

list_other :
    (hash : Hash) (l : Text) (ls : List Text)
    → (parse_line l).is_entry ≡ false
    → list_lines hash (l ∷ ls) ≡ list_lines hash ls
unfolding list_lines
list_other hash l ls e = rw e refl

is_target_lem :
    (hash : Hash) (id : Text) (l : Text)
    → is_target hash id l ≡ ((parse_line l).is_entry && has_id id (entry hash (parse_line l)))
unfolding is_target
is_target_lem hash id l = refl

toggle_target :
    (hash : Hash) (id : Text) (enabled : Bool) (l : Text) (ls : List Text)
    → is_target hash id l ≡ true
    → toggle_lines hash id enabled (l ∷ ls)
      ≡ row enabled (parse_line l) ∷ toggle_lines hash id enabled ls
unfolding toggle_lines
toggle_target hash id enabled l ls t = rw t refl

toggle_other :
    (hash : Hash) (id : Text) (enabled : Bool) (l : Text) (ls : List Text)
    → is_target hash id l ≡ false
    → toggle_lines hash id enabled (l ∷ ls) ≡ l ∷ toggle_lines hash id enabled ls
unfolding toggle_lines
toggle_other hash id enabled l ls t = rw t refl

-- Toggling an id sets that entry's flag and keeps its schedule, its command and its id; the other entries
-- stay as they are, and all keep their order.
pub list_lines-toggle_lines :
    (hash : Hash) (id : Text) (enabled : Bool) (ls : List Text)
    → list_lines hash (toggle_lines hash id enabled ls)
      ≡ toggle_each id enabled (list_lines hash ls)
list_lines-toggle_lines hash id enabled [] = nothing_listed hash id enabled
list_lines-toggle_lines hash id enabled (l ∷ ls) =
    let rest = toggle_lines hash id enabled ls in
    let p = parse_line l in
    let ih = list_lines-toggle_lines hash id enabled ls in
    let t = is_target_lem hash id l in
    elim (Bool-cases p.is_entry) [
      | inr e ↦
          ap (list_lines hash) (toggle_other hash id enabled l ls (ground arith))
          ∙ list_other hash l rest e
          ∙ ih
          ∙ ap (toggle_each id enabled) (sym (list_other hash l ls e))
      | inl e ↦ elim (Bool-cases (has_id id (entry hash p))) [
        | inl same ↦
            ap (list_lines hash) (toggle_target hash id enabled l ls (ground arith))
            ∙ list_entry hash (row enabled p) rest (entry_of (row enabled p) enabled p)
                (parse_line-row l enabled e) refl
            ∙ ap (λ r. record (entry hash p) { enabled = enabled } ∷ r) ih
            ∙ sym (ap (toggle_each id enabled) (list_entry hash l ls p refl e) ∙ rw same refl)
        | inr other ↦
            ap (list_lines hash) (toggle_other hash id enabled l ls (ground arith))
            ∙ list_entry hash l rest p refl e
            ∙ ap (λ r. entry hash p ∷ r) ih
            ∙ sym (ap (toggle_each id enabled) (list_entry hash l ls p refl e) ∙ rw other refl)
      ]
    ]

-- Whether some entry has the id.
abbrev pub any_entry : Text → List Entry → Bool
any_entry id [] = false
any_entry id (e ∷ es) = has_id id e || any_entry id es

-- The search finds an id exactly if the list has it.
pub any_target-list_lines :
    (hash : Hash) (id : Text) (ls : List Text)
    → any_target hash id ls ≡ any_entry id (list_lines hash ls)
unfolding list_lines any_target is_target
any_target-list_lines hash id [] = refl
any_target-list_lines hash id (l ∷ ls) = ground (arith, any_target-list_lines hash id ls)
