-- ===== src/Permissions/Table.antt =====
-- The two lists of internal/permissions/permissions.go against the actions that the protocol names.
use serverkit_agent.Base.{
  ◌≡◌, refl, Bool, true, false, ◌&&◌, ◌||◌, if◌then◌else◌, Text, text_eq, text_eq_iff, mem_text,
  mem-append, List, [], ◌∷◌, none, some, Dict, lookup, insert, lookup-insert, ◌∙◌, ap, ◌++◌, not,
  inl, inr, Bool-cases, &&-eq-true, text_eq_sound, arith,
}
use serverkit_agent.Protocol.{actions}
use serverkit_agent.Permissions.{
  Level, protect, full, protect_actions, full_actions, classify, required_table,
}

-- What a loop of the initialiser leaves in the table.
lookup-classify :
    (l : Level) (acts : List Text) (m : Dict Level) (a : Text)
    → lookup a (classify l acts m) ≡ (if mem_text a acts then some l else lookup a m)
unfolding classify mem_text
lookup-classify l [] m a = refl
lookup-classify l (b ∷ acts) m a = ground (
  arith,
  lookup-classify l acts (insert b l m) a,
  lookup-insert b a l m,
  text_eq_iff a b,
  text_eq_iff b a,
)

-- The table's answer, by membership in the two lists.
pub lookup-required_table :
    (a : Text)
    → lookup a required_table ≡ (
        if mem_text a protect_actions
        then some protect
        else if mem_text a full_actions
        then some full
        else none)
unfolding required_table lookup
lookup-required_table a =
    lookup-classify protect protect_actions (classify full full_actions []) a
    ∙ ap (λ rest. if mem_text a protect_actions then some protect else rest)
        (lookup-classify full full_actions [] a)

unfoldable pub all_in : List Text → List Text → Bool
all_in [] ys = true
all_in (x ∷ xs) ys = mem_text x ys && all_in xs ys

none_in : List Text → List Text → Bool
none_in [] ys = true
none_in (x ∷ xs) ys = not (mem_text x ys) && none_in xs ys

pub mem-all_in :
    (a : Text) (xs ys : List Text)
    → all_in xs ys ≡ true
    → mem_text a xs ≡ true
    → mem_text a ys ≡ true
unfolding all_in mem_text
mem-all_in a [] ys h m = cc
mem-all_in a (x ∷ xs) ys h m = elim (Bool-cases (text_eq a x)) [
  | inl e ↦ rw (text_eq_sound a x e) (&&-eq-true _ _ h).0
  | inr e ↦ mem-all_in a xs ys (&&-eq-true _ _ h).1 (ground arith)
]

mem-none_in :
    (a : Text) (xs ys : List Text)
    → none_in xs ys ≡ true
    → mem_text a xs ≡ true
    → mem_text a ys ≡ false
unfolding none_in mem_text
mem-none_in a [] ys h m = cc
mem-none_in a (x ∷ xs) ys h m = elim (Bool-cases (text_eq a x)) [
  | inl e ↦ rw (text_eq_sound a x e) (ground arith)
  | inr e ↦ mem-none_in a xs ys (&&-eq-true _ _ h).1 (ground arith)
]

protocol_classified : all_in actions (protect_actions ++ full_actions) ≡ true
unfolding all_in mem_text text_eq actions protect_actions full_actions
protocol_classified = refl

protect_in_protocol : all_in protect_actions actions ≡ true
unfolding all_in mem_text text_eq actions protect_actions
protect_in_protocol = refl

full_in_protocol : all_in full_actions actions ≡ true
unfolding all_in mem_text text_eq actions full_actions
full_in_protocol = refl

lists_disjoint : none_in protect_actions full_actions ≡ true
unfolding none_in mem_text text_eq protect_actions full_actions
lists_disjoint = refl

-- A string is an action of the protocol exactly when one of the two lists has it, and no string
-- stands in both lists.
pub actions_classified :
    (a : Text)
    → (mem_text a actions ≡ (mem_text a protect_actions || mem_text a full_actions))
      × (mem_text a protect_actions ≡ true → mem_text a full_actions ≡ false)
actions_classified a = (
  ground (
    arith,
    mem-all_in a actions (protect_actions ++ full_actions) protocol_classified,
    mem-append a protect_actions full_actions,
    mem-all_in a protect_actions actions protect_in_protocol,
    mem-all_in a full_actions actions full_in_protocol,
  ),
  mem-none_in a protect_actions full_actions lists_disjoint,
)
