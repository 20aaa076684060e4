-- ===== src/Base/Strings.antt =====
-- The functions of Go's package strings that the agent calls, on lists of code points.
use Prim.Native.Nat.{ℕ}
use mathlib.Core.Bool.{Bool, true, false, ◌&&◌, ◌||◌}
use mathlib.Core.List.{List, [], ◌∷◌, ◌++◌}
use serverkit_agent.Base.Tests.{◌==◌, leb, if◌then◌else◌}
use serverkit_agent.Base.Lists.{drop, length}
use serverkit_agent.Base.Texts.{Text}

-- unicode.IsSpace.
unfoldable pub is_space : ℕ → Bool
is_space c =
    leb 0x09 c && leb c 0x0d
    || c == 0x20
    || c == 0x85
    || c == 0xa0
    || c == 0x1680
    || leb 0x2000 c && leb c 0x200a
    || c == 0x2028
    || c == 0x2029
    || c == 0x202f
    || c == 0x205f
    || c == 0x3000

unfoldable pub trim_left : Text → Text
trim_left [] = []
trim_left (c ∷ s) = let rest = trim_left s in if is_space c then rest else c ∷ s

-- `c` stands before a text that is trimmed on the right.
abbrev pub keep_if : (ℕ → Bool) → ℕ → Text → Text
keep_if p c [] = if p c then [] else c ∷ []
keep_if p c (x ∷ r) = c ∷ x ∷ r

unfoldable pub trim_right_by : (ℕ → Bool) → Text → Text
trim_right_by p [] = []
trim_right_by p (c ∷ s) = keep_if p c (trim_right_by p s)

-- strings.TrimSpace.
unfoldable pub trim_space : Text → Text
unfolding trim_left trim_right_by
trim_space s = trim_right_by is_space (trim_left s)

-- strings.HasPrefix(s, prefix).
unfoldable pub has_prefix : Text → Text → Bool
has_prefix s [] = true
has_prefix [] (p ∷ ps) = false
has_prefix (c ∷ s) (p ∷ ps) = (c == p) && has_prefix s ps

-- strings.TrimPrefix(s, prefix).
unfoldable pub trim_prefix : Text → Text → Text
unfolding has_prefix
trim_prefix s p = if has_prefix s p then drop (length p) s else s

-- strings.Contains(s, substr).
unfoldable pub contains : Text → Text → Bool
unfolding has_prefix
contains [] sub = has_prefix [] sub
contains (c ∷ s) sub = has_prefix (c ∷ s) sub || contains s sub

abbrev pub cons_first : ℕ → List Text → List Text
cons_first c [] = (c ∷ []) ∷ []
cons_first c (l ∷ ls) = (c ∷ l) ∷ ls

-- strings.Split(s, string(sep)).
unfoldable pub split : ℕ → Text → List Text
split sep [] = [] ∷ []
split sep (c ∷ s) = let rest = split sep s in if c == sep then [] ∷ rest else cons_first c rest

-- strings.Join(parts, sep).
unfoldable pub join : Text → List Text → Text
join sep [] = []
join sep (l ∷ []) = l
join sep (l ∷ m ∷ ls) = l ++ sep ++ join sep (m ∷ ls)

abbrev pub starts_word : Text → Bool
starts_word [] = false
starts_word (c ∷ s) = if is_space c then false else true

-- strings.Fields.
unfoldable pub fields : Text → List Text
fields [] = []
fields (c ∷ s) =
    let rest = fields s in
    if is_space c then rest else if starts_word s then cons_first c rest else (c ∷ []) ∷ rest
