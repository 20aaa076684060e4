-- ===== src/Base/Matching.antt =====
-- Character classes of the regular expressions in the source, on code points.
use Prim.Native.Nat.{ℕ}
use mathlib.Core.Bool.{Bool, true, ◌&&◌, ◌||◌}
use mathlib.Core.List.{[], ◌∷◌}
use serverkit_agent.Base.Tests.{leb}
use serverkit_agent.Base.Texts.{Text}

unfoldable pub all_chars : (ℕ → Bool) → Text → Bool
all_chars p [] = true
all_chars p (c ∷ s) = p c && all_chars p s

abbrev pub digit : ℕ → Bool
digit c = leb b'0' c && leb c b'9'

abbrev pub lower : ℕ → Bool
lower c = leb b'a' c && leb c b'z'

abbrev pub letter : ℕ → Bool
letter c = lower c || (leb b'A' c && leb c b'Z')
