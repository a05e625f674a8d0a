-- ===== src/Prelude/Texts.antt =====
-- Text as Go's `strings` reads it: code points, `strings.TrimSpace(s) == ""`, and character ranges.
use Prim.Native.Nat.{ℕ}
use Prim.Native.Char.{code}
use Prim.Native.String.{String}
use mathlib.Core.Path.{◌≡◌, refl}
use mathlib.Core.Bool.{Bool, true, false, ◌&&◌, ◌||◌}
use mathlib.Core.List.{List, [], ◌∷◌}
use doublangu.Prelude.Tests.{leb, ◌==◌, if◌then◌else◌}

abbrev pub codes : String → List ℕ
codes String.[] = []
codes (String.◌∷◌ c s) = code c ∷ codes s

-- unicode.IsSpace
unfoldable pub is_space : ℕ → Bool
is_space c =
    leb 9 c && leb c 13
    || c == 32
    || c == 0x85
    || c == 0xa0
    || c == 0x1680
    || leb 0x2000 c && leb c 0x200a
    || c == 0x2028
    || c == 0x2029
    || c == 0x202f
    || c == 0x205f
    || c == 0x3000

unfoldable pub all_space : List ℕ → Bool
unfolding is_space
all_space [] = true
all_space (c ∷ s) = is_space c && all_space s

-- strings.TrimSpace(s) == ""
unfoldable pub is_blank : String → Bool
unfolding all_space
is_blank s = all_space (codes s)

abbrev pub has_no_text : String → Bool
has_no_text String.[] = true
has_no_text _ = false

-- strings.TrimSpace
unfoldable pub trim_left : String → String
unfolding is_space
trim_left String.[] = String.[]
trim_left (String.◌∷◌ c s) = if is_space (code c) then trim_left s else String.◌∷◌ c s

unfoldable pub trim_right : String → String
unfolding is_space
trim_right String.[] = String.[]
trim_right (String.◌∷◌ c s) =
    let rest = trim_right s in
    if has_no_text rest && is_space (code c) then String.[] else String.◌∷◌ c rest

unfoldable pub trim_space : String → String
unfolding trim_left trim_right
trim_space s = trim_right (trim_left s)

blank_texts : (is_blank "" ≡ true) × (is_blank " \t" ≡ true) × (is_blank "a " ≡ false)
unfolding is_blank
blank_texts = (refl, refl, refl)

trimmed_text : trim_space " a b  " ≡ "a b"
unfolding trim_space
trimmed_text = refl
