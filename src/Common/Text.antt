-- ===== src/Common/Text.antt =====
-- Tests on texts: character classes, the patterns of fixed length, blank texts, members of a list.
use Prim.Native.Char.{code}
use Prim.Native.String.{String}
use text.Mathlib.Text.{◌==◌ as str_eq}
use text.Mathlib.TextEquality.{eq_iff}
use text.Mathlib.TextPositions.{eq_refl}
use Prim.Native.Nat.{ℕ, suc}
use mathlib.Core.Path.{◌≡◌, refl}
use mathlib.Core.Bool.{Bool, true, false, ◌&&◌, ◌||◌}
use mathlib.Core.Option.{Option, none, some}
use mathlib.Core.List.{List, [], ◌∷◌}
use flop_agent_intelligence.Common.Tests.{leb, ◌==◌}

-- The code points of a text.
abbrev pub codes : String → List ℕ
codes String.[] = []
codes (String.◌∷◌ c s) = code c ∷ codes s

unfoldable pub all_codes : (ℕ → Bool) → List ℕ → Bool
all_codes test [] = true
all_codes test (c ∷ cs) = test c && all_codes test cs

unfoldable pub count_codes : List ℕ → ℕ
count_codes [] = 0
count_codes (c ∷ cs) = suc (count_codes cs)

abbrev pub is_digit : ℕ → Bool
is_digit c = leb b'0' c && leb c b'9'

abbrev pub is_lower : ℕ → Bool
is_lower c = leb b'a' c && leb c b'z'

abbrev pub is_upper : ℕ → Bool
is_upper c = leb b'A' c && leb c b'Z'

abbrev pub is_hex : ℕ → Bool
is_hex c = is_digit c || (leb b'a' c && leb c b'f')

-- `[0-9a-f]{64}`
unfoldable pub is_sha256 : String → Bool
unfolding all_codes count_codes
is_sha256 s = count_codes (codes s) == 64 && all_codes is_hex (codes s)

-- `[0-9a-f]{40}`
unfoldable pub is_revision : String → Bool
unfolding all_codes count_codes
is_revision s = count_codes (codes s) == 40 && all_codes is_hex (codes s)

is_id_code : ℕ → Bool
is_id_code c =
    is_lower c || is_upper c || is_digit c || c == b'.' || c == b'_' || c == b':' || c == b'-'

-- `[A-Za-z0-9._:-]{1,128}`
unfoldable pub is_safe_id : String → Bool
unfolding all_codes count_codes is_id_code
is_safe_id s =
    leb 1 (count_codes (codes s))
    && leb (count_codes (codes s)) 128
    && all_codes is_id_code (codes s)

abbrev pub is_room_code : ℕ → Bool
is_room_code c = is_lower c || is_digit c || c == b'_' || c == b'-'

-- `[a-z0-9][a-z0-9_-]{0,47}`
unfoldable pub is_room_codes : List ℕ → Bool
unfolding all_codes count_codes
is_room_codes [] = false
is_room_codes (c ∷ cs) =
    (is_lower c || is_digit c) && leb (count_codes cs) 47 && all_codes is_room_code cs

-- `str.isspace` of one character
is_space : ℕ → Bool
is_space c =
    (leb 9 c && leb c 13)
    || (leb 28 c && leb c 32)
    || c == 0x85
    || c == 0xa0
    || c == 0x1680
    || (leb 0x2000 c && leb c 0x200a)
    || c == 0x2028
    || c == 0x2029
    || c == 0x202f
    || c == 0x205f
    || c == 0x3000

-- `not text.strip()`
unfoldable pub is_blank : String → Bool
unfolding is_space
is_blank String.[] = true
is_blank (String.◌∷◌ c s) = is_space (code c) && is_blank s

-- `text in texts`
unfoldable pub is_member : String → List String → Bool
is_member s [] = false
is_member s (t ∷ ts) = str_eq t s || is_member s ts

-- `a == b` of values that may be `None`
abbrev pub same_text : Option String → Option String → Bool
same_text none none = true
same_text (some a) (some b) = str_eq a b
same_text _ _ = false

pub str_eq→eq : (s t : String) → str_eq s t ≡ true → s ≡ t
str_eq→eq s t = (eq_iff s t).0

pub same_text_refl : (t : Option String) → same_text t t ≡ true
same_text_refl none = refl
same_text_refl (some s) = eq_refl s
