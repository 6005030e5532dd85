-- ===== src/Prelude/Text.antt =====
-- What the code uses of Go's `fmt` and `strings`: numbers in decimal, lower case, white space,
-- substrings.
use Prim.Native.Nat.{ℕ, zero, suc, ◌-◌, ◌/◌, ◌%◌}
use Prim.Native.Char.{Char, code}
use Prim.Native.String.{String, char_at, ◌++◌}
use mathlib.Core.Bool.{Bool, ◌&&◌, ◌||◌}
use mathlib.Core.Option.{Option, none, some}
use text.Mathlib.Text.{find?, get?}
use almichot_cloud.Prelude.Tests.{ltb, leb, eqb, str_eq, if◌then◌else◌, is_some}
use almichot_cloud.Prelude.GoInt.{ℤ, pos, negsuc}

-- The digits of `n` in front of `rest`; `suc n` rounds are enough.
abbrev digits : ℕ → ℕ → String → String
digits zero n rest = rest
digits (suc rounds) n rest =
    let longer = String.◌∷◌ (char_at "0123456789" (n % 10)) rest in
    let more = digits rounds (n / 10) longer in if ltb n 10 then longer else more

-- %d
unfoldable pub decimal : ℤ → String
decimal (pos n) = digits (suc n) n ""
decimal (negsuc n) = "-" ++ digits (suc (suc n)) (suc n) ""

abbrev lower : Char → Char
lower c =
    if leb 65 (code c) && leb (code c) 90
    then char_at "abcdefghijklmnopqrstuvwxyz" (code c - 65)
    else c

-- strings.ToLower on ASCII
unfoldable pub to_lower : String → String
to_lower String.[] = ""
to_lower (String.◌∷◌ c s) = String.◌∷◌ (lower c) (to_lower s)

abbrev is_space : Char → Bool
is_space c = eqb (code c) 32 || leb 9 (code c) && leb (code c) 13

-- strings.TrimSpace on ASCII, at its two ends.
trim_right : String → String
trim_right String.[] = ""
trim_right (String.◌∷◌ c s) =
    let rest = trim_right s in if is_space c && str_eq rest "" then "" else String.◌∷◌ c rest

trim_left : String → String
trim_left String.[] = ""
trim_left (String.◌∷◌ c s) = let rest = trim_left s in if is_space c then rest else String.◌∷◌ c s

unfoldable pub trim_space : String → String
unfolding trim_left trim_right
trim_space s = trim_right (trim_left s)

-- strings.Contains
abbrev pub contains : String → String → Bool
contains s part = is_some (find? s part)

abbrev or_text : String → Option String → String
or_text s none = s
or_text s (some t) = t

-- s[:8] of an ID that is a UUID, so at least 8 bytes long.
abbrev pub short_id : String → String
short_id s = or_text s (get? s 0 8)
