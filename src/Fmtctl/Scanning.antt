-- ===== src/Fmtctl/Scanning.antt =====
-- Each text of a format specifier is scanned to what it says.
use pbos.Common.{ℕ, ◌≡◌, refl, Bool, false, ◌||◌, some, List, [], ◌∷◌, length, ◌==◌}
use pbos.Fmtctl.{
  Info, char_at, advance, specifier_str, scan_flags, is_digit, scan_digits, scan_precision,
  scan_length, one_byte, long_specifier, scan_specifier, finish, scan_parts, parse,
}

-- A text that does not go on with a digit.
abbrev Stops : List ℕ → Type 0
Stops [] = Unit
Stops (b ∷ rest) = is_digit b ≡ false

abbrev head_of : List ℕ → ℕ
head_of [] = 0
head_of (b ∷ rest) = b

abbrev is_flag : ℕ → Bool
is_flag b = b == 45 || (b == 43 || (b == 35 || (b == 48 || b == 32)))

-- What follows a part begins with no flag, and with no point.
abbrev Begins : List ℕ → Type 0
Begins rest = (is_flag (head_of rest) ≡ false) × ((head_of rest == 46) ≡ false)

-- Whatever follows: `fmtctl_parse` scans `%llu` to a string of length `l`, since its first `l` is
-- taken as the length and the specifier of `lu` is replaced by that of `s` in the end.
parse-llu :
    (rest : List ℕ) (dest : Info)
    → parse (37 ∷ 108 ∷ 108 ∷ 117 ∷ rest) dest
      ≡ some
          (4, record { flags = 0; width = 0; precision = 0; length = 2; specifier = specifier_str })
unfolding parse scan_parts scan_flags scan_digits is_digit scan_precision scan_length finish
    scan_specifier one_byte long_specifier char_at advance
parse-llu rest dest = refl
