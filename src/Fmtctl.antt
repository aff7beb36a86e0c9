-- ===== src/Fmtctl.antt =====
-- lib/fmtctl/fmtctl.c: `fmtctl_parse`. A string is the list of its bytes, behind which a zero byte is
-- read; a number that does not fit an `int` is the result `none`, since its overflow is undefined.
pub mod Texts
pub mod Scanning
pub mod Tests
use pbos.Common.{
  ℕ, zero, suc, ◌+◌, ◌-◌, ◌*◌, ◌^◌, Bool, true, false, ◌&&◌, ◌||◌, Option, none, some, List, [],
  ◌∷◌, ltb, leb, ◌==◌, if◌then◌else◌,
}

-- `fmtctl_info_t`.
pub record Info : Type 0 where
  pub flags : ℕ
  pub width : ℕ
  pub precision : ℕ
  pub length : ℕ
  pub specifier : ℕ

-- `n_scanned`, and the bytes of the string from there on.
pub record Cursor : Type 0 where
  pub n_scanned : ℕ
  pub ahead : List ℕ

unfoldable pub char_at : Cursor → ℕ
char_at c = elim c.ahead [ [] ↦ 0 | b ∷ rest ↦ b ]

unfoldable pub advance : Cursor → Cursor
advance c = record {
  n_scanned = c.n_scanned + 1;
  ahead = elim c.ahead [ [] ↦ [] | b ∷ rest ↦ rest ];
}

-- FMTCTL_SPECIFIER_STR.
abbrev pub specifier_str : ℕ
specifier_str = 8

-- `-`, `+`, `#`, `0` and the space.
unfoldable pub scan_flags : Cursor → ℕ × Cursor
unfolding char_at advance
scan_flags c =
    let b = char_at c in
    if b == 45
    then (1, advance c)
    else if b == 43
    then (2, advance c)
    else if b == 35
    then (3, advance c)
    else if b == 48
    then (4, advance c)
    else if b == 32
    then (0, advance c)
    else (0, c)

unfoldable pub is_digit : ℕ → Bool
is_digit b = leb 48 b && leb b 57

-- The loops over digits, with the bytes from `n` on.
unfoldable pub scan_digits : ℕ → ℕ → List ℕ → Option (ℕ × Cursor)
unfolding is_digit
scan_digits w n [] = some (w, record { n_scanned = n; ahead = [] })
scan_digits w n (b ∷ rest) =
    let v = w * 10 + (b - 48) in
    elim (is_digit b) [
      | false ↦ some (w, record { n_scanned = n; ahead = b ∷ rest })
      | true ↦ elim (ltb v (2 ^ 31)) [ true ↦ scan_digits v (n + 1) rest | false ↦ none ]
    ]

-- Behind a point.
unfoldable pub scan_precision : Cursor → Option (ℕ × Cursor)
unfolding char_at advance scan_digits
scan_precision c =
    if char_at c == 46
    then (let d = advance c in scan_digits 0 d.n_scanned d.ahead)
    else some (0, c)

-- `h`, `l` and `L`.
unfoldable pub scan_length : Cursor → ℕ × Cursor
unfolding char_at advance
scan_length c =
    let b = char_at c in
    if b == 104
    then (1, advance c)
    else if b == 108
    then (2, advance c)
    else if b == 76
    then (3, advance c)
    else (0, c)

-- The specifiers of one byte: `d`, `o`, `X`, `x`, `u`, `f`, `E`, `e`, `G`, `g`, `c`, `s`, `p`.
unfoldable pub one_byte : ℕ → Option ℕ
one_byte b =
    if b == 100
    then some 0
    else if b == 111
    then some 1
    else if b == 88 || b == 120
    then some 2
    else if b == 117
    then some 3
    else if b == 102
    then some 4
    else if b == 69 || b == 101
    then some 5
    else if b == 71 || b == 103
    then some 6
    else if b == 99
    then some 7
    else if b == 115
    then some 8
    else if b == 112
    then some 9
    else none

-- The case of `l`, from behind it: the specifier that is set in the end, and the place; `none` is a
-- `return 0`.
unfoldable pub long_specifier : Cursor → Option (ℕ × Cursor)
unfolding char_at advance
long_specifier c =
    if char_at c == 117
    then some (specifier_str, advance c)
    else if char_at c == 108
    then if char_at (advance c) == 117 then some (specifier_str, advance c) else none
    else none

unfoldable pub scan_specifier : Cursor → Option (ℕ × Cursor)
unfolding one_byte long_specifier char_at advance
scan_specifier c = elim (one_byte (char_at c)) [
  | some specifier ↦ some (specifier, advance c)
  | none ↦ if char_at c == 108 then long_specifier (advance c) else none
]

-- The last switch, and the return.
unfoldable pub finish : Cursor → Info → ℕ × Info
unfolding scan_specifier
finish c dest = elim (scan_specifier c) [
  | none ↦ (0, dest)
  | some r ↦ (r.1.n_scanned, record dest { specifier = r.0 })
]

-- What `fmtctl_parse` does behind the percent sign.
unfoldable pub scan_parts : Cursor → Info → Option (ℕ × Info)
unfolding scan_flags scan_digits scan_precision scan_length finish
scan_parts c dest =
    let f = scan_flags c in
    elim (scan_digits 0 f.1.n_scanned f.1.ahead) [
      | none ↦ none
      | some w ↦ elim (scan_precision w.1) [
        | none ↦ none
        | some p ↦
            let l = scan_length p.1 in
            some (
              finish l.1 (record {
                flags = f.0;
                width = w.0;
                precision = p.0;
                length = l.0;
                specifier = dest.specifier;
              }))
      ]
    ]

-- `fmtctl_parse`: the count of the bytes, and the information.
unfoldable pub parse : List ℕ → Info → Option (ℕ × Info)
unfolding scan_parts char_at advance
parse str dest =
    let start : Cursor = record { n_scanned = 0; ahead = str } in
    if char_at start == 37 then scan_parts (advance start) dest else some (0, dest)
