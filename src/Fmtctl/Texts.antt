-- ===== src/Fmtctl/Texts.antt =====
-- The texts of format specifiers, and what each one says.
use pbos.Common.{ℕ, ◌+◌, ◌*◌, ◌^◌, ◌<◌, List, [], ◌∷◌, ◌++◌, All}
use pbos.Fmtctl.{Info}

-- The parts of a specifier.
pub data Flag : Type 0 where
  no_flag minus plus hash zeros space : Flag

pub data Length : Type 0 where
  no_length half long long_float : Length

pub data Conversion : Type 0 where
  dec oct upper_hex lower_hex unsigned float upper_exp lower_exp upper_trim lower_trim : Conversion
  char str ptr : Conversion

-- Width and precision are lists of decimal digits, the first one in front.
pub record Format : Type 0 where
  pub flag : Flag
  pub wide : List ℕ
  pub precise : List ℕ
  pub size : Length
  pub conversion : Conversion

abbrev pub flag_text : Flag → List ℕ
flag_text no_flag = []
flag_text minus = 45 ∷ []
flag_text plus = 43 ∷ []
flag_text hash = 35 ∷ []
flag_text zeros = 48 ∷ []
flag_text space = 32 ∷ []

abbrev pub flag_value : Flag → ℕ
flag_value no_flag = 0
flag_value minus = 1
flag_value plus = 2
flag_value hash = 3
flag_value zeros = 4
flag_value space = 0

abbrev pub length_text : Length → List ℕ
length_text no_length = []
length_text half = 104 ∷ []
length_text long = 108 ∷ []
length_text long_float = 76 ∷ []

abbrev pub length_value : Length → ℕ
length_value no_length = 0
length_value half = 1
length_value long = 2
length_value long_float = 3

abbrev pub conversion_byte : Conversion → ℕ
conversion_byte dec = 100
conversion_byte oct = 111
conversion_byte upper_hex = 88
conversion_byte lower_hex = 120
conversion_byte unsigned = 117
conversion_byte float = 102
conversion_byte upper_exp = 69
conversion_byte lower_exp = 101
conversion_byte upper_trim = 71
conversion_byte lower_trim = 103
conversion_byte char = 99
conversion_byte str = 115
conversion_byte ptr = 112

abbrev pub conversion_value : Conversion → ℕ
conversion_value dec = 0
conversion_value oct = 1
conversion_value upper_hex = 2
conversion_value lower_hex = 2
conversion_value unsigned = 3
conversion_value float = 4
conversion_value upper_exp = 5
conversion_value lower_exp = 5
conversion_value upper_trim = 6
conversion_value lower_trim = 6
conversion_value char = 7
conversion_value str = 8
conversion_value ptr = 9

abbrev pub digits_text : List ℕ → List ℕ
digits_text [] = []
digits_text (d ∷ ds) = (48 + d) ∷ digits_text ds

-- The number that the digits stand for, behind those that stand for `w`.
abbrev pub digits_value : ℕ → List ℕ → ℕ
digits_value w [] = w
digits_value w (d ∷ ds) = digits_value (w * 10 + d) ds

abbrev pub precision_text : List ℕ → List ℕ
precision_text [] = []
precision_text (d ∷ ds) = 46 ∷ digits_text (d ∷ ds)

-- What follows the flag.
abbrev pub behind_precision : Format → List ℕ → List ℕ
behind_precision f rest = length_text f.size ++ (conversion_byte f.conversion ∷ rest)

abbrev pub text : Format → List ℕ → List ℕ
text f rest =
    37
    ∷ (flag_text f.flag
        ++ (digits_text f.wide ++ (precision_text f.precise ++ behind_precision f rest)))

abbrev pub info : Format → Info
info f = record {
  flags = flag_value f.flag;
  width = digits_value 0 f.wide;
  precision = digits_value 0 f.precise;
  length = length_value f.size;
  specifier = conversion_value f.conversion;
}

-- Digits are below ten, the width does not begin with a zero, which would be read as a flag, and both
-- numbers fit an `int`.
abbrev pub IsDigits : List ℕ → Type 0
IsDigits ds = All (λ d. d < 10) ds

abbrev pub BeginsPositive : List ℕ → Type 0
BeginsPositive [] = Unit
BeginsPositive (d ∷ ds) = 0 < d

abbrev pub IsFormat : Format → Type 0
IsFormat f =
    IsDigits f.wide
    × BeginsPositive f.wide
    × (digits_value 0 f.wide < 2 ^ 31)
    × IsDigits f.precise
    × (digits_value 0 f.precise < 2 ^ 31)
