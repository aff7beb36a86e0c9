-- ===== src/Fmtctl/Tests.antt =====
-- Runs of `fmtctl_parse`.
use pbos.Common.{[], ◌∷◌, length}
use pbos.Fmtctl.{Info}
use pbos.Fmtctl.Texts.{Format, zeros, long, lower_hex}

-- `%016.8lx`, with the zero as the flag.
abbrev address : Format
address = record {
  flag = zeros;
  wide = 1 ∷ 6 ∷ [];
  precise = 8 ∷ [];
  size = long;
  conversion = lower_hex;
}

abbrev nothing : Info
nothing = record { flags = 0; width = 0; precision = 0; length = 0; specifier = 0 }
