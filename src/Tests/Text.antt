-- ===== src/Tests/Text.antt =====
-- A device string, with a character of each length.
use darwin_gpib.Prelude.{ℕ, List, [], ◌∷◌}

abbrev title : List ℕ
title = 0x4e ∷ 0xb5 ∷ 0x20ac ∷ []
