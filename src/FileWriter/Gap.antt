-- ===== src/FileWriter/Gap.antt =====
-- The header of a file that begins after a gap.
use volt_rec.Base.{ℕ, ◌+◌, ◌-◌, ◌*◌, [], List, ◌∷◌}
use volt_rec.Formats.{time_int_per_buffer}

-- What the gaps have added to the start of the recording, with the order numbers that the files after
-- them began with.
abbrev pub shift : List ℕ → ℕ
shift [] = 0
shift (order ∷ earlier) = order * time_int_per_buffer - 1 + shift earlier
