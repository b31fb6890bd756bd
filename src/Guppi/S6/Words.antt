-- ===== src/Guppi/S6/Words.antt =====
-- The bytes of the words that the copies of S6 packets put.
use volt_rec.Base.{ℕ, zero, suc, ◌+◌, ◌*◌, ◌<◌, ◌≡◌, arith, byte_of}
use volt_rec.Guppi.S6.{unpack, first_row_word, second_row_word}

-- Byte `r` of the polarization `p` of the channel `e` of a word.
pub unpack-byte :
    (d e p r : ℕ)
    → e < 2
    → p < 2
    → r < 2
    → byte_of (unpack d) (4 * e + 2 * p + r) ≡ byte_of d (4 * p + 2 * e + r)
unfolding unpack
unpack-byte d zero zero zero a b c = omega arith
unpack-byte d zero zero (suc zero) a b c = omega arith
unpack-byte d zero (suc zero) zero a b c = omega arith
unpack-byte d zero (suc zero) (suc zero) a b c = omega arith
unpack-byte d (suc zero) zero zero a b c = omega arith
unpack-byte d (suc zero) zero (suc zero) a b c = omega arith
unpack-byte d (suc zero) (suc zero) zero a b c = omega arith
unpack-byte d (suc zero) (suc zero) (suc zero) a b c = omega arith
unpack-byte d (suc (suc e)) p r a b c = absurd (omega arith)
unpack-byte d zero (suc (suc p)) r a b c = absurd (omega arith)
unpack-byte d (suc zero) (suc (suc p)) r a b c = absurd (omega arith)
unpack-byte d zero zero (suc (suc r)) a b c = absurd (omega arith)
unpack-byte d zero (suc zero) (suc (suc r)) a b c = absurd (omega arith)
unpack-byte d (suc zero) zero (suc (suc r)) a b c = absurd (omega arith)
unpack-byte d (suc zero) (suc zero) (suc (suc r)) a b c = absurd (omega arith)

-- The first row is of the second channel of the word.
pub first_row_word-byte :
    (d p r : ℕ) → p < 2 → r < 2 → byte_of (first_row_word d) (2 * p + r) ≡ byte_of d (4 * p + 2 + r)
unfolding first_row_word
first_row_word-byte d zero zero b c = omega arith
first_row_word-byte d zero (suc zero) b c = omega arith
first_row_word-byte d (suc zero) zero b c = omega arith
first_row_word-byte d (suc zero) (suc zero) b c = omega arith
first_row_word-byte d (suc (suc p)) r b c = absurd (omega arith)
first_row_word-byte d zero (suc (suc r)) b c = absurd (omega arith)
first_row_word-byte d (suc zero) (suc (suc r)) b c = absurd (omega arith)

-- The second row is of the first channel of the word.
pub second_row_word-byte :
    (d p r : ℕ)
    → p < 2
    → r < 2
    → byte_of (second_row_word d) (2 * p + r) ≡ byte_of d (4 * p + 0 + r)
unfolding second_row_word
second_row_word-byte d zero zero b c = omega arith
second_row_word-byte d zero (suc zero) b c = omega arith
second_row_word-byte d (suc zero) zero b c = omega arith
second_row_word-byte d (suc zero) (suc zero) b c = omega arith
second_row_word-byte d (suc (suc p)) r b c = absurd (omega arith)
second_row_word-byte d zero (suc (suc r)) b c = absurd (omega arith)
second_row_word-byte d (suc zero) (suc (suc r)) b c = absurd (omega arith)
