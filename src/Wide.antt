-- ===== src/Wide.antt =====
-- half_hashpipe/hpguppi_util.c: bzero_nt and memcpy_nt, which work on words of 512 bits or, without
-- AVX512F, of 256 bits. The intrinsics load and store one aligned word. Source and destination are
-- different memories.
pub mod Whole
use volt_rec.Base.{
  ℕ, zero, suc, ◌+◌, ◌/◌, ◌^◌, Bool, true, false, ◌&&◌, Memory, ltb, leb, if◌then◌else◌,
  copy_strided,
}

-- SIZE_NT: the logarithm of the bytes of a word, with AVX512F or with AVX2.
abbrev pub size_nt : Bool → ℕ
size_nt true = 6
size_nt false = 5

abbrev pub word_bytes : Bool → ℕ
word_bytes avx512f = 2 ^ size_nt avx512f

-- *pwide++ = zero
abbrev pub zero_word : ℕ → Memory → ℕ → Memory
zero_word unit dst to i = if leb to i && ltb i (to + unit) then 0 else dst i

-- The loop of bzero_nt, with `left` words to go.
unfoldable pub zero_words : ℕ → ℕ → Memory → ℕ → Memory
zero_words unit zero dst to = dst
zero_words unit (suc left) dst to = zero_words unit left (zero_word unit dst to) (to + unit)

unfoldable pub bzero_nt : Bool → Memory → ℕ → ℕ → Memory
unfolding zero_words
bzero_nt avx512f dst to len = zero_words (word_bytes avx512f) (len / word_bytes avx512f) dst to

-- Each round stores the word that it loads, and moves both pointers on by a word.
unfoldable pub memcpy_nt : Bool → Memory → ℕ → Memory → ℕ → ℕ → Memory
memcpy_nt avx512f dst to src from len =
    let unit = word_bytes avx512f in copy_strided (len / unit) unit unit unit dst to src from
