-- ===== src/Wide/Whole.antt =====
-- The wide copies are memset and memcpy of the whole words of a length.
use volt_rec.Base.{
  ℕ, zero, suc, ◌+◌, ◌-◌, ◌*◌, ◌/◌, ◌%◌, ◌≡◌, ap, ◌∙◌, arith, Bool, true, false, Memory, ◌&&◌, ltb,
  leb, if◌then◌else◌, copy, copy_strided-copy,
}
use volt_rec.Wide.{word_bytes, zero_word, zero_words, bzero_nt, memcpy_nt}

zero_word-zero_word :
    (n m : ℕ) (dst : Memory) (to i : ℕ)
    → zero_word m (zero_word n dst to) (to + n) i ≡ zero_word (n + m) dst to i
zero_word-zero_word n m dst to i = ground arith

zero_words-zero_word :
    (left unit : ℕ) (dst : Memory) (to i : ℕ)
    → zero_words unit left dst to i ≡ zero_word (left * unit) dst to i
unfolding zero_words
zero_words-zero_word zero unit dst to i = ground arith
zero_words-zero_word (suc left) unit dst to i =
    let size : unit + left * unit ≡ suc left * unit = grind arith in
    zero_words-zero_word left unit (zero_word unit dst to) (to + unit) i
    ∙ zero_word-zero_word unit (left * unit) dst to i
    ∙ ap (λ (n : ℕ). zero_word n dst to i) size

whole_words :
    (avx512f : Bool) (len : ℕ)
    → len / word_bytes avx512f * word_bytes avx512f ≡ len - len % word_bytes avx512f
whole_words true len = omega arith
whole_words false len = omega arith

-- memcpy_nt is memcpy, and bzero_nt is memset with zero, of the length without its rest behind the
-- last whole word; where the length is a multiple of the word they are those of the length itself.
pub wide_copies_lem :
    (avx512f : Bool) (dst : Memory) (to : ℕ) (src : Memory) (from len i : ℕ)
    → (memcpy_nt avx512f dst to src from len i
        ≡ copy dst to src from (len - len % word_bytes avx512f) i)
      × (bzero_nt avx512f dst to len i
          ≡ (if leb to i && ltb i (to + (len - len % word_bytes avx512f)) then 0 else dst i))
unfolding memcpy_nt bzero_nt
wide_copies_lem avx512f dst to src from len i = (
  copy_strided-copy (len / word_bytes avx512f) (word_bytes avx512f) dst to src from i
      ∙ ap (λ (n : ℕ). copy dst to src from n i) (whole_words avx512f len),
  zero_words-zero_word (len / word_bytes avx512f) (word_bytes avx512f) dst to i
      ∙ ap (λ (n : ℕ). zero_word n dst to i) (whole_words avx512f len),
)
