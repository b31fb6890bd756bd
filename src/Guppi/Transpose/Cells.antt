-- ===== src/Guppi/Transpose/Cells.antt =====
-- The places that the loops of the two corner turns write.
use volt_rec.Base.{
  ℕ, zero, suc, ◌+◌, ◌*◌, ◌<◌, ◌≡◌, refl, ap, ◌∙◌, ◌≢◌, ◌⊎◌, inl, inr, Memory, arith, copy_strided,
  copy_strided-before, copy_strided_lem, copy_strided-off, InRow, row_cases, below_suc,
}
use volt_rec.Guppi.Transpose.{turn_channels}

pub turn_channels-before :
    (left ichan chans samps gap : ℕ) (databuf : Memory) (optr : ℕ) (payload : Memory) (from i : ℕ)
    → i < optr
    → turn_channels left ichan chans samps gap databuf optr payload from i ≡ databuf i
unfolding turn_channels
turn_channels-before zero ichan chans samps gap databuf optr payload from i h = refl
turn_channels-before (suc left) ichan chans samps gap databuf optr payload from i h =
    turn_channels-before left (ichan + 1) chans samps gap
      (copy_strided samps 4 4 (chans * 4) databuf optr payload (from + ichan * 4))
      (optr + samps * 4 + 4 * gap) payload from i (omega arith)
    ∙ copy_strided-before samps 4 4 (chans * 4) databuf optr payload (from + ichan * 4) i h

-- Sample `s` of the channel `c`.
pub turn_channels-in :
    (left ichan chans samps gap : ℕ) (databuf : Memory) (optr : ℕ) (payload : Memory)
    (from c s k : ℕ)
    → c < left
    → s < samps
    → k < 4
    → turn_channels left ichan chans samps gap databuf optr payload from
        (optr + c * (samps * 4 + 4 * gap) + s * 4 + k)
      ≡ payload (from + (ichan + c) * 4 + s * (chans * 4) + k)
unfolding turn_channels
turn_channels-in zero ichan chans samps gap databuf optr payload from c s k h l m =
    absurd (omega arith)
turn_channels-in (suc left) ichan chans samps gap databuf optr payload from zero s k h l m =
    let here : optr + 0 * (samps * 4 + 4 * gap) + s * 4 + k ≡ optr + s * 4 + k = omega arith in
    let source : from + ichan * 4 + s * (chans * 4) + k
        ≡ from + (ichan + 0) * 4 + s * (chans * 4) + k =
      ap (λ c. from + c * 4 + s * (chans * 4) + k) (omega arith) in
    let after = copy_strided samps 4 4 (chans * 4) databuf optr payload (from + ichan * 4) in
    ap (turn_channels (suc left) ichan chans samps gap databuf optr payload from) here
    ∙ turn_channels-before left (ichan + 1) chans samps gap after (optr + samps * 4 + 4 * gap)
        payload from (optr + s * 4 + k) (omega arith)
    ∙ copy_strided_lem samps 4 4 (chans * 4) databuf optr payload (from + ichan * 4) s k
        (omega arith) l m
    ∙ ap payload source
turn_channels-in (suc left) ichan chans samps gap databuf optr payload from (suc c) s k h l m =
    let after = copy_strided samps 4 4 (chans * 4) databuf optr payload (from + ichan * 4) in
    let here : optr + suc c * (samps * 4 + 4 * gap) + s * 4 + k
        ≡ optr + samps * 4 + 4 * gap + c * (samps * 4 + 4 * gap) + s * 4 + k =
      grind arith in
    let source : from + (ichan + 1 + c) * 4 + s * (chans * 4) + k
        ≡ from + (ichan + suc c) * 4 + s * (chans * 4) + k =
      ap (λ c. from + c * 4 + s * (chans * 4) + k) (omega arith) in
    ap (turn_channels (suc left) ichan chans samps gap databuf optr payload from) here
    ∙ turn_channels-in left (ichan + 1) chans samps gap after (optr + samps * 4 + 4 * gap) payload
        from c s k (omega arith) l m
    ∙ ap payload source

-- No sample of any channel is at this place.
abbrev pub OffChannels : ℕ → ℕ → ℕ → ℕ → ℕ → Type 0
OffChannels left row samps optr i =
    (c s k : ℕ) → c < left → s < samps → k < 4 → i ≢ optr + c * row + s * 4 + k

pub turn_channels-off :
    (left ichan chans samps gap : ℕ) (databuf : Memory) (optr : ℕ) (payload : Memory) (from i : ℕ)
    → OffChannels left (samps * 4 + 4 * gap) samps optr i
    → turn_channels left ichan chans samps gap databuf optr payload from i ≡ databuf i
unfolding turn_channels
turn_channels-off zero ichan chans samps gap databuf optr payload from i off = refl
turn_channels-off (suc left) ichan chans samps gap databuf optr payload from i off =
    turn_channels-off left (ichan + 1) chans samps gap
      (copy_strided samps 4 4 (chans * 4) databuf optr payload (from + ichan * 4))
      (optr + samps * 4 + 4 * gap) payload from i
      (λ c s k h l m e. off (suc c) s k (omega arith) l m (grind arith))
    ∙ copy_strided-off samps 4 4 (chans * 4) databuf optr payload (from + ichan * 4) i
        (λ s k l m e. off 0 s k (omega arith) l m (omega arith))

-- A place is in a sample of a channel, or off them all.
pub channel_cases :
    (left row samps optr i : ℕ)
    → ((c : ℕ) × (c < left) × InRow samps 4 4 (optr + c * row) i)
      ⊎ OffChannels left row samps optr i
channel_cases zero row samps optr i = inr (λ c s k h. absurd (omega arith))
channel_cases (suc left) row samps optr i = elim (row_cases samps 4 4 (optr + left * row) i) [
  | inl here ↦ inl (left, omega arith, here)
  | inr off ↦ elim (channel_cases left row samps optr i) [
    | inl (c, h, here) ↦ inl (c, omega arith, here)
    | inr others ↦ inr (λ c s k h l m e. elim (below_suc c left h) [
      | inl lower ↦ others c s k lower l m e
      | inr last ↦ off s k l m (e ∙ ap (λ c. optr + c * row + s * 4 + k) last)
    ])
  ]
]
