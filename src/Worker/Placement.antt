-- ===== src/Worker/Placement.antt =====
-- Where an accepted packet is copied: inside the buffer, and apart from every other packet.
use volt_rec.Base.{
  ℕ, ◌+◌, ◌-◌, ◌*◌, ◌/◌, ◌^◌, ◌≤◌, ◌<◌, ◌≡◌, ◌≢◌, ◌⊎◌, inl, inr, ◌↔◌, true, false, some, List,
  arith, Option-cases, ap,
}
use native.Mathlib.Decide.{dec_lt}
use volt_rec.Formats.{get_chan_no, rx_data_len, file_buffer_size, time_int_per_buffer, get_ant_no}
use volt_rec.Antennas.{get_ant_index}
use volt_rec.Antennas.Laws.{get_ant_index-lt}
use volt_rec.Worker.State.{FileBuff, bad_config, data_len_out}
use volt_rec.Worker.Packets.{curr_chan_no, chan_in_range, Place, accept, offset}

-- For a first channel of 32 bits and at most 32 channel packets, the test of worker_work on the
-- wrapped difference accepts exactly the channels that are not below the first one and whose
-- channel packet is in range, and for these the computed channel packet is the quotient of the true
-- difference.
pub chan_in_range_iff :
    (h first_chan n_chans : ℕ)
    → first_chan < 2 ^ 32
    → n_chans ≤ 32
    → (chan_in_range h first_chan n_chans ≡ true) ↔ (
        (first_chan ≤ get_chan_no h)
        × ((get_chan_no h - first_chan) / 256 < n_chans)
        × (curr_chan_no h first_chan ≡ (get_chan_no h - first_chan) / 256))
chan_in_range_iff h first_chan n_chans hf hn = (
  λ e. let le : first_chan ≤ get_chan_no h = ground arith in (le, ground arith, omega arith),
  λ b. ground arith,
)

-- A place that fits the block.
pub record InBlock (f : FileBuff) (p : Place) : Type 0 where
  pub rest_in : p.rest < time_int_per_buffer
  pub ant_in : p.ant < f.n_ants
  pub chan_in : p.chan < f.n_chans

pub bad_config_lem :
    (f : FileBuff)
    → bad_config f ≡ false
    → (1 ≤ f.n_ants) × (f.n_ants ≤ 4) × (1 ≤ f.n_chans) × (f.n_chans ≤ 32)
unfolding bad_config
bad_config_lem f h = ground arith

pub accept-InBlock :
    (f : FileBuff) (ants : List ℕ) (h : ℕ) {p : Place} → accept f ants h ≡ some p → InBlock f p
unfolding accept
accept-InBlock f ants h {p} e = elim (Option-cases (get_ant_index ants (get_ant_no h) f.n_ants)) [
  | inl missing ↦ absurd (ground arith)
  | inr (i, found) ↦ ground (arith, get_ant_index-lt ants (get_ant_no h) f.n_ants found)
]

-- The index of a place among the packets of a block.
abbrev pub packet_index : FileBuff → Place → ℕ
packet_index f p = (p.rest * f.n_ants + p.ant) * f.n_chans + p.chan

row-lt : (r w c h : ℕ) → r < h → c < w → r * w + c < h * w
row-lt r w c h p q = grind arith

packet_index-lt :
    (f : FileBuff) (p : Place)
    → InBlock f p
    → packet_index f p < time_int_per_buffer * f.n_ants * f.n_chans
packet_index-lt f p v =
    row-lt (p.rest * f.n_ants + p.ant) f.n_chans p.chan (time_int_per_buffer * f.n_ants)
      (row-lt p.rest f.n_ants p.ant time_int_per_buffer v.rest_in v.ant_in) v.chan_in

block-le : (f : FileBuff) → f.n_ants ≤ 4 → f.n_chans ≤ 32 → f.n_ants * f.n_chans ≤ 128
block-le f ha hc = grind arith

-- For a configuration that worker_work accepts and a packet that fits the block, the offset of
-- its copy does not wrap in 32 bits: it is the packet's index in the block (time, antenna,
-- channel, the last running fastest) times the payload length, and the 8192 bytes copied there
-- end inside the part of the buffer that is sent, which fits the allocated buffer.
pub offset_lem :
    (f : FileBuff) (p : Place)
    → bad_config f ≡ false
    → InBlock f p
    → (offset f p ≡ packet_index f p * rx_data_len)
      × (offset f p + rx_data_len ≤ data_len_out f)
      × (data_len_out f ≤ file_buffer_size)
offset_lem f p good v =
    let (_, ha, _, hc) = bad_config_lem f good in
    let few = block-le f ha hc in
    let fits = packet_index-lt f p v in (omega arith, omega arith, omega arith)

row_lower : (r r' w c c' : ℕ) → r < r' → c < w → r * w + c < r' * w + c'
row_lower r r' w c c' h hc = grind arith

row_inj : (r r' w c c' : ℕ) → c < w → c' < w → r * w + c ≡ r' * w + c' → (r ≡ r') × (c ≡ c')
row_inj r r' w c c' hc hc' e = elim (dec_lt r r') [
  | yes below ↦ absurd (omega (arith, row_lower r r' w c c' below hc))
  | no above ↦ elim (dec_lt r' r) [
    | yes below ↦ absurd (omega (arith, row_lower r' r w c' c below hc'))
    | no same ↦ let eq : r ≡ r' = omega arith in (eq, omega (arith, ap (λ (t : ℕ). t * w) eq))
  ]
]

packet_index_inj :
    (f : FileBuff) (p q : Place)
    → InBlock f p
    → InBlock f q
    → packet_index f p ≡ packet_index f q
    → p ≡ q
packet_index_inj f p q vp vq e =
    let (rows, chans) =
      row_inj (p.rest * f.n_ants + p.ant) (q.rest * f.n_ants + q.ant) f.n_chans p.chan q.chan
        vp.chan_in vq.chan_in e in
    let (rests, ants) = row_inj p.rest q.rest f.n_ants p.ant q.ant vp.ant_in vq.ant_in rows in cc

-- Packets of one block that differ in their time, antenna or channel packet are copied to
-- stretches of the buffer that do not overlap.
pub offset_apart :
    (f : FileBuff) (p q : Place)
    → bad_config f ≡ false
    → InBlock f p
    → InBlock f q
    → p ≢ q
    → (offset f p + rx_data_len ≤ offset f q) ⊎ (offset f q + rx_data_len ≤ offset f p)
offset_apart f p q good vp vq ne =
    let (ep, _, _) = offset_lem f p good vp in
    let (eq, _, _) = offset_lem f q good vq in
    elim (dec_lt (packet_index f p) (packet_index f q)) [
      | yes below ↦ inl (omega arith)
      | no above ↦ elim (dec_lt (packet_index f q) (packet_index f p)) [
        | yes below ↦ inr (omega arith)
        | no same ↦ absurd (ne (packet_index_inj f p q vp vq (omega arith)))
      ]
    ]
