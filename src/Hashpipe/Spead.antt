-- ===== src/Hashpipe/Spead.antt =====
-- half_hashpipe/hpguppi_mkfeng.h: the SPEAD header of a packet. A header is bytes from an address
-- on: a word whose last two bytes are the number of items, and the items, each a 16-bit identifier,
-- read in the byte order of the machine, and a 48-bit value in network order.
pub mod Items
use volt_rec.Base.{
  ℕ, zero, suc, ◌+◌, ◌*◌, ◌%◌, ◌^◌, Bool, true, false, Memory, big_endian, ◌==◌, if◌then◌else◌,
}
use volt_rec.Hashpipe.Mkfeng.{MkFengSpeadInfo}

-- SPEAD_ID_IMM_HEAP_OFFSET and the identifiers after it.
abbrev pub id_heap_offset : ℕ
id_heap_offset = 896

abbrev pub id_payload_size : ℕ
id_payload_size = 1152

abbrev pub id_timestamp : ℕ
id_timestamp = 150

abbrev pub id_feng_id : ℕ
id_feng_id = 449

abbrev pub id_feng_chan : ℕ
id_feng_chan = 961

abbrev pub id_payload_offset : ℕ
id_payload_offset = 67

unfoldable pub spead_imm_value : ℕ → ℕ
spead_imm_value item = item % 2 ^ 48

-- The identifier and the value of the item at the address `a`.
abbrev pub item_id : Memory → ℕ → ℕ
item_id m a = m a + 256 * m (a + 1)

unfoldable pub item_value : Memory → ℕ → ℕ
unfolding spead_imm_value
item_value m a = spead_imm_value (big_endian m a 8 0)

abbrev pub n_items : Memory → ℕ → ℕ
n_items m a = 256 * m (a + 6) + m (a + 7)

-- The switch on the identifier.
unfoldable pub set_item : ℕ → ℕ → MkFengSpeadInfo → MkFengSpeadInfo
set_item id value info =
    if id == id_heap_offset
    then record info { heap_offset = value }
    else if id == id_payload_size
    then record info { payload_size = value }
    else if id == id_timestamp
    then record info { timestamp = value }
    else if id == id_feng_id
    then record info { feng_id = value }
    else if id == id_feng_chan
    then record info { feng_chan = value }
    else info

-- The loop over the items, with `left` items to go from the address `a`.
unfoldable pub parse_items : Memory → ℕ → ℕ → MkFengSpeadInfo → MkFengSpeadInfo
unfolding set_item item_value
parse_items m zero a info = info
parse_items m (suc left) a info =
    parse_items m left (a + 8) (set_item (item_id m a) (item_value m a) info)

-- The payload of such a packet is at a fixed place.
unfoldable pub mk_parse_mkfeng_ibv_spead_packet : Memory → ℕ → MkFengSpeadInfo → MkFengSpeadInfo
unfolding parse_items
mk_parse_mkfeng_ibv_spead_packet m a info = parse_items m (n_items m a) (a + 8) info

-- The same loop, which also keeps the payload offset.
unfoldable pub payload_offset_of : Memory → ℕ → ℕ → ℕ → ℕ
unfolding item_value
payload_offset_of m zero a offset = offset
payload_offset_of m (suc left) a offset =
    payload_offset_of m left (a + 8)
      (if item_id m a == id_payload_offset then item_value m a else offset)

-- The fields, and the address of the payload behind the header.
unfoldable pub mk_parse_mkfeng_packet : Memory → ℕ → MkFengSpeadInfo → MkFengSpeadInfo × ℕ
unfolding parse_items payload_offset_of
mk_parse_mkfeng_packet m a info = (
  parse_items m (n_items m a) (a + 8) info,
  a + 8 + 8 * n_items m a + payload_offset_of m (n_items m a) (a + 8) 0,
)
