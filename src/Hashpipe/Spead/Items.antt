-- ===== src/Hashpipe/Spead/Items.antt =====
-- The fields of a parsed header.
use volt_rec.Base.{ℕ, zero, suc, ◌+◌, ◌*◌, ◌<◌, ◌≡◌, refl, sym, ap, ◌∙◌, ◌≢◌, Memory, arith}
use mathlib.Core.Path.{subst}
use volt_rec.Hashpipe.Mkfeng.{MkFengSpeadInfo}
use volt_rec.Hashpipe.Spead.{
  id_heap_offset, id_payload_size, id_timestamp, id_feng_id, id_feng_chan, item_id, item_value,
  n_items, set_item, parse_items, mk_parse_mkfeng_ibv_spead_packet,
}

-- The identifiers that set a field, and the field of each.
pub data Known : ℕ → Type 0 where
  heap_offset_item : Known id_heap_offset
  payload_size_item : Known id_payload_size
  timestamp_item : Known id_timestamp
  feng_id_item : Known id_feng_id
  feng_chan_item : Known id_feng_chan

abbrev pub field_of : {id : ℕ} → Known id → MkFengSpeadInfo → ℕ
field_of heap_offset_item info = info.heap_offset
field_of payload_size_item info = info.payload_size
field_of timestamp_item info = info.timestamp
field_of feng_id_item info = info.feng_id
field_of feng_chan_item info = info.feng_chan

set_item_self :
    {id : ℕ} (known : Known id) (value : ℕ) (info : MkFengSpeadInfo)
    → field_of known (set_item id value info) ≡ value
unfolding set_item
set_item_self heap_offset_item value info = refl
set_item_self payload_size_item value info = refl
set_item_self timestamp_item value info = refl
set_item_self feng_id_item value info = refl
set_item_self feng_chan_item value info = refl

set_item_ne :
    {id : ℕ} (known : Known id) (other value : ℕ) (info : MkFengSpeadInfo)
    → other ≢ id
    → field_of known (set_item other value info) ≡ field_of known info
unfolding set_item
set_item_ne heap_offset_item other value info h = ground arith
set_item_ne payload_size_item other value info h = ground arith
set_item_ne timestamp_item other value info h = ground arith
set_item_ne feng_id_item other value info h = ground arith
set_item_ne feng_chan_item other value info h = ground arith

shift : (a i : ℕ) → a + 8 * suc i ≡ a + 8 + 8 * i
shift a i = omega arith

next_item :
    (m : Memory) (a i : ℕ) {id : ℕ}
    → item_id m (a + 8 * suc i) ≢ id
    → item_id m (a + 8 + 8 * i) ≢ id
next_item m a i {id} h = subst (λ x. item_id m x ≢ id) (shift a i) h

start : (a : ℕ) → a + 8 * 0 ≡ a
start a = omega arith

first_item : (m : Memory) (a : ℕ) {id : ℕ} → item_id m (a + 8 * 0) ≢ id → item_id m a ≢ id
first_item m a {id} h = subst (λ x. item_id m x ≢ id) (start a) h

-- Items with other identifiers leave the field.
parse_items-others :
    {id : ℕ} (known : Known id) (m : Memory) (n a : ℕ) (info : MkFengSpeadInfo)
    → ((i : ℕ) → i < n → item_id m (a + 8 * i) ≢ id)
    → field_of known (parse_items m n a info) ≡ field_of known info
unfolding parse_items
parse_items-others known m zero a info h = refl
parse_items-others {id} known m (suc n) a info h =
    parse_items-others known m n (a + 8) (set_item (item_id m a) (item_value m a) info)
      (λ i lt. next_item m a i {id = id} (h (suc i) (omega arith)))
    ∙ set_item_ne known (item_id m a) (item_value m a) info
        (first_item m a {id = id} (h 0 (omega arith)))

parse_items-last :
    {id : ℕ} (known : Known id) (m : Memory) (n a : ℕ) (info : MkFengSpeadInfo) (j : ℕ)
    → j < n
    → item_id m (a + 8 * j) ≡ id
    → ((i : ℕ) → j < i → i < n → item_id m (a + 8 * i) ≢ id)
    → field_of known (parse_items m n a info) ≡ item_value m (a + 8 * j)
unfolding parse_items
parse_items-last known m zero a info j h e last = absurd (omega arith)
parse_items-last {id} known m (suc n) a info zero h e last =
    parse_items-others known m n (a + 8) (set_item (item_id m a) (item_value m a) info)
      (λ i lt. next_item m a i {id = id} (last (suc i) (omega arith) (omega arith)))
    ∙ subst (λ x. field_of known (set_item x (item_value m a) info) ≡ item_value m a)
        (sym (subst (λ x. item_id m x ≡ id) (start a) e))
        (set_item_self known (item_value m a) info)
    ∙ ap (item_value m) (sym (start a))
parse_items-last {id} known m (suc n) a info (suc j) h e last =
    parse_items-last known m n (a + 8) (set_item (item_id m a) (item_value m a) info) j
      (omega arith) (subst (λ x. item_id m x ≡ id) (shift a j) e)
      (λ i low high. next_item m a i {id = id} (last (suc i) (omega arith) (omega arith)))
    ∙ ap (item_value m) (sym (shift a j))

-- The field of an identifier that the parser knows is the value of the last item with it: item
-- `j` of the header has it, and no later item does.
pub mk_parse_lem :
    {id : ℕ} (known : Known id) (m : Memory) (a j : ℕ) (info : MkFengSpeadInfo)
    → j < n_items m a
    → item_id m (a + 8 + 8 * j) ≡ id
    → ((i : ℕ) → j < i → i < n_items m a → item_id m (a + 8 + 8 * i) ≢ id)
    → field_of known (mk_parse_mkfeng_ibv_spead_packet m a info) ≡ item_value m (a + 8 + 8 * j)
unfolding mk_parse_mkfeng_ibv_spead_packet
mk_parse_lem known m a j info h e last =
    parse_items-last known m (n_items m a) (a + 8) info j h e last
