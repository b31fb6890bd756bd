-- ===== src/Worker/Invariant.antt =====
-- What holds of the slots of the sorting thread between its steps: their numbering, and their hold
-- on the buffers of the pool.
use volt_rec.Base.{
  ℕ, ◌+◌, ◌-◌, ◌*◌, ◌%◌, ◌≤◌, ◌<◌, ◌≡◌, refl, ◌≢◌, ◌⊎◌, inl, inr, none, some, List, arith,
  get_elem?, set, length, length-set, get_elem?-set_self, get_elem?-set_ne, get_elem?-lt, ap, sym,
  ◌∙◌, ok, err, blocked, Safe,
}
use volt_rec.Base.Int.{ℤ, pos}
use native.Mathlib.Decide.{ℕ_discrete}
use mathlib.Core.Path.{subst}
use volt_rec.Formats.{time_int_per_buffer, packet_modulus, n_file_buffers_at_a_time}
use volt_rec.Pool.{Pool, in_use, fetch_empty_buffer}
use volt_rec.Pool.Handing.{fetch_empty_cases, return_held}
use volt_rec.Worker.State.{Slot, Worker, data_len_out}
use volt_rec.Worker.Sending.{renew, reopened, reopen_slot, send_slot}

-- The packet number of the first packet of the block with order number `order`, in a recording
-- that starts at packet `start`: order numbers count blocks from 1.
abbrev pub block_start : ℕ → ℕ → ℕ
block_start start order = (start + (order - 1) * time_int_per_buffer) % packet_modulus

pub record SlotNumbered (start next_order : ℕ) (s : Slot) : Type 0 where
  pub packet_of_order : s.packet_no ≡ block_start start s.order
  pub from_one : 1 ≤ s.order
  pub below_next : s.order < next_order

-- Each slot fills a buffer that the pool has marked as in use, and no two slots the same.
pub record Owns (slots : List Slot) (orders : List ℤ) : Type 0 where
  pub held :
      (j : ℕ) (s : Slot) → get_elem? slots j ≡ some s → get_elem? orders s.index ≡ some in_use
  pub apart :
      (j k : ℕ) (s t : Slot)
      → get_elem? slots j ≡ some s
      → get_elem? slots k ≡ some t
      → s.index ≡ t.index
      → j ≡ k

pub record Inv (start : ℕ) (w : Worker) : Type 0 where
  pub six : length w.slots ≡ n_file_buffers_at_a_time
  pub next_from_one : 1 ≤ w.next_order
  pub next_of_order : w.next_packet_no ≡ block_start start w.next_order
  pub numbered :
      (j : ℕ) (s : Slot) → get_elem? w.slots j ≡ some s → SlotNumbered start w.next_order s
  pub owns : Owns w.slots w.file.pool.order_no

-- An entry of a list in which one entry was set is the new one, or an old one elsewhere.
pub set-cases {ℓ} :
    {A : Type ℓ} (xs : List A) (i j : ℕ) (v : A) {a : A}
    → get_elem? (set xs i v) j ≡ some a
    → ((i ≡ j) × (a ≡ v)) ⊎ ((i ≢ j) × (get_elem? xs j ≡ some a))
set-cases {A} xs i j v {a} h = elim (ℕ_discrete i j) [
  | yes e ↦ inl (e, same (rw (← e) at h))
  | no ne ↦ inr (ne, sym (get_elem?-set_ne xs v ne) ∙ h)
]
  where
    same : get_elem? (set xs i v) i ≡ some a → a ≡ v
    same q = cc (
        get_elem?-set_self xs i v
          (subst (λ n. i < n) (length-set xs i v) (get_elem?-lt (set xs i v) i q)))

-- A slot's buffer goes back to the pool with an order number, and the slot takes the buffer
-- `fresh.index`, which is empty.
module _ (slots : List Slot) (orders : List ℤ) (j order : ℕ) (s fresh : Slot)
    (owns : Owns slots orders) (at_j : get_elem? slots j ≡ some s)
    (empty : get_elem? (set orders s.index (pos order)) fresh.index ≡ some (pos 0)) where
  open owns use {held, apart}

  -- The slots left alone hold other buffers than the two.
  kept :
      (k : ℕ) (t : Slot)
      → j ≢ k
      → get_elem? slots k ≡ some t
      → (get_elem? (set orders s.index (pos order)) t.index ≡ some in_use) × (fresh.index ≢ t.index)
  kept k t ne at_k =
      let still =
        get_elem?-set_ne orders (pos order) (λ e. ne (apart j k s t at_j at_k e)) ∙ held k t at_k in
      (still, λ e. let both = rw e at empty in cc)

  pub Owns-renew :
      Owns (set slots j fresh) (set (set orders s.index (pos order)) fresh.index in_use)
  Owns-renew = record { held = held'; apart = apart' }
    where
      held' :
          (k : ℕ) (t : Slot)
          → get_elem? (set slots j fresh) k ≡ some t
          → get_elem? (set (set orders s.index (pos order)) fresh.index in_use) t.index
            ≡ some in_use
      held' k t h = elim (set-cases slots j k fresh h) [
        | inl (_, e) ↦ rw e (
            get_elem?-set_self (set orders s.index (pos order)) fresh.index in_use
              (get_elem?-lt _ _ empty))
        | inr (ne, at_k) ↦
            let (still, away) = kept k t ne at_k in
            get_elem?-set_ne (set orders s.index (pos order)) in_use away ∙ still
      ]

      apart' :
          (k l : ℕ) (t u : Slot)
          → get_elem? (set slots j fresh) k ≡ some t
          → get_elem? (set slots j fresh) l ≡ some u
          → t.index ≡ u.index
          → k ≡ l
      apart' k l t u ht hu e = elim (set-cases slots j k fresh ht) [
        | inl (ek, et) ↦ elim (set-cases slots j l fresh hu) [
          | inl (el, eu) ↦ sym ek ∙ el
          | inr (ne, at_l) ↦ absurd ((kept l u ne at_l).1 (sym (ap (λ (x : Slot). x.index) et) ∙ e))
        ]
        | inr (ne, at_k) ↦ elim (set-cases slots j l fresh hu) [
          | inl (el, eu) ↦
              absurd ((kept k t ne at_k).1 (sym (ap (λ (x : Slot). x.index) eu) ∙ sym e))
          | inr (_, at_l) ↦ apart k l t u at_k at_l e
        ]
      ]

block_start-next :
    (start order : ℕ)
    → 1 ≤ order
    → (block_start start order + time_int_per_buffer) % packet_modulus
      ≡ block_start start (order + 1)
block_start-next start order h = omega arith

SlotNumbered-later :
    {start n m : ℕ} {s : Slot} → n ≤ m → SlotNumbered start n s → SlotNumbered start m s
SlotNumbered-later h v = record {
  packet_of_order = v.packet_of_order;
  from_one = v.from_one;
  below_next = omega arith;
}

-- After slot `j` was opened anew with buffer `i`, its old buffer standing in the pool `p` with its
-- order number.
renewed-Inv :
    (start j i : ℕ) (s : Slot) (w : Worker) (p : Pool)
    → Inv start w
    → get_elem? w.slots j ≡ some s
    → p.order_no ≡ set w.file.pool.order_no s.index (pos s.order)
    → get_elem? p.order_no i ≡ some (pos 0)
    → Inv start (reopened j w i (record p { order_no = set p.order_no i in_use }))
renewed-Inv start j i s w p inv at_j states empty = record {
  six = length-set w.slots j (renew w i) ∙ inv.six;
  next_from_one = omega arith;
  next_of_order = rw (inv.next_of_order) (block_start-next start w.next_order inv.next_from_one);
  numbered = λ k t h. elim (set-cases w.slots j k (renew w i) h) [
    | inl (_, e) ↦ rw e (record {
      packet_of_order = inv.next_of_order;
      from_one = inv.next_from_one;
      below_next = omega arith;
    })
    | inr (_, at_k) ↦ SlotNumbered-later (omega arith) (inv.numbered k t at_k)
  ];
  owns = rw states (
      Owns-renew w.slots w.file.pool.order_no j s.order s (renew w i) inv.owns at_j
        (rw states at empty));
}

reopen_slot-Inv :
    (start j : ℕ) (s : Slot) (w : Worker) (p : Pool)
    → Inv start w
    → get_elem? w.slots j ≡ some s
    → p.order_no ≡ set w.file.pool.order_no s.index (pos s.order)
    → Safe (Inv start) (reopen_slot j w p)
reopen_slot-Inv start j s w p inv at_j states = go (fetch_empty_cases p)
  where
    go :
        (fetch_empty_buffer p ≡ none)
          ⊎ ((i : ℕ) × (fetch_empty_buffer p
                ≡ some (i, record p { order_no = set p.order_no i in_use }))
              × (get_elem? p.order_no i ≡ some (pos 0)))
        → Safe (Inv start) (reopen_slot j w p)
    go (inl e) =
        let blocks : reopen_slot j w p ≡ err blocked = unfold reopen_slot in rw (e, reopen_slot) in
        rw blocks tt
    go (inr (i, e, empty)) =
        let opens : reopen_slot j w p
            ≡ ok (reopened j w i (record p { order_no = set p.order_no i in_use })) =
          unfold reopen_slot in rw (e, reopen_slot) in
        rw opens (renewed-Inv start j i s w p inv at_j states empty)

-- Sending a slot's buffer and opening the slot anew keeps the invariant; it neither finds the
-- buffer in a wrong state nor leaves an array, and at most waits for an empty buffer.
pub send_slot-Inv :
    (start j : ℕ) (s : Slot) (w : Worker)
    → Inv start w
    → get_elem? w.slots j ≡ some s
    → Safe (Inv start) (send_slot j s w)
unfolding send_slot
send_slot-Inv start j s w inv at_j =
    rw
      (return_held w.file.pool s.index (pos s.order) (data_len_out w.file) (inv.owns.held j s at_j))
      (reopen_slot-Inv start j s w _ inv at_j refl)
