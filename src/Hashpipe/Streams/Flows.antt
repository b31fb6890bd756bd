-- ===== src/Hashpipe/Streams/Flows.antt =====
-- The flows that are set after a change of DESTIP.
use volt_rec.Base.{
  ℕ, zero, suc, ◌+◌, ◌%◌, ◌^◌, ◌<◌, ◌≤◌, ◌≡◌, ◌∙◌, ◌≢◌, ◌⊎◌, inl, inr, ap, Bool, true, false,
  Option, none, some, arith, Bool-cases, below_suc, ==_of_ne, ==_refl,
}
use native.Mathlib.Decide.{ℕ_discrete}
use volt_rec.Hashpipe.Streams.{FlowTable, set_flow, remove_flows, add_flows}

set_flow_same : (flows : FlowTable) (slot : ℕ) (a : Option ℕ) → set_flow flows slot a slot ≡ a
set_flow_same flows slot a = rw (==_refl slot)

set_flow_other :
    (flows : FlowTable) (slot i : ℕ) (a : Option ℕ) → i ≢ slot → set_flow flows slot a i ≡ flows i
set_flow_other flows slot i a ne = rw (==_of_ne i slot ne)

-- A slot has no flow, or the one of its place behind the address.
abbrev pub InPlace : ℕ → ℕ → FlowTable → Type 0
InPlace dest_ip n flows =
    (i : ℕ) → (flows i ≡ none) ⊎ ((i < n) × (flows i ≡ some ((dest_ip + i) % 2 ^ 32)))

-- The same of all slots but those that are stuck.
abbrev pub InPlaceBut : (ℕ → Bool) → ℕ → ℕ → FlowTable → Type 0
InPlaceBut stuck dest_ip n flows =
    (i : ℕ)
    → (flows i ≡ none) ⊎ ((i < n) × (flows i ≡ some ((dest_ip + i) % 2 ^ 32))) ⊎ (stuck i ≡ true)

-- No flow is left in a slot that is not stuck: those below `idx` are removed already, and those
-- from `idx + left` on have none.
pub remove_flows-stuck :
    (stuck fails : ℕ → Bool) (left idx : ℕ) (flows : FlowTable)
    → ((i : ℕ) → fails i ≡ true → stuck i ≡ true)
    → ((i : ℕ) → (i < idx) ⊎ (idx + left ≤ i) → (flows i ≡ none) ⊎ (stuck i ≡ true))
    → (i : ℕ) → (remove_flows fails left idx flows i ≡ none) ⊎ (stuck i ≡ true)
unfolding remove_flows
remove_flows-stuck stuck fails zero idx flows covers off i = off i (ground arith)
remove_flows-stuck stuck fails (suc left) idx flows covers off i = elim (Bool-cases (fails idx)) [
  | inl failed ↦ rw failed (
      remove_flows-stuck stuck fails left (idx + 1) flows covers
        (λ j h. elim (ℕ_discrete j idx) [
          | yes here ↦ inr (covers j (ap fails here ∙ failed))
          | no away ↦ off j (elim h [ inl low ↦ inl (omega arith) | inr high ↦ inr (omega arith) ])
        ])
        i)
  | inr done ↦ rw done (
      remove_flows-stuck stuck fails left (idx + 1) (set_flow flows idx none) covers
        (λ j h. elim (ℕ_discrete j idx) [
          | yes here ↦ inl (rw here (set_flow_same flows idx none))
          | no away ↦
              rw (set_flow_other flows idx j none away)
                (off j (elim h [ inl low ↦ inl (omega arith) | inr high ↦ inr (omega arith) ]))
        ])
        i)
]

pub InPlaceBut-later :
    (stuck : ℕ → Bool) (dest_ip m n : ℕ) (flows : FlowTable)
    → m ≤ n
    → InPlaceBut stuck dest_ip m flows
    → InPlaceBut stuck dest_ip n flows
InPlaceBut-later stuck dest_ip m n flows h place i = elim (place i) [
  | inl off ↦ inl off
  | inr (inl (l, on)) ↦ inr (inl (omega arith, on))
  | inr (inr left_over) ↦ inr (inr left_over)
]

InPlaceBut-next :
    (stuck : ℕ → Bool) (dest_ip idx : ℕ) (flows : FlowTable)
    → InPlaceBut stuck dest_ip idx flows
    → InPlaceBut stuck dest_ip (idx + 1) (set_flow flows idx (some ((dest_ip + idx) % 2 ^ 32)))
InPlaceBut-next stuck dest_ip idx flows place i = elim (ℕ_discrete i idx) [
  | yes here ↦
      inr (inl (omega arith, rw here (set_flow_same flows idx (some ((dest_ip + idx) % 2 ^ 32)))))
  | no away ↦
      rw (set_flow_other flows idx i (some ((dest_ip + idx) % 2 ^ 32)) away)
        (InPlaceBut-later stuck dest_ip idx (idx + 1) flows (omega arith) place i)
]

pub add_flows-InPlaceBut :
    (stuck fails : ℕ → Bool) (dest_ip left idx : ℕ) (flows : FlowTable)
    → InPlaceBut stuck dest_ip idx flows
    → InPlaceBut stuck dest_ip (idx + left) (add_flows fails dest_ip left idx flows)
unfolding add_flows
add_flows-InPlaceBut stuck fails dest_ip zero idx flows place =
    InPlaceBut-later stuck dest_ip idx (idx + 0) flows (omega arith) place
add_flows-InPlaceBut stuck fails dest_ip (suc left) idx flows place =
    elim (Bool-cases (fails idx)) [
      | inl failed ↦
          rw failed (InPlaceBut-later stuck dest_ip idx (idx + suc left) flows (omega arith) place)
      | inr done ↦
          let next = set_flow flows idx (some ((dest_ip + idx) % 2 ^ 32)) in
          rw done (
            InPlaceBut-later stuck dest_ip (idx + 1 + left) (idx + suc left)
              (add_flows fails dest_ip left (idx + 1) next) (omega arith)
              (add_flows-InPlaceBut stuck fails dest_ip left (idx + 1) next
                (InPlaceBut-next stuck dest_ip idx flows place)))
    ]

-- All of the flows are set where no call fails.
pub add_flows-all :
    (fails : ℕ → Bool) (dest_ip left idx : ℕ) (flows : FlowTable) (i : ℕ)
    → ((j : ℕ) → fails j ≡ false)
    → i < idx + left
    → (i < idx → flows i ≡ some ((dest_ip + i) % 2 ^ 32))
    → add_flows fails dest_ip left idx flows i ≡ some ((dest_ip + i) % 2 ^ 32)
unfolding add_flows
add_flows-all fails dest_ip zero idx flows i ok h before = before (omega arith)
add_flows-all fails dest_ip (suc left) idx flows i ok h before = rw (ok idx) (
    add_flows-all fails dest_ip left (idx + 1) _ i ok (omega arith) (λ l.
      elim (below_suc i idx (omega arith)) [
        | inl lower ↦
            set_flow_other flows idx i (some ((dest_ip + idx) % 2 ^ 32)) (λ e. omega arith)
            ∙ before lower
        | inr here ↦ rw here (set_flow_same flows idx (some ((dest_ip + idx) % 2 ^ 32)))
      ]))
