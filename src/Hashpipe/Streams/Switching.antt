-- ===== src/Hashpipe/Streams/Switching.antt =====
-- What holds of the streams after every change of DESTIP.
use volt_rec.Base.{
  ℕ, suc, ◌+◌, ◌%◌, ◌^◌, ◌<◌, ◌≤◌, ◌≡◌, refl, sym, ap, ◌∙◌, ◌⊎◌, inl, inr, Bool, true, false, not,
  ◌&&◌, List, [], ◌∷◌, Option, none, some, ltb, ◌==◌, arith, Bool-cases, Option-cases, ==→eq,
  some_inj,
}
use volt_rec.Hashpipe.Streams.{
  FlowTable, same_string, any_address, split_plus, remove_flows, add_flows, stream_count, Streams,
  Network, switch_streams, dest_ip_change,
}
use volt_rec.Hashpipe.Streams.Flows.{
  InPlace, InPlaceBut, InPlaceBut-later, add_flows-InPlaceBut, add_flows-all, remove_flows-stuck,
}

-- There are at most `max_flows` streams, and their flows are of the addresses from one on.
pub record Streaming (max_flows : ℕ) (s : Streams) : Type 0 where
  pub few : s.nstreams ≤ max_flows
  pub base : ℕ
  pub in_place : InPlace base s.nstreams s.flows

-- What is relied on: "0.0.0.0" is the address 0, and the calls that remove a flow succeed.
pub record NetworkLaws (net : Network) : Type 0 where
  pub any_is_zero : net.inet_aton any_address ≡ some 0
  pub removes : (i : ℕ) → net.remove_fails i ≡ false

stream_count-le :
    (strtoul : List ℕ → ℕ) (max_flows : ℕ) (count : Option (List ℕ))
    → stream_count strtoul max_flows count ≤ max_flows
unfolding stream_count
stream_count-le strtoul max_flows count = omega arith

same_string→eq : (a b : List ℕ) → same_string a b ≡ true → a ≡ b
same_string→eq [] [] h = refl
same_string→eq [] (d ∷ ds) h = absurd (cc)
same_string→eq (c ∷ cs) [] h = absurd (cc)
same_string→eq (c ∷ cs) (d ∷ ds) h =
    let head : (c == d) ≡ true = ground arith in
    let tail : same_string cs ds ≡ true = ground arith in
    let e = ==→eq c d head in let es = same_string→eq cs ds tail in cc

-- There are at most `max_flows` streams, and their flows are of the addresses from one on; other
-- flows are in slots whose flows cannot be removed.
pub record StreamingBut (stuck : ℕ → Bool) (max_flows : ℕ) (s : Streams) : Type 0 where
  pub few : s.nstreams ≤ max_flows
  pub base : ℕ
  pub in_place : InPlaceBut stuck base s.nstreams s.flows

-- Behind the streams no slot has a flow that can be removed.
behind :
    (stuck : ℕ → Bool) (max_flows : ℕ) (s : Streams)
    → StreamingBut stuck max_flows s
    → (i : ℕ) → s.nstreams ≤ i
    → (s.flows i ≡ none) ⊎ (stuck i ≡ true)
behind stuck max_flows s ok i h = elim (ok.in_place i) [
  | inl off ↦ inl off
  | inr (inl (within, on)) ↦ absurd (omega arith)
  | inr (inr left_over) ↦ inr left_over
]

removed :
    (net : Network) (stuck : ℕ → Bool) (max_flows : ℕ) (s : Streams)
    → ((i : ℕ) → net.remove_fails i ≡ true → stuck i ≡ true)
    → StreamingBut stuck max_flows s
    → (i : ℕ) → (remove_flows net.remove_fails s.nstreams 0 s.flows i ≡ none) ⊎ (stuck i ≡ true)
removed net stuck max_flows s covers ok =
    remove_flows-stuck stuck net.remove_fails s.nstreams 0 s.flows covers (λ i outside.
      elim outside [
        | inl low ↦ absurd (omega arith)
        | inr high ↦ behind stuck max_flows s ok i (omega arith)
      ])

-- No stream is left, whatever slots are stuck.
none_left :
    (stuck : ℕ → Bool) (base n : ℕ) (flows : FlowTable)
    → ((i : ℕ) → (flows i ≡ none) ⊎ (stuck i ≡ true))
    → InPlaceBut stuck base n flows
none_left stuck base n flows off i = elim (off i) [
  | inl none_here ↦ inl none_here
  | inr left_over ↦ inr (inr left_over)
]

-- A switch is to no stream, or from none.
switch_streams-StreamingBut :
    (net : Network) (stuck : ℕ → Bool) (max_flows : ℕ) (new : List ℕ) (count : Option (List ℕ))
    (dest_ip : ℕ) (s : Streams)
    → ((i : ℕ) → net.remove_fails i ≡ true → stuck i ≡ true)
    → StreamingBut stuck max_flows s
    → (dest_ip ≡ 0) ⊎ (s.nstreams ≡ 0)
    → StreamingBut stuck max_flows (switch_streams net max_flows new count dest_ip s)
unfolding switch_streams
switch_streams-StreamingBut net stuck max_flows new count dest_ip s covers ok allowed =
    elim (Bool-cases (dest_ip == 0)) [
      | inl to_none ↦ rw to_none (record {
        few = omega arith;
        base = 0;
        in_place =
            none_left stuck 0 0 (remove_flows net.remove_fails s.nstreams 0 s.flows)
              (removed net stuck max_flows s covers ok);
      })
      | inr to_some ↦ rw to_some (record {
        few = stream_count-le net.strtoul max_flows count;
        base = dest_ip;
        in_place =
            let n = stream_count net.strtoul max_flows count in
            let idle = from_none to_some allowed in
            InPlaceBut-later stuck dest_ip (0 + n) n (add_flows net.add_fails dest_ip n 0 s.flows)
              (omega arith)
              (add_flows-InPlaceBut stuck net.add_fails dest_ip n 0 s.flows (
                none_left stuck dest_ip 0 s.flows
                  (λ i. behind stuck max_flows s ok i (omega arith))));
      })
    ]
  where
    from_none : (dest_ip == 0) ≡ false → (dest_ip ≡ 0) ⊎ (s.nstreams ≡ 0) → s.nstreams ≡ 0
    from_none h (inl e) = absurd (ground arith)
    from_none h (inr e) = e

-- Where inet_aton reads "0.0.0.0" as the address 0, and `stuck` has every slot in which removing a
-- flow fails: every change of DESTIP keeps what holds of the streams. They are at most `max_flows`,
-- and every flow that is set is the one of its slot behind one address, or stands in a slot of
-- `stuck`. Setting a flow may fail.
pub dest_ip_change-StreamingBut :
    (net : Network) (stuck : ℕ → Bool) (max_flows : ℕ) (new : List ℕ) (s : Streams)
    → net.inet_aton any_address ≡ some 0
    → ((i : ℕ) → net.remove_fails i ≡ true → stuck i ≡ true)
    → StreamingBut stuck max_flows s
    → StreamingBut stuck max_flows (dest_ip_change net max_flows new s)
unfolding dest_ip_change
dest_ip_change-StreamingBut net stuck max_flows new s any_is_zero covers ok =
    elim (Bool-cases (same_string s.dest_ip_stream_str new)) [
      | inl same ↦ rw same ok
      | inr changed ↦
          rw changed (elim (Bool-cases (ltb 0 s.nstreams && not (same_string new any_address))) [
            | inl refused ↦ rw refused ok
            | inr allowed ↦ rw allowed (elim (Option-cases (net.inet_aton (split_plus new).0)) [
              | inl invalid ↦ rw invalid ok
              | inr (dest_ip, valid) ↦ rw valid (
                  switch_streams-StreamingBut net stuck max_flows new (split_plus new).1 dest_ip s
                    covers ok (switches dest_ip allowed valid))
            ])
          ])
    ]
  where
    switches :
        (dest_ip : ℕ)
        → (ltb 0 s.nstreams && not (same_string new any_address)) ≡ false
        → net.inet_aton (split_plus new).0 ≡ some dest_ip
        → (dest_ip ≡ 0) ⊎ (s.nstreams ≡ 0)
    switches dest_ip allowed valid = elim (Bool-cases (same_string new any_address)) [
      | inl any ↦
          let e = same_string→eq new any_address any in
          let here : (split_plus new).0 ≡ any_address =
            ap (λ x. (split_plus x).0) e ∙ (unfold split_plus in refl) in
          inl (some_inj (sym valid ∙ ap net.inet_aton here ∙ any_is_zero))
      | inr other ↦ inr (ground arith)
    ]

-- Where every flow can be removed, none is in another slot.
Streaming-But :
    (stuck : ℕ → Bool) (max_flows : ℕ) (s : Streams)
    → Streaming max_flows s
    → StreamingBut stuck max_flows s
Streaming-But stuck max_flows s ok = record {
  few = ok.few;
  base = ok.base;
  in_place = λ i. elim (ok.in_place i) [ inl off ↦ inl off | inr on ↦ inr (inl on) ];
}

dest_ip_change-Streaming :
    (net : Network) (max_flows : ℕ) (new : List ℕ) (s : Streams)
    → NetworkLaws net
    → Streaming max_flows s
    → Streaming max_flows (dest_ip_change net max_flows new s)
dest_ip_change-Streaming net max_flows new s laws ok =
    let kept =
      dest_ip_change-StreamingBut net net.remove_fails max_flows new s laws.any_is_zero (λ i h. h)
        (Streaming-But net.remove_fails max_flows s ok) in
    record {
      few = kept.few;
      base = kept.base;
      in_place = λ i. elim (kept.in_place i) [
        | inl off ↦ inl off
        | inr (inl on) ↦ inr on
        | inr (inr left_over) ↦ let removes = laws.removes i in absurd (cc)
      ];
    }

-- The thread begins to listen to `suc dest_ip`.
listens :
    (net : Network) (max_flows : ℕ) (new : List ℕ) (s : Streams) (dest_ip : ℕ)
    → s.nstreams ≡ 0
    → same_string s.dest_ip_stream_str new ≡ false
    → net.inet_aton (split_plus new).0 ≡ some (suc dest_ip)
    → dest_ip_change net max_flows new s ≡ record {
      dest_ip_stream_str = new;
      nstreams = stream_count net.strtoul max_flows (split_plus new).1;
      flows =
          add_flows net.add_fails
            (suc dest_ip)
            (stream_count net.strtoul max_flows (split_plus new).1)
            0
            s.flows;
    }
unfolding dest_ip_change switch_streams
listens net max_flows new s dest_ip none_yet changed valid =
    let idle : ltb 0 s.nstreams ≡ false = ground arith in
    let real : (suc dest_ip == 0) ≡ false = ground arith in
    rw changed (rw idle (rw valid (rw real)))

stops :
    (net : Network) (max_flows : ℕ) (s : Streams)
    → NetworkLaws net
    → Streaming max_flows s
    → same_string s.dest_ip_stream_str any_address ≡ false
    → (i : ℕ) → (dest_ip_change net max_flows any_address s).flows i ≡ none
unfolding dest_ip_change switch_streams split_plus
stops net max_flows s laws ok changed i = elim (Bool-cases (ltb 0 s.nstreams)) [
  | inl listening ↦ rw changed (rw listening (rw (laws.any_is_zero) gone))
  | inr idle ↦ rw changed (rw idle (rw (laws.any_is_zero) gone))
]
  where
    gone : remove_flows net.remove_fails s.nstreams 0 s.flows i ≡ none
    gone =
        elim (removed net net.remove_fails max_flows s (λ j h. h)
          (Streaming-But net.remove_fails max_flows s ok) i) [
            | inl off ↦ off
            | inr left_over ↦ let removes = laws.removes i in absurd (cc)
          ]

-- While no stream is received, a change of DESTIP to an address that is valid and not 0 sets, where
-- no call fails, the flows of its streams: that of slot `i` for the address and `i` behind it. A
-- change to "0.0.0.0" after it removes all flows.
pub dest_ip_change_on_off :
    (net : Network) (max_flows : ℕ) (new : List ℕ) (s : Streams) (dest_ip i : ℕ)
    → NetworkLaws net
    → Streaming max_flows s
    → s.nstreams ≡ 0
    → same_string s.dest_ip_stream_str new ≡ false
    → same_string new any_address ≡ false
    → net.inet_aton (split_plus new).0 ≡ some (suc dest_ip)
    → ((j : ℕ) → net.add_fails j ≡ false)
    → i < stream_count net.strtoul max_flows (split_plus new).1
    → ((dest_ip_change net max_flows new s).flows i ≡ some ((suc dest_ip + i) % 2 ^ 32))
      × ((dest_ip_change net max_flows any_address (dest_ip_change net max_flows new s)).flows i
          ≡ none)
dest_ip_change_on_off net max_flows new s dest_ip i laws ok none_yet changed other valid adds h =
    let now = listens net max_flows new s dest_ip none_yet changed valid in
    let n = stream_count net.strtoul max_flows (split_plus new).1 in
    let set =
      add_flows-all net.add_fails (suc dest_ip) n 0 s.flows i adds (omega arith)
        (λ l. absurd (omega arith)) in
    let dest = ap (λ (x : Streams). same_string x.dest_ip_stream_str any_address) now ∙ other in
    let kept = dest_ip_change-Streaming net max_flows new s laws ok in
    (
      ap (λ (x : Streams). x.flows i) now ∙ set,
      stops net max_flows (dest_ip_change net max_flows new s) laws kept dest i,
    )
