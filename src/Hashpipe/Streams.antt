-- ===== src/Hashpipe/Streams.antt =====
-- half_hashpipe/ata_volt_outer_thread.c: what run() does when the field DESTIP of the status buffer
-- has changed. A string is the list of its characters, and the flows that the network card receives
-- are the function from a slot to the address that it lets pass. inet_aton (in the order of
-- ntohl), strtoul and the failures of the calls that set a flow are parameters; nstreams, whose
-- declaration the source does not show, is a 32-bit word.
pub mod Flows
pub mod Switching
use volt_rec.Base.{
  ℕ, zero, suc, ◌+◌, ◌%◌, ◌^◌, Bool, true, false, not, ◌&&◌, List, [], ◌∷◌, Option, none, some, ltb,
  ◌==◌, if◌then◌else◌, min,
}

-- strcmp() == 0
abbrev pub same_string : List ℕ → List ℕ → Bool
same_string [] [] = true
same_string [] (d ∷ ds) = false
same_string (c ∷ cs) [] = false
same_string (c ∷ cs) (d ∷ ds) = (c == d) && same_string cs ds

-- "0.0.0.0"
abbrev pub any_address : List ℕ
any_address = 48 ∷ 46 ∷ 48 ∷ 46 ∷ 48 ∷ 46 ∷ 48 ∷ []

-- The string up to the first '+', and what is behind it.
unfoldable pub split_plus : List ℕ → List ℕ × Option (List ℕ)
split_plus [] = ([], none)
split_plus (c ∷ cs) =
    let (ip, count) = split_plus cs in if c == 43 then ([], some cs) else (c ∷ ip, count)

abbrev pub FlowTable : Type 0
FlowTable = ℕ → Option ℕ

abbrev pub set_flow : FlowTable → ℕ → Option ℕ → FlowTable
set_flow flows slot address i = if i == slot then address else flows i

-- The loop that removes the flows; after an error it goes on.
unfoldable pub remove_flows : (ℕ → Bool) → ℕ → ℕ → FlowTable → FlowTable
remove_flows fails zero dest_idx flows = flows
remove_flows fails (suc left) dest_idx flows =
    remove_flows fails left (dest_idx + 1)
      (if fails dest_idx then flows else set_flow flows dest_idx none)

-- The loop that adds the flows; an error ends it.
unfoldable pub add_flows : (ℕ → Bool) → ℕ → ℕ → ℕ → FlowTable → FlowTable
add_flows fails dest_ip zero dest_idx flows = flows
add_flows fails dest_ip (suc left) dest_idx flows =
    let rest =
      add_flows fails dest_ip left (dest_idx + 1)
        (set_flow flows dest_idx (some ((dest_ip + dest_idx) % 2 ^ 32))) in
    if fails dest_idx then flows else rest

-- The number of streams of "A.B.C.D+N".
unfoldable pub stream_count : (List ℕ → ℕ) → ℕ → Option (List ℕ) → ℕ
stream_count strtoul max_flows count =
    min (elim count [ none ↦ 1 | some n ↦ (strtoul n % 2 ^ 32 + 1) % 2 ^ 32 ]) max_flows

pub record Streams : Type 0 where
  pub dest_ip_stream_str : List ℕ
  pub nstreams : ℕ
  pub flows : FlowTable

pub record Network : Type 0 where
  pub inet_aton : List ℕ → Option ℕ
  pub strtoul : List ℕ → ℕ
  pub remove_fails : ℕ → Bool
  pub add_fails : ℕ → Bool

-- The address is valid, and the change is allowed.
unfoldable pub switch_streams : Network → ℕ → List ℕ → Option (List ℕ) → ℕ → Streams → Streams
unfolding remove_flows add_flows stream_count
switch_streams net max_flows new count dest_ip s =
    if dest_ip == 0
    then record {
      dest_ip_stream_str = new;
      nstreams = 0;
      flows = remove_flows net.remove_fails s.nstreams 0 s.flows;
    }
    else record {
      dest_ip_stream_str = new;
      nstreams = stream_count net.strtoul max_flows count;
      flows = add_flows net.add_fails dest_ip (stream_count net.strtoul max_flows count) 0 s.flows;
    }

unfoldable pub dest_ip_change : Network → ℕ → List ℕ → Streams → Streams
unfolding split_plus switch_streams
dest_ip_change net max_flows new s =
    if same_string s.dest_ip_stream_str new
    then s
    else if ltb 0 s.nstreams && not (same_string new any_address)
    then s
    else (let (ip, count) = split_plus new in
        elim (net.inet_aton ip) [
          | none ↦ s
          | some dest_ip ↦ switch_streams net max_flows new count dest_ip s
        ])
