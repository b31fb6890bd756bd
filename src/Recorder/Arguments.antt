-- ===== src/Recorder/Arguments.antt =====
-- The settings of main against the test of the sorting thread.
use volt_rec.Base.{
  ℕ, ◌≤◌, ◌≡◌, inl, inr, false, none, some, List, ltb, length, Option-cases, Bool-cases, some_inj,
  arith, ap, ◌∙◌,
}
use volt_rec.Base.Int.{ℤ}
use volt_rec.Formats.{max_no_ants, max_channel_packets}
use volt_rec.Pool.{Pool}
use volt_rec.Worker.State.{FileBuff, bad_config}
use volt_rec.Recorder.{Settings, count_argument, parse_arguments}

-- The part of fileBuff that main sets, with what the threads find in the rest of it.
abbrev pub file_buff_of : Settings → List ℕ → ℕ → Pool → FileBuff
file_buff_of s ant_numbers packet_start pool = record {
  n_ants = s.n_ants;
  ant_numbers = ant_numbers;
  n_chans = s.n_chans;
  first_chan = s.first_chan;
  packet_start = packet_start;
  pool = pool;
}

none-some {ℓ} : {A : Type ℓ} {a : A} → none ≡ some a → ⊥
none-some h = absurd (cc)

count_argument-between :
    (atoi : List ℕ → ℤ) (argv : List (List ℕ)) (i default most : ℕ) {n : ℕ}
    → 1 ≤ default
    → default ≤ most
    → count_argument atoi argv i default most ≡ some n
    → (1 ≤ n) × (n ≤ most)
unfolding count_argument
count_argument-between atoi argv i default most {n} low high h = ground arith

bad_config-false :
    (f : FileBuff)
    → (1 ≤ f.n_ants) × (f.n_ants ≤ max_no_ants)
    → (1 ≤ f.n_chans) × (f.n_chans ≤ max_channel_packets)
    → bad_config f ≡ false
unfolding bad_config
bad_config-false f ants chans = ground arith

-- Both counts of accepted settings are arguments between their bounds, or the defaults.
accepted_counts :
    (atoi : List ℕ → ℤ) (argv : List (List ℕ)) {s : Settings}
    → parse_arguments atoi argv ≡ some s
    → (count_argument atoi argv 3 1 max_no_ants ≡ some s.n_ants)
      × (count_argument atoi argv 4 max_channel_packets max_channel_packets ≡ some s.n_chans)
unfolding parse_arguments
accepted_counts atoi argv {s} h = elim (Bool-cases (ltb (length argv) 2)) [
  | inl few ↦ absurd (none-some (rw (few, parse_arguments) at h))
  | inr enough ↦ elim (Option-cases (count_argument atoi argv 3 1 max_no_ants)) [
    | inl bad ↦
        absurd (none-some (rw (bad, parse_arguments) at (rw (enough, parse_arguments) at h)))
    | inr (n, e) ↦
        elim (Option-cases (count_argument atoi argv 4 max_channel_packets max_channel_packets)) [
          | inl bad ↦ absurd (
              none-some (
                rw (bad, parse_arguments) at
                  (rw (e, parse_arguments) at (rw (enough, parse_arguments) at h))))
          | inr (m, e') ↦
              let same = some_inj (
                rw (e', parse_arguments) at
                  (rw (e, parse_arguments) at (rw (enough, parse_arguments) at h))) in
              (e ∙ ap (λ x. some x.n_ants) same, e' ∙ ap (λ x. some x.n_chans) same)
        ]
  ]
]

-- Settings that main accepts pass the test of the sorting thread on its arguments, for every
-- meaning of atoi.
pub parse_arguments-accepted :
    (atoi : List ℕ → ℤ) (argv : List (List ℕ)) (ant_numbers : List ℕ) (packet_start : ℕ)
    (pool : Pool) {s : Settings}
    → parse_arguments atoi argv ≡ some s
    → bad_config (file_buff_of s ant_numbers packet_start pool) ≡ false
parse_arguments-accepted atoi argv ant_numbers packet_start pool {s} h =
    let (ants, chans) = accepted_counts atoi argv h in
    bad_config-false (file_buff_of s ant_numbers packet_start pool)
      (count_argument-between atoi argv 3 1 max_no_ants (omega arith) (omega arith) ants)
      (count_argument-between atoi argv 4 max_channel_packets max_channel_packets (omega arith)
        (omega arith) chans)
