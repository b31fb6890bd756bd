-- ===== src/Recorder.antt =====
-- full_custom/recorder.c, main: the configuration that the arguments of the program give. The
-- parameter `atoi` is the function of the C library; a string is the list of its bytes. What main
-- then starts, the three threads, is in the modules Receiver, Worker and FileWriter.
pub mod Arguments
use volt_rec.Base.{
  ℕ, zero, suc, ◌+◌, ◌-◌, ◌%◌, ◌^◌, Bool, true, false, ◌||◌, Option, none, some, List, [], ◌∷◌, ltb,
  length, get_or, take, if◌then◌else◌,
}
use volt_rec.Base.Int.{ℤ, pos, negsuc}
use volt_rec.Formats.{max_no_ants, max_channel_packets}
use volt_rec.Worker.State.{FileBuff}

-- What main sets before it starts the threads. `file_part` is `none` for DEFAULT_SAVE_PATTERN;
-- `port` is the number before its conversion to a short.
pub record Settings : Type 0 where
  pub n_ants : ℕ
  pub n_chans : ℕ
  pub first_chan : ℕ
  pub file_part : Option (List ℕ)
  pub port : ℤ

-- The conversion of an int to a uint32_t.
abbrev pub word32 : ℤ → ℕ
word32 (pos n) = n % 2 ^ 32
word32 (negsuc n) = 2 ^ 32 - 1 - n % 2 ^ 32

-- MAX_FILE
abbrev pub max_file : ℕ
max_file = 128

-- An argument that counts something: its default where it is absent, and `none`, the return value
-- -1 of main, where it is not between 1 and `most`.
unfoldable pub count_argument : (List ℕ → ℤ) → List (List ℕ) → ℕ → ℕ → ℕ → Option ℕ
count_argument atoi argv i default most =
    let n = word32 (atoi (get_or argv i [])) in
    if ltb i (length argv) then if ltb most n || ltb n 1 then none else some n else some default

-- `argv` has the name of the program first.
unfoldable pub parse_arguments : (List ℕ → ℤ) → List (List ℕ) → Option Settings
unfolding count_argument
parse_arguments atoi argv =
    if ltb (length argv) 2 then none else elim (count_argument atoi argv 3 1 max_no_ants) [
      | none ↦ none
      | some n_ants ↦ elim (count_argument atoi argv 4 max_channel_packets max_channel_packets) [
        | none ↦ none
        | some n_chans ↦ some record {
          n_ants = n_ants;
          n_chans = n_chans;
          first_chan = if ltb 5 (length argv) then word32 (atoi (get_or argv 5 [])) else 0;
          file_part =
              if ltb 2 (length argv) then some (take (max_file - 1) (get_or argv 2 [])) else none;
          port = atoi (get_or argv 1 []);
        }
      ]
    ]
