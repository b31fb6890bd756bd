-- ===== src/Guppi/Receiving.antt =====
-- half_hashpipe/hpguppi_udp.c: hpguppi_udp_wait and hpguppi_udp_recv. What poll and recv return is
-- a parameter; none is -1.
use volt_rec.Base.{
  ℕ, zero, suc, ◌<◌, ◌≡◌, refl, sym, ap, inl, inr, Bool, true, false, ◌&&◌, ◌||◌, List, [], ◌∷◌,
  Option, none, some, ◌==◌, if◌then◌else◌, arith, ==→eq, Bool-cases, ==_of_ne, ==_refl,
}
use mathlib.Core.Path.{subst}
use volt_rec.Base.Int.{ℤ, pos, negsuc}

-- HASHPIPE_OK, HASHPIPE_TIMEOUT, HASHPIPE_ERR_SYS and HASHPIPE_ERR_PACKET
pub data Code : Type 0 where
  ok timeout err_sys err_packet : Code

unfoldable pub udp_wait : ℤ → Code
udp_wait (pos rv) = if rv == 1 then ok else if rv == 0 then timeout else err_sys
udp_wait (negsuc rv) = err_sys

-- The result, and the expected packet size after it; 0 is "don't care".
unfoldable pub udp_recv : ℕ → Option ℕ → Code × ℕ
udp_recv packet_size none = (err_sys, packet_size)
udp_recv packet_size (some rv) =
    if packet_size == 0
    then (ok, rv)
    else if rv == packet_size
    then (ok, packet_size)
    else (err_packet, packet_size)

-- The sizes of the packets that a sequence of calls accepts, and the expected size after it.
unfoldable pub receive_all : ℕ → List (Option ℕ) → List ℕ × ℕ
receive_all packet_size [] = ([], packet_size)
receive_all packet_size (none ∷ rest) = receive_all packet_size rest
receive_all packet_size (some rv ∷ rest) =
    let (code, next) = udp_recv packet_size (some rv) in
    let (sizes, after) = receive_all next rest in
    elim code [ ok ↦ (rv ∷ sizes, after) | _ ↦ (sizes, after) ]

-- Every size is 0 or `n`.
abbrev pub all_sizes : ℕ → List ℕ → Bool
all_sizes n [] = true
all_sizes n (size ∷ sizes) = (size == 0 || size == n) && all_sizes n sizes

-- The three ways in which a packet of `rv` bytes is received.
udp_recv-first : (n rv : ℕ) → (n == 0) ≡ true → udp_recv n (some rv) ≡ (ok, rv)
unfolding udp_recv
udp_recv-first n rv any = rw any

udp_recv-same : (n rv : ℕ) → (n == 0) ≡ false → (rv == n) ≡ true → udp_recv n (some rv) ≡ (ok, n)
unfolding udp_recv
udp_recv-same n rv expected same = rw expected (rw same)

udp_recv-other :
    (n rv : ℕ) → (n == 0) ≡ false → (rv == n) ≡ false → udp_recv n (some rv) ≡ (err_packet, n)
unfolding udp_recv
udp_recv-other n rv expected other = rw expected (rw other)

abbrev code_of : Code × ℕ → Code
code_of x = x.0

abbrev next_of : Code × ℕ → ℕ
next_of x = x.1

receive_all-kept :
    (packet_size : ℕ) (calls : List (Option ℕ))
    → 0 < packet_size
    → (receive_all packet_size calls).1 ≡ packet_size
unfolding receive_all
receive_all-kept packet_size [] h = refl
receive_all-kept packet_size (none ∷ calls) h = receive_all-kept packet_size calls h
receive_all-kept packet_size (some rv ∷ calls) h =
    let rest = receive_all-kept packet_size calls h in
    let expected = ==_of_ne packet_size 0 (λ e. omega arith) in
    elim (Bool-cases (rv == packet_size)) [
      | inl same ↦
          rw (ap code_of (udp_recv-same packet_size rv expected same), receive_all)
            (rw (ap next_of (udp_recv-same packet_size rv expected same)) rest)
      | inr other ↦
          rw (ap code_of (udp_recv-other packet_size rv expected other), receive_all)
            (rw (ap next_of (udp_recv-other packet_size rv expected other)) rest)
    ]

-- A packet that is empty or sets the expected size.
all_sizes-accepted :
    (n : ℕ) (calls : List (Option ℕ))
    → all_sizes (receive_all n calls).1 (receive_all n calls).0 ≡ true
    → all_sizes (receive_all n calls).1 (n ∷ (receive_all n calls).0) ≡ true
all_sizes-accepted zero calls rest = rest
all_sizes-accepted (suc n) calls rest =
    let kept = receive_all-kept (suc n) calls (omega arith) in
    let same : (suc n == (receive_all (suc n) calls).1) ≡ true = rw kept (==_refl (suc n)) in
    ground arith

-- Every packet that a sequence of calls accepts is empty, or has the size that is expected after the
-- calls: the first packet that is not empty sets the size where none was expected.
pub receive_all_lem :
    (packet_size : ℕ) (calls : List (Option ℕ))
    → all_sizes (receive_all packet_size calls).1 (receive_all packet_size calls).0 ≡ true
unfolding receive_all
receive_all_lem packet_size [] = refl
receive_all_lem packet_size (none ∷ calls) = receive_all_lem packet_size calls
receive_all_lem packet_size (some rv ∷ calls) = elim (Bool-cases (packet_size == 0)) [
  | inl any ↦
      let e = udp_recv-first packet_size rv any in
      rw (ap code_of e, receive_all)
        (subst (taken rv) (sym (ap next_of e))
          (all_sizes-accepted rv calls (receive_all_lem rv calls)))
  | inr expected ↦ elim (Bool-cases (rv == packet_size)) [
    | inl same ↦
        let e = udp_recv-same packet_size rv expected same in
        let size = ==→eq rv packet_size same in
        rw (ap code_of e, receive_all)
          (subst (taken rv) (sym (ap next_of e)) (
            subst (λ v. taken v packet_size) (sym size)
              (all_sizes-accepted packet_size calls (receive_all_lem packet_size calls))))
    | inr other ↦
        let e = udp_recv-other packet_size rv expected other in
        rw (ap code_of e, receive_all)
          (subst (λ n. all_sizes (receive_all n calls).1 (receive_all n calls).0 ≡ true)
            (sym (ap next_of e)) (receive_all_lem packet_size calls))
  ]
]
  where
    taken : ℕ → ℕ → Type 0
    taken v n = all_sizes (receive_all n calls).1 (v ∷ (receive_all n calls).0) ≡ true
