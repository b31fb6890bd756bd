-- ===== src/Paths/Parents.antt =====
-- After mkdir_p has succeeded the path and its parents exist.
use volt_rec.Base.{
  ℕ, ◌≡◌, refl, sym, ◌≢◌, inl, inr, List, [], ◌∷◌, ◌++◌, true, false, some, ◌==◌, Bool-cases, arith,
}
use mathlib.Core.List.{append_assoc, append-nil}
use mathlib.Core.Path.{subst}
use volt_rec.Paths.{
  Made, made, exists, failed, slash, Mkdir, make, make_parents, make_all_parents, mkdir_p,
}

-- What is relied on of mkdir(2): the path exists after it was made, and where the call fails with
-- EEXIST; and what exists goes on to exist.
pub record MkdirLaws {ℓ} {System : Type ℓ} (mkdir : Mkdir System)
    (Exists : System → List ℕ → Type ℓ) : Type ℓ where
  pub after_made :
      (sys : System) (path : List ℕ) → (mkdir sys path).0 ≡ made → Exists (mkdir sys path).1 path
  pub after_exists :
      (sys : System) (path : List ℕ) → (mkdir sys path).0 ≡ exists → Exists (mkdir sys path).1 path
  pub keeps :
      (sys : System) (path other : List ℕ) → Exists sys other → Exists (mkdir sys path).1 other

false≢true : false ≢ true
false≢true h = ground arith

module _ {ℓ} {System : Type ℓ} (mkdir : Mkdir System) (Exists : System → List ℕ → Type ℓ)
    (laws : MkdirLaws mkdir Exists) where
  open laws use {after_made, after_exists, keeps}

  make-exists :
      (sys : System) (path : List ℕ)
      → (make mkdir sys path).0 ≡ true
      → Exists (make mkdir sys path).1 path
  unfolding make
  make-exists sys path h = go (mkdir sys path).0 refl
    where
      go : (m : Made) → (mkdir sys path).0 ≡ m → Exists (mkdir sys path).1 path
      go made e = after_made sys path e
      go exists e = after_exists sys path e
      go failed e = absurd (ground arith)

  make-keeps :
      (sys : System) (path other : List ℕ) → Exists sys other → Exists (make mkdir sys path).1 other
  unfolding make
  make-keeps sys path other h = keeps sys path other h

  make_parents-keeps :
      (sys : System) (before cs other : List ℕ)
      → Exists sys other
      → Exists (make_parents mkdir sys before cs).1 other
  unfolding make_parents
  make_parents-keeps sys before [] other h = h
  make_parents-keeps sys before (c ∷ cs) other h = elim (Bool-cases (c == slash)) [
    | inr inside ↦ rw inside (make_parents-keeps sys (before ++ (c ∷ [])) cs other h)
    | inl at_slash ↦ elim (Bool-cases (make mkdir sys before).0) [
      | inl went ↦ rw at_slash (
          rw went (
            make_parents-keeps (make mkdir sys before).1 (before ++ (c ∷ [])) cs other
              (make-keeps sys before other h)))
      | inr stops ↦ rw at_slash (rw stops (make-keeps sys before other h))
    ]
  ]

  -- Every part of the path that ends before a later slash exists.
  make_parents-exists :
      (sys : System) (before part rest : List ℕ)
      → (make_parents mkdir sys before (part ++ (slash ∷ rest))).0 ≡ true
      → Exists (make_parents mkdir sys before (part ++ (slash ∷ rest))).1 (before ++ part)
  unfolding make_parents
  make_parents-exists sys before [] rest h = elim (Bool-cases (make mkdir sys before).0) [
    | inl went ↦ rw went (
        make_parents-keeps (make mkdir sys before).1 (before ++ (slash ∷ [])) rest (before ++ []) (
          subst (λ p. Exists (make mkdir sys before).1 p) (sym (append-nil before))
            (make-exists sys before went)))
    | inr stops ↦ absurd (false≢true (rw stops at h))
  ]
  make_parents-exists sys before (d ∷ part) rest h = elim (Bool-cases (d == slash)) [
    | inr inside ↦
        let next = make_parents-exists sys (before ++ (d ∷ [])) part rest (rw inside at h) in
        rw inside (
          subst
            (λ p. Exists (make_parents mkdir sys (before ++ (d ∷ [])) (part ++ (slash ∷ rest))).1 p)
            (append_assoc before (d ∷ []) part) next)
    | inl at_slash ↦ elim (Bool-cases (make mkdir sys before).0) [
      | inl went ↦
          let after = (make mkdir sys before).1 in
          let next =
            make_parents-exists after (before ++ (d ∷ [])) part rest
              (rw went at (rw at_slash at h)) in
          rw at_slash (
            rw went (
              subst
                (λ p.
                  Exists (make_parents mkdir after (before ++ (d ∷ [])) (part ++ (slash ∷ rest))).1
                    p)
                (append_assoc before (d ∷ []) part) next))
      | inr stops ↦ absurd (false≢true (rw stops at (rw at_slash at h)))
    ]
  ]

  make_all_parents-root :
      (sys : System) (c : ℕ) (cs : List ℕ)
      → (c == slash) ≡ true
      → make_all_parents mkdir sys (c ∷ cs) ≡ make_parents mkdir sys (c ∷ []) cs
  unfolding make_all_parents
  make_all_parents-root sys c cs root = rw root

  make_all_parents-inside :
      (sys : System) (c : ℕ) (cs : List ℕ)
      → (c == slash) ≡ false
      → make_all_parents mkdir sys (c ∷ cs) ≡ make_parents mkdir sys [] (c ∷ cs)
  unfolding make_all_parents
  make_all_parents-inside sys c cs inside = rw inside

  -- The part before a slash that does not start the path.
  make_all_parents-exists :
      (sys : System) (c : ℕ) (part rest : List ℕ)
      → (make_all_parents mkdir sys (c ∷ part ++ (slash ∷ rest))).0 ≡ true
      → Exists (make_all_parents mkdir sys (c ∷ part ++ (slash ∷ rest))).1 (c ∷ part)
  make_all_parents-exists sys c part rest h = elim (Bool-cases (c == slash)) [
    | inl root ↦
        let e = make_all_parents-root sys c (part ++ (slash ∷ rest)) root in
        rw e (make_parents-exists sys (c ∷ []) part rest (rw e at h))
    | inr inside ↦
        let e = make_all_parents-inside sys c (part ++ (slash ∷ rest)) inside in
        rw e (make_parents-exists sys [] (c ∷ part) rest (rw e at h))
  ]

  -- Where mkdir_p returns 0 for a path with a slash that is not its first character, the path exists
  -- after it, and so does the part of it before that slash.
  pub mkdir_p-exists :
      (sys : System) (c : ℕ) (part rest : List ℕ)
      → (mkdir_p mkdir sys (some (c ∷ part ++ (slash ∷ rest)))).0 ≡ true
      → Exists
          (mkdir_p mkdir sys (some (c ∷ part ++ (slash ∷ rest)))).1
          (c ∷ part ++ (slash ∷ rest))
        × Exists (mkdir_p mkdir sys (some (c ∷ part ++ (slash ∷ rest)))).1 (c ∷ part)
  unfolding mkdir_p
  mkdir_p-exists sys c part rest h =
      elim (Bool-cases (make_all_parents mkdir sys (c ∷ part ++ (slash ∷ rest))).0) [
        | inl went ↦
            let path = c ∷ part ++ (slash ∷ rest) in
            let after = (make_all_parents mkdir sys path).1 in
            rw went (
              make-exists after path (rw went at h),
              make-keeps after path (c ∷ part) (make_all_parents-exists sys c part rest went),
            )
        | inr stops ↦ absurd (false≢true (rw stops at h))
      ]
