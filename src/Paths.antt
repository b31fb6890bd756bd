-- ===== src/Paths.antt =====
-- half_hashpipe/hpguppi_util.c: mkdir_p. A path is the list of its characters; mkdir(2) and the
-- file system are parameters. Where mkdir_p returns -1 the C code leaves the caller's string cut at
-- the slash; a path here is not changed.
pub mod Parents
use volt_rec.Base.{
  ℕ, List, [], ◌∷◌, ◌++◌, Bool, true, false, Option, none, some, ◌==◌, if◌then◌else◌,
}

-- What mkdir() does: it makes the directory, fails with EEXIST, or fails otherwise.
pub data Made : Type 0 where
  made exists failed : Made

abbrev pub slash : ℕ
slash = 47

abbrev pub Mkdir {ℓ} : Type ℓ → Type ℓ
Mkdir System = System → List ℕ → Made × System

-- One call of mkdir() with its test; the second part is none where mkdir_p returns -1.
unfoldable pub make {ℓ} : {System : Type ℓ} → Mkdir System → System → List ℕ → Bool × System
make mkdir sys path =
    let (result, after) = mkdir sys path in
    (elim result [ made ↦ true | exists ↦ true | failed ↦ false ], after)

-- The loop over the slashes: `before` is the path before the characters that are left.
unfoldable pub make_parents {ℓ} :
    {System : Type ℓ} → Mkdir System → System → List ℕ → List ℕ → Bool × System
unfolding make
make_parents mkdir sys before [] = (true, sys)
make_parents mkdir sys before (c ∷ cs) =
    if c == slash
    then (let (went, after) = make mkdir sys before in
        let rest = make_parents mkdir after (before ++ (c ∷ [])) cs in
        if went then rest else (false, after))
    else make_parents mkdir sys (before ++ (c ∷ [])) cs

-- A '/' at the start is passed over.
unfoldable pub make_all_parents {ℓ} :
    {System : Type ℓ} → Mkdir System → System → List ℕ → Bool × System
unfolding make_parents
make_all_parents mkdir sys [] = (true, sys)
make_all_parents mkdir sys (c ∷ cs) =
    if c == slash then make_parents mkdir sys (c ∷ []) cs else make_parents mkdir sys [] (c ∷ cs)

-- The path none is the null pointer.
unfoldable pub mkdir_p {ℓ} :
    {System : Type ℓ} → Mkdir System → System → Option (List ℕ) → Bool × System
unfolding make_all_parents make
mkdir_p mkdir sys none = (false, sys)
mkdir_p mkdir sys (some path) =
    let (went, after) = make_all_parents mkdir sys path in
    if went then make mkdir after path else (false, after)
