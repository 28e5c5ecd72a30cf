-- ===== src/Tools/Search.antt =====
-- The search of PATH finds the first executable, and always ends.
use zoo_keeper_server.Prelude.{
  ℕ, zero, suc, ◌≡◌, ◌≢◌, ◌<◌, refl, ◌∙◌, ap, inl, inr, Bytes, Bool, true, false, Option, none,
  some, List, [], ◌∷◌, map, if◌then◌else◌, ◌==◌, length, arith, Option-cases, Bool-cases,
}
use zoo_keeper_server.Tools.{CommandToolConfig}
use zoo_keeper_server.Tools.Schema.{has_byte}
use zoo_keeper_server.Tools.Prepare.{
  System, before_byte, after_byte, candidate, search_path, command_base_directory,
  effective_path_env, absolute, resolve_program, resolve_command, resolve_executable_path,
}

abbrev cons_head : ℕ → List Bytes → List Bytes
cons_head x [] = (x ∷ []) ∷ []
cons_head x (w ∷ ws) = (x ∷ w) ∷ ws

-- The entries between the bytes `c`, the empty ones too.
unfoldable pub split : ℕ → Bytes → List Bytes
split c [] = [] ∷ []
split c (x ∷ s) = if x == c then [] ∷ split c s else cons_head x (split c s)

abbrev split_rest : ℕ → Option Bytes → List Bytes
split_rest c none = []
split_rest c (some s) = split c s

split_lem : (c : ℕ) (s : Bytes) → split c s ≡ before_byte c s ∷ split_rest c (after_byte c s)
unfolding split before_byte after_byte
split_lem c [] = refl
split_lem c (x ∷ s) = elim (Bool-cases (x == c)) [
  | inl e ↦ rw e refl
  | inr e ↦ rw e (rw (split_lem c s) refl)
]

length-after_byte : (c : ℕ) (s r : Bytes) → after_byte c s ≡ some r → length r < length s
unfolding after_byte
length-after_byte c [] r h = cc
length-after_byte c (x ∷ s) r h = elim (Bool-cases (x == c)) [
  | inl e ↦ let same : s ≡ r = cc in rw (← same) (omega arith)
  | inr e ↦ let rest : after_byte c s ≡ some r = cc in omega (arith, length-after_byte c s r rest)
]

if_some :
    {A : Type 0} (b : Bool) (x y : A) → (if b then some x else some y) ≡ some (if b then x else y)
if_some true x y = refl
if_some false x y = refl

module _ (sys : System) where
  -- The first of the files that is executable.
  unfoldable pub first_executable : List Bytes → Option Bytes
  first_executable [] = none
  first_executable (file ∷ files) =
      if sys.is_executable_file file
      then some (sys.weakly_canonical file)
      else first_executable files

  -- The file that an entry stands for: the program in that directory, which is the base directory
  -- for an empty entry, and is taken from there if it is relative.
  abbrev pub entry_file : Bytes → Bytes → Bytes → Bytes
  entry_file base_dir program [] = sys.join (absolute sys base_dir base_dir) program
  entry_file base_dir program (c ∷ entry) = sys.join (absolute sys base_dir (c ∷ entry)) program

  candidate_lem :
      (base_dir program : Bytes) (entries : List Bytes)
      → map (candidate sys base_dir program) entries ≡ map (entry_file base_dir program) entries
  unfolding candidate
  candidate_lem base_dir program [] = refl
  candidate_lem base_dir program ([] ∷ entries) =
      ap (λ fs. entry_file base_dir program [] ∷ fs) (candidate_lem base_dir program entries)
  candidate_lem base_dir program ((c ∷ entry) ∷ entries) =
      ap (λ fs. entry_file base_dir program (c ∷ entry) ∷ fs)
        (candidate_lem base_dir program entries)

  search_path-first :
      (fuel : ℕ) (base_dir program rest : Bytes)
      → length rest < fuel
      → search_path sys fuel base_dir program rest
        ≡ some (first_executable (map (candidate sys base_dir program) (split 58 rest)))
  unfolding search_path first_executable
  search_path-first zero base_dir program rest h = let bad : ⊥ = omega arith in absurd bad
  search_path-first (suc fuel) base_dir program rest h =
      rw (split_lem 58 rest) (elim (Option-cases (after_byte 58 rest)) [
        | inl e ↦ rw (e, search_path) (if_some _ _ _)
        | inr (r, e) ↦
            rw (e, search_path)
              (rw
                (search_path-first fuel base_dir program r
                  (omega (arith, length-after_byte 58 rest r e)))
                (if_some _ _ _))
      ])

module _ (sys : System) {J : Type 0} where
  resolve_program-slash :
      (tool : CommandToolConfig J) (program : Bytes)
      → has_byte 47 program ≡ true
      → resolve_program sys tool program
        ≡ some (first_executable sys (absolute sys (command_base_directory sys tool) program ∷ []))
  unfolding resolve_program first_executable
  resolve_program-slash tool program h = rw (h, resolve_program) refl

  resolve_program-path :
      (tool : CommandToolConfig J) (program path : Bytes)
      → has_byte 47 program ≡ false
      → effective_path_env sys tool ≡ some path
      → resolve_program sys tool program
        ≡ some (
            first_executable sys
              (map (candidate sys (command_base_directory sys tool) program) (split 58 path)))
  unfolding resolve_program
  resolve_program-path tool program path h found =
      rw (h, resolve_program)
        (rw (found, resolve_program) (search_path-first sys _ _ program path (omega arith)))

  resolve_program-missing :
      (tool : CommandToolConfig J) (program : Bytes)
      → has_byte 47 program ≡ false
      → effective_path_env sys tool ≡ none
      → resolve_program sys tool program ≡ some none
  unfolding resolve_program
  resolve_program-missing tool program h missing =
      rw (h, resolve_program) (rw (missing, resolve_program) refl)

  resolve_lem :
      (tool : CommandToolConfig J) (program : Bytes) (arguments : List Bytes)
      → tool.command ≡ program ∷ arguments
      → program ≢ []
      → resolve_executable_path sys tool ≡ resolve_program sys tool program
  unfolding resolve_executable_path
  resolve_lem tool [] arguments e n = absurd (n refl)
  resolve_lem tool (c ∷ program) arguments e n = ap (resolve_command sys tool) e

  program_resolves :
      (tool : CommandToolConfig J) (program : Bytes)
      → (o : Option Bytes) × (resolve_program sys tool program ≡ some o)
  program_resolves tool program = elim (Bool-cases (has_byte 47 program)) [
    | inl slash ↦ (_, resolve_program-slash tool program slash)
    | inr slash ↦ elim (Option-cases (effective_path_env sys tool)) [
      | inl missing ↦ (none, resolve_program-missing tool program slash missing)
      | inr (path, found) ↦ (_, resolve_program-path tool program path slash found)
    ]
  ]

  command_resolves :
      (tool : CommandToolConfig J) (command : List Bytes)
      → (o : Option Bytes) × (resolve_command sys tool command ≡ some o)
  command_resolves tool [] = (none, refl)
  command_resolves tool ([] ∷ arguments) = (none, refl)
  command_resolves tool ((c ∷ program) ∷ arguments) = program_resolves tool (c ∷ program)

  -- The search ends in all cases.
  pub resolves :
      (tool : CommandToolConfig J)
      → (o : Option Bytes) × (resolve_executable_path sys tool ≡ some o)
  unfolding resolve_executable_path
  resolves tool = command_resolves tool tool.command

  -- For a command whose program is not empty, the search for the executable ends. A program with a
  -- `/` is looked for only as a path from the base directory. Any other is found as the first
  -- executable file among the entries of the effective PATH, in their order, where an empty entry
  -- stands for the base directory; and without a PATH nothing is found.
  pub resolve_executable_path_lem :
      (tool : CommandToolConfig J) (program : Bytes) (arguments : List Bytes)
      → tool.command ≡ program ∷ arguments
      → program ≢ []
      → let base = command_base_directory sys tool in
        (has_byte 47 program ≡ true
          → resolve_executable_path sys tool
            ≡ some (first_executable sys (absolute sys base program ∷ [])))
        × ((path : Bytes)
            → has_byte 47 program ≡ false
            → effective_path_env sys tool ≡ some path
            → resolve_executable_path sys tool
              ≡ some (first_executable sys (map (entry_file sys base program) (split 58 path))))
        × (has_byte 47 program ≡ false
            → effective_path_env sys tool ≡ none
            → resolve_executable_path sys tool ≡ some none)
  resolve_executable_path_lem tool program arguments e n =
      let same = resolve_lem tool program arguments e n in
      (
        λ slash. same ∙ resolve_program-slash tool program slash,
        λ path slash found.
            same
            ∙ resolve_program-path tool program path slash found
            ∙ ap (λ fs. some (first_executable sys fs))
                (candidate_lem sys (command_base_directory sys tool) program (split 58 path)),
        λ slash missing. same ∙ resolve_program-missing tool program slash missing,
      )
