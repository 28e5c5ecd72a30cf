-- ===== src/Tools/Environment.antt =====
-- The environment of a tool: which variables it has, each once.
use zoo_keeper_server.Prelude.{
  ◌≡◌, refl, sym, subst, ◌∙◌, ap, inl, inr, Bytes, Bool, true, false, Option, none, some, List, [],
  ◌∷◌, if◌then◌else◌, ◌==ᵇ◌, ==ᵇ_refl, ==ᵇ_iff, All, arith, Option-cases, Bool-cases,
}
use zoo_keeper_server.Json.{member}
use zoo_keeper_server.Tools.{CommandToolConfig}
use zoo_keeper_server.Tools.Prepare.{
  System, before_byte, after_byte, lessᵇ, insert, emplace_entry, assign_entry, inherit_entries,
  assign_entries, build_environment_map,
}

less_irrefl : (s : Bytes) → lessᵇ s s ≡ false
unfolding lessᵇ
less_irrefl [] = refl
less_irrefl (a ∷ s) = ground (arith, less_irrefl s)

less_trans : (r s t : Bytes) → lessᵇ r s ≡ true → lessᵇ s t ≡ true → lessᵇ r t ≡ true
unfolding lessᵇ
less_trans [] [] t h k = cc
less_trans [] (b ∷ s) [] h k = cc
less_trans [] (b ∷ s) (c ∷ t) h k = refl
less_trans (a ∷ r) [] t h k = cc
less_trans (a ∷ r) (b ∷ s) [] h k = cc
less_trans (a ∷ r) (b ∷ s) (c ∷ t) h k = ground (arith, less_trans r s t)

less_total : (s t : Bytes) → t ==ᵇ s ≡ false → lessᵇ s t ≡ false → lessᵇ t s ≡ true
unfolding lessᵇ ◌==ᵇ◌
less_total [] [] h k = cc
less_total [] (b ∷ t) h k = cc
less_total (a ∷ s) [] h k = refl
less_total (a ∷ s) (b ∷ t) h k = ground (arith, less_total s t)

-- A map whose keys come after this one, and one whose keys rise.
abbrev pub Below : Bytes → List (Bytes × Bytes) → Type 0
Below key m = All (λ e. lessᵇ key e.0 ≡ true) m

abbrev pub IsSorted : List (Bytes × Bytes) → Type 0
IsSorted [] = Unit
IsSorted ((k, v) ∷ m) = Below k m × IsSorted m

Below-trans : (j k : Bytes) (m : List (Bytes × Bytes)) → lessᵇ j k ≡ true → Below k m → Below j m
Below-trans j k [] h b = tt
Below-trans j k ((i, v) ∷ m) h b = (less_trans j k i h b.0, Below-trans j k m h b.1)

not_below : (key k : Bytes) → lessᵇ key k ≡ true → k ==ᵇ key ≡ false
not_below key k h = elim (Bool-cases (k ==ᵇ key)) [
  | inl e ↦
      let same = (==ᵇ_iff k key).0 e in
      let bad : lessᵇ key key ≡ true = rw same at h in let irrefl = less_irrefl key in cc
  | inr e ↦ e
]

member-Below : (key : Bytes) (m : List (Bytes × Bytes)) → Below key m → member key m ≡ none
unfolding member
member-Below key [] b = refl
member-Below key ((k, v) ∷ m) b = rw (not_below key k b.0) (member-Below key m b.1)

-- The first option, if there is one.
abbrev pub or_else : {A : Type 0} → Option A → Option A → Option A
or_else none o = o
or_else (some a) o = some a

abbrev pub merged : (Bytes → Bytes → Bytes) → Bytes → Option Bytes → Bytes
merged merge value none = value
merged merge value (some v) = merge v value

module _ (merge : Bytes → Bytes → Bytes) (key value : Bytes) where
  insert-Below :
      (k : Bytes) (m : List (Bytes × Bytes))
      → lessᵇ k key ≡ true
      → Below k m
      → Below k (insert merge key value m)
  unfolding insert
  insert-Below k [] h b = (h, tt)
  insert-Below k ((j, v) ∷ m) h b = elim (Bool-cases (j ==ᵇ key)) [
    | inl e ↦ rw e (b.0, b.1)
    | inr e ↦ elim (Bool-cases (lessᵇ key j)) [
      | inl l ↦ rw e (rw l (h, (b.0, b.1)))
      | inr l ↦ rw e (rw l (b.0, insert-Below k m h b.1))
    ]
  ]

  insert-IsSorted : (m : List (Bytes × Bytes)) → IsSorted m → IsSorted (insert merge key value m)
  unfolding insert
  insert-IsSorted [] s = (tt, tt)
  insert-IsSorted ((j, v) ∷ m) s = elim (Bool-cases (j ==ᵇ key)) [
    | inl e ↦ rw e (s.0, s.1)
    | inr e ↦ elim (Bool-cases (lessᵇ key j)) [
      | inl l ↦ rw e (rw l ((l, Below-trans key j m l s.0), (s.0, s.1)))
      | inr l ↦ rw e (rw l (insert-Below j m (less_total key j e l) s.0, insert-IsSorted m s.1))
    ]
  ]

  member-insert-same :
      (m : List (Bytes × Bytes))
      → IsSorted m
      → member key (insert merge key value m) ≡ some (merged merge value (member key m))
  unfolding insert member
  member-insert-same [] s = rw (==ᵇ_refl key) refl
  member-insert-same ((j, v) ∷ m) s = elim (Bool-cases (j ==ᵇ key)) [
    | inl e ↦ rw e (rw e refl)
    | inr e ↦ elim (Bool-cases (lessᵇ key j)) [
      | inl l ↦ rw e (rw l (rw (==ᵇ_refl key, member-Below key m (Below-trans key j m l s.0)) refl))
      | inr l ↦ rw e (rw l (rw e (member-insert-same m s.1)))
    ]
  ]

  member-insert-eq :
      (k : Bytes) (m : List (Bytes × Bytes))
      → key ==ᵇ k ≡ true
      → IsSorted m
      → member k (insert merge key value m) ≡ some (merged merge value (member k m))
  member-insert-eq k m h s =
      subst
        (λ (k : Bytes).
          member k (insert merge key value m) ≡ some (merged merge value (member k m)))
        ((==ᵇ_iff key k).0 h) (member-insert-same m s)

  member-insert-other :
      (k : Bytes) (m : List (Bytes × Bytes))
      → key ==ᵇ k ≡ false
      → member k (insert merge key value m) ≡ member k m
  unfolding insert member
  member-insert-other k [] n = rw n refl
  member-insert-other k ((j, v) ∷ m) n = elim (Bool-cases (j ==ᵇ key)) [
    | inl e ↦
        let same = (==ᵇ_iff j key).0 e in
        let other : j ==ᵇ k ≡ false = rw same n in rw e (rw other refl)
    | inr e ↦ elim (Bool-cases (lessᵇ key j)) [
      | inl l ↦ rw e (rw l (rw n refl))
      | inr l ↦ rw e (rw l (rw (member-insert-other k m n) refl))
    ]
  ]

-- What the server's own environment says of a name: its first entry with that name.
unfoldable pub inherited : Bytes → List Bytes → Option Bytes
inherited key [] = none
inherited key (entry ∷ entries) = elim (after_byte 61 entry) [
  | none ↦ inherited key entries
  | some value ↦ if before_byte 61 entry ==ᵇ key then some value else inherited key entries
]

or_else-none : {A : Type 0} (o : Option A) → or_else o none ≡ o
or_else-none none = refl
or_else-none (some a) = refl

kept :
    (o : Option Bytes) (value : Bytes) (p : Option Bytes)
    → or_else (some (merged (λ old new. old) value o)) p ≡ or_else o (some value)
kept none value p = refl
kept (some v) value p = refl

replaced : (o : Option Bytes) (value : Bytes) → merged (λ old new. new) value o ≡ value
replaced none value = refl
replaced (some v) value = refl

inherit_entries_lem :
    (key : Bytes) (entries : List Bytes) (m : List (Bytes × Bytes))
    → IsSorted m
    → IsSorted (inherit_entries entries m)
      × (member key (inherit_entries entries m) ≡ or_else (member key m) (inherited key entries))
unfolding inherit_entries inherited
inherit_entries_lem key [] m s = (s, sym (or_else-none (member key m)))
inherit_entries_lem key (entry ∷ entries) m s = elim (Option-cases (after_byte 61 entry)) [
  | inl e ↦ rw (e, inherit_entries) (rw (e, inherited) (inherit_entries_lem key entries m s))
  | inr (value, e) ↦
      let name = before_byte 61 entry in
      let rest =
        inherit_entries_lem key entries (emplace_entry name value m)
          (insert-IsSorted (λ old new. old) name value m s) in
      elim (Bool-cases (name ==ᵇ key)) [
        | inl n ↦
            rw (e, inherit_entries)
              (rw (e, inherited)
                (rw n (
                  rest.0,
                  rest.1
                      ∙ rw (member-insert-eq (λ old new. old) name value key m n s)
                          (kept (member key m) value (inherited key entries)),
                )))
        | inr n ↦
            rw (e, inherit_entries)
              (rw (e, inherited)
                (rw n (
                  rest.0,
                  rest.1 ∙ rw (member-insert-other (λ old new. old) name value key m n) refl,
                )))
      ]
]

assign_entries_lem :
    (key : Bytes) (env m : List (Bytes × Bytes))
    → IsSorted env
    → IsSorted m
    → IsSorted (assign_entries env m)
      × (member key (assign_entries env m) ≡ or_else (member key env) (member key m))
unfolding assign_entries member
assign_entries_lem key [] m v s = (s, refl)
assign_entries_lem key ((name, value) ∷ env) m v s =
    let rest =
      assign_entries_lem key env (assign_entry name value m) v.1
        (insert-IsSorted (λ old new. new) name value m s) in
    elim (Bool-cases (name ==ᵇ key)) [
      | inl n ↦
          let absent : member key env ≡ none =
            subst (λ (k : Bytes). member k env ≡ none) ((==ᵇ_iff name key).0 n)
              (member-Below name env v.0) in
          let there =
            member-insert-eq (λ old new. new) name value key m n s
            ∙ ap (λ (b : Bytes). some b) (replaced (member key m) value) in
          rw n (rest.0, rest.1 ∙ rw absent there)
      | inr n ↦
          rw n (rest.0, rest.1 ∙ rw (member-insert-other (λ old new. new) name value key m n) refl)
    ]

base_lem :
    (entries : List Bytes) (key : Bytes) (inherit : Bool)
    → IsSorted (if inherit then inherit_entries entries [] else [])
      × (member key (if inherit then inherit_entries entries [] else [])
          ≡ (if inherit then inherited key entries else none))
unfolding member
base_lem entries key true = inherit_entries_lem key entries [] tt
base_lem entries key false = (tt, refl)

module _ (sys : System) {J : Type 0} where
  -- The environment of a tool, with the variables of its configuration in the order of their
  -- names: its own names rise, so each variable is there once; a configured variable has the
  -- configured value; and any other has the value of the first entry of the server's
  -- environment with that name, if the tool inherits, and else is not there.
  pub build_environment_map_lem :
      (tool : CommandToolConfig J) (key : Bytes)
      → IsSorted tool.env
      → IsSorted (build_environment_map sys tool)
        × (member key (build_environment_map sys tool)
            ≡ or_else
                (member key tool.env)
                (if tool.inherit_environment then inherited key sys.environ else none))
  unfolding build_environment_map member
  build_environment_map_lem tool key s =
      let base = base_lem sys.environ key tool.inherit_environment in
      let whole = assign_entries_lem key tool.env _ s base.0 in
      (whole.0, whole.1 ∙ ap (or_else (member key tool.env)) base.1)
