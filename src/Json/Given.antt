-- ===== src/Json/Given.antt =====
-- When a member of an object can be read.
use zoo_keeper_server.Prelude.{
  ◌≡◌, ◌↔◌, ◌⊎◌, inl, inr, refl, subst, Bytes, Option, none, some, List, Option-cases,
}
use zoo_keeper_server.Api.{Expected, ok, ◌>>=◌, ◌>>◌, on_success}
use zoo_keeper_server.Json.{View, JsonApi, member, members, reject_unknown_keys, required, optional}
use zoo_keeper_server.Json.Members.{AllAllowed, reject_members_iff}

-- The value satisfies this, if it is there.
abbrev pub Fits : {A : Type 0} → (A → Type 0) → Option A → Type 0
Fits P none = Unit
Fits P (some a) = P a

any-Fits : {A : Type 0} (o : Option A) → Fits (λ _. Unit {0}) o
any-Fits none = tt
any-Fits (some a) = tt

module _ {J R I : Type 0} (json : JsonApi J R I) where
  -- An object with members of these names alone.
  pub record HasKeys (allowed : List Bytes) (j : J) : Type 0 where
    pub fields : List (Bytes × J)
    pub object : json.view j ≡ View.object fields
    pub allowed_keys : AllAllowed allowed fields

  -- The member is there, and reads as this.
  pub record Given {A : Type 0} (read : J → Option A) (key : Bytes) (j : J) (a : A) : Type 0 where
    pub value : J
    pub found : member key (members (json.view j)) ≡ some value
    pub reads : read value ≡ some a

  -- If the member is there, it reads as something of that kind.
  pub data IfGiven {A : Type 0} (read : J → Option A) (key : Bytes) (j : J) (P : A → Type 0)
      : Type 0 where
    absent : member key (members (json.view j)) ≡ none → IfGiven read key j P
    present : (a : A) → Given read key j a → P a → IfGiven read key j P

  pub HasKeys-of_ok :
      (allowed : List Bytes) (context : Bytes) (j : J) {u : Unit {0}}
      → reject_unknown_keys (json.view j) context allowed ≡ ok u
      → HasKeys allowed j
  unfolding reject_unknown_keys
  HasKeys-of_ok allowed context j h =
      elim (json.view j)
          as (λ w.
            json.view j ≡ w → reject_unknown_keys w context allowed ≡ ok tt → HasKeys allowed j) [
              | View.object m ↦ λ e g. record {
                fields = m;
                object = e;
                allowed_keys = (reject_members_iff allowed context m).0 g;
              }
              | _ ↦ λ e g. cc
            ]
        refl h

  pub ok-of_HasKeys :
      (allowed : List Bytes) (context : Bytes) (j : J)
      → HasKeys allowed j
      → reject_unknown_keys (json.view j) context allowed ≡ ok tt
  unfolding reject_unknown_keys
  ok-of_HasKeys allowed context j h =
      rw h.object ((reject_members_iff allowed context h.fields).1 h.allowed_keys)

  module _ {A E : Type 0} (read : J → Option A) (key : Bytes) (j : J) (e : E) where
    pub Given-of_ok : {a : A} → required json read key j e ≡ ok a → Given read key j a
    unfolding required
    Given-of_ok {a} h =
        elim (Option-cases (member key (members (json.view j)))) as (λ _. Given read key j a) [
          | inl n ↦ cc
          | inr (v, found) ↦ elim (Option-cases (read v)) as (λ _. Given read key j a) [
            | inl n ↦ cc
            | inr (a', reads) ↦ record { value = v; found = found; reads = cc }
          ]
        ]

    pub ok-of_Given : {a : A} → Given read key j a → required json read key j e ≡ ok a
    unfolding required
    ok-of_Given g = rw (g.found, required) (rw (g.reads, required) refl)

    pub required_iff :
        {P : A → Type 0} (f : A → Expected E (Unit {0}))
        → ((a : A) → (f a ≡ ok tt) ↔ P a)
        → ((required json read key j e >>= f) ≡ ok tt) ↔ ((a : A) × Given read key j a × P a)
    required_iff f h = (
      λ eq.
          on_success (required json read key j e) f eq
            (λ a there rest. (a, Given-of_ok there, (h a).0 rest)),
      λ p. rw (ok-of_Given p.1) ((h p.0).1 p.2),
    )

    optional_of :
        (o : Option A)
        → optional json read key j e ≡ ok o
        → ((o ≡ none) × (member key (members (json.view j)) ≡ none))
          ⊎ ((a : A) × (o ≡ some a) × Given read key j a)
    unfolding optional
    optional_of o h =
        elim (Option-cases (member key (members (json.view j))))
          as (λ _.
            ((o ≡ none) × (member key (members (json.view j)) ≡ none))
            ⊎ ((a : A) × (o ≡ some a) × Given read key j a)) [
              | inl n ↦ let empty : o ≡ none = cc in inl (empty, n)
              | inr (v, found) ↦
                  elim (Option-cases (read v))
                    as (λ _.
                      ((o ≡ none) × (member key (members (json.view j)) ≡ none))
                      ⊎ ((a : A) × (o ≡ some a) × Given read key j a)) [
                        | inl n ↦ cc
                        | inr (a, reads) ↦
                            let same : o ≡ some a = cc in
                            inr (a, same, record { value = v; found = found; reads = reads })
                      ]
            ]

    -- What the rest of the function says of the value is what the member must satisfy.
    pub optional_iff :
        {P : A → Type 0} {Q : Type 0} (f : Option A → Expected E (Unit {0}))
        → ((o : Option A) → (f o ≡ ok tt) ↔ (Fits P o × Q))
        → ((optional json read key j e >>= f) ≡ ok tt) ↔ (IfGiven read key j P × Q)
    unfolding optional
    optional_iff {P} {Q} f h = (
      λ eq. on_success (optional json read key j e) f eq (λ o there rest.
          elim (optional_of o there) as (λ _. IfGiven read key j P × Q) [
            | inl (o_none, n) ↦ (IfGiven.absent n, ((h o).0 rest).1)
            | inr (a, o_some, g) ↦
                let p = (h o).0 rest in (IfGiven.present a g (subst (Fits P) o_some p.0), p.1)
          ]),
      λ p. elim p.0 as (λ _. (optional json read key j e >>= f) ≡ ok tt) [
        | IfGiven.absent n ↦ rw (n, optional) ((h none).1 (tt, p.1))
        | IfGiven.present a g fits ↦
            rw (g.found, optional) (rw (g.reads, optional) ((h (some a)).1 (fits, p.1)))
      ],
    )

    -- The same where nothing follows.
    pub optional_last_iff :
        {P : A → Type 0} (f : Option A → Expected E (Unit {0}))
        → ((o : Option A) → (f o ≡ ok tt) ↔ Fits P o)
        → ((optional json read key j e >>= f) ≡ ok tt) ↔ IfGiven read key j P
    optional_last_iff f h =
        let whole =
          optional_iff {Q = Unit {0}} f (λ o. (λ eq. ((h o).0 eq, tt), λ p. (h o).1 p.0)) in
        (λ eq. (whole.0 eq).0, λ p. whole.1 (p, tt))

    -- The same where the value is only tested for its kind.
    pub optional_kind_iff :
        {Q : Type 0} (n : Expected E (Unit {0}))
        → (n ≡ ok tt) ↔ Q
        → ((optional json read key j e >> n) ≡ ok tt) ↔ (IfGiven read key j (λ _. Unit {0}) × Q)
    optional_kind_iff n h = optional_iff (λ _. n) (λ o. (λ eq. (any-Fits o, h.0 eq), λ p. h.1 p.1))
