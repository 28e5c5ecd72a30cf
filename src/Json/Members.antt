-- ===== src/Json/Members.antt =====
-- Which objects `reject_unknown_keys` lets through.
use zoo_keeper_server.Prelude.{
  ◌≡◌, ◌↔◌, refl, Bytes, true, List, [], ◌∷◌, ◌==ᵇ◌, ==ᵇ_refl, ==ᵇ_iff, inl, inr, Bool-cases,
  has_value, All,
}
use zoo_keeper_server.Api.{ok}
use zoo_keeper_server.Json.{
  JsonApi, member, members, is_allowed, reject_members, reject_unknown_keys,
}

module _ {J : Type 0} where
  -- Every name in the members is allowed.
  abbrev pub AllAllowed : List Bytes → List (Bytes × J) → Type 0
  AllAllowed allowed m = All (λ e. is_allowed e.0 allowed ≡ true) m

  pub reject_members_iff :
      (allowed : List Bytes) (context : Bytes) (m : List (Bytes × J))
      → (reject_members allowed context m ≡ ok tt) ↔ AllAllowed allowed m
  unfolding reject_members
  reject_members_iff allowed context [] = (λ h. tt, λ h. refl)
  reject_members_iff allowed context ((k, v) ∷ m) = elim (Bool-cases (is_allowed k allowed)) [
    | inl e ↦
        let rest = reject_members_iff allowed context m in
        rw e (λ h. (refl, rest.0 h), λ h. rest.1 h.1)
    | inr e ↦ rw e (λ h. cc, λ h. cc)
  ]

  -- A name that can be looked up and is not allowed would be in the members.
  pub AllAllowed-of_member :
      (allowed : List Bytes) (m : List (Bytes × J))
      → ((k : Bytes) → has_value (member k m) ≡ true → is_allowed k allowed ≡ true)
      → AllAllowed allowed m
  unfolding member
  AllAllowed-of_member allowed [] h = tt
  AllAllowed-of_member allowed ((k, v) ∷ m) h = (
    h k (rw (==ᵇ_refl k) refl),
    AllAllowed-of_member allowed m (λ j there. elim (Bool-cases (k ==ᵇ j)) [
      | inl e ↦ h j (rw e refl)
      | inr e ↦ h j (rw e there)
    ]),
  )

  pub is_allowed_of_member :
      (allowed : List Bytes) (m : List (Bytes × J)) (k : Bytes)
      → AllAllowed allowed m
      → has_value (member k m) ≡ true
      → is_allowed k allowed ≡ true
  unfolding member
  is_allowed_of_member allowed [] k h there = cc
  is_allowed_of_member allowed ((j, v) ∷ m) k h there = elim (Bool-cases (j ==ᵇ k)) [
    | inl e ↦ rw (← (==ᵇ_iff j k).0 e) h.0
    | inr e ↦ is_allowed_of_member allowed m k h.1 (rw e at there)
  ]

module _ {J R I : Type 0} (json : JsonApi J R I) where
  -- A body with allowed names alone gets through.
  pub reject_unknown_keys-from_object :
      (m : List (Bytes × J)) (context : Bytes) (allowed : List Bytes)
      → AllAllowed allowed m
      → reject_unknown_keys (json.view (json.from_object m)) context allowed ≡ ok tt
  unfolding reject_unknown_keys
  reject_unknown_keys-from_object m context allowed h = rw (json.view-from_object m) (
      (reject_members_iff allowed context (json.order m)).1 (
        AllAllowed-of_member allowed (json.order m)
          (λ k there. is_allowed_of_member allowed m k h (rw (json.member-order k m) at there))))

  pub member-from_object :
      (k : Bytes) (m : List (Bytes × J))
      → member k (members (json.view (json.from_object m))) ≡ member k m
  member-from_object k m = rw (json.view-from_object m) (json.member-order k m)
