-- ===== src/Api/Checks.antt =====
-- When a chain of checks succeeds.
use zoo_keeper_server.Prelude.{
  ℕ, ◌≡◌, ◌≢◌, ◌↔◌, ◌⊎◌, inl, inr, refl, ◌||◌, ◌&&◌, Bool, true, false, not, List, [], ◌∷◌, ◌==◌,
  is_empty, arith,
}
use zoo_keeper_server.Api.{Expected, ok, ◌>>◌, fail_if, on_success, fail_if-passes, fail_if-false}

module _ {E : Type 0} where
  pub step_iff :
      {P Q : Type 0} (m n : Expected E (Unit {0}))
      → (m ≡ ok tt) ↔ P
      → (n ≡ ok tt) ↔ Q
      → ((m >> n) ≡ ok tt) ↔ (P × Q)
  step_iff m n h k =
      (λ e. on_success m _ e (λ _ first rest. (h.0 first, k.0 rest)), λ p. rw (h.1 p.0) (k.1 p.1))

  pub test_iff : (b : Bool) (e : E) → (fail_if b e ≡ ok tt) ↔ (b ≡ false)
  test_iff b e = (fail_if-passes b e, fail_if-false b e)

  pub test_not_iff : (b : Bool) (e : E) → (fail_if (not b) e ≡ ok tt) ↔ (b ≡ true)
  test_not_iff true e = (λ h. refl, λ h. refl)
  test_not_iff false e = (λ h. cc, λ h. cc)

pub both : {P Q R : Type 0} → P ↔ Q → Q ↔ R → P ↔ R
both h k = (λ p. k.0 (h.0 p), λ r. h.1 (k.1 r))

pub nonzero_iff : (n : ℕ) → (n == 0 ≡ false) ↔ (n ≢ 0)
nonzero_iff n = ground arith

pub nonempty_iff : {A : Type 0} (s : List A) → (is_empty s ≡ false) ↔ (s ≢ [])
nonempty_iff [] = (λ h e. cc, λ h. absurd (h refl))
nonempty_iff (x ∷ s) = (λ h e. cc, λ h. refl)

pub or_iff :
    {P Q : Type 0} (a b : Bool) → (a ≡ true) ↔ P → (b ≡ true) ↔ Q → (a || b ≡ true) ↔ (P ⊎ Q)
or_iff true b h k = (λ e. inl (h.0 refl), λ p. refl)
or_iff false b h k =
    (λ e. inr (k.0 e), λ p. elim p [ inl x ↦ let e : false ≡ true = h.1 x in cc | inr y ↦ k.1 y ])

pub and_iff : {P : Type 0} (a b : Bool) → (a ≡ true) ↔ P → (a && b ≡ true) ↔ (P × (b ≡ true))
and_iff true b h = (λ e. (h.0 refl, e), λ p. p.1)
and_iff false b h = (λ e. cc, λ p. h.1 p.0)
