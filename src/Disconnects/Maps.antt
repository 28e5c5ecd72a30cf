-- ===== src/Disconnects/Maps.antt =====
-- Lemmas on the maps by number.
use zoo_keeper_server.Prelude.{
  ℕ, ◌≡◌, inl, inr, none, some, List, [], ◌∷◌, All, if◌then◌else◌, ◌==◌, arith, Bool-cases,
}
use zoo_keeper_server.Disconnects.{find, erase, put}

module _ {A : Type 0} where
  pub find-erase :
      (k j : ℕ) (m : List (ℕ × A)) → find j (erase k m) ≡ (if k == j then none else find j m)
  unfolding find erase
  find-erase k j [] = ground arith
  find-erase k j ((i, a) ∷ m) = ground (arith, find-erase k j m)

  pub find-put :
      (k j : ℕ) (a : A) (m : List (ℕ × A))
      → find j (put k a m) ≡ (if k == j then some a else find j m)
  unfolding find
  find-put k j a m = ground (arith, find-erase k j m)

  -- The keys of a map, each once and below a bound.
  abbrev pub Fresh : ℕ → List (ℕ × A) → Type 0
  Fresh k m = find k m ≡ none

  abbrev pub Once : List (ℕ × A) → Type 0
  Once [] = Unit
  Once ((k, a) ∷ m) = Fresh k m × Once m

  pub erase-Once : (k : ℕ) (m : List (ℕ × A)) → Once m → Once (erase k m)
  unfolding erase
  erase-Once k [] h = tt
  erase-Once k ((j, a) ∷ m) h = elim (Bool-cases (j == k)) [
    | inl e ↦ rw e (erase-Once k m h.1)
    | inr e ↦ rw e (ground (arith, find-erase k j m, h.0), erase-Once k m h.1)
  ]

  pub put-Once : (k : ℕ) (a : A) (m : List (ℕ × A)) → Once m → Once (put k a m)
  put-Once k a m h = (ground (arith, find-erase k k m), erase-Once k m h)

  pub All-erase : (P : ℕ × A → Type 0) (k : ℕ) (m : List (ℕ × A)) → All P m → All P (erase k m)
  unfolding erase
  All-erase P k [] h = tt
  All-erase P k ((j, a) ∷ m) h = elim (Bool-cases (j == k)) [
    | inl e ↦ rw e (All-erase P k m h.1)
    | inr e ↦ rw e (h.0, All-erase P k m h.1)
  ]

  pub All-find :
      (P : A → Type 0) (k : ℕ) (m : List (ℕ × A)) (a : A)
      → find k m ≡ some a
      → All (λ e. P e.1) m
      → P a
  unfolding find
  All-find P k [] a e h = cc
  All-find P k ((j, b) ∷ m) a e h = elim (Bool-cases (j == k)) [
    | inl p ↦ let q : b ≡ a = ground arith in rw (← q) (h.0)
    | inr p ↦ All-find P k m a (ground arith) h.1
  ]
