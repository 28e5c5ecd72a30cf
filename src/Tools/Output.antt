-- ===== src/Tools/Output.antt =====
-- What a tool that runs gives back.
use mathlib.Core.List.{append_assoc, append-nil}
use zoo_keeper_server.Prelude.{
  ℕ, ◌≡◌, ◌≤◌, ◌-◌, ◌+◌, refl, zero, suc, sym, subst, ◌⊎◌, inl, inr, text, Bytes, Bool, true, false,
  List, [], ◌∷◌, ◌++◌, if◌then◌else◌, ltb, min, length, take, length-append, arith, Bool-cases,
}
use zoo_keeper_server.Api.{ok, err}
use zoo_keeper_server.Tools.Capture.{CapturedStream, Reads, capture, read_available}

-- All that the calls of `read` delivered.
unfoldable pub received : Reads → Bytes
received (Reads.chunk bytes reads) = bytes ++ received reads
received (Reads.interrupted reads) = received reads
received Reads.end_of_file = []
received Reads.would_block = []
received (Reads.failed what) = []

-- The stream holds the first `max_bytes` of what was seen, and says if there was more.
pub record Holds (max_bytes : ℕ) (seen : Bytes) (c : CapturedStream) : Type 0 where
  pub kept : c.data_ ≡ take max_bytes seen
  pub cut : c.truncated ≡ ltb max_bytes (length seen)

module _ {A : Type 0} where
  length-take : (n : ℕ) (xs : List A) → length (take n xs) ≡ min n (length xs)
  length-take zero xs = omega arith
  length-take (suc n) [] = omega arith
  length-take (suc n) (x ∷ xs) = omega (arith, length-take n xs)

  take_zero : (n : ℕ) (xs : List A) → n ≡ 0 → take n xs ≡ []
  take_zero zero xs h = refl
  take_zero (suc n) xs h = let bad : ⊥ = omega arith in absurd bad

  pub take_all : (n : ℕ) (xs : List A) → length xs ≤ n → take n xs ≡ xs
  take_all zero [] h = refl
  take_all zero (x ∷ xs) h = let bad : ⊥ = omega arith in absurd bad
  take_all (suc n) [] h = refl
  take_all (suc n) (x ∷ xs) h = rw (take_all n xs (omega arith))

  take-append : (n : ℕ) (xs ys : List A) → take n (xs ++ ys) ≡ take n xs ++ take (n - length xs) ys
  take-append zero [] ys = refl
  take-append zero (x ∷ xs) ys = sym (take_zero (0 - suc (length xs)) ys (omega arith))
  take-append (suc n) [] ys = let same : suc n - 0 ≡ suc n = omega arith in rw same refl
  take-append (suc n) (x ∷ xs) ys =
      let same : suc n - suc (length xs) ≡ n - length xs = omega arith in
      rw same (rw (take-append n xs ys) refl)

  take-min : (n : ℕ) (xs : List A) → take (min n (length xs)) xs ≡ take n xs
  take-min zero xs = take_zero (min 0 (length xs)) xs (omega arith)
  take-min (suc n) [] = take_zero (min (suc n) 0) [] (omega arith)
  take-min (suc n) (x ∷ xs) =
      let same : min (suc n) (suc (length xs)) ≡ suc (min n (length xs)) = omega arith in
      rw same (rw (take-min n xs) refl)

stored :
    (max_bytes : ℕ) (seen bytes : Bytes)
    → (if ltb (length (take max_bytes seen)) max_bytes
        then take max_bytes seen
          ++ take (min (max_bytes - length (take max_bytes seen)) (length bytes)) bytes
        else take max_bytes seen)
      ≡ take max_bytes (seen ++ bytes)
stored max_bytes seen bytes =
    let size = length-take max_bytes seen in
    elim (Bool-cases (ltb (length seen) max_bytes)) [
      | inl e ↦
          let short : ltb (min max_bytes (length seen)) max_bytes ≡ true = ground arith in
          let whole = take_all max_bytes seen (ground arith) in
          let room : min (max_bytes - min max_bytes (length seen)) (length bytes)
              ≡ min (max_bytes - length seen) (length bytes) =
            ground arith in
          rw size (
            rw short (
              rw room (
                rw (take-min (max_bytes - length seen) bytes, take-append max_bytes seen bytes)
                  refl)))
      | inr e ↦
          let full : ltb (min max_bytes (length seen)) max_bytes ≡ false = ground arith in
          let none_left : max_bytes - length seen ≡ 0 = ground arith in
          rw size (
            rw full (
              rw
                (
                  take-append max_bytes seen bytes,
                  take_zero _ bytes none_left,
                  append-nil (take max_bytes seen),
                )
                refl))
    ]

cut_lem :
    (max_bytes seen bytes : ℕ)
    → (if ltb max_bytes (min max_bytes seen + bytes) then true else ltb max_bytes seen)
      ≡ ltb max_bytes (seen + bytes)
cut_lem max_bytes seen bytes = ground arith

capture-Holds :
    (max_bytes : ℕ) (seen bytes : Bytes) (c : CapturedStream)
    → Holds max_bytes seen c
    → Holds max_bytes (seen ++ bytes) (capture max_bytes bytes c)
unfolding capture
capture-Holds max_bytes seen bytes c h = record {
  kept = rw h.kept (stored max_bytes seen bytes);
  cut = rw h.kept (
      rw (length-take max_bytes seen, length-append seen bytes, h.cut)
        (cut_lem max_bytes (length seen) (length bytes)));
}

Holds-bounded :
    (max_bytes : ℕ) (seen : Bytes) (c : CapturedStream)
    → Holds max_bytes seen c
    → length c.data_ ≤ max_bytes
Holds-bounded max_bytes seen c h = rw h.kept (omega (arith, length-take max_bytes seen))

-- Of a stream that holds what was seen so far, up to the limit, and says if there was more: the
-- calls that drain the pipe either end with a read error, or leave a stream that holds, in the
-- same way, what was seen and all that was received. It is never longer than the limit.
pub read_available-Holds :
    (reads : Reads) (max_bytes : ℕ) (seen : Bytes) (c : CapturedStream)
    → Holds max_bytes seen c
    → ((still_open : Bool) × (c' : CapturedStream) × (read_available reads c max_bytes
          ≡ ok (still_open, c'))
        × Holds max_bytes (seen ++ received reads) c'
        × (length c'.data_ ≤ max_bytes))
      ⊎ ((what : Bytes) × (read_available reads c max_bytes ≡ err (text "read failed: " ++ what)))
unfolding read_available received
read_available-Holds (Reads.chunk bytes reads) max_bytes seen c h =
    subst
      (λ (l : Bytes).
        ((still_open : Bool) × (c' : CapturedStream) × (read_available reads
              (capture max_bytes bytes c) max_bytes
            ≡ ok (still_open, c'))
          × Holds max_bytes l c'
          × (length c'.data_ ≤ max_bytes))
        ⊎ ((what : Bytes) × (read_available reads (capture max_bytes bytes c) max_bytes
              ≡ err (text "read failed: " ++ what))))
      (append_assoc seen bytes (received reads))
      (read_available-Holds reads max_bytes (seen ++ bytes) (capture max_bytes bytes c)
        (capture-Holds max_bytes seen bytes c h))
read_available-Holds (Reads.interrupted reads) max_bytes seen c h =
    read_available-Holds reads max_bytes seen c h
read_available-Holds Reads.end_of_file max_bytes seen c h =
    inl (false, c, refl, rw (append-nil seen) h, Holds-bounded max_bytes seen c h)
read_available-Holds Reads.would_block max_bytes seen c h =
    inl (true, c, refl, rw (append-nil seen) h, Holds-bounded max_bytes seen c h)
read_available-Holds (Reads.failed what) max_bytes seen c h = inr (what, refl)
