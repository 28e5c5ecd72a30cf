-- ===== src/Api.antt =====
-- src/server/api_types.hpp and src/server/result.hpp: results, API errors, and the messages that
-- the server takes from the zoo-keeper library.
pub mod Checks
use zoo_keeper_server.Prelude.{
  ℕ, Bytes, ◌≡◌, ◌⊎◌, inl, inr, refl, Option, none, List, Bool, true, false, text,
}

-- `std::expected<A, E>`.
pub data Expected {ℓ κ} (E : Type κ) (A : Type ℓ) : Type (ℓ ⊔ κ) where
  ok : A → Expected E A
  err : E → Expected E A

abbrev pub is_ok {ℓ κ} : {E : Type κ} {A : Type ℓ} → Expected E A → Bool
is_ok (ok a) = true
is_ok (err e) = false

-- `if (!r) return std::unexpected(r.error());` and then the rest, which may use `*r`.
infixl 5 ◌>>=◌
abbrev pub ◌>>=◌ {ℓ κ ρ} :
    {E : Type κ} {A : Type ℓ} {B : Type ρ} → Expected E A → (A → Expected E B) → Expected E B
err problem >>= rest = err problem
ok value >>= rest = rest value

infixl 5 ◌>>◌
abbrev pub ◌>>◌ {ℓ κ ρ} :
    {E : Type κ} {A : Type ℓ} {B : Type ρ} → Expected E A → Expected E B → Expected E B
first >> second = first >>= λ _. second

pub Expected-cases :
    {E A : Type 0} (m : Expected E A) → ((e : E) × (m ≡ err e)) ⊎ ((a : A) × (m ≡ ok a))
Expected-cases (err e) = inl (e, refl)
Expected-cases (ok a) = inr (a, refl)

-- A function that succeeded was successful in its first step and in the rest.
pub on_success {ℓ κ ρ ι} :
    {E : Type κ} {A : Type ℓ} {B : Type ρ} {C : Type ι} (first : Expected E A)
    (rest : A → Expected E B) {result : B}
    → (first >>= rest) ≡ ok result
    → ((value : A) → first ≡ ok value → rest value ≡ ok result → C)
    → C
on_success (err problem) rest h k = cc
on_success (ok value) rest h k = k value refl h

-- `if (test) return std::unexpected(e);`
abbrev pub fail_if {κ} : {E : Type κ} → Bool → E → Expected E (Unit {0})
fail_if true e = err e
fail_if false e = ok tt

pub fail_if-passes {κ} :
    {E : Type κ} (b : Bool) (e : E) {u : Unit {0}} → fail_if b e ≡ ok u → b ≡ false
fail_if-passes true e h = cc
fail_if-passes false e h = refl

pub fail_if-false {κ} : {E : Type κ} (b : Bool) (e : E) → b ≡ false → fail_if b e ≡ ok tt
fail_if-false b e h = rw h refl

pub record ApiError : Type 0 where
  pub http_status : ℕ
  pub message : Bytes
  pub type : Bytes
  pub param : Option Bytes
  pub code : Option Bytes

abbrev pub ApiResult {ℓ} : Type ℓ → Type ℓ
ApiResult A = Expected ApiError A

unfoldable pub invalid_request_error : Bytes → Option Bytes → Option Bytes → ApiError
invalid_request_error message param code = record {
  http_status = 400;
  message = message;
  type = text "invalid_request_error";
  param = param;
  code = code;
}

unfoldable pub service_unavailable_error : Bytes → Option Bytes → ApiError
service_unavailable_error message code = record {
  http_status = 503;
  message = message;
  type = text "service_unavailable_error";
  param = none;
  code = code;
}

unfoldable pub server_error : Bytes → Option Bytes → ApiError
server_error message code = record {
  http_status = 500;
  message = message;
  type = text "server_error";
  param = none;
  code = code;
}

unfoldable pub not_found_error : Bytes → Option Bytes → ApiError
not_found_error message code = record {
  http_status = 404;
  message = message;
  type = text "not_found_error";
  param = none;
  code = code;
}

unfoldable pub conflict_error : Bytes → Option Bytes → ApiError
conflict_error message code = record {
  http_status = 409;
  message = message;
  type = text "conflict_error";
  param = none;
  code = code;
}

unfoldable pub auth_error : Bytes → Option Bytes → ApiError
auth_error message code = record {
  http_status = 401;
  message = message;
  type = text "auth_error";
  param = none;
  code = code;
}

-- `zoo::Role`: the enumerators that the server names.
pub data Role : Type 0 where
  system user assistant tool : Role

abbrev pub is_system : Role → Bool
is_system Role.system = true
is_system _ = false

abbrev pub is_user : Role → Bool
is_user Role.user = true
is_user _ = false

-- `zoo::Message` belongs to the zoo-keeper library, so it is a parameter: the members and the
-- factories that the server uses, and what it relies on of the factories.
pub record MessageApi (M : Type 0) : Type 0 where
  pub role : M → Role
  pub content : M → Bytes
  pub system : Bytes → M
  pub assistant : Bytes → M
  -- Assignment to the member `content`.
  pub with_content : M → Bytes → M
  pub role-system : (t : Bytes) → role (system t) ≡ Role.system
  pub content-system : (t : Bytes) → content (system t) ≡ t
  pub role-assistant : (t : Bytes) → role (assistant t) ≡ Role.assistant
  pub content-assistant : (t : Bytes) → content (assistant t) ≡ t
  pub role-with_content : (m : M) (t : Bytes) → role (with_content m t) ≡ role m
  pub content-with_content : (m : M) (t : Bytes) → content (with_content m t) ≡ t

-- The members of `ChatCompletionRequest` that the services read themselves; the sampling
-- overrides only pass through to the zoo-keeper library.
pub record ChatCompletionRequest (M : Type 0) : Type 0 where
  pub model : Bytes
  pub messages : List M
  pub stream : Bool
  pub session_id : Option Bytes

pub record SessionCreateRequest : Type 0 where
  pub model : Bytes
  pub system_prompt : Option Bytes

pub record SessionSummary : Type 0 where
  pub id : Bytes
  pub model : Bytes
  pub created : ℕ
  pub last_used : ℕ
  pub expires_at : ℕ

pub record SessionHealth : Type 0 where
  pub enabled : Bool
  pub active : ℕ
  pub max_sessions : ℕ
  pub idle_ttl_seconds : ℕ

-- What a completion hands to the session store; the usage and timing figures are left out.
pub record CompletionResult : Type 0 where
  pub text : Bytes
