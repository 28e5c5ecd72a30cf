-- ===== src/Handle/Once.antt =====
-- The handles of src/server/api_types.cpp give their result once.
use zoo_keeper_server.Prelude.{ℕ, ◌≡◌, refl, Bytes, Bool, text, ◌++◌}
use zoo_keeper_server.Api.{Expected, err}
use zoo_keeper_server.Handle.{UnknownError, ready, make_handle, wait_for, get}

-- The first `get` on a new handle is the result of the future, whether or not it was there yet;
-- each later `get` is the error that says so and leaves the handle as it is, and `wait_for` does
-- not wait any more.
pub get_twice :
    {R : Type 0} (id : ℕ) (future : Expected UnknownError R) (is_done : Bool) (kind : Bytes)
    → let (h, first) = get kind (make_handle id future is_done) in
      (first ≡ future)
      × (get kind h ≡ (h, err (record { message = kind ++ text " result was already consumed" })))
      × (wait_for h ≡ ready)
unfolding make_handle get wait_for
get_twice id future is_done kind = (refl, refl, refl)
