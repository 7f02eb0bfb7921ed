-- ===== src/Error.antt =====
-- crates/ssh-transport/src/error.rs: the engine's error type and its `Result`, as a monad.
use Prim.Native.String.{String}

pub data SshError : Type 0 where
  bad_version bad_packet encoding no_common_algorithm kex key compression : String → SshError
  integrity : SshError
  protocol : String → SshError
  auth_failed : SshError

pub data Result {ℓ} (T : Type ℓ) : Type ℓ where
  err : SshError → Result T
  ok : T → Result T

-- `?`: the rest runs on the value, and an error is the answer.
infixl 6 ◌>>=◌
unfoldable pub ◌>>=◌ {ℓ κ} :
    {T : Type ℓ} {U : Type κ} (first : Result T) (rest : T → Result U) → Result U
err reason >>= rest = err reason
ok value >>= rest = rest value
