-- ===== src/Endpoint/Error.antt =====
-- sarena-data-plane/src/error.rs: the errors that the modelled code returns, and `Res`.
use Prim.Native.String.{◌++◌}
use sarena.Prelude.{String, List, length}
use sarena.Net.Text.{decimal}

pub data DataPlaneError : Type 0 where
  io : String → DataPlaneError
  general_error : String → DataPlaneError
  actor_gone : DataPlaneError
  actor_cancelled : DataPlaneError
  -- The hooks that failed, with the texts of their errors.
  partial : List (String × String) → DataPlaneError
  injected : String → DataPlaneError

pub data Res {ℓ} (A : Type ℓ) : Type ℓ where
  ok : A → Res A
  err : DataPlaneError → Res A

-- The texts of error.rs.
abbrev pub message : DataPlaneError → String
message (general_error text) = "general error: " ++ text
message (io text) = "json error: " ++ text
message actor_gone = "actor is no longer running"
message actor_cancelled = "actor dropped the request before it completed"
message (partial failures) = decimal (length failures) ++ " required hook(s) failed to attach"
message (injected text) = "injected failure: " ++ text
