-- ===== src/Base/Errors.antt =====
-- Go's errors, and a call's result with its error.
use openwatch.Base.{Bool, true, false, ◌++◌}
use openwatch.Base.Text.{Text, codes}

-- What the program asks of an error that comes from outside.
pub data ErrorKind : Type 0 where
  not_found not_exist other : ErrorKind

-- `wrap p e` is `fmt.Errorf("p: %w", e)`; `no_healthcheck` is the sentinel of rollback.go.
pub data Error : Type 0 where
  message : Text → Error
  wrap : Text → Error → Error
  external : ErrorKind → Text → Error
  no_healthcheck : Error

pub data Result {ℓ} (A : Type ℓ) : Type ℓ where
  ok : A → Result A
  err : Error → Result A

-- `err.Error()`
unfoldable pub error_text : Error → Text
error_text (message m) = m
error_text (wrap p e) = p ++ codes ": " ++ error_text e
error_text (external k m) = m
error_text no_healthcheck = codes "container has no healthcheck configured"

-- `errors.Is(err, errNoHealthcheck)`
unfoldable pub is_no_healthcheck : Error → Bool
is_no_healthcheck (message m) = false
is_no_healthcheck (wrap p e) = is_no_healthcheck e
is_no_healthcheck (external k m) = false
is_no_healthcheck no_healthcheck = true

-- `errdefs.IsNotFound(err)`
unfoldable pub is_not_found : Error → Bool
is_not_found (external not_found m) = true
is_not_found (wrap p e) = is_not_found e
is_not_found _ = false

-- `os.IsNotExist(err)`, which does not look through wrapped errors.
unfoldable pub is_not_exist : Error → Bool
is_not_exist (external not_exist m) = true
is_not_exist _ = false
