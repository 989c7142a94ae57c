-- ===== src/Backend/AppError.antt =====
-- `AppError` of apps/backend/src/middleware/errorHandler.ts: the HTTP status and the code that the
-- client receives. The message for the reader is left out.
use stellar_true_stub.Common.{ℕ, String, Bool, str_eq}

pub record AppError : Type 0 where
  pub status_code : ℕ
  pub code : String

-- `!text`, for a text that is there.
abbrev pub is_blank : String → Bool
is_blank s = str_eq s ""
