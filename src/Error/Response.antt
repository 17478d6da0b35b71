-- ===== src/Error/Response.antt =====
-- src/error.rs: `AppError::status`, the texts of `#[error(...)]`, and `into_response`.
use Prim.Native.String.{◌++◌, slice}
use vps_monitor_webui.Prelude.{ℕ, zero, suc, ◌/◌, ◌%◌, String, ltb, if◌then◌else◌}
use vps_monitor_webui.Error.{
  Anyhow, AppError, unauthorized, forbidden, rate_limited, account_locked, bad_credentials,
  not_found, bad_request, other,
}

unfoldable pub status : AppError → ℕ
status unauthorized = 401
status bad_credentials = 401
status forbidden = 403
status (account_locked _) = 429
status rate_limited = 429
status not_found = 404
status (bad_request _) = 400
status (other _) = 500

-- `{}` of a u64, which has at most twenty digits: one round for each.
unfoldable pub show_digits : ℕ → ℕ → String
show_digits zero n = ""
show_digits (suc f) n =
    let more = show_digits f (n / 10) in
    let last = slice "0123456789" (n % 10) (suc (n % 10)) in if ltb n 10 then last else more ++ last

unfoldable pub show_u64 : ℕ → String
unfolding show_digits
show_u64 n = show_digits 20 n

-- `describe` is the text of an error that another library displays.
module _ (describe : Anyhow → String) where
  unfoldable pub to_string : AppError → String
  unfolding show_u64
  to_string unauthorized = "unauthorized"
  to_string forbidden = "forbidden"
  to_string rate_limited = "rate limited"
  to_string (account_locked n) = "locked: try again in " ++ show_u64 n ++ " seconds"
  to_string bad_credentials = "invalid credentials"
  to_string not_found = "not found"
  to_string (bad_request s) = "bad request: " ++ s
  to_string (other e) = describe e

  -- The response: its status and the field `error` of its JSON body. The log line is left out.
  pub record ErrorResponse : Type 0 where
    pub code : ℕ
    pub error : String

  unfoldable pub into_response : AppError → ErrorResponse
  unfolding status to_string
  into_response e = record { code = status e; error = to_string e }
