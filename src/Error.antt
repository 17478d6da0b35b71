-- ===== src/Error.antt =====
-- src/error.rs: the errors of the handlers, their HTTP status and the body of the response.
-- An error of a library is known by its kind; the text that it displays is the library's.
pub mod Response
use vps_monitor_webui.Prelude.{ℕ, String}

-- rusqlite::Error, as far as the statements of the program can meet it.
pub data SqlError : Type 0 where
  query_returned_no_rows : SqlError
  invalid_column_type : SqlError
  constraint_violation : SqlError
  statement_failed : SqlError

-- anyhow::Error
pub data Anyhow : Type 0 where
  sql : SqlError → Anyhow
  pool : Anyhow
  msg : String → Anyhow

pub data AppError : Type 0 where
  unauthorized : AppError
  forbidden : AppError
  rate_limited : AppError
  account_locked : ℕ → AppError
  bad_credentials : AppError
  not_found : AppError
  bad_request : String → AppError
  other : Anyhow → AppError

-- `?` on an error of the pool, From<r2d2::Error>. The pool's error has become an anyhow::Error already.
abbrev pub from_r2d2 : Anyhow → AppError
from_r2d2 e = other e

-- From<rusqlite::Error>
abbrev pub from_rusqlite : SqlError → AppError
from_rusqlite e = other (sql e)
