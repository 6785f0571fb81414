-- ===== src/Runtime.antt =====
-- What src/*.ts calls of JavaScript and of SQLite on texts that it does not make itself: a parameter
-- of the models, of which nothing is assumed. A moment is `nowIso` with the number of milliseconds
-- that Date.parse reads from it.
use fareradar.Prelude.{ℕ, Bool, String, Option}

pub record Runtime : Type 0 where
  -- Date.parse, `none` for NaN.
  pub parse : String → Option ℕ
  -- datetime(…) of SQLite, in seconds; `none` for NULL.
  pub sql_time : String → Option ℕ
  -- a.localeCompare(b) <= 0.
  pub locale_le : String → String → Bool
  -- a <= b of texts in SQLite.
  pub text_le : String → String → Bool
  -- x.toUpperCase().
  pub upper : String → String
  -- x.replace(/[^A-Z0-9]/g,"").
  pub alphanumeric : String → String
  -- x.replace(/[^A-Za-z0-9._:-]/g,"_").
  pub safe : String → String
  -- x.trim().
  pub trim : String → String
  -- nowIso.slice(0,7).
  pub month : String → String

pub record Moment : Type 0 where
  pub iso : String
  pub ms : ℕ
