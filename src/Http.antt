-- ===== src/Http.antt =====
-- net/http as the providers and adapters use it: a request, its response, and a client that sends it.
use sibyl.Prelude.{ℕ, String, Bool, not, Option, Result, ◌||◌, leb, ltb}
use sibyl.Prelude.Maps.{GoMap}

pub record HttpRequest : Type 0 where
  pub method : String
  pub url : String
  pub headers : GoMap String
  pub body : String

-- The status, and the body with the error that ended the reading of it.
pub record HttpResponse (F : Type 0) : Type 0 where
  pub status_code : ℕ
  pub body : String
  pub read_error : Option F

-- `cannot_build` is the error of NewRequestWithContext for a method and a URL.
pub record HttpClient (F : Type 0) : Type 0 where
  pub cannot_build : String → String → Option F
  pub send : HttpRequest → Result F (HttpResponse F)

abbrev pub is_success : ℕ → Bool
is_success status = not (ltb status 200 || leb 300 status)
