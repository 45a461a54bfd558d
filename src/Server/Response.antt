-- ===== src/Server/Response.antt =====
-- What cagent/src/cagent_api/server.py writes back. `encode` is UTF-8, and the JSON text of an answer or of an error
-- is what json.dumps gives; the three static files are read for each request.
use pj_clusterintent.Prelude.{ℕ, String, Option, none, some, List, length}
use pj_clusterintent.Prelude.Result.{Result, ok, err}
use pj_clusterintent.Server.{ApiError, Answer}

pub record Response : Type 0 where
  pub status : ℕ
  pub content_type : String
  pub content_length : ℕ
  pub body : List ℕ

-- `none` is a file that cannot be read.
pub record StaticFiles : Type 0 where
  pub chat_html : Option (List ℕ)
  pub llms_txt : Option (List ℕ)
  pub guide : Option (List ℕ)

abbrev pub response : ℕ → String → List ℕ → Response
response status content_type body = record {
  status = status;
  content_type = content_type;
  content_length = length body;
  body = body;
}

-- The guard around a handler: any other exception is an internal error.
abbrev pub internal_error : ApiError
internal_error = record { status = 500; code = "internal_error"; request_id = none }

module _ (encode : String → List ℕ) (dump_answer : Answer → String)
    (dump_error : ApiError → String) where
  abbrev pub write_json : ℕ → String → Response
  write_json status payload = response status "application/json" (encode payload)

  abbrev pub write_error : ApiError → Response
  write_error e = write_json e.status (dump_error e)

  abbrev pub serve_static : String → Option (List ℕ) → Response
  serve_static content_type none = write_error internal_error
  serve_static content_type (some body) = response 200 content_type body

  unfoldable pub respond : StaticFiles → Result ApiError Answer → Response
  respond files (err e) = write_error e
  respond files (ok Answer.llms_txt) = serve_static "text/plain; charset=utf-8" files.llms_txt
  respond files (ok Answer.ui) = serve_static "text/html; charset=utf-8" files.chat_html
  respond files (ok Answer.guide) = serve_static "text/plain; charset=utf-8" files.guide
  respond files (ok (Answer.accepted r)) = write_json 202 (dump_answer (Answer.accepted r))
  respond files (ok answer) = write_json 200 (dump_answer answer)
