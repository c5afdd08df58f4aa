-- ===== src/Api/Responses.antt =====
-- backend/app/api/middleware.py: how an exception is answered.
use nordmarkt.Common.{ℕ, String, Option, none, some, List, ◌∷◌}
use nordmarkt.Common.Texts.{truthy, ◌+s◌}
use nordmarkt.Core.Errors.{Exception, DomainError, domain, code, status_code}

-- The body of an error: the texts that go with a code are left out.
pub record ErrorOut : Type 0 where
  pub status : ℕ
  pub error_code : String
  pub request_id : String

-- `domain_error_handler`
unfoldable pub domain_error_handler : String → DomainError → ErrorOut
unfolding code status_code
domain_error_handler request_id e = record {
  status = status_code e;
  error_code = code e;
  request_id = request_id;
}

-- `unhandled_error_handler`
unfoldable pub unhandled_error_handler : String → ErrorOut
unhandled_error_handler request_id = record {
  status = 500;
  error_code = "internal_error";
  request_id = request_id;
}

-- The handler of an exception, by its class.
unfoldable pub answer_error : String → Exception → ErrorOut
unfolding domain_error_handler unhandled_error_handler
answer_error request_id (domain e) = domain_error_handler request_id e
answer_error request_id _ = unhandled_error_handler request_id

-- The response of a handler, with its headers, the last set first.
pub record Response : Type 0 where
  pub status_code : ℕ
  pub headers : List (String × String)

abbrev pub set_header : String → String → Response → Response
set_header name value r = record r { headers = (name, value) ∷ r.headers }

-- `request.headers.get("X-Request-Id") or str(uuid.uuid4())`
abbrev pub request_id_of : Option String → String → String
request_id_of header fresh = elim (truthy header) [ none ↦ fresh | some id ↦ id ]

-- `RequestContextMiddleware.dispatch`; the handlers read the id from the context.
unfoldable pub dispatch : Option String → String → String → (String → Response) → Response
dispatch header fresh timing call_next =
    let id = request_id_of header fresh in
    set_header "Server-Timing" ("app;dur=" +s timing) (set_header "X-Request-Id" id (call_next id))
