-- ===== src/Endpoint.antt =====
-- lib/serverendpoint.go: how a request is answered. The response and the error in JSON are texts; a handler
-- may write pieces of its answer itself. Headers other than the status and failing writes are left out.
pub mod Replies
mod Tests
use fabric_ca_gm.Prelude.{
  ℕ, String, Bool, true, false, Option, none, some, List, [], ◌∷◌, ◌++◌, any, eqb, ◌==◌,
  if◌then◌else◌,
}
use fabric_ca_gm.Result.{Err, Result, ok, err, new_http_err, get_http_err, HttpErr}

-- httpResponseWriter: the status that was sent, whether the body was begun, and what was written
pub record ResponseWriter : Type 0 where
  pub status : Option ℕ
  pub write_called : Bool
  pub body : List String

abbrev pub new_writer : ResponseWriter
new_writer = record { status = none; write_called = false; body = [] }

abbrev pub err_method_not_allowed : ℕ
err_method_not_allowed = 1

-- getSuccessRC
abbrev pub get_success_rc : ℕ → ℕ
get_success_rc success_rc = if eqb success_rc 0 then 200 else success_rc

module _ (success_rc : ℕ) (is_head : Bool) where
  -- WriteHeader: the first status counts.
  unfoldable pub write_header : ℕ → ResponseWriter → ResponseWriter
  write_header scode w = elim w.status [
    | some sent ↦ w
    | none ↦ record w { status = some (if eqb scode 200 then get_success_rc success_rc else scode) }
  ]

  abbrev pub append : String → ResponseWriter → ResponseWriter
  append text w = record w { body = w.body ++ text ∷ [] }

  abbrev begin : ResponseWriter → ResponseWriter
  begin w = if w.write_called then w else append "{\"result\":" (record w { write_called = true })

  -- Write
  unfoldable pub write : String → ResponseWriter → ResponseWriter
  write text w = if is_head then w else append text (begin (write_header 200 w))

  -- The body behind the response: errors, messages and success
  abbrev pub write_response : Option String → ResponseWriter → ResponseWriter
  write_response none w = w
  write_response (some json) w = write json w

  abbrev pub write_if_empty : ResponseWriter → ResponseWriter
  write_if_empty w = if w.write_called then w else write "\"\"" w

module _ (error_json : HttpErr → String) (methods : List String) (success_rc : ℕ) where
  -- validateMethod
  unfoldable pub validate_method : String → Result (Unit {0})
  validate_method method =
      if any (λ m. m == method) methods
      then ok tt
      else err (new_http_err 405 err_method_not_allowed)

  -- What a handler gives: a response or an error, beside what it has written
  abbrev pub Handler : Type 0
  Handler = ResponseWriter → (Option String × Option Err) × ResponseWriter

  abbrev pub answered : Result (Unit {0}) → Handler → (Option String × Option Err) × ResponseWriter
  answered (err e) handler = ((none, some e), new_writer)
  answered (ok t) handler = handler new_writer

  -- The steps of ServeHTTP after the status
  abbrev pub write_all : Bool → Option String → Option Err → ResponseWriter → ResponseWriter
  write_all is_head resp none w =
      let put = write success_rc is_head in
      put "true}" (
        put "],\"messages\":[],\"success\":" (
          put ",\"errors\":["
            (write_if_empty success_rc is_head (write_response success_rc is_head resp w))))
  write_all is_head resp (some e) w =
      let put = write success_rc is_head in
      put "false}" (
        put "],\"messages\":[],\"success\":" (
          put (error_json (get_http_err e)) (
            put ",\"errors\":["
              (write_if_empty success_rc is_head (write_response success_rc is_head resp w)))))

  abbrev pub status_of : Option Err → ℕ
  status_of none = get_success_rc success_rc
  status_of (some e) = (get_http_err e).scode

  -- The steps of ServeHTTP after the handler
  abbrev pub finish : Bool → Option String → Option Err → ResponseWriter → ResponseWriter
  finish is_head resp e w =
      write_all is_head resp e (write_header success_rc is_head (status_of e) w)

  -- ServeHTTP
  unfoldable pub serve_http : Handler → String → ResponseWriter
  serve_http handler method =
      let r = answered (validate_method method) handler in finish (method == "HEAD") r.0.0 r.0.1 r.1
