-- ===== src/Endpoint/Tests.antt =====
-- A request that is answered, and one with a method that is not allowed.
use fabric_ca_gm.Prelude.{String, ◌≡◌, refl, true, none, some, [], ◌∷◌, ◌==◌}
use fabric_ca_gm.Result.{HttpErr}
use fabric_ca_gm.Endpoint.{Handler, answered, validate_method, write_header, write, serve_http}
use fabric_ca_gm.Endpoint.Replies.{Replied, serve_http-Replied}

abbrev as_json : HttpErr → String
as_json he = "{}"

abbrev answering : Handler as_json ("POST" ∷ []) 201
answering w = ((some "1", none), w)

serve_http-Replied_example :
    Replied as_json 201
      ("POST" == "HEAD")
      (answered as_json
        ("POST" ∷ [])
        201
        (validate_method as_json ("POST" ∷ []) 201 "POST")
        answering).0.0
      (answered as_json
        ("POST" ∷ [])
        201
        (validate_method as_json ("POST" ∷ []) 201 "POST")
        answering).0.1
      (answered as_json
        ("POST" ∷ [])
        201
        (validate_method as_json ("POST" ∷ []) 201 "POST")
        answering).1
      (serve_http as_json ("POST" ∷ []) 201 answering "POST")
serve_http-Replied_example = serve_http-Replied as_json 201 ("POST" ∷ []) answering "POST"

created : serve_http as_json ("POST" ∷ []) 201 answering "POST" ≡ record {
  status = some 201;
  write_called = true;
  body = "{\"result\":" ∷ "1" ∷ ",\"errors\":[" ∷ "],\"messages\":[],\"success\":" ∷ "true}" ∷ [];
}
unfolding serve_http validate_method write_header write
created = refl

not_allowed : serve_http as_json ("POST" ∷ []) 201 answering "GET" ≡ record {
  status = some 405;
  write_called = true;
  body =
      "{\"result\":" ∷ "\"\"" ∷ ",\"errors\":[" ∷ "{}" ∷ "],\"messages\":[],\"success\":" ∷ "false}"
      ∷ [];
}
unfolding serve_http validate_method write_header write
not_allowed = refl
