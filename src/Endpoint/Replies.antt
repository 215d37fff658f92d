-- ===== src/Endpoint/Replies.antt =====
-- What a request is answered with.
use mathlib.Core.List.{append_assoc}
use fabric_ca_gm.Prelude.{
  ℕ, String, ◌≡◌, refl, inl, inr, Bool, true, false, Option, none, some, List, [], ◌∷◌, ◌++◌, eqb,
  ◌==◌, Bool-cases, Option-cases, if◌then◌else◌,
}
use fabric_ca_gm.Result.{Err, get_http_err, HttpErr}
use fabric_ca_gm.Endpoint.{
  ResponseWriter, get_success_rc, write_header, write, status_of, write_all, finish, Handler,
  answered, validate_method, serve_http,
}

module _ (error_json : HttpErr → String) (success_rc : ℕ) where
  -- The status: what the handler has sent, or that of the error, or that of a success. For an error with the
  -- status 200 it would be that of a success.
  abbrev pub final_status : Option ℕ → Option Err → ℕ
  final_status (some sent) e = sent
  final_status none none = get_success_rc success_rc
  final_status none (some e) =
      if eqb (get_http_err e).scode 200 then get_success_rc success_rc else (get_http_err e).scode

  -- The first part of the body: begun once, with an empty text where nothing is answered
  abbrev pub opening : Bool → Option String → List String
  opening true none = []
  opening true (some json) = json ∷ []
  opening false none = "{\"result\":" ∷ "\"\"" ∷ []
  opening false (some json) = "{\"result\":" ∷ json ∷ []

  abbrev pub closing : Option Err → List String
  closing none = ",\"errors\":[" ∷ "],\"messages\":[],\"success\":" ∷ "true}" ∷ []
  closing (some e) =
      ",\"errors\":["
      ∷ error_json (get_http_err e)
      ∷ "],\"messages\":[],\"success\":"
      ∷ "false}"
      ∷ []

  pub record Replied (is_head : Bool) (resp : Option String) (e : Option Err)
      (w w' : ResponseWriter) : Type 0 where
    pub status : w'.status ≡ some (final_status w.status e)
    pub body :
        w'.body ≡ (if is_head then w.body else w.body ++ (opening w.write_called resp ++ closing e))

  write_all-body :
      (methods : List String) (resp : Option String) (e : Option Err) (sent : ℕ)
      (write_called : Bool) (body : List String)
      → (write_all error_json methods success_rc false resp e
          (record { status = some sent; write_called = write_called; body = body })).body
        ≡ body ++ (opening write_called resp ++ closing e)
  unfolding write_header write
  write_all-body methods none none sent true body = simp append_assoc
  write_all-body methods none none sent false body = simp append_assoc
  write_all-body methods none (some e) sent true body = simp append_assoc
  write_all-body methods none (some e) sent false body = simp append_assoc
  write_all-body methods (some r) none sent true body = simp append_assoc
  write_all-body methods (some r) none sent false body = simp append_assoc
  write_all-body methods (some r) (some e) sent true body = simp append_assoc
  write_all-body methods (some r) (some e) sent false body = simp append_assoc

  write_all-status :
      (methods : List String) (resp : Option String) (e : Option Err) (sent : ℕ)
      (write_called : Bool) (body : List String)
      → (write_all error_json methods success_rc false resp e
          (record { status = some sent; write_called = write_called; body = body })).status
        ≡ some sent
  unfolding write_header write
  write_all-status methods none none sent true body = refl
  write_all-status methods none none sent false body = refl
  write_all-status methods none (some e) sent true body = refl
  write_all-status methods none (some e) sent false body = refl
  write_all-status methods (some r) none sent true body = refl
  write_all-status methods (some r) none sent false body = refl
  write_all-status methods (some r) (some e) sent true body = refl
  write_all-status methods (some r) (some e) sent false body = refl

  -- A HEAD request writes nothing.
  write_all-head :
      (methods : List String) (resp : Option String) (e : Option Err) (status : Option ℕ)
      (write_called : Bool) (body : List String)
      → write_all error_json methods success_rc true resp e
          (record { status = status; write_called = write_called; body = body })
        ≡ record { status = status; write_called = write_called; body = body }
  unfolding write
  write_all-head methods none none status true body = refl
  write_all-head methods none none status false body = refl
  write_all-head methods none (some e) status true body = refl
  write_all-head methods none (some e) status false body = refl
  write_all-head methods (some r) none status true body = refl
  write_all-head methods (some r) none status false body = refl
  write_all-head methods (some r) (some e) status true body = refl
  write_all-head methods (some r) (some e) status false body = refl

  settled :
      (methods : List String) (e : Option Err)
      → (if eqb (status_of error_json methods success_rc e) 200
          then get_success_rc success_rc
          else status_of error_json methods success_rc e)
        ≡ final_status none e
  settled methods none = elim (Bool-cases (eqb (get_success_rc success_rc) 200)) [
    | inl same ↦ rw same refl
    | inr other ↦ rw other refl
  ]
  settled methods (some e) = refl

  headed :
      (methods : List String) (is_head : Bool) (e : Option Err) (w : ResponseWriter)
      → write_header success_rc is_head (status_of error_json methods success_rc e) w ≡ record {
        status = some (final_status w.status e);
        write_called = w.write_called;
        body = w.body;
      }
  unfolding write_header
  headed methods is_head e w = elim (Option-cases w.status) [
    | inl none' ↦
        rw (none', write_header)
          (λ i. record {
            status = some (settled methods e i);
            write_called = w.write_called;
            body = w.body;
          })
    | inr (sent, some') ↦
        rw (some', write_header)
          (λ i. record { status = some' i; write_called = w.write_called; body = w.body })
  ]

  finish-Replied :
      (methods : List String) (is_head : Bool) (resp : Option String) (e : Option Err)
      (w : ResponseWriter)
      → Replied is_head resp e w (finish error_json methods success_rc is_head resp e w)
  finish-Replied methods true resp e w =
      rw (headed methods true e w, write_all-head) (record { status = refl; body = refl })
  finish-Replied methods false resp e w = rw (headed methods false e w) (record {
    status = write_all-status methods resp e _ w.write_called w.body;
    body = write_all-body methods resp e _ w.write_called w.body;
  })

  -- A request is answered with one status, the first that was sent, else that of the error or of a success, and
  -- with one body: begun once, with the response or an empty text, then the error where there is one, and whether
  -- it was a success; what a handler has written itself stands in front. A HEAD request writes no body.
  pub serve_http-Replied :
      (methods : List String) (handler : Handler error_json methods success_rc) (method : String)
      → Replied
          (method == "HEAD")
          (answered error_json methods success_rc
            (validate_method error_json methods success_rc method)
            handler).0.0
          (answered error_json methods success_rc
            (validate_method error_json methods success_rc method)
            handler).0.1
          (answered error_json methods success_rc
            (validate_method error_json methods success_rc method)
            handler).1
          (serve_http error_json methods success_rc handler method)
  unfolding serve_http
  serve_http-Replied methods handler method =
      let r =
        answered error_json methods success_rc
          (validate_method error_json methods success_rc method) handler in
      finish-Replied methods (method == "HEAD") r.0.0 r.0.1 r.1
