-- ===== src/Enroll/Issued.antt =====
-- The certificate that an enrollment issues.
use fabric_ca_gm.Prelude.{
  ℕ, ◌+◌, String, ◌≡◌, refl, sym, ap, subst, ◌∙◌, ◌⊎◌, inl, inr, false, Option, none, some, List,
  [], ◌∷◌, ◌++◌, any, arith, Bool-cases, All,
}
use fabric_ca_gm.Text.{trim_left}
use fabric_ca_gm.Result.{Err, Result, ok, err, plain, panicked, replaced}
use fabric_ca_gm.Result
use fabric_ca_gm.Exec.{◌>>=◌, ◌>>◌, lift, require, pure, gets}
use fabric_ca_gm.Exec.Rules.{bind-eq-ok, lift-eq-ok, pass-eq-ok}
use fabric_ca_gm.World.{UserRecord, CertRecord, Db, World, M, statement}
use fabric_ca_gm.World.Statements.{statement-cases}
use fabric_ca_gm.World.ReadOnly.{IsReadOnly, keeps_flow, read_db}
use fabric_ca_gm.World.Atomic.{read_rules}
use fabric_ca_gm.Registry.{get_user, get_attributes}
use fabric_ca_gm.Registry.Reads.{get_user-IsReadOnly}
use fabric_ca_gm.Revoke.{is_cert}
use fabric_ca_gm.Revoke.Handler.{HoldsTrue}
use fabric_ca_gm.Attr.{Attribute}
use fabric_ca_gm.Enroll.{
  EnrollmentRequest, AttributeRequest, Extension, CertificateRequest, settle_not_after,
  set_request_ous, get_default_attr_reqs,
}
use fabric_ca_gm.Enroll.Signing.{
  CertInfo, Template, Pki, EnrollCa, set_constraints, set_key_id, with_constraints, template_of,
  add_certificate, insert_certificate, make_certificate, sign_cert, is_request_block,
  process_sign_request, process_requests, get_attr_extension, with_extension, prepare,
  sign_prepared, handle_enroll,
}
use fabric_ca_gm.Enroll.Checked.{
  Short, Checked, option-eq-ok, process_sign_request-Checked, process_sign_request-IsReadOnly,
  is_request_for_ca_signing_cert-template_of,
}

-- A template with the subject, the key and the hosts of a request, for 1000 hours
pub record Follows (csr : CertificateRequest) (t : Template) : Type 0 where
  pub common_name : t.common_name ≡ csr.common_name
  pub names : t.names ≡ csr.names
  pub public_key : t.public_key ≡ csr.public_key
  pub dns_names : t.dns_names ≡ csr.dns_names
  pub ip_addresses : t.ip_addresses ≡ csr.ip_addresses
  pub email_addresses : t.email_addresses ≡ csr.email_addresses
  pub not_after : t.not_after ≡ t.not_before + 3600000

module _ (pki : Pki) (csr : CertificateRequest) where
  extension-Follows :
      (e : Extension) (t : Template)
      → Follows csr t
      → Follows csr (set_key_id pki e (set_constraints pki e t))
  extension-Follows e t f = record {
    common_name = ground (arith, f.common_name);
    names = ground (arith, f.names);
    public_key = ground (arith, f.public_key);
    dns_names = ground (arith, f.dns_names);
    ip_addresses = ground (arith, f.ip_addresses);
    email_addresses = ground (arith, f.email_addresses);
    not_after = ground (arith, f.not_after);
  }

  with_constraints-Follows :
      (es : List Extension) (t : Template) → Follows csr t → Follows csr (with_constraints pki es t)
  unfolding with_constraints
  with_constraints-Follows [] t f = f
  with_constraints-Follows (e ∷ es) t f = with_constraints-Follows es _ (extension-Follows e t f)

  template_of-Follows : (now serial : ℕ) → Follows csr (template_of pki csr now serial)
  unfolding template_of
  template_of-Follows now serial = with_constraints-Follows csr.extensions _ (record {
    common_name = refl;
    names = refl;
    public_key = refl;
    dns_names = refl;
    ip_addresses = refl;
    email_addresses = refl;
    not_after = refl;
  })

module _ (pki : Pki) where
  -- The row of a certificate
  abbrev pub row_of : String → CertInfo → CertRecord
  row_of id info = record {
    id = id;
    serial = info.serial;
    aki = trim_left b'0' info.aki;
    status = "good";
    reason = 0;
    expiry = info.expiry;
    revoked_at = 0;
  }

  -- A certificate that was made of a request and stored in a row of its own, under the name in it
  pub record Stored (csr : CertificateRequest) (before : Db) (cert : String) (after : Db)
      : Type 0 where
    pub template : Template
    pub made : cert ≡ pki.create template
    pub follows : Follows csr template
    pub time : ℕ
    pub serial : ℕ
    pub built : template ≡ template_of pki csr time serial
    pub info : CertInfo
    pub reads : pki.read cert ≡ some info
    pub name : String
    pub names : pki.enrollment_id_of cert ≡ some name
    pub fresh : any (is_cert info.serial (trim_left b'0' info.aki)) before.certificates ≡ false
    pub db : after ≡ record before { certificates = before.certificates ++ row_of name info ∷ [] }

  added :
      (c : CertRecord) (w w' : World) (t : Unit {0})
      → (statement (add_certificate pki c) >>= λ done. require done plain) w ≡ (ok t, w')
      → (any (is_cert c.serial c.aki) w.db.certificates ≡ false)
        × (w'.db ≡ record w.db { certificates = w.db.certificates ++ c ∷ [] })
  unfolding add_certificate
  added c w w' t h = elim (statement-cases (add_certificate pki c) w) [
    | inl (failed, _) ↦ absurd (cc (rw failed at h))
    | inr (done, changed) ↦ elim (Bool-cases (any (is_cert c.serial c.aki) w.db.certificates)) [
      | inl there ↦ absurd (cc (rw (done, there) at h))
      | inr free ↦ (free, ap (λ r. r.1.db) (sym (rw (done, free) at h)) ∙ rw free at changed)
    ]
  ]

  insert_certificate-eq-ok :
      (pem : String) (info : CertInfo) (w w' : World) (t : Unit {0})
      → insert_certificate pki pem info w ≡ (ok t, w')
      → (name : String) × (pki.enrollment_id_of pem ≡ some name)
        × (any (is_cert info.serial (trim_left b'0' info.aki)) w.db.certificates ≡ false)
        × (w'.db ≡ record w.db { certificates = w.db.certificates ++ row_of name info ∷ [] })
  unfolding insert_certificate
  insert_certificate-eq-ok pem info w w' t h =
      let adding : String → M (Unit {0}) =
        λ id. statement (add_certificate pki (row_of id info)) >>= λ done. require done plain in
      let (name, named, k) =
        lift-eq-ok (Result.from_option plain (pki.enrollment_id_of pem)) adding w w' h in
      let (fresh, db) = added (row_of name info) w w' t k in
      (name, option-eq-ok pki plain (pki.enrollment_id_of pem) name named, fresh, db)

  make_certificate-Stored :
      (csr : CertificateRequest) (serial now : ℕ) (w w' : World) (cert : String)
      → make_certificate pki csr serial now w ≡ (ok cert, w')
      → Stored csr w.db cert w'.db
  unfolding make_certificate
  make_certificate-Stored csr serial now w w' cert h =
      let pem = pki.create (template_of pki csr now serial) in
      let storing : CertInfo → M String = λ info. insert_certificate pki pem info >> pure pem in
      let (_, _, h₁) =
        lift-eq-ok pki.ca_key (λ _. lift (Result.from_option panicked (pki.read pem)) >>= storing) w
          w' h in
      let (info, reads, h₂) =
        lift-eq-ok (Result.from_option panicked (pki.read pem)) storing w w' h₁ in
      let (t, v, e, h₃) = bind-eq-ok (insert_certificate pki pem info) (λ _. pure pem) w w' h₂ in
      let (name, names, fresh, db) = insert_certificate-eq-ok pem info w v t e in
      let last : w'.db ≡ v.db = ap (λ r. r.1.db) (sym h₃) in
      let it : cert ≡ pem = ground (arith, h₃) in
      record {
        template = template_of pki csr now serial;
        made = it;
        follows = template_of-Follows pki csr now serial;
        time = now;
        serial = serial;
        built = refl;
        info = info;
        reads = ap pki.read it ∙ option-eq-ok pki panicked (pki.read pem) info reads;
        name = name;
        names = ap pki.enrollment_id_of it ∙ names;
        fresh = fresh;
        db = last ∙ db;
      }

  sign_cert-Stored :
      (req : EnrollmentRequest) (type bytes : String) (csr : CertificateRequest) (w w' : World)
      (cert : String)
      → pki.decode req.request ≡ some (type, bytes)
      → pki.parse bytes ≡ some csr
      → sign_cert pki req w ≡ (ok cert, w')
      → Stored csr w.db cert w'.db
  unfolding sign_cert
  sign_cert-Stored req type bytes csr w w' cert decoded read h =
      let making : CertificateRequest → M String = λ csr. lift pki.random_serial >>= λ serial.
      gets (λ w. w.now) >>= λ now. make_certificate pki csr serial now in
      let with_block : String × String → M String = λ block.
        require (is_request_block block.0) plain
        >> (lift (Result.from_option plain (pki.parse block.1)) >>= making) in
      let (block, found, h₁) =
        lift-eq-ok (Result.from_option plain (pki.decode req.request)) with_block w w' h in
      let same : block ≡ (type, bytes) =
        ground
          (arith, sym (option-eq-ok pki plain (pki.decode req.request) block found) ∙ decoded) in
      let (_, h₂) =
        pass-eq-ok (is_request_block block.0) plain
          (lift (Result.from_option plain (pki.parse block.1)) >>= making) w w' h₁ in
      let (csr', read', h₃) =
        lift-eq-ok (Result.from_option plain (pki.parse block.1)) making w w' h₂ in
      let it : csr' ≡ csr = ground (
        arith,
        sym (option-eq-ok pki plain (pki.parse block.1) csr' read')
            ∙ ap (λ b. pki.parse b.1) same
            ∙ read,
      ) in
      let (serial, _, h₄) =
        lift-eq-ok pki.random_serial
          (λ serial. gets (λ w. w.now) >>= λ now. make_certificate pki csr' serial now) w w' h₃ in
      let done = make_certificate-Stored csr' serial w.now w w' cert h₄ in
      subst (λ c. Stored c w.db cert w'.db) it done

  process_requests-IsReadOnly :
      (attrs : List Attribute) (reqs : Option (List AttributeRequest))
      → IsReadOnly (process_requests pki attrs reqs)
  process_requests-IsReadOnly attrs none = record { at = keeps_flow.stay }
  process_requests-IsReadOnly attrs (some reqs) = record { at = keeps_flow.stay }

  wanted : Option (List AttributeRequest) → UserRecord → M (Option String)
  wanted attr_reqs ui = process_requests pki (get_attributes ui.attributes) (elim attr_reqs [
    | none ↦ get_default_attr_reqs (get_attributes ui.attributes)
    | some reqs ↦ some reqs
  ])

  wanted-IsReadOnly :
      (attr_reqs : Option (List AttributeRequest)) (ui : UserRecord)
      → IsReadOnly (wanted attr_reqs ui)
  unfolding wanted
  wanted-IsReadOnly attr_reqs ui = process_requests-IsReadOnly (get_attributes ui.attributes) _

  get_attr_extension-IsReadOnly :
      (attr_reqs : Option (List AttributeRequest)) → IsReadOnly (get_attr_extension pki attr_reqs)
  unfolding get_attr_extension wanted
  get_attr_extension-IsReadOnly attr_reqs = record {
    at = λ w.
        let step : IsReadOnly (get_user w.enrollment_id >>= wanted attr_reqs) =
          search (read_rules, get_user-IsReadOnly, wanted-IsReadOnly) in
        step.at w;
  }

  with_extension-request :
      (req : EnrollmentRequest) (ext : Option String)
      → (with_extension pki req ext).request ≡ req.request
  with_extension-request req none = refl
  with_extension-request req (some e) = refl

  module _ (ca : EnrollCa) (id : String) where
    -- What is known of an enrollment that succeeds: the request that the certificate is made of, that it passed
    -- the checks for the identity, and the row that was added
    pub record Issued (req : EnrollmentRequest) (w : World) (cert : String) (after : Db)
        : Type 0 where
      pub type : String
      pub bytes : String
      pub decoded : pki.decode req.request ≡ some (type, bytes)
      pub csr : CertificateRequest
      pub parsed : pki.parse bytes ≡ some csr
      pub stored : Stored csr w.db cert after
      pub common_name : stored.template.common_name ≡ id
      pub short : All Short stored.template.names
      pub constrained : (stored.template.is_ca ≡ false) ⊎ HoldsTrue id "hf.IntermediateCA" w

    prepare-Checked :
        (req req' : EnrollmentRequest) (w w' : World)
        → prepare pki ca id req w ≡ (ok req', w')
        → (na : ℕ) × Checked pki id ca.signing (record req { not_after = some na }) w req'
          × (w'.db ≡ w.db)
    unfolding prepare
    prepare-Checked req req' w w' h =
        let process : ℕ → M EnrollmentRequest =
          λ na. process_sign_request pki id (record req { not_after = some na }) ca.signing in
        let settle : Option ℕ → ℕ → M EnrollmentRequest =
          λ limit now. lift (settle_not_after ca.signing limit req now) >>= process in
        let (limit, _, h₁) =
          lift-eq-ok (Result.on_err (replaced plain) ca.expiry)
            (λ limit. gets (λ w. w.now) >>= settle limit) w w' h in
        let (na, _, h₂) =
          lift-eq-ok (settle_not_after ca.signing limit req w.now) process w w' h₁ in
        (
          na,
          process_sign_request-Checked pki id (record req { not_after = some na }) ca.signing w w'
              req' h₂,
          read_db (process na) w w' (ok req')
              (process_sign_request-IsReadOnly pki id (record req { not_after = some na })
                ca.signing)
              h₂,
        )

    sign_prepared-Stored :
        (req : EnrollmentRequest) (type bytes : String) (csr : CertificateRequest) (w w' : World)
        (cert : String)
        → pki.decode req.request ≡ some (type, bytes)
        → pki.parse bytes ≡ some csr
        → sign_prepared pki ca req w ≡ (ok cert, w')
        → Stored csr w.db cert w'.db
    unfolding sign_prepared
    sign_prepared-Stored req type bytes csr w w' cert decoded read h =
        let sealing : String → M String = λ cert. lift ca.chain >> pure cert in
        let (ext, v, e, h₁) =
          bind-eq-ok (get_attr_extension pki req.attr_reqs)
            (λ ext. sign_cert pki (with_extension pki req ext) >>= sealing) w w' h in
        let same =
          read_db (get_attr_extension pki req.attr_reqs) w v (ok ext)
            (get_attr_extension-IsReadOnly req.attr_reqs) e in
        let (cert', u, f, h₂) =
          bind-eq-ok (sign_cert pki (with_extension pki req ext)) sealing v w' h₁ in
        let (_, _, h₃) = lift-eq-ok ca.chain (λ _. pure cert') u w' h₂ in
        let stored =
          sign_cert-Stored (with_extension pki req ext) type bytes csr v u cert'
            (ap pki.decode (with_extension-request req ext) ∙ decoded) read f in
        let it : cert' ≡ cert = ground (arith, h₃) in
        let last : u.db ≡ w'.db = ap (λ r. r.1.db) h₃ in
        subst (λ d. Stored csr w.db cert d) last
          (subst (λ c. Stored csr w.db c u.db) it
            (subst (λ d. Stored csr d cert' u.db) same stored))

    issue :
        (req req' : EnrollmentRequest) (na : ℕ) (w v : World) (cert : String) (after : Db)
        → Checked pki id ca.signing (record req { not_after = some na }) w req'
        → v.db ≡ w.db
        → ((type bytes : String) (csr : CertificateRequest)
            → pki.decode req'.request ≡ some (type, bytes)
            → pki.parse bytes ≡ some csr
            → Stored csr v.db cert after)
        → Issued req w cert after
    unfolding set_request_ous
    issue req req' na w v cert after c same store =
        let stored =
          subst (λ d. Stored c.csr d cert after) same
            (store c.type c.bytes c.csr (ap (λ r. pki.decode r.request) c.result ∙ c.decoded)
              c.read) in
        record {
          type = c.type;
          bytes = c.bytes;
          decoded = c.decoded;
          csr = c.csr;
          parsed = c.read;
          stored = stored;
          common_name = stored.follows.common_name ∙ c.common_name;
          short = subst (All Short) (sym stored.follows.names) c.short;
          constrained = elim c.authorized [
            | inl other ↦ inl (
                ap (λ t. t.is_ca) stored.built
                ∙ is_request_for_ca_signing_cert-template_of pki ca.signing c.csr req.profile
                    stored.time stored.serial (c.judged ∙ ap ok other))
            | inr holds ↦ inr holds
          ];
        }

    -- An enrollment that succeeds has issued one certificate, stored in a new row and made of a template with the
    -- subject, the names, the key and the hosts of the client's own request: its common name is that of the
    -- identity, each of its names is within the limit of its type, it lasts 1000 hours, and it is for a CA only where
    -- the identity has hf.IntermediateCA.
    pub handle_enroll-Issued :
        (body : Result EnrollmentRequest) (w w' : World) (cert : String)
        → handle_enroll pki ca id body w ≡ (ok cert, w')
        → (req : EnrollmentRequest) × (body ≡ ok req) × Issued req w cert w'.db
    unfolding handle_enroll
    handle_enroll-Issued body w w' cert h =
        let preparing : EnrollmentRequest → M String =
          λ req. prepare pki ca id req >>= sign_prepared pki ca in
        let (req, read, h₁) = lift-eq-ok body preparing w w' h in
        let (req', v, e, h₂) = bind-eq-ok (prepare pki ca id req) (sign_prepared pki ca) w w' h₁ in
        let (na, checked, same) = prepare-Checked req req' w v e in
        (
          req,
          read,
          issue req req' na w v cert w'.db checked same (λ type bytes csr decoded parsed.
              sign_prepared-Stored req' type bytes csr v w' cert decoded parsed h₂),
        )
