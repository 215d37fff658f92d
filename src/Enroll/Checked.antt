-- ===== src/Enroll/Checked.antt =====
-- What the checks of a signing request establish.
use fabric_ca_gm.Prelude.{
  ℕ, String, ◌≡◌, refl, ap, ◌∙◌, ◌⊎◌, inl, inr, Bool, true, false, not, ◌||◌, Option, none, some,
  List, [], ◌∷◌, ◌==◌, arith, eq_iff, Bool-cases, Option-cases, All, if◌then◌else◌,
}
use fabric_ca_gm.Result.{Err, Result, ok, err, plain, panicked, ensure}
use fabric_ca_gm.Result
use fabric_ca_gm.Exec.{◌>>=◌, ◌>>◌, lift, require, pure}
use fabric_ca_gm.Exec.Rules.{bind-eq-ok, lift-eq-ok, pass-eq-ok}
use fabric_ca_gm.World.{UserRecord, World, M}
use fabric_ca_gm.World.ReadOnly.{IsReadOnly, keeps_flow}
use fabric_ca_gm.World.Atomic.{read_rules}
use fabric_ca_gm.Context.{get_caller}
use fabric_ca_gm.Context.Caller.{get_caller-IsReadOnly}
use fabric_ca_gm.Revoke.Handler.{
  HoldsTrue, attribute_is_true-HoldsTrue, attribute_is_true-IsReadOnly,
}
use fabric_ca_gm.Enroll.{
  EnrollmentRequest, NameEntry, Extension, CertificateRequest, SigningConfig, eq_oid,
  basic_constraints_oid, limit_of, within, entry_check, csr_input_length_check, extension_is_ca,
  any_is_ca, get_signing_profile, is_request_for_ca_signing_cert, set_request_ous,
}
use fabric_ca_gm.Enroll.Signing.{
  Template, Pki, parsed, check_ca_request, process_sign_request, set_constraints, set_key_id,
  with_constraints, template_of, is_request_block, differs,
}

-- A name entry holds a text within the limit of its type.
abbrev pub Short : NameEntry → Type 0
Short n = (value : String) × (n.value ≡ some value) × (within (limit_of n.type) value ≡ true)

entry_check-Short : (n : NameEntry) → entry_check n ≡ ok tt → Short n
entry_check-Short n h = elim (Option-cases n.value) [
  | inl missing ↦ absurd (cc (rw missing at h))
  | inr (value, found) ↦ elim (Bool-cases (within (limit_of n.type) value)) [
    | inl fits ↦ (value, found, fits)
    | inr exceeds ↦ absurd (cc (rw (found, exceeds) at h))
  ]
]

csr_input_length_check-Short :
    (names : List NameEntry) → csr_input_length_check names ≡ ok tt → All Short names
unfolding csr_input_length_check
csr_input_length_check-Short [] h = tt
csr_input_length_check-Short (n ∷ names) h =
    let (t, e, k) = Result.bind-eq-ok (entry_check n) (λ _. csr_input_length_check names) h in
    (entry_check-Short n e, csr_input_length_check-Short names k)

abbrev found_is_ca : Result Bool → Bool → Result Bool
found_is_ca rest found = if found then ok true else rest

-- A request whose extensions pass as not asking for a CA leaves the template without the right of one,
-- though that is read from the last of the extensions and the check stops at the first.
module _ (pki : Pki) where
  plain_extension :
      (e : Extension) (t : Template)
      → extension_is_ca pki.unmarshal e ≡ ok false
      → t.is_ca ≡ false
      → (set_constraints pki e t).is_ca ≡ false
  plain_extension e t h k = elim (Bool-cases (eq_oid e.id basic_constraints_oid)) [
    | inl yes' ↦
        let h' = rw yes' at h in
        rw yes' (elim (Option-cases (pki.unmarshal e.value).1) [
          | inl failed ↦ absurd (cc (rw failed at h'))
          | inr (more, read) ↦ elim (Bool-cases more) [
            | inl trailing ↦ absurd (cc (rw (read, trailing) at h'))
            | inr whole ↦ ground (arith, (rw (read, whole) at h'))
          ]
        ])
    | inr no' ↦ rw no' k
  ]

  set_key_id-is_ca : (e : Extension) (t : Template) → (set_key_id pki e t).is_ca ≡ t.is_ca
  set_key_id-is_ca e t = ground arith

  any_is_ca-with_constraints :
      (es : List Extension) (t : Template)
      → any_is_ca pki.unmarshal es ≡ ok false
      → t.is_ca ≡ false
      → (with_constraints pki es t).is_ca ≡ false
  unfolding any_is_ca with_constraints
  any_is_ca-with_constraints [] t h k = k
  any_is_ca-with_constraints (e ∷ es) t h k =
      let rest = any_is_ca pki.unmarshal es in
      let (found, e₁, h₁) =
        Result.bind-eq-ok (extension_is_ca pki.unmarshal e) (found_is_ca rest) h in
      elim (Bool-cases found) [
        | inl yes' ↦ absurd (cc (rw yes' at h₁))
        | inr no' ↦
            any_is_ca-with_constraints es _ (rw no' at h₁) (
              set_key_id-is_ca e (set_constraints pki e t) ∙ plain_extension e t (e₁ ∙ ap ok no') k)
      ]

  -- The template of a request that was not found to ask for a CA has no right of one.
  pub is_request_for_ca_signing_cert-template_of :
      (signing : SigningConfig) (csr : CertificateRequest) (profile : String) (now serial : ℕ)
      → is_request_for_ca_signing_cert pki.unmarshal signing csr profile ≡ ok false
      → (template_of pki csr now serial).is_ca ≡ false
  unfolding is_request_for_ca_signing_cert template_of
  is_request_for_ca_signing_cert-template_of signing csr profile now serial h =
      let (p, e, k) =
        Result.bind-eq-ok (Result.from_option plain (get_signing_profile signing profile))
          (λ p. if p.is_ca then ok true else any_is_ca pki.unmarshal csr.extensions) h in
      elim (Bool-cases p.is_ca) [
        | inl yes' ↦ absurd (cc (rw yes' at k))
        | inr no' ↦ any_is_ca-with_constraints csr.extensions _ (rw no' at k) refl
      ]

  -- What is known of a signing request that passes, for the identity that makes it
  pub record Checked (id : String) (signing : SigningConfig) (req : EnrollmentRequest) (w : World)
      (req' : EnrollmentRequest) : Type 0 where
    pub type : String
    pub bytes : String
    pub decoded : pki.decode req.request ≡ some (type, bytes)
    pub csr : CertificateRequest
    pub read : pki.parse bytes ≡ some csr
    pub common_name : csr.common_name ≡ id
    pub short : All Short csr.names
    pub for_ca : Bool
    pub judged : is_request_for_ca_signing_cert pki.unmarshal signing csr req.profile ≡ ok for_ca
    pub authorized : (for_ca ≡ false) ⊎ HoldsTrue id "hf.IntermediateCA" w
    pub caller : UserRecord
    pub result : req' ≡ set_request_ous req caller

  pub option-eq-ok :
      {A : Type 0} (e : Err) (o : Option A) (a : A) → Result.from_option e o ≡ ok a → o ≡ some a
  option-eq-ok e none a h = absurd (cc h)
  option-eq-ok e (some b) a h = ground (arith, h)

  check_ca_request-HoldsTrue :
      (id : String) (for_ca : Bool) (w w' : World) (t : Unit {0})
      → check_ca_request pki id for_ca w ≡ (ok t, w')
      → (for_ca ≡ false) ⊎ HoldsTrue id "hf.IntermediateCA" w
  unfolding check_ca_request
  check_ca_request-HoldsTrue id true w w' t h =
      inr (attribute_is_true-HoldsTrue id "hf.IntermediateCA" w w' t h)
  check_ca_request-HoldsTrue id false w w' t h = inl refl

  parsed-some :
      (bytes : String) (csr : CertificateRequest)
      → Result.from_option panicked (if pki.gm_config then pki.parse bytes else none) ≡ ok csr
      → pki.parse bytes ≡ some csr
  parsed-some bytes csr h = elim (Bool-cases pki.gm_config) [
    | inl gm ↦ option-eq-ok panicked (pki.parse bytes) csr (rw gm at h)
    | inr other ↦ absurd (cc (rw other at h))
  ]

  named_so : (a : Bool) (name id : String) → not (a || not (name == id)) ≡ true → name ≡ id
  named_so a name id h = ground (arith, h, eq_iff name id)

  check_ca_request-IsReadOnly :
      (id : String) (for_ca : Bool) → IsReadOnly (check_ca_request pki id for_ca)
  unfolding check_ca_request
  check_ca_request-IsReadOnly id true = attribute_is_true-IsReadOnly id "hf.IntermediateCA"
  check_ca_request-IsReadOnly id false = record { at = keeps_flow.stay }

  parsed-IsReadOnly : (bytes : String) → IsReadOnly (parsed pki bytes)
  unfolding parsed
  parsed-IsReadOnly bytes = record { at = keeps_flow.stay }

  pub process_sign_request-IsReadOnly :
      (id : String) (req : EnrollmentRequest) (signing : SigningConfig)
      → IsReadOnly (process_sign_request pki id req signing)
  unfolding process_sign_request
  process_sign_request-IsReadOnly id req signing =
      search (read_rules, parsed-IsReadOnly, check_ca_request-IsReadOnly, get_caller-IsReadOnly)
        depth 18

  module _ (id : String) (req : EnrollmentRequest) (signing : SigningConfig) where
    abbrev finishing : M EnrollmentRequest
    finishing = get_caller >>= λ caller. pure (set_request_ous req caller)

    abbrev with_csr : CertificateRequest → M EnrollmentRequest
    with_csr csr =
        require (not (differs req.subject id || not (csr.common_name == id))) plain
        >> (lift (is_request_for_ca_signing_cert pki.unmarshal signing csr req.profile)
            >>= λ for_ca.
                check_ca_request pki id for_ca
                >> (lift (csr_input_length_check csr.names) >> finishing))

    abbrev with_block : String × String → M EnrollmentRequest
    with_block block = require (is_request_block block.0) plain >> (parsed pki block.1 >>= with_csr)

    pub process_sign_request-Checked :
        (w w' : World) (req' : EnrollmentRequest)
        → process_sign_request pki id req signing w ≡ (ok req', w')
        → Checked id signing req w req'
    unfolding process_sign_request parsed
    process_sign_request-Checked w w' req' h =
        let (block, found, h₁) =
          lift-eq-ok (Result.from_option plain (pki.decode req.request)) with_block w w' h in
        let (_, h₂) =
          pass-eq-ok (is_request_block block.0) plain (parsed pki block.1 >>= with_csr) w w' h₁ in
        let (csr, read, h₃) =
          lift-eq-ok
            (Result.from_option panicked (if pki.gm_config then pki.parse block.1 else none))
            with_csr w w' h₂ in
        let judging = is_request_for_ca_signing_cert pki.unmarshal signing csr req.profile in
        let checking : Bool → M EnrollmentRequest = λ for_ca.
          check_ca_request pki id for_ca
          >> (lift (csr_input_length_check csr.names) >> finishing) in
        let (named, h₄) =
          pass-eq-ok (not (differs req.subject id || not (csr.common_name == id))) plain
            (lift judging >>= checking) w w' h₃ in
        let (for_ca, judged, h₅) = lift-eq-ok judging checking w w' h₄ in
        let (t, v, e, h₆) =
          bind-eq-ok (check_ca_request pki id for_ca)
            (λ _. lift (csr_input_length_check csr.names) >> finishing) w w' h₅ in
        let (_, short, h₇) =
          lift-eq-ok (csr_input_length_check csr.names) (λ _. finishing) v w' h₆ in
        let (caller, u, e', h₈) =
          bind-eq-ok get_caller (λ caller. pure (set_request_ous req caller)) v w' h₇ in
        record {
          type = block.0;
          bytes = block.1;
          decoded = option-eq-ok plain (pki.decode req.request) block found;
          csr = csr;
          read = parsed-some block.1 csr read;
          common_name = named_so (differs req.subject id) csr.common_name id named;
          short = csr_input_length_check-Short csr.names short;
          for_ca = for_ca;
          judged = judged;
          authorized = check_ca_request-HoldsTrue id for_ca w v t e;
          caller = caller;
          result = ground (arith, h₈);
        }
