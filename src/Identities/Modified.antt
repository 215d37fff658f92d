-- ===== src/Identities/Modified.antt =====
-- What a request to change an identity makes of its row.
use fabric_ca_gm.Prelude.{
  String, ◌≡◌, ◌≢◌, refl, sym, ap, ◌∙◌, ◌⊎◌, inl, inr, true, some, List, [], ◌∷◌, ◌++◌, ◌==◌, arith,
  eq_iff, Bool-cases, select, length, if◌then◌else◌,
}
use fabric_ca_gm.Prelude.Int.{pos, negsuc, eqℤ_iff}
use fabric_ca_gm.Attr.{Attribute}
use fabric_ca_gm.World.{UserRecord, Db}
use fabric_ca_gm.Registry.{Bcrypt, named, update_rows}
use fabric_ca_gm.Registry.Storing.{Stored}
use fabric_ca_gm.Identities.{
  ModifyIdentityRequest, get_new_attributes, get_modify_req, affiliation_attribute, type_attribute,
}

abbrev entry : String → String → List Attribute
entry name value = record { name = name; value = value; e_cert = true } ∷ []

-- The attributes to merge: those of the request, and behind them entries for a new affiliation, empty for
-- the root, and for a new type.
pub record Extends (req : ModifyIdentityRequest) (attrs : List Attribute) : Type 0 where
  pub affiliation : List Attribute
  pub type : List Attribute
  pub parts : attrs ≡ (req.attributes ++ affiliation) ++ type
  pub for_affiliation :
      ((req.affiliation ≡ "") × (affiliation ≡ []))
      ⊎ (((req.affiliation ≡ ".") × (affiliation ≡ entry "hf.Affiliation" ""))
          ⊎ ((req.affiliation ≢ "")
              × (req.affiliation ≢ ".")
              × (affiliation ≡ entry "hf.Affiliation" req.affiliation)))
  pub for_type :
      ((req.type ≡ "") × (type ≡ [])) ⊎ ((req.type ≢ "") × (type ≡ entry "hf.Type" req.type))

-- The row of an identity, changed as a request says
pub record ModifiedTo (bcrypt : Bcrypt) (user : UserRecord) (req : ModifyIdentityRequest)
    (row : UserRecord) : Type 0 where
  pub name : row.name ≡ user.name
  pub state : row.state ≡ user.state
  pub level : row.level ≡ user.level
  pub pass :
      ((req.secret ≡ "") × (row.pass ≡ user.pass))
      ⊎ ((req.secret ≢ "") × (bcrypt.generate req.secret ≡ some row.pass))
  pub type : ((req.type ≡ "") × (row.type ≡ user.type)) ⊎ ((req.type ≢ "") × (row.type ≡ req.type))
  pub affiliation :
      ((req.affiliation ≡ "") × (row.affiliation ≡ user.affiliation))
      ⊎ (((req.affiliation ≡ ".") × (row.affiliation ≡ ""))
          ⊎ ((req.affiliation ≢ "")
              × (req.affiliation ≢ ".")
              × (row.affiliation ≡ req.affiliation)))
  pub max_enrollments :
      ((req.max_enrollments ≡ pos 0) × (row.max_enrollments ≡ user.max_enrollments))
      ⊎ (((req.max_enrollments ≡ negsuc 1) × (row.max_enrollments ≡ pos 0))
          ⊎ ((req.max_enrollments ≢ pos 0)
              × (req.max_enrollments ≢ negsuc 1)
              × (row.max_enrollments ≡ req.max_enrollments)))
  pub requested : List Attribute
  pub extends : Extends req requested
  pub attributes : row.attributes ≡ get_new_attributes user.attributes requested

-- The identity has one row, which is replaced by `row`; nothing else has changed.
pub record Replaced (name : String) (row : UserRecord) (before after : Db) : Type 0 where
  pub one : length (select (named name) before.users) ≡ 1
  pub users : after.users ≡ update_rows (named name) (λ old. row) before.users
  pub affiliations : after.affiliations ≡ before.affiliations
  pub certificates : after.certificates ≡ before.certificates

module _ (req : ModifyIdentityRequest) where
  abbrev extended : List Attribute
  extended = type_attribute req.type (affiliation_attribute req.affiliation req.attributes)

  append_nil : {A : Type 0} (xs : List A) → xs ++ [] ≡ xs
  append_nil [] = refl
  append_nil (x ∷ xs) = ap (λ r. x ∷ r) (append_nil xs)

  affiliation_attribute-cases :
      (affiliation : List Attribute) × (affiliation_attribute req.affiliation req.attributes
        ≡ req.attributes ++ affiliation)
      × (((req.affiliation ≡ "") × (affiliation ≡ []))
          ⊎ (((req.affiliation ≡ ".") × (affiliation ≡ entry "hf.Affiliation" ""))
              ⊎ ((req.affiliation ≢ "")
                  × (req.affiliation ≢ ".")
                  × (affiliation ≡ entry "hf.Affiliation" req.affiliation))))
  affiliation_attribute-cases = elim (Bool-cases (req.affiliation == ".")) [
    | inl root ↦ (
      entry "hf.Affiliation" "",
      rw root refl,
      inr (inl ((eq_iff req.affiliation ".").0 root, refl)),
    )
    | inr other ↦ elim (Bool-cases (req.affiliation == "")) [
      | inl empty ↦ (
        [],
        rw (other, empty) (sym (append_nil req.attributes)),
        inl ((eq_iff req.affiliation "").0 empty, refl),
      )
      | inr given ↦ (
        entry "hf.Affiliation" req.affiliation,
        rw (other, given) refl,
        inr (
            inr (
              ground (arith, given, eq_iff req.affiliation ""),
              ground (arith, other, eq_iff req.affiliation "."),
              refl,
            )),
      )
    ]
  ]

  extended-Extends : Extends req extended
  extended-Extends =
      let (affiliation, parts, why) = affiliation_attribute-cases in
      elim (Bool-cases (req.type == "")) [
        | inl empty ↦ rw empty (record {
          affiliation = affiliation;
          type = [];
          parts = parts ∙ sym (append_nil (req.attributes ++ affiliation));
          for_affiliation = why;
          for_type = inl ((eq_iff req.type "").0 empty, refl);
        })
        | inr given ↦ rw given (record {
          affiliation = affiliation;
          type = entry "hf.Type" req.type;
          parts = ap (λ r. r ++ entry "hf.Type" req.type) parts;
          for_affiliation = why;
          for_type = inr (ground (arith, given, eq_iff req.type ""), refl);
        })
      ]

-- The write of the changed object, seen as the change that the request asks for
module _ (bcrypt : Bcrypt) (user : UserRecord) (req : ModifyIdentityRequest) where
  changed_row : String → UserRecord
  changed_row pwd = record (get_modify_req user req).0 { pass = pwd }

  changed_row-ModifiedTo :
      (pwd : String)
      → (if (get_modify_req user req).1
          then bcrypt.generate (get_modify_req user req).0.pass
          else some (get_modify_req user req).0.pass)
        ≡ some pwd
      → ModifiedTo bcrypt user req (changed_row pwd)
  unfolding get_modify_req changed_row
  changed_row-ModifiedTo pwd hashed = record {
    name = refl;
    state = refl;
    level = refl;
    pass = ground (arith, hashed, eq_iff req.secret "");
    type = ground (arith, eq_iff req.type "");
    affiliation = ground (arith, eq_iff req.affiliation "", eq_iff req.affiliation ".");
    max_enrollments =
        ground (arith, eqℤ_iff req.max_enrollments (pos 0), eqℤ_iff req.max_enrollments (negsuc 1));
    requested = extended req;
    extends = extended-Extends req;
    attributes = refl;
  }

  pub Stored-ModifiedTo :
      (before after : Db)
      → Stored bcrypt (get_modify_req user req) before after
      → (row : UserRecord) × ModifiedTo bcrypt user req row × Replaced user.name row before after
  unfolding changed_row get_modify_req
  Stored-ModifiedTo before after s = (
    changed_row s.pwd,
    changed_row-ModifiedTo s.pwd s.hashed,
    record {
      one = s.one;
      users = s.users;
      affiliations = s.affiliations;
      certificates = s.certificates;
    },
  )
