-- ===== src/Attr/Grants.antt =====
-- What a registrar may grant, stated without the code's control table, and the proof that the checks
-- of attribute.go establish it.
use fabric_ca_gm.Prelude.{
  String, ◌≡◌, sym, ◌∙◌, ◌≢◌, ◌↔◌, ◌⊎◌, inl, inr, true, false, not, ◌||◌, Option, none, some, List,
  [], ◌∷◌, ◌==◌, arith, eq_iff, Bool-cases, Option-cases, All, Some, all, if◌then◌else◌,
}
use fabric_ca_gm.Text.{
  has_prefix, has_suffix, trim_right, to_lower, split, str_contained, is_subset_of,
  get_slice_from_list,
}
use fabric_ca_gm.Result.{ok, err, plain, bind-eq-ok, ensure}
use fabric_ca_gm.Attr.{
  Attribute, AttributeControl, roles, delegate_roles, registrar_attr, Control, boolean, list, fixed,
  custom, boolean_attributes, list_attributes, contains, attribute_map, or_custom,
  get_attribute_control, can_register_attr, exists, get_attr_value, parse_bool,
  validate_boolean_attribute, possessed, check_values, check_hf_registrar_attr_values,
  current_roles, check_delegate_role_values, validate_list_attribute, callers_attr_value, validate,
  is_registrar_authorized, can_register_attribute, can_register_each,
  can_register_requested_attributes,
}

-- An entry of hf.Registrar.Attributes covers a name: by its prefix if it ends in a star, else exactly.
abbrev pub Permits : String → String → Type 0
Permits name entry =
    ((has_suffix entry "*" ≡ true) × (has_prefix name (trim_right b'*' entry) ≡ true))
    ⊎ ((has_suffix entry "*" ≡ false) × (name ≡ entry))

pub can_register_attr_iff :
    (name : String) (entries : List String)
    → (can_register_attr name entries ≡ ok tt) ↔ Some (Permits name) entries
unfolding can_register_attr
can_register_attr_iff name [] = ground arith
can_register_attr_iff name (e ∷ es) = ground (arith, can_register_attr_iff name es, eq_iff name e)

-- Every part of a comma-separated list is empty or stands in another list, whatever the case of letters.
abbrev pub IsSubset : String → String → Type 0
IsSubset small big =
    All (λ s. (s ≡ "") ⊎ Some (λ b. to_lower b ≡ to_lower s) (split b',' big)) (split b',' small)

any-Some :
    (s : String) (parts : List String)
    → str_contained s parts ≡ true
    → Some (λ b. to_lower b ≡ to_lower s) parts
unfolding str_contained
any-Some s [] h = cc
any-Some s (p ∷ ps) h = ground (arith, any-Some s ps, eq_iff (to_lower p) (to_lower s))

all-IsSubset :
    (big : String) (parts : List String)
    → all (λ s. s == "" || str_contained s (split b',' big)) parts ≡ true
    → All (λ s. (s ≡ "") ⊎ Some (λ b. to_lower b ≡ to_lower s) (split b',' big)) parts
all-IsSubset big [] h = tt
all-IsSubset big (p ∷ ps) h =
    ground (arith, all-IsSubset big ps, eq_iff p "", any-Some p (split b',' big))

pub is_subset_of-IsSubset :
    (small big : String) → is_subset_of small big ≡ true → IsSubset small big
unfolding is_subset_of
is_subset_of-IsSubset small big h = all-IsSubset big (split b',' small) h

module _ (all_requested : List Attribute) (user : Option AttributeControl)
    (registrar : AttributeControl) where
  abbrev pub Has : Option AttributeControl → String → Type 0
  Has none name = ⊥
  Has (some get) name = get name ≢ none

  -- A value of hf.Registrar.Attributes that a registrar passes on
  abbrev pub MayPass : String → String → Type 0
  MayPass callers_value v =
      Some (Permits v) (get_slice_from_list callers_value)
      × ((has_prefix v "hf." ≡ true) → (exists all_requested v ≡ true) ⊎ Has user v)

  -- Why an attribute may be registered. `own` is the registrar's attribute of the same name.
  pub data Granted (a : Attribute) : Type 0 where
    unreserved : has_prefix a.name "hf." ≡ false → Granted a
    flag :
        (own : Attribute)
        → contains a.name boolean_attributes ≡ true
        → registrar a.name ≡ some own
        → parse_bool own.value ≡ some true
        → (a.value ≡ "") ⊎ (parse_bool a.value ≢ none)
        → Granted a
    removal :
        (own : Attribute)
        → contains a.name list_attributes ≡ true
        → registrar a.name ≡ some own
        → a.value ≡ ""
        → Granted a
    registrar_values :
        (own : Attribute)
        → a.name ≡ registrar_attr
        → registrar a.name ≡ some own
        → All (MayPass own.value) (get_slice_from_list a.value)
        → Granted a
    role_values :
        (own : Attribute)
        → contains a.name list_attributes ≡ true
        → a.name ≢ registrar_attr
        → registrar a.name ≡ some own
        → IsSubset a.value own.value
        → (a.name ≡ delegate_roles
            → IsSubset (get_attr_value all_requested delegate_roles) (
                if get_attr_value all_requested roles == ""
                then current_roles user
                else get_attr_value all_requested roles))
        → Granted a

  possessed_sound :
      (v : String)
      → possessed v all_requested user ≡ ok tt
      → (exists all_requested v ≡ true) ⊎ Has user v
  unfolding possessed
  possessed_sound v h = ground arith

  check_values_sound :
      (vs : List String) (callers_value : String)
      → check_values vs all_requested user (get_slice_from_list callers_value) ≡ ok tt
      → All (MayPass callers_value) vs
  unfolding check_values
  check_values_sound [] c h = tt
  check_values_sound (v ∷ vs) c h =
      let (_, p, h') = bind-eq-ok (can_register_attr v (get_slice_from_list c)) _ h in
      let (_, q, h'') =
        bind-eq-ok (if has_prefix v "hf." then possessed v all_requested user else ok tt) _ h' in
      (
        (
          (can_register_attr_iff v (get_slice_from_list c)).0 (ground arith),
          λ e. possessed_sound v (ground arith),
        ),
        check_values_sound vs c h'',
      )

  boolean_sound :
      (a own : Attribute)
      → contains a.name boolean_attributes ≡ true
      → registrar a.name ≡ some own
      → validate_boolean_attribute a own.value ≡ ok tt
      → Granted a
  unfolding validate_boolean_attribute
  boolean_sound a own c r h = flag own c r (ground arith) (ground (arith, eq_iff a.value ""))

  list_sound :
      (c : Control) (a own : Attribute)
      → c.name ≡ a.name
      → contains a.name list_attributes ≡ true
      → registrar a.name ≡ some own
      → validate_list_attribute c a own.value all_requested user ≡ ok tt
      → Granted a
  unfolding validate_list_attribute check_hf_registrar_attr_values check_delegate_role_values
  list_sound c a own n l r h = elim (Bool-cases (a.value == "")) [
    | inl empty ↦ removal own l r ((eq_iff a.value "").0 empty)
    | inr given ↦ elim (Bool-cases (c.name == registrar_attr)) [
      | inl values ↦
          registrar_values own (sym n ∙ (eq_iff c.name registrar_attr).0 values) r
            (check_values_sound (get_slice_from_list a.value) own.value (rw (given, values) at h))
      | inr other ↦
          let (_, p, q) =
            bind-eq-ok (ensure (is_subset_of a.value own.value) plain) _ (rw (given, other) at h) in
          role_values own l (ground (arith, eq_iff c.name registrar_attr)) r
            (is_subset_of-IsSubset a.value own.value (ground arith))
            (λ d. is_subset_of-IsSubset _ _ (ground (arith, eq_iff c.name delegate_roles)))
    ]
  ]

  -- What the control table gives for a name.
  control_cases :
      (name : String) (c : Control)
      → get_attribute_control name ≡ ok c
      → (c.name ≡ name)
        × (((c.attr_type ≡ boolean)
              × (c.requires_ownership ≡ true)
              × (contains name boolean_attributes ≡ true))
            ⊎ (((c.attr_type ≡ list)
                  × (c.requires_ownership ≡ true)
                  × (contains name list_attributes ≡ true))
                ⊎ ((c.attr_type ≡ fixed)
                    ⊎ ((c.attr_type ≡ custom) × (has_prefix name "hf." ≡ false)))))
  unfolding get_attribute_control or_custom attribute_map
  control_cases name c h = ground arith

  owned :
      (c : Control) (a : Attribute) (v : String)
      → c.requires_ownership ≡ true
      → callers_attr_value c a registrar ≡ ok v
      → (own : Attribute) × (registrar a.name ≡ some own) × (v ≡ own.value)
  unfolding callers_attr_value
  owned c a v o h = elim (Option-cases (registrar a.name)) [
    | inl missing ↦ absurd (ground arith)
    | inr (own, r) ↦ (own, r, ground arith)
  ]

  flag_check :
      (c : Control) (a : Attribute) (v : String)
      → c.attr_type ≡ boolean
      → validate c.attr_type c a v all_requested user ≡ validate_boolean_attribute a v
  unfolding validate
  flag_check c a v e = rw e

  list_check :
      (c : Control) (a : Attribute) (v : String)
      → c.attr_type ≡ list
      → validate c.attr_type c a v all_requested user
        ≡ validate_list_attribute c a v all_requested user
  unfolding validate
  list_check c a v e = ground arith

  fixed_check :
      (c : Control) (a : Attribute) (v : String)
      → c.attr_type ≡ fixed
      → validate c.attr_type c a v all_requested user ≡ err plain
  unfolding validate
  fixed_check c a v e = rw e

  authorized_sound :
      (c : Control) (a : Attribute)
      → get_attribute_control a.name ≡ ok c
      → is_registrar_authorized c a all_requested user registrar ≡ ok tt
      → Granted a
  unfolding is_registrar_authorized
  authorized_sound c a e h =
      let (named, kinds) = control_cases a.name c e in
      let (v, p, q) = bind-eq-ok (callers_attr_value c a registrar) _ h in
      elim kinds [
        | inl (b, o, known) ↦
            let (own, r, s) = owned c a v o p in
            boolean_sound a own known r (cc (flag_check c a v b))
        | inr (inl (l, o, known)) ↦
            let (own, r, s) = owned c a v o p in
            list_sound c a own named known r (cc (list_check c a v l))
        | inr (inr (inl f)) ↦ cc (fixed_check c a v f)
        | inr (inr (inr (k, free))) ↦ unreserved free
      ]

  -- The registrar's own list permits the name, and the attribute's kind allows its value.
  abbrev pub Registrable : Attribute → Type 0
  Registrable a =
      (own_list : Attribute) × (registrar registrar_attr ≡ some own_list)
      × (own_list.value ≢ "")
      × Some (Permits a.name) (get_slice_from_list own_list.value)
      × Granted a

  attribute_sound :
      (a : Attribute)
      → can_register_attribute a all_requested user registrar ≡ ok tt
      → Registrable a
  unfolding can_register_attribute
  attribute_sound a h = elim (Option-cases (registrar registrar_attr)) [
    | inl missing ↦ absurd (ground arith)
    | inr (own, r) ↦
        let (_, p, h') = bind-eq-ok (ensure (not (own.value == "")) plain) _ (rw r at h) in
        let (_, q, h'') =
          bind-eq-ok (can_register_attr a.name (get_slice_from_list own.value)) _ h' in
        let (c, e, g) = bind-eq-ok (get_attribute_control a.name) _ h'' in
        (
          own,
          r,
          ground (arith, eq_iff own.value ""),
          (can_register_attr_iff a.name _).0 (ground arith),
          authorized_sound c a e (ground arith),
        )
  ]

  each_sound :
      (attrs : List Attribute)
      → can_register_each attrs all_requested user registrar ≡ ok tt
      → All Registrable attrs
  unfolding can_register_each
  each_sound [] h = tt
  each_sound (a ∷ attrs) h =
      let (_, p, h') = bind-eq-ok (can_register_attribute a all_requested user registrar) _ h in
      (attribute_sound a (ground arith), each_sound attrs h')

-- If the checks on a request's attributes pass, then of every requested attribute the registrar's
-- hf.Registrar.Attributes covers the name, and the attribute either has no reserved prefix, or is a
-- boolean or list attribute that the registrar owns itself: with the value true for a boolean, and, for a
-- list that is not being removed, with a value that contains the requested one. For hf.Registrar.Attributes
-- that value covers each name in the requested one, and each such name that begins with "hf." is that of an
-- attribute of the request, whatever its value, or one that the identity has before the request.
pub can_register_requested_attributes_sound :
    (attrs : List Attribute) (user : Option AttributeControl) (registrar : AttributeControl)
    → can_register_requested_attributes attrs user registrar ≡ ok tt
    → All (Registrable attrs user registrar) attrs
unfolding can_register_requested_attributes
can_register_requested_attributes_sound attrs user registrar h =
    each_sound attrs user registrar attrs h
