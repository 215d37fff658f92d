-- ===== src/Identities/Merge.antt =====
-- What the merge of attributes gives.
use fabric_ca_gm.Prelude.{
  String, ◌≡◌, refl, false, Option, none, some, List, [], ◌∷◌, ◌==◌, arith, eq_iff, if◌then◌else◌,
}
use fabric_ca_gm.Attr.{Attribute, exists}
use fabric_ca_gm.Registry.{get_attribute}
use fabric_ca_gm.Identities.{set_attribute, get_new_attributes}

-- No name stands twice.
abbrev pub Distinct : List Attribute → Type 0
Distinct [] = Unit {0}
Distinct (a ∷ attrs) = (exists attrs a.name ≡ false) × Distinct attrs

-- The entry that a request leaves: none for an empty value
abbrev pub settled : Attribute → Option Attribute
settled new = if new.value == "" then none else some new

-- What an identity should have under a name: what the request's last entry of the name says, or what it has.
abbrev pub merged : Option Attribute → Option Attribute → Option Attribute
merged old none = old
merged old (some new) = settled new

absent :
    (attrs : List Attribute) (name : String)
    → exists attrs name ≡ false
    → get_attribute attrs name ≡ none
unfolding exists get_attribute
absent [] name h = refl
absent (a ∷ attrs) name h = ground (arith, absent attrs name)

set_attribute-exists_other :
    (new : Attribute) (attrs : List Attribute) (name : String)
    → (name == new.name) ≡ false
    → exists attrs name ≡ false
    → exists (set_attribute new attrs) name ≡ false
unfolding set_attribute exists
set_attribute-exists_other new [] name o h =
    ground (arith, eq_iff name new.name, eq_iff new.name name)
set_attribute-exists_other new (a ∷ attrs) name o h = ground (
  arith,
  set_attribute-exists_other new attrs name o,
  eq_iff a.name new.name,
  eq_iff new.name name,
  eq_iff name new.name,
  eq_iff a.name name,
)

set_attribute-Distinct :
    (new : Attribute) (attrs : List Attribute) → Distinct attrs → Distinct (set_attribute new attrs)
unfolding set_attribute exists
set_attribute-Distinct new [] d = ground arith
set_attribute-Distinct new (a ∷ attrs) d = ground (
  arith,
  set_attribute-Distinct new attrs d.1,
  set_attribute-exists_other new attrs a.name,
  eq_iff a.name new.name,
)

set_attribute-get_attribute :
    (new : Attribute) (attrs : List Attribute) (name : String)
    → Distinct attrs
    → get_attribute (set_attribute new attrs) name
      ≡ (if new.name == name then settled new else get_attribute attrs name)
unfolding set_attribute get_attribute
set_attribute-get_attribute new [] name d = ground arith
set_attribute-get_attribute new (a ∷ attrs) name d = ground (
  arith,
  set_attribute-get_attribute new attrs name d.1,
  absent attrs name,
  eq_iff a.name new.name,
  eq_iff new.name name,
  eq_iff a.name name,
)

-- For an identity whose attributes have distinct names, the merge keeps the names distinct and gives every
-- name what the last entry of that name in the request says, removal for an empty value, and leaves every
-- name that the request does not mention.
pub get_new_attributes-get_attribute :
    (attrs new : List Attribute) (name : String)
    → Distinct attrs
    → Distinct (get_new_attributes attrs new)
      × (get_attribute (get_new_attributes attrs new) name
          ≡ merged (get_attribute attrs name) (get_attribute new name))
unfolding get_new_attributes get_attribute
get_new_attributes-get_attribute attrs [] name d = (d, refl)
get_new_attributes-get_attribute attrs (n ∷ new) name d =
    let (d', later) =
      get_new_attributes-get_attribute (set_attribute n attrs) new name
        (set_attribute-Distinct n attrs d) in
    (d', ground (arith, later, set_attribute-get_attribute n attrs name d))
