-- ===== src/Registry/Attributes.antt =====
-- The attributes of an identity's object: the values of the map that is made of the stored list.
use fabric_ca_gm.Prelude.{String, ◌≡◌, ◌≢◌, refl, true, none, List, [], ◌∷◌, arith, eq_iff}
use fabric_ca_gm.Attr.{Attribute, exists}
use fabric_ca_gm.Registry.{get_attribute, get_attributes}

exists-get_attribute :
    (attrs : List Attribute) (name : String)
    → exists attrs name ≡ true
    → get_attribute attrs name ≢ none
unfolding exists get_attribute
exists-get_attribute [] name h = cc
exists-get_attribute (a ∷ attrs) name h = ground (arith, h, exists-get_attribute attrs name)

-- The values give each name what the list gives.
pub get_attributes-get_attribute :
    (attrs : List Attribute) (name : String)
    → get_attribute (get_attributes attrs) name ≡ get_attribute attrs name
unfolding get_attribute get_attributes
get_attributes-get_attribute [] name = refl
get_attributes-get_attribute (a ∷ attrs) name = ground (
  arith,
  get_attributes-get_attribute attrs name,
  exists-get_attribute (get_attributes attrs) name,
  eq_iff a.name name,
)
