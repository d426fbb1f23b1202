-- ===== src/Objects/Keys.antt =====
-- ObjectType and ObjectKey of internal/tengo/tengo.go, as texts and as keys of maps.
use skeema.Prelude.{
  Bool, true, ◌&&◌, [], ◌++◌, ◌≡◌, Text, txt, text_eq, ◌==◌, eq_of_==, ==_refl, both_true,
}
use skeema.Escape.{escape_identifier}
use skeema.Objects.{
  ObjectType, object_type_eq, object_nil, object_database, object_table, object_proc, object_func,
  ObjectKey,
}

unfoldable pub type_text : ObjectType → Text
type_text object_nil = []
type_text object_database = txt "database"
type_text object_table = txt "table"
type_text object_proc = txt "procedure"
type_text object_func = txt "function"

-- ObjectKey.String
unfoldable pub key_text : ObjectKey → Text
unfolding type_text
key_text key = type_text key.type ++ (txt " " ++ escape_identifier key.name)

-- `==` on ObjectKey
unfoldable pub same_key : ObjectKey → ObjectKey → Bool
unfolding text_eq object_type_eq
same_key a b = a.type == b.type && a.name == b.name

pub same_key_refl : (k : ObjectKey) → same_key k k ≡ true
unfolding same_key
same_key_refl k = simp (==_refl k.type, ==_refl k.name)

pub same_key_eq : (a b : ObjectKey) → same_key a b ≡ true → a ≡ b
unfolding same_key
same_key_eq a b h =
    let both = both_true (a.type == b.type) (a.name == b.name) h in
    let t = eq_of_== a.type b.type both.0 in
    let n = eq_of_== a.name b.name both.1 in λ i. record { type = t i; name = n i }
