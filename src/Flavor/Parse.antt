-- ===== src/Flavor/Parse.antt =====
-- Reading and printing of vendors, versions, variants and flavors, of internal/tengo/flavor.go.
use Prim.Native.Nat.{bit_and, bit_or}
use skeema.Prelude.{
  ℕ, ◌+◌, ◌-◌, ◌*◌, Bool, true, false, not, ◌&&◌, ◌||◌, List, [], ◌∷◌, ◌++◌, Option, none, some,
  Text, txt, text_eq, nat_eq, ◌==◌, ◌!=◌, if◌then◌else◌, ltb, nat_beq, is_digit, itoa, join,
  to_lower, contains,
}
use skeema.Flavor.{
  Vendor, vendor_unknown, vendor_mysql, vendor_mariadb, vendor_eq, vendor_string, Version, Flavor,
  variant_percona, variant_aurora, version_string,
}

-- What is read, and whether there was no error.
pub record Read {ℓ} (A : Type ℓ) : Type ℓ where
  pub value : A
  pub ok : Bool

-- strings.SplitN(s, sep, 2) for a separator of one byte: what stands in front of the first one, and
-- what stands behind it if there is one.
unfoldable pub cut : ℕ → Text → Text × Option Text
cut sep [] = ([], none)
cut sep (c ∷ s) =
    let (front, back) = cut sep s in if nat_beq c sep then ([], some s) else (c ∷ front, back)

-- strings.Split(s, "-")
unfoldable pub split_dashes : Text → List Text
split_dashes [] = [] ∷ []
split_dashes (c ∷ s) =
    let rest = split_dashes s in
    if nat_beq c b'-'
    then [] ∷ rest
    else elim rest [ [] ↦ (c ∷ []) ∷ [] | part ∷ parts ↦ (c ∷ part) ∷ parts ]

-- ParseVendor
unfoldable pub parse_vendor : Text → Vendor
unfolding vendor_string text_eq
parse_vendor s =
    if vendor_string vendor_mysql == s
    then vendor_mysql
    else if vendor_string vendor_mariadb == s
    then vendor_mariadb
    else vendor_unknown

-- The loop of strconv.ParseUint(s, 10, 16)
unfoldable pub parse_digits : ℕ → Text → Read ℕ
parse_digits n [] = record { value = n; ok = true }
parse_digits n (c ∷ s) =
    let more = parse_digits (n * 10 + (c - b'0')) s in
    if not (is_digit c)
    then record { value = 0; ok = false }
    else if ltb 65535 (n * 10 + (c - b'0'))
    then record { value = 65535; ok = false }
    else more

-- strconv.ParseUint(s, 10, 16)
unfoldable pub parse_uint16 : Text → Read ℕ
unfolding parse_digits
parse_uint16 [] = record { value = 0; ok = false }
parse_uint16 (c ∷ s) = parse_digits 0 (c ∷ s)

abbrev digits_from : Text → Option Text
digits_from [] = none
digits_from (c ∷ s) = if is_digit c then some (c ∷ s) else digits_from s

abbrev digits_or : Text → Option Text → Text
digits_or s none = s
digits_or s (some digits) = digits

-- The text from its first digit on, or all of it if it has none.
unfoldable pub from_digit : Text → Text
from_digit s = digits_or s (digits_from s)

-- The text up to its first byte that is no digit.
unfoldable pub take_digits : Text → Text
take_digits [] = []
take_digits (c ∷ s) = if is_digit c then c ∷ take_digits s else []

-- The parts of a version, missing ones being zero.
unfoldable pub patch_part : Option Text → Read ℕ
unfolding take_digits parse_uint16
patch_part none = record { value = 0; ok = true }
patch_part (some s) = parse_uint16 (take_digits s)

unfoldable pub minor_parts : Option Text → Read (ℕ × ℕ)
unfolding cut parse_uint16 patch_part
minor_parts none = record { value = (0, 0); ok = true }
minor_parts (some s) =
    let (part, back) = cut b'.' s in
    let minor = parse_uint16 part in
    let patch = patch_part back in
    record { value = (minor.value, patch.value); ok = minor.ok && patch.ok }

-- ParseVersion
unfoldable pub parse_version : Text → Read Version
unfolding cut parse_uint16 from_digit minor_parts
parse_version s =
    let (part, back) = cut b'.' s in
    let major = parse_uint16 (from_digit part) in
    let more = minor_parts back in
    record {
      value = record { major = major.value; minor = more.value.0; patch = more.value.1 };
      ok = major.ok && more.ok;
    }

-- The variants with their names.
abbrev pub variant_names : List (ℕ × Text)
variant_names = (variant_percona, txt "percona") ∷ (variant_aurora, txt "aurora") ∷ []

set_names : ℕ → List (ℕ × Text) → List Text
set_names variants [] = []
set_names variants ((flag, name) ∷ more) =
    if bit_and variants flag != 0 then name ∷ set_names variants more else set_names variants more

-- Variant.String
unfoldable pub variant_string : ℕ → Text
unfolding set_names join
variant_string variants = join (txt "-") (set_names variants variant_names)

some_equals : Text → List Text → Bool
unfolding text_eq
some_equals name [] = false
some_equals name (part ∷ parts) = part == name || some_equals name parts

variant_flags : List (ℕ × Text) → List Text → ℕ
unfolding some_equals
variant_flags [] parts = 0
variant_flags ((flag, name) ∷ more) parts =
    let rest = variant_flags more parts in if some_equals name parts then bit_or flag rest else rest

-- ParseVariant
unfoldable pub parse_variant : Text → ℕ
unfolding variant_flags split_dashes
parse_variant s = variant_flags variant_names (split_dashes s)

unfoldable pub version_of : Option Text → Version
unfolding cut parse_version
version_of none = record { major = 0; minor = 0; patch = 0 }
version_of (some s) = (parse_version (cut b'-' s).0).value

abbrev label_of : Option Text → Option Text
unfolding cut
label_of none = none
label_of (some s) = (cut b'-' s).1

abbrev or_empty : Option Text → Text
or_empty none = []
or_empty (some s) = s

-- SplitVersionedIdentifier
unfoldable pub split_versioned_identifier : Text → Text × Version × Text
unfolding cut version_of label_of
split_versioned_identifier s =
    let (name, back) = cut b':' s in (name, version_of back, or_empty (label_of back))

abbrev with_variants : Flavor → ℕ → Flavor
with_variants fl variants =
    if variants != 0 then record fl { vendor = vendor_mysql; variants = variants } else fl

-- The flavor of a base and a version.
unfoldable pub flavor_for : Text → Version → Flavor
unfolding parse_vendor parse_variant vendor_eq
flavor_for base version =
    let flavor : Flavor = record { vendor = parse_vendor base; version = version; variants = 0 } in
    if flavor.vendor == vendor_unknown then with_variants flavor (parse_variant base) else flavor

-- ParseFlavor
unfoldable pub parse_flavor : Text → Flavor
unfolding split_versioned_identifier flavor_for
parse_flavor s =
    let (base, version, label) = split_versioned_identifier s in flavor_for base version

abbrev pub either_contains : Text → Text → Text → Bool
unfolding contains
either_contains a b sub = contains a sub || contains b sub

-- IdentifyFlavor's fallback by major version
unfoldable pub default_vendor : ℕ → Vendor
default_vendor major =
    if nat_beq major 10
    then vendor_mariadb
    else if nat_beq major 5 || nat_beq major 8
    then vendor_mysql
    else vendor_unknown

-- IdentifyFlavor
unfoldable pub identify_flavor : Text → Text → Flavor
unfolding parse_version contains vendor_string default_vendor
identify_flavor version_string version_comment =
    let version = (parse_version version_string).value in
    let named = either_contains (to_lower version_comment) (to_lower version_string) in
    if named (txt "percona")
    then record { vendor = vendor_mysql; version = version; variants = variant_percona }
    else if named (vendor_string vendor_mariadb)
    then record { vendor = vendor_mariadb; version = version; variants = 0 }
    else if named (vendor_string vendor_mysql)
    then record { vendor = vendor_mysql; version = version; variants = 0 }
    else record { vendor = default_vendor version.major; version = version; variants = 0 }

-- Flavor.String
unfoldable pub flavor_string : Flavor → Text
unfolding variant_string vendor_string itoa
flavor_string fl =
    let base = if fl.variants != 0 then variant_string fl.variants else vendor_string fl.vendor in
    let dotted = itoa fl.version.major ++ (txt "." ++ itoa fl.version.minor) in
    base ++ (txt ":" ++ (if ltb 0 fl.version.patch then version_string fl.version else dotted))
