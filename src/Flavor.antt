-- ===== src/Flavor.antt =====
-- Vendors, versions, variants and flavors of internal/tengo/flavor.go. A Version is the Go array
-- [3]uint16; a Variant is a uint32 of flags.
pub mod Digits
mod Bits
pub mod Order
pub mod Capability
pub mod Parse
pub mod ReadBack
use Prim.Native.Nat.{bit_and}
use skeema.Prelude.{
  ℕ, suc, ◌+◌, ◌*◌, ◌%◌, ◌^◌, ◌<◌, ◌≡◌, Bool, true, false, not, ◌&&◌, ◌||◌, List, [], ◌∷◌, ltb, leb,
  ◌==◌, ◌!=◌, nat_eq, Eq, discrete_eq, if◌then◌else◌, Text, txt, itoa, ◌++◌, ℕ_discrete,
}

pub data Vendor : Type 0 where
  vendor_unknown vendor_mysql vendor_mariadb : Vendor

pub Vendor-discrete : Discrete Vendor
Vendor-discrete = hlevel

instance unfoldable pub vendor_eq : Eq Vendor
unfolding Vendor-discrete
vendor_eq = discrete_eq Vendor-discrete

unfoldable pub vendor_string : Vendor → Text
vendor_string vendor_mysql = txt "mysql"
vendor_string vendor_mariadb = txt "mariadb"
vendor_string vendor_unknown = txt "unknown"

pub record Version : Type 0 where
  pub major : ℕ
  pub minor : ℕ
  pub patch : ℕ

-- Every component is a uint16.
pub record IsVersion (v : Version) : Type 0 where
  pub major_lt : v.major < 65536
  pub minor_lt : v.minor < 65536
  pub patch_lt : v.patch < 65536

-- uint64 arithmetic, with its wrap-around
unfoldable pub pack : Version → ℕ
pack v = ((v.major * 2 ^ 32) % 2 ^ 64 + (v.minor * 2 ^ 16) % 2 ^ 64 + v.patch) % 2 ^ 64

unfoldable pub at_least : Version → Version → Bool
at_least v other = leb (pack other) (pack v)

unfoldable pub below : Version → Version → Bool
below v other = ltb (pack v) (pack other)

abbrev pub variant_percona : ℕ
variant_percona = 1

abbrev pub variant_aurora : ℕ
variant_aurora = 2

pub record Flavor : Type 0 where
  pub vendor : Vendor
  pub version : Version
  pub variants : ℕ

abbrev flavor_of : Vendor → ℕ → ℕ → Flavor
flavor_of vendor major minor = record {
  vendor = vendor;
  version = record { major = major; minor = minor; patch = 0 };
  variants = 0;
}

abbrev pub flavor_mysql : ℕ → ℕ → Flavor
flavor_mysql = flavor_of vendor_mysql

abbrev pub flavor_mariadb : ℕ → ℕ → Flavor
flavor_mariadb = flavor_of vendor_mariadb

-- uint16(patch)
unfoldable pub dot : Flavor → ℕ → Flavor
dot fl patch = record fl {
  version = record { major = fl.version.major; minor = fl.version.minor; patch = patch % 65536 };
}

abbrev pub family : Flavor → Flavor
family fl = dot fl 0

unfoldable pub has_variant : Flavor → ℕ → Bool
has_variant fl variant = bit_and fl.variants variant == variant

unfoldable pub matches : Flavor → Flavor → Bool
matches fl other =
    if fl.vendor != other.vendor
      || fl.version.major != other.version.major
      || fl.version.minor != other.version.minor
    then false
    else if ltb 0 other.version.patch && fl.version.patch != other.version.patch
    then false
    else bit_and fl.variants other.variants == other.variants

-- Flavor.Min
unfoldable pub min_flavor : Flavor → Flavor → Bool
min_flavor fl other =
    fl.vendor == other.vendor
    && at_least fl.version other.version
    && (bit_and fl.variants other.variants == other.variants)

unfoldable pub matches_any : Flavor → List Flavor → Bool
unfolding matches
matches_any fl [] = false
matches_any fl (other ∷ others) = matches fl other || matches_any fl others

unfoldable pub is_mysql : Flavor → Bool
unfolding vendor_eq
is_mysql fl = fl.vendor == vendor_mysql

unfoldable pub is_mariadb : Flavor → Bool
unfolding vendor_eq
is_mariadb fl = fl.vendor == vendor_mariadb

unfoldable pub supported : Flavor → Bool
supported fl = elim fl.vendor [
  | vendor_mysql ↦
      at_least fl.version (record { major = 5; minor = 5; patch = 0 })
      && below fl.version (record { major = 8; minor = 1; patch = 0 })
  | vendor_mariadb ↦
      at_least fl.version (record { major = 10; minor = 1; patch = 0 })
      && below fl.version (record { major = 11; minor = 0; patch = 0 })
  | vendor_unknown ↦ false
]

unfoldable pub known : Flavor → Bool
unfolding vendor_eq
known fl = (fl.vendor != vendor_unknown) && ltb 0 fl.version.major

abbrev pub version_string : Version → Text
version_string v = itoa v.major ++ (txt "." ++ (itoa v.minor ++ (txt "." ++ itoa v.patch)))
