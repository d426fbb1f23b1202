-- ===== src/Flavor/Order.antt =====
-- Version comparison is the lexicographic order, and Flavor.Min is a preorder that Matches refines.
use Prim.Native.Nat.{bit_and}
use skeema.Prelude.{◌+◌, ◌*◌, ◌≤◌, ◌<◌, ◌≡◌, ◌↔◌, ◌⊎◌, true, not, ◌∙◌, nat_beq_iff, arith, refl}
use skeema.Flavor.Bits.{Covers, Covers-refl, Covers-trans}
use skeema.Flavor.{
  Version, IsVersion, pack, at_least, below, Flavor, matches, min_flavor, vendor_eq,
}

-- Later or equal, component by component.
abbrev pub LexLe : Version → Version → Type 0
LexLe v w =
    (v.major < w.major)
    ⊎ ((v.major ≡ w.major) × ((v.minor < w.minor) ⊎ ((v.minor ≡ w.minor) × (v.patch ≤ w.patch))))

pub pack_value :
    (v : Version) → IsVersion v → pack v ≡ v.major * 4294967296 + v.minor * 65536 + v.patch
unfolding pack
pack_value v h = omega arith

-- Version.AtLeast, which compares packed numbers, on components of 16 bits: it is the
-- lexicographic order of (major, minor, patch).
pub at_least_iff_lex :
    (v w : Version) → IsVersion v → IsVersion w → (at_least v w ≡ true) ↔ LexLe w v
unfolding at_least
at_least_iff_lex v w hv hw = ground (arith, pack_value v hv, pack_value w hw)

below-at_least : (v w : Version) → below v w ≡ not (at_least v w)
unfolding below at_least
below-at_least v w = ground arith

-- What Flavor.Min tests, as a relation.
pub record Meets (fl other : Flavor) : Type 0 where
  pub vendor : fl.vendor ≡ other.vendor
  pub version : pack other.version ≤ pack fl.version
  pub variants : Covers fl.variants other.variants

pub min_flavor_iff : (fl other : Flavor) → (min_flavor fl other ≡ true) ↔ Meets fl other
unfolding min_flavor at_least
min_flavor_iff fl other = ground (
  arith,
  vendor_eq.beq_iff fl.vendor other.vendor,
  nat_beq_iff (bit_and fl.variants other.variants) other.variants,
)

min_flavor_refl : (a : Flavor) → min_flavor a a ≡ true
min_flavor_refl a =
    (min_flavor_iff a a).1
      (record { vendor = refl; version = omega arith; variants = Covers-refl a.variants })

-- Flavor.Min is transitive: what holds from a flavor on holds from every later one on, variants
-- included.
pub min_flavor_trans :
    (a b c : Flavor) → min_flavor a b ≡ true → min_flavor b c ≡ true → min_flavor a c ≡ true
min_flavor_trans a b c p q =
    let ab = (min_flavor_iff a b).0 p in
    let bc = (min_flavor_iff b c).0 q in
    (min_flavor_iff a c).1 (record {
      vendor = ab.vendor ∙ bc.vendor;
      version = omega arith;
      variants = Covers-trans a.variants b.variants c.variants ab.variants bc.variants;
    })

-- On versions of 16-bit components, a flavor that matches another one also meets it as a minimum.
pub matches-min_flavor :
    (fl other : Flavor)
    → IsVersion fl.version
    → IsVersion other.version
    → matches fl other ≡ true
    → min_flavor fl other ≡ true
unfolding matches min_flavor at_least
matches-min_flavor fl other hv hw h =
    ground (arith, pack_value fl.version hv, pack_value other.version hw)
