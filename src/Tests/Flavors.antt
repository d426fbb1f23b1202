-- ===== src/Tests/Flavors.antt =====
-- Runs of the reading and printing of flavors, and the theorems applied to them.
use skeema.Prelude.{true, false, text_eq, ◌≡◌, refl, inl, inr, arith, txt, nat_eq, itoa, ◌++◌}
use skeema.Flavor.{
  Flavor, Version, IsVersion, vendor_mysql, vendor_eq, variant_percona, version_string,
}
use skeema.Flavor.Parse.{parse_version, parse_flavor, flavor_string}
use skeema.Flavor.ReadBack.{
  parse_version-version_string, parse_flavor-flavor_string, parse_version_saturates,
}

abbrev v8_0_32 : Version
v8_0_32 = record { major = 8; minor = 0; patch = 32 }

v8_0_32-IsVersion : IsVersion v8_0_32
v8_0_32-IsVersion = record {
  major_lt = omega arith;
  minor_lt = omega arith;
  patch_lt = omega arith;
}

abbrev percona : Flavor
percona = record { vendor = vendor_mysql; version = v8_0_32; variants = variant_percona }

percona_text : flavor_string percona ≡ txt "percona:8.0.32"
unfolding flavor_string
percona_text = refl

-- The suffix of the second part is not ignored.
suffix_in_minor :
    parse_version (txt "5.7-log")
    ≡ record { value = record { major = 5; minor = 0; patch = 0 }; ok = false }
unfolding parse_version
suffix_in_minor = refl

parse_version-version_string_example :
    parse_version (version_string v8_0_32) ≡ record { value = v8_0_32; ok = true }
parse_version-version_string_example = parse_version-version_string v8_0_32 v8_0_32-IsVersion

parse_flavor-flavor_string_example : parse_flavor (flavor_string percona) ≡ percona
parse_flavor-flavor_string_example =
    parse_flavor-flavor_string percona v8_0_32-IsVersion (inr (refl, inl refl))

parse_version_saturates_example :
    parse_version (itoa 5 ++ (txt "." ++ (itoa 99999 ++ (txt "." ++ itoa 65535))))
    ≡ record { value = record { major = 5; minor = 65535; patch = 65535 }; ok = false }
parse_version_saturates_example = parse_version_saturates 5 99999 65535
