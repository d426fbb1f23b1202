-- ===== src/Flavor/ReadBack.antt =====
-- What is printed of a flavor is read back, and what is read of components beyond 16 bits.
use mathlib.Core.Path.{subst}
use skeema.Prelude.{
  ℕ, ◌<◌, ◌⊎◌, inl, inr, true, false, ◌++◌, none, some, Text, txt, ◌≡◌, refl, ap, ◌∙◌, sym, arith,
  if◌then◌else◌, ltb, nat_beq, is_digit, itoa, Bool-cases, All-append, nat_eq, ◌!=◌, ◌&&◌,
}
use skeema.Flavor.{
  Vendor, vendor_unknown, vendor_mysql, vendor_mariadb, vendor_eq, vendor_string, Version,
  IsVersion, Flavor, version_string,
}
use skeema.Flavor.Parse.{
  cut, parse_uint16, patch_part, minor_parts, parse_version, variant_string,
  split_versioned_identifier, version_of, parse_flavor, flavor_string, flavor_for,
}
use skeema.Flavor.Digits.{
  Digits-Without, Without, cut-append, cut-none, from_digit-Digits, itoa-Digits, parse_uint16-itoa,
  parse_uint16-saturated, take_digits-Digits,
}

abbrev dotted : ℕ → Text → Text
dotted n rest = itoa n ++ (txt "." ++ rest)

cut-dotted : (n : ℕ) (rest : Text) → cut b'.' (dotted n rest) ≡ (itoa n, some rest)
cut-dotted n rest =
    cut-append b'.' (itoa n) rest (Digits-Without b'.' (itoa n) refl (itoa-Digits n))

cut_last : (n : ℕ) → cut b'.' (itoa n) ≡ (itoa n, none)
cut_last n = cut-none b'.' (itoa n) (Digits-Without b'.' (itoa n) refl (itoa-Digits n))

patch_part-itoa : (n : ℕ) → n < 65536 → patch_part (some (itoa n)) ≡ record { value = n; ok = true }
unfolding patch_part
patch_part-itoa n h =
    ap parse_uint16 (take_digits-Digits (itoa n) (itoa-Digits n)) ∙ parse_uint16-itoa n h

minor_parts-dotted :
    (minor patch : ℕ)
    → minor < 65536
    → patch < 65536
    → minor_parts (some (dotted minor (itoa patch))) ≡ record { value = (minor, patch); ok = true }
unfolding minor_parts
minor_parts-dotted minor patch h k =
    rw (cut-dotted minor (itoa patch), parse_uint16-itoa minor h, patch_part-itoa patch k) refl

minor_parts-itoa :
    (minor : ℕ)
    → minor < 65536
    → minor_parts (some (itoa minor)) ≡ record { value = (minor, 0); ok = true }
unfolding minor_parts patch_part
minor_parts-itoa minor h = rw (cut_last minor, parse_uint16-itoa minor h) refl

parse_version-dotted :
    (major : ℕ) (rest : Text)
    → major < 65536
    → parse_version (dotted major rest) ≡ record {
      value = record {
        major = major;
        minor = (minor_parts (some rest)).value.0;
        patch = (minor_parts (some rest)).value.1;
      };
      ok = (minor_parts (some rest)).ok;
    }
unfolding parse_version
parse_version-dotted major rest h =
    rw
      (
        cut-dotted major rest,
        from_digit-Digits (itoa major) (itoa-Digits major),
        parse_uint16-itoa major h,
      )
      refl

-- ParseVersion reads a version of 16-bit components back from what Version.String prints of it,
-- without an error.
pub parse_version-version_string :
    (v : Version) → IsVersion v → parse_version (version_string v) ≡ record { value = v; ok = true }
parse_version-version_string v h =
    parse_version-dotted v.major (dotted v.minor (itoa v.patch)) h.major_lt
    ∙ rw (minor_parts-dotted v.minor v.patch h.minor_lt h.patch_lt) refl

Without-append : (sep : ℕ) (a b : Text) → Without sep a → Without sep b → Without sep (a ++ b)
unfolding Without
Without-append sep a b h k = All-append (λ c. nat_beq c sep ≡ false) a b h k

itoa-Without : (sep n : ℕ) → is_digit sep ≡ false → Without sep (itoa n)
itoa-Without sep n h = Digits-Without sep (itoa n) h (itoa-Digits n)

dotted-Without : (n : ℕ) (rest : Text) → Without b'-' rest → Without b'-' (dotted n rest)
unfolding Without
dotted-Without n rest h =
    Without-append b'-' (itoa n) (txt "." ++ rest) (itoa-Without b'-' n refl) (refl, h)

-- A base, a colon and a version without a label.
parse_flavor-parts :
    (base version : Text) (v : Version)
    → Without b':' base
    → Without b'-' version
    → (parse_version version).value ≡ v
    → parse_flavor (base ++ (txt ":" ++ version)) ≡ flavor_for base v
unfolding parse_flavor split_versioned_identifier version_of
parse_flavor-parts base version v h k e =
    rw (cut-append b':' base version h, cut-none b'-' version k, e) refl

-- What Flavor.String prints behind the colon.
version_part : Version → Text
version_part v = if ltb 0 v.patch then version_string v else dotted v.major (itoa v.minor)

version_part_lem :
    (v : Version)
    → IsVersion v
    → Without b'-' (version_part v) × ((parse_version (version_part v)).value ≡ v)
unfolding version_part
version_part_lem v h = elim (Bool-cases (ltb 0 v.patch)) [
  | inl e ↦ rw e (
    dotted-Without v.major (dotted v.minor (itoa v.patch))
        (dotted-Without v.minor (itoa v.patch) (itoa-Without b'-' v.patch refl)),
    ap (λ r. r.value) (parse_version-version_string v h),
  )
  | inr e ↦
      let zero_patch : v.patch ≡ 0 = ground arith in
      rw e (
        dotted-Without v.major (itoa v.minor) (itoa-Without b'-' v.minor refl),
        ap (λ r. r.value) (parse_version-dotted v.major (itoa v.minor) h.major_lt)
            ∙ rw (minor_parts-itoa v.minor h.minor_lt, zero_patch) refl,
      )
]

abbrev base_text : Vendor → ℕ → Text
base_text vendor variants = if variants != 0 then variant_string variants else vendor_string vendor

-- A base whose flavor has the given vendor and variants, whatever the version.
abbrev Names : Text → Vendor → ℕ → Type 0
Names base vendor variants =
    Without b':' base
    × ((v : Version)
        → flavor_for base v ≡ record { vendor = vendor; version = v; variants = variants })

vendor_Names : (vendor : Vendor) → Names (base_text vendor 0) vendor 0
unfolding vendor_string flavor_for Without
vendor_Names vendor_unknown =
    ((refl, (refl, (refl, (refl, (refl, (refl, (refl, tt))))))), λ v. refl)
vendor_Names vendor_mysql = ((refl, (refl, (refl, (refl, (refl, tt))))), λ v. refl)
vendor_Names vendor_mariadb =
    ((refl, (refl, (refl, (refl, (refl, (refl, (refl, tt))))))), λ v. refl)

percona_Names : Names (base_text vendor_mysql 1) vendor_mysql 1
unfolding variant_string flavor_for Without
percona_Names = ((refl, (refl, (refl, (refl, (refl, (refl, (refl, tt))))))), λ v. refl)

aurora_Names : Names (base_text vendor_mysql 2) vendor_mysql 2
unfolding variant_string flavor_for Without
aurora_Names = ((refl, (refl, (refl, (refl, (refl, (refl, tt)))))), λ v. refl)

-- The flavors that ParseFlavor gives: of any vendor without variants, or of MySQL with a variant.
abbrev pub Parseable : Vendor → ℕ → Type 0
Parseable vendor variants =
    (variants ≡ 0) ⊎ ((vendor ≡ vendor_mysql) × ((variants ≡ 1) ⊎ (variants ≡ 2)))

Parseable-Names :
    (vendor : Vendor) (variants : ℕ)
    → Parseable vendor variants
    → Names (base_text vendor variants) vendor variants
Parseable-Names vendor variants (inl none_set) =
    subst (λ n. Names (base_text vendor n) vendor n) (sym none_set) (vendor_Names vendor)
Parseable-Names vendor variants (inr (mysql, inl percona)) =
    subst (λ n. Names (base_text vendor n) vendor n) (sym percona)
      (subst (λ w. Names (base_text w 1) w 1) (sym mysql) percona_Names)
Parseable-Names vendor variants (inr (mysql, inr aurora)) =
    subst (λ n. Names (base_text vendor n) vendor n) (sym aurora)
      (subst (λ w. Names (base_text w 2) w 2) (sym mysql) aurora_Names)

-- ParseFlavor reads a flavor with a version of 16-bit components back from what Flavor.String
-- prints of it, if it is of any vendor without variants, or of MySQL with one of the two variants.
pub parse_flavor-flavor_string :
    (fl : Flavor)
    → IsVersion fl.version
    → Parseable fl.vendor fl.variants
    → parse_flavor (flavor_string fl) ≡ fl
unfolding flavor_string version_part
parse_flavor-flavor_string fl h known =
    let (no_colon, named) = Parseable-Names fl.vendor fl.variants known in
    let (no_dash, read) = version_part_lem fl.version h in
    parse_flavor-parts (base_text fl.vendor fl.variants) (version_part fl.version) fl.version
      no_colon no_dash read
    ∙ named fl.version

-- ParseVersion of three numbers in decimal, with dots between them, whatever their size: a number of
-- 16 bits is its component, one beyond becomes 65535, and there is an error exactly if some number is
-- beyond 16 bits.
pub parse_version_saturates :
    (major minor patch : ℕ)
    → parse_version (itoa major ++ (txt "." ++ (itoa minor ++ (txt "." ++ itoa patch)))) ≡ record {
      value = record {
        major = if ltb major 65536 then major else 65535;
        minor = if ltb minor 65536 then minor else 65535;
        patch = if ltb patch 65536 then patch else 65535;
      };
      ok = ltb major 65536 && (ltb minor 65536 && ltb patch 65536);
    }
unfolding parse_version minor_parts patch_part
parse_version_saturates major minor patch =
    rw
      (
        cut-dotted major (dotted minor (itoa patch)),
        from_digit-Digits (itoa major) (itoa-Digits major),
        parse_uint16-saturated major,
        cut-dotted minor (itoa patch),
        parse_uint16-saturated minor,
        take_digits-Digits (itoa patch) (itoa-Digits patch),
        parse_uint16-saturated patch,
      )
      refl
