-- ===== src/Flavor/Capability.antt =====
-- The capability methods at the end of internal/tengo/flavor.go.
use skeema.Prelude.{
  ℕ, Bool, true, false, not, ◌&&◌, ◌||◌, List, [], ◌∷◌, leb, ◌==◌, nat_eq, Eq, discrete_eq,
  if◌then◌else◌, ℕ_discrete,
}
use skeema.Flavor.{Flavor, flavor_mysql, flavor_mariadb, dot, family, matches, min_flavor}

unfoldable pub generated_columns : Flavor → Bool
generated_columns fl = min_flavor fl (flavor_mysql 5 7) || min_flavor fl (flavor_mariadb 10 2)

unfoldable pub sorted_foreign_keys : Flavor → Bool
sorted_foreign_keys fl =
    not (matches fl (flavor_mysql 5 5)) && not (min_flavor fl (dot (flavor_mysql 8 0) 19))

unfoldable pub omit_int_display_width : Flavor → Bool
omit_int_display_width fl = min_flavor fl (dot (flavor_mysql 8 0) 19)

unfoldable pub has_check_constraints : Flavor → Bool
has_check_constraints fl =
    if min_flavor fl (dot (flavor_mysql 8 0) 16) || min_flavor fl (dot (flavor_mariadb 10 3) 10)
    then true
    else matches fl (flavor_mariadb 10 2) && leb 22 fl.version.patch

pub Flavor-discrete : Discrete Flavor
Flavor-discrete = hlevel ℕ_discrete

instance unfoldable pub flavor_eq : Eq Flavor
unfolding Flavor-discrete ℕ_discrete
flavor_eq = discrete_eq Flavor-discrete

-- The keys and values of mariaPatchAlwaysCollate.
abbrev pub maria_patch_always_collate : List (Flavor × ℕ)
maria_patch_always_collate =
    (flavor_mariadb 10 3, 37)
    ∷ (flavor_mariadb 10 4, 27)
    ∷ (flavor_mariadb 10 5, 18)
    ∷ (flavor_mariadb 10 6, 11)
    ∷ (flavor_mariadb 10 7, 7)
    ∷ (flavor_mariadb 10 8, 6)
    ∷ (flavor_mariadb 10 9, 4)
    ∷ []

-- A missing key of the Go map gives the zero value.
patch_of : List (Flavor × ℕ) → Flavor → ℕ
patch_of [] fl = 0
patch_of ((key, patch) ∷ rest) fl = if key == fl then patch else patch_of rest fl

unfoldable pub always_show_collate : Flavor → Bool
unfolding patch_of
always_show_collate fl =
    if not (min_flavor fl (flavor_mariadb 10 3))
    then false
    else if min_flavor fl (dot (flavor_mariadb 10 10) 2)
    then true
    else leb (patch_of maria_patch_always_collate (family fl)) fl.version.patch
