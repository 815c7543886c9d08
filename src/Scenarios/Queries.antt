-- ===== src/Scenarios/Queries.antt =====
-- The numbers of a query.
use talos_app.Prelude.{ℕ, ◌≡◌, List, [], ◌∷◌}
use talos_app.Exec.{ok}
use talos_app.Http.{parse_positive_int}
use talos_app.Http.Numbers.{parse_decimal}

-- "18446744073709551617", which is 2 ^ 64 + 1.
abbrev too_large : List ℕ
too_large =
    49 ∷ 56 ∷ 52 ∷ 52 ∷ 54 ∷ 55 ∷ 52 ∷ 52 ∷ 48 ∷ 55 ∷ 51 ∷ 55 ∷ 48 ∷ 57 ∷ 53 ∷ 53 ∷ 49 ∷ 54 ∷ 49
    ∷ 55 ∷ []

parse_decimal_example : parse_positive_int too_large ≡ ok 1
parse_decimal_example = parse_decimal too_large
