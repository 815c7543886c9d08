-- ===== src/Http.antt =====
-- internal/interfaces/http/respond.go: the status of an error, and the numbers of a query.
pub mod Numbers
pub mod Webhook
use talos_app.Prelude.{
  ℕ, ◌+◌, ◌-◌, ◌*◌, ◌%◌, ◌^◌, Bool, true, false, List, [], ◌∷◌, ◌||◌, ltb, if◌then◌else◌,
}
use talos_app.Shared.{
  Error, is, sentinel, not_found, already_exists, conflict, invalid_input, unauthorized, forbidden,
  not_implemented, capability_unmet, precondition_fail, Page, default_page,
}
use talos_app.Exec.{Result, ok, err}

-- The `switch` of `writeError`.
unfoldable pub status_code : Error → ℕ
status_code x =
    if is x not_found
    then 404
    else if is x already_exists || is x conflict
    then 409
    else if is x invalid_input
    then 400
    else if is x unauthorized
    then 401
    else if is x forbidden
    then 403
    else if is x not_implemented || is x capability_unmet
    then 501
    else if is x precondition_fail
    then 412
    else 500

-- Go's `int` is 64 bits wide and wraps; it is kept as its residue.
abbrev pub word : ℕ → ℕ
word n = n % 2 ^ 64

-- The loop of `parsePositiveInt` over the code points of the text.
unfoldable pub parse_from : ℕ → List ℕ → Result ℕ
parse_from n [] = ok n
parse_from n (c ∷ rest) =
    let result = parse_from (word (n * 10 + (c - 48))) rest in
    if ltb c 48 || ltb 57 c then err (sentinel invalid_input) else result

unfoldable pub parse_positive_int : List ℕ → Result ℕ
unfolding parse_from
parse_positive_int text = parse_from 0 text

-- A parameter of a query: an absent one and a refused one leave the default.
unfoldable pub parameter : ℕ → List ℕ → ℕ
parameter default [] = default
parameter default (c ∷ rest) = elim (parse_positive_int (c ∷ rest)) [ ok n ↦ n | err x ↦ default ]

unfoldable pub page_from_query : List ℕ → List ℕ → Page
unfolding parameter
page_from_query limit offset = record {
  limit = parameter default_page.limit limit;
  offset = parameter default_page.offset offset;
}
