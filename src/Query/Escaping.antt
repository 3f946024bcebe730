-- ===== src/Query/Escaping.antt =====
-- escapeLike of internal/audit/model.go, as PostgreSQL reads a LIKE pattern.
use golang_restapi.Base.{
  String, Bool, true, false, ◌||◌, Option, none, some, ◌≡◌, refl, arith, ◌==◌, nat_eq,
  if◌then◌else◌,
}
use golang_restapi.Query.Audit.{escape_like}
use Prim.Native.Char.{Char, code}

abbrev cons_read : Char → Option String → Option String
cons_read c none = none
cons_read c (some s) = some (String.◌∷◌ c s)

-- The only text that a pattern matches: `none` for a pattern with a wildcard, or that ends in an
-- escape. The flag is whether a backslash came before.
unfoldable pub literal : Bool → String → Option String
literal false String.[] = some ""
literal true String.[] = none
literal true (String.◌∷◌ c s) = cons_read c (literal false s)
literal false (String.◌∷◌ c s) =
    let escaped = literal true s in
    let rest = literal false s in
    if code c == 92
    then escaped
    else if code c == 37 || code c == 95
    then none
    else cons_read c rest

-- A term that was escaped matches itself and nothing else: the pattern has no wildcard left, and
-- the text that it reads as is the term, whatever characters that has.
pub literal-escape_like : (s : String) → literal false (escape_like s) ≡ some s
unfolding literal escape_like
literal-escape_like String.[] = refl
literal-escape_like (String.◌∷◌ c s) = ground (arith, literal-escape_like s)
