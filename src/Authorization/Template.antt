-- ===== src/Authorization/Template.antt =====
-- The variables `${name}` in the subjects of a route's dynamic operations, as isAuthorizedOnRoute
-- replaces them: `value.replace(/\${([^{]+)}/g, …)`. From `${` on the expression takes the
-- characters up to the next `{` or the end, and goes back to the last `}` among them.
pub mod Replacing
use Prim.Native.Char.{Char, code}
use Prim.Native.String.{String, [], ◌∷◌}
use research_service_workben.Base.{
  ℕ, Bool, true, false, Option, none, some, List, [], ◌∷◌, if◌then◌else◌, Result, ok, err, ◌>>?◌,
  nat_eq, ◌<>◌, ◌==◌, is_some,
}

pub data Piece : Type 0 where
  plain : Char → Piece
  variable : String → Piece

-- What is known of a rest of the text: its pieces; the name that ends at the last `}` before a
-- `{`, and the pieces behind that; and the same of the text behind a `{` that the rest begins with.
pub record Scan : Type 0 where
  pub pieces : List Piece
  pub close : Option (String × List Piece)
  pub opens : Option (String × List Piece)

abbrev grow :
    Char
    → Option (String × List Piece)
    → Option (String × List Piece)
    → Option (String × List Piece)
grow c (some (name, rest)) other = some (c ∷ name, rest)
grow c none other = other

-- A name has one character at least.
abbrev non_empty : Option (String × List Piece) → Option (String × List Piece)
non_empty none = none
non_empty (some (name, rest)) = if name == "" then none else some (name, rest)

abbrev emit : Char → Scan → List Piece
emit c r = elim (r.opens) [ none ↦ plain c ∷ r.pieces | some (name, rest) ↦ variable name ∷ rest ]

unfoldable pub scan : String → Scan
scan [] = record { pieces = []; close = none; opens = none }
scan (c ∷ s) =
    let r = scan s in
    record {
      pieces = if nat_eq (code c) b'$' then emit c r else plain c ∷ r.pieces;
      close =
          if nat_eq (code c) b'{'
          then none
          else grow c r.close (if nat_eq (code c) b'}' then some ("", r.pieces) else none);
      opens = if nat_eq (code c) b'{' then non_empty r.close else none;
    }

unfoldable pub render : (String → Result String) → List Piece → Result String
render value [] = ok ""
render value (plain c ∷ ps) = render value ps >>? λ rest. ok (c ∷ rest)
render value (variable name ∷ ps) = value name >>? λ v. render value ps >>? λ rest. ok (v <> rest)

-- `text.replace(paramRegex, (ignore, key) => value(key))`
unfoldable pub replace_params : (String → Result String) → String → Result String
replace_params value s = render value (scan s).pieces
