-- ===== src/Authorization/Template/Replacing.antt =====
-- What replacing the variables of a subject gives.
use Prim.Native.String.{String, [], ◌∷◌}
use text.Mathlib.TextLemmas.{nil-append, cons-append, append-nil}
use research_service_workben.Base.{
  none, some, List, [], ◌∷◌, ◌≡◌, refl, ap, ◌∙◌, ◌≢◌, Result, ok, ◌<>◌, eq_iff, Without, arith,
}
use research_service_workben.Authorization.Template.{Piece, variable, scan, render, replace_params}

render-scan_plain :
    (value : String → Result String) (s : String)
    → Without b'$' s
    → render value (scan s).pieces ≡ ok s
unfolding render scan
render-scan_plain value [] h = refl
render-scan_plain value (c ∷ s) (h, hs) = rw h (rw (render-scan_plain value s hs))

close-none : (s : String) → Without b'}' s → (scan s).close ≡ none
unfolding scan
close-none [] h = refl
close-none (c ∷ s) (h, hs) = ground (arith, close-none s hs)

close-append :
    (k t n : String) (ps : List Piece)
    → Without b'{' k
    → (scan t).close ≡ some (n, ps)
    → (scan (k <> t)).close ≡ some (k <> n, ps)
unfolding scan
close-append [] t n ps h e = rw (nil-append, nil-append) e
close-append (c ∷ k) t n ps (h, hs) e =
    rw (cons-append, cons-append) (ground (arith, close-append k t n ps hs e))

close-brace : (b : String) → Without b'}' b → (scan ("}" <> b)).close ≡ some ("", (scan b).pieces)
unfolding scan
close-brace b hb = rw (cons-append, nil-append, close-none b hb)

close-name :
    (k b : String)
    → Without b'{' k
    → Without b'}' b
    → (scan (k <> "}" <> b)).close ≡ some (k, (scan b).pieces)
close-name k b hk hb =
    close-append k ("}" <> b) "" (scan b).pieces hk (close-brace b hb)
    ∙ ap (λ n. some (n, (scan b).pieces)) (append-nil k)

pieces-open :
    (t k : String) (ps : List Piece)
    → k ≢ ""
    → (scan t).close ≡ some (k, ps)
    → (scan ("${" <> t)).pieces ≡ variable k ∷ ps
unfolding scan
pieces-open t k ps ne e = rw (cons-append, cons-append, nil-append) (ground (arith, eq_iff k ""))

render-scan_append :
    (value : String → Result String) (a t : String) {r : String}
    → Without b'$' a
    → render value (scan t).pieces ≡ ok r
    → render value (scan (a <> t)).pieces ≡ ok (a <> r)
unfolding render scan
render-scan_append value [] t h e = rw (nil-append, nil-append) e
render-scan_append value (c ∷ a) t (h, hs) e =
    rw (cons-append, cons-append, h) (rw (render-scan_append value a t hs e))

rendered :
    (value : String → Result String) (k b v : String)
    → Without b'$' b
    → value k ≡ ok v
    → render value (variable k ∷ (scan b).pieces) ≡ ok (v <> b)
unfolding render
rendered value k b v hb e = rw (e, render-scan_plain value b hb)

-- In a text `a${k}b`, where `a` and `b` hold no `$`, `b` no `}` and the name `k` is not empty and
-- holds no `{`, the variable is replaced by its value and the rest is kept.
pub replace_params-variable :
    (value : String → Result String) (a k b v : String)
    → Without b'$' a
    → Without b'{' k
    → k ≢ ""
    → Without b'$' b
    → Without b'}' b
    → value k ≡ ok v
    → replace_params value (a <> "${" <> k <> "}" <> b) ≡ ok (a <> v <> b)
unfolding replace_params
replace_params-variable value a k b v ha hk ne hb hc e =
    render-scan_append value a ("${" <> k <> "}" <> b) ha (
      rw (pieces-open (k <> "}" <> b) k (scan b).pieces ne (close-name k b hk hc))
        (rendered value k b v hb e))
