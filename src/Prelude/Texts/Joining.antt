-- ===== src/Prelude/Texts/Joining.antt =====
-- Laws of strings.Join.
use Prim.Native.String.{String}
use mathlib.Core.Path.{◌≡◌, refl, ap, ◌∙◌}
use mathlib.Core.List.{List, [], ◌∷◌, ◌++◌}
use sibyl.Prelude.Texts.{joined, join}
use text.Mathlib.TextLemmas.{append_assoc}

pub join_none : "" ≡ join "\n\n" []
unfolding join
join_none = refl

pub join_one : (b : String) → b ≡ join "\n\n" (b ∷ [])
unfolding join
join_one b = refl

pub join-joined :
    (sep b s : String) (rest : List String)
    → join sep (joined (joined b sep) s ∷ rest) ≡ join sep (b ∷ s ∷ rest)
unfolding join
join-joined sep b s [] = append_assoc b sep s
join-joined sep b s (r ∷ rest) =
    append_assoc (joined b sep) s (joined sep (join sep (r ∷ rest)))
    ∙ append_assoc b sep (joined s (joined sep (join sep (r ∷ rest))))

pub join-append_one :
    (b x s : String) (rest : List String)
    → joined (joined (join b (x ∷ rest)) b) s ≡ join b (x ∷ (rest ++ s ∷ []))
unfolding join
join-append_one b x s [] = append_assoc x b s
join-append_one b x s (r ∷ rest) =
    ap (λ t. joined t s) (append_assoc x (joined b (join b (r ∷ rest))) b)
    ∙ append_assoc x (joined (joined b (join b (r ∷ rest))) b) s
    ∙ ap (joined x) (
        ap (λ t. joined t s) (append_assoc b (join b (r ∷ rest)) b)
        ∙ append_assoc b (joined (join b (r ∷ rest)) b) s
        ∙ ap (joined b) (join-append_one b r s rest))

pub join-joined_first :
    (sep b s : String) (rest : List String)
    → join sep (joined b s ∷ rest) ≡ joined b (join sep (s ∷ rest))
unfolding join
join-joined_first sep b s [] = refl
join-joined_first sep b s (r ∷ rest) = append_assoc b s (joined sep (join sep (r ∷ rest)))
