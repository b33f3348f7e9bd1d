-- ===== src/Encoding/Sort.antt =====
-- The order of strings and `sort` on them.
use vdsm_rs.Base.{Bool, true, false, ◌&&◌, ◌||◌, ◌==◌, ltb, List, [], ◌∷◌, if◌then◌else◌, Text}

-- `a <= b` on strings: by their bytes.
text_leb : Text → Text → Bool
text_leb [] t = true
text_leb (c ∷ s) [] = false
text_leb (c ∷ s) (d ∷ t) = ltb c d || ((c == d) && text_leb s t)

insert_text : Text → List Text → List Text
insert_text t [] = t ∷ []
insert_text t (u ∷ us) =
    let rest = insert_text t us in if text_leb t u then t ∷ u ∷ us else u ∷ rest

-- `sort_unstable` on strings.
unfoldable pub sort : List Text → List Text
unfolding insert_text text_leb
sort [] = []
sort (t ∷ ts) = insert_text t (sort ts)
