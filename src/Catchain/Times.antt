-- ===== src/Catchain/Times.antt =====
-- How often a block or a source stands in a list.
use ton_labs_node.Base.{
  ℕ, ◌+◌, ◌≡◌, refl, ap, ◌∙◌, true, List, [], ◌∷◌, ◌++◌, ◌==◌, if◌then◌else◌, arith,
}

abbrev pub times : ℕ → List ℕ → ℕ
times id [] = 0
times id (other ∷ ids) = (if other == id then 1 else 0) + times id ids

pub times-append :
    (id : ℕ) (ids others : List ℕ) → times id (ids ++ others) ≡ times id ids + times id others
times-append id [] others = omega arith
times-append id (other ∷ ids) others =
    let here : ℕ = if other == id then 1 else 0 in
    ap (λ n. here + n) (times-append id ids others) ∙ omega arith

pub times_last : (id : ℕ) (ids : List ℕ) → times id (ids ++ id ∷ []) ≡ times id ids + 1
times_last id ids =
    let t : (id == id) ≡ true = ground arith in times-append id ids (id ∷ []) ∙ rw t refl
