-- ===== src/Catchain/Block/Heights.antt =====
-- The heights of forks that a block depends on (received_block.rs,
-- `update_forks_dependency_heights`).
pub mod Examples
use ton_labs_node.Base.{
  ℕ, zero, suc, ◌+◌, ◌-◌, ◌≤◌, ◌<◌, ◌≡◌, refl, ap, ◌∙◌, List, [], ◌∷◌, ◌++◌, length, length-append,
  length-replicate, replicate, ltb, if◌then◌else◌, max, arith,
}
use ton_labs_node.Catchain.Block.{raise, update_forks_dependency_heights}

-- The height at which a fork is known; 0 if it is not.
abbrev pub height_in : List ℕ → ℕ → ℕ
height_in [] fork = 0
height_in (h ∷ heights) zero = h
height_in (h ∷ heights) (suc fork) = height_in heights fork

zeros : (n fork : ℕ) → height_in (replicate n 0) fork ≡ 0
zeros zero fork = refl
zeros (suc n) zero = refl
zeros (suc n) (suc fork) = zeros n fork

padded :
    (heights : List ℕ) (n fork : ℕ)
    → height_in (heights ++ replicate n 0) fork ≡ height_in heights fork
padded [] n fork = zeros n fork
padded (h ∷ heights) n zero = refl
padded (h ∷ heights) n (suc fork) = padded heights n fork

raise-max :
    (heights others : List ℕ) (fork : ℕ)
    → length others ≤ length heights
    → height_in (raise heights others) fork ≡ max (height_in heights fork) (height_in others fork)
unfolding raise
raise-max heights [] fork l = omega arith
raise-max [] (o ∷ others) fork l = absurd (omega arith)
raise-max (h ∷ heights) (o ∷ others) zero l = ground arith
raise-max (h ∷ heights) (o ∷ others) (suc fork) l = raise-max heights others fork (omega arith)

-- With the heights of another block taken over, each fork is known at the greater of the two
-- heights, where a fork that is not known has the height 0.
pub update_forks_dependency_heights-max :
    (heights others : List ℕ) (fork : ℕ)
    → height_in (update_forks_dependency_heights heights others) fork
      ≡ max (height_in heights fork) (height_in others fork)
unfolding update_forks_dependency_heights
update_forks_dependency_heights-max heights others fork =
    let n = length others - length heights in
    let none : ℕ = 0 in
    let long : length others ≤ length (heights ++ replicate n 0) =
      omega (arith, length-append heights (replicate n 0), length-replicate n none) in
    raise-max (heights ++ replicate n 0) others fork long
    ∙ ap (λ x. max x (height_in others fork)) (padded heights n fork)
