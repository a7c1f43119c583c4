-- ===== src/Catchain/Block/Heights/Examples.antt =====
-- Two blocks that know different forks.
use ton_labs_node.Base.{◌≡◌, [], ◌∷◌, max}
use ton_labs_node.Catchain.Block.{update_forks_dependency_heights}
use ton_labs_node.Catchain.Block.Heights.{height_in, update_forks_dependency_heights-max}

update_forks_dependency_heights-max_example :
    height_in (update_forks_dependency_heights (3 ∷ 1 ∷ []) (2 ∷ 4 ∷ 7 ∷ [])) 2
    ≡ max (height_in (3 ∷ 1 ∷ []) 2) (height_in (2 ∷ 4 ∷ 7 ∷ []) 2)
update_forks_dependency_heights-max_example =
    update_forks_dependency_heights-max (3 ∷ 1 ∷ []) (2 ∷ 4 ∷ 7 ∷ []) 2
