-- ===== src/Session/Description/Examples.antt =====
-- A session of four validators of weight 1, for the tests, and runs of session_description.rs on it.
use ton_labs_node.Base.{
  ℕ, suc, ◌+◌, ◌*◌, ◌%◌, ◌<◌, ◌≡◌, refl, Bool, true, false, List, [], ◌∷◌, ◌==◌, done, ◌>>=◌, arith,
  ◌↔◌, ◌⊎◌, leb,
}
use ton_labs_node.Session.Description.{
  pos, negsuc, default_options, SessionNode, Crypto, SessionDescription, new, lookup,
  get_source_public_key_hash, get_source_index, get_node_priority, weigh,
}
use ton_labs_node.Session.Description.Weights.{
  IsWeighed, weight_of, weight_both, weigh-lem, quorums_overlap, new-IsWeighed,
}
use ton_labs_node.Session.Description.Priority.{IsSized, node_priority_unique, node_priority_bounds}
use ton_labs_node.Session.Description.Sources.{
  AllDistinct, source_index-public_key_hash, self_idx-local_id,
}

-- A signature is valid when it begins with the public key.
abbrev signed_by : ℕ → List ℕ → Bool
signed_by key [] = false
signed_by key (x ∷ rest) = x == key

abbrev pub crypto : Crypto
crypto = record {
  key_id = λ k. k + 100;
  candidate_hash = λ i r f c. suc (i * 1000 + r);
  verify_block = λ key r f. signed_by key;
  verify_approve = λ key r f. signed_by key;
}

abbrev pub nodes : List SessionNode
nodes =
    record { public_key = 1; adnl_id = 11; weight = 1 }
    ∷ record { public_key = 2; adnl_id = 12; weight = 1 }
    ∷ record { public_key = 3; adnl_id = 13; weight = 1 }
    ∷ record { public_key = 4; adnl_id = 14; weight = 1 }
    ∷ []

abbrev four : SessionDescription
four = record {
  options = default_options;
  sources =
      record { id = 101; public_key = 1; adnl_id = 11; weight = 1 }
      ∷ record { id = 102; public_key = 2; adnl_id = 12; weight = 1 }
      ∷ record { id = 103; public_key = 3; adnl_id = 13; weight = 1 }
      ∷ record { id = 104; public_key = 4; adnl_id = 14; weight = 1 }
      ∷ [];
  rev_sources = (104, 3) ∷ (103, 2) ∷ (102, 1) ∷ (101, 0) ∷ [];
  cutoff_weight = 3;
  total_weight = 4;
  self_idx = 1;
  crypto = crypto;
}

-- `new` makes this session for the second validator.
four_created : new default_options crypto nodes 102 ≡ done four
unfolding new lookup
four_created = refl

four-IsWeighed : IsWeighed four
four-IsWeighed = record { total = refl; cutoff = refl; fits = omega arith }

four-IsSized : IsSized four
four-IsSized = (omega arith, omega arith)

-- The first validator alone carries the cutoff weight.
abbrev pub heavy : SessionDescription
heavy = record four {
  sources =
      record { id = 101; public_key = 1; adnl_id = 11; weight = 7 }
      ∷ record { id = 102; public_key = 2; adnl_id = 12; weight = 1 }
      ∷ record { id = 103; public_key = 3; adnl_id = 13; weight = 1 }
      ∷ record { id = 104; public_key = 4; adnl_id = 14; weight = 1 }
      ∷ [];
  cutoff_weight = 7;
  total_weight = 10;
}

pub heavy-IsWeighed : IsWeighed heavy
heavy-IsWeighed = record { total = refl; cutoff = refl; fits = omega arith }

pub heavy-IsSized : IsSized heavy
heavy-IsSized = (omega arith, omega arith)

-- Flags of the first three and of the last three validators.
abbrev flag : Bool → Bool
flag b = b

abbrev first_three : List Bool
first_three = true ∷ true ∷ true ∷ false ∷ []

abbrev last_three : List Bool
last_three = false ∷ true ∷ true ∷ true ∷ []

first_three_pass : weigh flag four first_three ≡ done true
unfolding weigh
first_three_pass = refl

last_three_pass : weigh flag four last_three ≡ done true
unfolding weigh
last_three_pass = refl

quorums_overlap_example : 4 < 3 * weight_both flag flag four.sources first_three last_three
quorums_overlap_example =
    quorums_overlap flag flag four first_three last_three four-IsWeighed (omega arith) (omega arith)
      first_three_pass last_three_pass

weigh-lem_example :
    weigh flag four first_three ≡ done (leb 3 (weight_of flag four.sources first_three))
weigh-lem_example = weigh-lem flag four first_three four-IsWeighed (omega arith)

new-IsWeighed_example : IsWeighed four
new-IsWeighed_example =
    new-IsWeighed default_options crypto nodes 102 four (omega arith) four_created

node_priority_unique_example : (get_node_priority four 1 7 ≡ done (pos 2)) ↔ (1 ≡ (7 + 2) % 4)
node_priority_unique_example =
    node_priority_unique four four-IsSized 7 1 (omega arith) 2 (omega arith) (omega arith)

second_in_round_seven : get_node_priority four 1 7 ≡ done (pos 2)
unfolding get_node_priority
second_in_round_seven = refl

node_priority_bounds_example : (pos 2 ≡ negsuc 0) ⊎ ((p : ℕ) × (pos 2 ≡ pos p) × (p < 3) × (p < 4))
node_priority_bounds_example =
    node_priority_bounds four four-IsSized 7 1 (omega arith) (pos 2) second_in_round_seven

self_idx-local_id_example : get_source_public_key_hash four 1 ≡ done 102
self_idx-local_id_example =
    self_idx-local_id default_options crypto nodes 102 four (omega arith) four_created

distinct : AllDistinct crypto nodes
distinct = (
  ((λ e. ground arith), ((λ e. ground arith), ((λ e. ground arith), tt))),
  (((λ e. ground arith), ((λ e. ground arith), tt)), (((λ e. ground arith), tt), (tt, tt))),
)

source_index-public_key_hash_example :
    (get_source_public_key_hash four 2 >>= get_source_index four) ≡ done 2
source_index-public_key_hash_example =
    source_index-public_key_hash default_options crypto nodes 102 four (omega arith) four_created
      distinct 2 (omega arith)
