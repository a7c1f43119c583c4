-- ===== src/Session/Description/Priority.antt =====
-- Who may propose a block in a round (`get_node_priority` of session_description.rs).
use native.Mathlib.Nat.{mod-lt, mod-eq_of_lt, mod-eq-sub-mod, mod-add-mod}
use ton_labs_node.Base.{
  ℕ, ◌+◌, ◌-◌, ◌*◌, ◌%◌, ◌≤◌, ◌<◌, ◌≡◌, ltb, if◌then◌else◌, length, done, arith, Bool-cases, ltb→lt,
  ◌∙◌, ◌⊎◌, ◌↔◌, inl, inr, u32,
}
use ton_labs_node.Session.Description.{
  ℤ, pos, negsuc, SessionDescription, get_node_priority, get_vote_for_author,
}

-- At least one validator, and so few that twice their number fits a `u32`.
abbrev pub IsSized : SessionDescription → Type 0
IsSized desc = (0 < length desc.sources) × (length desc.sources * 2 < 4294967296)

-- How far after `start` the place `src` stands, counted round a circle of `n`.
abbrev turn : ℕ → ℕ → ℕ → ℕ
turn n start src = if ltb src start then src + n - start else src - start

mod_once : (m n : ℕ) → m < n * 2 → 0 < n → m % n ≡ (if ltb m n then m else m - n)
mod_once m n h p = elim (Bool-cases (ltb m n)) [
  | inl t ↦ rw t (mod-eq_of_lt (ltb→lt m n t))
  | inr t ↦
      rw t (mod-eq-sub-mod (let le : n ≤ m = ground arith in le) ∙ mod-eq_of_lt (ground arith))
]

turn-add : (n start p : ℕ) → start < n → p < n → turn n start ((start + p) % n) ≡ p
turn-add n start p hs hp = ground (arith, mod_once (start + p) n)

add-turn : (n start src : ℕ) → start < n → src < n → (start + turn n start src) % n ≡ src
add-turn n start src hs hp = ground (arith, mod_once (start + turn n start src) n)

module _ (desc : SessionDescription) (sized : IsSized desc) (round src : ℕ)
    (known : src < length desc.sources) where
  pub priority_turn :
      get_node_priority desc src round
      ≡ done (
          let t = turn (length desc.sources) (round % length desc.sources) src in
          if ltb t desc.options.round_candidates then pos t else negsuc 0)
  unfolding get_node_priority
  priority_turn =
      ground (arith, mod-eq_of_lt {n = length desc.sources} {m = 4294967296} (omega arith))

  -- In a sized session, and for a priority below both `round_candidates` and the number of
  -- validators, a known validator has that priority in a round exactly when it stands that many
  -- places after the round's first validator.
  pub node_priority_unique :
      (p : ℕ)
      → p < desc.options.round_candidates
      → p < length desc.sources
      → (get_node_priority desc src round ≡ done (pos p))
        ↔ (src ≡ (round + p) % length desc.sources)
  node_priority_unique p hc hn =
      let n = length desc.sources in
      let start = round % length desc.sources in
      (
        λ h. ground (
          arith,
          priority_turn,
          add-turn n start src (mod-lt round (omega arith)) known,
          mod-add-mod round n p,
        ),
        λ h. ground (
          arith,
          priority_turn,
          turn-add n start p (mod-lt round (omega arith)) hn,
          mod-add-mod round n p,
        ),
      )

  -- In a sized session the priority of a known validator is below `round_candidates` and the
  -- number of validators, or it is -1.
  pub node_priority_bounds :
      (q : ℤ)
      → get_node_priority desc src round ≡ done q
      → (q ≡ negsuc 0)
        ⊎ ((p : ℕ) × (q ≡ pos p) × (p < desc.options.round_candidates) × (p < length desc.sources))
  node_priority_bounds q h =
      elim (Bool-cases (
        ltb (turn (length desc.sources) (round % length desc.sources) src)
          desc.options.round_candidates)) [
            | inl t ↦ inr (
              turn (length desc.sources) (round % length desc.sources) src,
              ground (arith, priority_turn),
              ltb→lt _ _ t,
              ground (arith, mod-lt round (let p : 0 < length desc.sources = omega arith in p)),
            )
            | inr t ↦ inl (ground (arith, priority_turn))
          ]

pub vote_for_author_total :
    (desc : SessionDescription)
    → IsSized desc
    → (attempt : ℕ) → (n : ℕ) × (get_vote_for_author desc attempt ≡ done n)
unfolding get_vote_for_author
vote_for_author_total desc sized attempt = (attempt % u32 (length desc.sources), ground arith)
