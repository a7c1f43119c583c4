-- ===== src/Session/Description/Sources.antt =====
-- The list of validators and its reverse index (session_description.rs).
use ton_labs_node.Base.{
  ℕ, zero, suc, ◌+◌, ◌<◌, ◌≡◌, ◌≢◌, refl, List, [], ◌∷◌, map, ◌==◌, u32, length, get_elem?, All,
  some, Bool-cases, get_elem?-some, get_elem?-lt, done, ◌>>=◌, arith, ◌⊎◌, inl, inr,
}
use ton_labs_node.Session.Description.{
  SessionOptions, SessionNode, Crypto, SessionDescription, lookup, source_of, rev_sources_from, new,
  get_source_public_key_hash, get_source_index,
}

-- No two validators share a public key hash.
abbrev pub AllDistinct : Crypto → List SessionNode → Type 0
AllDistinct c [] = Unit
AllDistinct c (n ∷ ns) =
    All (λ m. c.key_id m.public_key ≢ c.key_id n.public_key) ns × AllDistinct c ns

module _ (c : Crypto) where
  lookup-other :
      (id k : ℕ) (rev : List (ℕ × ℕ)) (nodes : List SessionNode)
      → All (λ m. c.key_id m.public_key ≢ id) nodes
      → lookup id (rev_sources_from c k rev nodes) ≡ lookup id rev
  unfolding lookup rev_sources_from
  lookup-other id k rev [] h = refl
  lookup-other id k rev (n ∷ ns) h =
      ground (arith, h.0, lookup-other id (k + 1) ((c.key_id n.public_key, u32 k) ∷ rev) ns h.1)

  lookup-own :
      (k : ℕ) (rev : List (ℕ × ℕ)) (nodes : List SessionNode) (i : ℕ) (n : SessionNode)
      → AllDistinct c nodes
      → get_elem? nodes i ≡ some n
      → lookup (c.key_id n.public_key) (rev_sources_from c k rev nodes) ≡ some (u32 (k + i))
  unfolding lookup rev_sources_from
  lookup-own k rev [] i n d e = cc
  lookup-own k rev (m ∷ ns) zero n d e = ground (
    arith,
    lookup-other (c.key_id m.public_key) (k + 1) ((c.key_id m.public_key, u32 k) ∷ rev) ns d.0,
  )
  lookup-own k rev (m ∷ ns) (suc i) n d e =
      ground (arith, lookup-own (k + 1) ((c.key_id m.public_key, u32 k) ∷ rev) ns i n d.1 e)

  -- An index that the map holds is that of a node with this hash.
  lookup-found :
      (id k v : ℕ) (rev : List (ℕ × ℕ)) (nodes : List SessionNode)
      → lookup id (rev_sources_from c k rev nodes) ≡ some v
      → (lookup id rev ≡ some v)
        ⊎ ((i : ℕ) × (n : SessionNode) × (get_elem? nodes i ≡ some n)
            × (c.key_id n.public_key ≡ id)
            × (v ≡ u32 (k + i)))
  unfolding lookup rev_sources_from
  lookup-found id k v rev [] h = inl h
  lookup-found id k v rev (m ∷ ns) h =
      elim (lookup-found id (k + 1) v ((c.key_id m.public_key, u32 k) ∷ rev) ns h) [
        | inl old ↦ elim (Bool-cases (c.key_id m.public_key == id)) [
          | inl t ↦ inr (zero, m, refl, ground arith, ground arith)
          | inr t ↦ inl (ground arith)
        ]
        | inr (i, n, e, d, q) ↦ inr (suc i, n, e, d, ground arith)
      ]

get_elem?-sources :
    (c : Crypto) (nodes : List SessionNode) (i : ℕ) (n : SessionNode)
    → get_elem? nodes i ≡ some n
    → get_elem? (map (source_of c) nodes) i ≡ some (source_of c n)
get_elem?-sources c [] i n e = cc
get_elem?-sources c (m ∷ ns) zero n e = cc
get_elem?-sources c (m ∷ ns) (suc i) n e = get_elem?-sources c ns i n e

module _ (options : SessionOptions) (c : Crypto) (nodes : List SessionNode) (local_id : ℕ)
    (desc : SessionDescription) (few : length nodes < 4294967296)
    (created : new options c nodes local_id ≡ done desc) where
  new_parts :
      (desc.sources ≡ map (source_of c) nodes)
      × (desc.rev_sources ≡ rev_sources_from c 0 [] nodes)
      × (lookup local_id (rev_sources_from c 0 [] nodes) ≡ some desc.self_idx)
  unfolding new
  new_parts = ground arith

  -- In a session that `new` returns for fewer than 2^32 nodes, the node's own index names the
  -- validator with the local identifier.
  pub self_idx-local_id : get_source_public_key_hash desc desc.self_idx ≡ done local_id
  unfolding get_source_public_key_hash source_of
  self_idx-local_id = elim (lookup-found c local_id 0 desc.self_idx [] nodes new_parts.2) [
    | inl e ↦ absurd (unfold lookup in cc e)
    | inr (i, n, e, d, q) ↦
        ground (arith, new_parts, get_elem?-lt nodes i n e, get_elem?-sources c nodes i n e)
  ]

  -- In a session that `new` returns for fewer than 2^32 nodes, no two with one public key hash,
  -- the index of a validator's public key hash is the validator's place in the list.
  pub source_index-public_key_hash :
      AllDistinct c nodes
      → (i : ℕ) → i < length nodes
      → (get_source_public_key_hash desc i >>= get_source_index desc) ≡ done i
  unfolding get_source_public_key_hash get_source_index source_of
  source_index-public_key_hash d i h =
      let (n, e) = get_elem?-some nodes i h in
      ground (arith, new_parts, get_elem?-sources c nodes i n e, lookup-own c 0 [] nodes i n d e)
