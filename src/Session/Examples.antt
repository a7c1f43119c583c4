-- ===== src/Session/Examples.antt =====
-- Concrete attempts, candidates and vectors, for the tests (round_attempt.rs, vote_candidate.rs,
-- block_candidate.rs, vector.rs).
use ton_labs_node.Base.{
  ℕ, ◌≡◌, refl, true, false, List, [], ◌∷◌, Option, none, some, done, arith, ◌>>=◌, inr,
}
use ton_labs_node.Session.Description.{weigh}
use ton_labs_node.Session.Description.Examples.{heavy, heavy-IsWeighed, heavy-IsSized}
use ton_labs_node.Session.Merge.{never_same}
use ton_labs_node.Session.Vector.Merging.{merge_bools, or_items, merge_bools_semilattice}
use ton_labs_node.Session.SortedVector
use ton_labs_node.Session.SortedVector.{iter}
use ton_labs_node.Session.SortedVector.Order.{find, insert}
use ton_labs_node.Session.SortedVector.Push.{push-eq-insert}
use ton_labs_node.Session.SortedVector.Maps.{IsUnion, combine, merge_wrapped-IsUnion}
use ton_labs_node.Session.SentBlock.{SentBlockPtr}
use ton_labs_node.Session.VoteCandidate
use ton_labs_node.Session.VoteCandidate.{VoteCandidate, voted, check_block_is_voted}
use ton_labs_node.Session.VoteCandidate.Votes.{IsVote, is_voted-merge, merge_self}
use ton_labs_node.Session.BlockCandidate
use ton_labs_node.Session.BlockCandidate.{BlockCandidate, check_block_is_approved}
use ton_labs_node.Session.BlockCandidate.Approvals.{is_approved-merge}
use ton_labs_node.Session.Message.{Message}
use ton_labs_node.Session.Attempt
use ton_labs_node.Session.Attempt.{
  RoundAttempt, AttemptPool, apply_action, create_empty, vote_candidate_of, received_from,
  get_voted_block, check_attempt_is_precommitted,
}
use ton_labs_node.Session.Attempt.Invariant.{IsAttempt}
use ton_labs_node.Session.Attempt.Actions.{with_block_vote, with_precommit}
use ton_labs_node.Session.Attempt.Moves.{Move, votes_for, precommits, apply_action-Move}
use ton_labs_node.Session.Attempt.Votes.{Reached, begin, act, Reached-IsAttempt}
use ton_labs_node.Session.Attempt.Elections.{Played, start, play, voted_unique, precommits-elected}
use ton_labs_node.Session.Round.{choose_block_to_vote}
use ton_labs_node.Session.Description.{get_node_priority}
use ton_labs_node.Session.Vector.{change}
use ton_labs_node.Session.Round.Examples.{approved, approved-IsRound}
use ton_labs_node.Session.Attempt.Merging.{merge-IsAttempt, merge_votes-MergesWell}
use ton_labs_node.Session.Round.{round_view, get_block, candidate_in, check_need_generate_vote_for}
use ton_labs_node.Session.Attempt.VoteFor.{vote_for-early}
use ton_labs_node.Session.Description.{get_vote_for_author}
use ton_labs_node.Session.Attempt.{apply_vote_for_action}
use ton_labs_node.Session.Round.Voting.{round_view-Answers}
use ton_labs_node.Session.Round.{best_block}
use ton_labs_node.Base.{get_elem?, ◌⊎◌}
use ton_labs_node.Session.Round.Merging.{Diversed, no_blocks, scan}
use ton_labs_node.Session.Round.Merging.Scanning.{FirstLocked, scan-FirstLocked}
use ton_labs_node.Session.Round.Choosing.{Eligible, NoneBefore, Chosen, best_block-least}
use ton_labs_node.Session.Round.Examples.{pool, block, heavy-IsConfigured, none_of_four, started}
use ton_labs_node.Session.Round

abbrev heavy_vote : VoteCandidate
heavy_vote = record { block = block; voted_by = true ∷ false ∷ false ∷ false ∷ [] }

-- The attempt 5 before and after the vote of the first validator, and after its precommit.
abbrev begun : RoundAttempt
begun = create_empty heavy 5

abbrev elected : RoundAttempt
elected = with_block_vote heavy 0 begun block

nobody_voted : received_from (iter begun.votes) 0 ≡ done false
unfolding create_empty received_from
nobody_voted = refl

elected-Reached : Reached heavy elected
elected-Reached = act 0 (omega arith) (begin 5) (votes_for block nobody_voted)

elected_vote : find VoteCandidate.get_id 101002 (iter elected.votes) ≡ some heavy_vote
unfolding find insert vote_candidate_of create_empty VoteCandidate.create_unvoted
    Attempt.get_candidate
elected_vote = refl

heavy_vote_passes : check_block_is_voted heavy heavy_vote ≡ done true
unfolding check_block_is_voted weigh
heavy_vote_passes = refl

-- The first validator's vote, as a message of the round in which its block is approved.
votes :
    apply_action heavy never_same (round_view heavy approved) 0 5 begun (Message.vote 0 5 101002)
    ≡ done elected
unfolding apply_action Attempt.apply_default_action Attempt.try_vote received_from create_empty
    choose_block_to_vote BlockCandidate.check_block_is_approved weigh get_node_priority
    vote_candidate_of VoteCandidate.create_unvoted Attempt.get_candidate VoteCandidate.push change
    SortedVector.push insert
votes = refl

elected-Played : Played heavy never_same elected
elected-Played =
    play (round_view heavy approved) 0 5 (Message.vote 0 5 101002) (omega arith)
      (round_view-Answers heavy heavy-IsWeighed heavy-IsConfigured approved approved-IsRound 0
        (omega arith) 5)
      tt (start 5) votes

abbrev block_id : ℕ
block_id = 101002

voted_unique_example : block_id ≡ block_id
voted_unique_example =
    voted_unique heavy heavy-IsWeighed heavy-IsSized never_same elected elected-Played block_id
      block_id heavy_vote heavy_vote elected_vote elected_vote heavy_vote_passes heavy_vote_passes

elected_block : get_voted_block heavy elected ≡ done (some block)
unfolding insert vote_candidate_of create_empty VoteCandidate.create_unvoted Attempt.get_candidate
    Attempt.first_voted check_block_is_voted weigh
elected_block = refl

abbrev locked : RoundAttempt
locked = with_precommit 0 elected

locked-Reached : Reached heavy locked
locked-Reached = act 0 (omega arith) elected-Reached (precommits (block, elected_block))

locked_passes : check_attempt_is_precommitted heavy locked ≡ done true
unfolding check_attempt_is_precommitted create_empty weigh
locked_passes = refl

-- The first validator's precommit, as a message of the same round.
locks :
    apply_action heavy never_same
      (round_view heavy approved)
      0
      5
      elected
      (Message.precommit 0 5 101002)
    ≡ done locked
unfolding apply_action Attempt.apply_default_action Attempt.try_vote received_from create_empty
    choose_block_to_vote BlockCandidate.check_block_is_approved weigh get_node_priority
    vote_candidate_of VoteCandidate.create_unvoted Attempt.get_candidate VoteCandidate.push change
    SortedVector.push insert Attempt.try_precommit Attempt.first_voted check_block_is_voted
locks = refl

locked-Played : Played heavy never_same locked
locked-Played =
    play (round_view heavy approved) 0 5 (Message.precommit 0 5 101002) (omega arith)
      (round_view-Answers heavy heavy-IsWeighed heavy-IsConfigured approved approved-IsRound 0
        (omega arith) 5)
      tt elected-Played locks

precommits-elected_example :
    (v : VoteCandidate) × (find VoteCandidate.get_id (VoteCandidate.get_id v) (iter locked.votes)
      ≡ some v)
    × (check_block_is_voted heavy v ≡ done true)
    × (get_voted_block heavy locked ≡ done (some v.block))
precommits-elected_example =
    precommits-elected heavy heavy-IsWeighed heavy-IsSized never_same locked locked-Played
      locked_passes

abbrev attempt_pool : AttemptPool
attempt_pool = record { sent_block = never_same; vote = never_same; votes = never_same }

merge-IsAttempt_example :
    (m : RoundAttempt) × (Attempt.merge attempt_pool elected begun ≡ done m)
    × IsAttempt heavy m
    × ((k : ℕ)
        → combine VoteCandidate.merge
            (find VoteCandidate.get_id k (iter elected.votes))
            (find VoteCandidate.get_id k (iter begun.votes))
          ≡ done (find VoteCandidate.get_id k (iter m.votes)))
    × (m.precommitted ≡ or_items elected.precommitted begun.precommitted)
merge-IsAttempt_example =
    merge-IsAttempt heavy heavy-IsWeighed attempt_pool elected begun
      (Reached-IsAttempt heavy heavy-IsWeighed heavy-IsSized elected-Reached)
      (Reached-IsAttempt heavy heavy-IsWeighed heavy-IsSized (begin 5)) refl

apply_action-Move_example :
    (a : RoundAttempt) × (apply_action heavy never_same
        (round_view heavy Round.Examples.voted)
        0
        5
        elected
        (Message.precommit 0 5 101002)
      ≡ done a)
    × Move heavy 0 elected a
apply_action-Move_example =
    apply_action-Move heavy heavy-IsWeighed heavy-IsSized never_same
      (round_view heavy Round.Examples.voted) 0 5 (omega arith)
      (round_view-Answers heavy heavy-IsWeighed heavy-IsConfigured Round.Examples.voted
        Round.Examples.voted-IsRound 0 (omega arith) 5)
      elected (Reached-IsAttempt heavy heavy-IsWeighed heavy-IsSized elected-Reached)
      (Message.precommit 0 5 101002) tt

-- Flags, votes and signatures that are merged.
merge_bools_semilattice_example :
    (merge_bools (true ∷ false ∷ []) (false ∷ false ∷ true ∷ [])
      ≡ merge_bools (false ∷ false ∷ true ∷ []) (true ∷ false ∷ []))
    × ((merge_bools (true ∷ false ∷ []) (false ∷ false ∷ true ∷ []) >>= λ m.
          merge_bools m (true ∷ []))
        ≡ (merge_bools (false ∷ false ∷ true ∷ []) (true ∷ []) >>= λ m.
            merge_bools (true ∷ false ∷ []) m))
    × (merge_bools (true ∷ false ∷ []) (true ∷ false ∷ []) ≡ done (true ∷ false ∷ []))
merge_bools_semilattice_example =
    merge_bools_semilattice (true ∷ false ∷ []) (false ∷ false ∷ true ∷ []) (true ∷ [])

push-eq-insert_example :
    SortedVector.push (λ n. n) never_same (some (1 ∷ 4 ∷ [])) 3
    ≡ done (some (insert (λ n. n) 3 (1 ∷ 4 ∷ [])))
push-eq-insert_example =
    push-eq-insert (λ n. n) never_same (some (1 ∷ 4 ∷ [])) 3 ((omega arith, tt), (tt, tt))

heavy_vote-IsVote : IsVote heavy heavy_vote
heavy_vote-IsVote = record { flags = refl }

abbrev other_vote : VoteCandidate
other_vote = record { block = block; voted_by = false ∷ true ∷ false ∷ false ∷ [] }

other_vote-IsVote : IsVote heavy other_vote
other_vote-IsVote = record { flags = refl }

is_voted-merge_example :
    (VoteCandidate.merge other_vote heavy_vote >>= check_block_is_voted heavy) ≡ done true
is_voted-merge_example =
    is_voted-merge heavy heavy-IsWeighed other_vote heavy_vote other_vote-IsVote heavy_vote-IsVote
      refl (inr heavy_vote_passes)

abbrev candidate : BlockCandidate
candidate = record { block = block; approved_by = some (1 ∷ []) ∷ none ∷ none ∷ none ∷ [] }

abbrev unapproved : BlockCandidate
unapproved = record { block = block; approved_by = none_of_four }

candidate_passes : check_block_is_approved heavy candidate ≡ done true
unfolding check_block_is_approved weigh
candidate_passes = refl

is_approved-merge_example :
    (BlockCandidate.merge never_same unapproved candidate >>= check_block_is_approved heavy)
    ≡ done true
is_approved-merge_example =
    is_approved-merge heavy never_same heavy-IsWeighed unapproved candidate
      (record { entries = refl }) (record { entries = refl }) refl (inr candidate_passes)

merge_wrapped-IsUnion_example :
    (items : Option (List VoteCandidate)) × (SortedVector.merge_wrapped VoteCandidate.get_id
        never_same VoteCandidate.merge never_same
        (some (heavy_vote ∷ []))
        (some (other_vote ∷ []))
      ≡ done items)
    × IsUnion VoteCandidate.get_id
        (IsVote heavy)
        never_same
        VoteCandidate.merge
        (merge_votes-MergesWell heavy)
        (merge_self heavy)
        never_same
        (some (heavy_vote ∷ []))
        (some (other_vote ∷ []))
        items
merge_wrapped-IsUnion_example =
    merge_wrapped-IsUnion VoteCandidate.get_id (IsVote heavy) never_same VoteCandidate.merge
      (merge_votes-MergesWell heavy) (merge_self heavy) never_same (some (heavy_vote ∷ []))
      (some (other_vote ∷ [])) (tt, tt) (tt, tt) (heavy_vote-IsVote, tt) (other_vote-IsVote, tt)

-- The first validator began this round with the attempt 5, and the attempt 8 is its own.
abbrev quiet : RoundAttempt
quiet = record {
  sequence_number = 8;
  votes = none;
  precommitted = false ∷ false ∷ false ∷ false ∷ [];
  vote_for = none;
}

own_attempt : get_vote_for_author heavy 8 ≡ done 0
unfolding get_vote_for_author
own_attempt = refl

known_block : get_block Round.Examples.voted 101002 ≡ some candidate
unfolding candidate_in
known_block = refl

vote_for-early_example :
    (check_need_generate_vote_for heavy Round.Examples.voted 0 8 ≡ done false)
    × (apply_vote_for_action heavy (round_view heavy Round.Examples.voted) 0 8 quiet 101002
        ≡ done (record quiet { vote_for = some block }))
vote_for-early_example =
    vote_for-early heavy Round.Examples.voted 0 8 5 101002 candidate quiet own_attempt refl
      (omega arith) (omega arith) (omega arith) refl known_block candidate_passes

best_block-least_example :
    (o : Option SentBlockPtr) × (best_block heavy 0 (candidate ∷ []) ≡ done o)
    × (((o ≡ none)
          × ((i : ℕ) (c : BlockCandidate) (q : ℕ)
              → get_elem? (candidate ∷ []) i ≡ some c
              → Eligible heavy 0 c q
              → ⊥))
        ⊎ ((p : ℕ) × Chosen heavy 0 (candidate ∷ []) p o × NoneBefore heavy 0 p (candidate ∷ [])))
best_block-least_example =
    best_block-least heavy 0 heavy-IsWeighed heavy-IsConfigured (candidate ∷ [])
      approved-IsRound.blocks

scan-FirstLocked_example :
    (e : Diversed) × (o : Option SentBlockPtr) × (scan heavy no_blocks none (locked ∷ [])
      ≡ done (e, o))
    × FirstLocked heavy (locked ∷ []) o
scan-FirstLocked_example =
    scan-FirstLocked heavy heavy-IsWeighed heavy-IsSized (locked ∷ [])
      (Reached-IsAttempt heavy heavy-IsWeighed heavy-IsSized locked-Reached, tt) no_blocks
