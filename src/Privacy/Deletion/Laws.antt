-- ===== src/Privacy/Deletion/Laws.antt =====
-- Asking for a deletion, asking again, and calling it off.
use kitaza.Common.{ℕ, none, some, List, [], ◌∷◌, ◌≡◌, refl, arith, find, ◌==◌, update_where}
use kitaza.Common.Failure.{ok}
use kitaza.Privacy.Deletion.{Account, DeletionState, mark, request_deletion, deletion_state}

module _ (owner : ℕ) where
  mark_twice :
      (grace now grace' later : ℕ) (a : Account)
      → mark grace' later (mark grace now a) ≡ mark grace now a
  mark_twice grace now grace' later a = refl

  marked_twice :
      (grace now grace' later : ℕ) (accounts : List Account)
      → let marked = update_where (λ a. a.id == owner) (mark grace now) accounts in
        update_where (λ a. a.id == owner) (mark grace' later) marked ≡ marked
  marked_twice grace now grace' later [] = refl
  marked_twice grace now grace' later (a ∷ rest) =
      ground (arith, marked_twice grace now grace' later rest)

  found_marked :
      (grace now : ℕ) (accounts : List Account)
      → find (λ a. a.id == owner) (update_where (λ a. a.id == owner) (mark grace now) accounts)
        ≡ elim (find (λ a. a.id == owner) accounts) [
          | none ↦ none
          | some a ↦ some (mark grace now a)
        ]
  found_marked grace now [] = refl
  found_marked grace now (a ∷ rest) = ground (arith, found_marked grace now rest)

  -- Asking again, later and under another grace period, gives the same answer and moves no date.
  pub request_deletion_again :
      (grace now grace' later : ℕ) (accounts : List Account)
      → let (answer, marked) = request_deletion owner grace now accounts in
        request_deletion owner grace' later marked ≡ (answer, marked)
  unfolding request_deletion
  request_deletion_again grace now grace' later accounts =
      ground (arith, found_marked grace now accounts, marked_twice grace now grace' later accounts)

  -- The answer to a request is what the account screen then shows.
  pub deletion_state-request :
      (grace now : ℕ) (accounts : List Account) (state : DeletionState)
      → (request_deletion owner grace now accounts).0 ≡ ok state
      → deletion_state owner (request_deletion owner grace now accounts).1 ≡ some state
  unfolding request_deletion deletion_state
  deletion_state-request grace now accounts state e =
      ground (arith, found_marked grace now accounts)
