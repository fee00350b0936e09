-- ===== src/Core/Idempotency/Tests.antt =====
-- Two requests with the key 5 in the scope 1, one of which ends in between, and a withdrawal of key 6.
use flexyvotes.Base.{◌≡◌, refl, true, false, Option, none, some, List, [], ◌∷◌, arith}
use flexyvotes.Core.Idempotency.{
  IdempotencyRecord, claimed, conflict, replay, still_running, valid_key, begin, complete, abandon,
}
use flexyvotes.Core.Idempotency.Taken.{Uses, unused, and_then, begins, completes, abandons}
use flexyvotes.Core.Idempotency.Once.{answer_for, begin-once}

abbrev first_rows : List IdempotencyRecord
first_rows = (begin 10 86400 1 1 5 77 []).0

abbrev second_rows : List IdempotencyRecord
second_rows = (begin 20 86400 2 1 6 78 first_rows).0

abbrev rows_of : Option (List IdempotencyRecord) → List IdempotencyRecord
rows_of none = []
rows_of (some rows) = rows

abbrev later_rows : List IdempotencyRecord
later_rows = abandon 2 (rows_of (complete 1 201 9 second_rows))

abbrev uses : Uses 1 1 5 77 86410 first_rows (some (201, 9)) later_rows
unfolding begin complete
uses =
    and_then
      (and_then (and_then unused (begins 20 86400 2 1 6 78 none first_rows (omega arith)))
        (completes 201 9 none second_rows (rows_of (complete 1 201 9 second_rows)) refl))
      (abandons 2 (some (201, 9)) (rows_of (complete 1 201 9 second_rows)) (λ e. omega (arith, e)))

later_replay : (begin 50 86400 3 1 5 77 later_rows).1 ≡ replay (some (201, 9))
unfolding begin complete abandon
later_replay = refl

later_conflict : (begin 50 86400 3 1 5 79 later_rows).1 ≡ conflict
unfolding begin complete abandon
later_conflict = refl

early_repeat : (begin 15 86400 2 1 5 77 first_rows).1 ≡ still_running
unfolding begin
early_repeat = refl

-- The key has expired, and its row is claimed again.
expired_key : (begin 90000 86400 3 1 5 77 first_rows).1 ≡ claimed 1
unfolding begin
expired_key = refl

-- The row of a request that was withdrawn cannot be completed any more.
withdrawn : complete 1 201 9 (abandon 1 first_rows) ≡ none
unfolding begin complete abandon
withdrawn = refl

short_key : valid_key (λ c. true) (1 ∷ 2 ∷ 3 ∷ []) ≡ false
unfolding valid_key
short_key = refl

begin-once_example : (begin 50 86400 3 1 5 77 later_rows).1 ≡ answer_for 77 77 (some (201, 9))
unfolding begin
begin-once_example = begin-once 10 86400 1 50 86400 3 1 1 5 77 77 [] refl uses (omega arith)
