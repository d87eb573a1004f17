-- ===== src/Session/FreshTail.antt =====
-- The fresh tail: the last messages by id, as many as the option says (`tailStartStoreId` in
-- packages/session/src/context-packing.ts).
use snapdragon.Prelude.{
  ℕ, zero, suc, ◌-◌, ◌<◌, ◌≡◌, true, false, Option, none, some, List, [], ◌∷◌, All, All-imp, drop,
  length, leb, get_elem?, arith,
}
use snapdragon.Prelude.Sorting.{IsSorted, IsOrder, sort-IsSorted, length-sort}
use snapdragon.Session.Records.{MessageRecord}
use snapdragon.Session.Packing.{tail_start_store_id, before_tail}
use snapdragon.Session.Window.{is_older, sorted_messages}

-- The last `n` messages in the order of their ids.
abbrev pub fresh_tail : List MessageRecord → ℕ → List MessageRecord
fresh_tail messages n = drop (length (sorted_messages messages) - n) (sorted_messages messages)

pub is_older-IsOrder : IsOrder is_older
is_older-IsOrder = record { asym = λ a b e. ground arith; trans = λ a b c e f. ground arith }

abbrev id_at : Option MessageRecord → Option ℕ
id_at none = none
id_at (some r) = some r.store_id

drop-tail :
    (k : ℕ) (xs : List MessageRecord)
    → IsSorted is_older xs
    → All (λ r. before_tail r.store_id (id_at (get_elem? xs k)) ≡ false) (drop k xs)
drop-tail zero [] h = tt
drop-tail (suc k) [] h = tt
drop-tail zero (x ∷ xs) (p, h) = (ground arith, All-imp _ _ (λ r q. ground (arith, q)) _ p)
drop-tail (suc k) (x ∷ xs) (p, h) = drop-tail k xs h

pub before-start :
    (a b : ℕ) (start : Option ℕ) → before_tail a start ≡ true → before_tail b start ≡ false → a < b
before-start a b none e f = cc
before-start a b (some start) e f = ground (arith, e, f)

-- Where there are more messages than the tail has, each message of the tail is at or after its start.
pub fresh_tail-kept :
    (messages : List MessageRecord) (n : ℕ)
    → n < length messages
    → All
        (λ r. before_tail r.store_id (tail_start_store_id (sorted_messages messages) n) ≡ false)
        (fresh_tail messages n)
unfolding tail_start_store_id sorted_messages
fresh_tail-kept messages n h =
    let sorted = sorted_messages messages in
    let many : leb (length sorted) n ≡ false = ground (arith, h, length-sort is_older messages) in
    rw many
      (drop-tail (length sorted - n) sorted (sort-IsSorted is_older is_older-IsOrder messages))
