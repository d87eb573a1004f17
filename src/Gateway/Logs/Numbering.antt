-- ===== src/Gateway/Logs/Numbering.antt =====
-- The records of the log are numbered 1, 2, 3, …, and `tail` returns the latest of them.
use mathlib.Core.Bool.{false≢true}
use snapdragon.Prelude.{
  ℕ, zero, suc, ◌+◌, ◌-◌, ◌<◌, ◌≤◌, String, ◌≡◌, refl, ◌∙◌, ap, Bool, true, false, Option, none,
  some, List, [], ◌∷◌, ◌++◌, arith, eq_refl, eq_iff, filter, length, slice_last, length-slice_last,
  length-append, drop, drop-append, same_text, All, All-imp, All-filter_keep, All-drop,
}
use snapdragon.Gateway.Effects.{LogLine}
use snapdragon.Gateway.Logs.{LogRecord, LogStore, log_record, append, append_all, about, tail}
use snapdragon.Prelude.Texts.{is_empty}

-- The records have the numbers n + 1, n + 2, ….
abbrev pub IsNumbered : ℕ → LogStore → Type 0
IsNumbered n [] = Unit
IsNumbered n (log ∷ logs) = (log.id ≡ n + 1) × IsNumbered (suc n) logs

IsNumbered-append :
    (n : ℕ) (logs : LogStore) (log : LogRecord)
    → IsNumbered n logs
    → log.id ≡ n + length logs + 1
    → IsNumbered n (logs ++ log ∷ [])
IsNumbered-append n [] log h e = (omega arith, tt)
IsNumbered-append n (x ∷ logs) log (p, h) e =
    (p, IsNumbered-append (suc n) logs log h (omega arith))

append-IsNumbered :
    (line : LogLine) (at_ms : Option ℕ) (now : ℕ) (logs : LogStore)
    → IsNumbered 0 logs
    → IsNumbered 0 (append line at_ms now logs).1
unfolding append
append-IsNumbered line at_ms now logs h =
    IsNumbered-append 0 logs (log_record line at_ms now logs) h (omega arith)

-- Whatever the stores log, the records stay numbered from 1 on without a gap.
pub append_all-IsNumbered :
    (lines : List LogLine) (now : ℕ) (logs : LogStore)
    → IsNumbered 0 logs
    → IsNumbered 0 (append_all lines now logs)
unfolding append_all
append_all-IsNumbered [] now logs h = h
append_all-IsNumbered (line ∷ lines) now logs h =
    append_all-IsNumbered lines now _ (append-IsNumbered line none now logs h)

about-some :
    (target : String) (logs : LogStore)
    → is_empty target ≡ false
    → about (some target) logs ≡ filter (λ log. same_text log.target (some target)) logs
about-some target logs h = rw h

filter-append_kept :
    (keep : LogRecord → Bool) (xs : LogStore) (y : LogRecord)
    → keep y ≡ true
    → filter keep (xs ++ y ∷ []) ≡ filter keep xs ++ y ∷ []
filter-append_kept keep [] y h = rw h
filter-append_kept keep (x ∷ xs) y h = ground (arith, filter-append_kept keep xs y h)

slice_last-append :
    (n : ℕ) (xs : LogStore) (y : LogRecord)
    → slice_last (suc n) (xs ++ y ∷ []) ≡ drop (length xs - n) xs ++ y ∷ []
slice_last-append n xs y = rw (length-append xs (y ∷ [])) (
    let e : length xs + 1 - suc n ≡ length xs - n = omega arith in
    rw e (drop-append (length xs - n) xs (y ∷ []) (omega arith)))

same_text_sound :
    (o : Option String) (target : String) → same_text o (some target) ≡ true → o ≡ some target
same_text_sound none target h = absurd (false≢true h)
same_text_sound (some t) target h = ap some ((eq_iff t target).0 h)

abbrev IsAbout : String → LogRecord → Type 0
IsAbout target log = log.target ≡ some target

All-about :
    (target : String) (logs : LogStore)
    → is_empty target ≡ false
    → All (IsAbout target) (about (some target) logs)
All-about target logs e = rw (about-some target logs e) (
    All-imp _ _ (λ log h. same_text_sound log.target target h) _
      (All-filter_keep (λ log. same_text log.target (some target)) logs))

-- With a target and a positive limit `tail` returns at most so many records, all about the target.
pub tail-bounded :
    (target : String) (limit : ℕ) (logs : LogStore)
    → is_empty target ≡ false
    → 0 < limit
    → (length (tail (some target) (some limit) logs) ≤ limit)
      × All (λ log. log.target ≡ some target) (tail (some target) (some limit) logs)
unfolding tail
tail-bounded target zero logs e h = absurd (omega arith)
tail-bounded target (suc n) logs e h = (
  omega (arith, length-slice_last (suc n) (about (some target) logs) h),
  All-drop (IsAbout target) _ (about (some target) logs) (All-about target logs e),
)

-- What is appended about the target stands last in the next `tail` about it, behind what a `tail`
-- of one record less returned.
pub tail-append :
    (line : LogLine) (at_ms : Option ℕ) (now : ℕ) (target : String) (n : ℕ) (logs : LogStore)
    → is_empty target ≡ false
    → line.target ≡ some target
    → tail (some target) (some (suc n)) (append line at_ms now logs).1
      ≡ drop (length (about (some target) logs) - n) (about (some target) logs)
        ++ (append line at_ms now logs).0 ∷ []
unfolding tail append
tail-append line at_ms now target n logs e same =
    let entry = log_record line at_ms now logs in
    let kept : same_text entry.target (some target) ≡ true = rw (same, eq_refl target) in
    let whole : about (some target) (logs ++ entry ∷ []) ≡ about (some target) logs ++ entry ∷ [] =
      rw e (filter-append_kept (λ log. same_text log.target (some target)) logs entry kept) in
    ap (slice_last (suc n)) whole ∙ slice_last-append n (about (some target) logs) entry

-- A limit of zero does not bound `tail`: it returns the whole log.
pub tail-zero : (logs : LogStore) → tail none (some 0) logs ≡ logs
unfolding tail
tail-zero logs = refl
