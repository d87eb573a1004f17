-- ===== src/Gateway/Query/Known.antt =====
-- Whatever a URL says, the options that come of it name what there is.
use snapdragon.Prelude.{
  ℕ, zero, suc, ◌<◌, String, ◌≡◌, ◌≢◌, Option, none, some, List, [], ◌∷◌, arith, ◌==◌, Bool-cases,
  inl, inr, filter, has_some, All, All-imp, All-filter_keep, In,
}
use snapdragon.Prelude.Texts.{is_empty}
use snapdragon.Gateway.Types.{JobState, pending, running, completed, failed, cancelled}
use snapdragon.Gateway.Filters.{job_state_text}
use snapdragon.Gateway.Filters.Selected.{has_some-In}
use snapdragon.Gateway.World.{all_sections}
use snapdragon.Gateway.Query.{
  SearchParams, first_of, csv, parse_sections, positive_int, state_param, job_states,
  world_snapshot_options_from_search,
}

-- The option is undefined, or a list with items that are all sections.
abbrev pub AreSections : Option (List String) → Type 0
AreSections none = Unit
AreSections (some sections) = (sections ≢ []) × All (λ section. In section all_sections) sections

abbrev pub IsJobState : Option String → Type 0
IsJobState none = Unit
IsJobState (some text) = (state : JobState) × (text ≡ job_state_text state)

abbrev pub IsPositive : Option ℕ → Type 0
IsPositive none = Unit
IsPositive (some n) = 0 < n

parse_sections-AreSections : (params : SearchParams) → AreSections (parse_sections params)
unfolding parse_sections
parse_sections-AreSections params =
    go
      (filter (λ section. has_some (λ s. s == section) all_sections)
        (csv params ("section" ∷ "sections" ∷ [])))
      (All-imp _ _ (λ section h. (has_some-In section all_sections).0 h) _
        (All-filter_keep (λ section. has_some (λ s. s == section) all_sections)
          (csv params ("section" ∷ "sections" ∷ []))))
  where
    go :
        (xs : List String)
        → All (λ section. In section all_sections) xs
        → AreSections (elim xs [ [] ↦ none | section ∷ sections ↦ some (section ∷ sections) ])
    go [] h = tt
    go (x ∷ xs) h = ((λ e. cc e), h)

state_of_In :
    (text : String) → In text job_states → (state : JobState) × (text ≡ job_state_text state)
state_of_In text (inl e) = (pending, e)
state_of_In text (inr (inl e)) = (running, e)
state_of_In text (inr (inr (inl e))) = (completed, e)
state_of_In text (inr (inr (inr (inl e)))) = (failed, e)
state_of_In text (inr (inr (inr (inr (inl e))))) = (cancelled, e)
state_of_In text (inr (inr (inr (inr (inr h))))) = elim h [ ]

state_param-IsJobState : (o : Option String) → IsJobState (state_param o job_states)
unfolding state_param
state_param-IsJobState none = tt
state_param-IsJobState (some text) =
    elim (Bool-cases (has_some (λ state. state == text) job_states)) [
      | inl e ↦ rw e (state_of_In text ((has_some-In text job_states).0 e))
      | inr e ↦ rw e tt
    ]

positive_int-IsPositive :
    (to_number : String → Option ℕ) (o : Option String) → IsPositive (positive_int to_number o)
unfolding positive_int
positive_int-IsPositive to_number none = tt
positive_int-IsPositive to_number (some value) = elim (Bool-cases (is_empty value)) [
  | inl e ↦ rw e tt
  | inr e ↦ rw e (go (to_number value))
]
  where
    go :
        (n : Option ℕ)
        → IsPositive (elim n [ none ↦ none | some zero ↦ none | some (suc k) ↦ some (suc k) ])
    go none = tt
    go (some zero) = tt
    go (some (suc k)) = omega arith

-- Whatever the search part of a URL says: the sections asked for are sections that there are, and at
-- least one if they are given at all; the state of jobs asked for is one; and the limit is positive.
pub world_snapshot_options_from_search-known :
    (to_lower : String → String) (to_number : String → Option ℕ) (params : SearchParams)
    → AreSections (world_snapshot_options_from_search to_lower to_number params).sections
      × IsJobState (world_snapshot_options_from_search to_lower to_number params).job_state
      × IsPositive (world_snapshot_options_from_search to_lower to_number params).log_limit
unfolding world_snapshot_options_from_search
world_snapshot_options_from_search-known to_lower to_number params = (
  parse_sections-AreSections params,
  state_param-IsJobState (first_of params ("jobState" ∷ "state" ∷ [])),
  positive_int-IsPositive to_number (first_of params ("limit" ∷ "logLimit" ∷ [])),
)
