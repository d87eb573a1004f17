-- ===== src/Gateway/Workers/Checks.antt =====
-- What the texts that pass the checks look like.
use snapdragon.Prelude.{String, ◌≡◌, true, false, arith, Bool-cases, inl, inr}
use snapdragon.Prelude.Texts.{is_empty, trim, is_id, trim_idem, trim_of_is_id, is_id_not_empty}
use snapdragon.Gateway.Effects.{returns}
use snapdragon.Gateway.Workers.Records.{worker_id, worker_field}

-- A text that is not blank, without white space at its ends.
abbrev pub IsTrimmed : String → Type 0
IsTrimmed s = (trim s ≡ s) × (is_empty s ≡ false)

pub worker_field-IsTrimmed :
    (field value : String) {v : String} → worker_field field value ≡ returns v → IsTrimmed v
unfolding worker_field
worker_field-IsTrimmed field value {v} h = elim (Bool-cases (is_empty (trim value))) [
  | inl e ↦ absurd (ground arith)
  | inr e ↦ let same : v ≡ trim value = ground arith in (rw same (trim_idem value), rw same e)
]

pub worker_field_again :
    (field value : String) → IsTrimmed value → worker_field field value ≡ returns value
unfolding worker_field
worker_field_again field value (p, q) = rw (p, q)

pub worker_id-is_id :
    (value : String) {id : String} → worker_id value ≡ returns id → is_id id ≡ true
unfolding worker_id
worker_id-is_id value {id} h = elim (Bool-cases (is_id (trim value))) [
  | inl e ↦ let same : id ≡ trim value = ground arith in rw same e
  | inr e ↦ absurd (ground arith)
]

-- An id that passed the check passes it again unchanged.
pub worker_id_again : (id : String) → is_id id ≡ true → worker_id id ≡ returns id
unfolding worker_id
worker_id_again id h = rw (trim_of_is_id id h, is_id_not_empty id h, h)
