-- ===== src/Ui/Invariant.antt =====
-- What holds of the world after any events, those that throw included.
use mathlib.Core.Bool.{false≢true}
use snapdragon.Prelude.{
  ◌≤◌, String, ◌≡◌, ◌≢◌, refl, sym, ◌∙◌, ap, Bool, false, Option, none, some, List, [], ◌∷◌, ◌++◌,
  arith, ◌==◌, eq_iff, or_else, Bool-cases, Option-cases, inl, inr, length, ltb, length-slice_last,
  same_text,
}
use snapdragon.Prelude.Json.{Fields, end}
use snapdragon.Prelude.Maps.{get, set, get-set, get-delete}
use snapdragon.Prelude.Texts.{is_empty}
use snapdragon.Gateway.Effects.{Outcome-cases, throws, returns}
use snapdragon.Ui.{
  Descriptor, LogEntry, World, new_world, max_log_entries, UiEvent, registers, removes, patches,
  clears, focuses, logs, resets, validate_descriptor, Changed, register, remove, patch, clear_state,
  set_focus, append_bounded_log, append_log, reset, apply_default, touch_after, and_then,
  apply_each, apply_many,
}

-- Components and states have the same keys, a component stands under its id, the focus is on a
-- component that there is, and the log is bounded.
pub record IsValid (w : World) : Type 0 where
  pub keyed : (id : String) (d : Descriptor) → get id w.components ≡ some d → d.id ≡ id
  pub stateless : (id : String) → get id w.components ≡ none → get id w.states ≡ none
  pub stateful : (id : String) → get id w.states ≡ none → get id w.components ≡ none
  pub focused :
      (id : String) → w.focus_id ≡ some id → is_empty id ≡ false → get id w.components ≢ none
  pub bounded : length w.log ≤ max_log_entries

pub new_world-IsValid : IsValid new_world
unfolding get
new_world-IsValid = record {
  keyed = λ id d h. cc h;
  stateless = λ id h. refl;
  stateful = λ id h. refl;
  focused = λ id h. cc h;
  bounded = omega arith;
}

register-IsValid :
    (d : Descriptor) (state : Fields) (w : World) → IsValid w → IsValid (register d state w).1
unfolding register
register-IsValid d state w v = elim (Outcome-cases (validate_descriptor d)) [
  | inl (message, e) ↦ rw (e, register) v
  | inr (u, e) ↦
      rw (e, register)
        (record {
          keyed = λ id x h.
              ground (arith, get-set d.id id d w.components, eq_iff d.id id, v.keyed id x);
          stateless = λ id h. ground (
            arith,
            get-set d.id id d w.components,
            get-set d.id id state w.states,
            v.stateless id,
          );
          stateful = λ id h. ground (
            arith,
            get-set d.id id d w.components,
            get-set d.id id state w.states,
            v.stateful id,
          );
          focused =
              λ id h full gone. ground (arith, get-set d.id id d w.components, v.focused id h full);
          bounded = v.bounded;
        })
]

remove-IsValid : (id : String) (w : World) → IsValid w → IsValid (remove id w)
unfolding remove
remove-IsValid id w v = record {
  keyed = λ k d h. ground (arith, get-delete id k w.components, v.keyed k d);
  stateless =
      λ k h. ground (arith, get-delete id k w.components, get-delete id k w.states, v.stateless k);
  stateful =
      λ k h. ground (arith, get-delete id k w.components, get-delete id k w.states, v.stateful k);
  focused = λ k h full gone. elim (Bool-cases (same_text w.focus_id (some id))) [
    | inl e ↦ let none_left : none ≡ some k = rw e at h in cc none_left
    | inr e ↦
        let on : w.focus_id ≡ some k = rw e at h in
        let other : (k == id) ≡ false = rw on at e in
        let differs : (id == k) ≡ false = ground (arith, eq_iff id k, eq_iff k id) in
        v.focused k on full (rw (get-delete id k w.components, differs) at gone)
  ];
  bounded = v.bounded;
}

-- Setting the state of a component that there is.
set_state-IsValid :
    (id : String) (d : Descriptor) (state : Fields) (w : World)
    → get id w.components ≡ some d
    → IsValid w
    → IsValid (record w { states = set id state w.states })
set_state-IsValid id d state w found v = record {
  keyed = v.keyed;
  stateless = λ k h. elim (Bool-cases (id == k)) [
    | inl e ↦
        let there : get k w.components ≡ some d =
          ap (λ j. get j w.components) (sym ((eq_iff id k).0 e)) ∙ found in
        cc (there, h)
    | inr e ↦ rw (get-set id k state w.states, e) (v.stateless k h)
  ];
  stateful = λ k h. ground (arith, get-set id k state w.states, v.stateful k);
  focused = v.focused;
  bounded = v.bounded;
}

patch-IsValid :
    (id : String) (change : Fields) (replace : Bool) (w : World)
    → IsValid w
    → IsValid (patch id change replace w).1
unfolding patch
patch-IsValid id change replace w v = elim (Option-cases (get id w.components)) [
  | inl e ↦ rw (e, patch) v
  | inr (d, e) ↦ rw (e, patch) (set_state-IsValid id d _ w e v)
]

clear_state-IsValid : (id : String) (w : World) → IsValid w → IsValid (clear_state id w).1
unfolding clear_state
clear_state-IsValid id w v = elim (Option-cases (get id w.components)) [
  | inl e ↦ rw (e, clear_state) v
  | inr (d, e) ↦ rw (e, clear_state) (set_state-IsValid id d end w e v)
]

-- Putting the focus where it may be.
focus-IsValid :
    (o : Option String) (w : World)
    → ((id : String) → o ≡ some id → is_empty id ≡ false → get id w.components ≢ none)
    → IsValid w
    → IsValid (record w { focus_id = o })
focus-IsValid o w h v = record {
  keyed = v.keyed;
  stateless = v.stateless;
  stateful = v.stateful;
  focused = h;
  bounded = v.bounded;
}

set_focus-IsValid : (o : Option String) (w : World) → IsValid w → IsValid (set_focus o w).1
unfolding set_focus
set_focus-IsValid none w v = focus-IsValid none w (λ id h. cc h) v
set_focus-IsValid (some id) w v = elim (Bool-cases (is_empty id)) [
  | inl e ↦ rw e (
      focus-IsValid (some id) w
        (λ k h full.
          let same : id ≡ k = cc h in absurd (false≢true (sym full ∙ ap is_empty (sym same) ∙ e)))
        v)
  | inr e ↦ elim (Option-cases (get id w.components)) [
    | inl f ↦ rw (e, f, set_focus) v
    | inr (d, f) ↦
        rw (e, f, set_focus)
          (focus-IsValid (some id) w
            (λ k h full gone.
              let same : id ≡ k = cc h in
              let there : get k w.components ≡ some d =
                ap (λ j. get j w.components) (sym same) ∙ f in
              cc (there, gone))
            v)
  ]
]

append_bounded_log-bounded :
    (log : List LogEntry) (entry : LogEntry)
    → length (append_bounded_log log entry max_log_entries) ≤ max_log_entries
unfolding append_bounded_log
append_bounded_log-bounded log entry =
    elim (Bool-cases (ltb max_log_entries (length (log ++ entry ∷ [])))) [
      | inl e ↦
          rw e (omega (arith, length-slice_last max_log_entries (log ++ entry ∷ []) (omega arith)))
      | inr e ↦ ground arith
    ]

apply_default-IsValid :
    (event : UiEvent) (w : World) → IsValid w → IsValid (apply_default event w).1
unfolding apply_default
apply_default-IsValid (registers d state) w v = register-IsValid d (or_else state end) w v
apply_default-IsValid (removes id) w v = remove-IsValid id w v
apply_default-IsValid (patches id change replace) w v =
    patch-IsValid id change (or_else replace false) w v
apply_default-IsValid (clears id) w v = clear_state-IsValid id w v
apply_default-IsValid (focuses id) w v = set_focus-IsValid id w v
apply_default-IsValid (logs entry) w v =
    unfold append_log in
    record {
      keyed = v.keyed;
      stateless = v.stateless;
      stateful = v.stateful;
      focused = v.focused;
      bounded = append_bounded_log-bounded w.log entry;
    }
apply_default-IsValid resets w v =
    unfold reset get in
    record {
      keyed = λ id d h. cc h;
      stateless = λ id h. refl;
      stateful = λ id h. refl;
      focused = λ id h. cc h;
      bounded = omega arith;
    }

touch_after-IsValid : (r : Changed) → IsValid r.1 → IsValid (touch_after r).1
touch_after-IsValid (throws message, w) v = v
touch_after-IsValid (returns _, w) v = record {
  keyed = v.keyed;
  stateless = v.stateless;
  stateful = v.stateful;
  focused = v.focused;
  bounded = v.bounded;
}

and_then-IsValid :
    (r : Changed) (rest : World → Changed)
    → IsValid r.1
    → ((w : World) → IsValid w → IsValid (rest w).1)
    → IsValid (and_then r rest).1
and_then-IsValid (throws message, w) rest v k = v
and_then-IsValid (returns _, w) rest v k = k w v

apply_each-IsValid :
    (events : List UiEvent) (w : World) → IsValid w → IsValid (apply_each events w).1
unfolding apply_each
apply_each-IsValid [] w v = v
apply_each-IsValid (event ∷ events) w v =
    and_then-IsValid (apply_default event w) (apply_each events) (apply_default-IsValid event w v)
      (λ u h. apply_each-IsValid events u h)

-- After any events the components and the states have the same ids, each component stands under its
-- own, the focus is on a component that there is or on none, and the log has at most 500 entries; also
-- where an event throws and ends the batch.
pub apply_many-IsValid :
    (events : List UiEvent) (w : World) → IsValid w → IsValid (apply_many events w).1
unfolding apply_many
apply_many-IsValid [] w v = v
apply_many-IsValid (event ∷ events) w v =
    touch_after-IsValid (apply_each (event ∷ events) w) (apply_each-IsValid (event ∷ events) w v)
