-- ===== src/Session/Reading.antt =====
-- What the readers of a session's file return: recent-records.ts and metadata.ts of
-- packages/session/src.
use snapdragon.Prelude.{
  ℕ, zero, suc, ◌+◌, ◌-◌, ◌≤◌, ◌<◌, ◌≡◌, refl, sym, ap, ◌∙◌, String, Bool, true, false, Option,
  none, some, List, [], ◌∷◌, ◌++◌, length, length-append, length-drop, drop, drop-append,
  append_assoc, append_nil, eqb, if◌then◌else◌, Bool-cases, map, inl, inr, arith, or_option, ◌==◌,
  eq_iff, eq_refl,
}
use snapdragon.Prelude.Json.{Json, Fields, end, field}
use snapdragon.Session.Records.{MessageRecord, SessionRecord, opened, messaged, noted, chunked}
use snapdragon.Session.Tokens.{record_to_message}
use snapdragon.Session.Files.{
  Session, message_records, RecentMessages, collect_recent, recent_from, read_recent,
  recent_messages, set_field, assign, metadata_from, session_metadata, append_meta, append_record,
  metadata,
}

module _ {ℓ} {A : Type ℓ} where
  drop-suc : (n : ℕ) (xs : List A) → drop 1 (drop n xs) ≡ drop (suc n) xs
  drop-suc zero xs = refl
  drop-suc (suc n) [] = refl
  drop-suc (suc n) (x ∷ xs) = drop-suc n xs

  drop_none : (n : ℕ) → drop {A = A} n [] ≡ []
  drop_none zero = refl
  drop_none (suc n) = refl

  drop_all : (xs : List A) → drop (length xs) xs ≡ []
  drop_all [] = refl
  drop_all (x ∷ xs) = drop_all xs

-- The last `n` items of a list; none of them for 0.
abbrev pub latest {ℓ} : {A : Type ℓ} → ℕ → List A → List A
latest n xs = drop (length xs - n) xs

latest-at {ℓ} : {A : Type ℓ} (n k : ℕ) (xs : List A) → length xs - n ≡ k → latest n xs ≡ drop k xs
latest-at n k xs e = ap (λ j. drop j xs) e

-- The state of the loop after the messages `xs`.
abbrev after : ℕ → List MessageRecord → RecentMessages
after n xs = record { records = latest n xs; total_messages = length xs }

window-step :
    (n : ℕ) (xs : List MessageRecord) (r : MessageRecord)
    → (if eqb n 0
        then latest n xs
        else (if eqb (length (latest n xs)) n then drop 1 (latest n xs) else latest n xs) ++ r ∷ [])
      ≡ latest n (xs ++ r ∷ [])
window-step n xs r =
    let count = length-append xs (r ∷ []) in
    let kept = length-drop (length xs - n) xs in
    elim (Bool-cases (eqb n 0)) [
      | inl e ↦
          let no_old : latest n xs ≡ [] = latest-at n (length xs) xs (ground arith) ∙ drop_all xs in
          let no_new : latest n (xs ++ r ∷ []) ≡ [] =
            latest-at n (length (xs ++ r ∷ [])) _ (ground arith) ∙ drop_all (xs ++ r ∷ []) in
          rw e (no_old ∙ sym no_new)
      | inr e ↦ elim (Bool-cases (eqb (length (latest n xs)) n)) [
        | inl f ↦
            let full : n ≤ length xs = ground (arith, kept) in
            let pos : 0 < n = ground arith in
            let new : latest n (xs ++ r ∷ []) ≡ drop (suc (length xs - n)) (xs ++ r ∷ []) =
              latest-at n (suc (length xs - n)) _ (omega (arith, count, full)) in
            rw (e, f)
              (ap (λ ys. ys ++ r ∷ []) (drop-suc (length xs - n) xs)
                ∙ sym (
                    new ∙ drop-append (suc (length xs - n)) xs (r ∷ []) (omega (arith, full, pos))))
        | inr f ↦
            let room : length xs < n = ground (arith, kept) in
            let old : latest n xs ≡ xs = latest-at n 0 xs (omega (arith, room)) in
            let new : latest n (xs ++ r ∷ []) ≡ xs ++ r ∷ [] =
              latest-at n 0 _ (omega (arith, count, room)) in
            rw (e, f) (ap (λ ys. ys ++ r ∷ []) old ∙ sym new)
      ]
    ]

collect_recent-after :
    (n : ℕ) (xs : List MessageRecord) (r : MessageRecord)
    → collect_recent (after n xs) n (messaged r) ≡ after n (xs ++ r ∷ [])
unfolding collect_recent
collect_recent-after n xs r =
    let e = window-step n xs r in
    let count : length (xs ++ r ∷ []) ≡ length xs + 1 = length-append xs (r ∷ []) in cc

recent_from-after :
    (n : ℕ) (xs : List MessageRecord) (file : List SessionRecord)
    → recent_from (after n xs) n file ≡ after n (xs ++ message_records file)
unfolding message_records collect_recent
recent_from-after n xs [] = rw (append_nil xs) refl
recent_from-after n xs (messaged r ∷ file) =
    ap (λ s. recent_from s n file) (collect_recent-after n xs r)
    ∙ (recent_from-after n (xs ++ r ∷ []) file
        ∙ ap (after n) (append_assoc xs (r ∷ []) (message_records file)))
recent_from-after n xs (chunked c ∷ file) = recent_from-after n xs file
recent_from-after n xs (opened o ∷ file) = recent_from-after n xs file
recent_from-after n xs (noted m ∷ file) = recent_from-after n xs file

-- `recentMessages(limit)` is the last `limit` messages of the file, in their order, and the number of
-- the messages before them, for every limit, 0 included.
pub recent_messages-latest :
    (limit : ℕ) (s : Session)
    → recent_messages limit s ≡ (
      map record_to_message (latest limit (message_records s.file)),
      length (message_records s.file) - limit,
    )
unfolding recent_messages read_recent
recent_messages-latest limit s =
    let all = message_records s.file in
    let start : recent_from (record { records = []; total_messages = 0 }) limit s.file
        ≡ after limit all =
      ap (λ t. recent_from t limit s.file)
        (ap (λ rs. record { records = rs; total_messages = 0 }) (sym (drop_none (0 - limit))))
      ∙ recent_from-after limit [] s.file in
    let kept : length all - length (latest limit all) ≡ length all - limit =
      omega (arith, length-drop (length all - limit) all) in
    cc

-- A field of an object: the first of that name.
abbrev pub get_field : String → Fields → Option Json
get_field k end = none
get_field k (field name v rest) =
    let later = get_field k rest in if name == k then some v else later

-- The last of that name.
abbrev pub last_field : String → Fields → Option Json
last_field k end = none
last_field k (field name v rest) =
    or_option (last_field k rest) (if name == k then some v else none)

get_field-set_field :
    (j k : String) (v : Json) (fields : Fields)
    → get_field j (set_field k v fields) ≡ (if k == j then some v else get_field j fields)
unfolding set_field
get_field-set_field j k v end = refl
get_field-set_field j k v (field name w rest) = elim (Bool-cases (name == k)) [
  | inl e ↦
      let same : name ≡ k = (eq_iff name k).0 e in
      elim (Bool-cases (k == j)) [
        | inl f ↦ let g : name == j ≡ true = rw same f in rw (e, f) (rw g refl)
        | inr f ↦ let g : name == j ≡ false = rw same f in rw (e, f) (rw g refl)
      ]
  | inr e ↦ elim (Bool-cases (name == j)) [
    | inl f ↦
        let other : k == j ≡ false =
          ground (arith, e, f, eq_iff k j, eq_iff name j, eq_iff name k, eq_refl k) in
        rw (e, other, f) refl
    | inr f ↦ rw (e, f) (get_field-set_field j k v rest)
  ]
]

or_option-if :
    (o : Option Json) (b : Bool) (v : Json) (p : Option Json)
    → or_option o (if b then some v else p) ≡ or_option (or_option o (if b then some v else none)) p
or_option-if (some w) b v p = refl
or_option-if none true v p = refl
or_option-if none false v p = refl

get_field-assign :
    (k : String) (target source : Fields)
    → get_field k (assign target source) ≡ or_option (last_field k source) (get_field k target)
unfolding assign
get_field-assign k target end = refl
get_field-assign k target (field name v rest) =
    get_field-assign k (set_field name v target) rest
    ∙ (ap (or_option (last_field k rest)) (get_field-set_field k name v target)
        ∙ or_option-if (last_field k rest) (name == k) v (get_field k target))

metadata_from-append :
    (acc : Fields) (file extra : List SessionRecord)
    → metadata_from acc (file ++ extra) ≡ metadata_from (metadata_from acc file) extra
metadata_from-append acc [] extra = refl
metadata_from-append acc (opened o ∷ file) extra = metadata_from-append _ file extra
metadata_from-append acc (noted m ∷ file) extra =
    metadata_from-append (assign acc m.meta) file extra
metadata_from-append acc (messaged r ∷ file) extra = metadata_from-append acc file extra
metadata_from-append acc (chunked c ∷ file) extra = metadata_from-append acc file extra

-- After `appendMeta(meta)` a field of the metadata is that of `meta`, and the one from before where
-- `meta` has none.
pub metadata-append_meta :
    (now : ℕ) (meta : Fields) (s : Session) (k : String)
    → get_field k (metadata (append_meta now meta s))
      ≡ or_option (last_field k meta) (get_field k (metadata s))
unfolding metadata append_meta append_record session_metadata
metadata-append_meta now meta s k =
    ap (get_field k) (metadata_from-append end s.file _)
    ∙ get_field-assign k (session_metadata s.file) meta
