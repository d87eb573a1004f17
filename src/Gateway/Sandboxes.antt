-- ===== src/Gateway/Sandboxes.antt =====
-- packages/gateway/src/inline-sandboxes.ts: leases of sandboxes, which expire by the clock. Reading
-- the store drops what has expired.
pub mod Expiry
mod Tests
use Prim.Native.String
use snapdragon.Prelude.{
  ℕ, suc, ◌+◌, String, Bool, true, false, not, Option, none, some, List, [], ◌∷◌, ◌++◌, ltb, leb,
  eqb, if◌then◌else◌, or_else,
}
use snapdragon.Prelude.Maps.{Map, get, set, delete, values}
use snapdragon.Prelude.Sorting.{sort}
use snapdragon.Prelude.Texts.{is_empty, trim, is_id, utf16_length}
use snapdragon.Gateway.Effects.{Act, LogLine, Outcome, throws, returns, Throws, ◌>>=◌, after}

-- The one backend of `GatewaySandboxLease`.
pub data Backend : Type 0 where
  worktree : Backend

pub record ProjectRef : Type 0 where
  pub id : String
  pub root : String
  pub branch : Option String

pub record SandboxLease : Type 0 where
  pub id : String
  pub sandbox_id : String
  pub cwd : String
  pub acquired_at_ms : ℕ
  pub expires_at_ms : Option ℕ
  pub backend : Option Backend
  pub project : Option ProjectRef
  pub reference_roots : Option (List String)

abbrev pub SandboxStore : Type 0
SandboxStore = Map SandboxLease

unfoldable pub required_field : String → String → Outcome String
required_field field value =
    let normalized = trim value in
    if is_empty normalized
    then throws (String.◌++◌ field " must be non-empty")
    else returns normalized

abbrev pub check_id : String → String → Outcome String
check_id field id =
    if ltb 128 (utf16_length id)
    then throws (String.◌++◌ field " must be 128 characters or fewer")
    else if is_id id
    then returns id
    else throws
        (String.◌++◌ field " must contain only letters, numbers, \".\", \"_\", \"-\", or \":\"")

-- `sandboxId`
unfoldable pub checked_id : String → String → Outcome String
unfolding required_field
checked_id field value = do id ← required_field field value; check_id field id

unfoldable pub checked_project : Option ProjectRef → Outcome (Option ProjectRef)
unfolding required_field
checked_project none = returns none
checked_project (some project) = do
  id ← required_field "sandbox project id" project.id
  root ← required_field "sandbox project root" project.root
  returns (some (record { id = id; root = root; branch = project.branch }))

unfoldable pub checked_roots : List String → Outcome (List String)
unfolding required_field
checked_roots [] = returns []
checked_roots (root ∷ roots) = required_field "sandbox reference root" root >>= λ first.
    checked_roots roots >>= λ rest. returns (first ∷ rest)

-- `normalizeSandboxLease`; a time of acquisition of 0 is falsy.
unfoldable pub normalize_lease : SandboxLease → ℕ → Outcome SandboxLease
unfolding checked_id required_field checked_project checked_roots
normalize_lease input now = do
  id ← checked_id "sandbox lease id" input.id
  sandbox_id ← checked_id "sandbox id" input.sandbox_id
  cwd ← required_field "sandbox cwd" input.cwd
  project ← checked_project input.project
  reference_roots ← checked_roots (or_else input.reference_roots [])
  returns (record {
    id = id;
    sandbox_id = sandbox_id;
    cwd = cwd;
    acquired_at_ms = if eqb input.acquired_at_ms 0 then now else input.acquired_at_ms;
    expires_at_ms = input.expires_at_ms;
    backend = some (or_else input.backend worktree);
    project = project;
    reference_roots = some reference_roots;
  })

abbrev pub line : String → String → String → LogLine
line level id message = record {
  level = level;
  target = some id;
  message = message;
  data_of = none;
}

abbrev pub keep_lease : Outcome SandboxLease → Throws SandboxStore SandboxLease
keep_lease (throws message) s = (throws message, s, [])
keep_lease (returns lease) s =
    (returns lease, set lease.id lease s, line "info" lease.id "sandbox lease registered" ∷ [])

unfoldable pub register : SandboxLease → ℕ → Throws SandboxStore SandboxLease
unfolding normalize_lease
register input now s = keep_lease (normalize_lease input now) s

-- `expiresAtMs === undefined || expiresAtMs > nowMs` is false.
unfoldable pub is_expired : ℕ → SandboxLease → Bool
is_expired now lease = elim lease.expires_at_ms [ none ↦ false | some t ↦ leb t now ]

-- The count, the store and the lines of the logger, in the loop of `expire`.
abbrev pub Expiring : Type 0
Expiring = ℕ × SandboxStore × List LogLine

-- One round: a lease that has expired is deleted, logged and counted.
unfoldable pub expire_one : ℕ → SandboxLease → Expiring → Expiring
expire_one now lease (count, s, lines) =
    if is_expired now lease
    then (suc count, delete lease.id s, lines ++ line "warn" lease.id "sandbox lease expired" ∷ [])
    else (count, s, lines)

unfoldable pub expire_each : ℕ → List SandboxLease → Expiring → Expiring
unfolding expire_one
expire_each now [] r = r
expire_each now (lease ∷ leases) r = expire_each now leases (expire_one now lease r)

unfoldable pub expire : ℕ → Act SandboxStore ℕ
unfolding expire_each is_expired
expire now s = expire_each now (values s) (0, s, [])

unfoldable pub list : ℕ → Act SandboxStore (List SandboxLease)
unfolding expire
list now s =
    let (count, t, lines) = expire now s in
    (sort (λ a b. ltb b.acquired_at_ms a.acquired_at_ms) (values t), t, lines)

unfoldable pub show : String → ℕ → Throws SandboxStore (Option SandboxLease)
unfolding expire checked_id
show id now s =
    let (count, t, lines) = expire now s in
    (checked_id "sandbox lease id" id >>= λ key. returns (get key t), t, lines)

abbrev pub release_found :
    Outcome (Option SandboxLease) × SandboxStore × List LogLine
    → Outcome (Option SandboxLease) × SandboxStore × List LogLine
release_found (throws message, s, lines) = (throws message, s, lines)
release_found (returns none, s, lines) = (returns none, s, lines)
release_found (returns (some lease), s, lines) = (
  returns (some lease),
  delete lease.id s,
  lines ++ line "info" lease.id "sandbox lease released" ∷ [],
)

unfoldable pub release : String → ℕ → Throws SandboxStore (Option SandboxLease)
unfolding show
release id now s = release_found (show id now s)
