-- ===== src/Gateway/Sandboxes/Tests.antt =====
-- Two sandbox leases, one of which expires.
use mathlib.Core.Path.{◌≡◌, refl}
use snapdragon.Prelude.{◌↔◌, none, some, [], ◌∷◌, In}
use snapdragon.Prelude.Maps.{get, set, delete}
use snapdragon.Prelude.Sorting.{sort}
use snapdragon.Prelude.Texts.{trim, is_id, utf16_length}
use snapdragon.Gateway.Effects.{returns}
use snapdragon.Gateway.Sandboxes.{
  SandboxLease, SandboxStore, worktree, required_field, checked_id, checked_project, checked_roots,
  normalize_lease, register, is_expired, expire_one, expire_each, expire, list, show, release,
}
use snapdragon.Gateway.Sandboxes.Expiry.{IsValid, IsLive, register-IsValid, list-IsLive}

sandboxes_run : Unit {0}
unfolding required_field checked_id checked_project checked_roots normalize_lease register
    is_expired expire_one expire_each expire list show release get set delete sort trim is_id
    utf16_length
sandboxes_run = tt

abbrev lasting : SandboxLease
lasting = record {
  id = "a";
  sandbox_id = "s";
  cwd = "/work";
  acquired_at_ms = 0;
  expires_at_ms = none;
  backend = none;
  project = none;
  reference_roots = none;
}

abbrev brief : SandboxLease
brief = record lasting { id = "b"; acquired_at_ms = 20; expires_at_ms = some 50 }

abbrev stored : SandboxLease
stored = record lasting { acquired_at_ms = 10; backend = some worktree; reference_roots = some [] }

empty-IsValid : IsValid []
unfolding get
empty-IsValid = record { unique = tt; keyed = λ k lease h. cc h }

abbrev both : SandboxStore
both = (register brief 20 (register lasting 10 []).1).1

both-IsValid : IsValid both
both-IsValid = register-IsValid brief 20 _ (register-IsValid lasting 10 [] empty-IsValid)

list_runs : (list 60 both).0 ≡ stored ∷ []
unfolding sandboxes_run
list_runs = refl

list-IsLive_example :
    In stored (list 60 both).0 ↔ (IsLive 60 stored × (get stored.id both ≡ some stored))
list-IsLive_example = list-IsLive 60 both stored both-IsValid

releases : (release " a " 60 both).0 ≡ returns (some stored)
unfolding sandboxes_run
releases = refl
