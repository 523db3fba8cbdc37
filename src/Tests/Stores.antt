-- ===== src/Tests/Stores.antt =====
-- The stores on concrete files: an update, a mutation of the configuration, an approval.
use ripmcp.Base.{Bool, ◌≡◌, refl, true, false, Option, none, some, [], ◌∷◌, if◌then◌else◌}
use ripmcp.Base.BTreeMap.{insert}
use ripmcp.Base.Error.{Result, new, configuration, ok, err, ◌>>◌}
use ripmcp.Base.FilePath.{root_dir, normal, component_ord}
use ripmcp.Base.Order.{eqb, list_ord, nat_ord}
use ripmcp.Base.Text.{Text, codes}
use ripmcp.Config.Effective.{Effective, default_timeouts, default_configuration}
use ripmcp.Config.Mutation.{Codec}
use ripmcp.Config.Project.{Project}
use ripmcp.Config.Types.{local, npx, Server}
use ripmcp.Storage.Locked.{LockedStore, Interference}
use ripmcp.Storage.Transaction.{Bytes, Disk, Outcomes}
use ripmcp.Trust.{TrustStore, bad_approval, require_external, is_approved, approve_bytes}
use ripmcp.Trust.Laws.{is_approved-approve_bytes}

-- The rename fails.
abbrev no_rename : Outcomes
no_rename = record {
  at_start = ok tt;
  open_directory = ok tt;
  lock_file = ok tt;
  acquire = ok tt;
  read = ok tt;
  remove = ok tt;
  create = ok tt;
  write = ok tt;
  written = [];
  sync = ok tt;
  before_replace = ok tt;
  metadata = ok tt;
  replace = err (new configuration "rename");
  sync_directory = ok tt;
  ledger = ok tt;
}

abbrev no_failure : Outcomes
no_failure = record no_rename { replace = ok tt }

abbrev old_file : Disk
old_file = record { file = some (1 ∷ []); pending = none }

abbrev add_byte : Option Bytes → Result (Bytes × Text)
add_byte none = ok (0 ∷ [], codes "made")
add_byte (some bytes) = ok (0 ∷ bytes, codes "changed")

-- One byte for each server.
abbrev codec : Codec
codec = record {
  parse = λ bytes. ok default_configuration;
  validate = λ config. ok tt;
  to_vec = λ config. 0 ∷ [];
  to_vec_pretty = λ config. 2 ∷ [];
}

abbrev clock : Server
clock = record {
  enabled = true;
  disabled_tools = [];
  definition =
      local
        (record { runtime = npx; package_name = codes "clock"; args = []; env = []; cwd = none });
}

abbrev no_project : Effective
no_project = record {
  entries = [];
  timeouts = default_timeouts;
  project = none;
  start = root_dir ∷ [];
}

abbrev nothing_approved : Project → Result Bool
nothing_approved p = ok false

abbrev hex_digest : Text
hex_digest = codes "00112233445566778899aabbccddeeff00112233445566778899aabbccddeeff"

abbrev approved_project : Project
approved_project = record {
  root = root_dir ∷ normal (codes "work") ∷ [];
  bytes = 1 ∷ [];
  configuration = default_configuration;
  digest = hex_digest;
}

abbrev changed_project : Project
changed_project = record approved_project { digest = codes "other" }

-- Reads one approval from every file.
abbrev trust_store : TrustStore
trust_store = record {
  directory = root_dir ∷ normal (codes "state") ∷ [];
  from_slice = λ bytes. some ((approved_project.root, hex_digest) ∷ []);
  to_vec_pretty = λ approvals. 7 ∷ [];
}

well_formed : bad_approval approved_project.root hex_digest ≡ false
unfolding bad_approval
well_formed = refl

read_back :
    trust_store.from_slice (trust_store.to_vec_pretty (insert approved_project.root hex_digest []))
    ≡ some (insert approved_project.root hex_digest [])
unfolding insert
read_back = refl

approved : approve_bytes trust_store approved_project none ≡ ok (7 ∷ [], tt)
unfolding approve_bytes
approved = refl

is_approved-approve_bytes_example : is_approved trust_store changed_project (ok (some (7 ∷ []))) ≡ (
    if eqb changed_project.root approved_project.root
    then (require_external trust_store changed_project
        >> ok (eqb approved_project.digest changed_project.digest))
    else is_approved trust_store changed_project (ok none))
is_approved-approve_bytes_example =
    is_approved-approve_bytes trust_store approved_project changed_project none [] well_formed refl
      read_back approved

abbrev found_one : LockedStore
found_one = record { previous = some (1 ∷ []) }

-- Someone else changes the file after the second look.
abbrev late_write : Interference
late_write = record {
  first = ok tt;
  second = ok tt;
  early = λ file. file;
  others = λ file. file;
  late = λ file. some (9 ∷ []);
}
