-- ===== src/Txn/Effects.antt =====
-- What the transactions of src/daemon/rpmostreed-transaction-types.cxx do to the outside, and the
-- look-up of their options.
use rpm_ostree.Prelude.{Bool, Option, none, some, List}
use rpm_ostree.Prelude.Text.{Text}
use rpm_ostree.Prelude.Result.{Result, Action, call, perform, do_if, ◌>>◌}
use rpm_ostree.Sysroot.Deployments.{Deployment}

pub data Effect : Type 0 where
  write_deployments : List Deployment → Effect
  base_cleanup : Effect
  clear_repomd : Effect
  set_kargs : List Text → Effect
  deploy : Effect
  change_finalization : Effect
  bump_mtime : Effect
  reboot : Effect

-- vardict_lookup_bool
unfoldable pub vardict_lookup_bool : Option Bool → Bool → Bool
vardict_lookup_bool none dfault = dfault
vardict_lookup_bool (some b) dfault = b

-- The reboot at the end; `locks` is the answer of check_sd_inhibitor_locks.
abbrev pub reboot_if : Bool → Result (Unit {0}) → Action Effect (Unit {0})
reboot_if wanted locks = do_if wanted (call locks >> perform reboot)
