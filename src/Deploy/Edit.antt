-- ===== src/Deploy/Edit.antt =====
-- The layers of the origin, in deploy_transaction_execute of
-- src/daemon/rpmostreed-transaction-types.cxx.
use rpm_ostree.Prelude.{
  Bool, true, false, ◌&&◌, ◌||◌, Option, none, some, List, [], ◌∷◌, if◌then◌else◌,
}
use rpm_ostree.Prelude.Text.{Text}
use rpm_ostree.Prelude.Result.{Result, Action, pure, call, ◌>>=◌, ◌>>◌}
use rpm_ostree.Txn.Effects.{vardict_lookup_bool}
use rpm_ostree.Prelude.Int.{ℤ}
use rpm_ostree.Deploy.Request.{DeployOptions, Modifiers, canonical}
use rpm_ostree.Deploy.Finish.{DeployStep, import_many_local_rpms}
use rpm_ostree.Deploy.Refspec.{is_container}
use rpm_ostree.Deploy.Title.{until_end}
use rpm_ostree.Deploy.Origin.{origin_add_packages, origin_remove_packages}
use rpm_ostree.Deploy.Overrides.{Sack, import_many, check_provided}
use rpm_ostree.Deploy.Env.{DeployEnv, Work, traced}

-- The elements of a list that may be NULL.
abbrev pub strv : Option (List Text) → List Text
strv none = []
strv (some xs) = xs

abbrev pub idempotent : DeployOptions → Bool
idempotent options = vardict_lookup_bool options.idempotent_layering false

module _ {O : Type 0} (env : DeployEnv O) where
  abbrev pub has_initramfs : O → Bool
  has_initramfs origin =
      env.api.get_initramfs_regenerate origin || env.api.has_initramfs_etc_files origin

  -- The option no-initramfs.
  unfoldable pub drop_initramfs : DeployOptions → Work O → Work O
  drop_initramfs options w =
      if vardict_lookup_bool options.no_initramfs false && has_initramfs w.origin
      then record w {
        origin =
            (env.api.initramfs_etc_files_untrack_all
              (env.api.set_initramfs_regenerate w.origin false [])).0;
        changed = true;
      }
      else w

  -- The option ex-cliwrap.
  unfoldable pub apply_cliwrap : Option Bool → Work O → Work O
  apply_cliwrap none w = w
  apply_cliwrap (some cliwrap) w = record w {
    origin = env.api.set_cliwrap w.origin cliwrap;
    changed = true;
  }

  -- The removal of packages.
  unfoldable pub remove_layered : DeployOptions → Modifiers → Work O → Action DeployStep (Work O)
  remove_layered options m w =
      if vardict_lookup_bool options.no_layering false
      then (let r = env.api.remove_all_packages w.origin in
          pure (record w {
            origin = r.0;
            changed = w.changed || r.1;
            remove_changed = w.remove_changed || r.1;
          }))
      else call (
          origin_remove_packages env.api w.origin (strv (canonical m.uninstall_packages))
            (idempotent options) w.remove_changed)
        >>= λ r. pure (record w { origin = r.0; remove_changed = r.1; changed = w.changed || r.1 })

  -- skip_base_check
  unfoldable pub skips_base_check : O → Action DeployStep Bool
  skips_base_check origin = call env.is_ostree_host >>= λ ostree_host.
      pure (ostree_host && is_container (env.api.get_base_refspec origin).kind)

  -- The packages of the base, which are loaded once.
  unfoldable pub load_base : Text → Work O → Action DeployStep (Work O × Sack)
  load_base base w = elim w.base_rsack [
    | some sack ↦ pure (w, sack)
    | none ↦ call (env.get_refsack_for_commit base) >>= λ sack.
        pure (record w { base_rsack = some sack }, sack)
  ]

  abbrev pub refuse_installed :
      DeployOptions → Bool → List Text → Work O → Action DeployStep (Work O)
  refuse_installed options skip pkgs w =
      if skip
      then pure w
      else load_base env.base w >>= λ r.
          call (check_provided r.1 (vardict_lookup_bool options.allow_inactive false) pkgs)
          >> pure r.0

  -- The installation of packages.
  unfoldable pub install_layered :
      DeployOptions → Bool → Option (List Text) → Work O → Action DeployStep (Work O)
  install_layered options skip none w = pure w
  install_layered options skip (some pkgs) w = refuse_installed options skip pkgs w >>= λ v.
      call (origin_add_packages env.api v.origin pkgs (idempotent options) v.changed) >>= λ r.
      pure (record v { origin = r.0; changed = r.1 })

  abbrev pub import_local : List ℤ → Action DeployStep (List Text)
  import_local fds =
      traced (import_many_local_rpms (until_end fds)) (import_many env.local_rpms (until_end fds))

  abbrev pub add_if_any :
      (List Text → O → Bool → Result (O × Bool)) → List Text → Work O → Action DeployStep (Work O)
  add_if_any add [] w = pure w
  add_if_any add (pkg ∷ pkgs) w = call (add (pkg ∷ pkgs) w.origin w.changed) >>= λ r.
      pure (record w { origin = r.0; changed = r.1 })

  -- The installation of local packages, and of those that override files.
  unfoldable pub install_local :
      (List Text → O → Bool → Result (O × Bool))
      → Option (List ℤ)
      → Work O
      → Action DeployStep (Work O)
  install_local add none w = pure w
  install_local add (some fds) w = import_local fds >>= λ pkgs. add_if_any add pkgs w
