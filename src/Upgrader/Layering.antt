-- ===== src/Upgrader/Layering.antt =====
-- How the upgrader decides on layering: rpmostree_sysroot_upgrader_prep_layering and
-- prep_local_assembly of src/daemon/rpmostree-sysroot-upgrader.cxx.
use rpm_ostree.Prelude.{Bool, true, not, ◌&&◌, Option, none, some, if◌then◌else◌}
use rpm_ostree.Prelude.Text.{Text, text_eq, codes}
use rpm_ostree.Prelude.Result.{Action, pure, throw, call, do_if, ◌>>=◌, ◌>>◌}
use rpm_ostree.Deploy.Finish.{LayeringType, layering_none, layering_local, layering_rpmmd_repos}
use rpm_ostree.Upgrader.Env.{LayerStep, Upgrader, LayerEnv, is_rpmmd_repos, g_assert}
use rpm_ostree.Upgrader.Overrides.{finalize_overrides}

module _ {O : Type 0} (env : LayerEnv O) where
  -- The layering_changed of prep_local_assembly.
  unfoldable pub state_changed : Upgrader O → LayeringType → Option Text → Action LayerStep Bool
  state_changed u kind none =
      pure
        (not (is_rpmmd_repos kind && env.origin_is_container u.origin && env.has_empty_transaction))
  state_changed u kind (some final) = call (env.previous_state_sha512 final) >>= λ previous.
      call env.new_state_sha512 >>= λ new. pure (not (text_eq previous new))

  abbrev pub kind_of : O → LayeringType
  kind_of origin = if env.has_any_packages origin then layering_rpmmd_repos else layering_local

  abbrev pub incompatible : Text
  incompatible =
      codes "initramfs regeneration and /etc overlay not compatible; use dracut arg -I instead"

  -- The calls of prep_local_assembly.
  abbrev pub set_up : Upgrader O → Action LayerStep Bool
  set_up u =
      call env.checkout_base_tree
      >> call env.context_setup
      >> do_if (env.has_any_packages u.origin) (call env.context_prepare)
      >> state_changed u (kind_of u.origin) u.final_revision

  abbrev pub layered : Upgrader O → Bool → Upgrader O
  layered u changed = record u {
    has_context = true;
    layering_type = kind_of u.origin;
    layering_changed = changed;
  }

  unfoldable pub prep_local_assembly : Upgrader O → Action LayerStep (Upgrader O)
  prep_local_assembly u =
      g_assert (not u.has_context)
      >> (if env.get_regenerate_initramfs u.origin && env.has_initramfs_etc_files u.origin
          then throw incompatible
          else (set_up u >>= λ changed. pure (layered u changed)))

  abbrev pub no_assembly : Upgrader O → Upgrader O
  no_assembly u = record u { final_revision = none }

  abbrev pub after_finalize : Upgrader O → Action LayerStep (Upgrader O)
  after_finalize u =
      if env.may_require_local_assembly u.origin
      then prep_local_assembly u
      else pure (no_assembly u)

  abbrev pub initialized : Upgrader O → Upgrader O
  initialized u = record u { layering_initialized = true; layering_type = layering_none }

  abbrev pub with_origin : Upgrader O → O → Upgrader O
  with_origin u origin = record u { origin = origin }

  -- The overrides that the base makes inactive leave the computed origin, and then the requests.
  abbrev pub computed : O → Action LayerStep O
  computed origin =
      call env.load_base_rsack
      >> call (finalize_overrides env.base_sack env.override_api origin)
      >>= λ overridden. call (env.finalize_overlays overridden)

  abbrev pub finalized : Upgrader O → Action LayerStep (Upgrader O)
  finalized u = computed u.origin >>= λ origin. pure (with_origin u origin)

  -- rpmostree_sysroot_upgrader_prep_layering; *out_layering is layering_type, and *out_changed is
  -- layering_changed where that is not NONE, and FALSE else.
  unfoldable pub prep_layering : Upgrader O → Action LayerStep (Upgrader O)
  prep_layering u =
      if not (env.may_require_local_assembly u.origin)
      then pure (no_assembly (initialized u))
      else if env.lock_layering
      then throw (codes "Cannot operate; `LockLayering=true` in configuration.")
      else (finalized (initialized u) >>= after_finalize)
