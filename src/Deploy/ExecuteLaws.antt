-- ===== src/Deploy/ExecuteLaws.antt =====
-- What a whole run of deploy_transaction_execute may do to the outside.
use rpm_ostree.Prelude.{ℕ, ◌≡◌, refl, Bool, true, false, Option, none, some, List, [], arith}
use rpm_ostree.Prelude.Text.{Text, codes}
use rpm_ostree.Prelude.Keeps.{
  Keeps, Allows, throw-Keeps, >>=-Keeps, call-Keeps, perform-Keeps, attempt-Keeps, if-Keeps,
}
use rpm_ostree.Deploy.Request.{DeployFlags, DeployOptions, Modifiers}
use rpm_ostree.Deploy.Fds.{LocalFds}
use rpm_ostree.Deploy.Finish.{
  DeployStep, output_message, set_title, record_driver_info, migrate_pkgcache, finish,
}
use rpm_ostree.Deploy.FinishLaws.{Ordered, ordered, finish-Keeps, Ordered-Allows}
use rpm_ostree.Deploy.Env.{DeployEnv, Work}
use rpm_ostree.Deploy.Execute.{
  finish_env, install_all, compute_origin, edit_and_finish, transact, record_driver,
  register_and_transact, checked, execute_from, execute,
}
use rpm_ostree.Deploy.Title.{upgrader_flags, metadata_only_compatible, no_overrides_compatible}
use rpm_ostree.Deploy.Target.{unchanged}
use rpm_ostree.Deploy.Edit.{drop_initramfs, apply_cliwrap}
use rpm_ostree.Deploy.EditLaws.{
  prepares, g_assert-Keeps, local_rebase-Keeps, change_refspec-Keeps, change_revision-Keeps,
  remove_layered-Keeps, skips_base_check-Keeps, install_layered-Keeps, install_local-Keeps,
}
use rpm_ostree.Deploy.ReplaceLaws.{
  change_overrides-Keeps, merge-Keeps, pull-Keeps, remove_overridden-Keeps,
}

-- A property of the trace that the preparing steps allow is kept by the whole if it is kept by the end.
module _ (P : List DeployStep → Type 0) (allows : (s : DeployStep) → prepares s ≡ true → Allows P s)
    {O : Type 0} (env : DeployEnv O) (options : DeployOptions) (m : Modifiers)
    (flags : DeployFlags) where
  abbrev FinishKeeps : Type 0
  FinishKeeps =
      (local : LocalFds) (refspec old : Option Text) (skip : Bool) (w : Work O)
      → Keeps P (finish (finish_env env options m local flags refspec old skip w))

  compute_origin-Keeps :
      (local : LocalFds) (skip : Bool) (w : Work O)
      → Keeps P (compute_origin env options m local flags skip w)
  unfolding compute_origin install_all
  compute_origin-Keeps local skip w =
      >>=-Keeps P _ _
        (>>=-Keeps P _ _
          (>>=-Keeps P _ _
            (>>=-Keeps P _ _
              (>>=-Keeps P _ _
                (>>=-Keeps P _ _ (install_layered-Keeps P allows env options skip _ w)
                  (install_local-Keeps P allows env _ local.install_local))
                (install_local-Keeps P allows env _ local.install_fileoverride_local))
              (change_overrides-Keeps P allows env options m local))
            (merge-Keeps P allows env m.treefile))
          (pull-Keeps P allows env flags))
        (remove_overridden-Keeps P allows env flags _)

  module _ (finishes : FinishKeeps) where
    edit_and_finish-Keeps :
        (local : LocalFds) (refspec old : Option Text) (origin : O)
        → Keeps P (edit_and_finish env options m local flags refspec old origin)
    unfolding edit_and_finish
    edit_and_finish-Keeps local refspec old origin =
        >>=-Keeps P _ _
          (remove_layered-Keeps P allows env options m
            (apply_cliwrap env options.ex_cliwrap (drop_initramfs env options (unchanged origin))))
          (λ w. >>=-Keeps P _ _ (skips_base_check-Keeps P allows env w.origin) (λ skip.
            >>=-Keeps P _ _ (compute_origin-Keeps local skip w) (finishes local refspec old skip)))

    transact-Keeps : (local : LocalFds) → Keeps P (transact env options m local flags)
    unfolding transact
    transact-Keeps local =
        >>=-Keeps P _ _
          (>>=-Keeps P _ _
            (>>=-Keeps P _ _
              (>>=-Keeps P _ _ (g_assert-Keeps P allows (metadata_only_compatible flags options))
                (λ _. g_assert-Keeps P allows (no_overrides_compatible options m local)))
              (λ _. attempt-Keeps P migrate_pkgcache env.migrate (allows migrate_pkgcache refl)))
            (λ _. call-Keeps P (env.upgrader_new (upgrader_flags flags options m))))
          (λ base_origin.
            >>=-Keeps P _ _ (local_rebase-Keeps P allows env local m.set_refspec) (λ refspec.
              >>=-Keeps P _ _ (change_refspec-Keeps P allows env options refspec base_origin) (λ r.
                >>=-Keeps P _ _ (change_revision-Keeps P allows env options m.set_revision r.0)
                  (edit_and_finish-Keeps local refspec r.1))))

    record_driver-Keeps :
        (driver : Text) (unit : Option Text) → Keeps P (record_driver env driver unit)
    unfolding record_driver
    record_driver-Keeps driver none = throw-Keeps P (codes "could not find caller systemd unit")
    record_driver-Keeps driver (some unit) = >>=-Keeps P _ _ (call-Keeps P env.mkdir_run_dir) (λ _.
        attempt-Keeps P (record_driver_info driver) env.write_driver_info
          (allows (record_driver_info driver) refl))

    register_and_transact-Keeps :
        (local : LocalFds) (driver : Option Text)
        → Keeps P (register_and_transact env options m local flags driver)
    unfolding register_and_transact
    register_and_transact-Keeps local none = transact-Keeps local
    register_and_transact-Keeps local (some driver) =
        >>=-Keeps P _ _ (record_driver-Keeps driver env.sd_unit) (λ _.
          if-Keeps P _ _ _ (perform-Keeps P _ (allows (output_message _) refl))
            (transact-Keeps local))

    checked-Keeps :
        (print_u : ℕ → Text) (local : Option LocalFds)
        → Keeps P (checked env print_u options m flags local)
    unfolding checked
    checked-Keeps print_u none = g_assert-Keeps P allows false
    checked-Keeps print_u (some local) =
        >>=-Keeps P _ _
          (>>=-Keeps P _ _ (call-Keeps P _) (λ _. perform-Keeps P _ (allows (set_title _) refl)))
          (λ _. register_and_transact-Keeps local options.register_driver)

    pub execute_from-Keeps :
        (print_u : ℕ → Text) (fd_list : Option (List ℕ))
        → Keeps P (execute_from env print_u options m flags fd_list)
    unfolding execute_from
    execute_from-Keeps print_u fd_list =
        if-Keeps P _ _ _ (throw-Keeps P _) (checked-Keeps print_u _)

prepares-Ordered : (s : DeployStep) → prepares s ≡ true → Allows Ordered s
prepares-Ordered s e = Ordered-Allows s (ground (arith, e))

-- Whatever the request is and whatever calls fail on the way, no old ref is purged, nothing is applied
-- live and no reboot is started unless the new deployment was made before.
pub execute-ordered :
    {O : Type 0} (env : DeployEnv O) (print_u : ℕ → Text) (options : DeployOptions) (m : Modifiers)
    (flags : DeployFlags) (fd_list : Option (List ℕ))
    → ordered false (execute env print_u options m flags fd_list []).1 ≡ true
unfolding execute
execute-ordered env print_u options m flags fd_list =
    (execute_from-Keeps Ordered prepares-Ordered env options m _
        (λ local refspec old skip w. finish-Keeps _) print_u fd_list).at
      [] refl
