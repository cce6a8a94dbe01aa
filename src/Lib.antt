-- ===== src/Lib.antt =====
-- The daemon of rpm-ostree and the library it works with, modelled from src/daemon, src/libpriv,
-- src/lib and, for a few functions, rust/src.
--
-- rpm-ostree's daemon owns the sysroot and runs one transaction at a time. A client calls a D-Bus
-- method (src/daemon/rpmostreed-os.cxx); the sysroot object (src/daemon/rpmostreed-sysroot.cxx) either
-- refuses, or joins the client to the transaction in its slot, or a new transaction object
-- (src/daemon/rpmostreed-transaction.cxx) is made, which locks the sysroot, serves a private
-- connection, waits for Start(), runs a worker thread, reports Finished, and goes when its clients
-- have gone. The daemon object (src/daemon/rpmostreed-daemon.cxx) counts the clients and exits when it
-- is idle. The worker thread assembles a root with src/libpriv: it checks what the solver decided,
-- imports packages in parallel into branches of the package cache, and compares package sets.
--
-- Daemon/Objects, Sysroot, Transaction, Lifecycle: the fields of the two objects as records, and one
--   function for each handler, named like it without its prefix (rpmostreed_sysroot_set_txn is
--   set_txn). `World` has the slot, the timer, the active-transaction property, the live
--   transaction objects by number, and the signals emitted. A failed g_assert is `none`.
-- Daemon/Events: the main loop as a sequence of events, each one dispatch. Handlers run one after
--   another on the main thread; the worker thread acts only through its result.
-- Daemon/Invariant, Preserve, Start, Safety, Progress: the invariant, and what follows from it.
-- Daemon/Output: transaction_output_cb. Daemon/Status, StatusLaws: clients, idle exit and the
--   main loop, which tests whether to go on once for all that an iteration dispatches.
-- Daemon/Authorize, AuthorizeLaws: os_authorize_method of src/daemon/rpmostreed-os.cxx, which says what
--   the caller of a method needs; polkit's answers are arguments.
-- Deploy/: deploy_transaction_execute of src/daemon/rpmostreed-transaction-types.cxx. Request has what a
--   client asks for, Message the dictionary it comes in, as the authorization and the transaction
--   read it. Fds and FdsLaws count and split the file descriptors, Check and CheckLaws refuse
--   conflicting options, Refspec, RefspecParse and RefspecLaws change the origin's refspec
--   (change_origin_refspec, apply_revision_override, and rpmostreed_refspec_parse_partial of
--   rpmostreed-utils.cxx). Title has
--   the title and the flags of the upgrader, Origin the setters of src/libpriv/rpmostree-origin.cxx,
--   Overrides the loops over packages and overrides, Env the environment and the local variables,
--   Target, Edit and Replace the changes to the origin in their order, and Finish and FinishLaws the
--   part behind the point where the origin is computed. Execute composes them; EditLaws,
--   ReplaceLaws, ExecuteLaws and InertLaws follow the trace of a whole run. An assertion that fails
--   is the last step of the trace. AutoUpdate and AutoUpdateLaws are
--   os_handle_automatic_update_trigger of src/daemon/rpmostreed-os.cxx, which starts such a run.
-- Upgrader/: src/daemon/rpmostree-sysroot-upgrader.cxx. PullBase is the pull of the base, Overrides what
--   finalize_overrides leaves of the origin, Layering the choice between pure ostree and layering,
--   Deploy the import, the assembly and the deployment; run_upgrade composes them the way
--   deploy_transaction_execute does. Env has the state and the environment. PullBaseLaws, LayeringLaws,
--   AssemblyLaws and DeployLaws follow the state and the trace through a run. The transaction's own
--   model, in Deploy/, has the upgrader in its environment: how each call ends is an argument there.
-- History/: rpmostreed_repo_pull_ancestry of src/daemon/rpmostreed-utils.cxx (Pull, Batch, PullLaws) and
--   the look-ups that visit a history with it (Lookup, LookupLaws).
-- Txn/: the execute methods of the other transactions of that file, with their laws beside them:
--   Cleanup (on the filter of Sysroot/Deployments), Rollback, Finalize, Initramfs (InitramfsEtc and
--   SetInitramfsState; InitramfsSet has the set that the list stands for), KernelArgs and ModifyRepo
--   (ModifyYumRepo). Effects has what they do to the outside. Inhibitors is check_sd_inhibitor_locks of
--   src/daemon/rpmostreed-utils.cxx, which Finalize runs; the other transactions have its result as an
--   argument.
-- PackageDiff/: _rpm_ostree_diff_package_lists of src/lib/rpmostree-package.c (Defs, Partition, Sorted,
--   Exact), and rpm_diff_add_db_diff of src/daemon/rpmostreed-deployment-utils.cxx on it (Update).
-- Core/Import, ImportLaws, ImportLoop, ImportEnd: rpmostree_context_import and its callbacks, from
--   src/libpriv/rpmostree-core.cxx. Core/Goal, GoalLaws, GoalAccepts: check_goal_solution.
--   Core/Packages, PackagesLaws: find_pkg_in_ostree and sort_packages. Core/Relabel, RelabelLoop,
--   RelabelLaws: relabel_if_necessary, rpmostree_context_force_relabel and their callbacks.
-- Rpm/Branch, BranchLaws: append_quoted and the branch names of src/libpriv/rpmostree-rpm-util.cxx, and
--   cache_branch_to_nevra of rust/src/rpmutils.rs. Rpm/HeaderDiff, HeaderDiffLaws: rpmhdrs_diff.
-- Sysroot/Deployments: the filters of src/daemon/rpmostree-sysroot-core.cxx.
-- Util/Bsearch, DiffPrint, Version: rpmostree_variant_bsearch_str, rpmostree_diff_print and
--   increment_version of src/libpriv/rpmostree-util.cxx.
-- An execute method is an `Action` (Prelude/Result): it takes the list of effects so far and gives its
--   result and the longer list; a call that sets a GError ends it. How the calls of ostree, the
--   upgrader and polkit end is in the method's environment, so that a theorem over all
--   environments holds for every combination of failures. Prelude/Keeps has the rules for a
--   property that a routine keeps.
-- Prelude: texts as lists of bytes, tests on numbers, and list lemmas. Tests: runs on concrete inputs.
--
-- Numbers are natural numbers; where the source's arithmetic can wrap, the wrap-around is written out:
-- 64 bits in Bsearch and Version, 32 bits in the percentage of Output, in the number of expected
-- descriptors, in the depth of a pull, in the counters of the relabelling, in the idle timeout and in the
-- position that Bsearch gives, an int. Handles of a D-Bus message are C ints, and may be negative. The
-- fuel of Bsearch is the length of the array and one, and that of DiffPrint a number above that of the
-- packages; neither runs out. A pull of a history runs on fuel above its length by two, since every pass
-- but the last visits a commit. The loop of the import is bounded by the packages that are left, and needs
-- no other bound.
--
-- Taken as given: GLib's source and watch ids are positive, and fresh when they are made. The slot and
-- a pending GTask are the references to a transaction object, so that it is finalized when neither
-- holds it. What D-Bus, ostree, the solver, the importers and the execute methods answer is an argument.
-- ostree_parse_refspec takes a remote and a ref in the form of libostree's regular expressions apart.
-- The comparison of versions by librpm, that of packages, and the conversions of numbers to and from
-- digits are parameters.
--
-- Not modelled: the package diff and RefreshMd transactions; of the history of a branch the cached
-- look-up; of the upgrader its initialisation, what finalize_overlays leaves of the origin, the history
-- and the kernel arguments; the checkout, the assembly and postprocessing of a root, the client programs
-- and the Rust library, which are mostly calls of ostree, libdnf and the file system;
-- progress that is redirected or journalled; and the assertion of rpmostreed_daemon_reboot.
pub mod Prelude
pub mod Core
pub mod Daemon
pub mod Sysroot
pub mod Rpm
pub mod PackageDiff
pub mod Txn
pub mod Deploy
pub mod Upgrader
pub mod History
pub mod Util
pub mod Tests
