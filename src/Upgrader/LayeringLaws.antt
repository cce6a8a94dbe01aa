-- ===== src/Upgrader/LayeringLaws.antt =====
-- That the calls of a transaction on the upgrader fit together, and what they deploy.
use rpm_ostree.Prelude.{
  ◌≡◌, refl, subst, ◌⊎◌, Bool, true, false, not, ◌&&◌, Option, none, some, List, [], ◌∷◌, All,
  All-append, arith,
}
use rpm_ostree.Prelude.Text.{Text, codes}
use rpm_ostree.Prelude.Result.{ok, pure, call, throw, ◌>>=◌}
use rpm_ostree.Prelude.Keeps.{
  Keeps, Allows, Yields, pure-Keeps, >>=-Keeps, call-Keeps, do_if-Keeps, >>=-Yields, pure-Yields,
  throw-Yields, Keeps-Yields, branch-Yields,
}
use rpm_ostree.Upgrader.Env.{
  LayerStep, Upgrader, LayerEnv, stage_tree, deploy_tree, assertion_failed, is_layering_none,
  g_assert,
}
use rpm_ostree.Upgrader.Layering.{
  prep_layering, prep_local_assembly, state_changed, finalized, computed, initialized,
  after_finalize, kind_of, set_up, layered, incompatible, no_assembly, with_origin,
}
use rpm_ostree.Deploy.Finish.{LayeringType}
use rpm_ostree.Upgrader.Overrides.{finalize_overrides}

module _ {O : Type 0} (env : LayerEnv O) where
  -- The step is no failed assertion, and a deployed tree is the base or the commit of the assembly.
  abbrev pub Sound : Text → LayerStep → Type 0
  Sound base (stage_tree rev) = (rev ≡ base) ⊎ (env.context_commit ≡ ok rev)
  Sound base (deploy_tree rev) = (rev ≡ base) ⊎ (env.context_commit ≡ ok rev)
  Sound base assertion_failed = ⊥
  Sound base _ = Unit

  -- A state after prep_layering: layering that is locked is not needed, and without layering there is no
  -- final revision.
  pub record Ready (base : Text) (u : Upgrader O) : Type 0 where
    pub is_initialized : u.layering_initialized ≡ true
    pub same_base : u.base_revision ≡ base
    pub unlocked : is_layering_none u.layering_type ≡ false → env.lock_layering ≡ false
    pub etc_unlocked : env.has_initramfs_etc_files u.origin ≡ true → env.lock_layering ≡ false
    pub no_final : is_layering_none u.layering_type ≡ true → u.final_revision ≡ none

  -- Files that are tracked for the initramfs require an assembly.
  abbrev pub EtcRequires : Type 0
  EtcRequires =
      (o : O) → env.has_initramfs_etc_files o ≡ true → env.may_require_local_assembly o ≡ true

  kind_of-some : (o : O) → is_layering_none (kind_of env o) ≡ false
  kind_of-some o = ground arith

  module _ (base : Text) where
    abbrev pub AllSound : List LayerStep → Type 0
    AllSound log = All (Sound base) log

    -- The state is ready, and as many packages are imported as before.
    abbrev pub ReadyWith : Bool → Upgrader O → Type 0
    ReadyWith imported v = Ready base v × (v.pkgs_imported ≡ imported)

    pub Sound-Allows : (s : LayerStep) → Sound base s → Allows AllSound s
    Sound-Allows s sound log p = All-append (Sound base) log (s ∷ []) p (sound, tt)

    pub g_assert-Keeps : (b : Bool) → b ≡ true → Keeps AllSound (g_assert b)
    g_assert-Keeps true e = pure-Keeps AllSound tt
    g_assert-Keeps false e = cc

    state_changed-Keeps :
        (u : Upgrader O) (kind : LayeringType) (final : Option Text)
        → Keeps AllSound (state_changed env u kind final)
    unfolding state_changed
    state_changed-Keeps u kind none = pure-Keeps AllSound _
    state_changed-Keeps u kind (some final) =
        >>=-Keeps AllSound _ _ (call-Keeps AllSound (env.previous_state_sha512 final)) (λ previous.
          >>=-Keeps AllSound _ _ (call-Keeps AllSound env.new_state_sha512)
            (λ new. pure-Keeps AllSound _))

    set_up-Keeps : (u : Upgrader O) → Keeps AllSound (set_up env u)
    set_up-Keeps u =
        >>=-Keeps AllSound _ _
          (>>=-Keeps AllSound _ _
            (>>=-Keeps AllSound _ _ (call-Keeps AllSound env.checkout_base_tree)
              (λ _. call-Keeps AllSound env.context_setup))
            (λ _.
              do_if-Keeps AllSound (env.has_any_packages u.origin) (call env.context_prepare)
                (call-Keeps AllSound env.context_prepare)))
          (λ _. state_changed-Keeps u (kind_of env u.origin) u.final_revision)

    layered-Ready :
        (u : Upgrader O) (changed : Bool)
        → u.layering_initialized ≡ true
        → u.base_revision ≡ base
        → env.lock_layering ≡ false
        → ReadyWith u.pkgs_imported (layered env u changed)
    layered-Ready u changed i b l = (
      record {
        is_initialized = i;
        same_base = b;
        unlocked = λ h. l;
        etc_unlocked = λ h. l;
        no_final = λ n. absurd (ground (arith, n, kind_of-some u.origin));
      },
      refl,
    )

    prep_local_assembly-Yields :
        (u : Upgrader O)
        → u.layering_initialized ≡ true
        → u.base_revision ≡ base
        → env.lock_layering ≡ false
        → u.has_context ≡ false
        → Yields AllSound (ReadyWith u.pkgs_imported) (prep_local_assembly env u)
    unfolding prep_local_assembly
    prep_local_assembly-Yields u i b l c =
        >>=-Yields AllSound (λ _. Unit {0}) (ReadyWith u.pkgs_imported)
          (g_assert (not u.has_context)) _
          (Keeps-Yields AllSound (g_assert (not u.has_context))
            (g_assert-Keeps (not u.has_context) (ground (arith, c))))
          (λ _ e.
            branch-Yields AllSound (ReadyWith u.pkgs_imported)
              (env.get_regenerate_initramfs u.origin && env.has_initramfs_etc_files u.origin)
              (throw (incompatible env)) (set_up env u >>= λ changed. pure (layered env u changed))
              (λ h. throw-Yields AllSound (ReadyWith u.pkgs_imported) (incompatible env))
              (λ h.
                >>=-Yields AllSound (λ c. Unit {0}) (ReadyWith u.pkgs_imported) (set_up env u)
                  (λ changed. pure (layered env u changed))
                  (Keeps-Yields AllSound (set_up env u) (set_up-Keeps u))
                  (λ changed e.
                    pure-Yields AllSound (ReadyWith u.pkgs_imported) (layered env u changed)
                      (layered-Ready u changed i b l))))

    no_assembly-Ready :
        (u : Upgrader O)
        → EtcRequires
        → u.layering_initialized ≡ true
        → u.base_revision ≡ base
        → is_layering_none u.layering_type ≡ true
        → env.may_require_local_assembly u.origin ≡ false
        → ReadyWith u.pkgs_imported (no_assembly env u)
    no_assembly-Ready u etc i b n m = (
      record {
        is_initialized = i;
        same_base = b;
        unlocked = λ h. absurd (ground (arith, h, n));
        etc_unlocked = λ h. absurd (ground (arith, m, etc u.origin h));
        no_final = λ h. refl;
      },
      refl,
    )

    -- The state when the origin is finalized.
    abbrev pub Fresh : Bool → Upgrader O → Type 0
    Fresh imported v =
        (v.layering_initialized ≡ true)
        × (v.base_revision ≡ base)
        × (is_layering_none v.layering_type ≡ true)
        × (v.pkgs_imported ≡ imported)
        × (v.has_context ≡ false)

    computed-Keeps : (o : O) → Keeps AllSound (computed env o)
    computed-Keeps o =
        >>=-Keeps AllSound _ _
          (>>=-Keeps AllSound _ _ (call-Keeps AllSound env.load_base_rsack)
            (λ _. call-Keeps AllSound (finalize_overrides env.base_sack env.override_api o)))
          (λ overridden. call-Keeps AllSound (env.finalize_overlays overridden))

    finalized-Yields :
        (u : Upgrader O)
        → u.base_revision ≡ base
        → u.has_context ≡ false
        → Yields AllSound (Fresh u.pkgs_imported) (finalized env (initialized env u))
    finalized-Yields u b c =
        >>=-Yields AllSound (λ o. Unit {0}) (Fresh u.pkgs_imported) (computed env u.origin)
          (λ o. pure (with_origin env (initialized env u) o))
          (Keeps-Yields AllSound (computed env u.origin) (computed-Keeps u.origin))
          (λ o e.
            pure-Yields AllSound (Fresh u.pkgs_imported) (with_origin env (initialized env u) o)
              (refl, b, refl, refl, c))

    after_finalize-Yields :
        (imported : Bool) (v : Upgrader O)
        → EtcRequires
        → env.lock_layering ≡ false
        → Fresh imported v
        → Yields AllSound (ReadyWith imported) (after_finalize env v)
    after_finalize-Yields imported v etc l (i, b, n, same, c) =
        subst (λ k. Yields AllSound (ReadyWith k) (after_finalize env v)) same
          (branch-Yields AllSound (ReadyWith v.pkgs_imported)
            (env.may_require_local_assembly v.origin) (prep_local_assembly env v)
            (pure (no_assembly env v)) (λ h. prep_local_assembly-Yields v i b l c)
            (λ h.
              pure-Yields AllSound (ReadyWith v.pkgs_imported) (no_assembly env v)
                (no_assembly-Ready v etc i b n h)))

    pub prep_layering-Yields :
        (u : Upgrader O)
        → EtcRequires
        → u.base_revision ≡ base
        → u.has_context ≡ false
        → Yields AllSound (ReadyWith u.pkgs_imported) (prep_layering env u)
    unfolding prep_layering
    prep_layering-Yields u etc b c =
        branch-Yields AllSound (ReadyWith u.pkgs_imported)
          (not (env.may_require_local_assembly u.origin)) _ _
          (λ h.
            pure-Yields AllSound (ReadyWith u.pkgs_imported) (no_assembly env (initialized env u))
              (no_assembly-Ready (initialized env u) etc refl b refl (ground (arith, h))))
          (λ h.
            branch-Yields AllSound (ReadyWith u.pkgs_imported) env.lock_layering _ _
              (λ l.
                throw-Yields AllSound (ReadyWith u.pkgs_imported)
                  (codes "Cannot operate; `LockLayering=true` in configuration."))
              (λ l.
                >>=-Yields AllSound (Fresh u.pkgs_imported) (ReadyWith u.pkgs_imported)
                  (finalized env (initialized env u)) (after_finalize env) (finalized-Yields u b c)
                  (λ v fresh. after_finalize-Yields u.pkgs_imported v etc l fresh)))
