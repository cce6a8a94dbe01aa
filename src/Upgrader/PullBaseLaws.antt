-- ===== src/Upgrader/PullBaseLaws.antt =====
-- Where a pull moves the base to, and that it is not to an older commit by accident.
use rpm_ostree.Prelude.{
  subst, ◌≡◌, sym, ◌∙◌, ◌⊎◌, inl, inr, Bool-cases, Bool, true, false, Option, none, some, List,
  ◌++◌, arith,
}
use rpm_ostree.Prelude.Text.{Text, text_eq, text_eq_sound, codes}
use rpm_ostree.Prelude.Result.{ok, error, Action, call, pure, >>=-inv, ◌>>=◌, Result-cases}
use rpm_ostree.Deploy.Finish.{RefspecType, container, ostree, checksum}
use rpm_ostree.Upgrader.PullBase.{
  PullStep, PullEnv, pull_named, override_commit, target_rev, pull_ostree, settle_base, pull_kind,
  pull_base, check_container, imported,
}

-- Older commits are allowed, or the check of the timestamps has passed.
abbrev pub Passed : PullEnv → Text → Text → Type 0
Passed env base rev = (env.allow_older ≡ true) ⊎ (env.check_timestamps base rev ≡ ok tt)

-- The base stays, or is reported as changed and, unless older commits are allowed, has passed the check of
-- the timestamps.
pub data Moved (env : PullEnv) (base : Text) (changed : Bool) (rev : Text) : Type 0 where
  stays : rev ≡ base → Moved env base changed rev
  moves : changed ≡ true → Passed env base rev → Moved env base changed rev

-- The commit that a refspec other than a container image's stands for: the override, or what the ref
-- resolves to.
abbrev pub Targets : PullEnv → RefspecType → Option Text → Text → Type 0
Targets env container commit rev = Unit
Targets env ostree none rev = env.resolve_rev env.refspec.refspec ≡ ok rev
Targets env ostree (some commit) rev = rev ≡ commit
Targets env checksum none rev = env.resolve_rev env.refspec.refspec ≡ ok rev
Targets env checksum (some commit) rev = rev ≡ commit

module _ (env : PullEnv) (base : Text) where
  settle_base-cases :
      (new : Text) (log : List PullStep)
      → ((settle_base env base new log ≡ (ok (false, base), log)) × (new ≡ base))
        ⊎ (((settle_base env base new log ≡ (ok (true, new), log)) × Passed env base new)
            ⊎ ((m : Text) × (settle_base env base new log ≡ (error m, log))))
  unfolding settle_base
  settle_base-cases new log = elim (Bool-cases (text_eq new base)) [
    | inl e ↦ inl (rw e, text_eq_sound new base e)
    | inr e ↦ elim (Bool-cases env.allow_older) [
      | inl a ↦ inr (inl (rw (e, a), inl a))
      | inr a ↦ elim (Result-cases (env.check_timestamps base new)) [
        | inl (u, c) ↦ inr (inl (rw (e, a, c), inr c))
        | inr (m, c) ↦ inr (
            inr (
              codes "While checking against deployment timestamp" ++ codes ": " ++ m,
              rw (e, a, c),
            ))
      ]
    ]
  ]

  settled :
      (new rev : Text) (changed : Bool) (log log' : List PullStep)
      → settle_base env base new log ≡ (ok (changed, rev), log')
      → Moved env base changed rev × (rev ≡ new)
  settled new rev changed log log' h = elim (settle_base-cases new log) [
    | inl (e, s) ↦ let f = sym e ∙ h in (stays (ground (arith, f)), ground (arith, f, s))
    | inr (inl (e, c)) ↦
        let f = sym e ∙ h in
        let same : new ≡ rev = ground (arith, f) in
        (moves (ground (arith, f)) (subst (Passed env base) same c), sym same)
    | inr (inr (m, e)) ↦ absurd (ground (arith, h, e))
  ]

  target_rev-is :
      (kind : RefspecType) (commit : Option Text) (new : Text) (log log' : List PullStep)
      → target_rev env commit log ≡ (ok new, log')
      → Targets env kind commit new
  target_rev-is container commit new log log' h = tt
  target_rev-is ostree none new log log' h = ground (arith, h)
  target_rev-is ostree (some c) new log log' h = ground (arith, h)
  target_rev-is checksum none new log log' h = ground (arith, h)
  target_rev-is checksum (some c) new log log' h = ground (arith, h)

  ostree-Targets :
      (kind : RefspecType) (check : Bool) (new : Text) (log log' : List PullStep)
      → pull_ostree env check base log ≡ (ok new, log')
      → Targets env kind (override_commit env) new
  unfolding pull_ostree
  ostree-Targets kind check new log log' h =
      let (u, mid, e, k) =
        >>=-inv (pull_named env check base) (λ u. target_rev env (override_commit env)) log log' new
          h in
      target_rev-is kind (override_commit env) new mid log' k

  checked-Moved :
      (changed : Bool) (rev : Text) (log log' : List PullStep)
      → check_container env base log ≡ (ok (changed, rev), log')
      → Moved env base changed rev
  checked-Moved changed rev log log' h =
      let (c, mid, e, k) =
        >>=-inv (call env.check_container_update) (λ c. pure (c, base)) log log' (changed, rev) h in
      stays (ground (arith, k))

  settled_after :
      (m : Action PullStep Text) (changed : Bool) (rev : Text) (log log' : List PullStep)
      → (m >>= settle_base env base) log ≡ (ok (changed, rev), log')
      → (new : Text) × (mid : List PullStep) × (m log ≡ (ok new, mid))
        × Moved env base changed rev
        × (rev ≡ new)
  settled_after m changed rev log log' h =
      let (new, mid, e, k) = >>=-inv m (settle_base env base) log log' (changed, rev) h in
      let (moved, same) = settled new rev changed mid log' k in (new, mid, e, moved, same)

  container-Moved :
      (check changed : Bool) (rev : Text) (log log' : List PullStep)
      → pull_kind env container check base log ≡ (ok (changed, rev), log')
      → Moved env base changed rev
  container-Moved true changed rev log log' h = checked-Moved changed rev log log' h
  container-Moved false changed rev log log' h =
      (settled_after (imported env env.pull_container) changed rev log log' h).3

  ostree-Moved :
      (kind : RefspecType) (check changed : Bool) (rev : Text) (log log' : List PullStep)
      → (pull_ostree env check base >>= settle_base env base) log ≡ (ok (changed, rev), log')
      → Moved env base changed rev × Targets env kind (override_commit env) rev
  ostree-Moved kind check changed rev log log' h =
      let (new, mid, e, moved, same) =
        settled_after (pull_ostree env check base) changed rev log log' h in
      (
        moved,
        subst (Targets env kind (override_commit env)) (sym same)
            (ostree-Targets kind check new log mid e),
      )

  pull_kind-Moved :
      (kind : RefspecType) (check changed : Bool) (rev : Text) (log log' : List PullStep)
      → pull_kind env kind check base log ≡ (ok (changed, rev), log')
      → Moved env base changed rev × Targets env kind (override_commit env) rev
  pull_kind-Moved container check changed rev log log' h =
      (container-Moved check changed rev log log' h, tt)
  pull_kind-Moved ostree check changed rev log log' h =
      ostree-Moved ostree check changed rev log log' h
  pull_kind-Moved checksum check changed rev log log' h =
      ostree-Moved checksum check changed rev log log' h

  -- When a pull of the base succeeds, the base is as before, or it is reported as changed and, unless older
  -- commits are allowed, has passed the check of the timestamps; unless the origin is a container image,
  -- it is the override commit, or else what the refspec resolves to.
  pub pull_base-Moved :
      (check : Bool) (changed : Bool) (rev : Text) (log log' : List PullStep)
      → pull_base env check base log ≡ (ok (changed, rev), log')
      → Moved env base changed rev × Targets env env.refspec.kind (override_commit env) rev
  unfolding pull_base
  pull_base-Moved check changed rev log log' h =
      pull_kind-Moved env.refspec.kind check changed rev log log' h
