-- ===== src/Core/RelabelLaws.antt =====
-- How the relabelling of Core/Relabel ends.
use rpm_ostree.Prelude.{
  ℕ, ◌^◌, ◌<◌, ◌≡◌, refl, sym, ap, ◌∙◌, subst, true, false, ◌&&◌, Option, none, some, List, ◌++◌,
  length, arith, if_false,
}
use rpm_ostree.Prelude.Text.{Text, codes}
use rpm_ostree.Core.Packages.{Candidate, Context}
use rpm_ostree.Core.Relabel.{
  Relabel, Outcome, wait_relabel, Relabeling, returned, end_relabel, finish_relabel, begin_relabel,
  RelabelCalls, relabel_if_necessary,
}
use rpm_ostree.Core.RelabelLoop.{first_error, count_changed, begun-Done}

abbrev answer_of : Option Text → Option Text → Option Text
answer_of commit (some e) = some (codes "relabeling: " ++ e)
answer_of commit none = commit

-- How relabel_if_necessary returns when every thread has ended.
abbrev pub relabel_answer : Option Text → List Outcome → Option Text
relabel_answer commit outcomes = answer_of commit (first_error outcomes)

-- The relabelling has returned with an answer; where that is TRUE, the list of packages is gone, the
-- counter is reset and the packages that were changed are counted.
pub data Completed (answer : Option Text) (changed : ℕ) : Option Relabeling → Type 0 where
  completed :
      (s : Relabel)
      → (answer ≡ none
          → (s.pkgs_to_relabel ≡ none)
            × (s.n_async_pkgs_relabeled ≡ 0)
            × (s.n_changed_pkgs ≡ changed))
      → Completed answer changed (some (returned answer s))

end_relabel-Completed :
    (commit e : Option Text) (s : Relabel)
    → Completed (answer_of commit e) s.n_changed_pkgs (some (end_relabel e commit s))
unfolding end_relabel
end_relabel-Completed commit (some m) s = completed _ (λ h. cc)
end_relabel-Completed (some m) none s = completed s (λ h. cc)
end_relabel-Completed none none s = completed _ (λ h. (refl, refl, refl))

finish_relabel-stopped :
    (commit e : Option Text) (s : Relabel)
    → s.async_running ≡ false
    → s.async_error ≡ e
    → finish_relabel commit (some s) ≡ some (end_relabel e commit s)
unfolding finish_relabel
finish_relabel-stopped commit e s r h =
    if_false s.async_running _ _ r ∙ ap (λ x. some (end_relabel x commit s)) h

module _ (ctx : Context) (calls : RelabelCalls) (outcomes : List Outcome) (s : Relabel)
    (pkgs : List Candidate) where
  relabel_if_necessary-loop :
      s.pkgs_to_relabel ≡ some pkgs
      → 0 < length pkgs
      → (ctx.sepolicy && ctx.pkgcache_repo) ≡ true
      → calls.transaction_start ≡ none
      → calls.mkdtemp ≡ none
      → relabel_if_necessary ctx calls outcomes s
        ≡ finish_relabel calls.commit (wait_relabel outcomes (some (begin_relabel s)))
  unfolding relabel_if_necessary
  relabel_if_necessary-loop p h c t m = ground (arith, p, h, c, t, m)

  -- When a context with a policy has packages to relabel, fewer than 2^32, none of which was counted
  -- yet, and its calls before the loop succeed, then after every thread has ended no assertion has
  -- failed, and the relabelling has returned with the first error of a thread or else with that of the
  -- commit; without either the list is gone, the counter is reset and the packages that were changed
  -- are counted.
  pub relabel_if_necessary-Completed :
      s.pkgs_to_relabel ≡ some pkgs
      → 0 < length pkgs
      → length pkgs < 2 ^ 32
      → s.n_async_pkgs_relabeled ≡ 0
      → (ctx.sepolicy && ctx.pkgcache_repo) ≡ true
      → calls.transaction_start ≡ none
      → calls.mkdtemp ≡ none
      → length outcomes ≡ length pkgs
      → Completed
          (relabel_answer calls.commit outcomes)
          (count_changed outcomes)
          (relabel_if_necessary ctx calls outcomes s)
  relabel_if_necessary-Completed p h b z c t m l =
      let (s', e, d) = begun-Done pkgs outcomes s p z h b l in
      let run =
        relabel_if_necessary-loop p h c t m
        ∙ ap (finish_relabel calls.commit) e
        ∙ finish_relabel-stopped calls.commit (first_error outcomes) s' d.stopped d.kept_error in
      subst (Completed (relabel_answer calls.commit outcomes) (count_changed outcomes)) (sym run) (
        subst
          (λ n.
            Completed (relabel_answer calls.commit outcomes) n
              (some (end_relabel (first_error outcomes) calls.commit s')))
          (omega (arith, d.changed)) (end_relabel-Completed calls.commit (first_error outcomes) s'))
