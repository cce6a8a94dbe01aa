-- ===== src/Deploy/RefspecLaws.antt =====
-- What a rebase does to the origin: change_origin_refspec of
-- src/daemon/rpmostreed-transaction-types.cxx.
use rpm_ostree.Prelude.{
  ◌≡◌, refl, sym, ap, ◌∙◌, subst, inl, inr, true, not, ◌||◌, Option, none, List, [], ◌∷◌, arith,
  Bool-cases,
}
use rpm_ostree.Prelude.Text.{Text, text_eq}
use rpm_ostree.Prelude.Result.{Result-cases, ok, error, Action, pure, ◌>>◌}
use rpm_ostree.Deploy.Finish.{RefspecType, container, ostree, checksum, is_checksum}
use rpm_ostree.Deploy.Refspec.{
  refspec_parse_partial, OriginEdit, rebase, Refspec, RefspecApi, first_of, second_of,
  prev_ostree_refspec, rebase_to, rebase_ostree,
}

-- The edits are one rebase to the new refspec.
abbrev pub RebasesTo : Text → List OriginEdit → Type 0
RebasesTo new edits =
    (url : Option Text) × (description : Option Text) × (edits ≡ rebase new url description ∷ [])

-- The end of rebase_ostree, for the type of the new refspec.
abbrev rebase_kind :
    RefspecType
    → Refspec
    → Text
    → Option (Text × Text)
    → Option Text
    → Action OriginEdit (Option Text × Text)
rebase_kind kind current new custom old =
    let result : Action OriginEdit (Option Text × Text) = pure (old, new) in
    rebase_to kind current new custom >> result

rebase_kind-RebasesTo :
    (kind : RefspecType) (current : Refspec) (new : Text) (custom : Option (Text × Text))
    (old : Option Text) (r : Option Text × Text)
    → (rebase_kind kind current new custom old []).0 ≡ ok r
    → (r.1 ≡ new)
      × RebasesTo new (rebase_kind kind current new custom old []).1
      × ((is_checksum kind || not (text_eq current.refspec new)) ≡ true)
rebase_kind-RebasesTo checksum current new custom old r e =
    (ground (arith, e), (first_of custom, second_of custom, refl), refl)
rebase_kind-RebasesTo ostree current new custom old r e =
    elim (Bool-cases (text_eq current.refspec new)) [
      | inl same ↦ ground (arith, e, same)
      | inr other ↦
          (ground (arith, e, other), (none, none, ground (arith, other)), ground (arith, other))
    ]
rebase_kind-RebasesTo container current new custom old r e =
    elim (Bool-cases (text_eq current.refspec new)) [
      | inl same ↦ ground (arith, e, same)
      | inr other ↦
          (ground (arith, e, other), (none, none, ground (arith, other)), ground (arith, other))
    ]

-- The edits are one rebase, to a refspec that differs from the current one unless it is a checksum.
abbrev pub IsRebase : RefspecApi → Refspec → Text → List OriginEdit → Type 0
IsRebase api current new edits =
    RebasesTo new edits
    × ((is_checksum (api.refspec_classify new) || not (text_eq current.refspec new)) ≡ true)

rebase_ostree-kind :
    (api : RefspecApi) (current : Refspec) (text new : Text) (custom : Option (Text × Text))
    → refspec_parse_partial api.parse_refspec text
        (prev_ostree_refspec current.kind current.refspec)
      ≡ ok new
    → rebase_ostree api current text custom []
      ≡ rebase_kind
          (api.refspec_classify new)
          current
          new
          custom
          (prev_ostree_refspec current.kind current.refspec)
          []
unfolding rebase_ostree
rebase_ostree-kind api current text new custom e = rw (e)

rebase_ostree-error :
    (api : RefspecApi) (current : Refspec) (text m : Text) (custom : Option (Text × Text))
    → refspec_parse_partial api.parse_refspec text
        (prev_ostree_refspec current.kind current.refspec)
      ≡ error m
    → (rebase_ostree api current text custom []).0 ≡ error m
unfolding rebase_ostree
rebase_ostree-error api current text m custom e = rw (e)

-- When a rebase to an ostree ref or a checksum succeeds, the origin gets one rebase, to the refspec that
-- is returned, and that differs from the current one unless it is a checksum.
rebase_ostree-IsRebase :
    (api : RefspecApi) (current : Refspec) (text : Text) (custom : Option (Text × Text))
    (r : Option Text × Text)
    → (rebase_ostree api current text custom []).0 ≡ ok r
    → IsRebase api current r.1 (rebase_ostree api current text custom []).1
rebase_ostree-IsRebase api current text custom r e =
    let prev = prev_ostree_refspec current.kind current.refspec in
    elim (Result-cases (refspec_parse_partial api.parse_refspec text prev)) [
      | inr (m, p) ↦ ground (arith, e, rebase_ostree-error api current text m custom p)
      | inl (new, p) ↦
          let q = rebase_ostree-kind api current text new custom p in
          let s =
            rebase_kind-RebasesTo (api.refspec_classify new) current new custom prev r
              (sym (ap (λ o. o.0) q) ∙ e) in
          subst (λ o. IsRebase api current r.1 o.1) (sym q)
            (subst
              (λ n.
                IsRebase api current n
                  (rebase_kind (api.refspec_classify new) current new custom prev []).1)
              (sym s.0) (s.1, s.2))
    ]
