-- ===== src/Scheduler/Edges/Finish.antt =====
-- src/scheduler.rs: the counts under `complete`.
use cloud_job_orchestrator.Base.{
  List, ℕ, ◌-◌, ◌≡◌, refl, true, false, ◌||◌, some, arith, inl, inr, ◌∙◌, ap, sym, subst,
  Option-cases, Bool-cases, ok,
}
use cloud_job_orchestrator.Base.Int.{ℤ}
use cloud_job_orchestrator.Base.Text.{Text, eq_text, eq_text_iff, count_text}
use cloud_job_orchestrator.Domain.{Dependency, leased, succeeded}
use cloud_job_orchestrator.Scheduler.State.{JobRecord, Scheduler, same_state, find_job}
use cloud_job_orchestrator.Scheduler.Lease.{finished, complete}
use cloud_job_orchestrator.Scheduler.Release.{children, freed}
use cloud_job_orchestrator.Scheduler.Cas.Complete.{complete_iff, find_job-complete}
use cloud_job_orchestrator.Scheduler.Acts.Leases.{complete-Acts}
use cloud_job_orchestrator.Scheduler.Run.{Inv}
use cloud_job_orchestrator.Scheduler.Edges.{
  job_succeeded, has_succeeded, blocked_ext, blocked_finish, EdgeInv,
}

freed_facts :
    (now : ℤ) (n : ℕ) (r : JobRecord)
    → ((freed now n r).remaining_dependencies ≡ r.remaining_dependencies - n)
      × (same_state (freed now n r).state succeeded ≡ same_state r.state succeeded)
unfolding same_state
freed_facts now n r = ground arith

finished_facts :
    (result : Text) (r : JobRecord)
    → ((finished result r).remaining_dependencies ≡ r.remaining_dependencies)
      × (same_state (finished result r).state succeeded ≡ true)
unfolding finished same_state
finished_facts result r = (refl, refl)

leased_not_succeeded : (r : JobRecord) → r.state ≡ leased → same_state r.state succeeded ≡ false
unfolding same_state
leased_not_succeeded r h = ground arith

module _ (s : Scheduler) (d j owner token result : Text) (now : ℤ) (v : Inv s)
    (h : (complete s d j owner token result now).0 ≡ ok tt) where
  abbrev done : Scheduler
  done = (complete s d j owner token result now).1

  abbrev freed_by : Text → ℕ
  freed_by c = count_text c (children d j s.dags)

  elsewhere : (d' c : Text) → eq_text d d' ≡ false → find_job d' c done.dags ≡ find_job d' c s.dags
  elsewhere d' c e =
      ground (arith, find_job-complete s d j owner token result now (v.linked d j) d' c h)

  not_yet : has_succeeded s.dags d j ≡ false
  not_yet =
      let (_, (r, f, o)) = (complete_iff s d j owner token result now (v.linked d j)).0 h in
      let l = leased_not_succeeded r o.is_leased in ground arith

  has_succeeded_complete :
      (p : Text) → has_succeeded done.dags d p ≡ (eq_text j p || has_succeeded s.dags d p)
  has_succeeded_complete p = elim (Option-cases (find_job d p s.dags)) [
    | inl e ↦
        let (_, (r, f, o)) = (complete_iff s d j owner token result now (v.linked d j)).0 h in
        ground (
          arith,
          find_job-complete s d j owner token result now (v.linked d j) d p h,
          eq_text_iff d d,
          eq_text_iff j p,
        )
    | inr (r, e) ↦ ground (
      arith,
      find_job-complete s d j owner token result now (v.linked d j) d p h,
      eq_text_iff d d,
      finished_facts result r,
      freed_facts now (freed_by p) (finished result r),
      freed_facts now (freed_by p) r,
    )
  ]

  remaining_complete :
      (c : Text) (r' : JobRecord)
      → find_job d c done.dags ≡ some r'
      → (r : JobRecord) × (find_job d c s.dags ≡ some r)
        × (r'.remaining_dependencies ≡ r.remaining_dependencies - freed_by c)
  remaining_complete c r' f = elim (Option-cases (find_job d c s.dags)) [
    | inl e ↦ ground (
      arith,
      find_job-complete s d j owner token result now (v.linked d j) d c h,
      eq_text_iff d d,
    )
    | inr (r, e) ↦ (
      r,
      e,
      ground (
        arith,
        find_job-complete s d j owner token result now (v.linked d j) d c h,
        eq_text_iff d d,
        finished_facts result r,
        freed_facts now (freed_by c) (finished result r),
        freed_facts now (freed_by c) r,
      ),
    )
  ]

  children_done : (d' p : Text) → children d' p done.dags ≡ children d' p s.dags
  children_done = (complete-Acts s d j owner token result now (v.linked d j)).children_same

  complete-EdgeInv_self : (edges : List Dependency) → EdgeInv s d edges → EdgeInv done d edges
  complete-EdgeInv_self edges i = record {
    stored = λ p c. ap (count_text c) (children_done d p) ∙ i.stored p c;
    waits = λ c r' f.
        let (r, g, n) = remaining_complete c r' f in
        let less =
          blocked_finish (has_succeeded s.dags d) (has_succeeded done.dags d) j c edges
            has_succeeded_complete not_yet in
        omega (arith, n, i.waits c r g, less, i.stored j c);
  }

  complete-EdgeInv_other :
      (d' : Text) (edges : List Dependency)
      → eq_text d d' ≡ false
      → EdgeInv s d' edges
      → EdgeInv done d' edges
  complete-EdgeInv_other d' edges e i = record {
    stored = λ p c. ap (count_text c) (children_done d' p) ∙ i.stored p c;
    waits = λ c r' f.
        i.waits c r' (sym (elsewhere d' c e) ∙ f)
        ∙ sym (
            blocked_ext (has_succeeded s.dags d') (has_succeeded done.dags d') c edges
              (λ p. ap job_succeeded (elsewhere d' p e)));
  }

  pub complete-EdgeInv_ok :
      (d' : Text) (edges : List Dependency) → EdgeInv s d' edges → EdgeInv done d' edges
  complete-EdgeInv_ok d' edges i = elim (Bool-cases (eq_text d d')) [
    | inl e ↦
        let same = (eq_text_iff d d').0 e in
        subst (λ x. EdgeInv done x edges) same
          (complete-EdgeInv_self edges (subst (λ x. EdgeInv s x edges) (sym same) i))
    | inr e ↦ complete-EdgeInv_other d' edges e i
  ]
