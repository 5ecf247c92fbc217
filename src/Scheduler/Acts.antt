-- ===== src/Scheduler/Acts.antt =====
-- src/scheduler.rs: the operations but `submit` as steps of the jobs that are there.
pub mod Cancel
pub mod Leases
pub mod Claims
use mathlib.Core.Option
use cloud_job_orchestrator.Base.{
  Bool, ◌≡◌, refl, true, false, ◌&&◌, Option, none, some, List, [], ◌∷◌, arith, ◌⊎◌, inl, inr, ◌∙◌,
  ap, if◌then◌else◌, has_value, All, Bool-cases,
}
use cloud_job_orchestrator.Base.Int.{ℤ}
use cloud_job_orchestrator.Base.Text.{Text, eq_text, eq_text_iff}
use cloud_job_orchestrator.Base.Map.{Map}
use cloud_job_orchestrator.Scheduler.State.{
  SchedulerConfig, JobRecord, DagRecord, Scheduler, find_job, update_job,
}
use cloud_job_orchestrator.Scheduler.Jobs.{
  find_job-update_job, DistinctJobs, update_job-DistinctJobs,
}
use cloud_job_orchestrator.Scheduler.Release.{children, AllPresent, children-update_job}
use cloud_job_orchestrator.Scheduler.Machine.{Move, Moves, stay, next, Moves_trans, Moves_any}

pub record Acts (calm : Bool) (s s' : Scheduler) : Type 0 where
  pub moves :
      (d j : Text) (r : JobRecord)
      → find_job d j s.dags ≡ some r
      → (r' : JobRecord) × (find_job d j s'.dags ≡ some r') × Moves calm r r'
  pub absent : (d j : Text) → find_job d j s.dags ≡ none → find_job d j s'.dags ≡ none
  pub children_same : (d p : Text) → children d p s'.dags ≡ children d p s.dags
  pub distinct : DistinctJobs s.dags → DistinctJobs s'.dags
  pub config_same : s'.config ≡ s.config

pub Acts-refl : {calm : Bool} (s : Scheduler) → Acts calm s s
Acts-refl s = record {
  moves = λ d j r f. (r, f, stay);
  absent = λ d j f. f;
  children_same = λ d p. refl;
  distinct = λ h. h;
  config_same = refl;
}

pub Acts-trans :
    {calm : Bool} {s s' s'' : Scheduler} → Acts calm s s' → Acts calm s' s'' → Acts calm s s''
Acts-trans a b = record {
  moves = λ d j r f.
      let (r', f', m) = a.moves d j r f in
      let (r'', f'', m') = b.moves d j r' f' in (r'', f'', Moves_trans m m');
  absent = λ d j f. b.absent d j (a.absent d j f);
  children_same = λ d p. b.children_same d p ∙ a.children_same d p;
  distinct = λ h. b.distinct (a.distinct h);
  config_same = b.config_same ∙ a.config_same;
}

pub Acts-any : {calm : Bool} {s s' : Scheduler} → Acts true s s' → Acts calm s s'
Acts-any a = record {
  moves = λ d j r f. let (r', f', m) = a.moves d j r f in (r', f', Moves_any m);
  absent = a.absent;
  children_same = a.children_same;
  distinct = a.distinct;
  config_same = a.config_same;
}

-- The heap and the sequence do not matter.
pub Acts-of_dags :
    {calm : Bool} (s s' : Scheduler) → s'.dags ≡ s.dags → s'.config ≡ s.config → Acts calm s s'
Acts-of_dags s s' e c = record {
  moves = λ d j r f. (r, rw e f, stay);
  absent = λ d j f. rw e f;
  children_same = λ d p. ap (children d p) e;
  distinct = λ h. rw e h;
  config_same = c;
}

-- An operation that rewrites every job by a function of its own.
abbrev pub Rewrites : Scheduler → Scheduler → (Text → Text → JobRecord → JobRecord) → Type 0
Rewrites s s' g = (d j : Text) → find_job d j s'.dags ≡ Option.map (g d j) (find_job d j s.dags)

pub Rewrites-moves :
    {calm : Bool} (s s' : Scheduler) (g : Text → Text → JobRecord → JobRecord)
    → Rewrites s s' g
    → ((d j : Text) (r : JobRecord) → find_job d j s.dags ≡ some r → Moves calm r (g d j r))
    → (d j : Text) (r : JobRecord) → find_job d j s.dags ≡ some r
    → (r' : JobRecord) × (find_job d j s'.dags ≡ some r') × Moves calm r r'
Rewrites-moves s s' g w m d j r f = (g d j r, ground (arith, w d j), m d j r f)

pub Rewrites-absent :
    (s s' : Scheduler) (g : Text → Text → JobRecord → JobRecord)
    → Rewrites s s' g
    → (d j : Text) → find_job d j s.dags ≡ none
    → find_job d j s'.dags ≡ none
Rewrites-absent s s' g w d j f = ground (arith, w d j)

module _ {calm : Bool} (s : Scheduler) (d j : Text) (f : JobRecord → JobRecord)
    (m : (r : JobRecord) → find_job d j s.dags ≡ some r → Move calm r (f r)) where
  update_job-moves :
      (d' j' : Text) (r : JobRecord)
      → find_job d' j' s.dags ≡ some r
      → (r' : JobRecord) × (find_job d' j' (update_job d j f s.dags) ≡ some r') × Moves calm r r'
  update_job-moves d' j' r h = elim (Bool-cases (eq_text d d' && eq_text j j')) [
    | inl hit ↦ (
      f r,
      ground (arith, find_job-update_job d j d' j' f s.dags),
      next stay (m r (ground (arith, eq_text_iff d d', eq_text_iff j j'))),
    )
    | inr miss ↦ (r, ground (arith, find_job-update_job d j d' j' f s.dags), stay)
  ]

  -- A write to one job.
  pub update_job-Acts :
      (s' : Scheduler) → s'.dags ≡ update_job d j f s.dags → s'.config ≡ s.config → Acts calm s s'
  update_job-Acts s' e c = record {
    moves = λ d' j' r h. rw e (update_job-moves d' j' r h);
    absent = λ d' j' h. rw e (ground (arith, find_job-update_job d j d' j' f s.dags));
    children_same = λ d' p. ap (children d' p) e ∙ children-update_job d j d' p f s.dags;
    distinct = λ h. rw e (update_job-DistinctJobs d j f s.dags h);
    config_same = c;
  }
