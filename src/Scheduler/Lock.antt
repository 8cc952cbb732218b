-- ===== src/Scheduler/Lock.antt =====
-- The run lock and the stopping of internal/scheduler/scheduler.go, as interleavings of any number of
-- goroutines in `withLock` and one in `Stop`. The channel of capacity one is full or empty.
use suzie_filtering_system.Base.{ℕ, Bool, true, false, ◌==◌, ◌≡◌, ◌≢◌, refl, arith, if◌then◌else◌}

-- Where a call of `withLock` stands.
pub data Worker : Type 0 where
  idle : Worker  -- before `s.stopping.Load()`
  allowed : Worker  -- the first test passed
  holding : Worker  -- the lock is taken, the second test is not made
  running : Worker  -- in `job()`
  returned : Worker  -- `withLock` has returned

-- Where `Stop` stands.
pub data Stopper : Type 0 where
  unstarted : Stopper
  waiting : Stopper  -- `stopping` is set
  owning : Stopper  -- `s.lock <- struct{}{}` succeeded
  stopped : Stopper  -- returned nil
  gave_up : Stopper  -- returned ctx.Err()

pub record State : Type 0 where
  pub stopping : Bool
  pub lock : Bool
  pub workers : ℕ → Worker
  pub stopper : Stopper

abbrev pub put : (ℕ → Worker) → ℕ → Worker → ℕ → Worker
put ws i x k = if k == i then x else ws k

abbrev pub initial : State
initial = record { stopping = false; lock = false; workers = λ i. idle; stopper = unstarted }

pub data Step (s : State) : State → Type 0 where
  -- withLock
  refuse :
      (i : ℕ)
      → s.workers i ≡ idle
      → s.stopping ≡ true
      → Step s (record s { workers = put s.workers i returned })
  allow :
      (i : ℕ)
      → s.workers i ≡ idle
      → s.stopping ≡ false
      → Step s (record s { workers = put s.workers i allowed })
  take :
      (i : ℕ)
      → s.workers i ≡ allowed
      → s.lock ≡ false
      → Step s (record s { lock = true; workers = put s.workers i holding })
  skip :
      (i : ℕ)
      → s.workers i ≡ allowed
      → s.lock ≡ true
      → Step s (record s { workers = put s.workers i returned })
  back_out :
      (i : ℕ)
      → s.workers i ≡ holding
      → s.stopping ≡ true
      → Step s (record s { lock = false; workers = put s.workers i returned })
  start :
      (i : ℕ)
      → s.workers i ≡ holding
      → s.stopping ≡ false
      → Step s (record s { workers = put s.workers i running })
  finish :
      (i : ℕ)
      → s.workers i ≡ running
      → Step s (record s { lock = false; workers = put s.workers i returned })
  -- Stop
  begin : s.stopper ≡ unstarted → Step s (record s { stopping = true; stopper = waiting })
  acquire :
      s.stopper ≡ waiting → s.lock ≡ false → Step s (record s { lock = true; stopper = owning })
  release : s.stopper ≡ owning → Step s (record s { lock = false; stopper = stopped })
  expire : s.stopper ≡ waiting → Step s (record s { stopper = gave_up })

pub data Reach (s : State) : State → Type 0 where
  here : Reach s s
  next : {t u : State} → Reach s t → Step t u → Reach s u

abbrev pub owns : Worker → Bool
owns holding = true
owns running = true
owns _ = false

pub record Inv (s : State) : Type 0 where
  pub owner_locks : (i : ℕ) → owns (s.workers i) ≡ true → s.lock ≡ true
  pub one_owner : (i k : ℕ) → owns (s.workers i) ≡ true → owns (s.workers k) ≡ true → i ≡ k
  pub stopper_locks : s.stopper ≡ owning → s.lock ≡ true
  pub stopper_excludes : (i : ℕ) → s.stopper ≡ owning → owns (s.workers i) ≡ false
  pub stopping_set : s.stopper ≢ unstarted → s.stopping ≡ true
  pub quiet : (i : ℕ) → s.stopper ≡ stopped → s.workers i ≢ running

initial-Inv : Inv initial
initial-Inv = record {
  owner_locks = λ i h. absurd (cc);
  one_owner = λ i k h. absurd (cc);
  stopper_locks = λ h. absurd (cc);
  stopper_excludes = λ i h. refl;
  stopping_set = λ h. absurd (h refl);
  quiet = λ i h. absurd (cc);
}

Step-Inv : {s t : State} → Step s t → Inv s → Inv t
Step-Inv {s} (refuse i w e) v = record {
  owner_locks = λ k h. ground (arith, v.owner_locks k, v.one_owner i k, v.owner_locks i);
  one_owner = λ k m h g.
      ground (
        arith,
        v.one_owner k m,
        v.owner_locks k,
        v.owner_locks m,
        v.one_owner i k,
        v.one_owner i m,
      );
  stopper_locks = λ h. ground (arith, v.stopper_locks, v.stopper_excludes i h);
  stopper_excludes =
      λ k h. ground (arith, v.stopper_locks h, v.stopper_excludes k h, v.stopper_excludes i h);
  stopping_set = v.stopping_set;
  quiet = λ k h. ground (arith, v.quiet k h, v.stopping_set);
}
Step-Inv {s} (allow i w e) v = record {
  owner_locks = λ k h. ground (arith, v.owner_locks k, v.one_owner i k, v.owner_locks i);
  one_owner = λ k m h g.
      ground (
        arith,
        v.one_owner k m,
        v.owner_locks k,
        v.owner_locks m,
        v.one_owner i k,
        v.one_owner i m,
      );
  stopper_locks = λ h. ground (arith, v.stopper_locks, v.stopper_excludes i h);
  stopper_excludes =
      λ k h. ground (arith, v.stopper_locks h, v.stopper_excludes k h, v.stopper_excludes i h);
  stopping_set = v.stopping_set;
  quiet = λ k h. ground (arith, v.quiet k h, v.stopping_set);
}
Step-Inv {s} (take i w l) v = record {
  owner_locks = λ k h. ground (arith, v.owner_locks k, v.one_owner i k, v.owner_locks i);
  one_owner = λ k m h g.
      ground (
        arith,
        v.one_owner k m,
        v.owner_locks k,
        v.owner_locks m,
        v.one_owner i k,
        v.one_owner i m,
      );
  stopper_locks = λ h. ground (arith, v.stopper_locks, v.stopper_excludes i h);
  stopper_excludes =
      λ k h. ground (arith, v.stopper_locks h, v.stopper_excludes k h, v.stopper_excludes i h);
  stopping_set = v.stopping_set;
  quiet = λ k h. ground (arith, v.quiet k h, v.stopping_set);
}
Step-Inv {s} (skip i w l) v = record {
  owner_locks = λ k h. ground (arith, v.owner_locks k, v.one_owner i k, v.owner_locks i);
  one_owner = λ k m h g.
      ground (
        arith,
        v.one_owner k m,
        v.owner_locks k,
        v.owner_locks m,
        v.one_owner i k,
        v.one_owner i m,
      );
  stopper_locks = λ h. ground (arith, v.stopper_locks, v.stopper_excludes i h);
  stopper_excludes =
      λ k h. ground (arith, v.stopper_locks h, v.stopper_excludes k h, v.stopper_excludes i h);
  stopping_set = v.stopping_set;
  quiet = λ k h. ground (arith, v.quiet k h, v.stopping_set);
}
Step-Inv {s} (back_out i w e) v = record {
  owner_locks = λ k h. ground (arith, v.owner_locks k, v.one_owner i k, v.owner_locks i);
  one_owner = λ k m h g.
      ground (
        arith,
        v.one_owner k m,
        v.owner_locks k,
        v.owner_locks m,
        v.one_owner i k,
        v.one_owner i m,
      );
  stopper_locks = λ h. ground (arith, v.stopper_locks, v.stopper_excludes i h);
  stopper_excludes =
      λ k h. ground (arith, v.stopper_locks h, v.stopper_excludes k h, v.stopper_excludes i h);
  stopping_set = v.stopping_set;
  quiet = λ k h. ground (arith, v.quiet k h, v.stopping_set);
}
Step-Inv {s} (start i w e) v = record {
  owner_locks = λ k h. ground (arith, v.owner_locks k, v.one_owner i k, v.owner_locks i);
  one_owner = λ k m h g.
      ground (
        arith,
        v.one_owner k m,
        v.owner_locks k,
        v.owner_locks m,
        v.one_owner i k,
        v.one_owner i m,
      );
  stopper_locks = λ h. ground (arith, v.stopper_locks, v.stopper_excludes i h);
  stopper_excludes =
      λ k h. ground (arith, v.stopper_locks h, v.stopper_excludes k h, v.stopper_excludes i h);
  stopping_set = v.stopping_set;
  quiet = λ k h. ground (arith, v.quiet k h, v.stopping_set);
}
Step-Inv {s} (finish i w) v = record {
  owner_locks = λ k h. ground (arith, v.owner_locks k, v.one_owner i k, v.owner_locks i);
  one_owner = λ k m h g.
      ground (
        arith,
        v.one_owner k m,
        v.owner_locks k,
        v.owner_locks m,
        v.one_owner i k,
        v.one_owner i m,
      );
  stopper_locks = λ h. ground (arith, v.stopper_locks, v.stopper_excludes i h);
  stopper_excludes =
      λ k h. ground (arith, v.stopper_locks h, v.stopper_excludes k h, v.stopper_excludes i h);
  stopping_set = v.stopping_set;
  quiet = λ k h. ground (arith, v.quiet k h, v.stopping_set);
}
Step-Inv {s} (begin h) v = record {
  owner_locks = v.owner_locks;
  one_owner = v.one_owner;
  stopper_locks = λ e. absurd (cc);
  stopper_excludes = λ k e. absurd (cc);
  stopping_set = λ e. refl;
  quiet = λ k e. absurd (cc);
}
Step-Inv {s} (acquire h l) v = record {
  owner_locks = λ k e. refl;
  one_owner = v.one_owner;
  stopper_locks = λ e. refl;
  stopper_excludes = λ k e. ground (arith, v.owner_locks k);
  stopping_set = λ e. v.stopping_set (λ u. cc);
  quiet = λ k e. absurd (cc);
}
Step-Inv {s} (release h) v = record {
  owner_locks = λ k e. ground (arith, v.stopper_excludes k h);
  one_owner = v.one_owner;
  stopper_locks = λ e. absurd (cc);
  stopper_excludes = λ k e. absurd (cc);
  stopping_set = λ e. v.stopping_set (λ u. cc);
  quiet = λ k e. ground (arith, v.stopper_excludes k h);
}
Step-Inv {s} (expire h) v = record {
  owner_locks = v.owner_locks;
  one_owner = v.one_owner;
  stopper_locks = λ e. absurd (cc);
  stopper_excludes = λ k e. absurd (cc);
  stopping_set = λ e. v.stopping_set (λ u. cc);
  quiet = λ k e. absurd (cc);
}

Reach-Inv : {s : State} → Reach initial s → Inv s
Reach-Inv here = initial-Inv
Reach-Inv (next r step) = Step-Inv step (Reach-Inv r)

-- In every interleaving at most one job runs at a time.
pub one_job :
    {s : State} (i k : ℕ) → Reach initial s → s.workers i ≡ running → s.workers k ≡ running → i ≡ k
one_job {s} i k r hi hk = (Reach-Inv r).one_owner i k (ground arith) (ground arith)

Step-stopped : {s t : State} → Step s t → s.stopper ≡ stopped → t.stopper ≡ stopped
Step-stopped (begin h) e = absurd (cc)
Step-stopped (acquire h l) e = absurd (cc)
Step-stopped (release h) e = refl
Step-stopped (expire h) e = absurd (cc)
Step-stopped _ e = e

Reach-stopped : {s t : State} → Reach s t → s.stopper ≡ stopped → t.stopper ≡ stopped
Reach-stopped here e = e
Reach-stopped (next r step) e = Step-stopped step (Reach-stopped r e)

Reach-append : {s t u : State} → Reach s t → Reach t u → Reach s u
Reach-append r here = r
Reach-append r (next q step) = next (Reach-append r q) step

-- Once Stop has returned without an error, no job runs, in that state and in every later one.
pub no_job_after_stop :
    {s t : State} (i : ℕ)
    → Reach initial s
    → s.stopper ≡ stopped
    → Reach s t
    → t.workers i ≢ running
no_job_after_stop i r h q = (Reach-Inv (Reach-append r q)).quiet i (Reach-stopped q h)
