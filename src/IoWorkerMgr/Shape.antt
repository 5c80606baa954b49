-- ===== src/IoWorkerMgr/Shape.antt =====
-- The sending methods of the manager change nothing but job queues and pipes.
use kierki.Prelude.{
  ℕ, ◌-◌, List, none, Returns, Returns-if, erase, true, [], ◌∷◌, some, ◌≡◌, refl, ◌∙◌, inl, inr,
  arith, ◌==◌, Bool-cases, Map, has, has-insert_present, lookup_of_has, insert,
}
use kierki.SendJob.{SendJob}
use kierki.JobQueue.{JobQueue, push_next_job, set_kill_order}
use kierki.IoWorkerMgr.{
  IoWorkerMgr, WorkerStatus, signal, send_kill, send_job, kill_all, finish, signal_role,
  signal_each, to_be_erased, erase_all, clear_once, status_code,
}

-- Same workers, roles and flags; only queues and pipes may differ.
pub record SameShape (m m' : IoWorkerMgr) : Type 0 where
  pub same_workers : (ix : ℕ) → has ix m'.workers ≡ has ix m.workers
  pub same_threads : m'.threads ≡ m.threads
  pub same_roles : m'.roles ≡ m.roles
  pub same_permits : m'.clear_permits ≡ m.clear_permits
  pub same_to_erase : m'.to_erase ≡ m.to_erase
  pub same_flag : m'.finish_flag ≡ m.finish_flag
  pub same_next : m'.next_ix ≡ m.next_ix

pub SameShape-refl : (m : IoWorkerMgr) → SameShape m m
SameShape-refl m = record {
  same_workers = λ ix. refl;
  same_threads = refl;
  same_roles = refl;
  same_permits = refl;
  same_to_erase = refl;
  same_flag = refl;
  same_next = refl;
}

pub SameShape-trans : {m n o : IoWorkerMgr} → SameShape m n → SameShape n o → SameShape m o
SameShape-trans p q = record {
  same_workers = λ ix. q.same_workers ix ∙ p.same_workers ix;
  same_threads = q.same_threads ∙ p.same_threads;
  same_roles = q.same_roles ∙ p.same_roles;
  same_permits = q.same_permits ∙ p.same_permits;
  same_to_erase = q.same_to_erase ∙ p.same_to_erase;
  same_flag = q.same_flag ∙ p.same_flag;
  same_next = q.same_next ∙ p.same_next;
}

-- A worker that is there gets another queue.
requeue : ℕ → JobQueue → IoWorkerMgr → IoWorkerMgr
requeue ix q m = signal ix (record m { workers = insert ix q m.workers })

requeue-SameShape :
    (ix : ℕ) (q : JobQueue) (m : IoWorkerMgr)
    → has ix m.workers ≡ true
    → SameShape m (requeue ix q m)
unfolding requeue signal
requeue-SameShape ix q m h = record {
  same_workers = λ j. has-insert_present ix j q m.workers h;
  same_threads = refl;
  same_roles = refl;
  same_permits = refl;
  same_to_erase = refl;
  same_flag = refl;
  same_next = refl;
}

-- A message to a worker that is there arrives, and changes nothing else.
pub send_job-SameShape :
    (job : SendJob) (ix : ℕ) (m : IoWorkerMgr)
    → has ix m.workers ≡ true
    → (m' : IoWorkerMgr) × (send_job job ix m ≡ some m') × SameShape m m'
unfolding send_job requeue
send_job-SameShape job ix m h =
    let (q, e) = lookup_of_has ix m.workers h in
    (requeue ix (push_next_job job q) m, rw e, requeue-SameShape ix (push_next_job job q) m h)

pub send_kill-SameShape :
    (ix : ℕ) (m : IoWorkerMgr)
    → has ix m.workers ≡ true
    → (m' : IoWorkerMgr) × (send_kill ix m ≡ some m') × SameShape m m'
unfolding send_kill requeue
send_kill-SameShape ix m h =
    let (q, e) = lookup_of_has ix m.workers h in
    (requeue ix (set_kill_order q) m, rw e, requeue-SameShape ix (set_kill_order q) m h)

-- Every worker of the list is one of the map.
abbrev Within : Map JobQueue → IoWorkerMgr → Type 0
Within [] m = Unit {0}
Within ((ix, q) ∷ rest) m = (has ix m.workers ≡ true) × Within rest m

Within-mono : (ws : Map JobQueue) {m m' : IoWorkerMgr} → SameShape m m' → Within ws m → Within ws m'
Within-mono [] p w = tt
Within-mono ((ix, q) ∷ rest) p (h, w) = (p.same_workers ix ∙ h, Within-mono rest p w)

kill_all-SameShape :
    (ws : Map JobQueue) (m : IoWorkerMgr)
    → Within ws m
    → (m' : IoWorkerMgr) × (kill_all ws m ≡ some m') × SameShape m m'
unfolding kill_all
kill_all-SameShape [] m w = (m, refl, SameShape-refl m)
kill_all-SameShape ((ix, q) ∷ rest) m (h, w) = elim (Bool-cases (to_be_erased ix m)) [
  | inl e ↦ let (m', e', p) = kill_all-SameShape rest m w in (m', rw e e', p)
  | inr e ↦
      let (n, en, pn) = send_kill-SameShape ix m h in
      let (m', e', p) = kill_all-SameShape rest n (Within-mono rest pn w) in
      (m', rw e (rw en e'), SameShape-trans pn p)
]

Within-weaken :
    (ws : Map JobQueue) (m : IoWorkerMgr)
    → ((ix : ℕ) → has ix ws ≡ true → has ix m.workers ≡ true)
    → Within ws m
unfolding has
Within-weaken [] m h = tt
Within-weaken ((ix, q) ∷ rest) m h =
    (h ix (ground arith), Within-weaken rest m (λ j e. h j (ground arith)))

-- `finish` always succeeds: it kills workers that are there.
pub finish-SameShape :
    (m : IoWorkerMgr) → (m' : IoWorkerMgr) × (finish m ≡ some m') × SameShape m m'
unfolding finish
finish-SameShape m = kill_all-SameShape m.workers m (Within-weaken m.workers m (λ ix h. h))

signal-SameShape : (ix : ℕ) (m : IoWorkerMgr) → SameShape m (signal ix m)
unfolding signal
signal-SameShape ix m = record {
  same_workers = λ j. refl;
  same_threads = refl;
  same_roles = refl;
  same_permits = refl;
  same_to_erase = refl;
  same_flag = refl;
  same_next = refl;
}

signal_each-SameShape :
    (role : WorkerStatus) (rs : Map WorkerStatus) (m : IoWorkerMgr)
    → SameShape m (signal_each role rs m)
unfolding signal_each
signal_each-SameShape role [] m = SameShape-refl m
signal_each-SameShape role ((ix, r) ∷ rest) m =
    elim (Bool-cases (status_code r == status_code role)) [
      | inl e ↦
          rw e (
            SameShape-trans (signal-SameShape ix m) (signal_each-SameShape role rest (signal ix m)))
      | inr e ↦ rw e (signal_each-SameShape role rest m)
    ]

pub signal_role-SameShape :
    (role : WorkerStatus) (m : IoWorkerMgr) → SameShape m (signal_role role m)
unfolding signal_role
signal_role-SameShape role m = signal_each-SameShape role m.roles m

abbrev pub SameKept : IoWorkerMgr → IoWorkerMgr → Type 0
SameKept m m' = (m'.roles ≡ m.roles) × (m'.next_ix ≡ m.next_ix)

erase_all-roles : (ixs : List ℕ) (m : IoWorkerMgr) → SameKept m (erase_all ixs m)
unfolding erase_all
erase_all-roles [] m = (refl, refl)
erase_all-roles (ix ∷ rest) m =
    erase_all-roles rest (record m { threads = erase ix m.threads; workers = erase ix m.workers })

-- The cleaner leaves the roles and the numbering alone.
pub clear_once-roles : (m : IoWorkerMgr) → Returns (λ r. SameKept m r.0) (clear_once m)
unfolding clear_once
clear_once-roles m =
    Returns-if (λ r. SameKept m r.0) (m.clear_permits == 0) none _ (λ e. tt)
      (λ e. erase_all-roles m.to_erase (record m { clear_permits = m.clear_permits - 1 }))
