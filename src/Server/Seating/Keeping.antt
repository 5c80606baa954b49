-- ===== src/Server/Seating/Keeping.antt =====
-- Steps that seat nobody and unseat nobody.
use kierki.Prelude.{
  ℕ, false, List, [], ◌∷◌, Option, none, some, ◌≡◌, refl, sym, ap, ◌∙◌, ◌==◌, Bool-cases, ==_self,
  lookup, has, insert, lookup-insert, has-insert_present, inl, inr, ◌>>=◌, Returns, Returns-mono,
  Returns-elim, Returns-if, Returns-bind,
}
use kierki.Types.{Side}
use kierki.SendJob.{SendJob}
use kierki.IoWorkerMgr
use kierki.IoWorkerMgr.{IoWorkerMgr, WorkerStatus, serving_unknown, status_code}
use kierki.IoWorkerMgr.Shape.{SameShape, finish-SameShape, signal_role-SameShape}
use kierki.Server.{Server, with_mgr, send_to_side, send_each, finalize}
use kierki.Server.Seating.{IsKnown, IsSeated}

-- The manager has the same workers with roles, and forgets no introduction.
pub record KeepsRoles (m m' : IoWorkerMgr) : Type 0 where
  pub same_next : m'.next_ix ≡ m.next_ix
  pub same_keys : (ix : ℕ) → has ix m'.roles ≡ has ix m.roles
  pub still_known : (ix : ℕ) → IsKnown ix m → IsKnown ix m'

pub KeepsRoles-same :
    (m m' : IoWorkerMgr) → m'.roles ≡ m.roles → m'.next_ix ≡ m.next_ix → KeepsRoles m m'
KeepsRoles-same m m' e f = record {
  same_next = f;
  same_keys = λ ix. ap (has ix) e;
  still_known = λ ix k. (k.0, ap (lookup ix) e ∙ k.1, k.2);
}

-- The server has the same seats, too.
pub record KeepsSeats (st st' : Server) : Type 0 where
  pub same_active : st'.active_sides ≡ st.active_sides
  pub same_sides : st'.worker_to_side ≡ st.worker_to_side
  pub same_count : st'.players_connected ≡ st.players_connected
  pub roles : KeepsRoles st.worker_mgr st'.worker_mgr

pub KeepsSeats-trans : {s t u : Server} → KeepsSeats s t → KeepsSeats t u → KeepsSeats s u
KeepsSeats-trans p q = record {
  same_active = q.same_active ∙ p.same_active;
  same_sides = q.same_sides ∙ p.same_sides;
  same_count = q.same_count ∙ p.same_count;
  roles = record {
    same_next = q.roles.same_next ∙ p.roles.same_next;
    same_keys = λ ix. q.roles.same_keys ix ∙ p.roles.same_keys ix;
    still_known = λ ix k. q.roles.still_known ix (p.roles.still_known ix k);
  };
}

pub KeepsSeats-IsSeated : {st st' : Server} → KeepsSeats st st' → IsSeated st → IsSeated st'
KeepsSeats-IsSeated {st} {st'} p v = record {
  seat_worker = λ s ix seat e.
      ap (lookup ix) p.same_sides ∙ v.seat_worker s ix seat (sym (ap (λ f. f s) p.same_active) ∙ e);
  worker_seat = λ ix s e.
      let (seat, active, known) = v.worker_seat ix s (sym (ap (lookup ix) p.same_sides) ∙ e) in
      (seat, ap (λ f. f s) p.same_active ∙ active, p.roles.still_known ix known);
  counted = rw (p.same_count, p.same_active) v.counted;
  numbered = λ ix h. rw p.roles.same_next (v.numbered ix (sym (p.roles.same_keys ix) ∙ h));
}

-- A change of the manager and of fields that do not matter here.
pub KeepsSeats-mgr :
    (st : Server) (m : IoWorkerMgr)
    → KeepsRoles st.worker_mgr m
    → KeepsSeats st (record st { worker_mgr = m })
KeepsSeats-mgr st m k = record {
  same_active = refl;
  same_sides = refl;
  same_count = refl;
  roles = k;
}

renamed :
    (ix : ℕ) (role : WorkerStatus) (m : IoWorkerMgr)
    → (status_code role == 0) ≡ false
    → (j : ℕ) → IsKnown j m
    → IsKnown j (record m { roles = insert ix role m.roles })
renamed ix role m known j (r, e, k) = elim (Bool-cases (ix == j)) [
  | inl same ↦ (role, rw (lookup-insert ix j role m.roles, same), known)
  | inr other ↦ (r, rw (lookup-insert ix j role m.roles, other) e, k)
]

pub set_role-KeepsRoles :
    (ix : ℕ) (role : WorkerStatus) (m : IoWorkerMgr)
    → (status_code role == 0) ≡ false
    → Returns (KeepsRoles m) (IoWorkerMgr.set_role ix role m)
unfolding IoWorkerMgr.set_role
set_role-KeepsRoles ix role m known =
    Returns-if (KeepsRoles m) (has ix m.roles) (some (record m { roles = insert ix role m.roles }))
      none
      (λ there. record {
        same_next = refl;
        same_keys = λ j. has-insert_present ix j role m.roles there;
        still_known = λ j k. renamed ix role m known j k;
      })
      (λ gone. tt)

pub set_role-IsKnown :
    (ix : ℕ) (role : WorkerStatus) (m : IoWorkerMgr)
    → (status_code role == 0) ≡ false
    → Returns (IsKnown ix) (IoWorkerMgr.set_role ix role m)
unfolding IoWorkerMgr.set_role
set_role-IsKnown ix role m known =
    Returns-if (IsKnown ix) (has ix m.roles) (some (record m { roles = insert ix role m.roles }))
      none (λ there. (role, rw (lookup-insert ix ix role m.roles, ==_self ix), known)) (λ gone. tt)

send_job-KeepsRoles :
    (job : SendJob) (ix : ℕ) (m : IoWorkerMgr)
    → Returns (KeepsRoles m) (IoWorkerMgr.send_job job ix m)
unfolding IoWorkerMgr.send_job IoWorkerMgr.signal
send_job-KeepsRoles job ix m =
    Returns-bind (KeepsRoles m) (lookup ix m.workers) _ (λ q e. KeepsRoles-same m _ refl refl)

pub send_kill-KeepsRoles :
    (ix : ℕ) (m : IoWorkerMgr) → Returns (KeepsRoles m) (IoWorkerMgr.send_kill ix m)
unfolding IoWorkerMgr.send_kill IoWorkerMgr.signal
send_kill-KeepsRoles ix m =
    Returns-bind (KeepsRoles m) (lookup ix m.workers) _ (λ q e. KeepsRoles-same m _ refl refl)

SameShape-KeepsRoles : {m m' : IoWorkerMgr} → SameShape m m' → KeepsRoles m m'
SameShape-KeepsRoles {m} {m'} p = KeepsRoles-same m m' p.same_roles p.same_next

pub signal_role-KeepsRoles :
    (role : WorkerStatus) (m : IoWorkerMgr) → KeepsRoles m (IoWorkerMgr.signal_role role m)
signal_role-KeepsRoles role m = SameShape-KeepsRoles (signal_role-SameShape role m)

pub erase_worker-KeepsRoles :
    (ix : ℕ) (m : IoWorkerMgr) → KeepsRoles m (IoWorkerMgr.erase_worker ix m)
unfolding IoWorkerMgr.erase_worker
erase_worker-KeepsRoles ix m = elim (Bool-cases (IoWorkerMgr.to_be_erased ix m)) [
  | inl e ↦ rw e (KeepsRoles-same m m refl refl)
  | inr e ↦ rw e (KeepsRoles-same m _ refl refl)
]

pub KeepsRoles-trans : {m n o : IoWorkerMgr} → KeepsRoles m n → KeepsRoles n o → KeepsRoles m o
KeepsRoles-trans p q = record {
  same_next = q.same_next ∙ p.same_next;
  same_keys = λ ix. q.same_keys ix ∙ p.same_keys ix;
  still_known = λ ix k. q.still_known ix (p.still_known ix k);
}

-- A change of the manager alone.
pub with_mgr-KeepsSeats :
    (f : IoWorkerMgr → Option IoWorkerMgr) (st : Server)
    → Returns (KeepsRoles st.worker_mgr) (f st.worker_mgr)
    → Returns (KeepsSeats st) (with_mgr f st)
with_mgr-KeepsSeats f st h =
    Returns-bind (KeepsSeats st) (f st.worker_mgr) _
      (λ m e. KeepsSeats-mgr st m (Returns-elim (KeepsRoles st.worker_mgr) (f st.worker_mgr) e h))

-- One step behind another.
pub KeepsSeats-then :
    (st : Server) (x : Option Server) (f : Server → Option Server)
    → Returns (KeepsSeats st) x
    → ((t : Server) → Returns (KeepsSeats t) (f t))
    → Returns (KeepsSeats st) (x >>= f)
KeepsSeats-then st x f h k = Returns-bind (KeepsSeats st) x f (λ t e.
    Returns-mono (KeepsSeats t) (KeepsSeats st) (f t)
      (λ u q. KeepsSeats-trans (Returns-elim (KeepsSeats st) x e h) q) (k t))

pub send_to_worker-KeepsSeats :
    (job : SendJob) (ix : ℕ) (st : Server)
    → Returns (KeepsSeats st) (with_mgr (IoWorkerMgr.send_job job ix) st)
send_to_worker-KeepsSeats job ix st =
    with_mgr-KeepsSeats (IoWorkerMgr.send_job job ix) st (send_job-KeepsRoles job ix st.worker_mgr)

pub send_to_side-KeepsSeats :
    (job : SendJob) (s : Side) (st : Server) → Returns (KeepsSeats st) (send_to_side job s st)
unfolding send_to_side
send_to_side-KeepsSeats job s st =
    Returns-bind (KeepsSeats st) (st.active_sides s) _ (λ ix e. send_to_worker-KeepsSeats job ix st)

pub KeepsSeats-refl : (st : Server) → KeepsSeats st st
KeepsSeats-refl st = KeepsSeats-mgr st st.worker_mgr (KeepsRoles-same _ _ refl refl)

pub send_each-KeepsSeats :
    (job_for : Side → SendJob) (ss : List Side) (st : Server)
    → Returns (KeepsSeats st) (send_each job_for ss st)
unfolding send_each
send_each-KeepsSeats job_for [] st = KeepsSeats-refl st
send_each-KeepsSeats job_for (s ∷ ss) st =
    KeepsSeats-then st (send_to_side (job_for s) s st) (send_each job_for ss)
      (send_to_side-KeepsSeats (job_for s) s st) (send_each-KeepsSeats job_for ss)

pub finalize-KeepsSeats : (st : Server) → Returns (KeepsSeats st) (finalize st)
unfolding finalize IoWorkerMgr.release_cleaner
finalize-KeepsSeats st =
    Returns-if (KeepsSeats st) st.exiting (some st) _ (λ e. KeepsSeats-refl st)
      (λ e.
        let m = IoWorkerMgr.release_cleaner st.worker_mgr in
        let (m', f, p) = finish-SameShape m in
        rw f (record {
          same_active = refl;
          same_sides = refl;
          same_count = refl;
          roles = KeepsRoles-same st.worker_mgr m' p.same_roles p.same_next;
        }))
