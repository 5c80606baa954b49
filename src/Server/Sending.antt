-- ===== src/Server/Sending.antt =====
-- The sending steps of the server reach their worker, and change nothing but queues and pipes.
use mathlib.Core.Path.{subst}
use kierki.Prelude.{
  ℕ, true, List, [], ◌∷◌, Option, some, ◌≡◌, refl, ap, ◌∙◌, inl, inr, Bool-cases, All, has,
}
use kierki.Types.{Side, IsSeat, sides}
use kierki.SendJob.{SendJob}
use kierki.IoWorkerMgr
use kierki.IoWorkerMgr.{IoWorkerMgr}
use kierki.IoWorkerMgr.Shape.{
  SameShape, SameShape-refl, SameShape-trans, send_job-SameShape, finish-SameShape,
}
use kierki.Server.{Server, send_to_side, send_each, finalize}
use kierki.Server.Round.{send_scores}

-- The second state is the first with other queues and pipes.
abbrev pub Sent : Server → Server → Type 0
Sent st st' = (m : IoWorkerMgr) × (st' ≡ record st { worker_mgr = m }) × SameShape st.worker_mgr m

pub Sent-refl : (st : Server) → Sent st st
Sent-refl st = (st.worker_mgr, refl, SameShape-refl st.worker_mgr)

pub Sent-trans : {st st' st'' : Server} → Sent st st' → Sent st' st'' → Sent st st''
Sent-trans {st} {st'} {st''} (m, e, p) (n, f, q) = (
  n,
  f ∙ (λ i. record (e i) { worker_mgr = n }),
  SameShape-trans p (subst (λ x. SameShape x.worker_mgr n) e q),
)

-- The side has a worker that is there.
abbrev pub IsServed : Server → Side → Type 0
IsServed st s = (ix : ℕ) × (st.active_sides s ≡ some ix) × (has ix st.worker_mgr.workers ≡ true)

-- Each of the four sides has one.
abbrev pub AllServed : Server → Type 0
AllServed st = (s : Side) → IsSeat s → IsServed st s

pub Sent-AllServed : {st st' : Server} → Sent st st' → AllServed st → AllServed st'
Sent-AllServed {st} (m, e, p) a s h =
    let (ix, ea, there) = a s h in rw e (ix, ea, p.same_workers ix ∙ there)

-- A message to a side that is served arrives.
pub send_to_side-Sent :
    (job : SendJob) (s : Side) (st : Server)
    → IsServed st s
    → (st' : Server) × (send_to_side job s st ≡ some st') × Sent st st'
unfolding send_to_side
send_to_side-Sent job s st (ix, ea, there) =
    let (m, e, p) = send_job-SameShape job ix st.worker_mgr there in
    (record st { worker_mgr = m }, rw (ea, e), (m, refl, p))

abbrev AllSeats : List Side → Type 0
AllSeats = All IsSeat

send_each-Sent_from :
    (job_for : Side → SendJob) (ss : List Side) (st : Server)
    → AllSeats ss
    → AllServed st
    → (st' : Server) × (send_each job_for ss st ≡ some st') × Sent st st'
unfolding send_each
send_each-Sent_from job_for [] st h a = (st, refl, Sent-refl st)
send_each-Sent_from job_for (s ∷ ss) st (h, hs) a =
    let (st1, e1, p1) = send_to_side-Sent (job_for s) s st (a s h) in
    let (st2, e2, p2) = send_each-Sent_from job_for ss st1 hs (Sent-AllServed p1 a) in
    (st2, rw (e1, e2), Sent-trans p1 p2)

-- So do the messages to all sides.
pub send_each-Sent :
    (job_for : Side → SendJob) (st : Server)
    → AllServed st
    → (st' : Server) × (send_each job_for sides st ≡ some st') × Sent st st'
send_each-Sent job_for st a = send_each-Sent_from job_for sides st (tt, (tt, (tt, (tt, tt)))) a

send_scores-Sent_from :
    (msg_score msg_total : SendJob) (ss : List Side) (st : Server)
    → AllSeats ss
    → AllServed st
    → (st' : Server) × (send_scores msg_score msg_total ss st ≡ some st') × Sent st st'
unfolding send_scores
send_scores-Sent_from msg_score msg_total [] st h a = (st, refl, Sent-refl st)
send_scores-Sent_from msg_score msg_total (s ∷ ss) st (h, hs) a =
    let (st1, e1, p1) = send_to_side-Sent msg_score s st (a s h) in
    let a1 = Sent-AllServed p1 a in
    let (st2, e2, p2) = send_to_side-Sent msg_total s st1 (a1 s h) in
    let (st3, e3, p3) =
      send_scores-Sent_from msg_score msg_total ss st2 hs (Sent-AllServed p2 a1) in
    (st3, rw (e1, e2, e3), Sent-trans p1 (Sent-trans p2 p3))

pub send_scores-Sent :
    (msg_score msg_total : SendJob) (st : Server)
    → AllServed st
    → (st' : Server) × (send_scores msg_score msg_total sides st ≡ some st') × Sent st st'
send_scores-Sent msg_score msg_total st a =
    send_scores-Sent_from msg_score msg_total sides st (tt, (tt, (tt, (tt, tt)))) a

-- The end of the game: the flag is set, and every worker has its order to end.
abbrev pub Ended : Server → Server → Type 0
Ended st st' =
    (m : IoWorkerMgr) × (st' ≡ record st { worker_mgr = m; exiting = true })
    × ((ix : ℕ) → has ix m.workers ≡ has ix st.worker_mgr.workers)
    × (m.roles ≡ st.worker_mgr.roles)

pub finalize-Ended : (st : Server) → (st' : Server) × (finalize st ≡ some st') × Ended st st'
unfolding finalize IoWorkerMgr.release_cleaner
finalize-Ended st = elim (Bool-cases st.exiting) [
  | inl e ↦ (
    st,
    rw e,
    (
      st.worker_mgr,
      (λ i. record st { worker_mgr = st.worker_mgr; exiting = e i }),
      (λ ix. refl),
      refl,
    ),
  )
  | inr e ↦
      let (m, f, p) = finish-SameShape (IoWorkerMgr.release_cleaner st.worker_mgr) in
      (
        record st { worker_mgr = m; exiting = true },
        rw (e, f),
        (m, refl, p.same_workers, p.same_roles),
      )
]

pub Ended-AllServed : (st : Server) {st' : Server} → Ended st st' → AllServed st → AllServed st'
Ended-AllServed st (m, e, same, roles) a s h =
    let (ix, ea, there) = a s h in rw e (ix, ea, same ix ∙ there)

-- The state after a step that only sends, written out.
pub delivered :
    (x : Option Server) (st : Server)
    → (st' : Server) × (x ≡ some st') × Sent st st'
    → (m : IoWorkerMgr) × (x ≡ some (record st { worker_mgr = m })) × SameShape st.worker_mgr m
delivered x st (st', e, (m, q, p)) = (m, e ∙ ap some q, p)

pub mgr-AllServed :
    (st : Server) (m : IoWorkerMgr)
    → SameShape st.worker_mgr m
    → AllServed st
    → AllServed (record st { worker_mgr = m })
mgr-AllServed st m p a s h = let (ix, ea, there) = a s h in (ix, ea, p.same_workers ix ∙ there)
