-- ===== src/Server/Leaving.antt =====
-- A worker asks to leave twice: in its loop, and once more behind it.
use kierki.Prelude.{
  ℕ, ◌-◌, Bool, true, false, not, ◌||◌, ◌&&◌, List, [], ◌∷◌, Option, none, some, ◌≡◌, refl, sym, ap,
  ◌∙◌, inl, inr, arith, ltb, ◌==◌, ◌>>=◌, if◌then◌else◌, lookup, insert, erase, has, lookup-insert,
  ==_self, Bool-cases, Returns, Returns-elim, Returns-mono, Returns-if, Returns-bind,
}
use kierki.Types.{IoErrClass, io_err_silent, io_err_internal, io_err_external, update}
use kierki.IoWorkerMgr
use kierki.IoWorkerMgr.{
  IoWorkerMgr, WorkerStatus, serving_unknown, serving_active, serving_proxy, cleanup,
  cleanup_unknown, shutdown,
}
use kierki.IoWorkerMgr.Shape.{finish-SameShape, SameKept, clear_once-roles}
use kierki.Server.{Server, with_mgr, finalize}
use kierki.Server.Players.{
  handle_errs, handle_sys_err, shut, leave_seat, exit_as, grand_exit_callback,
}

abbrev HasLeft : ℕ → Server × Bool → Type 0
HasLeft ix (t, b) = b ≡ true → lookup ix t.worker_mgr.roles ≡ some shutdown

finalize-roles :
    (st : Server) → Returns (λ t. t.worker_mgr.roles ≡ st.worker_mgr.roles) (finalize st)
unfolding finalize IoWorkerMgr.release_cleaner
finalize-roles st =
    Returns-if (λ t. t.worker_mgr.roles ≡ st.worker_mgr.roles) st.exiting (some st) _ (λ e. refl)
      (λ e.
        let (m', f, p) = finish-SameShape (IoWorkerMgr.release_cleaner st.worker_mgr) in
        rw f p.same_roles)

finalize-exiting :
    (st : Server) → Returns (λ t. (t.exiting ≡ true) × (t.exit_code ≡ st.exit_code)) (finalize st)
unfolding finalize IoWorkerMgr.release_cleaner
finalize-exiting st =
    Returns-if (λ t. (t.exiting ≡ true) × (t.exit_code ≡ st.exit_code)) st.exiting (some st) _
      (λ e. (e, refl))
      (λ e.
        let (m', f, p) = finish-SameShape (IoWorkerMgr.release_cleaner st.worker_mgr) in
        rw f (refl, refl))

is_shut :
    (ix : ℕ) (st : Server)
    → Returns (λ r. lookup ix r.0.worker_mgr.roles ≡ some shutdown) (shut ix st)
unfolding shut IoWorkerMgr.set_role
is_shut ix st =
    let m = IoWorkerMgr.erase_worker ix st.worker_mgr in
    elim (Bool-cases (has ix m.roles)) [
      | inl e ↦ rw e (lookup-insert ix ix shutdown m.roles ∙ (rw (==_self ix) refl))
      | inr e ↦ rw e tt
    ]

shut-HasLeft : (ix : ℕ) (st : Server) → Returns (HasLeft ix) (shut ix st)
shut-HasLeft ix st =
    Returns-mono (λ r. lookup ix r.0.worker_mgr.roles ≡ some shutdown) (HasLeft ix) (shut ix st)
      (λ r e l. e) (is_shut ix st)

exit_as-HasLeft :
    (role : WorkerStatus) (ix : ℕ) (has_work : Bool) (st : Server)
    → lookup ix st.worker_mgr.roles ≡ some role
    → Returns (HasLeft ix) (exit_as role ix has_work st)
unfolding exit_as leave_seat
exit_as-HasLeft serving_unknown ix has_work st e = shut-HasLeft ix st
exit_as-HasLeft serving_active ix has_work st e =
    Returns-bind (HasLeft ix) (lookup ix st.worker_to_side) _ (λ s f.
      let t = record st {
        players_connected = st.players_connected - 1;
        active_sides = update st.active_sides s none;
        zombie_worker_to_side = insert ix s st.zombie_worker_to_side;
        worker_to_side = erase ix st.worker_to_side;
      } in
      Returns-if (HasLeft ix) (has_work || (ltb t.players_connected 3 && not t.exiting)) _
        (shut ix t)
        (λ g.
          Returns-bind (HasLeft ix) (with_mgr (IoWorkerMgr.set_role ix cleanup) t) _
            (λ u k l. absurd (ground arith)))
        (λ g. shut-HasLeft ix t))
exit_as-HasLeft serving_proxy ix has_work st e = Returns-bind (HasLeft ix) (shut ix st) _ (λ r f.
    Returns-bind (HasLeft ix) (finalize r.0) _ (λ t g l.
      ap (lookup ix) (
        Returns-elim (λ u. u.worker_mgr.roles ≡ r.0.worker_mgr.roles) (finalize r.0) g
          (finalize-roles r.0))
      ∙ Returns-elim (λ q. lookup ix q.0.worker_mgr.roles ≡ some shutdown) (shut ix st) f
          (is_shut ix st)))
exit_as-HasLeft cleanup ix has_work st e =
    Returns-if (HasLeft ix) (st.players_connected == 4 && not has_work) (shut ix st)
      (some (st, false)) (λ f. shut-HasLeft ix st) (λ f l. absurd (ground arith))
exit_as-HasLeft cleanup_unknown ix has_work st e =
    Returns-if (HasLeft ix) (st.players_connected == 4 && not has_work) (shut ix st)
      (some (st, false)) (λ f. shut-HasLeft ix st) (λ f l. absurd (ground arith))
exit_as-HasLeft shutdown ix has_work st e = λ l. e

has_internal : List IoErrClass → Bool
has_internal [] = false
has_internal (io_err_internal ∷ rest) = true
has_internal (err ∷ rest) = has_internal rest

handle_errs-plain :
    (errs : List IoErrClass) (st : Server)
    → has_internal errs ≡ false
    → handle_errs errs st ≡ some (st, false)
unfolding handle_errs handle_sys_err has_internal
handle_errs-plain [] st e = refl
handle_errs-plain (io_err_silent ∷ rest) st e = handle_errs-plain rest st e
handle_errs-plain (io_err_internal ∷ rest) st e = absurd (ground arith)
handle_errs-plain (io_err_external ∷ rest) st e = handle_errs-plain rest st e

abbrev answer_true : Server → Option (Server × Bool)
answer_true t = some (t, true)

stops_at_once :
    (x : Option Server) (more : Server → Option (Server × Bool))
    → ((x >>= answer_true) >>= λ r. if r.1 then some (r.0, true) else more r.0)
      ≡ (x >>= answer_true)
stops_at_once none more = refl
stops_at_once (some t) more = refl

handle_errs-internal :
    (errs : List IoErrClass) (st : Server)
    → has_internal errs ≡ true
    → handle_errs errs st ≡ (finalize (record st { exit_code = 1 }) >>= answer_true)
unfolding handle_errs handle_sys_err has_internal
handle_errs-internal [] st e = absurd (ground arith)
handle_errs-internal (io_err_silent ∷ rest) st e = handle_errs-internal rest st e
handle_errs-internal (io_err_internal ∷ rest) st e =
    stops_at_once (finalize (record st { exit_code = 1 })) (handle_errs rest)
handle_errs-internal (io_err_external ∷ rest) st e = handle_errs-internal rest st e

finalize_again :
    (t : Server)
    → t.exiting ≡ true
    → t.exit_code ≡ 1
    → finalize (record t { exit_code = 1 }) ≡ some t
unfolding finalize
finalize_again t e f =
    let u = record t { exit_code = 1 } in
    ap
      (λ b.
        if b
        then some u
        else with_mgr (λ m. IoWorkerMgr.finish (IoWorkerMgr.release_cleaner m))
            (record u { exiting = true }))
      e
    ∙ ap (λ c. some (record t { exit_code = c })) (sym f)

answer_of : (x : Option Server) (t : Server) → (x >>= answer_true) ≡ some (t, true) → x ≡ some t
answer_of none t e = cc
answer_of (some s) t e = cc

module _ (errs : List IoErrClass) (ix : ℕ) where
  exit_internal :
      (has_work : Bool) (st : Server)
      → has_internal errs ≡ true
      → grand_exit_callback errs ix has_work st
        ≡ (finalize (record st { exit_code = 1 }) >>= answer_true)
  unfolding grand_exit_callback
  exit_internal has_work st e =
      let more : Server → Option (Server × Bool) =
        λ t. (IoWorkerMgr.get_role ix t.worker_mgr) >>= λ role. exit_as role ix has_work t in
      ap (λ x. x >>= λ r. if r.1 then some (r.0, true) else more r.0)
        (handle_errs-internal errs st e)
      ∙ stops_at_once (finalize (record st { exit_code = 1 })) more

  exit_plain :
      (has_work : Bool) (st : Server)
      → has_internal errs ≡ false
      → grand_exit_callback errs ix has_work st
        ≡ (lookup ix st.worker_mgr.roles >>= λ role. exit_as role ix has_work st)
  unfolding grand_exit_callback IoWorkerMgr.get_role
  exit_plain has_work st e = rw (handle_errs-plain errs st e) refl

  again_internal :
      (has_work later_work : Bool) (st t : Server) (m : IoWorkerMgr)
      → has_internal errs ≡ true
      → grand_exit_callback errs ix has_work st ≡ some (t, true)
      → grand_exit_callback errs ix later_work (record t { worker_mgr = m })
        ≡ some (record t { worker_mgr = m }, true)
  again_internal has_work later_work st t m internal e =
      let u = record st { exit_code = 1 } in
      let v = record t { worker_mgr = m } in
      let f = answer_of (finalize u) t (sym (exit_internal has_work st internal) ∙ e) in
      let (exits, code) =
        Returns-elim (λ w. (w.exiting ≡ true) × (w.exit_code ≡ 1)) (finalize u) f
          (finalize-exiting u) in
      exit_internal later_work v internal
      ∙ ap (λ x. x >>= answer_true) (finalize_again v exits code)

  again_plain :
      (has_work later_work : Bool) (st t : Server) (m : IoWorkerMgr)
      → has_internal errs ≡ false
      → grand_exit_callback errs ix has_work st ≡ some (t, true)
      → m.roles ≡ t.worker_mgr.roles
      → grand_exit_callback errs ix later_work (record t { worker_mgr = m })
        ≡ some (record t { worker_mgr = m }, true)
  unfolding exit_as
  again_plain has_work later_work st t m plain e same =
      let u = record t { worker_mgr = m } in
      let x = lookup ix st.worker_mgr.roles >>= λ role. exit_as role ix has_work st in
      let f = sym (exit_plain has_work st plain) ∙ e in
      let left =
        Returns-elim (HasLeft ix) x f
          (Returns-bind (HasLeft ix) (lookup ix st.worker_mgr.roles) _
            (λ role g. exit_as-HasLeft role ix has_work st g))
          refl in
      exit_plain later_work u plain
      ∙ ap (λ y. y >>= λ role. exit_as role ix later_work u) (ap (lookup ix) same ∙ left)

-- The rounds of the thread that clears, any number of them.
pub data Rounds : IoWorkerMgr → IoWorkerMgr → Type 0 where
  no_round : {m : IoWorkerMgr} → Rounds m m
  one_more :
      {m n o : IoWorkerMgr} {b : Bool}
      → IoWorkerMgr.clear_once m ≡ some (n, b)
      → Rounds n o
      → Rounds m o

Rounds-roles : {m o : IoWorkerMgr} → Rounds m o → o.roles ≡ m.roles
Rounds-roles no_round = refl
Rounds-roles (one_more {m} e r) =
    Rounds-roles r
    ∙ (Returns-elim (λ p. SameKept m p.0) (IoWorkerMgr.clear_once m) e (clear_once-roles m)).0

-- A worker that was once told that it may leave is told so again when it asks a second time, as it
-- does behind its loop, with the errors it had and whatever work it then reports, also when the
-- thread that clears has had any number of rounds in between: the second call fails in no case and
-- changes nothing.
pub grand_exit_callback-again :
    (errs : List IoErrClass) (ix : ℕ) (has_work later_work : Bool) (st t : Server) (m : IoWorkerMgr)
    → grand_exit_callback errs ix has_work st ≡ some (t, true)
    → Rounds t.worker_mgr m
    → grand_exit_callback errs ix later_work (record t { worker_mgr = m })
      ≡ some (record t { worker_mgr = m }, true)
grand_exit_callback-again errs ix has_work later_work st t m e r =
    elim (Bool-cases (has_internal errs)) [
      | inl f ↦ again_internal errs ix has_work later_work st t m f e
      | inr f ↦ again_plain errs ix has_work later_work st t m f e (Rounds-roles r)
    ]
