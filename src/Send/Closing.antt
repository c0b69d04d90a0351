-- ===== src/Send/Closing.antt =====
-- Which descriptors a response closes.
use cherokee.Base.{
  ℕ, Bool, true, false, List, [], ◌∷◌, ◌++◌, ◌≡◌, ◌≢◌, refl, arith, if◌then◌else◌, inl, inr,
  Bool-cases,
}
use cherokee.Base.Int.{ℤ}
use cherokee.Fault.{Result, ok, fault}
use cherokee.Message.{MsgStatus, handle_init, handle_complete, handle_error, MsgBodyType, file_type}
use cherokee.Send.{
  SendStop, again, broken, stopped, sent_head, sent_body, sent_nothing, send_loop, Round, send_head,
  send_body, no_body, gives_up, spins, round_of, is_whole, conclude, last_close, send_response,
  conclude_result, after_prepare,
}
use cherokee.Send.Build.{
  Setting, Sender, Flow, next, return, crash, dispatch, send_page, send_file, delete_file, put_file,
  send_redirect, prepare, prepare_at, page_flow, is_minus_one, dispatch_result,
}
use cherokee.Send.Routing.{Route, route}
use cherokee.Text.{Bytes, equal, codes}
use cherokee.World.{Effect, close_fd, open_file, remove_file}

abbrev pub Keeps {ℓ} : (Sender → Type ℓ) → Result Sender → Type ℓ
Keeps P (ok c) = P c
Keeps P (fault e) = Unit

-- What every step of the loop keeps, the loop keeps.
module _ {ℓ} (P : Sender → Type ℓ) (s : Setting) (stop : SendStop)
    (heads : (n : ℕ) (c : Sender) → P c → P (sent_head n c))
    (bodies : (b : Bytes) (n : ℕ) (c : Sender) → P c → P (sent_body b n c))
    (nothing : (c : Sender) → P c → P (sent_nothing c))
    (stops : (c : Sender) → P c → P (stopped stop c)) where
  Keeps-nil :
      (c : Sender) → P c → (r : Round) → round_of s c.resp ≡ r → Keeps P (send_loop s [] stop c)
  unfolding send_loop
  Keeps-nil c p send_head e = rw (e, send_loop) (stops c p)
  Keeps-nil c p (send_body b) e = rw (e, send_loop) (stops c p)
  Keeps-nil c p no_body e = rw (e, send_loop) (nothing c p)
  Keeps-nil c p gives_up e = rw (e, send_loop) p
  Keeps-nil c p spins e = rw (e, send_loop) tt

  Keeps-cons :
      (n : ℕ) (ns : List ℕ) (c : Sender)
      → ((c' : Sender) → P c' → Keeps P (send_loop s ns stop c'))
      → P c
      → (r : Round) → round_of s c.resp ≡ r
      → Keeps P (send_loop s (n ∷ ns) stop c)
  unfolding send_loop
  Keeps-cons n ns c ih p send_head e = rw (e, send_loop) (ih (sent_head n c) (heads n c p))
  Keeps-cons n ns c ih p (send_body b) e = elim (Bool-cases (is_whole n c.resp)) [
    | inl w ↦ rw (e, send_loop) (rw (w, send_loop) (bodies b n c p))
    | inr w ↦ rw (e, send_loop) (rw (w, send_loop) (ih (sent_body b n c) (bodies b n c p)))
  ]
  Keeps-cons n ns c ih p no_body e = rw (e, send_loop) (nothing c p)
  Keeps-cons n ns c ih p gives_up e = rw (e, send_loop) p
  Keeps-cons n ns c ih p spins e = rw (e, send_loop) tt

  pub send_loop_inv : (ns : List ℕ) (c : Sender) → P c → Keeps P (send_loop s ns stop c)
  send_loop_inv [] c p = Keeps-nil c p (round_of s c.resp) refl
  send_loop_inv (n ∷ ns) c p = Keeps-cons n ns c (send_loop_inv ns) p (round_of s c.resp) refl

-- Descriptor `x` is not closed.
abbrev pub LeavesOpen : ℤ → List Effect → Type 0
LeavesOpen x [] = Unit
LeavesOpen x (close_fd y ∷ es) = (y ≢ x) × LeavesOpen x es
LeavesOpen x (_ ∷ es) = LeavesOpen x es

LeavesOpen-append :
    (x : ℤ) (es fs : List Effect) → LeavesOpen x es → LeavesOpen x fs → LeavesOpen x (es ++ fs)
LeavesOpen-append x [] fs p q = q
LeavesOpen-append x (close_fd y ∷ es) fs p q = (p.0, LeavesOpen-append x es fs p.1 q)
LeavesOpen-append x (_ ∷ es) fs p q = LeavesOpen-append x es fs p q

-- No step of a response gives up on it or closes `x`.
abbrev Going : ℤ → Sender → Type 0
Going x c = LeavesOpen x c.done × (c.resp.status ≢ handle_error)

abbrev FlowGoing : ℤ → Flow → Type 0
FlowGoing x (next c) = Going x c
FlowGoing x (return c) = LeavesOpen x c.done
FlowGoing x (crash e) = Unit

module _ (x : ℤ) (s : Setting) where
  one :
      (c : Sender) (e : Effect)
      → LeavesOpen x (e ∷ [])
      → LeavesOpen x c.done
      → LeavesOpen x (c.done ++ e ∷ [])
  one c e q p = LeavesOpen-append x c.done (e ∷ []) p q

  branch :
      (b : Bool) (m n : Flow) → FlowGoing x m → FlowGoing x n → FlowGoing x (if b then m else n)
  branch true m n p q = p
  branch false m n p q = q

  page_flow-Going :
      (c : Sender) (m : Result Bytes) → LeavesOpen x c.done → FlowGoing x (page_flow c m)
  page_flow-Going c (ok page) p = (p, λ e. cc)
  page_flow-Going c (fault e) p = tt

  send_file-Going : (f : Bytes) (c : Sender) → LeavesOpen x c.done → FlowGoing x (send_file s f c)
  unfolding send_file
  send_file-Going f c p =
      let opened = record c { done = c.done ++ open_file (codes "filedir/" ++ f) ∷ [] } in
      let q = one c (open_file (codes "filedir/" ++ f)) tt p in
      branch (is_minus_one (s.open_fd (codes "filedir/" ++ f))) _ _ (one opened _ tt q) (q, λ e. cc)

  removal-LeavesOpen :
      (path : Bytes) (b : Bool) → LeavesOpen x (if b then remove_file path ∷ [] else [])
  removal-LeavesOpen path true = tt
  removal-LeavesOpen path false = tt

  delete_file-Going :
      (f : Bytes) (c : Sender) → LeavesOpen x c.done → FlowGoing x (delete_file s f c)
  unfolding delete_file
  delete_file-Going f c p =
      let path = codes "filedir/" ++ f in
      let gone = if s.can_remove path then remove_file path ∷ [] else [] in
      let removed = record c { done = c.done ++ gone } in
      one removed _ tt
        (LeavesOpen-append x c.done gone p (removal-LeavesOpen path (s.can_remove path)))

  put_file-Going : (f : Bytes) (c : Sender) → LeavesOpen x c.done → FlowGoing x (put_file s f c)
  unfolding put_file
  put_file-Going f c p =
      branch (s.can_write (codes "filedir/" ++ f)) _ _ (one c _ tt p, λ e. cc) (one c _ tt p)

  dispatch-Going : (t : Route) (c : Sender) → LeavesOpen x c.done → FlowGoing x (dispatch s t c)
  unfolding dispatch send_page send_redirect
  dispatch-Going t c p = branch (equal t.opera (codes "/")) _ _ (page_flow-Going c _ p) (
      branch (equal t.opera (codes "downl")) _ _ (send_file-Going t.filename c p) (
        branch (equal t.opera (codes "del")) _ _ (delete_file-Going t.filename c p)
          (branch (equal t.opera (codes "put")) _ _ (put_file-Going t.filename c p) (p, λ e. cc))))

  route-Going :
      (c : Sender) (m : Result Route) → LeavesOpen x c.done → FlowGoing x (dispatch_result s c m)
  route-Going c (ok t) p = dispatch-Going t c p
  route-Going c (fault e) p = tt

  prepare_at-Going : (st : MsgStatus) (c : Sender) → Going x c → FlowGoing x (prepare_at st s c)
  unfolding prepare_at
  prepare_at-Going handle_init c p = route-Going c (route c.resp.body_file_name) p.0
  prepare_at-Going _ c p = p

  sent_head-Going : (n : ℕ) (c : Sender) → Going x c → Going x (sent_head n c)
  unfolding sent_head
  sent_head-Going n c p = (one c _ tt p.0, ground arith)

  sent_body-Going : (b : Bytes) (n : ℕ) (c : Sender) → Going x c → Going x (sent_body b n c)
  unfolding sent_body
  sent_body-Going b n c p = (one c _ tt p.0, ground arith)

  stopped-Going : (stop : SendStop) (c : Sender) → Going x c → Going x (stopped stop c)
  unfolding stopped
  stopped-Going again c p = p
  stopped-Going broken c p = p

  nothing-Going : (c : Sender) → Going x c → Going x (sent_nothing c)
  nothing-Going c p = (p.0, λ e. cc)

  last_close-LeavesOpen :
      s.garbage_after.file_msg_fd ≢ x → (type : MsgBodyType) → LeavesOpen x (last_close s type)
  last_close-LeavesOpen h file_type = (h, tt)
  last_close-LeavesOpen h _ = tt

  conclude-LeavesOpen :
      s.garbage_after.file_msg_fd ≢ x
      → (st : MsgStatus) → st ≢ handle_error
      → (c : Sender) → LeavesOpen x c.done
      → LeavesOpen x (conclude st s c).done
  unfolding conclude
  conclude-LeavesOpen h handle_complete ne c p =
      LeavesOpen-append x c.done _ p (last_close-LeavesOpen h s.garbage_after.body_type)
  conclude-LeavesOpen h handle_error ne c p = absurd (ne refl)
  conclude-LeavesOpen h _ ne c p = one c _ tt p

  abbrev Leaves : Result Sender → Type 0
  Leaves (ok c) = LeavesOpen x c.done
  Leaves (fault e) = Unit

  conclude_result-Leaves :
      s.garbage_after.file_msg_fd ≢ x
      → (m : Result Sender) → Keeps (Going x) m
      → Leaves (conclude_result s m)
  conclude_result-Leaves h (ok c) p = conclude-LeavesOpen h c.resp.status p.1 c p.0
  conclude_result-Leaves h (fault e) p = tt

  flow-Leaves :
      s.garbage_after.file_msg_fd ≢ x
      → (ns : List ℕ) (stop : SendStop) (f : Flow) → FlowGoing x f
      → Leaves (after_prepare s ns stop f)
  flow-Leaves h ns stop (next c) p = conclude_result-Leaves h (send_loop s ns stop c) (
      send_loop_inv (Going x) s stop sent_head-Going sent_body-Going nothing-Going
        (stopped-Going stop) ns c p)
  flow-Leaves h ns stop (return c) p = p
  flow-Leaves h ns stop (crash e) p = tt

  -- A response closes no descriptor but the one that the new entry made at its end happens to hold:
  -- not the file that it has opened, even when all of it is sent, and not the client's socket, even
  -- when sending fails with an error. `x` is any other descriptor, and the response is not in
  -- HANDLE_ERROR when the handler begins.
  pub send_response-LeavesOpen :
      (ns : List ℕ) (stop : SendStop) (c c' : Sender)
      → s.garbage_after.file_msg_fd ≢ x
      → c.resp.status ≢ handle_error
      → LeavesOpen x c.done
      → send_response s ns stop c ≡ ok c'
      → LeavesOpen x c'.done
  unfolding send_response prepare
  send_response-LeavesOpen ns stop c c' h ne p e = rw e at (
      flow-Leaves h ns stop (prepare_at c.resp.status s c)
        (prepare_at-Going c.resp.status c (p, ne)))
