-- ===== src/Send/Kept.antt =====
-- What `HandleSend::process` does to the entry of the request.
use cherokee.Base.{
  ℕ, Bool, true, false, List, [], ◌∷◌, ◌++◌, Option, none, some, ◌≡◌, refl, inl, inr, if◌then◌else◌,
  Bool-cases,
}
use cherokee.Fault.{Result, ok, fault}
use cherokee.Message.{
  MsgStatus, handle_init, handle_head, handle_body, handle_complete, handle_error, Request,
}
use cherokee.Recv.{req_of}
use cherokee.Recv.Kept.{failed-IsKept}
use cherokee.Recv.Valid.{IsKept}
use cherokee.Send.{
  SendStop, again, broken, stopped, Round, send_head, send_body, no_body, gives_up, spins, round_of,
  is_whole, send_loop, conclude, send_response, conclude_result, after_prepare, sent_head,
  sent_body,
}
use cherokee.Send.Build.{
  Setting, Sender, Flow, next, return, crash, dispatch, send_page, send_file, delete_file, put_file,
  send_redirect, prepare, prepare_at, page_flow, is_minus_one, dispatch_result,
}
use cherokee.Send.Page.{file_list_page}
use cherokee.Send.Routing.{Route, route}
use cherokee.Text.{Bytes, codes, equal}

-- The entry of a request, if there is one, is one that may be there.
abbrev pub KeptIn : Option Request → Type 0
KeptIn none = Unit
KeptIn (some r) = IsKept r

pub req_of-IsKept : (o : Option Request) → KeptIn o → IsKept (req_of o)
req_of-IsKept none h = refl
req_of-IsKept (some r) h = h

abbrev pub SenderKeeps : Result Sender → Type 0
SenderKeeps (ok c) = KeptIn c.req
SenderKeeps (fault e) = Unit

abbrev FlowKeeps : Flow → Type 0
FlowKeeps (next c) = KeptIn c.req
FlowKeeps (return c) = KeptIn c.req
FlowKeeps (crash e) = Unit

branch : (b : Bool) (m n : Flow) → FlowKeeps m → FlowKeeps n → FlowKeeps (if b then m else n)
branch true m n p q = p
branch false m n p q = q

stopped-Keeps : (stop : SendStop) (c : Sender) → KeptIn c.req → KeptIn (stopped stop c).req
unfolding stopped
stopped-Keeps again c h = h
stopped-Keeps broken c h = failed-IsKept (req_of c.req) (req_of-IsKept c.req h)

module _ (s : Setting) (stop : SendStop) where
  nil-Keeps :
      (c : Sender)
      → KeptIn c.req
      → (m : Round) → round_of s c.resp ≡ m
      → SenderKeeps (send_loop s [] stop c)
  unfolding send_loop
  nil-Keeps c h send_head e = rw (e, send_loop) (stopped-Keeps stop c h)
  nil-Keeps c h (send_body b) e = rw (e, send_loop) (stopped-Keeps stop c h)
  nil-Keeps c h no_body e = rw (e, send_loop) h
  nil-Keeps c h gives_up e = rw (e, send_loop) h
  nil-Keeps c h spins e = rw (e, send_loop) tt

  cons-Keeps :
      (n : ℕ) (ns : List ℕ) (c : Sender)
      → KeptIn c.req
      → ((c' : Sender) → KeptIn c'.req → SenderKeeps (send_loop s ns stop c'))
      → (m : Round) → round_of s c.resp ≡ m
      → SenderKeeps (send_loop s (n ∷ ns) stop c)
  unfolding send_loop sent_head sent_body
  cons-Keeps n ns c h ih send_head e = rw (e, send_loop) (ih (sent_head n c) h)
  cons-Keeps n ns c h ih (send_body b) e = elim (Bool-cases (is_whole n c.resp)) [
    | inl w ↦ rw (e, send_loop) (rw (w, send_loop) h)
    | inr w ↦ rw (e, send_loop) (rw (w, send_loop) (ih (sent_body b n c) h))
  ]
  cons-Keeps n ns c h ih no_body e = rw (e, send_loop) h
  cons-Keeps n ns c h ih gives_up e = rw (e, send_loop) h
  cons-Keeps n ns c h ih spins e = rw (e, send_loop) tt

  send_loop-Keeps : (ns : List ℕ) (c : Sender) → KeptIn c.req → SenderKeeps (send_loop s ns stop c)
  send_loop-Keeps [] c h = nil-Keeps c h _ refl
  send_loop-Keeps (n ∷ ns) c h = cons-Keeps n ns c h (send_loop-Keeps ns) _ refl

module _ (s : Setting) where
  page_flow-Keeps : (c : Sender) (m : Result Bytes) → KeptIn c.req → FlowKeeps (page_flow c m)
  page_flow-Keeps c (ok page) h = h
  page_flow-Keeps c (fault e) h = tt

  dispatch-Keeps : (t : Route) (c : Sender) → KeptIn c.req → FlowKeeps (dispatch s t c)
  unfolding dispatch send_page send_file send_redirect delete_file put_file
  dispatch-Keeps t c h =
      branch (equal t.opera (codes "/")) _ _
        (page_flow-Keeps c (file_list_page c.resp.msg_body s.names s.template) h)
        (branch (equal t.opera (codes "downl")) _ _
          (branch (is_minus_one (s.open_fd (codes "filedir/" ++ t.filename))) _ _ h h)
          (branch (equal t.opera (codes "del")) _ _ h (
            branch (equal t.opera (codes "put")) _ _
              (branch (s.can_write (codes "filedir/" ++ t.filename)) _ _ (req_of-IsKept c.req h) h)
              h)))

  prepare_at-Keeps : (st : MsgStatus) (c : Sender) → KeptIn c.req → FlowKeeps (prepare_at st s c)
  unfolding prepare_at
  prepare_at-Keeps handle_init c h = routed (route c.resp.body_file_name)
    where
      routed : (m : Result Route) → FlowKeeps (dispatch_result s c m)
      routed (ok t) = dispatch-Keeps t c h
      routed (fault e) = tt
  prepare_at-Keeps handle_head c h = h
  prepare_at-Keeps handle_body c h = h
  prepare_at-Keeps handle_complete c h = h
  prepare_at-Keeps handle_error c h = h

  conclude-Keeps : (st : MsgStatus) (c : Sender) → KeptIn c.req → KeptIn (conclude st s c).req
  unfolding conclude
  conclude-Keeps handle_init c h = h
  conclude-Keeps handle_head c h = h
  conclude-Keeps handle_body c h = h
  conclude-Keeps handle_complete c h = h
  conclude-Keeps handle_error c h = h

  concluded : (m : Result Sender) → SenderKeeps m → SenderKeeps (conclude_result s m)
  concluded (ok c) h = conclude-Keeps c.resp.status c h
  concluded (fault e) h = tt

  flow-Keeps :
      (ns : List ℕ) (stop : SendStop) (m : Flow)
      → FlowKeeps m
      → SenderKeeps (after_prepare s ns stop m)
  flow-Keeps ns stop (next c) h = concluded _ (send_loop-Keeps s stop ns c h)
  flow-Keeps ns stop (return c) h = h
  flow-Keeps ns stop (crash e) h = tt

  pub send_response-Keeps :
      (ns : List ℕ) (stop : SendStop) (c : Sender)
      → KeptIn c.req
      → SenderKeeps (send_response s ns stop c)
  unfolding send_response prepare
  send_response-Keeps ns stop c h =
      flow-Keeps ns stop (prepare_at c.resp.status s c) (prepare_at-Keeps c.resp.status c h)
