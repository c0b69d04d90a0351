-- ===== src/Send/Resting.antt =====
-- What a call of `HandleSend::process` leaves of a response, and that it does not spin.
use cherokee.Base.{
  ℕ, Bool, true, false, List, ◌∷◌, ◌++◌, Option, none, some, ◌≡◌, refl, sym, subst, ap, ◌∙◌, arith,
  inl, inr, if◌then◌else◌,
}
use cherokee.Fault.{Fault, hangs, Result, ok, fault}
use cherokee.Message.{
  MsgStatus, handle_init, handle_head, handle_body, handle_complete, handle_error,
}
use cherokee.Message.Header.{substr}
use cherokee.Send.{SendStop, conclude, send_response, after_prepare}
use cherokee.Send.Build.{
  Setting, Sender, Flow, next, return, crash, dispatch, send_page, send_file, delete_file, put_file,
  send_redirect, prepare, prepare_at, page_flow, is_minus_one, dispatch_result,
}
use cherokee.Send.Bounds.{InBoundsAt, InBounds, SendsAt, send_loop-Returns}
use cherokee.Send.Page.{label, file_list_page}
use cherokee.Send.PageLaws.{NoLabel, file_list_page-label}
use cherokee.Send.Routing.{Route, route}
use cherokee.Send.Transmit.{IsUnderWay}
use cherokee.Text.{Bytes, codes, equal}

-- The template has the line that the list replaces.
abbrev pub HasLabel : Setting → Type 0
HasLabel s =
    (before : List Bytes) × (after : List Bytes) × (s.template ≡ before ++ (label ∷ after))
    × NoLabel before

abbrev pub Ends : Fault → Type 0
Ends hangs = ⊥
Ends e = Unit

-- A fault, if there is one, is among those that `E` allows.
abbrev EndsOk {ℓ} : {A : Type ℓ} → (Fault → Type 0) → Result A → Type 0
EndsOk E (ok a) = Unit
EndsOk E (fault e) = E e

abbrev FlowRests : (Fault → Type 0) → Flow → Type 0
FlowRests E (next c) = IsUnderWay c × SendsAt c.resp.status c.resp
FlowRests E (return c) = InBounds c.resp
FlowRests E (crash e) = E e

-- After a call: the response that is left is in bounds, or the fault is allowed.
abbrev pub Rests : (Fault → Type 0) → Result Sender → Type 0
Rests E (ok c) = InBounds c.resp
Rests E (fault e) = E e

module _ (s : Setting) (E : Fault → Type 0) (routes : (path : Bytes) → EndsOk E (route path))
    (pages : (html : Bytes) → EndsOk E (file_list_page html s.names s.template)) where
  branch :
      (b : Bool) (m n : Flow) → FlowRests E m → FlowRests E n → FlowRests E (if b then m else n)
  branch true m n p q = p
  branch false m n p q = q

  page_flow-Rests : (c : Sender) (m : Result Bytes) → EndsOk E m → FlowRests E (page_flow c m)
  page_flow-Rests c (ok page) h = (inl refl, (refl, omega arith, λ e. refl))
  page_flow-Rests c (fault e) h = h

  send_file-Rests : (f : Bytes) (c : Sender) → FlowRests E (send_file s f c)
  unfolding send_file
  send_file-Rests f c =
      branch (is_minus_one (s.open_fd (codes "filedir/" ++ f))) _ _ tt
        (inl refl, (refl, omega arith, λ e. cc))

  put_file-Rests : (f : Bytes) (c : Sender) → FlowRests E (put_file s f c)
  unfolding put_file
  put_file-Rests f c =
      branch (s.can_write (codes "filedir/" ++ f)) _ _ (inl refl, (refl, omega arith, λ e. cc)) tt

  dispatch-Rests : (t : Route) (c : Sender) → FlowRests E (dispatch s t c)
  unfolding dispatch send_page send_redirect delete_file
  dispatch-Rests t c =
      branch (equal t.opera (codes "/")) _ _ (page_flow-Rests c _ (pages c.resp.msg_body)) (
        branch (equal t.opera (codes "downl")) _ _ (send_file-Rests t.filename c) (
          branch (equal t.opera (codes "del")) _ _ tt (
            branch (equal t.opera (codes "put")) _ _ (put_file-Rests t.filename c)
              (inl refl, (refl, omega arith, λ e. cc)))))

  dispatch_result-Rests :
      (c : Sender) (m : Result Route) → EndsOk E m → FlowRests E (dispatch_result s c m)
  dispatch_result-Rests c (ok t) h = dispatch-Rests t c
  dispatch_result-Rests c (fault e) h = h

  prepare_at-Rests :
      (st : MsgStatus) (c : Sender)
      → c.resp.status ≡ st
      → InBoundsAt st c.resp
      → FlowRests E (prepare_at st s c)
  unfolding prepare_at
  prepare_at-Rests handle_init c e v =
      dispatch_result-Rests c (route c.resp.body_file_name) (routes c.resp.body_file_name)
  prepare_at-Rests handle_head c e v = (inl e, rw e v)
  prepare_at-Rests handle_body c e v = (inr e, rw e v)
  prepare_at-Rests handle_complete c e v = absurd v
  prepare_at-Rests handle_error c e v = absurd v

  conclude-Rests :
      (st : MsgStatus) (c : Sender)
      → c.resp.status ≡ st
      → SendsAt st c.resp
      → InBounds (conclude st s c).resp
  unfolding conclude
  conclude-Rests handle_complete c e v = tt
  conclude-Rests handle_head c e v = rw e v
  conclude-Rests handle_body c e v = rw e v
  conclude-Rests handle_init c e v = absurd v
  conclude-Rests handle_error c e v = absurd v

  flow-Rests :
      (ns : List ℕ) (stop : SendStop) (m : Flow)
      → FlowRests E m
      → Rests E (after_prepare s ns stop m)
  flow-Rests ns stop (next c) (going, v) =
      let (c', run, v') = send_loop-Returns s stop ns c going v in
      rw run (conclude-Rests c'.resp.status c' refl v')
  flow-Rests ns stop (return c) v = v
  flow-Rests ns stop (crash e) v = v

  pub response-Rests :
      (ns : List ℕ) (stop : SendStop) (c : Sender)
      → InBounds c.resp
      → Rests E (send_response s ns stop c)
  unfolding send_response prepare
  response-Rests ns stop c v =
      flow-Rests ns stop (prepare_at c.resp.status s c) (prepare_at-Rests c.resp.status c refl v)

anything {ℓ} : {A : Type ℓ} (m : Result A) → EndsOk (λ e. Unit) m
anything (ok a) = tt
anything (fault e) = tt

-- Whatever the template is.
pub send_response-RestsOrFaults :
    (s : Setting) (ns : List ℕ) (stop : SendStop) (c : Sender)
    → InBounds c.resp
    → Rests (λ e. Unit) (send_response s ns stop c)
send_response-RestsOrFaults s ns stop c v =
    response-Rests s (λ e. Unit) (λ path. anything (route path))
      (λ html. anything (file_list_page html _ _)) ns stop c v

route-Ends : (path : Bytes) → EndsOk Ends (route path)
unfolding route substr
route-Ends path = ground arith

page-Ends :
    (s : Setting)
    → HasLabel s
    → (html : Bytes) (o : Option (List Bytes)) → EndsOk Ends (file_list_page html o s.template)
unfolding file_list_page
page-Ends s labelled html none = tt
page-Ends s labelled html (some names) =
    let (before, after, made, h) = labelled in
    subst (EndsOk Ends)
      (sym (
        ap (file_list_page html (some names)) made
        ∙ file_list_page-label html names before after h))
      tt

-- With the label in the template, no loop is endless.
pub send_response-Rests :
    (s : Setting) (ns : List ℕ) (stop : SendStop) (c : Sender)
    → HasLabel s
    → InBounds c.resp
    → Rests Ends (send_response s ns stop c)
send_response-Rests s ns stop c labelled v =
    response-Rests s Ends route-Ends (λ html. page-Ends s labelled html s.names) ns stop c v
