-- ===== src/Send/Arming.antt =====
-- `HandleSend::process` changes the registration of its descriptor last, where sending does not break.
use cherokee.Base.{
  ℕ, Bool, true, false, List, [], ◌∷◌, ◌++◌, Option, none, some, ◌≡◌, ◌≢◌, refl, sym, arith, subst,
  if◌then◌else◌,
}
use cherokee.Fault.{Result, ok, fault}
use cherokee.Message.{
  MsgStatus, handle_init, handle_complete, handle_error, MsgBodyType, file_type, Request, Response,
}
use cherokee.Recv.Arming.{IsSound, EffectsArmLast, EffectsEndTurn}
use cherokee.Recv.{req_of}
use cherokee.Send.{
  again, stopped, sent_head, sent_body, sent_nothing, send_loop, conclude, last_close,
  send_response, conclude_result, after_prepare, store, process, process_at,
}
use cherokee.Send.Build.{
  Setting, Sender, Flow, next, return, crash, dispatch, send_page, send_file, delete_file, put_file,
  send_redirect, prepare, prepare_at, page_flow, is_minus_one, dispatch_result,
}
use cherokee.Recv.Kept.{RestsIn}
use cherokee.Send.Bounds.{InBoundsAt, InBounds}
use cherokee.Send.Closing.{Keeps, send_loop_inv}
use cherokee.Send.Routing.{Route, route}
use cherokee.Text.{Bytes, equal, codes}
use cherokee.World.{Effect, modify_wait, open_file, remove_file, Tables}
use cherokee.World.Arming.{
  IsQuiet, AllQuiet, AllQuiet-append, ArmsLast, quiet-ArmsLast, modifies, EndsTurn, EndsTurn-append,
}

-- The entry of the request, if there is one, has not been marked as failed.
abbrev pub SoundIn : Option Request → Type 0
SoundIn none = Unit
SoundIn (some r) = IsSound r

pub req_of-IsSound : (o : Option Request) → SoundIn o → IsSound (req_of o)
req_of-IsSound none h = λ e. cc
req_of-IsSound (some r) h = h

-- A response that has not failed, with nothing done yet to the registration.
abbrev Calm : Sender → Type 0
Calm c = AllQuiet c.done × (c.resp.status ≢ handle_error) × SoundIn c.req

abbrev Ended : ℕ → Sender → Type 0
Ended fd c = ArmsLast fd c.done × SoundIn c.req × EndsTurn c.done

in_bounds : (p : Response) → InBounds p → p.status ≢ handle_error
in_bounds p h e = absurd (subst (λ st. InBoundsAt st p) e h)

module _ (s : Setting) where
  abbrev FlowArms : Flow → Type 0
  FlowArms (next c) = Calm c
  FlowArms (return c) = Ended s.client_fd c
  FlowArms (crash e) = Unit

  branch : (b : Bool) (m n : Flow) → FlowArms m → FlowArms n → FlowArms (if b then m else n)
  branch true m n p q = p
  branch false m n p q = q

  one : (c : Sender) (e : Effect) → IsQuiet e → AllQuiet c.done → AllQuiet (c.done ++ e ∷ [])
  one c e q p = AllQuiet-append c.done (e ∷ []) p (q, tt)

  arms :
      (c : Sender) (events : ℕ)
      → AllQuiet c.done
      → ArmsLast s.client_fd (c.done ++ modify_wait s.client_fd events ∷ [])
  arms c events p = quiet-ArmsLast s.client_fd c.done _ p (modifies s.client_fd events)

  ends : (c : Sender) (events : ℕ) → EndsTurn (c.done ++ modify_wait s.client_fd events ∷ [])
  ends c events = EndsTurn-append c.done _ tt

  page_flow-Arms : (c : Sender) (m : Result Bytes) → Calm c → FlowArms (page_flow c m)
  page_flow-Arms c (ok page) p = (p.0, (λ e. cc), p.2)
  page_flow-Arms c (fault e) p = tt

  send_file-Arms : (f : Bytes) (c : Sender) → Calm c → FlowArms (send_file s f c)
  unfolding send_file
  send_file-Arms f c p =
      let opened = record c { done = c.done ++ open_file (codes "filedir/" ++ f) ∷ [] } in
      let q = one c (open_file (codes "filedir/" ++ f)) tt p.0 in
      branch (is_minus_one (s.open_fd (codes "filedir/" ++ f))) _ _
        (arms opened _ q, p.2, ends opened _) (q, (λ e. cc), p.2)

  removal-AllQuiet : (path : Bytes) (b : Bool) → AllQuiet (if b then remove_file path ∷ [] else [])
  removal-AllQuiet path true = (tt, tt)
  removal-AllQuiet path false = tt

  delete_file-Arms : (f : Bytes) (c : Sender) → Calm c → FlowArms (delete_file s f c)
  unfolding delete_file
  delete_file-Arms f c p =
      let path = codes "filedir/" ++ f in
      let gone = if s.can_remove path then remove_file path ∷ [] else [] in
      let removed = record c { done = c.done ++ gone } in
      let quiet = AllQuiet-append c.done gone p.0 (removal-AllQuiet path (s.can_remove path)) in
      (arms removed _ quiet, p.2, ends removed _)

  put_file-Arms : (f : Bytes) (c : Sender) → Calm c → FlowArms (put_file s f c)
  unfolding put_file
  put_file-Arms f c p =
      branch (s.can_write (codes "filedir/" ++ f)) _ _
        (one c _ tt p.0, (λ e. cc), req_of-IsSound c.req p.2) (arms c _ p.0, p.2, ends c _)

  dispatch-Arms : (t : Route) (c : Sender) → Calm c → FlowArms (dispatch s t c)
  unfolding dispatch send_page send_redirect
  dispatch-Arms t c p = branch (equal t.opera (codes "/")) _ _ (page_flow-Arms c _ p) (
      branch (equal t.opera (codes "downl")) _ _ (send_file-Arms t.filename c p) (
        branch (equal t.opera (codes "del")) _ _ (delete_file-Arms t.filename c p) (
          branch (equal t.opera (codes "put")) _ _ (put_file-Arms t.filename c p)
            (p.0, (λ e. cc), p.2))))

  route-Arms : (c : Sender) (m : Result Route) → Calm c → FlowArms (dispatch_result s c m)
  route-Arms c (ok t) p = dispatch-Arms t c p
  route-Arms c (fault e) p = tt

  prepare_at-Arms : (st : MsgStatus) (c : Sender) → Calm c → FlowArms (prepare_at st s c)
  unfolding prepare_at
  prepare_at-Arms handle_init c p = route-Arms c (route c.resp.body_file_name) p
  prepare_at-Arms _ c p = p

  sent_head-Calm : (n : ℕ) (c : Sender) → Calm c → Calm (sent_head n c)
  unfolding sent_head
  sent_head-Calm n c p = (one c _ tt p.0, ground arith, p.2)

  sent_body-Calm : (b : Bytes) (n : ℕ) (c : Sender) → Calm c → Calm (sent_body b n c)
  unfolding sent_body
  sent_body-Calm b n c p = (one c _ tt p.0, ground arith, p.2)

  stopped-Calm : (c : Sender) → Calm c → Calm (stopped again c)
  unfolding stopped
  stopped-Calm c p = p

  nothing-Calm : (c : Sender) → Calm c → Calm (sent_nothing c)
  nothing-Calm c p = (p.0, (λ e. cc), p.2)

  -- No file is closed at the end: the new entry does not happen to be of the type of a file.
  module _ (no_file : s.garbage_after.body_type ≢ file_type) where
    renewed :
        (c : Sender) (events : ℕ) (type : MsgBodyType)
        → type ≢ file_type
        → AllQuiet c.done
        → let es = c.done ++ (modify_wait s.client_fd events ∷ last_close s type) in
          ArmsLast s.client_fd es × EndsTurn es
    renewed c events file_type ne p = absurd (ne refl)
    renewed c events _ ne p = (arms c events p, ends c events)

    conclude-Ended :
        (st : MsgStatus) (c : Sender)
        → st ≢ handle_error
        → Calm c
        → Ended s.client_fd (conclude st s c)
    unfolding conclude
    conclude-Ended handle_complete c ne p =
        let (last, over) = renewed c _ s.garbage_after.body_type no_file p.0 in (last, p.2, over)
    conclude-Ended handle_error c ne p = absurd (ne refl)
    conclude-Ended _ c ne p = (arms c _ p.0, p.2, ends c _)

    abbrev pub EndedOk : Result Sender → Type 0
    EndedOk (ok c) = Ended s.client_fd c
    EndedOk (fault e) = Unit

    concluded : (m : Result Sender) → Keeps Calm m → EndedOk (conclude_result s m)
    concluded (ok c) p = conclude-Ended c.resp.status c p.1 p
    concluded (fault e) p = tt

    flow-Ended : (ns : List ℕ) (f : Flow) → FlowArms f → EndedOk (after_prepare s ns again f)
    flow-Ended ns (next c) p =
        concluded (send_loop s ns again c) (
          send_loop_inv Calm s again sent_head-Calm sent_body-Calm nothing-Calm stopped-Calm ns c p)
    flow-Ended ns (return c) p = p
    flow-Ended ns (crash e) p = tt

    send_response-Ended : (ns : List ℕ) (c : Sender) → Calm c → EndedOk (send_response s ns again c)
    unfolding send_response prepare
    send_response-Ended ns c p =
        flow-Ended ns (prepare_at c.resp.status s c) (prepare_at-Arms c.resp.status c p)

    pub send_response-EndedOk :
        (t : Tables) (ns : List ℕ) (p : Response)
        → InBounds p
        → SoundIn (t.requests s.client_fd)
        → EndedOk (
            send_response s ns again (record { req = t.requests s.client_fd; resp = p; done = [] }))
    send_response-EndedOk t ns p rests sound =
        send_response-Ended ns _ (tt, in_bounds p rests, sound)

    store-ArmsLast :
        (t : Tables) (m : Result Sender) → EndedOk m → EffectsArmLast s.client_fd (store s t m)
    store-ArmsLast t (ok c) h = h.0
    store-ArmsLast t (fault e) h = tt

    answered-ArmsLast :
        (t : Tables) (ns : List ℕ) (o : Option Response)
        → RestsIn o
        → SoundIn (t.requests s.client_fd)
        → EffectsArmLast s.client_fd (process_at s t ns again o)
    answered-ArmsLast t ns none rests sound = tt
    answered-ArmsLast t ns (some p) rests sound =
        store-ArmsLast t _ (send_response-EndedOk t ns p rests sound)

    -- From entries at rest.
    pub written-ArmsLast :
        (t : Tables) (ns : List ℕ)
        → RestsIn (t.responses s.client_fd)
        → SoundIn (t.requests s.client_fd)
        → EffectsArmLast s.client_fd (process s t ns again)
    unfolding process
    written-ArmsLast t ns rests sound = answered-ArmsLast t ns (t.responses s.client_fd) rests sound

    store-EndsTurn : (t : Tables) (m : Result Sender) → EndedOk m → EffectsEndTurn (store s t m)
    store-EndsTurn t (ok c) h = h.2
    store-EndsTurn t (fault e) h = tt

    -- Where there is a response.
    pub written-EndsTurn :
        (t : Tables) (ns : List ℕ) (p : Response)
        → t.responses s.client_fd ≡ some p
        → RestsIn (t.responses s.client_fd)
        → SoundIn (t.requests s.client_fd)
        → EffectsEndTurn (process s t ns again)
    unfolding process
    written-EndsTurn t ns p e rests sound =
        subst (λ o. EffectsEndTurn (process_at s t ns again o)) (sym e)
          (store-EndsTurn t _ (send_response-EndedOk t ns p (subst RestsIn e rests) sound))
