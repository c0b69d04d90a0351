-- ===== src/System/SentFiles.antt =====
-- Sending a response changes no file.
use cherokee.Base.{ℕ, List, [], Option, some, ◌≡◌, refl, sym, subst, ap, ◌∙◌}
use cherokee.Fault.{Result, ok, fault}
use cherokee.Message.{
  MsgStatus, handle_complete, handle_error, MsgBodyType, file_type, html_type, empty_type, Request,
  Response,
}
use cherokee.Send
use cherokee.Send.{
  SendStop, again, broken, stopped, sent_head, sent_body, sent_nothing, send_loop, conclude,
  last_close, send_response, after_prepare, conclude_result, process_at,
}
use cherokee.Send.Build
use cherokee.Send.Build.{Sender, next, prepare, empty_response, put_file, dispatch, dispatch_result}
use cherokee.Send.Closing.{Keeps, send_loop_inv}
use cherokee.System.Files.{Files, apply_all, apply_all-append}
use cherokee.Text.{Bytes}
use cherokee.World.{Effect, Tables}

-- Once a response has been prepared, sending it changes no file.
module _ (files after : Files) (s : Build.Setting) where
  abbrev LeavesFiles : Sender → Type 0
  LeavesFiles c = apply_all files c.done ≡ after

  heads : (n : ℕ) (c : Sender) → LeavesFiles c → LeavesFiles (sent_head n c)
  unfolding sent_head
  heads n c h = apply_all-append files c.done _ ∙ h

  bodies : (b : Bytes) (n : ℕ) (c : Sender) → LeavesFiles c → LeavesFiles (sent_body b n c)
  unfolding sent_body
  bodies b n c h = apply_all-append files c.done _ ∙ h

  stops : (stop : SendStop) (c : Sender) → LeavesFiles c → LeavesFiles (stopped stop c)
  unfolding stopped
  stops again c h = h
  stops broken c h = h

  closes : (type : MsgBodyType) (fs : Files) → apply_all fs (last_close s type) ≡ fs
  closes file_type fs = refl
  closes html_type fs = refl
  closes empty_type fs = refl

  concludes : (st : MsgStatus) (c : Sender) → LeavesFiles c → LeavesFiles (conclude st s c)
  unfolding conclude
  concludes handle_complete c h =
      apply_all-append files c.done _
      ∙ closes s.garbage_after.body_type (apply_all files c.done)
      ∙ h
  concludes handle_error c h =
      apply_all-append files c.done _
      ∙ closes s.garbage_after.body_type (apply_all files c.done)
      ∙ h
  concludes _ c h = apply_all-append files c.done _ ∙ h

  abbrev pub Leaves : Result (Tables × List Effect) → Type 0
  Leaves (ok (t, done)) = apply_all files done ≡ after
  Leaves (fault e) = Unit

  concluded :
      (t : Tables) (m : Result Sender)
      → Keeps LeavesFiles m
      → Leaves (Send.store s t (conclude_result s m))
  concluded t (ok c) h = concludes c.resp.status c h
  concluded t (fault e) h = tt

  pub sent-Leaves :
      (t : Tables) (ns : List ℕ) (stop : SendStop) (p : Response) (q : Option Request) (c1 : Sender)
      → t.responses s.client_fd ≡ some p
      → t.requests s.client_fd ≡ q
      → prepare s (record { req = q; resp = p; done = [] }) ≡ next c1
      → LeavesFiles c1
      → Leaves (Send.process s t ns stop)
  unfolding Send.process send_response
  sent-Leaves t ns stop p q c1 there is_q e h =
      subst Leaves
        (sym (
          ap (process_at s t ns stop) there
          ∙ ap
              (λ q.
                Send.store s t (send_response s ns stop (record { req = q; resp = p; done = [] })))
              is_q
          ∙ ap (λ f. Send.store s t (after_prepare s ns stop f)) e))
        (concluded t (send_loop s ns stop c1)
          (send_loop_inv LeavesFiles s stop heads bodies (λ c k. k) (stops stop) ns c1 h))
