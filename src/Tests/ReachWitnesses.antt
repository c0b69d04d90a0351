-- ===== src/Tests/ReachWitnesses.antt =====
-- The theorems on the entries of the two maps, at concrete inputs.
use cherokee.Base.{true, false, ap, List, [], ◌∷◌, some, none, ◌≡◌, ◌≢◌, refl}
use cherokee.Base.Int.{pos}
use cherokee.Fault.{ok, fault, hangs}
use cherokee.Message.{
  handle_body, handle_complete, file_content, Response, new_request, new_response,
}
use cherokee.Message.Header.{substr}
use cherokee.Recv
use cherokee.Recv.{Conn, would_block, answer, settle, store}
use cherokee.Recv.Valid.{IsKept}
use cherokee.Send
use cherokee.Send.{again, send_response, send_loop, round_of, sent_head, conclude}
use cherokee.Send.Build.{Sender, file_response, prepare, dispatch, send_file}
use cherokee.Send.Bounds.{InBounds}
use cherokee.Send.Decimal.{to_string, digits_onto}
use cherokee.Send.Page.{status_line, message_header, type_line, option_line}
use cherokee.Send.Resting.{HasLabel}
use cherokee.Send.Routing.{route, until_slash}
use cherokee.System.{Call, recv_call, send_call, run, Reach, begin, then_call, no_entries}
use cherokee.System.Calm.{IsCalm, Reach-ArmsLast}
use cherokee.World.Arming.{ArmsLast, EndsTurn}
use cherokee.System.Invariant.{Reach-IsKept, Reach-InBounds, process-ne-hangs}
use cherokee.Tests.Data.{run_recv, no_garbage, fresh, on_seven, upload_head}
use cherokee.Tests.SendWitnesses.{to_seven}
use cherokee.Text.{codes, equal}
use cherokee.Utils.{modify_events}
use cherokee.World.{set_at, Tables, Effect, sent, append_file, modify_wait, open_file}

-- An upload whose header and boundary line have come.
abbrev begun : Conn
begun = record fresh {
  req = record new_request {
    status = handle_body;
    request_method = codes "POST";
    request_resource = codes "/upload";
    http_version = codes "HTTP/1.1";
    msg_header =
        (codes "Content-Type", codes "multipart/form-data") ∷ (codes "boundary", codes "XY") ∷ [];
    recv_file_name = codes "ab.txt";
    file_msg_status = file_content;
  };
  done =
      append_file (codes "filedir/ab.txt") [] ∷ modify_wait 7 (modify_events true true false) ∷ [];
}

abbrev after_upload : Tables × List Effect
after_upload = store on_seven no_entries begun (settle on_seven handle_body begun)

upload_reached : Reach after_upload.0
unfolding Recv.process run_recv
upload_reached =
    then_call (recv_call on_seven (upload_head ∷ []) would_block) after_upload.1 begin refl

Reach-IsKept_example : IsKept begun.req
Reach-IsKept_example = Reach-IsKept 7 begun.req upload_reached refl

-- A request for a file, and then its answer, of whose header a byte has gone.
abbrev asked : Conn
asked = answer on_seven (codes "/downl/a") handle_complete (record fresh {
  req = record new_request {
    status = handle_body;
    request_method = codes "GET";
    request_resource = codes "/downl/a";
    http_version = codes "HTTP/1.1";
  };
})

abbrev pub after_request : Tables × List Effect
after_request = store on_seven no_entries asked (settle on_seven handle_complete asked)

abbrev pub request_call : Call
request_call = recv_call on_seven (codes "GET /downl/a HTTP/1.1\r\n\r\n" ∷ []) would_block

pub request_run : run request_call no_entries ≡ ok after_request
unfolding Recv.process run_recv
request_run = refl

abbrev opened : Response
opened =
    file_response (pos 9) 3 (record (new_response no_garbage) { body_file_name = codes "/downl/a" })

abbrev pub begun_answer : Sender
begun_answer = record {
  req = none;
  resp = record opened { cur_status_has_send_len = 1 };
  done =
      open_file (codes "filedir/a")
      ∷ sent (codes "H")
      ∷ modify_wait 7 (modify_events true true true)
      ∷ [];
}

answer_run :
    send_response to_seven (1 ∷ []) again (record {
      req = none;
      resp = record (new_response no_garbage) { body_file_name = codes "/downl/a" };
      done = [];
    })
    ≡ ok begun_answer
unfolding send_response prepare send_loop round_of sent_head dispatch send_file route until_slash
    status_line message_header type_line option_line to_string digits_onto equal modify_events
    substr
answer_run = refl

abbrev pub after_answer : Tables
after_answer = record {
  requests = set_at after_request.0.requests 7 none;
  responses = set_at after_request.0.responses 7 (some begun_answer.resp);
}

answer_reached : Reach after_answer
unfolding Send.process
answer_reached =
    then_call (send_call to_seven (1 ∷ []) again) begun_answer.done
      (then_call request_call after_request.1 begin request_run)
      (ap (Send.store to_seven after_request.0) answer_run)

Reach-InBounds_example : InBounds begun_answer.resp
Reach-InBounds_example = Reach-InBounds 7 begun_answer.resp answer_reached refl

to_seven-HasLabel : HasLabel to_seven
to_seven-HasLabel = (codes "<table>" ∷ [], codes "</table>" ∷ [], refl, (λ e. cc, tt))

process-ne-hangs_example : Send.process to_seven after_answer (5 ∷ 80 ∷ []) again ≢ fault hangs
process-ne-hangs_example =
    process-ne-hangs to_seven (5 ∷ 80 ∷ []) again answer_reached to_seven-HasLabel

-- The answer begins after the request.
abbrev pub answer_call : Call
answer_call = send_call to_seven (1 ∷ []) again

answer_run_at : run answer_call after_request.0 ≡ ok (after_answer, begun_answer.done)
unfolding Send.process
answer_run_at = ap (Send.store to_seven after_request.0) answer_run

request_reached : Reach after_request.0
request_reached = then_call request_call after_request.1 begin request_run

request_reached-IsCalm : IsCalm request_reached
unfolding request_reached
request_reached-IsCalm = (tt, tt)

Reach-ArmsLast_example : ArmsLast 7 begun_answer.done × EndsTurn begun_answer.done
Reach-ArmsLast_example =
    Reach-ArmsLast answer_call begun_answer.done request_reached request_reached-IsCalm
      (refl, λ e. cc) (_, refl) answer_run_at
