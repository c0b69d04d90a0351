-- ===== src/Tests/SendWitnesses.antt =====
-- The theorems on sending, at concrete inputs.
use cherokee.Base.{true, [], ◌∷◌, ◌++◌, none, some, ◌≡◌, refl, inl, arith}
use cherokee.Base.Int.{pos}
use cherokee.Fault.{ok}
use cherokee.Message.{handle_head, handle_body, html_type, file_type, new_response}
use cherokee.Send.{again, broken, send_response, send_loop, round_of, sent_body}
use cherokee.Send.Build.{Setting, Sender, prepare}
use cherokee.Send.Closing.{LeavesOpen, send_response-LeavesOpen}
use cherokee.Send.Page.{label, file_list_page}
use cherokee.Send.PageLaws.{file_list_page-label, list_page}
use cherokee.Send.Pieces.{IsSending, wire}
use cherokee.Send.Stuck.{HasMore, zeros, nothings, send_loop-stuck}
use cherokee.Send.Resume.{and_resume, send_loop-append}
use cherokee.Send.Transmit.{EndsSending, send_loop-IsSending}
use cherokee.Tests.Data.{no_garbage}
use cherokee.Text.{codes}
use cherokee.Utils.{modify_events}
use cherokee.World.{sent, modify_wait}

abbrev pub to_seven : Setting
to_seven = record {
  client_fd = 7;
  open_fd = λ path. pos 9;
  file_size = λ fd. 3;
  file_bytes = λ fd. codes "abc";
  can_write = λ path. true;
  can_remove = λ path. true;
  names = some (codes "." ∷ codes "a.txt" ∷ []);
  template = codes "<table>" ∷ label ∷ codes "</table>" ∷ [];
  garbage = no_garbage;
  garbage_after = no_garbage;
}

-- Two bytes of the header have gone.
abbrev pub half_sent : Sender
half_sent = record {
  req = none;
  resp = record (new_response no_garbage) {
    status = handle_head;
    before_body_msg = codes "HEAD";
    before_body_msg_len = 4;
    msg_body = codes "body";
    msg_body_len = 4;
    body_type = html_type;
    cur_status_has_send_len = 2;
  };
  done = [];
}

pub half_sent-IsSending :
    IsSending to_seven []
      (codes "HE" ++ codes "AD")
      (codes "body")
      (record half_sent { done = sent (codes "HE") ∷ [] })
half_sent-IsSending = record {
  head_is = refl;
  head_len = refl;
  body_is = (refl, refl);
  so_far = (omega arith, refl);
}

send_loop-IsSending_example :
    EndsSending to_seven []
      (codes "HEAD")
      (codes "body")
      (1 ∷ 1 ∷ 3 ∷ [])
      broken
      (record half_sent { done = sent (codes "HE") ∷ [] })
send_loop-IsSending_example =
    send_loop-IsSending to_seven [] (codes "HEAD") (codes "body") broken (omega arith) (omega arith)
      (1 ∷ 1 ∷ 3 ∷ []) (record half_sent { done = sent (codes "HE") ∷ [] }) (omega arith) (inl refl)
      half_sent-IsSending

file_list_page-label_example :
    file_list_page []
      (some (codes "." ∷ codes "a.txt" ∷ []))
      (codes "<table>" ∷ label ∷ codes "</table>" ∷ [])
    ≡ ok (
        []
        ++ list_page
            (codes "." ∷ codes "a.txt" ∷ [])
            (codes "<table>" ∷ [])
            (codes "</table>" ∷ []))
file_list_page-label_example =
    file_list_page-label [] (codes "." ∷ codes "a.txt" ∷ []) (codes "<table>" ∷ [])
      (codes "</table>" ∷ []) (λ e. cc, tt)

-- The whole file, of descriptor 9, is still to be sent.
abbrev file_open : Sender
file_open = record {
  req = none;
  resp = record (new_response no_garbage) {
    status = handle_body;
    msg_body_len = 3;
    body_type = file_type;
    file_msg_fd = pos 9;
  };
  done = [];
}

abbrev file_sent : Sender
file_sent = record {
  req = none;
  resp = new_response no_garbage;
  done = sent (codes "abc") ∷ modify_wait 7 3221225473 ∷ [];
}

run_file : send_response to_seven (3 ∷ []) again file_open ≡ ok file_sent
unfolding send_response prepare send_loop round_of sent_body modify_events
run_file = refl

send_response-LeavesOpen_example : LeavesOpen (pos 9) file_sent.done
send_response-LeavesOpen_example =
    send_response-LeavesOpen (pos 9) to_seven (3 ∷ []) again file_open file_sent (λ e. cc) (λ e. cc)
      tt run_file

send_loop-append_example :
    send_loop to_seven ((1 ∷ 1 ∷ []) ++ (3 ∷ [])) broken half_sent
    ≡ and_resume to_seven (3 ∷ []) broken (send_loop to_seven (1 ∷ 1 ∷ []) again half_sent)
send_loop-append_example =
    send_loop-append to_seven (3 ∷ []) broken (1 ∷ 1 ∷ []) half_sent (inl refl)

file_open-HasMore : HasMore to_seven (codes "abc") file_open
file_open-HasMore = record {
  in_body = refl;
  body_is = refl;
  left = omega arith;
  size = omega arith;
}

send_loop-stuck_example :
    (send_loop to_seven (zeros 5 ++ (3 ∷ [])) again file_open
      ≡ send_loop to_seven
          (3 ∷ [])
          again
          (record file_open { done = file_open.done ++ nothings 5 }))
    × (wire (nothings 5) ≡ [])
send_loop-stuck_example =
    send_loop-stuck to_seven (codes "abc") again 5 (3 ∷ []) file_open file_open-HasMore
