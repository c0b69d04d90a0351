-- ===== src/System/Put.antt =====
-- A PUT request and its answer: the file gets the bytes that have come with the header.
use cherokee.Base.{
  ℕ, ◌+◌, ◌<◌, ◌^◌, Bool, true, List, [], ◌∷◌, ◌++◌, some, ◌≡◌, ◌≢◌, refl, sym, subst, ap, ◌∙◌,
  length, append-nil, arith,
}
use cherokee.Fault.{ok}
use cherokee.Message.{handle_body, Garbage, Request, Response}
use cherokee.Recv
use cherokee.Recv.{RecvEnd, req_of, resp_of, conn_of, finish, store}
use cherokee.Recv.Parse.{parse}
use cherokee.Recv.PutRequest.{recv_loop-AnswersPut}
use cherokee.Send
use cherokee.Send.{
  SendStop, again, broken, stopped, sent_head, sent_body, sent_nothing, send_loop, conclude,
  last_close, send_response, after_prepare, conclude_result, process_at,
}
use cherokee.Send.Build
use cherokee.Send.Build.{Sender, next, prepare, empty_response, put_file, dispatch, dispatch_result}
use cherokee.Send.Deliver.{Delivers, Delivers-prepared, AreEnough, prepare-route, ForPath}
use cherokee.Send.Page.{status_line, message_header, type_line, option_line}
use cherokee.Send.Pieces.{wire, wire-append, IsSending}
use cherokee.Send.RoutingLaws.{path_of, route-path_of}
use cherokee.System.Exchange.{IsIdle, reading, at_self, sent_at, rearmed}
use cherokee.System.Files.{Files, put_at, apply_all}
use cherokee.System.SentFiles.{Leaves, sent-Leaves}
use cherokee.Text.{Bytes, codes, crlf, equal}
use cherokee.World.Arming.{AllQuiet, AllQuiet-append}
use cherokee.World.{Effect, Tables, set_at, write_file}

-- The whole answer.
abbrev pub put_head : Bytes
put_head =
    (status_line (codes "HTTP/1.1") (codes "200") (codes "OK")
      ++ message_header (codes "0") (codes "html") [] [])
    ++ crlf

small_put_head : length put_head < 2 ^ 63
unfolding status_line message_header type_line option_line equal
small_put_head = omega arith

-- The response that is prepared, for the bytes that have come.
abbrev prepared : Bytes → Request → Sender → Sender
prepared name r c = record {
  req = some r;
  resp = empty_response (codes "200") (codes "OK") [] c.resp;
  done = c.done ++ write_file (codes "filedir/" ++ name) r.recv_msg ∷ [];
}

dispatch-put :
    (s : Build.Setting) (name : Bytes) (r : Request) (c : Sender)
    → c.req ≡ some r
    → s.can_write (codes "filedir/" ++ name) ≡ true
    → dispatch s (record { opera = codes "put"; filename = name }) c ≡ next (prepared name r c)
unfolding dispatch put_file equal
dispatch-put s name r c is_r opens = rw opens (ap (λ q. next (prepared name (req_of q) c)) is_r)

prepare-put :
    (s : Build.Setting) (name : Bytes) (r : Request) (c : Sender)
    → ForPath s c.resp (path_of (codes "put") name)
    → name ≢ []
    → length (path_of (codes "put") name) < 2 ^ 63
    → c.req ≡ some r
    → s.can_write (codes "filedir/" ++ name) ≡ true
    → prepare s c ≡ next (prepared name r c)
prepare-put s name r c path ne short is_r opens =
    prepare-route s c (path_of (codes "put") name) path
    ∙ ap (dispatch_result s c)
        (route-path_of (codes "put") name (omega arith) (omega arith) ne short)
    ∙ dispatch-put s name r c is_r opens

prepared-IsSending :
    (s : Build.Setting) (name : Bytes) (r : Request) (c : Sender)
    → IsSending s (wire c.done) put_head [] (prepared name r c)
prepared-IsSending s name r c = record {
  head_is = refl;
  head_len = refl;
  body_is = refl;
  so_far = (omega arith, wire-append c.done _);
}

put_file-Delivers :
    (s : Build.Setting) (ns : List ℕ) (stop : SendStop) (name : Bytes) (r : Request) (c : Sender)
    → ForPath s c.resp (path_of (codes "put") name)
    → name ≢ []
    → length (path_of (codes "put") name) < 2 ^ 63
    → c.req ≡ some r
    → s.can_write (codes "filedir/" ++ name) ≡ true
    → AreEnough (length put_head + 0) ns
    → AllQuiet c.done
    → Delivers s ns stop c put_head []
put_file-Delivers s ns stop name r c path ne short is_r opens enough quiet =
    Delivers-prepared s ns stop put_head [] small_put_head (omega arith) enough c
      (prepared name r c) (prepare-put s name r c path ne short is_r opens) (sym is_r) refl refl
      (prepared-IsSending s name r c) (AllQuiet-append c.done _ quiet (tt, tt))

-- The two calls return with the files as in `result`, these bytes have gone out, and this request is
-- still in the map.
abbrev pub Puts :
    Recv.Setting
    → Build.Setting
    → Tables
    → Files
    → List Bytes
    → RecvEnd
    → List ℕ
    → SendStop
    → Files
    → Bytes
    → Request
    → Type 0
Puts up s t files chunks e ns stop result bytes left =
    (t1 : Tables) × (done1 : List Effect) × (t2 : Tables) × (done2 : List Effect) × (Recv.process up
        t chunks e
      ≡ ok (t1, done1))
    × (Send.process s t1 ns stop ≡ ok (t2, done2))
    × (apply_all files (done1 ++ done2) ≡ result)
    × (wire done2 ≡ bytes)
    × (t2.requests up.client_fd ≡ some left)
    × IsIdle up t2

module _ (s : Build.Setting) (can_append : Bytes → Bool) (garbage : Garbage) (t : Tables)
    (r : Request) where
  abbrev up : Recv.Setting
  up = reading s can_append garbage

  -- The request as it stays.
  abbrev pub in_body : Request
  in_body = record r { status = handle_body }

  abbrev answered : Response
  answered = record (resp_of up (t.responses s.client_fd)) { body_file_name = r.request_resource }

  abbrev between : Tables
  between = record {
    requests = set_at t.requests s.client_fd (some in_body);
    responses = set_at t.responses s.client_fd (some answered);
  }

  received_put :
      (x : Bytes) (xs : List Bytes) (e : RecvEnd)
      → parse (req_of (t.requests s.client_fd)) x ≡ ok r
      → r.status ≡ handle_body
      → r.request_method ≡ codes "PUT"
      → Recv.process up t (x ∷ xs) e ≡ ok (between, rearmed s)
  unfolding Recv.process
  received_put x xs e p st put =
      ap (finish up t) (recv_loop-AnswersPut up (conn_of up t) x [] xs e r p st put).0

  -- A PUT request and its answer: where no other answer is under way, one receipt completes the header
  -- of a PUT request for `/put/` and a name that is not empty, the path is below 2 ^ 63, the file can
  -- be written, and `send` is called often enough and takes a byte at least each time, the two calls
  -- make the bytes that have come behind the header by then the whole contents of the file of that
  -- name, whatever its length was announced to be and whatever else is still to be received, change
  -- no other file, and answer that all is well; but the request stays in the map, with these bytes.
  pub exchange-put :
      (x : Bytes) (xs : List Bytes) (e : RecvEnd) (ns : List ℕ) (stop : SendStop) (name : Bytes)
      (files : Files)
      → IsIdle up t
      → parse (req_of (t.requests s.client_fd)) x ≡ ok r
      → r.status ≡ handle_body
      → r.request_method ≡ codes "PUT"
      → r.request_resource ≡ path_of (codes "put") name
      → name ≢ []
      → length (path_of (codes "put") name) < 2 ^ 63
      → s.can_write (codes "filedir/" ++ name) ≡ true
      → AreEnough (length put_head + 0) ns
      → Puts up s t files
          (x ∷ xs)
          e
          ns
          stop
          (put_at files (codes "filedir/" ++ name) (some r.recv_msg))
          put_head
          in_body
  exchange-put x xs e ns stop name files idle p st put res ne short opens enough =
      let c : Sender = record { req = some in_body; resp = answered; done = [] } in
      let there = at_self t.responses s.client_fd (some answered) in
      let is_q = at_self t.requests s.client_fd (some in_body) in
      let result = put_at files (codes "filedir/" ++ name) (some r.recv_msg) in
      let (t2, done2, run2, out, left, idle', ready) =
        sent_at s can_append garbage between answered (some in_body) ns stop put_head [] there is_q
          (put_file-Delivers s ns stop name in_body c (idle.0, res) ne short refl opens enough
            tt) in
      (
        between,
        rearmed s,
        t2,
        done2,
        received_put x xs e p st put,
        run2,
        subst (Leaves files result s) run2 (
            sent-Leaves files result s between ns stop answered (some in_body)
              (prepared name in_body c) there is_q
              (prepare-put s name in_body c (idle.0, res) ne short refl opens) refl),
        out ∙ append-nil put_head,
        left,
        idle',
      )
