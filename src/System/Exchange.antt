-- ===== src/System/Exchange.antt =====
-- One request and its answer: a call of `HandleRecv::process`, then one of `HandleSend::process`.
use cherokee.Base.{
  ℕ, ◌+◌, ◌<◌, ◌^◌, Bool, true, List, [], ◌∷◌, ◌++◌, Option, none, some, ◌≡◌, ◌≢◌, refl, ap, ◌∙◌,
  length, ==_iff, if◌then◌else◌,
}
use cherokee.Base.Int.{pos}
use cherokee.Fault.{ok}
use cherokee.Message.{file_type, handle_init, handle_body, Garbage, Request, Response, new_response}
use cherokee.Recv
use cherokee.Recv.{RecvEnd, Conn, answer, conn_of, req_of, resp_of, finish}
use cherokee.Recv.GetRequest.{recv_loop-AnswersGet}
use cherokee.Recv.Parse.{parse}
use cherokee.Recv.UploadStream.{joined}
use cherokee.Send
use cherokee.Send.Build
use cherokee.Send.{SendStop, send_response, process_at, store}
use cherokee.Send.Build.{Sender}
use cherokee.Send.Deliver.{Delivers, AreEnough}
use cherokee.Send.Download.{download_head, page_head, send_file-Delivers, send_page-Delivers}
use cherokee.Send.Page.{label}
use cherokee.Send.PageLaws.{NoLabel, list_page}
use cherokee.Send.Pieces.{wire}
use cherokee.Send.RoutingLaws.{path_of}
use cherokee.System.Files.{Files, apply_all}
use cherokee.Text.{Bytes, codes}
use cherokee.Utils.{modify_events}
use cherokee.World.Arming.{Rearms, for_reading, for_writing}
use cherokee.World.{Effect, Tables, set_at, modify_wait}

-- No answer is under way for the descriptor.
abbrev pub IsIdle : Recv.Setting → Tables → Type 0
IsIdle r t =
    let p = resp_of r (t.responses r.client_fd) in (p.status ≡ handle_init) × (p.msg_body ≡ [])

-- The bytes of these receipts are, together, the head of this GET request.
abbrev pub AsksFor : Recv.Setting → Tables → List Bytes → Bytes → Type 0
AsksFor r t chunks path =
    (q : Request) × (parse (req_of (t.requests r.client_fd)) (joined chunks) ≡ ok q)
    × (q.status ≡ handle_body)
    × (q.request_method ≡ codes "GET")
    × (q.request_resource ≡ path)

-- The connection is ready for the next request: the entries are as for a new one, and the last effect
-- is that epoll waits to read from the client, whose descriptor is open.
abbrev pub IsReady : Recv.Setting → Tables → List Effect → Type 0
IsReady r t done =
    (t.requests r.client_fd ≡ none) × IsIdle r t × Rearms r.client_fd for_reading done

-- The two calls return, the first asks to be woken for writing, these bytes have gone out, and the
-- connection is ready.
abbrev pub Answers :
    Recv.Setting
    → Build.Setting
    → Tables
    → List Bytes
    → RecvEnd
    → List ℕ
    → SendStop
    → Bytes
    → Type 0
Answers r s t chunks e ns stop bytes =
    (t1 : Tables) × (done1 : List Effect) × (t2 : Tables) × (done2 : List Effect) × (Recv.process r
        t chunks e
      ≡ ok (t1, done1))
    × (Send.process s t1 ns stop ≡ ok (t2, done2))
    × (done1 ≡ modify_wait r.client_fd for_writing ∷ [])
    × (wire done2 ≡ bytes)
    × IsReady r t2 done2

-- An answer in two responses: the first call for sending sends nothing and asks to be woken for
-- writing, with the files then as in `result`; the second, which finds things as in `later`, sends
-- these bytes.
abbrev pub AnswersTwice :
    Recv.Setting
    → Build.Setting
    → Build.Setting
    → Tables
    → Files
    → List Bytes
    → RecvEnd
    → List ℕ
    → List ℕ
    → SendStop
    → Files
    → Bytes
    → Type 0
AnswersTwice r s later t files chunks e ns ms stop result bytes =
    (t1 : Tables) × (done1 : List Effect) × (t2 : Tables) × (done2 : List Effect) × (t3 : Tables)
    × (done3 : List Effect) × (Recv.process r t chunks e ≡ ok (t1, done1))
    × (Send.process s t1 ns stop ≡ ok (t2, done2))
    × (Send.process later t2 ms stop ≡ ok (t3, done3))
    × (apply_all files (done1 ++ done2) ≡ result)
    × (done1 ≡ modify_wait r.client_fd for_writing ∷ [])
    × (wire done2 ≡ [])
    × Rearms r.client_fd for_writing done2
    × (wire done3 ≡ bytes)
    × IsReady r t3 done3

pub at_self : {A : Type 0} (f : ℕ → Option A) (fd : ℕ) (v : Option A) → set_at f fd v fd ≡ v
at_self f fd v = ap (λ b. if b then v else f fd) ((==_iff fd fd).1 refl)

-- The same connection, for reading.
abbrev pub reading : Build.Setting → (Bytes → Bool) → Garbage → Recv.Setting
reading s can_append garbage = record {
  client_fd = s.client_fd;
  can_append = can_append;
  garbage = garbage;
}

-- What a call that delivers a response leaves, where it finds the response `p` and the request `q`.
pub sent_at :
    (s : Build.Setting) (can_append : Bytes → Bool) (garbage : Garbage) (t : Tables) (p : Response)
    (q : Option Request) (ns : List ℕ) (stop : SendStop) (head body : Bytes)
    → t.responses s.client_fd ≡ some p
    → t.requests s.client_fd ≡ q
    → Delivers s ns stop (record { req = q; resp = p; done = [] }) head body
    → (t2 : Tables) × (done2 : List Effect) × (Send.process s t ns stop ≡ ok (t2, done2))
      × (wire done2 ≡ head ++ body)
      × (t2.requests s.client_fd ≡ q)
      × IsIdle (reading s can_append garbage) t2
      × (s.garbage_after.body_type ≢ file_type → Rearms s.client_fd for_reading done2)
unfolding Send.process
sent_at s can_append garbage t p q ns stop head body there is_q (c', run, out, req, resp, ready) =
    let fd = s.client_fd in
    let r = reading s can_append garbage in
    let last : Tables = record {
      requests = set_at t.requests fd c'.req;
      responses = set_at t.responses fd (some c'.resp);
    } in
    let entry : resp_of r (last.responses fd) ≡ new_response s.garbage_after =
      ap (resp_of r) (at_self t.responses fd (some c'.resp)) ∙ resp in
    (
      last,
      c'.done,
      ap (process_at s t ns stop) there
          ∙ ap (λ q. store s t (send_response s ns stop (record { req = q; resp = p; done = [] })))
              is_q
          ∙ ap (store s t) run,
      out,
      at_self t.requests fd c'.req ∙ req,
      (ap (λ (p : Response). p.status) entry, ap (λ (p : Response). p.msg_body) entry),
      ready,
    )

abbrev pub rearmed : Build.Setting → List Effect
rearmed s = modify_wait s.client_fd (modify_events true true true) ∷ []

pub rearmed_lem : (s : Build.Setting) → rearmed s ≡ modify_wait s.client_fd for_writing ∷ []
unfolding modify_events
rearmed_lem s = refl

module _ (s : Build.Setting) (can_append : Bytes → Bool) (garbage : Garbage) (t : Tables) where
  abbrev r : Recv.Setting
  r = reading s can_append garbage

  -- What the first call leaves.
  abbrev pub answered : Bytes → Response
  answered path = record (resp_of r (t.responses s.client_fd)) { body_file_name = path }

  abbrev pub between : Bytes → Tables
  between path = record {
    requests = set_at t.requests s.client_fd none;
    responses = set_at t.responses s.client_fd (some (answered path));
  }

  pub received_get :
      (x : Bytes) (xs : List Bytes) (e : RecvEnd) (path : Bytes)
      → AsksFor r t (x ∷ xs) path
      → Recv.process r t (x ∷ xs) e ≡ ok (between path, rearmed s)
  unfolding Recv.process
  received_get x xs e path (q, p, st, get, res) =
      let (rest, run) = recv_loop-AnswersGet r (conn_of r t) x xs e q p st get in
      ap (finish r t) run ∙ ap (λ n. ok (between n, rearmed s)) res

  sent_answer :
      (ns : List ℕ) (stop : SendStop) (path head body : Bytes)
      → Delivers s ns stop (record { req = none; resp = answered path; done = [] }) head body
      → (t2 : Tables) × (done2 : List Effect) × (Send.process s (between path) ns stop
          ≡ ok (t2, done2))
        × (wire done2 ≡ head ++ body)
        × (t2.requests s.client_fd ≡ none)
        × IsIdle r t2
        × (s.garbage_after.body_type ≢ file_type → Rearms s.client_fd for_reading done2)
  sent_answer ns stop path head body =
      sent_at s can_append garbage (between path) (answered path) none ns stop head body
        (at_self t.responses s.client_fd (some (answered path)))
        (at_self t.requests s.client_fd none)

  -- A request for a file, in any number of receipts, and its answer: where no other answer is under
  -- way, the name is not empty, the file opens and has its announced size, path and size are below
  -- 2 ^ 63, and `send` and `sendfile` are called often enough and take a byte at least each time, and
  -- the entry that is made at the end is not of the type of a file, the two calls send the header for the file's size and the bytes of the file, and leave the connection
  -- ready for the next request.
  pub exchange-file :
      (x : Bytes) (xs : List Bytes) (e : RecvEnd) (ns : List ℕ) (stop : SendStop)
      (name text : Bytes) (fd : ℕ)
      → IsIdle r t
      → AsksFor r t (x ∷ xs) (path_of (codes "downl") name)
      → name ≢ []
      → length (path_of (codes "downl") name) < 2 ^ 63
      → s.open_fd (codes "filedir/" ++ name) ≡ pos fd
      → s.file_bytes (pos fd) ≡ text
      → s.file_size (pos fd) ≡ length text
      → length text < 2 ^ 63
      → AreEnough (length (download_head (length text)) + length text) ns
      → s.garbage_after.body_type ≢ file_type
      → Answers r s t (x ∷ xs) e ns stop (download_head (length text) ++ text)
  exchange-file x xs e ns stop name text fd idle asks ne short opens bytes size small enough
        no_file =
      let path = path_of (codes "downl") name in
      let run1 = received_get x xs e path asks in
      let (t2, done2, run2, out, none_left, idle', ready) =
        sent_answer ns stop path (download_head (length text)) text (
          send_file-Delivers s ns stop (record { req = none; resp = answered path; done = [] }) name
            text fd (idle.0, refl) ne short opens bytes size small enough tt) in
      (
        between path,
        rearmed s,
        t2,
        done2,
        run1,
        run2,
        rearmed_lem s,
        out,
        (none_left, idle', ready no_file),
      )

  -- A request for the list page, in any number of receipts, and its answer: where no other answer is
  -- under way, the directory can be read, the template has its label, the page is shorter than
  -- 2 ^ 63, `send` is called often enough and takes a byte at least each time, and the entry that is
  -- made at the end is not of the type of a file, the two calls send
  -- the header for the page's size and the page, which is the template with a row for each visible
  -- file at the label, and leave the connection ready for the next request.
  pub exchange-page :
      (x : Bytes) (xs : List Bytes) (e : RecvEnd) (ns : List ℕ) (stop : SendStop)
      (names before after : List Bytes)
      → let page = list_page names before after in
        IsIdle r t
        → AsksFor r t (x ∷ xs) (b'/' ∷ [])
        → s.names ≡ some names
        → s.template ≡ before ++ (label ∷ after)
        → NoLabel before
        → length page < 2 ^ 63
        → AreEnough (length (page_head (length page)) + length page) ns
        → s.garbage_after.body_type ≢ file_type
        → Answers r s t (x ∷ xs) e ns stop (page_head (length page) ++ page)
  exchange-page x xs e ns stop names before after idle asks listed made h small enough no_file =
      let path = b'/' ∷ [] in
      let page = list_page names before after in
      let run1 = received_get x xs e path asks in
      let (t2, done2, run2, out, none_left, idle', ready) =
        sent_answer ns stop path (page_head (length page)) page (
          send_page-Delivers s ns stop (record { req = none; resp = answered path; done = [] })
            names before after (idle.0, refl) idle.1 listed made h small enough tt) in
      (
        between path,
        rearmed s,
        t2,
        done2,
        run1,
        run2,
        rearmed_lem s,
        out,
        (none_left, idle', ready no_file),
      )
