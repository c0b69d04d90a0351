-- ===== src/Recv/GetRequest.antt =====
-- GET requests in the receive loop of `HandleRecv::process`.
use mathlib.Core.Path.{subst}
use cherokee.Base.{
  List, [], ◌∷◌, ◌++◌, ◌≡◌, ◌≢◌, refl, sym, ap, ◌∙◌, true, arith, append-nil, inl, inr,
}
use cherokee.Fault.{Result, ok, fault, bind-eq-ok}
use cherokee.Message.{handle_body, handle_complete, Request}
use cherokee.Message.HeaderLaws.{with_recv}
use cherokee.Recv.{
  Setting, Conn, RecvEnd, next, leave, answer, on_chunk, on_body, body_at, recv_loop,
}
use cherokee.Recv.Parse.{parse}
use cherokee.Recv.ParseLaws.{parse-append, status-cases}
use cherokee.Recv.Upload.{parse-body}
use cherokee.Recv.UploadStream.{joined, recv_loop-next, recv_loop-leave}
use cherokee.Text.{Bytes, codes, equal}

abbrev pub with_req : Conn → Request → Conn
with_req c r = record c { req = r }

on_chunk-waits :
    (s : Setting) (c : Conn) (x : Bytes) (r : Request)
    → parse c.req x ≡ ok r
    → r.status ≢ handle_body
    → on_chunk s c x ≡ next (with_req c r)
unfolding on_chunk body_at
on_chunk-waits s c x r e h = rw e (ground arith)

on_body-get :
    (s : Setting) (c : Conn)
    → c.req.request_method ≡ codes "GET"
    → on_body s c ≡ leave (answer s c.req.request_resource handle_complete c)
unfolding on_body equal
on_body-get s c e =
    let get : equal c.req.request_method (codes "GET") ≡ true = ap (λ x. equal x (codes "GET")) e in
    rw get refl

on_chunk-get :
    (s : Setting) (c : Conn) (x : Bytes) (r : Request)
    → parse c.req x ≡ ok r
    → r.status ≡ handle_body
    → r.request_method ≡ codes "GET"
    → on_chunk s c x ≡ leave (answer s r.request_resource handle_complete (with_req c r))
unfolding on_chunk body_at
on_chunk-get s c x r e st get =
    rw e (ap (λ m. body_at m s (with_req c r)) st ∙ on_body-get s (with_req c r) get)

-- The answer, up to the bytes that have been read.
abbrev pub AnswersGet : Setting → Conn → List Bytes → RecvEnd → Request → Type 0
AnswersGet s c chunks e r =
    (rest : Bytes) × (recv_loop s c chunks e
      ≡ ok (answer s r.request_resource handle_complete (with_req c (with_recv rest r))))

request_of : Request → Result Request → Request
request_of d (ok r) = r
request_of d (fault e) = d

-- The receipt that ends the header answers; what comes after it is not read.
AnswersGet-body :
    (s : Setting) (c : Conn) (x : Bytes) (xs : List Bytes) (e : RecvEnd) (r1 r : Request)
    → parse c.req x ≡ ok r1
    → r1.status ≡ handle_body
    → (z : Bytes) → parse r1 z ≡ ok r
    → r.request_method ≡ codes "GET"
    → AnswersGet s c (x ∷ xs) e r
unfolding request_of
AnswersGet-body s c x xs e r1 r p st z p2 get =
    let same : with_recv (r1.recv_msg ++ z) r1 ≡ r =
      ap (request_of r1) (sym (parse-body r1 z st) ∙ p2) in
    subst (λ q. AnswersGet s c (x ∷ xs) e q) same
      (
        r1.recv_msg,
        recv_loop-leave s c _ x xs e
            (on_chunk-get s c x r1 p st (ap (λ q. q.request_method) same ∙ get)),
      )

-- If all the bytes of some receipts together are the head of a GET request, and a beginning of what
-- follows it, then the handler that gets them piece by piece registers the request's resource for
-- the answer, waits for the socket to be writable and leaves; only the bytes that it has read by
-- then depend on the pieces.
pub recv_loop-AnswersGet :
    (s : Setting) (c : Conn) (x : Bytes) (xs : List Bytes) (e : RecvEnd) (r : Request)
    → parse c.req (x ++ joined xs) ≡ ok r
    → r.status ≡ handle_body
    → r.request_method ≡ codes "GET"
    → AnswersGet s c (x ∷ xs) e r
recv_loop-AnswersGet s c x [] e r p st get = (
  r.recv_msg,
  recv_loop-leave s c _ x [] e
      (on_chunk-get s c x r (ap (parse c.req) (sym (append-nil x)) ∙ p) st get),
)
recv_loop-AnswersGet s c x (y ∷ ys) e r p st get =
    let (r1, p1, p2) =
      bind-eq-ok _ (λ r'. parse r' (y ++ joined ys))
        (sym (parse-append c.req x (y ++ joined ys)) ∙ p) in
    elim (status-cases r1.status handle_body) [
      | inl body ↦ AnswersGet-body s c x (y ∷ ys) e r1 r p1 body (y ++ joined ys) p2 get
      | inr waits ↦
          let (rest, run) = recv_loop-AnswersGet s (with_req c r1) y ys e r p2 st get in
          (rest, recv_loop-next s c _ x (y ∷ ys) e (on_chunk-waits s c x r1 p1 waits) ∙ run)
    ]
