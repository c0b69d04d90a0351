-- ===== src/Recv/PutRequest.antt =====
-- PUT requests in the receive loop of `HandleRecv::process`.
use cherokee.Base.{List, ◌∷◌, ◌++◌, ◌≡◌, refl, ap, ◌∙◌, true, false}
use cherokee.Fault.{ok}
use cherokee.Message.{handle_body, Request}
use cherokee.Recv.{Setting, Conn, RecvEnd, leave, answer, on_chunk, on_body, body_at, recv_loop}
use cherokee.Recv.GetRequest.{with_req}
use cherokee.Recv.Parse.{parse}
use cherokee.Recv.Upload.{parse-body}
use cherokee.Recv.UploadStream.{recv_loop-leave}
use cherokee.Text.{Bytes, codes, equal}

on_body-put :
    (s : Setting) (c : Conn)
    → c.req.request_method ≡ codes "PUT"
    → on_body s c ≡ leave (answer s c.req.request_resource handle_body c)
unfolding on_body equal
on_body-put s c e =
    let not_get : equal c.req.request_method (codes "GET") ≡ false =
      ap (λ x. equal x (codes "GET")) e in
    let not_post : equal c.req.request_method (codes "POST") ≡ false =
      ap (λ x. equal x (codes "POST")) e in
    let put : equal c.req.request_method (codes "PUT") ≡ true = ap (λ x. equal x (codes "PUT")) e in
    rw (not_get, not_post, put) refl

on_chunk-put :
    (s : Setting) (c : Conn) (x : Bytes) (r : Request)
    → parse c.req x ≡ ok r
    → r.status ≡ handle_body
    → r.request_method ≡ codes "PUT"
    → on_chunk s c x ≡ leave (answer s r.request_resource handle_body (with_req c r))
unfolding on_chunk body_at
on_chunk-put s c x r e st put =
    rw e (ap (λ m. body_at m s (with_req c r)) st ∙ on_body-put s (with_req c r) put)

-- When a receipt completes the header of a PUT request, the handler registers the request's resource
-- for the answer and leaves, whatever is still to be received and whatever Content-Length says; and
-- the next receipt is put behind the bytes that are kept and does the same again, in the same state.
pub recv_loop-AnswersPut :
    (s : Setting) (c : Conn) (x y : Bytes) (xs : List Bytes) (e : RecvEnd) (r : Request)
    → parse c.req x ≡ ok r
    → r.status ≡ handle_body
    → r.request_method ≡ codes "PUT"
    → (recv_loop s c (x ∷ xs) e ≡ ok (answer s r.request_resource handle_body (with_req c r)))
      × (recv_loop s (answer s r.request_resource handle_body (with_req c r)) (y ∷ xs) e
          ≡ ok (
              answer s r.request_resource handle_body
                (record (answer s r.request_resource handle_body (with_req c r)) {
                  req = record r { status = handle_body; recv_msg = r.recv_msg ++ y };
                })))
recv_loop-AnswersPut s c x y xs e r p st put = (
  recv_loop-leave s c _ x xs e (on_chunk-put s c x r p st put),
  recv_loop-leave s (answer s r.request_resource handle_body (with_req c r)) _ y xs e (
      on_chunk-put s (answer s r.request_resource handle_body (with_req c r)) y
        (record r { status = handle_body; recv_msg = r.recv_msg ++ y })
        (parse-body (record r { status = handle_body }) y refl) refl put),
)
