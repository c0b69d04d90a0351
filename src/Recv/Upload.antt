-- ===== src/Recv/Upload.antt =====
-- An upload, receipt by receipt: the bytes that reach the file.
use cherokee.Base.{Bool, true, false, ◌++◌, some, ◌≡◌, refl, ap, ◌∙◌, arith, if◌then◌else◌}
use cherokee.Fault.{ok}
use cherokee.Message.{MsgStatus, handle_body, handle_complete, file_content, file_complete, Request}
use cherokee.Recv.{
  Setting, Conn, Flow, next, leave, answer, boundary_of, upload_path, saved_to, upload, on_body,
  on_chunk, body_at,
}
use cherokee.Recv.Content.{Saved, save_content}
use cherokee.Recv.Parse.{is_multipart, parse, take_line, take_head}
use cherokee.Text.{Bytes, codes, equal}

-- The handler is at the contents of an uploaded file, whose boundary is `b`.
pub record IsUploading (s : Setting) (b : Bytes) (r : Request) : Type 0 where
  pub in_body : r.status ≡ handle_body
  pub posted : r.request_method ≡ codes "POST"
  pub multipart : is_multipart r ≡ true
  pub in_content : r.file_msg_status ≡ file_content
  pub boundary : boundary_of r ≡ some b
  pub opens : s.can_append (upload_path r) ≡ true

abbrev pub receive : Conn → Bytes → Conn
receive c chunk = record c { req = record c.req { recv_msg = c.req.recv_msg ++ chunk } }

pub parse-body :
    (r : Request) (chunk : Bytes)
    → r.status ≡ handle_body
    → parse r chunk ≡ ok (record r { recv_msg = r.recv_msg ++ chunk })
unfolding parse take_line take_head
parse-body r chunk e = ground arith

abbrev pub after_save : Setting → Conn → Saved → Flow
after_save s c w =
    if w.finished
    then leave (answer s (codes "/redirect") handle_complete (saved_to c w))
    else next (saved_to c w)

upload_lem :
    (s : Setting) (b : Bytes) (c : Conn) (w : Saved)
    → c.req.file_msg_status ≡ file_content
    → boundary_of c.req ≡ some b
    → s.can_append (upload_path c.req) ≡ true
    → save_content b c.req.recv_msg ≡ ok w
    → upload s c ≡ after_save s c w
unfolding upload
upload_lem s b c w e1 e2 e3 e4 = ground arith

pub on_body-upload :
    (s : Setting) (c : Conn)
    → c.req.request_method ≡ codes "POST"
    → is_multipart c.req ≡ true
    → on_body s c ≡ upload s c
unfolding on_body equal
on_body-upload s c e m =
    let not_get : equal c.req.request_method (codes "GET") ≡ false =
      ap (λ x. equal x (codes "GET")) e in
    let post : equal c.req.request_method (codes "POST") ≡ true =
      ap (λ x. equal x (codes "POST")) e in
    rw (not_get, post, m) refl

pub body_at-on_body :
    (st : MsgStatus) (s : Setting) (c : Conn) → st ≡ handle_body → body_at st s c ≡ on_body s c
unfolding body_at
body_at-on_body st s c e = ap (λ x. body_at x s c) e

on_chunk-body :
    (s : Setting) (c : Conn) (chunk : Bytes)
    → c.req.status ≡ handle_body
    → on_chunk s c chunk ≡ on_body s (receive c chunk)
unfolding on_chunk
on_chunk-body s c chunk e =
    rw (parse-body c.req chunk e) (body_at-on_body c.req.status s (receive c chunk) e)

-- One receipt in that state, by what the saving loop makes of it.
pub on_chunk-IsUploading :
    (s : Setting) (b chunk : Bytes) (c : Conn) (w : Saved)
    → IsUploading s b c.req
    → save_content b (c.req.recv_msg ++ chunk) ≡ ok w
    → on_chunk s c chunk ≡ after_save s (receive c chunk) w
unfolding is_multipart
on_chunk-IsUploading s b chunk c w u e =
    on_chunk-body s c chunk u.in_body
    ∙ on_body-upload s (receive c chunk) u.posted u.multipart
    ∙ upload_lem s b (receive c chunk) w u.in_content u.boundary u.opens e

-- A receipt that does not reach the boundary changes neither the stage nor the name.
pub IsUploading-saved :
    (s : Setting) (b kept : Bytes) (finished : Bool) (r : Request)
    → finished ≡ false
    → IsUploading s b r
    → IsUploading s b (record r {
      recv_msg = kept;
      file_msg_status = if finished then file_complete else r.file_msg_status;
    })
unfolding is_multipart
IsUploading-saved s b kept finished r e u = record {
  in_body = u.in_body;
  posted = u.posted;
  multipart = u.multipart;
  in_content = rw e u.in_content;
  boundary = u.boundary;
  opens = u.opens;
}
