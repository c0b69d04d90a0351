-- ===== src/Recv/WholeUpload.antt =====
-- From the header of an upload to the contents of its file, and the whole upload.
use cherokee.Base.{
  ◌+◌, ◌^◌, ◌<◌, true, List, [], ◌∷◌, ◌++◌, none, some, ◌≡◌, ◌≢◌, refl, sym, ap, ◌∙◌, arith, length,
  take, drop, take-append_of_le, take-all,
}
use cherokee.Fault.{ok}
use cherokee.Message.{Request, file_begin_flag, file_head, file_content, handle_body}
use cherokee.Recv.PartHead.{
  Names, NoQuote, AreOther, lines_of, part_head, waiting, take_file_head-Names,
}
use cherokee.Recv.{
  ◌>>=◌, body_at, Setting, Conn, next, boundary_of, upload, on_chunk, recv_loop, RecvEnd,
  would_block, begin_at, begin_line, content_at, file_head_at, complete_at, lift,
}
use cherokee.Recv.Content.{closing}
use cherokee.Recv.Parse.{is_multipart, parse}
use cherokee.Recv.RequestText.{NoSpace, IsPlain, find-crlf}
use cherokee.Recv.RoundTrip.{drop-line}
use cherokee.Recv.Upload.{IsUploading, parse-body, body_at-on_body, on_body-upload}
use cherokee.Recv.UploadStream.{Uploaded, FitBuffer, joined, recv_loop-Uploaded}
use cherokee.Text.{Bytes, codes, crlf, equal, equal_self, find}

-- The connection at the start of the contents.
abbrev pub at_contents : Conn → Request → Bytes → Conn
at_contents c r name = record c {
  req = record r { recv_msg = []; file_msg_status = file_content; recv_file_name = name };
}

-- The request at the end of its header, whose body begins with the head of a part, of which `early`
-- has come with it.
pub record BeginsUpload (s : Setting) (b line name : Bytes) (others : List Bytes) (early : Bytes)
    (r : Request) : Type 0 where
  pub in_body : r.status ≡ handle_body
  pub posted : r.request_method ≡ codes "POST"
  pub multipart : is_multipart r ≡ true
  pub not_begun : r.file_msg_status ≡ file_begin_flag
  pub boundary : boundary_of r ≡ some b
  pub unnamed : r.recv_file_name ≡ []
  pub opens : s.can_append (codes "filedir/" ++ name) ≡ true
  pub plain_boundary : IsPlain b
  pub plain : IsPlain line
  pub some_line : line ≢ []
  pub names : Names line name
  pub no_quote : NoQuote name
  pub no_space : NoSpace name
  pub lines : AreOther others
  pub waits : r.recv_msg ≡ part_head b line others early

-- The line of the boundary.
begin_at-boundary :
    (s : Setting) (b rest : Bytes) (c : Conn)
    → IsPlain b
    → c.req.file_msg_status ≡ file_begin_flag
    → boundary_of c.req ≡ some b
    → c.req.recv_msg ≡ (b'-' ∷ (b'-' ∷ b)) ++ (13 ∷ (10 ∷ rest))
    → begin_at c.req.file_msg_status s c
      ≡ next (record c { req = record c.req { file_msg_status = file_head; recv_msg = rest } })
unfolding begin_at begin_line
begin_at-boundary s b rest c plain begin bound waits =
    let dashed = b'-' ∷ (b'-' ∷ b) in
    let i = length dashed in
    let two : IsPlain dashed = (
      (λ e. omega (arith, e)),
      (λ e. omega (arith, e)),
      ((λ e. omega (arith, e)), (λ e. omega (arith, e)), plain),
    ) in
    let found : find crlf c.req.recv_msg ≡ some i =
      ap (find crlf) waits ∙ find-crlf dashed rest two in
    let same : equal (take i c.req.recv_msg) dashed ≡ true =
      ap (λ x. equal (take i x) dashed) waits
      ∙ ap (λ x. equal x dashed)
          (take-append_of_le i dashed (13 ∷ (10 ∷ rest)) (omega arith)
            ∙ take-all i dashed (omega arith))
      ∙ equal_self dashed in
    ap (λ st. begin_at st s c) begin
    ∙ rw (found, begin_at)
        (ap (begin_line s c i) bound
          ∙ rw (same, begin_line)
              (ap
                (λ x.
                  next
                    (record c { req = record c.req { file_msg_status = file_head; recv_msg = x } }))
                (ap (drop (i + 2)) waits ∙ drop-line dashed rest)))

upload-BeginsUpload :
    (s : Setting) (b line name : Bytes) (others : List Bytes) (early : Bytes) (c : Conn)
    → BeginsUpload s b line name others early c.req
    → upload s c
      ≡ upload s (record c {
        req = record c.req {
          recv_msg = early;
          file_msg_status = file_content;
          recv_file_name = name;
        };
      })
unfolding upload begin_at file_head_at complete_at
upload-BeginsUpload s b line name others early c h =
    let rest = line ++ (13 ∷ (10 ∷ lines_of others early)) in
    let r1 = record c.req { file_msg_status = file_head } in
    ap
      (λ m. m >>= λ c1. file_head_at c1.req.file_msg_status c1 >>= λ c2.
        content_at c2.req.file_msg_status s c2 >>= λ c3. complete_at c3.req.file_msg_status s c3)
      (begin_at-boundary s b rest c h.plain_boundary h.not_begun h.boundary h.waits)
    ∙ ap
        (λ m. lift (record c { req = waiting rest r1 }) m >>= λ c2.
          content_at c2.req.file_msg_status s c2 >>= λ c3. complete_at c3.req.file_msg_status s c3)
        (take_file_head-Names r1 line name others early h.plain h.some_line h.names h.no_quote
          h.no_space h.lines h.unnamed)

pub at_contents-IsUploading :
    (s : Setting) (b line name : Bytes) (others : List Bytes) (early : Bytes) (c : Conn)
    (r : Request)
    → BeginsUpload s b line name others early r
    → IsUploading s b (at_contents c r name).req
unfolding is_multipart
at_contents-IsUploading s b line name others early c r h = record {
  in_body = h.in_body;
  posted = h.posted;
  multipart = h.multipart;
  in_content = refl;
  boundary = h.boundary;
  opens = h.opens;
}

find-closing_nil : (b : Bytes) → find (closing b) [] ≡ none
unfolding find
find-closing_nil b = refl

-- The handler is then where it would be if the contents had come with a receipt of their own.
pub on_chunk-BeginsUpload :
    (s : Setting) (b line name : Bytes) (others : List Bytes) (early : Bytes) (c : Conn) (x : Bytes)
    (r : Request)
    → parse c.req x ≡ ok r
    → BeginsUpload s b line name others early r
    → on_chunk s c x ≡ on_chunk s (at_contents c r name) early
unfolding on_chunk is_multipart
on_chunk-BeginsUpload s b line name others early c x r e h =
    let start = at_contents c r name in
    let going = record start { req = record start.req { recv_msg = early } } in
    ap (λ m. lift c m >>= λ c'. body_at c'.req.status s c') e
    ∙ body_at-on_body r.status s (record c { req = r }) h.in_body
    ∙ on_body-upload s (record c { req = r }) h.posted h.multipart
    ∙ upload-BeginsUpload s b line name others early (record c { req = r }) h
    ∙ sym (
        ap (λ m. lift start m >>= λ c'. body_at c'.req.status s c')
          (parse-body start.req early h.in_body)
        ∙ body_at-on_body r.status s going h.in_body
        ∙ on_body-upload s going h.posted h.multipart)

pub recv_loop-BeginsUpload :
    (s : Setting) (b line name : Bytes) (others : List Bytes) (early : Bytes) (c : Conn) (x : Bytes)
    (xs : List Bytes) (r : Request) (e : RecvEnd)
    → parse c.req x ≡ ok r
    → BeginsUpload s b line name others early r
    → recv_loop s c (x ∷ xs) e ≡ recv_loop s (at_contents c r name) (early ∷ xs) e
unfolding recv_loop
recv_loop-BeginsUpload s b line name others early c x xs r e p h =
    rw (on_chunk-BeginsUpload s b line name others early c x r p h, recv_loop) refl

-- A whole upload: where a receipt completes the header of a POST request for a multipart body with
-- this boundary and the head of the part that names the file, and the file can be opened, and the rest
-- of it, `early`, and whatever receipts of at most 2048 bytes bring the contents, exactly the bytes
-- before the first closing boundary are appended to the file of that name, and the client is
-- redirected; while no boundary has arrived, the bytes in the file and those kept make up all that has
-- arrived, and the upload goes on.
pub recv_loop-UploadedFile :
    (s : Setting) (b line name : Bytes) (others : List Bytes) (early : Bytes) (c : Conn) (x : Bytes)
    (xs : List Bytes) (r : Request)
    → length b < 2 ^ 30
    → parse c.req x ≡ ok r
    → BeginsUpload s b line name others early r
    → FitBuffer (early ∷ xs)
    → let text = early ++ joined xs in
      (c' : Conn) × (recv_loop s c (x ∷ xs) would_block ≡ ok c')
      × Uploaded s b (at_contents c r name) text (find (closing b) text) c'
recv_loop-UploadedFile s b line name others early c x xs r small e h fit =
    let (c', run, up) =
      recv_loop-Uploaded s b (at_contents c r name) (early ∷ xs) small
        (at_contents-IsUploading s b line name others early c r h)
        (record { absent = find-closing_nil b; short = omega arith }) fit in
    (c', recv_loop-BeginsUpload s b line name others early c x xs r would_block e h ∙ run, up)
