-- ===== src/Send/Download.antt =====
-- A response from its path to its last byte: the download of a file, and the list page.
use cherokee.Base.{
  subst, append_assoc, ℕ, ◌+◌, ◌-◌, ◌%◌, ◌^◌, ◌<◌, List, [], ◌∷◌, ◌++◌, some, ◌≡◌, ◌≢◌, refl, sym,
  ap, ap₂, ◌∙◌, arith, length, append-nil,
}
use cherokee.Base.Int.{pos}
use cherokee.Fault.{ok}
use cherokee.Send.{SendStop}
use cherokee.Send.Build.{
  Setting, Sender, next, file_response, send_file, send_page, page_response, dispatch,
  dispatch_result, page_flow,
}
use cherokee.Send.Decimal.{to_string}
use cherokee.Send.Deliver.{
  Delivers, AreEnough, Delivers-prepared, ForPath, prepare-route, small_answer,
}
use cherokee.Send.HeaderSize.{length-message_header, length-to_string}
use cherokee.Send.Page.{status_line, message_header, option_line, type_line, file_list_page, label}
use cherokee.Send.PageLaws.{
  NoLabel, file_list_page-label, list_page, StartsDigit, StartsDigit-to_string,
}
use cherokee.World.Arming.{AllQuiet, AllQuiet-append}
use cherokee.Send.Pieces.{wire, wire-append, IsSending}
use cherokee.Send.Routing.{route}
use cherokee.Send.RoutingLaws.{path_of, route-path_of}
use cherokee.Text.{Bytes, codes, crlf, equal}
use cherokee.World.{open_file}

-- What goes in front of a file of `size` bytes. The address of a redirection stands in it, with the
-- number of the last byte.
abbrev pub download_head : ℕ → Bytes
download_head size =
    codes "HTTP/1.1 200 OK\r\nContent-Length: "
    ++ (to_string size
        ++ (codes "\r\nContent-Type: application/octet-stream\r\nLocation: "
            ++ (to_string ((size + 2 ^ 64 - 1) % 2 ^ 64)
                ++ codes "\r\nConnection: keep-alive\r\n\r\n")))

abbrev pub page_head : ℕ → Bytes
page_head size =
    codes "HTTP/1.1 200 OK\r\nContent-Length: "
    ++ (to_string size
        ++ codes "\r\nContent-Type: text/html;charset=UTF-8\r\nConnection: keep-alive\r\n\r\n")

-- The same, as the handler puts them together.
abbrev built_download_head : ℕ → Bytes
built_download_head size =
    (status_line (codes "HTTP/1.1") (codes "200") (codes "OK")
      ++ message_header (to_string size) (codes "file") (to_string ((size + 2 ^ 64 - 1) % 2 ^ 64))
          [])
    ++ crlf

abbrev built_page_head : ℕ → Bytes
built_page_head size =
    (status_line (codes "HTTP/1.1") (codes "200") (codes "OK")
      ++ message_header (to_string size) (codes "html") [] [])
    ++ crlf

to_string-ne-nil : (n : ℕ) → to_string n ≢ []
to_string-ne-nil n e = subst StartsDigit e (StartsDigit-to_string n)

option_line-some :
    (name value : Bytes) → value ≢ [] → option_line name value ≡ name ++ (value ++ crlf)
unfolding option_line
option_line-some name [] ne = absurd (ne refl)
option_line-some name (c ∷ value) ne = refl

-- A value, the rest of the header, and the empty line.
line_assoc :
    (value rest : Bytes) → ((value ++ crlf) ++ rest) ++ crlf ≡ value ++ (13 ∷ (10 ∷ (rest ++ crlf)))
line_assoc value rest = append_assoc (value ++ crlf) rest crlf ∙ append_assoc value crlf _

built_download_head_lem : (size : ℕ) → built_download_head size ≡ download_head size
unfolding status_line message_header type_line option_line equal
built_download_head_lem size =
    let last = to_string ((size + 2 ^ 64 - 1) % 2 ^ 64) in
    let line =
      option_line-some (codes "Content-Length: ") (to_string size) (to_string-ne-nil size) in
    let line2 =
      option_line-some (codes "Location: ") last
        (to_string-ne-nil ((size + 2 ^ 64 - 1) % 2 ^ 64)) in
    let keep = codes "Connection: keep-alive\r\n" in
    let type = codes "Content-Type: application/octet-stream\r\nLocation: " in
    ap₂
      (λ x y.
        (status_line (codes "HTTP/1.1") (codes "200") (codes "OK")
          ++ (x
              ++ (type_line (codes "file")
                  ++ (y ++ (option_line (codes "Content-Range: 0-") [] ++ keep)))))
        ++ crlf)
      line line2
    ∙ ap (λ x. codes "HTTP/1.1 200 OK\r\nContent-Length: " ++ x)
        (line_assoc (to_string size) (type ++ ((last ++ crlf) ++ keep))
          ∙ ap (λ x. to_string size ++ (13 ∷ (10 ∷ (type ++ x)))) (line_assoc last keep))

built_page_head_lem : (size : ℕ) → built_page_head size ≡ page_head size
unfolding status_line message_header type_line option_line equal
built_page_head_lem size =
    let line =
      option_line-some (codes "Content-Length: ") (to_string size) (to_string-ne-nil size) in
    let rest = codes "Content-Type: text/html;charset=UTF-8\r\nConnection: keep-alive\r\n" in
    ap
      (λ x.
        (status_line (codes "HTTP/1.1") (codes "200") (codes "OK")
          ++ (x
              ++ (type_line (codes "html")
                  ++ (option_line (codes "Location: ") []
                      ++ (option_line (codes "Content-Range: 0-") []
                          ++ codes "Connection: keep-alive\r\n")))))
        ++ crlf)
      line
    ∙ ap (λ x. codes "HTTP/1.1 200 OK\r\nContent-Length: " ++ x) (line_assoc (to_string size) rest)

abbrev opened : Setting → Bytes → ℕ → Sender → Sender
opened s name fd c = record {
  req = c.req;
  resp = file_response (pos fd) (s.file_size (pos fd)) c.resp;
  done = c.done ++ open_file (codes "filedir/" ++ name) ∷ [];
}

dispatch-download :
    (s : Setting) (c : Sender) (name : Bytes) (fd : ℕ)
    → s.open_fd (codes "filedir/" ++ name) ≡ pos fd
    → dispatch s (record { opera = codes "downl"; filename = name }) c ≡ next (opened s name fd c)
unfolding dispatch send_file equal
dispatch-download s c name fd e = rw e refl

small_download_head : (size : ℕ) → length (download_head size) < 2 ^ 63
small_download_head size =
    subst (λ h. length h < 2 ^ 63) (built_download_head_lem size)
      (small_answer _ (
        omega (
          arith,
          length-message_header (to_string size) (codes "file")
              (to_string ((size + 2 ^ 64 - 1) % 2 ^ 64)) [],
          length-to_string size,
          length-to_string ((size + 2 ^ 64 - 1) % 2 ^ 64),
        )))

small_page_head : (size : ℕ) → length (page_head size) < 2 ^ 63
small_page_head size =
    subst (λ h. length h < 2 ^ 63) (built_page_head_lem size)
      (small_answer _ (
        omega (
          arith,
          length-message_header (to_string size) (codes "html") [] [],
          length-to_string size,
        )))

opened-IsSending :
    (s : Setting) (c : Sender) (name text : Bytes) (fd : ℕ)
    → s.file_bytes (pos fd) ≡ text
    → s.file_size (pos fd) ≡ length text
    → IsSending s (wire c.done) (download_head (length text)) text (opened s name fd c)
opened-IsSending s c name text fd bytes size = record {
  head_is = built_download_head_lem (s.file_size (pos fd)) ∙ ap download_head size;
  head_len = ap length (built_download_head_lem (s.file_size (pos fd)) ∙ ap download_head size);
  body_is = (bytes, size);
  so_far = (omega arith, wire-append c.done _);
}

opened-Quiet :
    (s : Setting) (c : Sender) (name : Bytes) (fd : ℕ)
    → AllQuiet c.done
    → AllQuiet (opened s name fd c).done
opened-Quiet s c name fd h = AllQuiet-append c.done _ h (tt, tt)

-- The answer to `/downl/name`, where the file opens and has the announced size, is the header for that
-- size and then the bytes of the file, from the first call to the last, when each call takes a byte
-- at least and there are enough of them; the request is left as it was and the response is renewed.
pub send_file-Delivers :
    (s : Setting) (ns : List ℕ) (stop : SendStop) (c : Sender) (name text : Bytes) (fd : ℕ)
    → ForPath s c.resp (path_of (codes "downl") name)
    → name ≢ []
    → length (path_of (codes "downl") name) < 2 ^ 63
    → s.open_fd (codes "filedir/" ++ name) ≡ pos fd
    → s.file_bytes (pos fd) ≡ text
    → s.file_size (pos fd) ≡ length text
    → length text < 2 ^ 63
    → AreEnough (length (download_head (length text)) + length text) ns
    → AllQuiet c.done
    → Delivers s ns stop c (download_head (length text)) text
send_file-Delivers s ns stop c name text fd path ne short opens bytes size small enough quiet =
    Delivers-prepared s ns stop (download_head (length text)) text
      (small_download_head (length text)) small enough c (opened s name fd c)
      (prepare-route s c (path_of (codes "downl") name) path
        ∙ ap (dispatch_result s c)
            (route-path_of (codes "downl") name (omega arith) (omega arith) ne short)
        ∙ dispatch-download s c name fd opens)
      refl refl refl (opened-IsSending s c name text fd bytes size) (opened-Quiet s c name fd quiet)

abbrev paged : Setting → Bytes → Sender → Sender
paged s page c = record c { resp = page_response page c.resp }

route_root : route (b'/' ∷ []) ≡ ok (record { opera = b'/' ∷ []; filename = [] })
unfolding route equal
route_root = refl

dispatch-page :
    (s : Setting) (c : Sender) (names before after : List Bytes)
    → s.names ≡ some names
    → s.template ≡ before ++ (label ∷ after)
    → c.resp.msg_body ≡ []
    → NoLabel before
    → dispatch s (record { opera = b'/' ∷ []; filename = [] }) c
      ≡ next (paged s (list_page names before after) c)
unfolding dispatch send_page equal
dispatch-page s c names before after listed made empty h = ap (page_flow c) (
    ap (λ b. file_list_page b s.names s.template) empty
    ∙ ap₂ (file_list_page []) listed made
    ∙ file_list_page-label [] names before after h)

paged-IsSending :
    (s : Setting) (c : Sender) (page : Bytes)
    → IsSending s (wire c.done) (page_head (length page)) page (paged s page c)
paged-IsSending s c page = record {
  head_is = built_page_head_lem (length page);
  head_len = ap length (built_page_head_lem (length page));
  body_is = (refl, refl);
  so_far = (omega arith, sym (append-nil (wire c.done)));
}

-- The answer to `/`, where the directory can be read and the template has its label, is the header for
-- the list page's size and then the page, with a row for each visible name, from the first call to the
-- last, when each call takes a byte at least and there are enough of them; the request is left as it
-- was and the response is renewed.
pub send_page-Delivers :
    (s : Setting) (ns : List ℕ) (stop : SendStop) (c : Sender) (names before after : List Bytes)
    → let page = list_page names before after in
      ForPath s c.resp (b'/' ∷ [])
      → c.resp.msg_body ≡ []
      → s.names ≡ some names
      → s.template ≡ before ++ (label ∷ after)
      → NoLabel before
      → length page < 2 ^ 63
      → AreEnough (length (page_head (length page)) + length page) ns
      → AllQuiet c.done
      → Delivers s ns stop c (page_head (length page)) page
send_page-Delivers s ns stop c names before after path empty listed made h small enough quiet =
    let page = list_page names before after in
    Delivers-prepared s ns stop (page_head (length page)) page (small_page_head (length page)) small
      enough c (paged s page c)
      (prepare-route s c (b'/' ∷ []) path
        ∙ ap (dispatch_result s c) route_root
        ∙ dispatch-page s c names before after listed made empty h)
      refl refl refl (paged-IsSending s c page) quiet
