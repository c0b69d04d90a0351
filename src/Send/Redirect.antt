-- ===== src/Send/Redirect.antt =====
-- The redirection to the list page, and a download of a file that cannot be opened.
use cherokee.Base.{
  ℕ, ◌+◌, ◌<◌, ◌^◌, [], ◌∷◌, ◌++◌, List, ◌≡◌, ◌≢◌, refl, sym, ap, ◌∙◌, arith, length, append-nil,
}
use cherokee.Base.Int.{negsuc}
use cherokee.Fault.{ok}
use cherokee.Send.{SendStop, send_response, after_prepare}
use cherokee.Send.Build.{
  Setting, Sender, next, empty_response, send_redirect, send_file, start_over, dispatch,
  dispatch_result,
}
use cherokee.Send.Deliver.{Delivers, Delivers-prepared, AreEnough, ForPath, prepare-route}
use cherokee.Send.Page.{status_line, message_header, type_line, option_line}
use cherokee.Send.Pieces.{wire, IsSending}
use cherokee.Send.Routing.{Route, route, until_slash}
use cherokee.Send.RoutingLaws.{path_of, route-path_of}
use cherokee.Text.{Bytes, codes, crlf, equal}
use cherokee.Message.Header.{substr}
use cherokee.World.{open_file}
use cherokee.World.Arming.{AllQuiet}

-- The whole answer: the address is that of the list page.
abbrev pub redirect_head : Bytes
redirect_head =
    codes
      "HTTP/1.1 302 Moved Temporarily\r\nContent-Length: 0\r\nContent-Type: text/html;charset=UTF-8\r\nLocation: /\r\nConnection: keep-alive\r\n\r\n"

-- The same, as the handler puts it together.
abbrev built_redirect_head : Bytes
built_redirect_head =
    (status_line (codes "HTTP/1.1") (codes "302") (codes "Moved Temporarily")
      ++ message_header (codes "0") (codes "html") (codes "/") [])
    ++ crlf

built_redirect_head_lem : built_redirect_head ≡ redirect_head
unfolding status_line message_header type_line option_line equal
built_redirect_head_lem = refl

small_redirect_head : length redirect_head < 2 ^ 63
small_redirect_head = omega arith

abbrev to_nowhere : Route
to_nowhere = record { opera = codes "redirect"; filename = [] }

route_redirect : route (codes "/redirect") ≡ ok to_nowhere
unfolding route until_slash equal substr
route_redirect = refl

abbrev redirected : Sender → Sender
redirected c = record c {
  resp = empty_response (codes "302") (codes "Moved Temporarily") (codes "/") c.resp;
}

dispatch-redirect : (s : Setting) (c : Sender) → dispatch s to_nowhere c ≡ next (redirected c)
unfolding dispatch send_redirect equal
dispatch-redirect s c = refl

redirected-IsSending :
    (s : Setting) (c : Sender) → IsSending s (wire c.done) redirect_head [] (redirected c)
redirected-IsSending s c = record {
  head_is = built_redirect_head_lem;
  head_len = ap length built_redirect_head_lem;
  body_is = refl;
  so_far = (omega arith, sym (append-nil (wire c.done)));
}

-- The answer to `/redirect` is a header with the address of the list page, and no body.
pub send_redirect-Delivers :
    (s : Setting) (ns : List ℕ) (stop : SendStop) (c : Sender)
    → ForPath s c.resp (codes "/redirect")
    → AreEnough (length redirect_head + 0) ns
    → AllQuiet c.done
    → Delivers s ns stop c redirect_head []
send_redirect-Delivers s ns stop c path enough quiet =
    Delivers-prepared s ns stop redirect_head [] small_redirect_head (omega arith) enough c
      (redirected c)
      (prepare-route s c (codes "/redirect") path
        ∙ ap (dispatch_result s c) route_redirect
        ∙ dispatch-redirect s c)
      refl refl refl (redirected-IsSending s c) quiet

dispatch-missing :
    (s : Setting) (name : Bytes) (c : Sender)
    → dispatch s (record { opera = codes "downl"; filename = name }) c ≡ send_file s name c
unfolding dispatch equal
dispatch-missing s name c = refl

-- A download of a file that cannot be opened: the redirection is to be sent.
pub missing :
    (s : Setting) (ns : List ℕ) (stop : SendStop) (name : Bytes) (c : Sender)
    → ForPath s c.resp (path_of (codes "downl") name)
    → name ≢ []
    → length (path_of (codes "downl") name) < 2 ^ 63
    → s.open_fd (codes "filedir/" ++ name) ≡ negsuc 0
    → send_response s ns stop c
      ≡ ok (
          start_over s
            (codes "/redirect")
            (record c { done = c.done ++ open_file (codes "filedir/" ++ name) ∷ [] }))
unfolding send_response send_file
missing s ns stop name c path ne short fails =
    ap (after_prepare s ns stop) (
      prepare-route s c (path_of (codes "downl") name) path
      ∙ ap (dispatch_result s c)
          (route-path_of (codes "downl") name (omega arith) (omega arith) ne short)
      ∙ dispatch-missing s name c)
    ∙ rw fails refl
