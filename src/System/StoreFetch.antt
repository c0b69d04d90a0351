-- ===== src/System/StoreFetch.antt =====
-- What is uploaded on one connection is what is downloaded on another.
use cherokee.Base.{
  if◌then◌else◌, ◌≤◌, ℕ, ◌+◌, ◌<◌, ◌^◌, Bool, false, List, [], ◌∷◌, ◌++◌, none, some, ◌≡◌, ◌≢◌,
  refl, sym, subst, ap, ◌∙◌, ◌==◌, arith, inl, inr, Bool-cases, append_assoc, append-nil, length,
  take,
}
use cherokee.Base.Int.{pos}
use cherokee.Fault.{ok}
use cherokee.Recv.Upload.{IsUploading, receive, on_chunk-IsUploading}
use cherokee.Recv.ContentLaws.{save_content_lem}
use cherokee.Message.{file_type, handle_complete, Garbage, Request}
use cherokee.Recv
use cherokee.Recv.{
  leave, next, answer, saved_to, Conn, RecvEnd, would_block, closed, failed, recv_loop, settle,
  finish, on_end, upload_path, req_of, resp_of, store, conn_of,
}
use cherokee.Recv.Content.{closing}
use cherokee.Recv.Parse.{parse}
use cherokee.Recv.RequestText.{IsToken, AreHeaders, request_head}
use cherokee.Recv.Rule.{OnOk, IsKeptBy, recv_loop-Holds}
use cherokee.Recv.UploadStream.{
  appended, appended-append, Uploaded, joined, FitBuffer, recv_loop-next, recv_loop-leave,
}
use cherokee.Recv.WholeUpload.{
  BeginsUpload, at_contents, at_contents-IsUploading, recv_loop-BeginsUpload,
  recv_loop-UploadedFile,
}
use cherokee.Send.{SendStop}
use cherokee.Send.Build
use cherokee.Send.Deliver.{AreEnough}
use cherokee.Send.Download.{download_head}
use cherokee.Send.RoutingLaws.{path_of}
use cherokee.System.Exchange.{Answers, reading}
use cherokee.System.Files.{Files, contents, apply_all, apply_all-append, Naming, opened, on_files}
use cherokee.System.Serve.{AreKept, serve-file}
use cherokee.Text.{Bytes, codes, find, equal, equal_self, equal_sound}
use cherokee.World.{Effect, append_file, modify_wait, Tables}

-- The file is there, with what was in it and all that has been appended.
abbrev HasAppended : Files → Bytes → List Effect → Type 0
HasAppended files path es =
    apply_all files es path ≡ some (contents (files path) ++ appended path es)

appended-last :
    (path : Bytes) (es : List Effect) (e : Effect)
    → appended path (es ++ e ∷ []) ≡ appended path es ++ appended path (e ∷ [])
appended-last path es e = appended-append path es (e ∷ [])

waits-HasAppended :
    (files : Files) (path : Bytes) (es : List Effect) (fd events : ℕ)
    → HasAppended files path es
    → HasAppended files path (es ++ modify_wait fd events ∷ [])
waits-HasAppended files path es fd events h =
    ap (λ f. f path) (apply_all-append files es (modify_wait fd events ∷ []))
    ∙ h
    ∙ ap (λ x. some (contents (files path) ++ x))
        (sym (appended-last path es (modify_wait fd events) ∙ append-nil _))

appends-HasAppended :
    (files : Files) (path q bytes : Bytes) (es : List Effect)
    → HasAppended files path es
    → HasAppended files path (es ++ append_file q bytes ∷ [])
appends-HasAppended files path q bytes es h =
    let e = append_file q bytes in
    let split = appended-last path es e in
    ap (λ f. f path) (apply_all-append files es (e ∷ [])) ∙ elim (Bool-cases (equal q path)) [
      | inl same ↦
          let now : appended path (e ∷ []) ≡ bytes = rw same (append-nil bytes) in
          let before : apply_all files es q ≡ some (contents (files path) ++ appended path es) =
            ap (apply_all files es) (equal_sound q path same) ∙ h in
          rw (same, before)
            (ap some (
              append_assoc (contents (files path)) (appended path es) bytes
              ∙ ap (◌++◌ (contents (files path)))
                  (ap (◌++◌ (appended path es)) (sym now) ∙ sym split)))
      | inr other ↦
          let now : appended path (e ∷ []) ≡ [] = rw other refl in
          rw other (
            h
            ∙ ap (λ x. some (contents (files path) ++ x))
                (sym (split ∙ ap (◌++◌ (appended path es)) now ∙ append-nil _)))
    ]

appends-IsKeptBy :
    (s : Recv.Setting) (files : Files) (path : Bytes)
    → let P : Conn → Type 0 = λ c. HasAppended files path c.done in IsKeptBy s P P P
unfolding on_end
appends-IsKeptBy s files path = record {
  parses = λ c chunk r h e. h;
  enters = λ c h e. h;
  begins = λ c i b h q. h;
  heads = λ c r h at q. h;
  saves = λ c w h at. appends-HasAppended files path (upload_path c.req) w.written c.done h;
  stays = λ c h. h;
  answers = λ c name h. waits-HasAppended files path c.done s.client_fd _ h;
  puts = λ c name h. waits-HasAppended files path c.done s.client_fd _ h;
  gives_up = λ c h. h;
  ends = ends;
}
  where
    ends :
        (c : Conn) (e : RecvEnd)
        → HasAppended files path c.done
        → HasAppended files path (on_end s c e).done
    ends c closed h = h
    ends c failed h = h
    ends c would_block h = waits-HasAppended files path c.done s.client_fd _ h

-- The first bytes of the contents make the file.
stores-HasAppended :
    (up : Recv.Setting) (files : Files) (b early : Bytes) (xs : List Bytes) (start c' : Conn)
    → length b < 2 ^ 30
    → length early ≤ 2048
    → start.done ≡ []
    → start.req.recv_msg ≡ []
    → IsUploading up b start.req
    → recv_loop up start (early ∷ xs) would_block ≡ ok c'
    → HasAppended files (upload_path start.req) c'.done
stores-HasAppended up files b early xs start c' small fits new empty u run =
    let path = upload_path start.req in
    let P : Conn → Type 0 = λ c. HasAppended files path c.done in
    let (w, saves, up_to) =
      save_content_lem b (start.req.recv_msg ++ early)
        (omega (arith, fits, ap (λ m. length (m ++ early)) empty)) (omega arith) in
    let later = saved_to (receive start early) w in
    let made : P later = rw new (
      rw (equal_self path)
        (ap (λ z. some (contents (files path) ++ z)) (sym (append-nil w.written)))) in
    let step = on_chunk-IsUploading up b early start w u saves in
    elim (Bool-cases w.finished) [
      | inl fin ↦
          subst (OnOk P)
            (sym (
                recv_loop-leave up start _ early xs would_block (
                  step
                  ∙ ap
                      (λ q.
                        if q
                        then leave (answer up (codes "/redirect") handle_complete later)
                        else next later)
                      fin))
              ∙ run)
            (waits-HasAppended files path later.done up.client_fd _ made)
      | inr more ↦
          subst (OnOk P)
            (sym (
                recv_loop-next up start later early xs would_block (
                  step
                  ∙ ap
                      (λ q.
                        if q
                        then leave (answer up (codes "/redirect") handle_complete later)
                        else next later)
                      more))
              ∙ run)
            (recv_loop-Holds up _ _ _ (appends-IsKeptBy up files path) later xs would_block made)
    ]

module _ (up : Recv.Setting) (b line name : Bytes) (others : List Bytes) (early : Bytes)
    (t : Tables) (x : Bytes) (xs : List Bytes) (r : Request) (i : ℕ) (files : Files) where
  abbrev path : Bytes
  path = codes "filedir/" ++ name

  -- What the file is to hold.
  abbrev pub stored : Bytes
  stored = contents (files path) ++ take i (early ++ joined xs)

  -- The call that receives the upload.
  pub upload-stored :
      length b < 2 ^ 30
      → parse (req_of (t.requests up.client_fd)) x ≡ ok r
      → BeginsUpload up b line name others early r
      → FitBuffer (early ∷ xs)
      → find (closing b) (early ++ joined xs) ≡ some i
      → (c : Conn) × (Recv.process up t (x ∷ xs) would_block ≡ ok (store up t c (none, c.done)))
        × (apply_all files c.done path ≡ some stored)
        × (c.resp
            ≡ some (record (resp_of up (t.responses up.client_fd)) {
              body_file_name = codes "/redirect";
            }))
  unfolding Recv.process
  upload-stored small p begins fit found =
      let c = conn_of up t in
      let start = at_contents c r name in
      let (c', run, up_to) =
        recv_loop-UploadedFile up b line name others early c x xs r small p begins fit in
      let (complete, answer, bytes) =
        subst (λ o. Uploaded up b start (early ++ joined xs) o c') found up_to in
      let from_start : recv_loop up start (early ∷ xs) would_block ≡ ok c' =
        sym (recv_loop-BeginsUpload up b line name others early c x xs r would_block p begins)
        ∙ run in
      let there =
        stores-HasAppended up files b early xs start c' small fit.0 refl refl
          (at_contents-IsUploading up b line name others early c r begins) from_start in
      (
        c',
        ap (finish up t) run ∙ ap (λ st. ok (store up t c' (settle up st c'))) complete,
        there ∙ ap (λ y. some (contents (files path) ++ y)) bytes,
        answer,
      )

  -- What is uploaded is what is downloaded: where one receipt completes the header of a POST request
  -- with this boundary and the head of the part that names the file, and brings the first bytes
  -- `early` of the contents, or none, the file can be opened, receipts of at most 2048 bytes bring the
  -- rest, and the first closing boundary stands at `i`, the handler returns with the bytes before it
  -- appended to what the file held; a new connection with another descriptor, whose client then
  -- writes, in any pieces, the head of a well-formed GET request for `/downl/` and that name, gets the
  -- header, with the size as its Content-Length, and exactly what the file held and the uploaded
  -- bytes, where the files are the ones that the upload left, a descriptor stands for the path that
  -- was opened, sizes are below 2 ^ 63, `send` and `sendfile` are called often enough and take a byte
  -- at least each time, and the entry that is made at the end is not of the type of a file.
  pub upload-download :
      (s : Build.Setting) (naming : Naming) (can_append : Bytes → Bool) (garbage : Garbage)
      (y : Bytes) (ys : List Bytes) (e : RecvEnd) (ns : List ℕ) (stop : SendStop) (version : Bytes)
      (hs : List (Bytes × Bytes))
      → length b < 2 ^ 30
      → parse (req_of (t.requests up.client_fd)) x ≡ ok r
      → BeginsUpload up b line name others early r
      → FitBuffer (early ∷ xs)
      → find (closing b) (early ++ joined xs) ≡ some i
      → up.client_fd ≢ s.client_fd
      → t.requests s.client_fd ≡ none
      → t.responses s.client_fd ≡ none
      → joined (y ∷ ys) ≡ request_head (codes "GET") (path_of (codes "downl") name) version hs
      → IsToken name
      → IsToken version
      → AreHeaders hs
      → AreKept hs
      → length (path_of (codes "downl") name) < 2 ^ 63
      → naming.path (pos (naming.descriptor path)) ≡ path
      → length stored < 2 ^ 63
      → AreEnough (length (download_head (length stored)) + length stored) ns
      → s.garbage_after.body_type ≢ file_type
      → (t1 : Tables) × (done : List Effect) × (Recv.process up t (x ∷ xs) would_block
          ≡ ok (t1, done))
        × (let later = on_files (apply_all files done) naming s in
            Answers
              (reading later can_append garbage)
              later
              t1
              (y ∷ ys)
              e
              ns
              stop
              (download_head (length stored) ++ stored))
  upload-download s naming can_append garbage y ys e ns stop version hs small p begins fit found
        other no_request no_response written token v headers kept short named size enough no_file =
      let (c, run, there, answer) = upload-stored small p begins fit found in
      let t1 = (store up t c (none, c.done)).0 in
      let later = on_files (apply_all files c.done) naming s in
      let skip : (up.client_fd == s.client_fd) ≡ false = ground arith in
      let reads : contents (apply_all files c.done (naming.path (pos (naming.descriptor path))))
          ≡ stored =
        ap (λ q. contents (apply_all files c.done q)) named ∙ ap contents there in
      (
        t1,
        c.done,
        run,
        serve-file later can_append garbage t1 y ys e ns stop name version stored hs
            (naming.descriptor path) (rw skip no_request) (rw skip no_response) written token v
            headers kept short (ap (opened naming path) there) reads (ap length reads) size enough
            no_file,
      )
