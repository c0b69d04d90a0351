-- ===== src/Recv/RoundTrip.antt =====
-- Reading the head of a request gives back the parts that it was written from.
use cherokee.Base.{
  ℕ, zero, suc, ◌+◌, ◌<◌, ◌≤◌, true, false, List, [], ◌∷◌, ◌++◌, ◌≡◌, ◌≢◌, refl, sym, ap, ap₂, ◌∙◌,
  arith, append_assoc, length, length-append, take, drop,
}
use cherokee.Fault.{Result, ok, ◌>>=◌, bind_assoc, bind-ext}
use cherokee.Message.{handle_head, Request, new_request}
use cherokee.Message.Header.{set_option, add_header_opt, set_request_line}
use cherokee.Message.HeaderLaws.{with_recv, set_option-with_recv}
use cherokee.Recv.HeadLoop.{loop-end, loop-line, take_head-head}
use cherokee.Recv.Parse.{parse, take_line, line_at, take_head, head_loop, end_head}
use cherokee.Recv.RequestText.{
  NoSpace, IsToken, IsPlain, request_line, header_line, header_lines, request_head, AreHeaders,
  set_all, set_request_line-request_line, add_header_opt-header_line, find-crlf,
}
use cherokee.Text.{Bytes, crlf, equal, equal_self, is_space}

differ : (c d : ℕ) → is_space c ≡ false → is_space d ≡ true → c ≢ d
differ c d p q e = let same : is_space c ≡ true = ap is_space e ∙ q in cc

NoSpace-IsPlain : (w : Bytes) → NoSpace w → IsPlain w
unfolding is_space
NoSpace-IsPlain [] h = tt
NoSpace-IsPlain (c ∷ w) (p, h) =
    (λ e. differ c 13 p refl e, λ e. differ c 10 p refl e, NoSpace-IsPlain w h)

IsPlain-append : (s t : Bytes) → IsPlain s → IsPlain t → IsPlain (s ++ t)
IsPlain-append [] t h k = k
IsPlain-append (c ∷ s) t (r, n, h) k = (r, n, IsPlain-append s t h k)

request_line-IsPlain :
    (m p v : Bytes) → IsToken m → IsToken p → IsToken v → IsPlain (request_line m p v)
request_line-IsPlain m p v hm hp hv = IsPlain-append m _ (NoSpace-IsPlain m hm.0) (
  (λ e. omega (arith, e)),
  (λ e. omega (arith, e)),
  IsPlain-append p _ (NoSpace-IsPlain p hp.0)
      ((λ e. omega (arith, e)), (λ e. omega (arith, e)), NoSpace-IsPlain v hv.0),
)

header_line-IsPlain : (k v : Bytes) → IsToken k → IsPlain v → IsPlain (header_line (k, v))
header_line-IsPlain k v hk hv = IsPlain-append k _ (NoSpace-IsPlain k hk.0) (
  (λ e. omega (arith, e)),
  (λ e. omega (arith, e)),
  ((λ e. omega (arith, e)), (λ e. omega (arith, e)), hv),
)

-- A line and its end, and the rest.
pub take-line : (s t : Bytes) → take (length s + 2) (s ++ (13 ∷ (10 ∷ t))) ≡ s ++ crlf
take-line [] t = refl
take-line (c ∷ s) t =
    let e : suc (length s) + 2 ≡ suc (length s + 2) = omega arith in
    ap (λ n. take n (c ∷ (s ++ (13 ∷ (10 ∷ t))))) e ∙ ap (λ x. c ∷ x) (take-line s t)

pub drop-line : (s t : Bytes) → drop (length s + 2) (s ++ (13 ∷ (10 ∷ t))) ≡ t
drop-line [] t = refl
drop-line (c ∷ s) t =
    let e : suc (length s) + 2 ≡ suc (length s + 2) = omega arith in
    ap (λ n. drop n (c ∷ (s ++ (13 ∷ (10 ∷ t))))) e ∙ drop-line s t

line_not_empty : (k v : Bytes) → IsToken k → equal (header_line (k, v) ++ crlf) crlf ≡ false
unfolding equal is_space
line_not_empty [] v (h, ne) = absurd (ne refl)
line_not_empty (c ∷ k) v ((p, h), ne) = ground (arith, differ c 13 p refl)

-- What the loop over the header makes of these lines, with `rest` behind the empty line.
abbrev read_headers : Request → List (Bytes × Bytes) → Bytes → Result Request
read_headers r hs rest = set_all r hs >>= λ r'. ok (end_head (with_recv rest r'))

abbrev waiting_lines : List (Bytes × Bytes) → Bytes → Bytes
waiting_lines hs rest = header_lines hs ++ (13 ∷ (10 ∷ rest))

head_loop-end :
    (f : ℕ) (r : Request) (rest : Bytes)
    → head_loop (suc f) (with_recv (13 ∷ (10 ∷ rest)) r) ≡ ok (end_head (with_recv rest r))
head_loop-end f r rest =
    loop-end f (with_recv (13 ∷ (10 ∷ rest)) r) 0 (find-crlf [] rest tt) (equal_self crlf)

-- One line, of whose end the loop removes all.
head_loop-line :
    (f : ℕ) (r : Request) (k v tail : Bytes)
    → IsToken k
    → IsPlain v
    → head_loop (suc f) (with_recv (header_line (k, v) ++ (13 ∷ (10 ∷ tail))) r)
      ≡ (set_option r k v >>= λ r'. head_loop f (with_recv tail r'))
head_loop-line f r k v tail hk hv =
    let line = header_line (k, v) in
    let r1 = with_recv (line ++ (13 ∷ (10 ∷ tail))) r in
    let i = length line in
    let first = take-line line tail in
    loop-line f r1 i (find-crlf line tail (header_line-IsPlain k v hk hv))
      (ap (λ x. equal x crlf) first ∙ line_not_empty k v hk)
    ∙ ap (λ x. add_header_opt (with_recv x r) (take (i + 2) r1.recv_msg) >>= λ r'. head_loop f r')
        (drop-line line tail)
    ∙ ap (λ x. add_header_opt (with_recv tail r) x >>= λ r'. head_loop f r') first
    ∙ ap (λ m. m >>= λ r'. head_loop f r')
        (add_header_opt-header_line (with_recv tail r) k v [] hk hv)
    ∙ ap (λ m. m >>= λ r'. head_loop f r') (set_option-with_recv k v tail r)
    ∙ bind_assoc (set_option r k v) _ _

head_loop-headers :
    (f : ℕ) (r : Request) (hs : List (Bytes × Bytes)) (rest : Bytes)
    → AreHeaders hs
    → length hs < f
    → head_loop f (with_recv (waiting_lines hs rest) r) ≡ read_headers r hs rest
head_loop-headers zero r hs rest h lt = absurd (omega arith)
head_loop-headers (suc f) r [] rest h lt = head_loop-end f r rest
head_loop-headers (suc f) r ((k, v) ∷ hs) rest (hk, hv, h) lt =
    let tail = waiting_lines hs rest in
    ap (λ x. head_loop (suc f) (with_recv x r))
      (append_assoc (header_line (k, v)) (13 ∷ (10 ∷ header_lines hs)) (13 ∷ (10 ∷ rest)))
    ∙ head_loop-line f r k v tail hk hv
    ∙ bind-ext (set_option r k v) _ _ (λ r' e. head_loop-headers f r' hs rest h (omega arith))
    ∙ sym (bind_assoc (set_option r k v) _ _)

-- With its first line read.
abbrev pub with_line : Bytes → Bytes → Bytes → Request
with_line method resource version = record new_request {
  status = handle_head;
  request_method = method;
  request_resource = resource;
  http_version = version;
}

take_line-request_line :
    (m p v rest : Bytes)
    → IsToken m
    → IsToken p
    → IsToken v
    → take_line (record new_request { recv_msg = request_line m p v ++ (13 ∷ (10 ∷ rest)) })
      ≡ with_recv rest (with_line m p v)
unfolding take_line line_at
take_line-request_line m p v rest hm hp hv =
    let line = request_line m p v in
    let r = record new_request { recv_msg = line ++ (13 ∷ (10 ∷ rest)) } in
    rw (find-crlf line rest (request_line-IsPlain m p v hm hp hv), line_at)
      (ap₂ (λ x y. record (set_request_line r x) { status = handle_head; recv_msg = y })
          (take-line line rest) (drop-line line rest)
        ∙ ap (λ (q : Request). record q { status = handle_head; recv_msg = rest })
            (set_request_line-request_line r m p v (10 ∷ []) hm hp hv))

length-header_lines : (hs : List (Bytes × Bytes)) → length hs ≤ length (header_lines hs)
length-header_lines [] = omega arith
length-header_lines (h ∷ hs) =
    omega
      (arith, length-header_lines hs, length-append (header_line h) (13 ∷ (10 ∷ header_lines hs)))

-- From the bytes that a client writes for the head of a request, with any method, resource, version
-- and header names without white space in them and values without line ends, and any bytes behind
-- it, the handler reads just these parts: the three words of the first line, then each header in
-- order, up to the empty line; the bytes behind it wait, and the body begins.
pub parse-request_head :
    (method resource version : Bytes) (hs : List (Bytes × Bytes)) (rest : Bytes)
    → IsToken method
    → IsToken resource
    → IsToken version
    → AreHeaders hs
    → parse new_request (request_head method resource version hs ++ rest)
      ≡ (set_all (with_line method resource version) hs >>= λ r. ok (end_head (with_recv rest r)))
unfolding parse
parse-request_head m p v hs rest hm hp hv h =
    let lines = waiting_lines hs rest in
    let r = with_recv lines (with_line m p v) in
    ap (λ x. take_head (take_line (record new_request { recv_msg = x })))
      (append_assoc (request_line m p v) (13 ∷ (10 ∷ (header_lines hs ++ crlf))) rest
        ∙ ap (λ x. request_line m p v ++ (13 ∷ (10 ∷ x)))
            (append_assoc (header_lines hs) crlf rest))
    ∙ ap take_head (take_line-request_line m p v lines hm hp hv)
    ∙ take_head-head (suc (length lines)) r refl (omega arith)
    ∙ head_loop-headers (suc (length lines)) (with_line m p v) hs rest h
        (omega (arith, length-header_lines hs, length-append (header_lines hs) (13 ∷ (10 ∷ rest))))
