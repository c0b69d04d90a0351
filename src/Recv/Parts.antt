-- ===== src/Recv/Parts.antt =====
-- What a request holds once its head has been read.
use cherokee.Base.{
  ℕ, zero, suc, ◌+◌, ◌/◌, ◌%◌, ◌^◌, ◌<◌, true, false, List, [], ◌∷◌, ◌++◌, Option, none, some, ◌≡◌,
  refl, sym, ap, ◌∙◌, arith, ltb, if◌then◌else◌, inl, inr, Bool-cases,
}
use cherokee.Base.Int.{ℤ, pos}
use cherokee.Fault.{ok, ◌>>=◌}
use cherokee.Message.{handle_body, Headers, Request, new_request, get_header, set_header}
use cherokee.Message.Header.{set_option}
use cherokee.Message.HeaderLaws.{with_recv}
use cherokee.Recv.Parse.{parse, end_head}
use cherokee.Recv.RequestText.{IsToken, IsPlain, AreHeaders, request_head, set_all}
use cherokee.Recv.RoundTrip.{with_line, parse-request_head}
use cherokee.Send.Decimal.{digits_onto, to_string}
use cherokee.Send.PageLaws.{stoll-to_string}
use cherokee.Text.{Bytes, codes, equal, equal_self, equal_sound, is_space}

-- A header: a Content-Length, as a decimal number, or another one, by its name and value.
pub data Field : Type 0 where
  length_field : ℕ → Field
  plain_field : Bytes → Bytes → Field

abbrev pub written : Field → Bytes × Bytes
written (length_field n) = (codes "Content-Length", to_string n)
written (plain_field key value) = (key, value)

abbrev pub all_written : List Field → List (Bytes × Bytes)
all_written [] = []
all_written (f ∷ fs) = written f ∷ all_written fs

abbrev pub IsField : Field → Type 0
IsField (length_field n) = n < 2 ^ 63
IsField (plain_field key value) =
    IsToken key
    × IsPlain value
    × (equal key (codes "Content-Length") ≡ false)
    × (equal key (codes "Content-Type") ≡ false)

abbrev pub AreFields : List Field → Type 0
AreFields [] = Unit
AreFields (f ∷ fs) = IsField f × AreFields fs

-- The last number that is announced, `n` if there is none.
abbrev pub announced : ℤ → List Field → ℤ
announced n [] = n
announced n (length_field m ∷ fs) = announced (pos m) fs
announced n (plain_field key value ∷ fs) = announced n fs

-- The last value for a name, `o` if there is none.
abbrev pub last_value : Bytes → Option Bytes → List Field → Option Bytes
last_value key o [] = o
last_value key o (length_field m ∷ fs) = last_value key o fs
last_value key o (plain_field k value ∷ fs) =
    last_value key (if equal k key then some value else o) fs

get-set_header :
    (key j value : Bytes) (m : Headers)
    → get_header key (set_header j value m) ≡ (if equal j key then some value else get_header key m)
unfolding get_header set_header
get-set_header key j value [] = refl
get-set_header key j value ((i, w) ∷ m) = elim (Bool-cases (equal i j)) [
  | inl same ↦ rw same (elim (Bool-cases (equal j key)) [
    | inl e ↦ rw e refl
    | inr e ↦
        let f : equal i key ≡ false = ap (λ z. equal z key) (equal_sound i j same) ∙ e in
        rw (e, f) refl
  ])
  | inr other ↦ rw other (elim (Bool-cases (equal i key)) [
    | inl e ↦ elim (Bool-cases (equal j key)) [
      | inl f ↦ absurd (differ (equal_sound i key e ∙ sym (equal_sound j key f)) other)
      | inr f ↦ rw (e, f) refl
    ]
    | inr e ↦ rw e (get-set_header key j value m)
  ])
]
  where
    differ : {i j : Bytes} → i ≡ j → equal i j ≡ false → ⊥
    differ {i} {j} is other =
        let same : equal i j ≡ true = ap (λ z. equal z j) is ∙ equal_self j in cc

digits_onto-IsPlain : (f n : ℕ) (acc : Bytes) → IsPlain acc → IsPlain (digits_onto f n acc)
unfolding digits_onto
digits_onto-IsPlain zero n acc h = h
digits_onto-IsPlain (suc f) n acc h = elim (Bool-cases (ltb n 10)) [
  | inl small ↦ rw small ((λ e. omega (arith, e)), (λ e. omega (arith, e)), h)
  | inr large ↦ rw large (
      digits_onto-IsPlain f (n / 10) ((b'0' + n % 10) ∷ acc)
        ((λ e. omega (arith, e)), (λ e. omega (arith, e)), h))
]

to_string-IsPlain : (n : ℕ) → IsPlain (to_string n)
unfolding to_string
to_string-IsPlain n = digits_onto-IsPlain 20 n [] tt

length-IsToken : IsToken (codes "Content-Length")
unfolding is_space
length-IsToken = (
  (
    refl,
    (
      refl,
      (
        refl,
        (refl, (refl, (refl, (refl, (refl, (refl, (refl, (refl, (refl, (refl, (refl, tt))))))))))),
      ),
    ),
  ),
  λ e. cc,
)

all_written-AreHeaders : (fs : List Field) → AreFields fs → AreHeaders (all_written fs)
all_written-AreHeaders [] h = tt
all_written-AreHeaders (length_field n ∷ fs) (small, h) =
    (length-IsToken, to_string-IsPlain n, all_written-AreHeaders fs h)
all_written-AreHeaders (plain_field key value ∷ fs) ((k, v, n, t), h) =
    (k, v, all_written-AreHeaders fs h)

-- The request after these headers.
abbrev Holds : Request → List Field → Request → Type 0
Holds r fs q =
    (q.request_method ≡ r.request_method)
    × (q.request_resource ≡ r.request_resource)
    × (q.http_version ≡ r.http_version)
    × (q.content_length ≡ announced r.content_length fs)
    × ((key : Bytes)
        → get_header key q.msg_header ≡ last_value key (get_header key r.msg_header) fs)

set_all-Holds :
    (fs : List Field) (r : Request)
    → AreFields fs
    → (q : Request) × (set_all r (all_written fs) ≡ ok q) × Holds r fs q
unfolding set_option equal
set_all-Holds [] r h = (r, refl, (refl, refl, refl, refl, λ key. refl))
set_all-Holds (length_field n ∷ fs) r (small, h) =
    rw (stoll-to_string n small) (set_all-Holds fs (record r { content_length = pos n }) h)
set_all-Holds (plain_field k value ∷ fs) r ((token, plain, n, t), h) =
    let r1 = record r { msg_header = set_header k value r.msg_header } in
    let (q, sets, (method, resource, version, size, headers)) = set_all-Holds fs r1 h in
    (
      q,
      rw (n, t) sets,
      (
        method,
        resource,
        version,
        size,
        λ key.
            headers key ∙ ap (λ o. last_value key o fs) (get-set_header key k value r.msg_header),
      ),
    )

-- From the bytes that a client writes for the head of a request, with any method, resource and version
-- without white space in them, any headers whose names have no white space and whose values have no
-- line ends, no Content-Type, and any bytes behind the empty line: the handler reads a request with
-- just this method, resource and version; its content length is the number of the last Content-Length,
-- written as a decimal number below 2 ^ 63, and 0 where there is none; each other name has the value
-- of the last header of that name, and no value where there is none; the bytes behind the empty line
-- wait, and the body begins.
pub parse-parts :
    (method resource version : Bytes) (fs : List Field) (rest : Bytes)
    → IsToken method
    → IsToken resource
    → IsToken version
    → AreFields fs
    → (q : Request) × (parse new_request
          (request_head method resource version (all_written fs) ++ rest)
        ≡ ok q)
      × (q.request_method ≡ method)
      × (q.request_resource ≡ resource)
      × (q.http_version ≡ version)
      × (q.content_length ≡ announced (pos 0) fs)
      × ((key : Bytes) → get_header key q.msg_header ≡ last_value key none fs)
      × (q.recv_msg ≡ rest)
      × (q.status ≡ handle_body)
unfolding get_header
parse-parts method resource version fs rest m p v h =
    let (q, sets, (is_method, is_resource, is_version, size, headers)) =
      set_all-Holds fs (with_line method resource version) h in
    (
      end_head (with_recv rest q),
      parse-request_head method resource version (all_written fs) rest m p v
            (all_written-AreHeaders fs h)
          ∙ ap (λ o. o >>= λ r. ok (end_head (with_recv rest r))) sets,
      is_method,
      is_resource,
      is_version,
      size,
      headers,
      refl,
      refl,
    )
