-- ===== src/Message/HeaderLaws.antt =====
-- What the parsing of the request line and of a header leaves alone: the bytes that wait, and the
-- state of the reading.
use cherokee.Base.{◌≡◌, arith, inl, inr, Option-cases}
use cherokee.Fault.{Result, ok, fault, ◌>>=◌}
use cherokee.Message.{Request}
use cherokee.Message.Header.{set_request_line, add_content_type, set_option, add_header_opt}
use cherokee.Text.{Bytes, read_token}

abbrev pub with_recv : Bytes → Request → Request
with_recv t r = record r { recv_msg = t }

-- `f` neither reads nor writes the bytes that wait, nor the status.
abbrev Keeps : (Request → Result Request) → Type 0
Keeps f = (t : Bytes) (r : Request) → f (with_recv t r) ≡ (f r >>= λ r'. ok (with_recv t r'))

add_content_type-with_recv :
    (key value t : Bytes) (r : Request)
    → add_content_type (with_recv t r) key value
      ≡ (add_content_type r key value >>= λ r'. ok (with_recv t r'))
unfolding add_content_type
add_content_type-with_recv key value t r = ground arith

pub set_option-with_recv :
    (key value t : Bytes) (r : Request)
    → set_option (with_recv t r) key value ≡ (set_option r key value >>= λ r'. ok (with_recv t r'))
unfolding set_option
set_option-with_recv key value t r = ground (arith, add_content_type-with_recv key value t r)

pub add_header_opt-with_recv :
    (line t : Bytes) (r : Request)
    → add_header_opt (with_recv t r) line ≡ (add_header_opt r line >>= λ r'. ok (with_recv t r'))
unfolding add_header_opt
add_header_opt-with_recv line t r = elim (Option-cases (read_token line)) [
  | inl e ↦ rw (e, add_header_opt)
  | inr ((key, rest), e) ↦ rw (e, add_header_opt) (set_option-with_recv _ _ t r)
]

-- The result is for a request in the same state.
abbrev pub SameStatus : Request → Result Request → Type 0
SameStatus r (ok r') = r'.status ≡ r.status
SameStatus r (fault e) = Unit {0}

set_option-SameStatus : (key value : Bytes) (r : Request) → SameStatus r (set_option r key value)
unfolding set_option add_content_type
set_option-SameStatus key value r = ground arith

pub add_header_opt-SameStatus : (line : Bytes) (r : Request) → SameStatus r (add_header_opt r line)
unfolding add_header_opt
add_header_opt-SameStatus line r = elim (Option-cases (read_token line)) [
  | inl e ↦ rw (e, add_header_opt) tt
  | inr ((key, rest), e) ↦ rw (e, add_header_opt) (set_option-SameStatus _ _ r)
]

pub set_request_line-with_recv :
    (line t : Bytes) (r : Request)
    → set_request_line (with_recv t r) line ≡ with_recv t (set_request_line r line)
unfolding set_request_line
set_request_line-with_recv line t r = ground arith

-- The result is for a request at the same point of an upload.
abbrev pub SameFile : Request → Result Request → Type 0
SameFile r (ok r') = r'.file_msg_status ≡ r.file_msg_status
SameFile r (fault e) = Unit {0}

set_option-SameFile : (key value : Bytes) (r : Request) → SameFile r (set_option r key value)
unfolding set_option add_content_type
set_option-SameFile key value r = ground arith

pub add_header_opt-SameFile : (line : Bytes) (r : Request) → SameFile r (add_header_opt r line)
unfolding add_header_opt
add_header_opt-SameFile line r = elim (Option-cases (read_token line)) [
  | inl e ↦ rw (e, add_header_opt) tt
  | inr ((key, rest), e) ↦ rw (e, add_header_opt) (set_option-SameFile _ _ r)
]

pub file_msg_status-set_request_line :
    (r : Request) (line : Bytes) → (set_request_line r line).file_msg_status ≡ r.file_msg_status
unfolding set_request_line
file_msg_status-set_request_line r line = ground arith
